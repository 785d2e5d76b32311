-- ===== src/AddressSpace/Map.antt =====
-- Lemmas on `MapLocked` of common/address_space.inc.
use skyline.Base.{
  ℕ, ◌+◌, ◌≤◌, ◌<◌, ◌≡◌, refl, Bool, true, false, ◌&&◌, inl, inr, List, [], ◌∷◌, ltb, leb, ◌==◌,
  if◌then◌else◌, arith, Bool-cases, ok, ltb-false,
}
use native.Mathlib.Nat.{mod-eq_of_lt}
use skyline.AddressSpace.{
  Block, Config, block, rezip, overwrite, map_at, map_locked, lower_bound, tail_phys,
}
use skyline.AddressSpace.View.{
  From, Back, Fits, WellFormed, translate, phys_at, AtLeast, tail_phys-Fits,
}
use skyline.AddressSpace.Cursor.{Split}
use skyline.AddressSpace.Written.{Replaces}
use skyline.AddressSpace.Overwrite.{
  IsConfig, Fits-end, above-unmapped, above-successor, above-tail, below-skip, Back-Fits,
  written-Maps, overwrite-Maps, lower_bound-Split,
}

map_at-Maps :
    (c : Config) (bs : List Block) (n : Block) (virt_end : ℕ)
    → IsConfig c
    → 0 < n.virt
    → n.virt < virt_end
    → virt_end ≤ c.va_limit
    → Fits c n
    → (near : Block) (left right : List Block) → Back c near left
    → From c near right
    → near.virt < virt_end
    → AtLeast virt_end right
    → rezip (near ∷ left) right ≡ bs
    → Replaces c bs n.virt virt_end (λ va. phys_at c va n) (map_at c n virt_end (near ∷ left) right)
unfolding map_at
map_at-Maps c bs n virt_end cfg pos lt lim fn near [] [] back from below above whole =
    written-Maps c bs n virt_end pos lt lim fn s near (block virt_end 0 false) [] [] back
      (omega arith) refl (Fits-end c virt_end cfg (omega arith)) refl (λ va k. refl)
      (λ va k. above-unmapped c near _ [] va (omega arith) from refl) _ refl
  where
    s : Split c virt_end bs (near ∷ [], [])
    s = record {
      near = near;
      left = [];
      right = [];
      parts = refl;
      back = back;
      from = from;
      below = below;
      above = above;
      whole = whole;
    }
map_at-Maps c bs n virt_end cfg pos lt lim fn near (b ∷ left) [] back from below above whole =
    elim (Bool-cases (leb n.virt near.virt)) [
      | inl on ↦ rw on (
          overwrite-Maps c bs n virt_end pos lt lim fn s b (record near { virt = virt_end }) left []
            back.3 (omega arith) refl (omega arith) from
            (λ va k. below-skip near (b ∷ left) va (ground arith))
            (λ va k. above-unmapped c near _ (b ∷ left) va (omega arith) from from))
      | inr off ↦ rw off (
          written-Maps c bs n virt_end pos lt lim fn s near (block virt_end 0 false) (b ∷ left) []
            back (ground arith) refl (Fits-end c virt_end cfg (omega arith)) refl (λ va k. refl)
            (λ va k. above-unmapped c near _ (b ∷ left) va (omega arith) from refl) _ refl)
    ]
  where
    s : Split c virt_end bs (near ∷ b ∷ left, [])
    s = record {
      near = near;
      left = b ∷ left;
      right = [];
      parts = refl;
      back = back;
      from = from;
      below = below;
      above = above;
      whole = whole;
    }
map_at-Maps c bs n virt_end cfg pos lt lim fn near left (es ∷ right) back from below above whole =
    elim (Bool-cases (es.virt == virt_end)) [
      | inl e ↦ rw e (
          overwrite-Maps c bs n virt_end pos lt lim fn s near es left right back below
            (ground arith) from.2 from.3 (λ va k. refl)
            (λ va k. above-successor c es (near ∷ left) right va (ground arith)))
      | inr ne ↦ rw ne (elim (Bool-cases (leb n.virt near.virt)) [
        | inl on ↦ rw on (reuse left back whole on (ground arith))
        | inr off ↦ rw off (
            written-Maps c bs n virt_end pos lt lim fn s near tail left (es ∷ right) back
              (ground arith) refl fits (ground arith, from.1, from.2, from.3) (λ va k. refl)
              (λ va k. above-tail c near left (es ∷ right) virt_end va fitn below lim k) _ refl)
      ])
    ]
  where
    s : Split c virt_end bs (near ∷ left, es ∷ right)
    s = record {
      near = near;
      left = left;
      right = es ∷ right;
      parts = refl;
      back = back;
      from = from;
      below = below;
      above = above;
      whole = whole;
    }

    tail : Block
    tail = block virt_end (tail_phys c near virt_end) near.sparse_mapped

    fitn : Fits c near
    fitn = Back-Fits c near left cfg back

    fits : Fits c tail
    fits = tail_phys-Fits c near virt_end near.sparse_mapped fitn below lim

    reuse :
        (rest : List Block)
        → Back c near rest
        → rezip (near ∷ rest) (es ∷ right) ≡ bs
        → leb n.virt near.virt ≡ true
        → virt_end < es.virt
        → Replaces c bs n.virt virt_end
            (λ va. phys_at c va n)
            (overwrite n virt_end rest (tail ∷ es ∷ right))
    reuse [] k w on gt = absurd (ground arith)
    reuse (b ∷ rest) k w on gt =
        overwrite-Maps c bs n virt_end pos lt lim fn
          (record {
            near = near;
            left = b ∷ rest;
            right = es ∷ right;
            parts = refl;
            back = k;
            from = from;
            below = below;
            above = above;
            whole = w;
          })
          b tail rest (es ∷ right) k.3 (omega arith) refl fits (gt, from.1, from.2, from.3)
          (λ va h. below-skip near (b ∷ rest) va (ground arith))
          (λ va h. above-tail c near (b ∷ rest) (es ∷ right) virt_end va fitn below lim h)

-- `MapLocked` on a well-formed vector, with a region that is not empty, lies above address 0 and
-- within the limit, and with a host range that does not wrap: it returns, the vector stays well
-- formed, the region is backed by `phys` on (by `phys` itself where PaContigSplit is off), every
-- other address keeps its mapping, and the callback is called once, with the region.
pub map_locked_lem :
    (c : Config) (bs : List Block) (virt phys size : ℕ) (info : Bool)
    → IsConfig c
    → WellFormed c bs
    → 0 < virt
    → 0 < size
    → virt + size ≤ c.va_limit
    → Fits c (block virt phys info)
    → (after : List Block) × (map_locked c bs virt phys size info ≡ ok (after, (virt, size) ∷ []))
      × WellFormed c after
      × ((va : ℕ)
          → translate c after va ≡ (
              if leb virt va && ltb va (virt + size)
              then phys_at c va (block virt phys info)
              else translate c bs va))
unfolding map_locked
map_locked_lem c bs virt phys size info cfg wf pos sz lim fn = (
  m.blocks,
  rw (
    mod-eq_of_lt {n = virt + size} {m = c.va_mod} (omega arith),
    s.parts,
    ltb-false c.va_limit (virt + size) lim,
    m.parts,
  ),
  m.well_formed,
  λ va. ground (arith, m.below va, m.inside va, m.above va),
)
  where
    s : Split c (virt + size) bs (lower_bound (virt + size) bs)
    s = lower_bound-Split c (virt + size) bs wf (omega arith)

    m :
        Replaces c bs virt
          (virt + size)
          (λ va. phys_at c va (block virt phys info))
          (map_at c (block virt phys info) (virt + size) (s.near ∷ s.left) s.right)
    m =
        map_at-Maps c bs (block virt phys info) (virt + size) cfg pos (omega arith) lim fn s.near
          s.left s.right s.back s.from s.below s.above s.whole
