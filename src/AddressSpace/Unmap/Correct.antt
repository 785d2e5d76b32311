-- ===== src/AddressSpace/Unmap/Correct.antt =====
-- Lemmas on `UnmapLocked` of common/address_space.inc, for a region between mapped neighbours.
use skyline.Base.{
  ℕ, ◌+◌, ◌-◌, ◌≤◌, ◌<◌, ◌≡◌, refl, true, false, ◌&&◌, inl, inr, List, [], ◌∷◌, none, some, ltb,
  leb, ◌==◌, if◌then◌else◌, arith, Bool-cases, sym, ◌∙◌, ap, leb-true, Result, ok, ltb-false,
  ==-true, ==-false, ◌≢◌, subst,
}
use native.Mathlib.Nat.{mod-eq_of_lt}
use skyline.AddressSpace.{Block, Config, block, rezip, walk_back, lower_bound, tail_phys}
use skyline.AddressSpace.View.{
  From, Back, Fits, WellFormed, or_else, resolve, resolve_back, translate, at, phys_at, AtLeast,
  tail_phys-Fits, resolve-AtLeast, resolve-below,
}
use skyline.AddressSpace.Cursor.{Split, HeadBelow, Walked, walk_back-Walked}
use skyline.AddressSpace.Written.{Replaces, translate-Split}
use skyline.AddressSpace.Overwrite.{
  IsConfig, above-successor, above-tail, below-skip, Back-Fits, written-Maps, lower_bound-Split,
}
use skyline.AddressSpace.Unmap.{cut, cut_back, unmap_at, unmap_locked, unmap_tail_phys}

-- The head of the region: its first block is reused where there is one.
head_block : ℕ → List Block → Block
head_block virt [] = block virt 0 false
head_block virt (m ∷ mid) = record m { virt = virt; phys = 0 }

head_block-virt : (virt : ℕ) (mid : List Block) → (head_block virt mid).virt ≡ virt
unfolding head_block
head_block-virt virt [] = refl
head_block-virt virt (m ∷ mid) = refl

head_block-phys : (virt : ℕ) (mid : List Block) → (head_block virt mid).phys ≡ 0
unfolding head_block
head_block-phys virt [] = refl
head_block-phys virt (m ∷ mid) = refl

cut-mapped :
    (virt virt_end : ℕ) (sp : Block) (left mid : List Block) (es : Block) (right : List Block)
    → sp.phys ≢ 0
    → es.virt ≡ virt_end
    → HeadBelow virt_end mid
    → cut virt virt_end (sp ∷ left, mid) es right
      ≡ ok (rezip (sp ∷ left) (head_block virt mid ∷ es ∷ right))
unfolding cut head_block
cut-mapped virt virt_end sp left [] es right p e h =
    rw (ltb-false virt_end es.virt (omega arith), ==-true es.virt virt_end e, ==-false sp.phys 0 p)
cut-mapped virt virt_end sp left (m ∷ mid) es right p e h = rw (
  ltb-false virt_end m.virt (omega arith),
  ==-false m.virt virt_end (omega arith),
  ==-false sp.phys 0 p,
)

-- A block that an address resolves to is mapped if the address is.
phys_at-mapped : (c : Config) (va : ℕ) (b : Block) → phys_at c va b ≢ none → b.phys ≢ 0
phys_at-mapped c va b h e = h (rw (==-true b.phys 0 e))

resolve_back-near :
    (b : Block) (left : List Block) (va : ℕ) → b.virt ≤ va → resolve_back (b ∷ left) va ≡ some b
unfolding resolve_back
resolve_back-near b left va h = rw (leb-true b.virt va h)

module _ (c : Config) (bs : List Block) (virt virt_end : ℕ) (cfg : IsConfig c) (pos : 0 < virt)
    (lt : virt < virt_end) (lim : virt_end ≤ c.va_limit) {cursor : List Block × List Block}
    (s : Split c virt_end bs cursor) (before : translate c bs (virt - 1) ≢ none) where
  abbrev Unmaps : Result (List Block) → Type 0
  Unmaps = Replaces c bs virt virt_end (λ va. none)

  -- A write of an unmapped block, with the facts that `written-Maps` wants.
  unmapped-Unmaps :
      (n near x : Block) (left right : List Block)
      → n.virt ≡ virt
      → n.phys ≡ 0
      → Back c near left
      → near.virt < virt
      → x.virt ≡ virt_end
      → Fits c x
      → From c x right
      → ((va : ℕ) → va < virt → resolve_back (near ∷ left) va ≡ resolve_back (s.near ∷ s.left) va)
      → ((va : ℕ)
          → virt_end ≤ va
          → at c va (or_else (resolve right va) (some x))
            ≡ at c va (or_else (resolve s.right va) (resolve_back (s.near ∷ s.left) va)))
      → (r : Result (List Block)) → r ≡ ok (rezip (near ∷ left) (n ∷ x ∷ right))
      → Unmaps r
  unmapped-Unmaps n near x left right nv np back sn e fx from lo hi r p =
      let m =
        written-Maps c bs n virt_end (omega arith) (omega arith) lim (omega arith) s near x left
          right back (omega arith) e fx from (λ va k. lo va (omega arith)) hi r p in
      record {
        blocks = m.blocks;
        parts = m.parts;
        well_formed = m.well_formed;
        below = λ va k. m.below va (omega arith);
        inside = λ va h k. m.inside va (omega arith) k ∙ rw (==-true n.phys 0 np);
        above = m.above;
      }

  cut_back-Unmaps :
      (d es : Block) (left right : List Block)
      → Back c d left
      → d.virt < virt_end
      → es.virt ≡ virt_end
      → Fits c es
      → From c es right
      → ((va : ℕ) → va < virt → resolve_back (d ∷ left) va ≡ resolve_back (s.near ∷ s.left) va)
      → ((va : ℕ)
          → virt_end ≤ va
          → at c va (or_else (resolve right va) (some es))
            ≡ at c va (or_else (resolve s.right va) (resolve_back (s.near ∷ s.left) va)))
      → Unmaps (cut_back virt virt_end (d ∷ left) es right)
  unfolding cut_back
  cut_back-Unmaps d es left right back dv e fx from lo hi =
      unmapped-Unmaps (head_block virt w.mid) w.near es w.rest right (head_block-virt virt w.mid)
        (head_block-phys virt w.mid) w.back w.below e fx from (λ va k. w.same va k ∙ lo va k) hi _
        (rw (ltb-false es.virt virt (omega arith), w.parts, cut_back)
          (cut-mapped virt virt_end w.near w.rest w.mid es right start e w.mid_below))
    where
      w : Walked c virt virt_end (d ∷ left) [] (walk_back virt (d ∷ left) [])
      w = walk_back-Walked c virt virt_end d left [] back pos dv tt

      found : translate c bs (virt - 1) ≡ phys_at c (virt - 1) w.near
      found =
          translate-Split c s (virt - 1)
          ∙ rw (resolve-AtLeast c s.near s.right virt_end (virt - 1) s.from s.above (omega arith)) (
              ap (at c (virt - 1)) (
                sym (lo (virt - 1) (omega arith))
                ∙ sym (w.same (virt - 1) (omega arith))
                ∙ resolve_back-near w.near w.rest (virt - 1) (omega (arith, w.below))))

      start : w.near.phys ≢ 0
      start = phys_at-mapped c (virt - 1) w.near (λ n. before (found ∙ n))

unmap_tail_phys-eq-tail_phys :
    (c : Config) (b : Block) (v : ℕ) → b.phys ≢ 0 → unmap_tail_phys c b v ≡ tail_phys c b v
unfolding unmap_tail_phys tail_phys
unmap_tail_phys-eq-tail_phys c b v h = rw (==-false b.phys 0 h) (ground arith)

resolve-cons :
    (b : Block) (bs : List Block) (va : ℕ)
    → b.virt ≤ va
    → resolve (b ∷ bs) va ≡ or_else (resolve bs va) (some b)
unfolding resolve
resolve-cons b bs va h = rw (leb-true b.virt va h)

unmap_at-Unmaps :
    (c : Config) (bs : List Block) (virt virt_end : ℕ)
    → IsConfig c
    → 0 < virt
    → virt < virt_end
    → virt_end ≤ c.va_limit
    → translate c bs (virt - 1) ≢ none
    → (near : Block) (left right : List Block) → Back c near left
    → From c near right
    → near.virt < virt_end
    → AtLeast virt_end right
    → rezip (near ∷ left) right ≡ bs
    → near.phys ≢ 0
    → ((es : Block) (rest : List Block) → right ≡ es ∷ rest → es.virt ≡ virt_end → es.phys ≢ 0)
    → Replaces c bs virt virt_end (λ va. none) (unmap_at c virt virt_end (near ∷ left) right)
unfolding unmap_at
unmap_at-Unmaps c bs virt virt_end cfg pos lt lim before near left [] back from below above whole
      live next =
    absurd (live from)
unmap_at-Unmaps c bs virt virt_end cfg pos lt lim before near left (es ∷ right) back from below
      above whole live next =
    rw (==-false near.phys 0 live) (elim (Bool-cases (es.virt == virt_end)) [
      | inl e ↦
          rw (e, ==-false es.phys 0 (next es right refl (ground arith)))
            (cut_back-Unmaps c bs virt virt_end cfg pos lt lim s before near es left right back
              below (ground arith) from.2 from.3 (λ va k. refl)
              (λ va k. above-successor c es (near ∷ left) right va (ground arith)))
      | inr ne ↦ rw ne (elim (Bool-cases (leb virt near.virt)) [
        | inl on ↦ rw on (reuse left back whole on (ground arith))
        | inr off ↦ rw off (
            unmapped-Unmaps c bs virt virt_end cfg pos lt lim s before (block virt 0 false) near
              tail left (es ∷ right) refl refl back (ground arith) refl fits
              (ground arith, from.1, from.2, from.3) (λ va k. refl) (λ va k. behind left va k) _
              refl)
      ])
    ])
  where
    s : Split c virt_end bs (near ∷ left, es ∷ right)
    s = record {
      near = near;
      left = left;
      right = es ∷ right;
      parts = refl;
      back = back;
      from = from;
      below = below;
      above = above;
      whole = whole;
    }

    tail : Block
    tail = block virt_end (unmap_tail_phys c near virt_end) near.sparse_mapped

    tail_lem : tail ≡ block virt_end (tail_phys c near virt_end) near.sparse_mapped
    tail_lem =
        ap (λ p. block virt_end p near.sparse_mapped)
          (unmap_tail_phys-eq-tail_phys c near virt_end live)

    fitn : Fits c near
    fitn = Back-Fits c near left cfg back

    fits : Fits c tail
    fits =
        subst (Fits c) (sym tail_lem)
          (tail_phys-Fits c near virt_end near.sparse_mapped fitn below lim)

    behind :
        (rest : List Block) (va : ℕ)
        → virt_end ≤ va
        → at c va (or_else (resolve (es ∷ right) va) (some tail))
          ≡ at c va (or_else (resolve (es ∷ right) va) (resolve_back (near ∷ rest) va))
    behind rest va k =
        ap (λ b. at c va (or_else (resolve (es ∷ right) va) (some b))) tail_lem
        ∙ above-tail c near rest (es ∷ right) virt_end va fitn below lim k

    reuse :
        (rest : List Block)
        → Back c near rest
        → rezip (near ∷ rest) (es ∷ right) ≡ bs
        → leb virt near.virt ≡ true
        → virt_end < es.virt
        → Replaces c bs virt virt_end (λ va. none) (cut_back virt virt_end rest tail (es ∷ right))
    reuse [] k w on gt = absurd (ground arith)
    reuse (b ∷ rest) k w on gt =
        cut_back-Unmaps c bs virt virt_end cfg pos lt lim
          (record {
            near = near;
            left = b ∷ rest;
            right = es ∷ right;
            parts = refl;
            back = k;
            from = from;
            below = below;
            above = above;
            whole = w;
          })
          before b tail rest (es ∷ right) k.3 (omega arith) refl fits (gt, from.1, from.2, from.3)
          (λ va h. below-skip near (b ∷ rest) va (ground arith)) (behind (b ∷ rest))

-- `UnmapLocked` on a well-formed vector, for a region that is not empty, lies above address 0 and
-- within the limit, and whose last address and both neighbouring addresses are mapped: it returns,
-- the vector stays well formed, no address of the region is mapped, every other address keeps its
-- mapping, and the callback is called once, with the region.
pub unmap_locked_lem :
    (c : Config) (bs : List Block) (virt size : ℕ)
    → IsConfig c
    → WellFormed c bs
    → 0 < virt
    → 0 < size
    → virt + size ≤ c.va_limit
    → translate c bs (virt - 1) ≢ none
    → translate c bs (virt + size - 1) ≢ none
    → translate c bs (virt + size) ≢ none
    → (after : List Block) × (unmap_locked c bs virt size ≡ ok (after, (virt, size) ∷ []))
      × WellFormed c after
      × ((va : ℕ)
          → translate c after va
            ≡ (if leb virt va && ltb va (virt + size) then none else translate c bs va))
unfolding unmap_locked
unmap_locked_lem c bs virt size cfg wf pos sz lim before final after = (
  m.blocks,
  rw (
    mod-eq_of_lt {n = virt + size} {m = c.va_mod} (omega arith),
    s.parts,
    ltb-false c.va_limit (virt + size) lim,
    m.parts,
  ),
  m.well_formed,
  λ va. ground (arith, m.below va, m.inside va, m.above va),
)
  where
    s : Split c (virt + size) bs (lower_bound (virt + size) bs)
    s = lower_bound-Split c (virt + size) bs wf (omega arith)

    last_found : translate c bs (virt + size - 1) ≡ phys_at c (virt + size - 1) s.near
    last_found =
        translate-Split c s (virt + size - 1)
        ∙ rw
            (resolve-AtLeast c s.near s.right (virt + size) (virt + size - 1) s.from s.above
              (omega arith))
            (ap (at c (virt + size - 1))
              (resolve_back-near s.near s.left (virt + size - 1) (omega (arith, s.below))))

    next_found :
        (es : Block) (rest : List Block) → s.right ≡ es ∷ rest → es.virt ≡ virt + size → es.phys ≢ 0
    next_found es rest e v = phys_at-mapped c (virt + size) es (λ n. after (found ∙ n))
      where
        from : From c s.near (es ∷ rest)
        from = subst (From c s.near) e s.from

        found : translate c bs (virt + size) ≡ phys_at c (virt + size) es
        found =
            translate-Split c s (virt + size)
            ∙ rw (
              e,
              resolve-cons es rest (virt + size) (omega arith),
              resolve-below c es rest (virt + size) from.3 (omega arith),
            )

    m :
        Replaces c bs virt
          (virt + size)
          (λ va. none)
          (unmap_at c virt (virt + size) (s.near ∷ s.left) s.right)
    m =
        unmap_at-Unmaps c bs virt (virt + size) cfg pos (omega arith) lim before s.near s.left
          s.right s.back s.from s.below s.above s.whole
          (phys_at-mapped c (virt + size - 1) s.near (λ n. final (last_found ∙ n))) next_found
