-- ===== src/AddressSpace/Overwrite.antt =====
-- A region that is overwritten behind the blocks that stay, the last steps of `MapLocked` and
-- `UnmapLocked` in common/address_space.inc.
use skyline.Base.{
  ℕ, ◌^◌, ◌≤◌, ◌<◌, ◌≡◌, refl, false, List, [], ◌∷◌, none, some, arith, sym, ◌∙◌, ap, leb-false,
  leb-true, Result, ok, ltb-false, lt→ltb, ==-true, ==-false,
}
use skyline.AddressSpace.{Block, Config, block, rezip, place, overwrite, lower_bound, tail_phys}
use skyline.AddressSpace.View.{
  From, Back, Fits, WellFormed, or_else, resolve, resolve_back, at, phys_at, tail_phys-phys_at,
  resolve-AtLeast,
}
use skyline.AddressSpace.Cursor.{Split, seek-Split, HeadBelow, walk_back-Walked}
use skyline.AddressSpace.Written.{
  Replaces, translate-Split, written-WellFormed, written-below, written-inside, written-above,
}

-- What the template's parameters promise.
abbrev pub IsConfig : Config → Type 0
IsConfig c = (c.va_limit < c.va_mod) × (c.va_mod ≤ 2 ^ 64)

-- The block that closes the vector, where the region lies behind all others.
pub Fits-end : (c : Config) (v : ℕ) → IsConfig c → 0 < v → Fits c (block v 0 false)
Fits-end c v h pos = omega arith

-- Behind the region the last block stands for what the old vector had there.
pub above-unmapped :
    (c : Config) (near x : Block) (left : List Block) (va : ℕ)
    → near.virt ≤ va
    → near.phys ≡ 0
    → x.phys ≡ 0
    → at c va (or_else (resolve [] va) (some x))
      ≡ at c va (or_else (resolve [] va) (resolve_back (near ∷ left) va))
unfolding resolve resolve_back
above-unmapped c near x left va h e f = ground arith

pub above-successor :
    (c : Config) (es : Block) (left right : List Block) (va : ℕ)
    → es.virt ≤ va
    → at c va (or_else (resolve right va) (some es))
      ≡ at c va (or_else (resolve (es ∷ right) va) (resolve_back left va))
unfolding resolve
above-successor c es left right va h = rw (leb-true es.virt va h) (ground arith)

pub above-tail :
    (c : Config) (near : Block) (left right : List Block) (v va : ℕ)
    → Fits c near
    → near.virt < v
    → v ≤ c.va_limit
    → v ≤ va
    → at c va (or_else (resolve right va) (some (block v (tail_phys c near v) near.sparse_mapped)))
      ≡ at c va (or_else (resolve right va) (resolve_back (near ∷ left) va))
unfolding resolve_back
above-tail c near left right v va f lt lim h =
    rw (leb-true near.virt va (omega arith))
      (ground (arith, tail_phys-phys_at c near v va f lt lim h))

pub below-skip :
    (near : Block) (left : List Block) (va : ℕ)
    → va < near.virt
    → resolve_back left va ≡ resolve_back (near ∷ left) va
unfolding resolve_back
below-skip near left va h = rw (leb-false near.virt va h)

pub Back-Fits : (c : Config) (b : Block) (left : List Block) → IsConfig c → Back c b left → Fits c b
Back-Fits c b [] h k = omega arith
Back-Fits c b (d ∷ left) h k = k.2

-- The search for the end successor stops behind the first block.
pub lower_bound-Split :
    (c : Config) (va : ℕ) (bs : List Block)
    → WellFormed c bs
    → 0 < va
    → Split c va bs (lower_bound va bs)
unfolding lower_bound rezip
lower_bound-Split c va [] h pos = absurd h
lower_bound-Split c va (b ∷ bs) h pos =
    rw (lt→ltb b.virt va (omega arith))
      (seek-Split c va b [] bs (b ∷ bs) (h.0, h.1) h.2 (omega arith) refl)

place-below :
    (n : Block) (virt_end : ℕ) (left mid : List Block) (x : Block) (right : List Block)
    → x.virt ≡ virt_end
    → HeadBelow virt_end mid
    → place n virt_end left mid (x ∷ right) ≡ ok (rezip left (n ∷ x ∷ right))
unfolding place
place-below n virt_end left [] x right e h =
    rw (ltb-false virt_end x.virt (omega arith), ==-true x.virt virt_end e)
place-below n virt_end left (m ∷ mid) x right e h =
    rw (ltb-false virt_end m.virt (omega arith), ==-false m.virt virt_end (omega arith))

module _ (c : Config) (bs : List Block) (n : Block) (virt_end : ℕ) (pos : 0 < n.virt)
    (lt : n.virt < virt_end) (lim : virt_end ≤ c.va_limit) (fn : Fits c n)
    {cursor : List Block × List Block} (s : Split c virt_end bs cursor) where
  abbrev pub Maps : Result (List Block) → Type 0
  Maps = Replaces c bs n.virt virt_end (λ va. phys_at c va n)

  -- A write behind the cursor `near ∷ left`, which holds what the old vector has below `virt`.
  pub written-Maps :
      (near x : Block) (left right : List Block)
      → Back c near left
      → near.virt < n.virt
      → x.virt ≡ virt_end
      → Fits c x
      → From c x right
      → ((va : ℕ) → va < n.virt → resolve_back (near ∷ left) va ≡ resolve_back (s.near ∷ s.left) va)
      → ((va : ℕ)
          → virt_end ≤ va
          → at c va (or_else (resolve right va) (some x))
            ≡ at c va (or_else (resolve s.right va) (resolve_back (s.near ∷ s.left) va)))
      → (r : Result (List Block)) → r ≡ ok (rezip (near ∷ left) (n ∷ x ∷ right))
      → Maps r
  written-Maps near x left right back sn e fx from lo hi r p =
      let nx : n.virt < x.virt = omega arith in
      let xl : x.virt ≤ c.va_limit = omega arith in
      record {
        blocks = rezip (near ∷ left) (n ∷ x ∷ right);
        parts = p;
        well_formed = written-WellFormed c near n x left right back sn nx xl fn fx from;
        below = λ va k.
            written-below c near n x left right back sn nx xl fn fx from va k
            ∙ ap (at c va) (lo va k)
            ∙ ap (at c va) (
                sym
                  (ap (λ o. or_else o (resolve_back (s.near ∷ s.left) va)) (past va (omega arith))))
            ∙ sym (translate-Split c s va);
        inside = λ va h k.
            written-inside c near n x left right back sn nx xl fn fx from va h (omega arith);
        above = λ va k.
            written-above c near n x left right back sn nx xl fn fx from va (omega arith)
            ∙ hi va k
            ∙ sym (translate-Split c s va);
      }
    where
      past : (va : ℕ) → va < virt_end → resolve s.right va ≡ none
      past va k = resolve-AtLeast c s.near s.right virt_end va s.from s.above k

  pub overwrite-Maps :
      (d x : Block) (left right : List Block)
      → Back c d left
      → d.virt < virt_end
      → x.virt ≡ virt_end
      → Fits c x
      → From c x right
      → ((va : ℕ) → va < n.virt → resolve_back (d ∷ left) va ≡ resolve_back (s.near ∷ s.left) va)
      → ((va : ℕ)
          → virt_end ≤ va
          → at c va (or_else (resolve right va) (some x))
            ≡ at c va (or_else (resolve s.right va) (resolve_back (s.near ∷ s.left) va)))
      → Maps (overwrite n virt_end (d ∷ left) (x ∷ right))
  unfolding overwrite
  overwrite-Maps d x left right back dv e fx from lo hi =
      let w = walk_back-Walked c n.virt virt_end d left [] back pos dv tt in
      written-Maps w.near x w.rest right w.back w.below e fx from (λ va k. w.same va k ∙ lo va k) hi
        _
        (rw (w.parts, overwrite)
          (place-below n virt_end (w.near ∷ w.rest) w.mid x right e w.mid_below))
