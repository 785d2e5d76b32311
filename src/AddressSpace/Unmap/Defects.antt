-- ===== src/AddressSpace/Unmap/Defects.antt =====
-- Regions that `UnmapLocked` of common/address_space.inc does not unmap.
use skyline.Base.{
  ℕ, ◌+◌, ◌≤◌, ◌<◌, ltb, if◌then◌else◌, Result, past_limit, ap, ◌∙◌, ◌≡◌, refl, List, [], ◌∷◌, ◌++◌,
  ok, err, contiguous_unmapped, arith, ◌≢◌, ltb-false, ==-true, ==-false, lt→ltb, leb-false,
  leb-true,
}
use native.Mathlib.Nat.{mod-eq_of_lt}
use skyline.AddressSpace.{Block, Config, Outcome, seek, lower_bound, add_va, notify, walk_back}
use skyline.AddressSpace.View.{From, WellFormed}
use skyline.AddressSpace.Overwrite.{IsConfig}
use skyline.AddressSpace.Unmap.{unmap_locked, unmap_at, erase_to_unmapped, erase_after_walk}

-- Where the first mapped block is followed at once by another one, unmapping exactly that first
-- block returns and leaves the vector as it was, so the block stays mapped.
pub unmap_locked-unchanged :
    (c : Config) (b m es : Block) (right : List Block) (size : ℕ)
    → IsConfig c
    → WellFormed c (b ∷ m ∷ es ∷ right)
    → m.phys ≢ 0
    → es.phys ≢ 0
    → m.virt + size ≡ es.virt
    → unmap_locked c (b ∷ m ∷ es ∷ right) m.virt size ≡ ok (b ∷ m ∷ es ∷ right, (m.virt, size) ∷ [])
unfolding unmap_locked
unmap_locked-unchanged c b m es right size cfg wf pm pe e =
    rw
      (
        mod-eq_of_lt {n = m.virt + size} {m = c.va_mod} (omega arith),
        lt→ltb b.virt (m.virt + size) (omega arith),
        lt→ltb m.virt (m.virt + size) (omega arith),
        ltb-false es.virt (m.virt + size) (omega arith),
        ltb-false c.va_limit (m.virt + size) (omega arith),
        ==-false m.phys 0 pm,
        ==-false es.phys 0 pe,
        ==-true es.virt (m.virt + size) (omega arith),
        ltb-false es.virt m.virt (omega arith),
        leb-true m.virt m.virt (omega arith),
        leb-false m.virt b.virt (omega arith),
        ltb-false (m.virt + size) m.virt (omega arith),
        ==-false m.virt (m.virt + size) (omega arith),
        ==-true b.phys 0 (omega arith),
      )
      refl

erase_after_walk-mapped :
    (virt : ℕ) (ue : Block) (rest : List Block) (sp : Block) (left : List Block)
    → sp.phys ≢ 0
    → erase_after_walk virt ue rest (sp ∷ left, []) ≡ err contiguous_unmapped
unfolding erase_after_walk
erase_after_walk-mapped virt ue [] sp left h = rw (==-false sp.phys 0 h)
erase_after_walk-mapped virt ue (b ∷ rest) sp left h = rw (==-false sp.phys 0 h)

-- The blocks behind another one lie above it, in order.
From-drop :
    (c : Config) (b : Block) (before : List Block) (m : Block) (rest : List Block)
    → From c b (before ++ m ∷ rest)
    → (b.virt < m.virt) × From c m rest
From-drop c b [] m rest (lt, le, fits, f) = (lt, f)
From-drop c b (d ∷ before) m rest (lt, le, fits, f) =
    let (above, g) = From-drop c d before m rest f in (omega arith, g)

-- The search passes all blocks up to one below the address.
seek-passes :
    (c : Config) (va : ℕ) (b : Block) (left before : List Block) (m : Block) (rest : List Block)
    → From c b (before ++ m ∷ rest)
    → m.virt < va
    → (left' : List Block) × (seek va (b ∷ left) (before ++ m ∷ rest) ≡ seek va (m ∷ left') rest)
unfolding seek
seek-passes c va b left [] m rest f lt = (b ∷ left, rw (lt→ltb m.virt va lt) refl)
seek-passes c va b left (d ∷ before) m rest (_, _, _, f) lt =
    let (above, g) = From-drop c d before m rest f in
    let (left', e) = seek-passes c va d (b ∷ left) before m rest f lt in
    (left', rw (lt→ltb d.virt va (omega arith)) e)

seek-stops :
    (va : ℕ) (left : List Block) (u : Block) (right : List Block)
    → va ≤ u.virt
    → seek va left (u ∷ right) ≡ (left, u ∷ right)
unfolding seek
seek-stops va left u right le = rw (ltb-false u.virt va le) refl

lower_bound-first :
    (va : ℕ) (b : Block) (bs : List Block)
    → b.virt < va
    → lower_bound va (b ∷ bs) ≡ seek va (b ∷ []) bs
unfolding lower_bound seek
lower_bound-first va b bs lt = rw (lt→ltb b.virt va lt) refl

-- `UnmapLocked` from the place that its search has found.
from_cursor : Config → ℕ → ℕ → List Block × List Block → Result Outcome
from_cursor c virt size (left, right) =
    if ltb c.va_limit (add_va c virt size)
    then err past_limit
    else notify virt size (unmap_at c virt (add_va c virt size) left right)

-- Unmapping the end of a mapped block, whichever of the vector it is, up to an unmapped one, throws.
pub unmap_locked-throws :
    (c : Config) (b : Block) (before : List Block) (m u : Block) (right : List Block)
    (virt size : ℕ)
    → IsConfig c
    → WellFormed c (b ∷ before ++ m ∷ u ∷ right)
    → m.phys ≢ 0
    → u.phys ≡ 0
    → m.virt < virt
    → 0 < size
    → virt + size ≡ u.virt
    → unmap_locked c (b ∷ before ++ m ∷ u ∷ right) virt size ≡ err contiguous_unmapped
unfolding unmap_locked from_cursor unmap_at erase_to_unmapped walk_back
unmap_locked-throws c b before m u right virt size cfg wf pm pu lt pos e =
    let (above, (up, limit, fits, f)) = From-drop c b before m (u ∷ right) wf.2 in
    let (left', passes) =
      seek-passes c (virt + size) b [] before m (u ∷ right) wf.2 (omega arith) in
    let in_range : add_va c virt size ≡ virt + size =
      mod-eq_of_lt {n = virt + size} {m = c.va_mod} (omega arith) in
    let located : lower_bound (add_va c virt size) (b ∷ before ++ m ∷ u ∷ right)
        ≡ (m ∷ left', u ∷ right) =
      ap (λ va. lower_bound va (b ∷ before ++ m ∷ u ∷ right)) in_range
      ∙ lower_bound-first (virt + size) b (before ++ m ∷ u ∷ right) (omega arith)
      ∙ passes
      ∙ seek-stops (virt + size) (m ∷ left') u right (omega arith) in
    ap (from_cursor c virt size) located
    ∙ rw
        (
          in_range,
          ltb-false c.va_limit (virt + size) (omega arith),
          ==-false m.phys 0 pm,
          ==-true u.phys 0 pu,
          ==-true u.virt (virt + size) (omega arith),
          ltb-false u.virt virt (omega arith),
          leb-false virt m.virt lt,
          erase_after_walk-mapped virt u right m left' pm,
        )
        refl
