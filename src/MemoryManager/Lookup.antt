-- ===== src/MemoryManager/Lookup.antt =====
-- `Get` of kernel/memory.cpp.
use skyline.Base.{
  ℕ, ◌+◌, ◌≤◌, ◌≡◌, refl, List, [], ◌∷◌, Option, none, some, ltb, arith, Bool-cases, inl, inr, sym,
}
use skyline.MemoryManager.{Chunk, stop, rezip, upper_bound, get_at, get}
use skyline.MemoryManager.View.{kind, view, Tiles, Back, view-rezip, view-below, Tiles-shift}

-- What `Get` tells of a chunk.
abbrev pub kind? : Option Chunk → Option (ℕ × ℕ × ℕ)
kind? none = none
kind? (some c) = some (kind c)

get_at-view :
    (p e va : ℕ) (lower : Chunk) (left right : List Chunk)
    → Back p left lower.ptr
    → Tiles (stop lower) right e
    → lower.ptr ≤ va
    → kind? (get_at va (upper_bound va (lower ∷ left) right).0)
      ≡ view (rezip left (lower ∷ right)) va
unfolding get_at upper_bound rezip view
get_at-view p e va lower left [] b t lo =
    ground (arith, view-rezip p left lower.ptr (lower ∷ []) e va b (refl, t))
get_at-view p e va lower left (d ∷ right) b t lo = elim (Bool-cases (ltb va d.ptr)) [
  | inl after ↦
      rw after (ground (arith, view-rezip p left lower.ptr (lower ∷ d ∷ right) e va b (refl, t)))
  | inr before ↦ rw before (
      get_at-view p e va d (lower ∷ left) right (sym t.0, b)
        (Tiles-shift (stop lower + d.size) (stop d) right e (ground arith) t.1) (ground arith))
]

-- On chunks that lie side by side, `Get` finds the chunk that holds the address, and none for an
-- address that lies in none.
pub get_lem :
    (p e va : ℕ) (chunks : List Chunk) → Tiles p chunks e → kind? (get va chunks) ≡ view chunks va
unfolding get get_at upper_bound rezip view
get_lem p e va [] t = refl
get_lem p e va (d ∷ chunks) t = elim (Bool-cases (ltb va d.ptr)) [
  | inl before ↦ rw before (sym (view-below p (d ∷ chunks) e va t (ground arith)))
  | inr after ↦ rw after (
      get_at-view p e va d [] chunks (sym t.0)
        (Tiles-shift (p + d.size) (stop d) chunks e (omega (arith, t.0)) t.1) (ground arith))
]
