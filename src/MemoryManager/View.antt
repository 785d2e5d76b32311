-- ===== src/MemoryManager/View.antt =====
-- What a vector of chunks of kernel/memory.cpp says of each address.
use skyline.Base.{
  ℕ, ◌+◌, ◌-◌, ◌≤◌, ◌<◌, ◌≡◌, refl, Bool, ◌&&◌, List, [], ◌∷◌, Option, none, some, ltb, leb,
  if◌then◌else◌, arith, Bool-cases, inl, inr, ◌∙◌,
}
use skyline.MemoryManager.{Chunk, stop, rezip, erase_covered, trim}

-- Permission, state and attributes.
abbrev pub kind : Chunk → ℕ × ℕ × ℕ
kind c = (c.permission, c.state, c.attributes)

abbrev pub covers : Chunk → ℕ → Bool
covers c va = leb c.ptr va && ltb va (stop c)

unfoldable pub view : List Chunk → ℕ → Option (ℕ × ℕ × ℕ)
view [] va = none
view (c ∷ cs) va = if covers c va then some (kind c) else view cs va

-- The chunks lie side by side from `p` to `e`.
abbrev pub Tiles : ℕ → List Chunk → ℕ → Type 0
Tiles p [] e = p ≡ e
Tiles p (c ∷ cs) e = (c.ptr ≡ p) × Tiles (p + c.size) cs e

-- The same, from `e` back to `p`, nearest first.
abbrev pub Back : ℕ → List Chunk → ℕ → Type 0
Back p [] e = p ≡ e
Back p (c ∷ left) e = (stop c ≡ e) × Back p left c.ptr

pub Tiles-le : (p : ℕ) (cs : List Chunk) (e : ℕ) → Tiles p cs e → p ≤ e
Tiles-le p [] e h = omega arith
Tiles-le p (c ∷ cs) e h = omega (arith, Tiles-le (p + c.size) cs e h.1)

pub Tiles-shift : (p q : ℕ) (cs : List Chunk) (e : ℕ) → p ≡ q → Tiles p cs e → Tiles q cs e
Tiles-shift p q [] e h t = omega arith
Tiles-shift p q (c ∷ cs) e h t =
    (omega arith, Tiles-shift (p + c.size) (q + c.size) cs e (omega arith) t.1)

pub rezip-Tiles :
    (p : ℕ) (left : List Chunk) (m : ℕ) (right : List Chunk) (e : ℕ)
    → Back p left m
    → Tiles m right e
    → Tiles p (rezip left right) e
unfolding rezip
rezip-Tiles p [] m right e b t = Tiles-shift m p right e (omega arith) t
rezip-Tiles p (c ∷ left) m right e b t =
    rezip-Tiles p left c.ptr (c ∷ right) e b.1
      (refl, Tiles-shift m (c.ptr + c.size) right e (omega arith) t)

pub view-below : (p : ℕ) (cs : List Chunk) (e va : ℕ) → Tiles p cs e → va < p → view cs va ≡ none
unfolding view
view-below p [] e va t h = refl
view-below p (c ∷ cs) e va t h = ground (arith, view-below (p + c.size) cs e va t.1 (omega arith))

-- An address is looked up on its side of the cursor.
pub view-rezip :
    (p : ℕ) (left : List Chunk) (m : ℕ) (right : List Chunk) (e va : ℕ)
    → Back p left m
    → Tiles m right e
    → view (rezip left right) va ≡ (if ltb va m then view left va else view right va)
unfolding rezip view
view-rezip p [] m right e va b t = ground (arith, view-below m right e va t)
view-rezip p (c ∷ left) m right e va b t =
    view-rezip p left c.ptr (c ∷ right) e va b.1
      (refl, Tiles-shift m (c.ptr + c.size) right e (omega arith) t)
    ∙ ground arith

-- Past `s`, erasing and trimming change nothing.
pub trim-Tiles :
    (m : ℕ) (right : List Chunk) (e s : ℕ)
    → Tiles m right e
    → m ≤ s
    → s ≤ e
    → Tiles s (trim s (erase_covered s right)) e
unfolding trim erase_covered
trim-Tiles m [] e s t h k = omega arith
trim-Tiles m (c ∷ right) e s t h k = elim (Bool-cases (ltb s (stop c))) [
  | inl past ↦ rw past (elim (Bool-cases (ltb c.ptr s)) [
    | inl early ↦
        rw early (refl, Tiles-shift (m + c.size) (s + (stop c - s)) right e (ground arith) t.1)
    | inr late ↦
        rw late (ground arith, Tiles-shift (m + c.size) (s + c.size) right e (ground arith) t.1)
  ])
  | inr covered ↦ rw covered (trim-Tiles (m + c.size) right e s t.1 (ground arith) k)
]

pub view-trim :
    (m : ℕ) (right : List Chunk) (e s va : ℕ)
    → Tiles m right e
    → m ≤ s
    → s ≤ va
    → view (trim s (erase_covered s right)) va ≡ view right va
unfolding trim erase_covered view
view-trim m [] e s va t h k = refl
view-trim m (c ∷ right) e s va t h k = elim (Bool-cases (ltb s (stop c))) [
  | inl past ↦ rw past (ground arith)
  | inr covered ↦
      rw covered (view-trim (m + c.size) right e s va t.1 (ground arith) k ∙ ground arith)
]

-- Nothing is erased or trimmed where the first chunk starts past `s`.
pub trim-past :
    (m : ℕ) (right : List Chunk) (e s : ℕ)
    → Tiles m right e
    → s < m
    → trim s (erase_covered s right) ≡ right
unfolding trim erase_covered
trim-past m [] e s t h = refl
trim-past m (c ∷ right) e s t h = ground arith
