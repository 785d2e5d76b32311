-- ===== src/PriorityQueue.antt =====
-- The queues by priority that the kernel keeps: kernel/types/KThread.h, `IsHigherPriority`, with
-- `std::upper_bound`. A priority is a function of the thread; a lower number goes first. A field of
-- the threads is a function of their identities.
use skyline.Base.{
  ℕ, ◌≤◌, ◌<◌, ◌≡◌, refl, ap, List, [], ◌∷◌, ◌++◌, ltb, ◌==◌, if◌then◌else◌, arith, Bool-cases, inl,
  inr,
}

abbrev pub update {ℓ} : {A : Type ℓ} → (ℕ → A) → ℕ → A → ℕ → A
update f key value k = if k == key then value else f k

-- Before the first thread of a lower priority.
unfoldable pub insert_by_priority : (ℕ → ℕ) → ℕ → List ℕ → List ℕ
insert_by_priority priority thread [] = thread ∷ []
insert_by_priority priority thread (other ∷ queue) =
    let rest = insert_by_priority priority thread queue in
    if ltb (priority thread) (priority other) then thread ∷ other ∷ queue else other ∷ rest

abbrev pub All : (ℕ → Type 0) → List ℕ → Type 0
All P [] = Unit {0}
All P (x ∷ xs) = P x × All P xs

pub All-imp : (P Q : ℕ → Type 0) (xs : List ℕ) → ((x : ℕ) → P x → Q x) → All P xs → All Q xs
All-imp P Q [] f a = tt
All-imp P Q (x ∷ xs) f a = (f x a.0, All-imp P Q xs f a.1)

-- Nobody waits behind a thread of a lower priority.
abbrev pub Sorted : (ℕ → ℕ) → List ℕ → Type 0
Sorted priority [] = Unit {0}
Sorted priority (x ∷ xs) = All (λ y. priority x ≤ priority y) xs × Sorted priority xs

module _ (priority : ℕ → ℕ) where
  pub All-insert_by_priority :
      (P : ℕ → Type 0) (thread : ℕ) (queue : List ℕ)
      → P thread
      → All P queue
      → All P (insert_by_priority priority thread queue)
  unfolding insert_by_priority
  All-insert_by_priority P thread [] p a = (p, tt)
  All-insert_by_priority P thread (other ∷ queue) p a =
      elim (Bool-cases (ltb (priority thread) (priority other))) [
        | inl e ↦ rw e (p, a)
        | inr e ↦ rw e (a.0, All-insert_by_priority P thread queue p a.1)
      ]

  pub insert_by_priority-Sorted :
      (thread : ℕ) (queue : List ℕ)
      → Sorted priority queue
      → Sorted priority (insert_by_priority priority thread queue)
  unfolding insert_by_priority
  insert_by_priority-Sorted thread [] s = (tt, tt)
  insert_by_priority-Sorted thread (other ∷ queue) s =
      elim (Bool-cases (ltb (priority thread) (priority other))) [
        | inl e ↦ rw e ((ground arith, All-imp _ _ queue (λ x h. ground arith) s.0), s)
        | inr e ↦ rw e (
          All-insert_by_priority _ thread queue (ground arith) s.0,
          insert_by_priority-Sorted thread queue s.1,
        )
      ]

  -- A thread that starts to wait comes behind all that have its priority or a higher one, and before
  -- all that have a lower one; these keep their order.
  pub insert_by_priority_lem :
      (thread : ℕ) (queue : List ℕ)
      → Sorted priority queue
      → (before after : List ℕ) × (queue ≡ before ++ after)
        × (insert_by_priority priority thread queue ≡ before ++ thread ∷ after)
        × All (λ t. priority t ≤ priority thread) before
        × All (λ t. priority thread < priority t) after
  unfolding insert_by_priority
  insert_by_priority_lem thread [] s = ([], [], refl, refl, tt, tt)
  insert_by_priority_lem thread (other ∷ queue) s =
      elim (Bool-cases (ltb (priority thread) (priority other))) [
        | inl e ↦ rw e (
          [],
          other ∷ queue,
          refl,
          refl,
          tt,
          (ground arith, All-imp _ _ queue (λ x h. ground arith) s.0),
        )
        | inr e ↦
            let (before, after, e1, e2, a, b) = insert_by_priority_lem thread queue s.1 in
            rw e (other ∷ before, after, ap (other ∷◌) e1, ap (other ∷◌) e2, (ground arith, a), b)
      ]

  pub All-append : (P : ℕ → Type 0) (xs ys : List ℕ) → All P (xs ++ ys) → All P xs × All P ys
  All-append P [] ys a = (tt, a)
  All-append P (x ∷ xs) ys a = let (b, c) = All-append P xs ys a.1 in ((a.0, b), c)

  -- The front of a sorted queue, and the rest.
  pub Sorted-append :
      (xs ys : List ℕ)
      → Sorted priority (xs ++ ys)
      → Sorted priority ys × All (λ x. All (λ y. priority x ≤ priority y) ys) xs
  Sorted-append [] ys s = (s, tt)
  Sorted-append (x ∷ xs) ys s =
      let (s', a) = Sorted-append xs ys s.1 in (s', ((All-append _ xs ys s.0).1, a))
