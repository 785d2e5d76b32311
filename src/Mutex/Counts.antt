-- ===== src/Mutex/Counts.antt =====
-- How often a thread stands in a queue of waiters of kernel/types/KProcess.cpp.
pub use skyline.Base.Counts.{one, occurrences, occurrences-append}
use skyline.Base.{
  ℕ, ◌+◌, ◌<◌, ◌≡◌, ◌≢◌, refl, ap, subst, ◌∙◌, ◌⊎◌, true, false, List, [], ◌∷◌, ◌++◌, Option, none,
  some, ltb, ◌==◌, if◌then◌else◌, arith, Bool-cases, inl, inr,
}
use skyline.PriorityQueue.{insert_by_priority, All}
use skyline.Mutex.{Kernel, found_after, find_waiter, same_key, other_keys, hand_over, transfer}

pub occurrences-insert_by_priority :
    (priority : ℕ → ℕ) (t x : ℕ) (queue : List ℕ)
    → occurrences t (insert_by_priority priority x queue) ≡ one t x + occurrences t queue
unfolding insert_by_priority
occurrences-insert_by_priority priority t x [] = refl
occurrences-insert_by_priority priority t x (other ∷ queue) =
    elim (Bool-cases (ltb (priority x) (priority other))) [
      | inl e ↦ rw e refl
      | inr e ↦ rw e (rw (occurrences-insert_by_priority priority t x queue) (omega arith))
    ]

-- Those that wait on a mutex, and the others.
pub occurrences-same_key :
    (mutex : ℕ) (key : ℕ → ℕ) (t : ℕ) (queue : List ℕ)
    → occurrences t (same_key mutex key queue) ≡ (if key t == mutex then occurrences t queue else 0)
unfolding same_key
occurrences-same_key mutex key t [] = elim (Bool-cases (key t == mutex)) [
  | inl e ↦ rw e refl
  | inr e ↦ rw e refl
]
occurrences-same_key mutex key t (x ∷ queue) =
    let rest = occurrences-same_key mutex key t queue in
    elim (Bool-cases (x == t)) [
      | inl e ↦
          let here : (key x == mutex) ≡ (key t == mutex) =
            ap (λ y. key y == mutex) (ground arith) in
          elim (Bool-cases (key t == mutex)) [
            | inl k ↦ rw (here ∙ k) (rw k (ground arith))
            | inr k ↦ rw (here ∙ k) (rw k (ground arith))
          ]
      | inr e ↦ elim (Bool-cases (key x == mutex)) [
        | inl k ↦ rw k (rw e (ground arith))
        | inr k ↦ rw k (rw e (ground arith))
      ]
    ]

pub occurrences-split :
    (mutex : ℕ) (key : ℕ → ℕ) (t : ℕ) (queue : List ℕ)
    → occurrences t (same_key mutex key queue) + occurrences t (other_keys mutex key queue)
      ≡ occurrences t queue
unfolding same_key other_keys
occurrences-split mutex key t [] = refl
occurrences-split mutex key t (x ∷ queue) =
    let rest = occurrences-split mutex key t queue in
    elim (Bool-cases (key x == mutex)) [ inl k ↦ rw k (omega arith) | inr k ↦ rw k (omega arith) ]

-- A search finds the first thread that waits on the mutex.
abbrev pub Found : ℕ → (ℕ → ℕ) → List ℕ → Option (List ℕ × ℕ × List ℕ) → Type 0
Found mutex key queue none = All (λ x. key x ≢ mutex) queue
Found mutex key queue (some (before, next, after)) =
    (queue ≡ before ++ next ∷ after) × (key next ≡ mutex) × All (λ x. key x ≢ mutex) before

found_after-Found :
    (mutex : ℕ) (key : ℕ → ℕ) (x : ℕ) (queue : List ℕ) (found : Option (List ℕ × ℕ × List ℕ))
    → key x ≢ mutex
    → Found mutex key queue found
    → Found mutex key (x ∷ queue) (found_after x found)
found_after-Found mutex key x queue none ne f = (ne, f)
found_after-Found mutex key x queue (some (before, next, after)) ne (e, k, a) =
    (ap (λ l. x ∷ l) e, k, (ne, a))

pub find_waiter-Found :
    (mutex : ℕ) (key : ℕ → ℕ) (queue : List ℕ) → Found mutex key queue (find_waiter mutex key queue)
unfolding find_waiter
find_waiter-Found mutex key [] = tt
find_waiter-Found mutex key (x ∷ queue) = elim (Bool-cases (key x == mutex)) [
  | inl k ↦ rw k (refl, ground arith, tt)
  | inr k ↦
      rw k
        (found_after-Found mutex key x queue _ (ground arith) (find_waiter-Found mutex key queue))
]

-- A thread that stands in a queue has what all have.
pub All-occurrences :
    (P : ℕ → Type 0) (t : ℕ) (queue : List ℕ) → All P queue → 0 < occurrences t queue → P t
All-occurrences P t [] a lt = ground arith
All-occurrences P t (x ∷ queue) a lt = elim (Bool-cases (x == t)) [
  | inl e ↦ subst P (ground arith) a.0
  | inr e ↦ All-occurrences P t queue a.1 (ground arith)
]

pub zero-or-more : (n : ℕ) → (n ≡ 0) ⊎ (0 < n)
zero-or-more n = ground arith

pub transfer-waiters :
    (next : ℕ) (queue : List ℕ) (s : Kernel) (t o : ℕ)
    → occurrences t ((transfer next queue s).waiters o)
      ≡ occurrences t (s.waiters o) + (if o == next then occurrences t queue else 0)
unfolding transfer
transfer-waiters next [] s t o = elim (Bool-cases (o == next)) [
  | inl e ↦ rw e (omega arith)
  | inr e ↦ rw e (omega arith)
]
transfer-waiters next (x ∷ queue) s t o =
    transfer-waiters next queue (hand_over next x s) t o ∙ elim (Bool-cases (o == next)) [
      | inl e ↦
          let there : occurrences t (s.waiters o) ≡ occurrences t (s.waiters next) =
            ap (λ y. occurrences t (s.waiters y)) (ground arith) in
          rw e (
            rw (occurrences-insert_by_priority s.scheduler.priority t x (s.waiters next))
              (omega arith))
      | inr e ↦ rw e refl
    ]

pub transfer-stays :
    (next : ℕ) (queue : List ℕ) (s : Kernel) (t : ℕ)
    → occurrences t queue ≡ 0
    → (transfer next queue s).wait_thread t ≡ s.wait_thread t
unfolding transfer
transfer-stays next [] s t z = refl
transfer-stays next (x ∷ queue) s t z =
    let other : (t == x) ≡ false = ground arith in
    transfer-stays next queue (hand_over next x s) t (ground arith) ∙ rw other refl

pub transfer-moves :
    (next : ℕ) (queue : List ℕ) (s : Kernel) (t : ℕ)
    → 0 < occurrences t queue
    → (transfer next queue s).wait_thread t ≡ some next
unfolding transfer
transfer-moves next [] s t lt = ground arith
transfer-moves next (x ∷ queue) s t lt = elim (zero-or-more (occurrences t queue)) [
  | inl z ↦
      let here : (t == x) ≡ true = ground arith in
      transfer-stays next queue (hand_over next x s) t z ∙ rw here refl
  | inr more ↦ transfer-moves next queue (hand_over next x s) t more
]

pub transfer-rest :
    (next : ℕ) (queue : List ℕ) (s : Kernel)
    → ((transfer next queue s).memory ≡ s.memory)
      × ((transfer next queue s).wait_key ≡ s.wait_key)
      × ((transfer next queue s).wait_tag ≡ s.wait_tag)
unfolding transfer
transfer-rest next [] s = (refl, refl, refl)
transfer-rest next (x ∷ queue) s = transfer-rest next queue (hand_over next x s)
