-- ===== src/Arbiter/Queue.antt =====
-- The queues of kernel/types/KProcess.cpp: their order, and what leaves them.
use skyline.Base.{
  ℕ, zero, suc, ◌+◌, ◌-◌, ◌%◌, ◌^◌, ◌<◌, ◌≡◌, refl, ap, subst, ◌∙◌, ◌⊎◌, Bool, true, false, ◌||◌,
  not, List, [], ◌∷◌, ◌++◌, some, ◌==◌, if◌then◌else◌, take, drop, arith, Bool-cases, Option-cases,
  inl, inr, ==-false,
}
use skyline.Arbiter.{erase_waiter, wake_loop, wakes_all}
use skyline.PriorityQueue.{All, Sorted}

module _ (priority : ℕ → ℕ) where
  -- The entry is the first of a queue, or among the rest of it.
  erase_waiter-cons :
      (thread other : ℕ) (queue rest : List ℕ) (last : Bool)
      → erase_waiter thread (other ∷ queue) ≡ some (rest, last)
      → (queue ≡ rest)
        ⊎ ((rest' : List ℕ) × (last' : Bool) × (erase_waiter thread queue ≡ some (rest', last'))
            × (other ∷ rest' ≡ rest))
  unfolding erase_waiter
  erase_waiter-cons thread other queue rest last e = elim (Bool-cases (other == thread)) [
    | inl same ↦ inl (ground arith)
    | inr differs ↦ elim (Option-cases (erase_waiter thread queue)) [
      | inl none_left ↦ absurd (ground arith)
      | inr found ↦ inr (found.0.0, found.0.1, found.1, ground arith)
    ]
  ]

  All-erase_waiter :
      (P : ℕ → Type 0) (thread : ℕ) (queue : List ℕ) {rest : List ℕ} {last : Bool}
      → All P queue
      → erase_waiter thread queue ≡ some (rest, last)
      → All P rest
  unfolding erase_waiter
  All-erase_waiter P thread [] a e = cc
  All-erase_waiter P thread (other ∷ queue) {rest} {last} a e =
      elim (erase_waiter-cons thread other queue rest last e) [
        | inl same ↦ subst (All P) same a.1
        | inr (rest', last', e', same) ↦
            subst (All P) same (a.0, All-erase_waiter P thread queue a.1 e')
      ]

  pub erase_waiter-Sorted :
      (thread : ℕ) (queue : List ℕ) {rest : List ℕ} {last : Bool}
      → Sorted priority queue
      → erase_waiter thread queue ≡ some (rest, last)
      → Sorted priority rest
  unfolding erase_waiter
  erase_waiter-Sorted thread [] s e = cc
  erase_waiter-Sorted thread (other ∷ queue) {rest} {last} s e =
      elim (erase_waiter-cons thread other queue rest last e) [
        | inl same ↦ subst (Sorted priority) same s.1
        | inr (rest', last', e', same) ↦
            subst (Sorted priority) same
              (All-erase_waiter _ thread queue s.0 e', erase_waiter-Sorted thread queue s.1 e')
      ]

pub wake_loop-append :
    (every : Bool) (count : ℕ) (queue : List ℕ)
    → (wake_loop every count queue).0 ++ (wake_loop every count queue).1 ≡ queue
unfolding wake_loop
wake_loop-append every count [] = refl
wake_loop-append every count (thread ∷ queue) = elim (Bool-cases (every || not (count == 0))) [
  | inl e ↦ rw e (ap (thread ∷◌) (wake_loop-append every ((count + 2 ^ 32 - 1) % 2 ^ 32) queue))
  | inr e ↦ rw e refl
]

wake_loop-every : (count : ℕ) (queue : List ℕ) → wake_loop true count queue ≡ (queue, [])
unfolding wake_loop
wake_loop-every count [] = refl
wake_loop-every count (thread ∷ queue) =
    ap (λ r. (thread ∷ r.0, r.1)) (wake_loop-every ((count + 2 ^ 32 - 1) % 2 ^ 32) queue)

wake_loop-count :
    (count : ℕ) (queue : List ℕ)
    → count < 2 ^ 31
    → wake_loop false count queue ≡ (take count queue, drop count queue)
unfolding wake_loop
wake_loop-count zero [] lt = refl
wake_loop-count (suc count) [] lt = refl
wake_loop-count zero (thread ∷ queue) lt = refl
wake_loop-count (suc count) (thread ∷ queue) lt = rw (==-false (suc count) 0 (omega arith)) (
    ap (λ r. (thread ∷ r.0, r.1))
      (ap (λ n. wake_loop false n queue) (omega arith) ∙ wake_loop-count count queue (omega arith)))

-- A signal takes the first of the queue, as many as it says, or all.
pub wake_loop_lem :
    (amount : ℕ) (queue : List ℕ)
    → wake_loop (wakes_all amount) amount queue
      ≡ (if wakes_all amount then (queue, []) else (take amount queue, drop amount queue))
wake_loop_lem amount queue = elim (Bool-cases (wakes_all amount)) [
  | inl e ↦ rw e (wake_loop-every amount queue)
  | inr e ↦ rw e (wake_loop-count amount queue (ground arith))
]
