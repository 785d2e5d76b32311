-- ===== src/Scheduler/Balance.antt =====
-- The choice of a core by its load: kernel/scheduler.cpp, `GetOptimalCoreForThread`.
use skyline.Base.{
  ℕ, zero, suc, ◌+◌, ◌-◌, ◌%◌, ◌^◌, ◌≤◌, ◌<◌, ◌≡◌, ◌≢◌, refl, sym, ap, subst, ◌∙◌, Bool, true,
  false, ◌&&◌, ◌||◌, not, List, [], ◌∷◌, Option, none, some, ltb, leb, ◌==◌, min, if◌then◌else◌,
  Result, ok, err, ◌>>◌, guard, fault, out_of_range, arith, Bool-cases, inl, inr, lt→ltb, ==-false,
}
use skyline.Scheduler.{Scheduler, core_count, resident}

-- What the thread that runs may still take; the difference wraps around.
abbrev pub running_load : ℕ → ℕ → Scheduler → ℕ
running_load now running s =
    if not (s.average_timeslice running == 0)
    then min
        ((s.average_timeslice running
            + 2 ^ 64
            - (now + 2 ^ 64 - s.timeslice_start running) % 2 ^ 64)
          % 2 ^ 64)
        1
    else if not (s.timeslice_start running == 0)
    then (now + 2 ^ 64 - s.timeslice_start running) % 2 ^ 64
    else 1

abbrev pub resident_load : ℕ → ℕ → Scheduler → ℕ
resident_load thread other s =
    if leb (s.priority other) (s.priority thread)
    then (if s.average_timeslice other == 0 then 1 else s.average_timeslice other)
    else 0

-- What the threads behind take, if they go first.
abbrev pub residents_load : ℕ → List ℕ → Scheduler → ℕ
residents_load thread [] s = 0
residents_load thread (other ∷ queue) s =
    (resident_load thread other s + residents_load thread queue s) % 2 ^ 64

abbrev pub queue_load : ℕ → ℕ → List ℕ → Scheduler → ℕ
queue_load now thread [] s = 0
queue_load now thread (running ∷ queue) s =
    (running_load now running s + residents_load thread queue s) % 2 ^ 64

unfoldable pub core_load : ℕ → ℕ → ℕ → Scheduler → ℕ
core_load now thread core s = queue_load now thread (s.queue core) s

abbrev pub is_better : ℕ → ℕ → ℕ → Option (ℕ × ℕ) → Bool
is_better current core load none = true
is_better current core load (some (best, least)) =
    ltb load least || ((load == least) && (core == current))

-- The turn of the loop for a core.
abbrev pub consider : ℕ → ℕ → Scheduler → ℕ → Option (ℕ × ℕ) → Option (ℕ × ℕ)
consider now thread s core best =
    let load = core_load now thread core s in
    if s.affinity_mask thread core
    then (if is_better (s.core_id thread) core load best then some (core, load) else best)
    else best

-- The loop over the cores below a number.
unfoldable pub consider_below : ℕ → ℕ → Scheduler → ℕ → Option (ℕ × ℕ)
unfolding core_load
consider_below now thread s zero = none
consider_below now thread s (suc core) =
    let best = consider_below now thread s core in consider now thread s core best

abbrev pub is_affine : ℕ → ℕ → Scheduler → ℕ
is_affine thread core s = if s.affinity_mask thread core then 1 else 0

-- `affinityMask.count()`
abbrev pub affinity_count : ℕ → Scheduler → ℕ
affinity_count thread s =
    is_affine thread 0 s + is_affine thread 1 s + is_affine thread 2 s + is_affine thread 3 s

abbrev pub optimal : Option (ℕ × ℕ) → Result ℕ
optimal none = err fault
optimal (some (core, load)) = ok core

abbrev pub balance : ℕ → ℕ → List ℕ → Scheduler → Result ℕ
balance now thread [] s = ok (s.core_id thread)
balance now thread (front ∷ queue) s =
    if affinity_count thread s == 1
    then ok (s.core_id thread)
    else optimal (consider_below now thread s core_count)

unfoldable pub get_optimal_core_for_thread : ℕ → ℕ → Scheduler → Result ℕ
unfolding consider_below
get_optimal_core_for_thread now thread s =
    guard (ltb (s.core_id thread) core_count) out_of_range
    >> balance now thread (resident thread s) s

-- A choice among the cores below a number.
abbrev pub IsBest : ℕ → ℕ → Scheduler → ℕ → Option (ℕ × ℕ) → Type 0
IsBest now thread s n none = (core : ℕ) → core < n → s.affinity_mask thread core ≡ false
IsBest now thread s n (some (best, least)) =
    (least ≡ core_load now thread best s)
    × (s.affinity_mask thread best ≡ true)
    × ((core : ℕ)
        → core < n
        → s.affinity_mask thread core ≡ true
        → least ≤ core_load now thread core s)
    × ((core : ℕ)
        → core < n
        → core ≡ s.core_id thread
        → s.affinity_mask thread core ≡ true
        → core_load now thread core s ≤ least
        → best ≡ core)

below_suc :
    (P : ℕ → Type 0) (n : ℕ)
    → ((core : ℕ) → core < n → P core)
    → P n
    → (core : ℕ) → core < suc n
    → P core
below_suc P n h p core lt = elim (Bool-cases (core == n)) [
  | inl e ↦ subst P (ground arith) p
  | inr e ↦ h core (ground arith)
]

consider-IsBest :
    (now thread : ℕ) (s : Scheduler) (n : ℕ) (best : Option (ℕ × ℕ))
    → IsBest now thread s n best
    → IsBest now thread s (suc n) (consider now thread s n best)
consider-IsBest now thread s n none h = elim (Bool-cases (s.affinity_mask thread n)) [
  | inl e ↦ rw e (
    refl,
    e,
    below_suc
        (λ core.
          s.affinity_mask thread core ≡ true
          → core_load now thread n s ≤ core_load now thread core s)
        n (λ core lt a. let no = h core lt in cc) (λ a. omega arith),
    below_suc
        (λ core.
          core ≡ s.core_id thread
          → s.affinity_mask thread core ≡ true
          → core_load now thread core s ≤ core_load now thread n s
          → n ≡ core)
        n (λ core lt c a le. let no = h core lt in cc) (λ c a le. refl),
  )
  | inr e ↦ rw e (below_suc (λ core. s.affinity_mask thread core ≡ false) n h e)
]
consider-IsBest now thread s n (some (best, least)) (l, b, all, keep) =
    elim (Bool-cases (s.affinity_mask thread n)) [
      | inl e ↦
          elim (Bool-cases
            (is_better (s.core_id thread) n (core_load now thread n s) (some (best, least)))) [
              | inl t ↦ rw e (
                  rw t (
                    refl,
                    e,
                    below_suc
                        (λ core.
                          s.affinity_mask thread core ≡ true
                          → core_load now thread n s ≤ core_load now thread core s)
                        n (λ core lt a. let most = all core lt a in ground arith)
                        (λ a. omega arith),
                    below_suc
                        (λ core.
                          core ≡ s.core_id thread
                          → s.affinity_mask thread core ≡ true
                          → core_load now thread core s ≤ core_load now thread n s
                          → n ≡ core)
                        n (λ core lt c a le. let most = all core lt a in ground arith)
                        (λ c a le. refl),
                  ))
              | inr t ↦ rw e (
                  rw t (
                    l,
                    b,
                    below_suc
                        (λ core.
                          s.affinity_mask thread core ≡ true → least ≤ core_load now thread core s)
                        n all (λ a. ground arith),
                    below_suc
                        (λ core.
                          core ≡ s.core_id thread
                          → s.affinity_mask thread core ≡ true
                          → core_load now thread core s ≤ least
                          → best ≡ core)
                        n keep (λ c a le. ground arith),
                  ))
            ]
      | inr e ↦ rw e (
        l,
        b,
        below_suc (λ core. s.affinity_mask thread core ≡ true → least ≤ core_load now thread core s)
            n all (λ a. cc),
        below_suc
            (λ core.
              core ≡ s.core_id thread
              → s.affinity_mask thread core ≡ true
              → core_load now thread core s ≤ least
              → best ≡ core)
            n keep (λ c a le. cc),
      )
    ]

consider_below-IsBest :
    (now thread : ℕ) (s : Scheduler) (n : ℕ) → IsBest now thread s n (consider_below now thread s n)
unfolding consider_below
consider_below-IsBest now thread s zero = λ core lt. absurd (omega arith)
consider_below-IsBest now thread s (suc n) =
    consider-IsBest now thread s n (consider_below now thread s n)
      (consider_below-IsBest now thread s n)

optimal-IsBest :
    (now thread n core : ℕ) (s : Scheduler) (best : Option (ℕ × ℕ))
    → IsBest now thread s n best
    → core < n
    → s.affinity_mask thread core ≡ true
    → (chosen : ℕ) × (least : ℕ) × (optimal best ≡ ok chosen)
      × IsBest now thread s n (some (chosen, least))
optimal-IsBest now thread n core s none h lt a = let no = h core lt in cc
optimal-IsBest now thread n core s (some (chosen, least)) h lt a = (chosen, least, refl, h)

-- For a thread with several cores in its mask, one of them at least, whose own core has a queue,
-- GetOptimalCoreForThread chooses a core of the mask with the least load among them, and its own where
-- that has no greater load.
pub get_optimal_core_for_thread_lem :
    (now thread core front : ℕ) (queue : List ℕ) (s : Scheduler)
    → s.core_id thread < core_count
    → resident thread s ≡ front ∷ queue
    → affinity_count thread s ≢ 1
    → core < core_count
    → s.affinity_mask thread core ≡ true
    → (chosen : ℕ) × (get_optimal_core_for_thread now thread s ≡ ok chosen)
      × (s.affinity_mask thread chosen ≡ true)
      × ((other : ℕ)
          → other < core_count
          → s.affinity_mask thread other ≡ true
          → core_load now thread chosen s ≤ core_load now thread other s)
      × (s.affinity_mask thread (s.core_id thread) ≡ true
          → core_load now thread (s.core_id thread) s ≤ core_load now thread chosen s
          → chosen ≡ s.core_id thread)
unfolding get_optimal_core_for_thread
get_optimal_core_for_thread_lem now thread core front queue s own e ne lt a =
    let (chosen, least, o, (l, b, all, keep)) =
      optimal-IsBest now thread core_count core s (consider_below now thread s core_count)
        (consider_below-IsBest now thread s core_count) lt a in
    (
      chosen,
      rw (lt→ltb (s.core_id thread) core_count own)
          (ap (λ q. balance now thread q s) e ∙ rw (==-false (affinity_count thread s) 1 ne) o),
      b,
      λ other below m. subst (λ x. x ≤ core_load now thread other s) l (all other below m),
      λ m le.
          keep (s.core_id thread) own refl m
            (subst (λ x. core_load now thread (s.core_id thread) s ≤ x) (sym l) le),
    )
