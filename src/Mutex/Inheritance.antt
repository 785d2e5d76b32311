-- ===== src/Mutex/Inheritance.antt =====
-- The priorities after MutexUnlock of kernel/types/KProcess.cpp.
use skyline.Base.{
  ℕ, ◌≤◌, ◌<◌, ◌≡◌, ◌≢◌, refl, sym, ap, subst, ◌∙◌, ◌&&◌, not, List, [], ◌∷◌, ◌++◌, none, some,
  ◌==◌, min, ok, ◌>>=◌, arith, Bool-cases, inl, inr, ==-true, ==-false, Ensures,
}
use skyline.PriorityQueue.{All, All-imp, Sorted, Sorted-append}
use skyline.Scheduler.{core_count, Insertion, inserted, waiting}
use skyline.Scheduler.Kept.{insertion_state, update_priority-returns, insert_thread-returns}
use skyline.Mutex.{
  Kernel, set_scheduler, set_priority, find_waiter, found_after, same_key, other_keys, release,
  hand_over, transfer, reschedule, lower_priority, pass_word, Unlock, scheduled, schedule_next,
  handed, unlock_found, mutex_unlock,
}
use skyline.Mutex.Effects.{unlock_state, next_word, Effect, mutex_unlock-Effect}
use skyline.Mutex.Counts.{occurrences, occurrences-append, transfer-rest}
use skyline.Mutex.Linked.{Linked, waits_on, handed-free, next-ne}

-- Nobody's priority changes but that of one thread, and nobody's core.
abbrev Others : ℕ → Kernel → Kernel → Type 0
Others thread s t =
    ((x : ℕ) → x ≢ thread → t.scheduler.priority x ≡ s.scheduler.priority x)
    × (t.scheduler.core_id ≡ s.scheduler.core_id)

reschedule-returns :
    (thread : ℕ) (s t : Kernel)
    → Others thread s t
    → s.scheduler.core_id thread < core_count
    → (l : Kernel) × (reschedule thread t ≡ ok l) × Others thread s l
reschedule-returns thread s t (p, c) lt =
    let (u, e, (kp, kc)) =
      update_priority-returns thread t.scheduler (subst (λ f. f thread < core_count) (sym c) lt) in
    (
      set_scheduler u t,
      ap (λ r. r >>= λ scheduler. ok (set_scheduler scheduler t)) e,
      (λ x ne. ap (λ f. f x) kp ∙ p x ne, kc ∙ c),
    )

set_priority-Others :
    (thread priority : ℕ) (s : Kernel) → Others thread s (set_priority thread priority s)
set_priority-Others thread priority s = (λ x ne. rw (==-false x thread ne) refl, refl)

lower_priority-returns :
    (thread : ℕ) (queue : List ℕ) (s : Kernel)
    → s.scheduler.core_id thread < core_count
    → (l : Kernel) × (lower_priority thread queue s ≡ ok l) × Others thread s l
lower_priority-returns thread [] s lt =
    elim (Bool-cases (s.scheduler.priority thread == s.base_priority thread)) [
      | inl e ↦ (s, rw e refl, (λ x ne. refl, refl))
      | inr e ↦
          let (l, r, o) =
            reschedule-returns thread s (set_priority thread (s.base_priority thread) s)
              (set_priority-Others thread (s.base_priority thread) s) lt in
          (l, rw e r, o)
    ]
lower_priority-returns thread (first ∷ queue) s lt =
    let priority = min (s.base_priority thread) (s.scheduler.priority first) in
    elim (Bool-cases (
      not (s.base_priority thread == priority)
      && (s.scheduler.priority thread == s.base_priority thread))) [
        | inl e ↦
            let (l, r, o) =
              reschedule-returns thread s (set_priority thread priority s)
                (set_priority-Others thread priority s) lt in
            (l, rw e r, o)
        | inr e ↦
            let (l, r, o) = reschedule-returns thread s s (λ x ne. refl, refl) lt in (l, rw e r, o)
      ]

pass_word-core_id :
    (mutex next : ℕ) (queue : List ℕ) (s : Kernel)
    → (pass_word mutex next queue s).scheduler.core_id ≡ s.scheduler.core_id
pass_word-core_id mutex next [] s = refl
pass_word-core_id mutex next (waiter ∷ queue) s = refl

-- The next owner has at least the priority of the first that waits for it, and of its own before.
pass_word-priority :
    (mutex next : ℕ) (queue : List ℕ) (s : Kernel) (priority : ℕ → ℕ)
    → s.scheduler.priority next ≡ priority next
    → All (λ x. s.scheduler.priority x ≡ priority x) queue
    → Sorted priority queue
    → ((pass_word mutex next queue s).scheduler.priority next ≤ priority next)
      × All (λ x. (pass_word mutex next queue s).scheduler.priority next ≤ priority x) queue
pass_word-priority mutex next [] s priority e a r = (omega arith, tt)
pass_word-priority mutex next (waiter ∷ queue) s priority e a r =
    let least : (pass_word mutex next (waiter ∷ queue) s).scheduler.priority next
        ≡ min (priority next) (priority waiter) =
      rw (==-true next next refl) (rw e (rw a.0 refl)) in
    (omega arith, (omega arith, All-imp _ _ queue (λ x h. omega arith) r.0))

schedule_next-returns :
    (calling next : ℕ) (s : Kernel)
    → s.scheduler.core_id next < core_count
    → (u : Unlock) × (schedule_next calling next s ≡ ok u)
      × ((unlock_state u).scheduler.priority ≡ s.scheduler.priority)
schedule_next-returns calling next s lt =
    let (i, e, (kp, kc)) = insert_thread-returns calling next s.scheduler lt in
    (scheduled s i, ap (λ r. r >>= λ i. ok (scheduled s i)) e, same_priority i ∙ kp)
  where
    same_priority :
        (i : Insertion)
        → (unlock_state (scheduled s i)).scheduler.priority ≡ (insertion_state i).priority
    same_priority (inserted u) = refl
    same_priority (waiting u) = refl

find_waiter-first :
    (mutex : ℕ) (key : ℕ → ℕ) (before : List ℕ) (next : ℕ) (after : List ℕ)
    → All (λ x. key x ≢ mutex) before
    → key next ≡ mutex
    → find_waiter mutex key (before ++ next ∷ after) ≡ some (before, next, after)
unfolding find_waiter
find_waiter-first mutex key [] next after a k = rw (==-true (key next) mutex k) refl
find_waiter-first mutex key (x ∷ before) next after a k =
    rw (==-false (key x) mutex a.0)
      (ap (found_after x) (find_waiter-first mutex key before next after a.1 k))

transfer-scheduler :
    (next : ℕ) (queue : List ℕ) (s : Kernel) → (transfer next queue s).scheduler ≡ s.scheduler
unfolding transfer
transfer-scheduler next [] s = refl
transfer-scheduler next (x ∷ queue) s = transfer-scheduler next queue (hand_over next x s)

same_key-All :
    (P : ℕ → Type 0) (mutex : ℕ) (key : ℕ → ℕ) (queue : List ℕ)
    → All P queue
    → All P (same_key mutex key queue)
unfolding same_key
same_key-All P mutex key [] a = tt
same_key-All P mutex key (x ∷ queue) a = elim (Bool-cases (key x == mutex)) [
  | inl e ↦ rw e (a.0, same_key-All P mutex key queue a.1)
  | inr e ↦ rw e (same_key-All P mutex key queue a.1)
]

same_key-Sorted :
    (priority : ℕ → ℕ) (mutex : ℕ) (key : ℕ → ℕ) (queue : List ℕ)
    → Sorted priority queue
    → Sorted priority (same_key mutex key queue)
unfolding same_key
same_key-Sorted priority mutex key [] r = tt
same_key-Sorted priority mutex key (x ∷ queue) r = elim (Bool-cases (key x == mutex)) [
  | inl e ↦ rw e (same_key-All _ mutex key queue r.0, same_key-Sorted priority mutex key queue r.1)
  | inr e ↦ rw e (same_key-Sorted priority mutex key queue r.1)
]

-- All that stand in a queue are others than a thread that does not.
All-ne : (t : ℕ) (queue : List ℕ) → occurrences t queue ≡ 0 → All (λ x. x ≢ t) queue
All-ne t [] z = tt
All-ne t (x ∷ queue) z = (ground arith, All-ne t queue (ground arith))

module _ (calling mutex : ℕ) (before : List ℕ) (next : ℕ) (after : List ℕ) (s : Kernel)
    (l : Linked s) (runs : s.wait_thread calling ≡ none)
    (e : s.waiters calling ≡ before ++ next ∷ after) (a : All (λ x. s.wait_key x ≢ mutex) before)
    (k : s.wait_key next ≡ mutex) (on_core : s.scheduler.core_id calling < core_count)
    (next_on_core : s.scheduler.core_id next < core_count) where
  found : find_waiter mutex s.wait_key (s.waiters calling) ≡ some (before, next, after)
  found =
      ap (find_waiter mutex s.wait_key) e ∙ find_waiter-first mutex s.wait_key before next after a k

  left_scheduler : (handed calling mutex before next after s).scheduler ≡ s.scheduler
  left_scheduler =
      transfer-scheduler next (same_key mutex s.wait_key after)
        (release calling next (before ++ other_keys mutex s.wait_key after) s)

  others_after : All (λ x. x ≢ calling) after
  others_after =
      let nowhere : occurrences calling (before ++ next ∷ after) ≡ 0 =
        ap (occurrences calling) (sym e) ∙ l calling calling ∙ ap (waits_on calling) runs in
      let sum = occurrences-append calling before (next ∷ after) in
      All-ne calling after (ground arith)

  effect :
      (u : Unlock)
      → mutex_unlock calling mutex s ≡ ok u
      → Effect calling mutex (some (before, next, after)) s (unlock_state u)
  effect u h =
      subst (λ f. Effect calling mutex f s (unlock_state u)) found
        (subst
          (Ensures (λ v.
            Effect calling mutex (find_waiter mutex s.wait_key (s.waiters calling)) s
              (unlock_state v)))
          h (mutex_unlock-Effect calling mutex s))

  unlock_found-returns :
      Sorted s.scheduler.priority (next ∷ after)
      → (u : Unlock) × (unlock_found calling mutex (some (before, next, after)) s ≡ ok u)
        × ((unlock_state u).scheduler.priority next ≤ s.scheduler.priority next)
        × All
            (λ x. (unlock_state u).scheduler.priority next ≤ s.scheduler.priority x)
            (same_key mutex s.wait_key after)
  unlock_found-returns r =
      let left : Kernel = handed calling mutex before next after s in
      let moved : List ℕ = same_key mutex s.wait_key after in
      let (lowered, e1, (p, c)) =
        lower_priority-returns calling (left.waiters calling) left
          (subst (λ x. x.core_id calling < core_count) (sym left_scheduler) on_core) in
      let core : lowered.scheduler.core_id ≡ s.scheduler.core_id =
        c ∙ ap (λ x. x.core_id) left_scheduler in
      let ranks : (x : ℕ) → x ≢ calling → lowered.scheduler.priority x ≡ s.scheduler.priority x =
        λ x ne. p x ne ∙ ap (λ f. f.priority x) left_scheduler in
      let (u, e2, same) = schedule_next-returns calling next (pass_word mutex next moved lowered) (
        subst (λ f. f next < core_count) (sym (pass_word-core_id mutex next moved lowered ∙ core))
          next_on_core) in
      let (own, all) =
        pass_word-priority mutex next moved lowered s.scheduler.priority
          (ranks next (next-ne calling mutex before next after s l runs e))
          (same_key-All _ mutex s.wait_key after (All-imp _ _ after ranks others_after))
          (same_key-Sorted s.scheduler.priority mutex s.wait_key after r.1) in
      (
        u,
        ap (λ q. q >>= λ lowered. schedule_next calling next (pass_word mutex next moved lowered))
              e1
            ∙ e2,
        subst (λ f. f next ≤ s.scheduler.priority next) (sym same) own,
        subst (λ f. All (λ x. f next ≤ s.scheduler.priority x) moved) (sym same) all,
      )

  -- MutexUnlock by a thread that runs, on a core, with its waiters in the order of their priorities, the
  -- first of whom on the mutex is on a core as well, returns or waits for that thread to be resumed. Then
  -- that thread waits for none, the word is its tag, with the bit set if others wait on the mutex, and it
  -- has at least the priority that it had and that of each of those.
  pub mutex_unlock_lem :
      Sorted s.scheduler.priority (s.waiters calling)
      → (u : Unlock) × (mutex_unlock calling mutex s ≡ ok u)
        × ((unlock_state u).wait_thread next ≡ none)
        × ((unlock_state u).memory mutex
            ≡ next_word (same_key mutex s.wait_key after) (s.wait_tag next))
        × ((unlock_state u).scheduler.priority next ≤ s.scheduler.priority next)
        × All
            (λ x. (unlock_state u).scheduler.priority next ≤ s.scheduler.priority x)
            (same_key mutex s.wait_key after)
  unfolding mutex_unlock
  mutex_unlock_lem r =
      let (u, returns, own, all) =
        unlock_found-returns
          (Sorted-append s.scheduler.priority before (next ∷ after)
            (subst (Sorted s.scheduler.priority) e r)).0 in
      let unlocks : mutex_unlock calling mutex s ≡ ok u =
        ap (λ f. unlock_found calling mutex f s) found ∙ returns in
      let (memory, waiters, wait_thread, key, tag) = effect u unlocks in
      let (m, w, g) =
        transfer-rest next (same_key mutex s.wait_key after)
          (release calling next (before ++ other_keys mutex s.wait_key after) s) in
      (
        u,
        unlocks,
        ap (λ f. f next) wait_thread
            ∙ handed-free calling mutex before next after s l runs e next (==-true next next refl),
        ap (λ f. f mutex) memory
            ∙ rw (==-true mutex mutex refl)
                (ap (λ f. next_word (same_key mutex s.wait_key after) (f next)) g),
        own,
        all,
      )
