-- ===== src/Mutex/Effects.antt =====
-- What MutexUnlock of kernel/types/KProcess.cpp leaves of the waiters and of the mutex's word.
use skyline.Base.{
  ℕ, ◌≡◌, refl, Bool, true, false, ◌&&◌, not, List, [], ◌∷◌, Option, none, some, ◌==◌, min,
  if◌then◌else◌, ok, Ensures, Ensures->>=, Ensures-any, Ensures-if,
}
use skyline.PriorityQueue.{update}
use skyline.Scheduler.{Insertion, inserted, waiting, insert_thread}
use skyline.Scheduler.Operations.{update_priority}
use skyline.Mutex.{
  Kernel, with_waiters, store, set_priority, same_key, reschedule, lower_priority, pass_word,
  Unlock, unlocked, inserting, scheduled, schedule_next, handed, unlock_found, find_waiter,
  mutex_unlock,
}

abbrev pub unlock_state : Unlock → Kernel
unlock_state (unlocked s) = s
unlock_state (inserting s) = s

-- Two states with the same words and waiters.
abbrev pub Same : Kernel → Kernel → Type 0
Same s t =
    (t.memory ≡ s.memory)
    × (t.waiters ≡ s.waiters)
    × (t.wait_thread ≡ s.wait_thread)
    × (t.wait_key ≡ s.wait_key)
    × (t.wait_tag ≡ s.wait_tag)

Same-if : (b : Bool) (s t u : Kernel) → Same s t → Same s u → Same s (if b then t else u)
Same-if true s t u h k = h
Same-if false s t u h k = k

same : (s : Kernel) → Same s s
same s = (refl, refl, refl, refl, refl)

reschedule-Same : (thread : ℕ) (s t : Kernel) → Same s t → Ensures (Same s) (reschedule thread t)
reschedule-Same thread s t h =
    Ensures->>= (λ scheduler. Unit {0}) (Same s) (update_priority thread t.scheduler) _
      (Ensures-any _) (λ scheduler e. h)

lower_priority-Same :
    (thread : ℕ) (queue : List ℕ) (s : Kernel) → Ensures (Same s) (lower_priority thread queue s)
lower_priority-Same thread [] s =
    Ensures-if (Same s) (s.scheduler.priority thread == s.base_priority thread) (ok s) _ (same s)
      (reschedule-Same thread s (set_priority thread (s.base_priority thread) s) (same s))
lower_priority-Same thread (first ∷ queue) s =
    let priority = min (s.base_priority thread) (s.scheduler.priority first) in
    let changes =
      not (s.base_priority thread == priority)
      && (s.scheduler.priority thread == s.base_priority thread) in
    reschedule-Same thread s (if changes then set_priority thread priority s else s)
      (Same-if changes s (set_priority thread priority s) s (same s) (same s))

-- The word of a mutex whose next owner has this tag.
abbrev pub next_word : List ℕ → ℕ → ℕ
next_word [] tag = tag
next_word (waiter ∷ queue) tag = with_waiters tag

pass_word-Same :
    (mutex next : ℕ) (queue : List ℕ) (s t : Kernel)
    → Same s t
    → Same (store mutex (next_word queue (s.wait_tag next)) s) (pass_word mutex next queue t)
pass_word-Same mutex next [] s t (m, w, h, k, g) = (λ i. update (m i) mutex (g i next), w, h, k, g)
pass_word-Same mutex next (waiter ∷ queue) s t (m, w, h, k, g) =
    (λ i. update (m i) mutex (with_waiters (g i next)), w, h, k, g)

scheduled-Same : (s t : Kernel) (i : Insertion) → Same s t → Same s (unlock_state (scheduled t i))
scheduled-Same s t (inserted scheduler) h = h
scheduled-Same s t (waiting scheduler) h = h

schedule_next-Same :
    (calling next : ℕ) (s t : Kernel)
    → Same s t
    → Ensures (λ u. Same s (unlock_state u)) (schedule_next calling next t)
schedule_next-Same calling next s t h =
    Ensures->>= (λ i. Unit {0}) (λ u. Same s (unlock_state u))
      (insert_thread calling next t.scheduler) _ (Ensures-any _) (λ i e. scheduled-Same s t i h)

-- What becomes of the words and the waiters, by the waiter that is found.
abbrev pub Effect : ℕ → ℕ → Option (List ℕ × ℕ × List ℕ) → Kernel → Kernel → Type 0
Effect calling mutex none s = Same (store mutex 0 s)
Effect calling mutex (some (before, next, after)) s =
    let left : Kernel = handed calling mutex before next after s in
    Same (store mutex (next_word (same_key mutex s.wait_key after) (left.wait_tag next)) left)

unlock_found-Effect :
    (calling mutex : ℕ) (found : Option (List ℕ × ℕ × List ℕ)) (s : Kernel)
    → Ensures
        (λ u. Effect calling mutex found s (unlock_state u))
        (unlock_found calling mutex found s)
unlock_found-Effect calling mutex none s = same (store mutex 0 s)
unlock_found-Effect calling mutex (some (before, next, after)) s =
    let left : Kernel = handed calling mutex before next after s in
    let moved : List ℕ = same_key mutex s.wait_key after in
    Ensures->>= (Same left)
      (λ u. Effect calling mutex (some (before, next, after)) s (unlock_state u))
      (lower_priority calling (left.waiters calling) left) _
      (lower_priority-Same calling (left.waiters calling) left)
      (λ lowered h.
        schedule_next-Same calling next (store mutex (next_word moved (left.wait_tag next)) left)
          (pass_word mutex next moved lowered) (pass_word-Same mutex next moved left lowered h))

pub mutex_unlock-Effect :
    (calling mutex : ℕ) (s : Kernel)
    → Ensures
        (λ u.
          Effect calling mutex
            (find_waiter mutex s.wait_key (s.waiters calling))
            s
            (unlock_state u))
        (mutex_unlock calling mutex s)
unfolding mutex_unlock
mutex_unlock-Effect calling mutex s =
    unlock_found-Effect calling mutex (find_waiter mutex s.wait_key (s.waiters calling)) s
