-- ===== src/Mutex/Tests.antt =====
-- The mutexes of kernel/types/KProcess.cpp at fixed inputs.
use skyline.Base.{
  ℕ, ◌+◌, ◌/◌, ◌^◌, ◌<◌, ◌≤◌, ◌≡◌, refl, true, false, List, [], ◌∷◌, Option, none, some, subst,
  arith, ltb, if◌then◌else◌, Bool-cases, inl, inr, ok,
}
use skyline.PriorityQueue.{update, All, insert_by_priority}
use skyline.Scheduler.Operations.{would_run}
use skyline.Scheduler.{Scheduler, disarm, removed, dequeue, remove_thread, erase}
use skyline.Mutex.{
  Kernel, store, waits, wait_for, inherit_first, mutex_lock, Unlock, mutex_unlock, same_key,
  update_priority_inheritance,
}
use skyline.Mutex.Effects.{unlock_state, next_word}
use skyline.Mutex.Inheritance.{mutex_unlock_lem}
use skyline.Mutex.Owned.{Consistent}
use skyline.Mutex.Reach.{locks, writes, Reach, start, step, Reach-Consistent}

-- Threads 30 to 39 have priority 3, and so on; all are on core 0. Their handles are their numbers.
abbrev scheduler : List ℕ → Scheduler
scheduler queue = record {
  queue = λ core. queue;
  parked_queue = [];
  priority = λ thread. thread / 10;
  core_id = λ thread. 0;
  affinity_mask = λ thread core. true;
  timeslice_start = λ thread. 0;
  average_timeslice = λ thread. 0;
  is_preempted = λ thread. false;
  pending_yield = λ thread. false;
  force_yield = λ thread. false;
  yield_pending = λ thread. false;
  is_paused = λ thread. false;
  insert_thread_on_resume = λ thread. false;
  sent = [];
}

abbrev thread_of : ℕ → Option ℕ
thread_of handle = if ltb handle 100 then some handle else none

thread_of-lt : (handle thread : ℕ) → thread_of handle ≡ some thread → handle < 2 ^ 30
thread_of-lt handle thread e = elim (Bool-cases (ltb handle 100)) [
  | inl lt ↦ ground arith
  | inr ge ↦
      let no : none ≡ some thread =
        subst (λ b. (if b then some handle else none) ≡ some thread) ge e in
      cc
]

abbrev idle : Kernel
idle = record {
  scheduler = scheduler (20 ∷ 51 ∷ []);
  memory = λ address. 0;
  base_priority = λ thread. thread / 10;
  wait_key = λ thread. 0;
  wait_tag = λ thread. 0;
  wait_thread = λ thread. none;
  waiters = λ thread. [];
}

-- Thread 51 owns the mutex, by itself; thread 20 finds the bit unset, sets it and waits.
abbrev owned : Kernel
owned = store 0x100 51 idle

abbrev contended : Kernel
contended = store 0x100 (51 + 2 ^ 30) owned

-- Thread 20 is taken from the core and lends its priority.
abbrev left : Scheduler
left = disarm 20 (record (removed 7 20 contended.scheduler) {
  yield_pending = update (λ thread. false) 20 false;
})

abbrev lent : Kernel
lent =
    inherit_first (would_run 20 [] contended.scheduler) 20 (wait_for 20 51 0x100 20 left contended)

contended_lock : mutex_lock thread_of 7 20 0x100 51 20 contended ≡ ok (waits lent)
unfolding mutex_lock remove_thread erase
contended_lock = refl

lent_priority : lent.scheduler.priority 51 ≡ 2
unfolding update_priority_inheritance insert_by_priority dequeue erase
lent_priority = refl

contended_reached : Reach thread_of contended
contended_reached =
    step owned contended
      (step idle owned (start idle (λ t. refl) (λ o. refl)) (writes 0x100 51 idle refl))
      (writes 0x100 (51 + 2 ^ 30) owned refl)

-- Thread 44 waits behind it.
abbrev both_left : Scheduler
both_left = disarm 44 (record (removed 8 44 lent.scheduler) {
  yield_pending = update lent.scheduler.yield_pending 44 false;
})

abbrev both : Kernel
both =
    inherit_first (would_run 44 (20 ∷ []) lent.scheduler) 44
      (wait_for 44 51 0x100 44 both_left lent)

both_lock : mutex_lock thread_of 8 44 0x100 51 44 lent ≡ ok (waits both)
unfolding mutex_lock remove_thread update_priority_inheritance insert_by_priority dequeue erase
both_lock = refl

both_reached : Reach thread_of both
unfolding update_priority_inheritance insert_by_priority dequeue erase
both_reached =
    step lent both
      (step contended lent contended_reached
        (locks 7 20 0x100 51 20 contended (waits lent) refl refl contended_lock))
      (locks 8 44 0x100 51 44 lent (waits both) refl refl both_lock)

Reach-Consistent_example : Consistent thread_of both
Reach-Consistent_example = Reach-Consistent thread_of thread_of-lt both_reached

mutex_unlock_lem_example :
    (u : Unlock) × (mutex_unlock 51 0x100 both ≡ ok u)
    × ((unlock_state u).wait_thread 20 ≡ none)
    × ((unlock_state u).memory 0x100
        ≡ next_word (same_key 0x100 both.wait_key (44 ∷ [])) (both.wait_tag 20))
    × ((unlock_state u).scheduler.priority 20 ≤ both.scheduler.priority 20)
    × All
        (λ x. (unlock_state u).scheduler.priority 20 ≤ both.scheduler.priority x)
        (same_key 0x100 both.wait_key (44 ∷ []))
unfolding update_priority_inheritance insert_by_priority dequeue erase
mutex_unlock_lem_example =
    mutex_unlock_lem 51 0x100 [] 20 (44 ∷ []) both Reach-Consistent_example.0 refl refl tt refl
      (omega arith) (omega arith) ((omega arith, tt), (tt, tt))
