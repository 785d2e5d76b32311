-- ===== src/Scheduler/Reach.antt =====
-- The queues of kernel/scheduler.cpp under its operations, in any order; priorities stay as they are.
use skyline.Base.{ℕ, ◌≡◌, subst, true, false, [], Result, ok}
use skyline.Scheduler.{
  Scheduler, enqueue, rotate, Insertion, inserted, waiting, insert_thread, remove_thread,
}
use skyline.Scheduler.Operations.{
  migrate_to_core, pause_thread, resume_thread, park_thread, can_unpark, wake_parked_thread,
}
use skyline.Scheduler.Order.{
  Ordered, OrderedResult, OrderedInsertion, insert_thread-Ordered, enqueue-Ordered,
  remove_thread-Ordered, rotate-Ordered,
}
use skyline.Scheduler.Migration.{
  migrate_to_core-Ordered, pause_thread-Ordered, resume_thread-Ordered, park_thread-Ordered,
  wake_parked_thread-Ordered,
}

-- An operation of some thread, or the end of a wait.
pub data Step : Scheduler → Scheduler → Type 0 where
  inserts :
      (calling thread : ℕ) (s s' : Scheduler)
      → insert_thread calling thread s ≡ ok (inserted s')
      → Step s s'
  insertion_waits :
      (calling thread : ℕ) (s s' : Scheduler)
      → insert_thread calling thread s ≡ ok (waiting s')
      → Step s s'
  insertion_ends :
      (calling thread : ℕ) (s : Scheduler)
      → s.is_paused thread ≡ false
      → Step s (enqueue calling thread s)
  removes : (now calling : ℕ) (s s' : Scheduler) → remove_thread now calling s ≡ ok s' → Step s s'
  rotates : (now calling : ℕ) (s s' : Scheduler) → rotate now calling s ≡ ok s' → Step s s'
  migrates :
      (calling thread target : ℕ) (s s' : Scheduler)
      → migrate_to_core calling thread target s ≡ ok (inserted s')
      → Step s s'
  pauses : (thread : ℕ) (s s' : Scheduler) → pause_thread thread s ≡ ok s' → Step s s'
  resumes :
      (calling thread : ℕ) (s s' : Scheduler)
      → resume_thread calling thread s ≡ ok (inserted s')
      → Step s s'
  parks :
      (now calling : ℕ) (s s' : Scheduler) → park_thread now calling s ≡ ok (waiting s') → Step s s'
  finds_a_core :
      (now calling : ℕ) (s s' : Scheduler)
      → park_thread now calling s ≡ ok (inserted s')
      → Step s s'
  unparks :
      (thread : ℕ) (s s' : Scheduler)
      → can_unpark thread s ≡ true
      → insert_thread thread thread s ≡ ok (inserted s')
      → Step s s'
  wakes_parked : (calling : ℕ) (s s' : Scheduler) → wake_parked_thread calling s ≡ ok s' → Step s s'

-- From empty queues on.
pub data Reach : Scheduler → Type 0 where
  start : (s : Scheduler) → ((core : ℕ) → s.queue core ≡ []) → s.parked_queue ≡ [] → Reach s
  step : (s s' : Scheduler) → Reach s → Step s s' → Reach s'

ok-Ordered : {r : Result Scheduler} (s' : Scheduler) → r ≡ ok s' → OrderedResult r → Ordered s'
ok-Ordered s' e o = subst OrderedResult e o

inserted-Ordered :
    {i : Result Insertion} (s' : Scheduler) → i ≡ ok (inserted s') → OrderedInsertion i → Ordered s'
inserted-Ordered s' e o = subst OrderedInsertion e o

waiting-Ordered :
    {i : Result Insertion} (s' : Scheduler) → i ≡ ok (waiting s') → OrderedInsertion i → Ordered s'
waiting-Ordered s' e o = subst OrderedInsertion e o

Step-Ordered : {s s' : Scheduler} → Step s s' → Ordered s → Ordered s'
Step-Ordered (inserts calling thread s s' e) o =
    inserted-Ordered s' e (insert_thread-Ordered calling thread s o)
Step-Ordered (insertion_waits calling thread s s' e) o =
    waiting-Ordered s' e (insert_thread-Ordered calling thread s o)
Step-Ordered (insertion_ends calling thread s e) o = enqueue-Ordered calling thread s o
Step-Ordered (removes now calling s s' e) o =
    ok-Ordered s' e (remove_thread-Ordered now calling s o)
Step-Ordered (rotates now calling s s' e) o = ok-Ordered s' e (rotate-Ordered now calling s o)
Step-Ordered (migrates calling thread target s s' e) o =
    inserted-Ordered s' e (migrate_to_core-Ordered calling thread target s o)
Step-Ordered (pauses thread s s' e) o = ok-Ordered s' e (pause_thread-Ordered thread s o)
Step-Ordered (resumes calling thread s s' e) o =
    inserted-Ordered s' e (resume_thread-Ordered calling thread s o)
Step-Ordered (parks now calling s s' e) o =
    waiting-Ordered s' e (park_thread-Ordered now calling s o)
Step-Ordered (finds_a_core now calling s s' e) o =
    inserted-Ordered s' e (park_thread-Ordered now calling s o)
Step-Ordered (unparks thread s s' c e) o =
    inserted-Ordered s' e (insert_thread-Ordered thread thread s o)
Step-Ordered (wakes_parked calling s s' e) o =
    ok-Ordered s' e (wake_parked_thread-Ordered calling s o)

-- Whatever operations have come, as long as no priority changes, no thread stands on a core behind one
-- of a lower priority; so the thread at the front, which runs, has the highest.
pub Reach-Ordered : {s : Scheduler} → Reach s → Ordered s
Reach-Ordered (start s empty parked) = λ core. rw (empty core) tt
Reach-Ordered (step s s' r t) = Step-Ordered t (Reach-Ordered r)
