-- ===== src/Scheduler/Migration.antt =====
-- The order of the queues of kernel/scheduler.cpp under the operations that move, pause and park threads.
use skyline.Base.{ℕ, true, false, List, [], ◌∷◌, ltb, ◌==◌, Result, ok, err, ◌>>=◌, arith}
use skyline.PriorityQueue.{update}
use skyline.Scheduler.{
  Scheduler, notify, core_count, parked_core_id, send, resident, contains, is_front, dequeue,
  Insertion, waiting, remove_thread,
}
use skyline.Scheduler.Operations.{
  move_to_core, migrate_to_core, stop_running, pausing, pause_in_queue, pause_thread, park,
  settle_on, resume_thread, choose_core, park_thread, wake_parked_thread, wake_front, wake_parked,
  outranks,
}
use skyline.Scheduler.Order.{
  Ordered, OrderedResult, OrderedInsertion, if-Ordered, guarded-Ordered, if-OrderedInsertion,
  insert_thread-Ordered, dequeue-Ordered, remove_thread-Ordered,
}

pub migrate_to_core-Ordered :
    (calling thread target : ℕ) (s : Scheduler)
    → Ordered s
    → OrderedInsertion (migrate_to_core calling thread target s)
unfolding migrate_to_core
migrate_to_core-Ordered calling thread target s o =
    if-OrderedInsertion (contains thread (resident thread s)) _ _
      (insert_thread-Ordered calling thread (move_to_core thread target (dequeue thread s))
        (dequeue-Ordered thread s o))
      o

stop_running-Ordered : (thread : ℕ) (s : Scheduler) → Ordered s → Ordered (stop_running thread s)
stop_running-Ordered thread s o = ground arith

pub pause_thread-Ordered :
    (thread : ℕ) (s : Scheduler) → Ordered s → OrderedResult (pause_thread thread s)
unfolding pause_thread
pause_thread-Ordered thread s o =
    let paused = pausing thread true s in
    guarded-Ordered (ltb (s.core_id thread) core_count) _ (
      if-Ordered (contains thread (resident thread s)) (pause_in_queue thread paused)
        (pausing thread false s)
        (if-Ordered (is_front thread (resident thread s))
          (stop_running thread (dequeue thread paused)) (dequeue thread paused)
          (stop_running-Ordered thread (dequeue thread paused) (dequeue-Ordered thread paused o))
          (dequeue-Ordered thread paused o))
        o)

pub resume_thread-Ordered :
    (calling thread : ℕ) (s : Scheduler)
    → Ordered s
    → OrderedInsertion (resume_thread calling thread s)
unfolding resume_thread
resume_thread-Ordered calling thread s o =
    if-OrderedInsertion (s.insert_thread_on_resume thread) _ _
      (insert_thread-Ordered calling thread
        (record s { is_paused = update s.is_paused thread false }) o)
      o

bind-OrderedInsertion :
    (r : Result Scheduler) (f : Scheduler → Result Insertion)
    → OrderedResult r
    → ((s : Scheduler) → Ordered s → OrderedInsertion (f s))
    → OrderedInsertion (r >>= f)
bind-OrderedInsertion (ok s) f o k = k s o
bind-OrderedInsertion (err e) f o k = tt

settle_on-Ordered :
    (thread target : ℕ) (s : Scheduler) → Ordered s → OrderedInsertion (settle_on thread target s)
settle_on-Ordered thread target s o =
    if-OrderedInsertion (target == parked_core_id)
      (ok (waiting (park thread (move_to_core thread target s)))) _ o
      (insert_thread-Ordered thread thread (move_to_core thread target s) o)

pub park_thread-Ordered :
    (now calling : ℕ) (s : Scheduler) → Ordered s → OrderedInsertion (park_thread now calling s)
unfolding park_thread
park_thread-Ordered now calling s o =
    bind-OrderedInsertion (remove_thread now calling s) _ (remove_thread-Ordered now calling s o)
      (λ left o. settle_on-Ordered calling (choose_core calling (s.core_id calling) left) left o)

wake_parked-Ordered :
    (parked calling : ℕ) (queue : List ℕ) (s : Scheduler)
    → Ordered s
    → OrderedResult (wake_parked parked calling queue s)
wake_parked-Ordered parked calling [] s o = tt
wake_parked-Ordered parked calling (front ∷ []) s o = tt
wake_parked-Ordered parked calling (front ∷ next ∷ queue) s o =
    if-Ordered (outranks parked calling next s)
      (send (notify parked) (move_to_core parked (s.core_id calling) s)) s o o

wake_front-Ordered :
    (calling : ℕ) (parked : List ℕ) (s : Scheduler)
    → Ordered s
    → OrderedResult (wake_front calling parked s)
wake_front-Ordered calling [] s o = o
wake_front-Ordered calling (parked ∷ queue) s o =
    guarded-Ordered (ltb (s.core_id calling) core_count) _
      (wake_parked-Ordered parked calling (resident calling s) s o)

pub wake_parked_thread-Ordered :
    (calling : ℕ) (s : Scheduler) → Ordered s → OrderedResult (wake_parked_thread calling s)
unfolding wake_parked_thread
wake_parked_thread-Ordered calling s o = wake_front-Ordered calling s.parked_queue s o
