-- ===== src/Scheduler/Operations.antt =====
-- The operations of kernel/scheduler.cpp that change a priority, a core or whether a thread can run.
use skyline.Base.{
  ℕ, Bool, true, false, ◌&&◌, ◌||◌, not, List, [], ◌∷◌, Option, none, some, ltb, ◌==◌,
  if◌then◌else◌, Result, ok, err, ◌>>=◌, ◌>>◌, guard, fault, out_of_range,
}
use skyline.PriorityQueue.{update, insert_by_priority}
use skyline.Scheduler.{
  Scheduler, notify, yield_signal, core_count, parked_core_id, preemption_priority, send, set_queue,
  resident, contains, is_front, erase, yield_thread, dequeue, Insertion, inserted, waiting, at_core,
  insert_thread, remove_thread,
}

-- The thread before a thread in its queue, if there is one, and the queue after it.
unfoldable pub find : ℕ → Option ℕ → List ℕ → Option (Option ℕ × List ℕ)
find thread before [] = none
find thread before (other ∷ queue) =
    let rest = find thread (some other) queue in
    if other == thread then some (before, queue) else rest

-- The first of some threads, if there are any, has a higher priority.
abbrev pub overtaken : ℕ → List ℕ → Scheduler → Bool
overtaken thread [] s = false
overtaken thread (next ∷ queue) s = ltb (s.priority next) (s.priority thread)

-- `UpdatePriority` of the thread that runs.
abbrev pub update_running : ℕ → List ℕ → Scheduler → Scheduler
update_running thread queue s =
    if overtaken thread queue s
    then yield_thread thread s
    else if not (s.is_preempted thread)
        && (s.priority thread == preemption_priority (s.core_id thread))
    then record s { is_preempted = update s.is_preempted thread true }
    else if s.is_preempted thread
        && not (s.priority thread == preemption_priority (s.core_id thread))
    then record s { is_preempted = update s.is_preempted thread false }
    else s

-- Where the thread is put back; behind the front in any case, which yields if it should not.
unfoldable pub reinsert : ℕ → List ℕ → Scheduler → Scheduler
reinsert thread [] s = set_queue (s.core_id thread) (thread ∷ []) s
reinsert thread (front ∷ queue) s =
    if ltb (s.priority thread) (s.priority front)
    then yield_thread front (set_queue (s.core_id thread) (front ∷ thread ∷ queue) s)
    else set_queue (s.core_id thread) (insert_by_priority s.priority thread (front ∷ queue)) s

abbrev pub update_found : ℕ → Option (Option ℕ × List ℕ) → Scheduler → Scheduler
update_found thread none s = s
update_found thread (some (none, queue)) s = update_running thread queue s
update_found thread (some (some before, queue)) s =
    if ltb (s.priority thread) (s.priority before) || overtaken thread queue s
    then reinsert thread (erase thread (resident thread s)) s
    else s

-- `std::next` is taken before it is known that the thread is in the queue; where it is not, what it gives
-- is not used, and the call is taken to return.
unfoldable pub update_priority : ℕ → Scheduler → Result Scheduler
unfolding find reinsert erase
update_priority thread s =
    at_core thread s (update_found thread (find thread none (resident thread s)) s)

abbrev pub signal_or_notify : ℕ → List ℕ → Scheduler → Result Scheduler
signal_or_notify thread [] s = err fault
signal_or_notify thread (front ∷ queue) s =
    ok (send (if front == thread then yield_signal thread else notify thread) s)

-- `UpdateCore`; the front of an empty list is undefined.
unfoldable pub update_core : ℕ → Scheduler → Result Scheduler
update_core thread s =
    guard (ltb (s.core_id thread) core_count) out_of_range
    >> signal_or_notify thread (resident thread s) s

-- `MigrateToCore`
abbrev pub move_to_core : ℕ → ℕ → Scheduler → Scheduler
move_to_core thread target s = record s { core_id = update s.core_id thread target }

unfoldable pub migrate_to_core : ℕ → ℕ → ℕ → Scheduler → Result Insertion
unfolding dequeue insert_thread
migrate_to_core calling thread target s =
    if contains thread (resident thread s)
    then insert_thread calling thread (move_to_core thread target (dequeue thread s))
    else ok (inserted (move_to_core thread target s))

-- A thread that ran is sent a signal, unless it has been sent one.
abbrev pub stop_running : ℕ → Scheduler → Scheduler
stop_running thread s =
    if s.pending_yield thread
    then s
    else (let stopped = yield_thread thread s in
        record stopped { force_yield = update stopped.force_yield thread true })

-- A thread that was in a queue is taken out of it, and put back when it is resumed.
abbrev pub pause_in_queue : ℕ → Scheduler → Scheduler
pause_in_queue thread s =
    let erased = dequeue thread s in
    if is_front thread (resident thread s) then stop_running thread erased else erased

abbrev pub pausing : ℕ → Bool → Scheduler → Scheduler
pausing thread on_resume s = record s {
  is_paused = update s.is_paused thread true;
  insert_thread_on_resume = update s.insert_thread_on_resume thread on_resume;
}

unfoldable pub pause_thread : ℕ → Scheduler → Result Scheduler
unfolding dequeue
pause_thread thread s = at_core thread s (
    if contains thread (resident thread s)
    then pause_in_queue thread (pausing thread true s)
    else pausing thread false s)

unfoldable pub resume_thread : ℕ → ℕ → Scheduler → Result Insertion
unfolding insert_thread
resume_thread calling thread s =
    let resumed : Scheduler = record s { is_paused = update s.is_paused thread false } in
    if s.insert_thread_on_resume thread
    then insert_thread calling thread resumed
    else ok (inserted (send (notify thread) resumed))

abbrev pub would_run : ℕ → List ℕ → Scheduler → Bool
would_run thread [] s = true
would_run thread (front ∷ queue) s = ltb (s.priority thread) (s.priority front)

-- A core where the thread would run at once.
abbrev pub is_open : ℕ → ℕ → ℕ → Scheduler → Bool
is_open thread original core s =
    not (original == core) && s.affinity_mask thread core && would_run thread (s.queue core) s

-- The loop of `ParkThread` over the cores; the last one that is open is taken.
abbrev pub choose_core : ℕ → ℕ → Scheduler → ℕ
choose_core thread original s =
    if is_open thread original 3 s
    then 3
    else if is_open thread original 2 s
    then 2
    else if is_open thread original 1 s
    then 1
    else if is_open thread original 0 s
    then 0
    else parked_core_id

-- The thread waits among the parked ones.
abbrev pub park : ℕ → Scheduler → Scheduler
park thread s = record s { parked_queue = insert_by_priority s.priority thread s.parked_queue }

-- `ParkThread` after the removal, for the core that is chosen.
abbrev pub settle_on : ℕ → ℕ → Scheduler → Result Insertion
settle_on thread target s =
    if target == parked_core_id
    then ok (waiting (park thread (move_to_core thread target s)))
    else insert_thread thread thread (move_to_core thread target s)

-- `ParkThread` until the thread is inserted, or waits to be woken.
unfoldable pub park_thread : ℕ → ℕ → Scheduler → Result Insertion
unfolding remove_thread insert_thread
park_thread now calling s = remove_thread now calling s >>= λ left.
    settle_on calling (choose_core calling (s.core_id calling) left) left

-- The condition under which a parked thread goes on, by `InsertThread`.
abbrev pub can_unpark : ℕ → Scheduler → Bool
can_unpark thread s = is_front thread s.parked_queue && not (s.core_id thread == parked_core_id)

-- The test of `WakeParkedThread`, where the thread after the calling one is `next`.
abbrev pub outranks : ℕ → ℕ → ℕ → Scheduler → Bool
outranks parked calling next s =
    ltb (s.priority parked) (s.priority calling)
    || ((s.priority parked == s.priority calling)
        && (not (s.priority next == s.priority calling)
            || ltb (s.timeslice_start parked) (s.timeslice_start next)))

-- A queue of no more than one thread has no next one, whose priority is read all the same.
abbrev pub wake_parked : ℕ → ℕ → List ℕ → Scheduler → Result Scheduler
wake_parked parked calling (front ∷ next ∷ queue) s = ok (
    if outranks parked calling next s
    then send (notify parked) (move_to_core parked (s.core_id calling) s)
    else s)
wake_parked parked calling [] s = err fault
wake_parked parked calling (front ∷ []) s = err fault

abbrev pub wake_front : ℕ → List ℕ → Scheduler → Result Scheduler
wake_front calling [] s = ok s
wake_front calling (parked ∷ queue) s =
    guard (ltb (s.core_id calling) core_count) out_of_range
    >> wake_parked parked calling (resident calling s) s

unfoldable pub wake_parked_thread : ℕ → Scheduler → Result Scheduler
wake_parked_thread calling s = wake_front calling s.parked_queue s
