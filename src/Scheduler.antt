-- ===== src/Scheduler.antt =====
-- The scheduler of the guest's threads: kernel/scheduler.h and scheduler.cpp. A thread is a number, and
-- each of its fields in kernel/types/KThread.h that the scheduler uses is a function of the thread; so
-- are the queues, of the core. The signals and notifications that it sends are a list, and the time is
-- an argument. The calling thread, `state.thread`, is the argument `calling`. Threads are started and not
-- killed, so that signals are sent and timers armed.
pub mod Operations
pub mod Order
pub mod Migration
pub mod Reach
pub mod Priority
pub mod Rotation
pub mod Balance
pub mod Kept
pub mod Stable
pub mod Parked
mod Tests
use skyline.Base.{
  ℕ, ◌+◌, ◌*◌, ◌/◌, ◌%◌, ◌-◌, ◌^◌, Bool, true, false, ◌&&◌, ◌||◌, not, List, [], ◌∷◌, ◌++◌, Option,
  none, some, ltb, ◌==◌, if◌then◌else◌, Result, ok, err, ◌>>=◌, ◌>>◌, guard, fault, out_of_range,
  unexpected_state,
}
use skyline.PriorityQueue.{update, insert_by_priority}

pub data Event : Type 0 where
  yield_signal notify : ℕ → Event

pub record Scheduler : Type 0 where
  pub queue : ℕ → List ℕ
  pub parked_queue : List ℕ
  pub priority : ℕ → ℕ
  pub core_id : ℕ → ℕ
  pub affinity_mask : ℕ → ℕ → Bool
  pub timeslice_start : ℕ → ℕ
  pub average_timeslice : ℕ → ℕ
  pub is_preempted : ℕ → Bool
  pub pending_yield : ℕ → Bool
  pub force_yield : ℕ → Bool
  pub yield_pending : ℕ → Bool
  pub is_paused : ℕ → Bool
  pub insert_thread_on_resume : ℕ → Bool
  pub sent : List Event

abbrev pub core_count : ℕ
core_count = 4

abbrev pub parked_core_id : ℕ
parked_core_id = core_count

abbrev pub preemption_priority : ℕ → ℕ
preemption_priority core = if core == 3 then 63 else 59

abbrev pub send : Event → Scheduler → Scheduler
send event s = record s { sent = s.sent ++ (event ∷ []) }

abbrev pub set_queue : ℕ → List ℕ → Scheduler → Scheduler
set_queue core queue s = record s { queue = update s.queue core queue }

-- The queue of the core that a thread is on.
abbrev pub resident : ℕ → Scheduler → List ℕ
resident thread s = s.queue (s.core_id thread)

abbrev pub contains : ℕ → List ℕ → Bool
contains thread [] = false
contains thread (other ∷ queue) = (other == thread) || contains thread queue

abbrev pub is_front : ℕ → List ℕ → Bool
is_front thread [] = false
is_front thread (other ∷ queue) = other == thread

unfoldable pub erase : ℕ → List ℕ → List ℕ
erase thread [] = []
erase thread (other ∷ queue) = if other == thread then queue else other ∷ erase thread queue

abbrev pub notify_front : List ℕ → Scheduler → Scheduler
notify_front [] s = s
notify_front (front ∷ queue) s = send (notify front) s

-- A signal to yield, unless one has been sent.
abbrev pub yield_thread : ℕ → Scheduler → Scheduler
yield_thread thread s =
    if s.pending_yield thread
    then s
    else send (yield_signal thread)
        (record s { pending_yield = update s.pending_yield thread true })

-- A thread that inserts itself is not woken.
abbrev pub notified : ℕ → ℕ → Scheduler → Scheduler
notified calling thread s = if thread == calling then s else send (notify thread) s

-- The front of a queue yields to the thread that takes its place.
abbrev pub yielded : ℕ → ℕ → Scheduler → Scheduler
yielded calling front s =
    if front == calling
    then record s { yield_pending = update s.yield_pending calling true }
    else yield_thread front s

-- Into a core's queue; a thread of a higher priority than the front takes its place.
abbrev pub enqueue_in : ℕ → ℕ → List ℕ → Scheduler → Scheduler
enqueue_in calling thread [] s =
    notified calling thread (set_queue (s.core_id thread) (thread ∷ []) s)
enqueue_in calling thread (front ∷ queue) s =
    if ltb (s.priority thread) (s.priority front)
    then notified calling thread (
        yielded calling front (
          set_queue (s.core_id thread) (thread ∷ insert_by_priority s.priority front queue)
            (record s { force_yield = update s.force_yield front true })))
    else set_queue (s.core_id thread) (insert_by_priority s.priority thread (front ∷ queue)) s

-- `InsertThread` from the search on.
unfoldable pub enqueue : ℕ → ℕ → Scheduler → Scheduler
enqueue calling thread s = enqueue_in calling thread (resident thread s) s

-- A call that returns, or that waits until the thread is resumed.
pub data Insertion : Type 0 where
  inserted waiting : Scheduler → Insertion

-- `cores.at(thread->coreId)`
abbrev pub at_core : {A : Type 0} → ℕ → Scheduler → A → Result A
at_core thread s next = guard (ltb (s.core_id thread) core_count) out_of_range >> ok next

unfoldable pub insert_thread : ℕ → ℕ → Scheduler → Result Insertion
unfolding enqueue
insert_thread calling thread s = at_core thread s (
    if s.is_paused thread
    then waiting
        (record s { insert_thread_on_resume = update s.insert_thread_on_resume thread false })
    else inserted (enqueue calling thread s))

-- The average of a thread whose timeslice is over.
abbrev pub end_timeslice : ℕ → ℕ → Scheduler → Scheduler
end_timeslice now thread s = record s {
  average_timeslice = update s.average_timeslice thread (
      (s.average_timeslice thread / 4
        + 3 * ((now + 2 ^ 64 - s.timeslice_start thread / 4) % 2 ^ 64))
      % 2 ^ 64);
}

-- The flags of a thread that no longer runs.
abbrev pub disarm : ℕ → Scheduler → Scheduler
disarm thread s = record s {
  is_preempted = update s.is_preempted thread false;
  pending_yield = update s.pending_yield thread false;
  force_yield = update s.force_yield thread false;
}

-- The removal of a thread from its queue, by which the next one may come to the front.
unfoldable pub dequeue : ℕ → Scheduler → Scheduler
dequeue thread s =
    let rest = erase thread (resident thread s) in
    let erased = set_queue (s.core_id thread) rest s in
    if is_front thread (resident thread s) then notify_front rest erased else erased

-- What a thread that runs has used of its timeslice counts.
abbrev pub ended : ℕ → ℕ → Scheduler → Scheduler
ended now thread s =
    if is_front thread (resident thread s) && not (s.timeslice_start thread == 0)
    then end_timeslice now thread s
    else s

abbrev pub removed : ℕ → ℕ → Scheduler → Scheduler
removed now thread s =
    if contains thread (resident thread s) then dequeue thread (ended now thread s) else s

unfoldable pub remove_thread : ℕ → ℕ → Scheduler → Result Scheduler
unfolding dequeue
remove_thread now calling s =
    let left : Scheduler = removed now calling s in
    at_core calling s
      (disarm calling (record left { yield_pending = update left.yield_pending calling false }))

-- The front of a queue is woken if it is another thread.
abbrev pub notify_other : ℕ → List ℕ → Scheduler → Scheduler
notify_other thread [] s = s
notify_other thread (front ∷ queue) s = if front == thread then s else send (notify front) s

-- The front of a queue goes behind its equals.
abbrev pub rotated : ℕ → List ℕ → Scheduler → Scheduler
rotated thread queue s =
    notify_other thread (insert_by_priority s.priority thread queue)
      (set_queue (s.core_id thread) (insert_by_priority s.priority thread queue) s)

-- `Rotate` from the core's queue on; the front of an empty list is undefined.
abbrev pub rotate_queue : ℕ → ℕ → List ℕ → Scheduler → Result Scheduler
rotate_queue now thread [] s = err fault
rotate_queue now thread (front ∷ queue) s =
    if front == thread
    then ok (disarm thread (end_timeslice now thread (rotated thread queue s)))
    else if s.force_yield thread
    then ok (disarm thread (end_timeslice now thread s))
    else err unexpected_state

unfoldable pub rotate : ℕ → ℕ → Scheduler → Result Scheduler
rotate now calling s =
    guard (ltb (s.core_id calling) core_count) out_of_range
    >> rotate_queue now calling (resident calling s) s
