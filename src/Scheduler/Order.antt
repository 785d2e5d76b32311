-- ===== src/Scheduler/Order.antt =====
-- The order of the queues of kernel/scheduler.cpp under each of its operations.
use skyline.Base.{
  ℕ, ◌<◌, Bool, true, false, ◌&&◌, not, List, [], ◌∷◌, ltb, ◌==◌, if◌then◌else◌, Result, ok, err,
  ◌>>◌, guard, out_of_range, arith, Bool-cases, inl, inr,
}
use skyline.PriorityQueue.{
  update, insert_by_priority, All, All-imp, Sorted, All-insert_by_priority,
  insert_by_priority-Sorted,
}
use skyline.Scheduler.{
  Scheduler, notify, core_count, send, set_queue, resident, contains, is_front, erase, notify_front,
  notified, yielded, enqueue, enqueue_in, end_timeslice, disarm, ended, removed, notify_other,
  rotated, rotate_queue, rotate, dequeue, Insertion, inserted, waiting, insert_thread,
  remove_thread,
}

-- On each core nobody waits behind a thread of a lower priority.
abbrev pub Ordered : Scheduler → Type 0
Ordered s = (core : ℕ) → Sorted s.priority (s.queue core)

abbrev pub OrderedResult : Result Scheduler → Type 0
OrderedResult (ok s) = Ordered s
OrderedResult (err e) = Unit {0}

abbrev pub OrderedInsertion : Result Insertion → Type 0
OrderedInsertion (ok (inserted s)) = Ordered s
OrderedInsertion (ok (waiting s)) = Ordered s
OrderedInsertion (err e) = Unit {0}

All-erase :
    (P : ℕ → Type 0) (thread : ℕ) (queue : List ℕ) → All P queue → All P (erase thread queue)
unfolding erase
All-erase P thread [] a = tt
All-erase P thread (other ∷ queue) a = elim (Bool-cases (other == thread)) [
  | inl e ↦ rw e a.1
  | inr e ↦ rw e (a.0, All-erase P thread queue a.1)
]

pub erase-Sorted :
    (priority : ℕ → ℕ) (thread : ℕ) (queue : List ℕ)
    → Sorted priority queue
    → Sorted priority (erase thread queue)
unfolding erase
erase-Sorted priority thread [] s = tt
erase-Sorted priority thread (other ∷ queue) s = elim (Bool-cases (other == thread)) [
  | inl e ↦ rw e s.1
  | inr e ↦ rw e (All-erase _ thread queue s.0, erase-Sorted priority thread queue s.1)
]

set_queue-Ordered :
    (core : ℕ) (queue : List ℕ) (s : Scheduler)
    → Sorted s.priority queue
    → Ordered s
    → Ordered (set_queue core queue s)
set_queue-Ordered core queue s q o c = elim (Bool-cases (c == core)) [
  | inl e ↦ rw e q
  | inr e ↦ rw e (o c)
]

pub if-Ordered : (b : Bool) (s t : Scheduler) → Ordered s → Ordered t → Ordered (if b then s else t)
if-Ordered true s t o u = o
if-Ordered false s t o u = u

notify_front-Ordered : (queue : List ℕ) (s : Scheduler) → Ordered s → Ordered (notify_front queue s)
notify_front-Ordered [] s o = o
notify_front-Ordered (front ∷ queue) s o = o

-- The front goes behind its equals, and a thread of a higher priority takes its place.
replaced-Sorted :
    (priority : ℕ → ℕ) (thread front : ℕ) (queue : List ℕ)
    → priority thread < priority front
    → Sorted priority (front ∷ queue)
    → Sorted priority (thread ∷ insert_by_priority priority front queue)
replaced-Sorted priority thread front queue lt s = (
  All-insert_by_priority priority _ front queue (omega arith)
      (All-imp _ _ queue (λ x h. omega arith) s.0),
  insert_by_priority-Sorted priority front queue s.1,
)

notified-Ordered :
    (calling thread : ℕ) (s : Scheduler) → Ordered s → Ordered (notified calling thread s)
notified-Ordered calling thread s o = if-Ordered (thread == calling) _ _ o o

yielded-Ordered :
    (calling front : ℕ) (s : Scheduler) → Ordered s → Ordered (yielded calling front s)
yielded-Ordered calling front s o =
    if-Ordered (front == calling) _ _ o (if-Ordered (s.pending_yield front) _ _ o o)

enqueue_in-Ordered :
    (calling thread : ℕ) (queue : List ℕ) (s : Scheduler)
    → Sorted s.priority queue
    → Ordered s
    → Ordered (enqueue_in calling thread queue s)
enqueue_in-Ordered calling thread [] s q o =
    notified-Ordered calling thread _
      (set_queue-Ordered (s.core_id thread) (thread ∷ []) s (tt, tt) o)
enqueue_in-Ordered calling thread (front ∷ queue) s q o =
    elim (Bool-cases (ltb (s.priority thread) (s.priority front))) [
      | inl e ↦
          let forced : Scheduler = record s { force_yield = update s.force_yield front true } in
          rw e (
            notified-Ordered calling thread _ (
              yielded-Ordered calling front _ (
                set_queue-Ordered (s.core_id thread)
                  (thread ∷ insert_by_priority s.priority front queue) forced
                  (replaced-Sorted s.priority thread front queue (ground arith) q) o)))
      | inr e ↦ rw e (
          set_queue-Ordered (s.core_id thread) _ s
            (insert_by_priority-Sorted s.priority thread (front ∷ queue) q) o)
    ]

pub enqueue-Ordered :
    (calling thread : ℕ) (s : Scheduler) → Ordered s → Ordered (enqueue calling thread s)
unfolding enqueue
enqueue-Ordered calling thread s o =
    enqueue_in-Ordered calling thread (resident thread s) s (o (s.core_id thread)) o

pub guarded-Ordered :
    (b : Bool) (r : Result Scheduler) → OrderedResult r → OrderedResult (guard b out_of_range >> r)
guarded-Ordered true r o = o
guarded-Ordered false r o = tt

guarded-OrderedInsertion :
    (b : Bool) (i : Result Insertion)
    → OrderedInsertion i
    → OrderedInsertion (guard b out_of_range >> i)
guarded-OrderedInsertion true i o = o
guarded-OrderedInsertion false i o = tt

pub if-OrderedInsertion :
    (b : Bool) (i j : Result Insertion)
    → OrderedInsertion i
    → OrderedInsertion j
    → OrderedInsertion (if b then i else j)
if-OrderedInsertion true i j o u = o
if-OrderedInsertion false i j o u = u

if-OrderedResult :
    (b : Bool) (r q : Result Scheduler)
    → OrderedResult r
    → OrderedResult q
    → OrderedResult (if b then r else q)
if-OrderedResult true r q o u = o
if-OrderedResult false r q o u = u

pub insert_thread-Ordered :
    (calling thread : ℕ) (s : Scheduler)
    → Ordered s
    → OrderedInsertion (insert_thread calling thread s)
unfolding insert_thread
insert_thread-Ordered calling thread s o =
    guarded-OrderedInsertion (ltb (s.core_id thread) core_count) _
      (elim (Bool-cases (s.is_paused thread)) [
        | inl e ↦ rw e o
        | inr e ↦ rw e (enqueue-Ordered calling thread s o)
      ])

pub dequeue-Ordered : (thread : ℕ) (s : Scheduler) → Ordered s → Ordered (dequeue thread s)
unfolding dequeue
dequeue-Ordered thread s o =
    let q =
      set_queue-Ordered (s.core_id thread) _ s
        (erase-Sorted s.priority thread (resident thread s) (o (s.core_id thread))) o in
    if-Ordered (is_front thread (resident thread s)) _ _
      (notify_front-Ordered (erase thread (resident thread s)) _ q) q

removed-Ordered : (now thread : ℕ) (s : Scheduler) → Ordered s → Ordered (removed now thread s)
removed-Ordered now thread s o =
    if-Ordered (contains thread (resident thread s)) (dequeue thread (ended now thread s)) s
      (dequeue-Ordered thread (ended now thread s) (
        if-Ordered (is_front thread (resident thread s) && not (s.timeslice_start thread == 0))
          (end_timeslice now thread s) s o o))
      o

pub remove_thread-Ordered :
    (now calling : ℕ) (s : Scheduler) → Ordered s → OrderedResult (remove_thread now calling s)
unfolding remove_thread
remove_thread-Ordered now calling s o =
    guarded-Ordered (ltb (s.core_id calling) core_count) _ (removed-Ordered now calling s o)

notify_other-Ordered :
    (thread : ℕ) (queue : List ℕ) (s : Scheduler)
    → Ordered s
    → Ordered (notify_other thread queue s)
notify_other-Ordered thread [] s o = o
notify_other-Ordered thread (front ∷ queue) s o =
    if-Ordered (front == thread) s (send (notify front) s) o o

rotated-Ordered :
    (thread : ℕ) (queue : List ℕ) (s : Scheduler)
    → Sorted s.priority queue
    → Ordered s
    → Ordered (rotated thread queue s)
rotated-Ordered thread queue s q o =
    notify_other-Ordered thread (insert_by_priority s.priority thread queue) _ (
      set_queue-Ordered (s.core_id thread) _ s (insert_by_priority-Sorted s.priority thread queue q)
        o)

rotate_queue-Ordered :
    (now thread : ℕ) (queue : List ℕ) (s : Scheduler)
    → Sorted s.priority queue
    → Ordered s
    → OrderedResult (rotate_queue now thread queue s)
rotate_queue-Ordered now thread [] s q o = tt
rotate_queue-Ordered now thread (front ∷ queue) s q o =
    if-OrderedResult (front == thread) _ _ (rotated-Ordered thread queue s q.1 o) (
      if-OrderedResult (s.force_yield thread) (ok (disarm thread (end_timeslice now thread s)))
        (err _) o tt)

pub rotate-Ordered :
    (now calling : ℕ) (s : Scheduler) → Ordered s → OrderedResult (rotate now calling s)
unfolding rotate
rotate-Ordered now calling s o =
    guarded-Ordered (ltb (s.core_id calling) core_count) _
      (rotate_queue-Ordered now calling (resident calling s) s (o (s.core_id calling)) o)
