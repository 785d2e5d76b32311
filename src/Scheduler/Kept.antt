-- ===== src/Scheduler/Kept.antt =====
-- What `InsertThread` and `UpdatePriority` of kernel/scheduler.cpp leave as it is, and that they return.
use skyline.Base.{
  ℕ, ◌<◌, ◌≡◌, refl, Bool, true, false, ◌&&◌, ◌||◌, not, List, [], ◌∷◌, Option, none, some, ltb,
  ◌==◌, if◌then◌else◌, ok, Bool-cases, inl, inr, lt→ltb,
}
use skyline.PriorityQueue.{update, insert_by_priority}
use skyline.Scheduler.{
  Scheduler, preemption_priority, core_count, set_queue, resident, erase, yield_thread, notified,
  yielded, enqueue_in, enqueue, Insertion, inserted, waiting, insert_thread,
}
use skyline.Scheduler.Operations.{
  find, overtaken, update_running, reinsert, update_found, update_priority,
}

-- The priorities and the cores are the same.
abbrev pub Kept : Scheduler → Scheduler → Type 0
Kept s t = (t.priority ≡ s.priority) × (t.core_id ≡ s.core_id)

if-Kept : (b : Bool) (s t u : Scheduler) → Kept s t → Kept s u → Kept s (if b then t else u)
if-Kept true s t u h k = h
if-Kept false s t u h k = k

kept : (s : Scheduler) → Kept s s
kept s = (refl, refl)

yield_thread-Kept : (t : ℕ) (s u : Scheduler) → Kept s u → Kept s (yield_thread t u)
yield_thread-Kept t s u h = if-Kept (u.pending_yield t) s u _ h h

update_running-Kept : (t : ℕ) (queue : List ℕ) (s : Scheduler) → Kept s (update_running t queue s)
update_running-Kept t queue s =
    if-Kept (overtaken t queue s) s (yield_thread t s) _ (yield_thread-Kept t s s (kept s)) (
      if-Kept (not (s.is_preempted t) && (s.priority t == preemption_priority (s.core_id t))) s _ _
        (kept s)
        (if-Kept (s.is_preempted t && not (s.priority t == preemption_priority (s.core_id t))) s
          (record s { is_preempted = update s.is_preempted t false }) s (kept s) (kept s)))

reinsert-Kept : (t : ℕ) (queue : List ℕ) (s : Scheduler) → Kept s (reinsert t queue s)
unfolding reinsert
reinsert-Kept t [] s = kept s
reinsert-Kept t (front ∷ queue) s =
    if-Kept (ltb (s.priority t) (s.priority front)) s
      (yield_thread front (set_queue (s.core_id t) (front ∷ t ∷ queue) s))
      (set_queue (s.core_id t) (insert_by_priority s.priority t (front ∷ queue)) s)
      (yield_thread-Kept front s (set_queue (s.core_id t) (front ∷ t ∷ queue) s) (kept s)) (kept s)

update_found-Kept :
    (t : ℕ) (found : Option (Option ℕ × List ℕ)) (s : Scheduler) → Kept s (update_found t found s)
update_found-Kept t none s = kept s
update_found-Kept t (some (none, queue)) s = update_running-Kept t queue s
update_found-Kept t (some (some before, queue)) s =
    if-Kept (ltb (s.priority t) (s.priority before) || overtaken t queue s) s
      (reinsert t (erase t (resident t s)) s) s (reinsert-Kept t (erase t (resident t s)) s)
      (kept s)

-- On a core, `UpdatePriority` returns.
pub update_priority-returns :
    (t : ℕ) (s : Scheduler)
    → s.core_id t < core_count
    → (u : Scheduler) × (update_priority t s ≡ ok u) × Kept s u
unfolding update_priority
update_priority-returns t s lt = (
  update_found t (find t none (resident t s)) s,
  rw (lt→ltb (s.core_id t) core_count lt) refl,
  update_found-Kept t (find t none (resident t s)) s,
)

abbrev pub insertion_state : Insertion → Scheduler
insertion_state (inserted s) = s
insertion_state (waiting s) = s

notified-Kept : (calling t : ℕ) (s u : Scheduler) → Kept s u → Kept s (notified calling t u)
notified-Kept calling t s u h = if-Kept (t == calling) s u _ h h

yielded-Kept : (calling t : ℕ) (s u : Scheduler) → Kept s u → Kept s (yielded calling t u)
yielded-Kept calling t s u h =
    if-Kept (t == calling) s _ (yield_thread t u) h (yield_thread-Kept t s u h)

enqueue_in-Kept :
    (calling t : ℕ) (queue : List ℕ) (s : Scheduler) → Kept s (enqueue_in calling t queue s)
enqueue_in-Kept calling t [] s =
    notified-Kept calling t s (set_queue (s.core_id t) (t ∷ []) s) (kept s)
enqueue_in-Kept calling t (front ∷ queue) s =
    let put : Scheduler =
      set_queue (s.core_id t) (t ∷ insert_by_priority s.priority front queue)
        (record s { force_yield = update s.force_yield front true }) in
    if-Kept (ltb (s.priority t) (s.priority front)) s
      (notified calling t (yielded calling front put))
      (set_queue (s.core_id t) (insert_by_priority s.priority t (front ∷ queue)) s)
      (notified-Kept calling t s (yielded calling front put)
        (yielded-Kept calling front s put (kept s)))
      (kept s)

-- On a core, `InsertThread` returns, or waits until the thread is resumed.
pub insert_thread-returns :
    (calling t : ℕ) (s : Scheduler)
    → s.core_id t < core_count
    → (i : Insertion) × (insert_thread calling t s ≡ ok i) × Kept s (insertion_state i)
unfolding insert_thread enqueue
insert_thread-returns calling t s lt = elim (Bool-cases (s.is_paused t)) [
  | inl e ↦ (
    waiting (record s { insert_thread_on_resume = update s.insert_thread_on_resume t false }),
    rw (lt→ltb (s.core_id t) core_count lt) (rw e refl),
    kept s,
  )
  | inr e ↦ (
    inserted (enqueue calling t s),
    rw (lt→ltb (s.core_id t) core_count lt) (rw e refl),
    enqueue_in-Kept calling t (resident t s) s,
  )
]
