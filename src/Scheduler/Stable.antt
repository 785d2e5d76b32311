-- ===== src/Scheduler/Stable.antt =====
-- What the operations of kernel/scheduler.cpp do to the queue of parked threads and to priorities.
use skyline.Base.{
  ℕ, ◌≡◌, refl, ◌⊎◌, inl, inr, Bool, true, false, ◌&&◌, not, List, [], ◌∷◌, ltb, ◌==◌,
  if◌then◌else◌, Result, ok, err, ◌>>◌, guard, out_of_range, Bool-cases, Ensures, Ensures-if,
  Ensures->>=,
}
use skyline.PriorityQueue.{update, insert_by_priority}
use skyline.Scheduler.{
  Scheduler, notify, core_count, parked_core_id, send, set_queue, resident, contains, is_front,
  erase, notify_front, yield_thread, notified, yielded, enqueue, enqueue_in, end_timeslice, disarm,
  ended, removed, notify_other, rotated, rotate_queue, rotate, dequeue, Insertion, inserted,
  waiting, insert_thread, remove_thread,
}
use skyline.Scheduler.Operations.{
  move_to_core, migrate_to_core, stop_running, pausing, pause_in_queue, pause_thread, park,
  settle_on, resume_thread, choose_core, park_thread, wake_parked_thread, wake_front, wake_parked,
  outranks,
}
use skyline.Scheduler.Kept.{insertion_state}

Ensures-guard :
    {A : Type 0} (P : A → Type 0) (b : Bool) (r : Result A)
    → Ensures P r
    → Ensures P (guard b out_of_range >> r)
Ensures-guard P true r h = h
Ensures-guard P false r h = tt

module _ (s : Scheduler) where
  -- The parked queue and the priorities are those of `s`.
  abbrev pub Stable : Scheduler → Type 0
  Stable u = (u.parked_queue ≡ s.parked_queue) × (u.priority ≡ s.priority)

  abbrev pub StableInsertion : Insertion → Type 0
  StableInsertion i = Stable (insertion_state i)

  if-Stable : (b : Bool) (u v : Scheduler) → Stable u → Stable v → Stable (if b then u else v)
  if-Stable true u v h k = h
  if-Stable false u v h k = k

  notify_front-Stable : (queue : List ℕ) (u : Scheduler) → Stable u → Stable (notify_front queue u)
  notify_front-Stable [] u h = h
  notify_front-Stable (front ∷ queue) u h = h

  yield_thread-Stable : (t : ℕ) (u : Scheduler) → Stable u → Stable (yield_thread t u)
  yield_thread-Stable t u h = if-Stable (u.pending_yield t) u _ h h

  notified-Stable : (calling t : ℕ) (u : Scheduler) → Stable u → Stable (notified calling t u)
  notified-Stable calling t u h = if-Stable (t == calling) u _ h h

  yielded-Stable : (calling t : ℕ) (u : Scheduler) → Stable u → Stable (yielded calling t u)
  yielded-Stable calling t u h =
      if-Stable (t == calling) _ (yield_thread t u) h (yield_thread-Stable t u h)

  enqueue_in-Stable :
      (calling t : ℕ) (queue : List ℕ) (u : Scheduler)
      → Stable u
      → Stable (enqueue_in calling t queue u)
  enqueue_in-Stable calling t [] u h =
      notified-Stable calling t (set_queue (u.core_id t) (t ∷ []) u) h
  enqueue_in-Stable calling t (front ∷ queue) u h =
      let put : Scheduler =
        set_queue (u.core_id t) (t ∷ insert_by_priority u.priority front queue)
          (record u { force_yield = update u.force_yield front true }) in
      if-Stable (ltb (u.priority t) (u.priority front))
        (notified calling t (yielded calling front put))
        (set_queue (u.core_id t) (insert_by_priority u.priority t (front ∷ queue)) u)
        (notified-Stable calling t (yielded calling front put) (yielded-Stable calling front put h))
        h

  pub enqueue-Stable : (calling t : ℕ) (u : Scheduler) → Stable u → Stable (enqueue calling t u)
  unfolding enqueue
  enqueue-Stable calling t u h = enqueue_in-Stable calling t (resident t u) u h

  pub insert_thread-Stable :
      (calling t : ℕ) (u : Scheduler)
      → Stable u
      → Ensures StableInsertion (insert_thread calling t u)
  unfolding insert_thread
  insert_thread-Stable calling t u h =
      Ensures-guard StableInsertion (ltb (u.core_id t) core_count) _
        (elim (Bool-cases (u.is_paused t)) [
          | inl e ↦ rw e h
          | inr e ↦ rw e (enqueue-Stable calling t u h)
        ])

  dequeue-Stable : (t : ℕ) (u : Scheduler) → Stable u → Stable (dequeue t u)
  unfolding dequeue
  dequeue-Stable t u h =
      let erased = set_queue (u.core_id t) (erase t (resident t u)) u in
      if-Stable (is_front t (resident t u)) (notify_front (erase t (resident t u)) erased) erased
        (notify_front-Stable (erase t (resident t u)) erased h) h

  removed-Stable : (now t : ℕ) (u : Scheduler) → Stable u → Stable (removed now t u)
  removed-Stable now t u h =
      if-Stable (contains t (resident t u)) (dequeue t (ended now t u)) u
        (dequeue-Stable t (ended now t u) (
          if-Stable (is_front t (resident t u) && not (u.timeslice_start t == 0))
            (end_timeslice now t u) u h h))
        h

  pub remove_thread-Stable :
      (now calling : ℕ) (u : Scheduler) → Stable u → Ensures Stable (remove_thread now calling u)
  unfolding remove_thread
  remove_thread-Stable now calling u h =
      Ensures-guard Stable (ltb (u.core_id calling) core_count) _ (removed-Stable now calling u h)

  notify_other-Stable :
      (t : ℕ) (queue : List ℕ) (u : Scheduler) → Stable u → Stable (notify_other t queue u)
  notify_other-Stable t [] u h = h
  notify_other-Stable t (front ∷ queue) u h = if-Stable (front == t) u (send (notify front) u) h h

  rotate_queue-Stable :
      (now t : ℕ) (queue : List ℕ) (u : Scheduler)
      → Stable u
      → Ensures Stable (rotate_queue now t queue u)
  rotate_queue-Stable now t [] u h = tt
  rotate_queue-Stable now t (front ∷ queue) u h =
      let moved = insert_by_priority u.priority t queue in
      Ensures-if Stable (front == t) (ok (disarm t (end_timeslice now t (rotated t queue u)))) _
        (notify_other-Stable t moved (set_queue (u.core_id t) moved u) h)
        (Ensures-if Stable (u.force_yield t) (ok (disarm t (end_timeslice now t u))) (err _) h tt)

  pub rotate-Stable :
      (now calling : ℕ) (u : Scheduler) → Stable u → Ensures Stable (rotate now calling u)
  unfolding rotate
  rotate-Stable now calling u h =
      Ensures-guard Stable (ltb (u.core_id calling) core_count) _
        (rotate_queue-Stable now calling (resident calling u) u h)

  pub migrate_to_core-Stable :
      (calling t target : ℕ) (u : Scheduler)
      → Stable u
      → Ensures StableInsertion (migrate_to_core calling t target u)
  unfolding migrate_to_core
  migrate_to_core-Stable calling t target u h =
      Ensures-if StableInsertion (contains t (resident t u)) _
        (ok (inserted (move_to_core t target u)))
        (insert_thread-Stable calling t (move_to_core t target (dequeue t u))
          (dequeue-Stable t u h))
        h

  stop_running-Stable : (t : ℕ) (u : Scheduler) → Stable u → Stable (stop_running t u)
  stop_running-Stable t u h = if-Stable (u.pending_yield t) u _ h (yield_thread-Stable t u h)

  pub pause_thread-Stable : (t : ℕ) (u : Scheduler) → Stable u → Ensures Stable (pause_thread t u)
  unfolding pause_thread
  pause_thread-Stable t u h =
      let paused = pausing t true u in
      Ensures-guard Stable (ltb (u.core_id t) core_count) _ (
        if-Stable (contains t (resident t u)) (pause_in_queue t paused) (pausing t false u)
          (if-Stable (is_front t (resident t u)) (stop_running t (dequeue t paused))
            (dequeue t paused)
            (stop_running-Stable t (dequeue t paused) (dequeue-Stable t paused h))
            (dequeue-Stable t paused h))
          h)

  pub resume_thread-Stable :
      (calling t : ℕ) (u : Scheduler)
      → Stable u
      → Ensures StableInsertion (resume_thread calling t u)
  unfolding resume_thread
  resume_thread-Stable calling t u h =
      Ensures-if StableInsertion (u.insert_thread_on_resume t) _ _
        (insert_thread-Stable calling t (record u { is_paused = update u.is_paused t false }) h) h

  wake_front-Stable :
      (calling : ℕ) (parked : List ℕ) (u : Scheduler)
      → Stable u
      → Ensures Stable (wake_front calling parked u)
  wake_front-Stable calling [] u h = h
  wake_front-Stable calling (parked ∷ queue) u h =
      Ensures-guard Stable (ltb (u.core_id calling) core_count) _ (woken (resident calling u))
    where
      woken : (queue : List ℕ) → Ensures Stable (wake_parked parked calling queue u)
      woken [] = tt
      woken (front ∷ []) = tt
      woken (front ∷ next ∷ queue) =
          if-Stable (outranks parked calling next u)
            (send (notify parked) (move_to_core parked (u.core_id calling) u)) u h h

  pub wake_parked_thread-Stable :
      (calling : ℕ) (u : Scheduler) → Stable u → Ensures Stable (wake_parked_thread calling u)
  unfolding wake_parked_thread
  wake_parked_thread-Stable calling u h = wake_front-Stable calling u.parked_queue u h

  -- The parked queue is that of `s`, or has one thread more.
  abbrev pub Grown : Scheduler → Type 0
  Grown u =
      Stable u
      ⊎ ((t : ℕ) × (u.parked_queue ≡ insert_by_priority s.priority t s.parked_queue)
          × (u.priority ≡ s.priority))

  abbrev pub GrownInsertion : Insertion → Type 0
  GrownInsertion i = Grown (insertion_state i)

  widen : (r : Result Insertion) → Ensures StableInsertion r → Ensures GrownInsertion r
  widen (ok i) h = inl h
  widen (err e) h = tt

  pub park_thread-Grown : (now calling : ℕ) → Ensures GrownInsertion (park_thread now calling s)
  unfolding park_thread
  park_thread-Grown now calling =
      Ensures->>= Stable GrownInsertion (remove_thread now calling s) _
        (remove_thread-Stable now calling s (refl, refl))
        (λ left h. settled left (choose_core calling (s.core_id calling) left) h)
    where
      settled :
          (left : Scheduler) (target : ℕ)
          → Stable left
          → Ensures GrownInsertion (settle_on calling target left)
      settled left target h =
          Ensures-if GrownInsertion (target == parked_core_id)
            (ok (waiting (park calling (move_to_core calling target left)))) _
            (inr (calling, (λ i. insert_by_priority (h.1 i) calling (h.0 i)), h.1))
            (widen (insert_thread calling calling (move_to_core calling target left))
              (insert_thread-Stable calling calling (move_to_core calling target left) h))
