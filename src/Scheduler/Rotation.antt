-- ===== src/Scheduler/Rotation.antt =====
-- `Rotate` of kernel/scheduler.cpp.
use skyline.Base.{
  ℕ, ◌≤◌, ◌<◌, ◌≡◌, refl, sym, ap, subst, ◌∙◌, List, [], ◌∷◌, ◌++◌, ok, arith, ==-true, lt→ltb,
}
use skyline.PriorityQueue.{
  insert_by_priority, All, Sorted, insert_by_priority-Sorted, insert_by_priority_lem,
}
use skyline.Scheduler.{
  Scheduler, core_count, set_queue, end_timeslice, disarm, rotated, rotate_queue, rotate,
  notify_other,
}

notify_other-rest :
    (t : ℕ) (l : List ℕ) (s : Scheduler)
    → ((notify_other t l s).queue ≡ s.queue) × ((notify_other t l s).priority ≡ s.priority)
notify_other-rest t [] s = (refl, refl)
notify_other-rest t (x ∷ l) s = ground arith

-- The front of a queue whose other threads stand in order, when it rotates, goes behind all of its own
-- priority or a higher one and before all of a lower one, which keep their order; so threads of one
-- priority take turns, and a front that should not be there leaves its queue in order.
pub rotate_lem :
    (now t : ℕ) (q : List ℕ) (s : Scheduler)
    → s.queue (s.core_id t) ≡ t ∷ q
    → s.core_id t < core_count
    → Sorted s.priority q
    → (s' : Scheduler) × (before : List ℕ) × (after : List ℕ) × (rotate now t s ≡ ok s')
      × (s'.priority ≡ s.priority)
      × (q ≡ before ++ after)
      × (s'.queue (s.core_id t) ≡ before ++ t ∷ after)
      × All (λ x. s.priority x ≤ s.priority t) before
      × All (λ x. s.priority t < s.priority x) after
      × Sorted s.priority (s'.queue (s.core_id t))
unfolding rotate
rotate_lem now t q s e lt r =
    let (before, after, e1, e2, a, b) = insert_by_priority_lem s.priority t q r in
    let moved = insert_by_priority s.priority t q in
    let (kept, ranks) = notify_other-rest t moved (set_queue (s.core_id t) moved s) in
    let there : (rotated t q s).queue (s.core_id t) ≡ moved =
      ap (λ f. f (s.core_id t)) kept ∙ rw (==-true (s.core_id t) (s.core_id t) refl) refl in
    (
      disarm t (end_timeslice now t (rotated t q s)),
      before,
      after,
      rw (lt→ltb (s.core_id t) core_count lt)
          (ap (λ l. rotate_queue now t l s) e ∙ rw (==-true t t refl) refl),
      ranks,
      e1,
      there ∙ e2,
      a,
      b,
      subst (Sorted s.priority) (sym there) (insert_by_priority-Sorted s.priority t q r),
    )
