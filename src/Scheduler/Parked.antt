-- ===== src/Scheduler/Parked.antt =====
-- The threads that wait in `parkedQueue` of kernel/scheduler.cpp.
use skyline.Base.{ℕ, ◌≤◌, ◌≡◌, true, false, List}
use skyline.PriorityQueue.{Sorted}
use skyline.Scheduler.{Scheduler, contains, is_front}
use skyline.Scheduler.Reach.{Step}
use skyline.Scheduler.Stable.{Stable}

-- Operations one after another.
pub data Run : Scheduler → Scheduler → Type 0 where
  done : (s : Scheduler) → Run s s
  more : (s s' s'' : Scheduler) → Step s s' → Run s' s'' → Run s s''

-- A thread behind another one of no lower priority in a queue.
abbrev Blocked : ℕ → ℕ → (ℕ → ℕ) → List ℕ → Type 0
Blocked t h priority queue =
    Sorted priority queue
    × (contains h queue ≡ true)
    × (priority h ≤ priority t)
    × (is_front t queue ≡ false)

BlockedIn : ℕ → ℕ → Scheduler → Type 0
BlockedIn t h s = Blocked t h s.priority s.parked_queue
