-- ===== src/Scheduler/Tests.antt =====
-- The scheduler of kernel/scheduler.cpp at fixed inputs.
use skyline.Base.{
  if◌then◌else◌, ◌==◌, ℕ, ◌/◌, ◌≤◌, ◌<◌, ◌≡◌, refl, true, false, List, [], ◌∷◌, ◌++◌, some, arith,
  ok,
}
use skyline.PriorityQueue.{All, Sorted, insert_by_priority}
use skyline.Scheduler.{
  send, core_count, Scheduler, notify, yield_signal, enqueue, insert_thread, inserted, rotate,
  erase,
}
use skyline.Scheduler.Operations.{move_to_core, update_priority, update_found}
use skyline.Scheduler.Order.{Ordered}
use skyline.Scheduler.Reach.{Reach, start, step, inserts, Reach-Ordered}
use skyline.Scheduler.Priority.{Settling, update_priority_lem}
use skyline.Scheduler.Rotation.{rotate_lem}
use skyline.Scheduler.Balance.{
  get_optimal_core_for_thread, get_optimal_core_for_thread_lem, core_load, consider_below,
}

-- Threads 30 to 39 have priority 3, and so on; all are on core 0.
abbrev idle : Scheduler
idle = record {
  queue = λ core. [];
  parked_queue = [];
  priority = λ thread. thread / 10;
  core_id = λ thread. 0;
  affinity_mask = λ thread core. true;
  timeslice_start = λ thread. 0;
  average_timeslice = λ thread. 0;
  is_preempted = λ thread. false;
  pending_yield = λ thread. false;
  force_yield = λ thread. false;
  yield_pending = λ thread. false;
  is_paused = λ thread. false;
  insert_thread_on_resume = λ thread. false;
  sent = [];
}

abbrev one_runs : Scheduler
one_runs = enqueue 7 44 idle

abbrev two_run : Scheduler
two_run = enqueue 7 30 one_runs

inserted-idle : insert_thread 7 44 idle ≡ ok (inserted one_runs)
unfolding insert_thread
inserted-idle = refl

inserted-one_runs : insert_thread 7 30 one_runs ≡ ok (inserted two_run)
unfolding insert_thread enqueue
inserted-one_runs = refl

-- A thread of a higher priority takes the front, which is told to yield.
inserted_front :
    (two_run.queue 0 ≡ 30 ∷ 44 ∷ []) × (two_run.sent ≡ notify 44 ∷ yield_signal 44 ∷ notify 30 ∷ [])
unfolding enqueue insert_by_priority
inserted_front = (refl, refl)

two_run_reached : Reach two_run
two_run_reached =
    step one_runs two_run
      (step idle one_runs (start idle (λ core. refl) refl)
        (inserts 7 44 idle one_runs inserted-idle))
      (inserts 7 30 one_runs two_run inserted-one_runs)

Reach-Ordered_example : Ordered two_run
Reach-Ordered_example = Reach-Ordered two_run_reached

-- A core whose threads are given.
abbrev with_queue : List ℕ → Scheduler
with_queue queue = record idle { queue = λ core. queue }

-- Thread 10 stands behind threads 30 and 31, as if its priority had just been raised.
abbrev raised : Scheduler
raised = with_queue (30 ∷ 31 ∷ 10 ∷ [])

abbrev raised_after : Scheduler
raised_after = update_found 10 (some (some 31, [])) raised

raised_update : update_priority 10 raised ≡ ok raised_after
unfolding update_priority
raised_update = refl

update_priority_lem_example :
    Settling raised_after.priority raised_after.pending_yield
      (raised_after.queue (raised.core_id 10))
unfolding erase
update_priority_lem_example =
    update_priority_lem 10 raised raised_after refl ((omega arith, tt), (tt, tt)) raised_update

rotate_lem_example :
    (s' : Scheduler) × (before : List ℕ) × (after : List ℕ) × (rotate 5 30
        (with_queue (30 ∷ 31 ∷ 40 ∷ []))
      ≡ ok s')
    × (s'.priority ≡ idle.priority)
    × (31 ∷ 40 ∷ [] ≡ before ++ after)
    × (s'.queue 0 ≡ before ++ 30 ∷ after)
    × All (λ x. x / 10 ≤ 3) before
    × All (λ x. 3 < x / 10) after
    × Sorted (λ x. x / 10) (s'.queue 0)
rotate_lem_example =
    rotate_lem 5 30 (31 ∷ 40 ∷ []) (with_queue (30 ∷ 31 ∷ 40 ∷ [])) refl (omega arith)
      ((omega arith, tt), (tt, tt))

-- Thread 60 runs before thread 61, and threads 51 and 52 are parked, of a higher priority.
abbrev two_parked : Scheduler
two_parked = record (with_queue (60 ∷ 61 ∷ [])) { parked_queue = 51 ∷ 52 ∷ [] }

abbrev one_woken : Scheduler
one_woken = send (notify 51) (move_to_core 51 0 two_parked)

abbrev one_back : Scheduler
one_back = enqueue 51 51 one_woken

-- Thread 51 runs on core 0, and threads are on no other.
abbrev one_busy : Scheduler
one_busy = record idle { queue = λ core. if core == 0 then 51 ∷ [] else [] }

get_optimal_core_for_thread_lem_example :
    (chosen : ℕ) × (get_optimal_core_for_thread 9 30 one_busy ≡ ok chosen)
    × (one_busy.affinity_mask 30 chosen ≡ true)
    × ((other : ℕ)
        → other < core_count
        → one_busy.affinity_mask 30 other ≡ true
        → core_load 9 30 chosen one_busy ≤ core_load 9 30 other one_busy)
    × (one_busy.affinity_mask 30 (one_busy.core_id 30) ≡ true
        → core_load 9 30 (one_busy.core_id 30) one_busy ≤ core_load 9 30 chosen one_busy
        → chosen ≡ one_busy.core_id 30)
get_optimal_core_for_thread_lem_example =
    get_optimal_core_for_thread_lem 9 30 1 51 [] one_busy (omega arith) refl (omega arith)
      (omega arith) refl

-- The first of the idle cores is chosen.
chosen_core : get_optimal_core_for_thread 9 30 one_busy ≡ ok 1
unfolding get_optimal_core_for_thread consider_below core_load
chosen_core = refl
