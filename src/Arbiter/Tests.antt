-- ===== src/Arbiter/Tests.antt =====
-- The waiters of kernel/types/KProcess.cpp at fixed inputs.
use skyline.Base.{ℕ, ◌/◌, ◌≤◌, ◌≡◌, ◌≢◌, ◌⊎◌, refl, [], ◌∷◌, none, some, arith, ◌==◌, if◌then◌else◌}
use skyline.Arbiter.{
  Process, signal, insert_thread, condition_variable_wait, signal_to_address, time_out, wake,
  wake_loop, wakes_all, signal_and_modify_based_on_waiting_thread_count_if_equal,
}
use skyline.PriorityQueue.{All}
use skyline.Arbiter.Reach.{
  Reach, start, step, waits_on_variable, Reach-AllSorted, AllSorted, highest_first,
}
use skyline.Arbiter.Signals.{
  signal_to_address_lem, signals, signals_lem, time_out-flag, Written, Woken,
}

-- Threads 30 to 39 have priority 3, and so on.
abbrev priority : ℕ → ℕ
priority thread = thread / 10

abbrev nobody : Process
nobody = record { memory = λ address. 0; sync_waiters = λ key. []; scheduler = [] }

abbrev one_waits : Process
one_waits = condition_variable_wait priority 0x100 44 nobody

abbrev two_wait : Process
two_wait = condition_variable_wait priority 0x100 30 one_waits

two_wait_reached : Reach priority two_wait
two_wait_reached =
    step one_waits two_wait
      (step nobody one_waits (start (λ address. 0)) (waits_on_variable 0x100 44 nobody))
      (waits_on_variable 0x100 30 one_waits)

Reach-AllSorted_example : AllSorted priority two_wait
Reach-AllSorted_example = Reach-AllSorted priority two_wait_reached

highest_first_example :
    All
      (λ woken.
        All (λ left. priority woken ≤ priority left) ((wake 0x100 1 two_wait).sync_waiters 0x100))
      (wake_loop (wakes_all 1) 1 (two_wait.sync_waiters 0x100)).0
highest_first_example = highest_first priority 0x100 1 two_wait_reached

-- Three threads that wait on 0x200.
abbrev three_wait : Process
three_wait = record {
  memory = λ address. 7;
  sync_waiters = λ key. if key == 0x200 then 30 ∷ 44 ∷ 51 ∷ [] else [];
  scheduler = [];
}

signal_to_address_lem_example :
    ((signal_to_address signal_and_modify_based_on_waiting_thread_count_if_equal 0x200 7 2
          three_wait
        ≡ none)
      × (signal_and_modify_based_on_waiting_thread_count_if_equal ≢ signal)
      × (three_wait.memory 0x200 ≢ 7))
    ⊎ ((s' : Process) × (signal_to_address signal_and_modify_based_on_waiting_thread_count_if_equal
            0x200 7 2 three_wait
          ≡ some s')
        × ((signal_and_modify_based_on_waiting_thread_count_if_equal ≡ signal)
            ⊎ (three_wait.memory 0x200 ≡ 7))
        × Written signal_and_modify_based_on_waiting_thread_count_if_equal 7 2
            (three_wait.sync_waiters 0x200)
            (three_wait.memory 0x200)
            (s'.memory 0x200)
        × Woken 0x200 2 three_wait s')
signal_to_address_lem_example =
    signal_to_address_lem signal_and_modify_based_on_waiting_thread_count_if_equal 0x200 7 2
      three_wait

signals_lem_example :
    (signals 0x200 2 three_wait).scheduler ≡ insert_thread 30 ∷ insert_thread 44 ∷ []
signals_lem_example = signals_lem 0x200 2 three_wait

time_out-flag_example :
    ((time_out 0x200 51 three_wait).memory 0x200 ≡ 0)
    × ((time_out 0x200 51 three_wait).sync_waiters 0x200 ≡ 30 ∷ 44 ∷ [])
time_out-flag_example =
    time_out-flag 0x200 51 (30 ∷ 44 ∷ []) three_wait refl
      ((λ e. ground arith), ((λ e. ground arith), tt))
