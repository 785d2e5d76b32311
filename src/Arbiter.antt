-- ===== src/Arbiter.antt =====
-- The waiters of condition variables and of address arbitration: kernel/types/KProcess.h and
-- KProcess.cpp. `syncWaiters` gives each key its queue of threads, the words of the guest's memory are
-- a function of their address, and the calls of the scheduler are a list. A thread is its identity,
-- with a priority that is an argument of each call that reads it; a lower number goes first. A signed 32-bit amount is its two's
-- complement.
pub mod Queue
pub mod Reach
pub mod Signals
mod Tests
use skyline.Base.{
  ℕ, ◌+◌, ◌-◌, ◌%◌, ◌^◌, Bool, true, false, ◌||◌, not, List, [], ◌∷◌, ◌++◌, Option, none, some, ltb,
  leb, ◌==◌, if◌then◌else◌, map, length,
}
use skyline.PriorityQueue.{update, insert_by_priority}

pub data SchedulerCall : Type 0 where
  insert_thread remove_thread : ℕ → SchedulerCall

pub record Process : Type 0 where
  pub memory : ℕ → ℕ
  pub sync_waiters : ℕ → List ℕ
  pub scheduler : List SchedulerCall

abbrev pub store : ℕ → ℕ → Process → Process
store address value s = record s { memory = update s.memory address value }

abbrev pub call : SchedulerCall → Process → Process
call c s = record s { scheduler = s.scheduler ++ (c ∷ []) }

abbrev pub wait_on : (ℕ → ℕ) → ℕ → ℕ → Process → Process
wait_on priority key thread s = record s {
  sync_waiters =
      update s.sync_waiters key (insert_by_priority priority thread (s.sync_waiters key));
}

-- `ConditionalVariableWait` until it unlocks the mutex.
unfoldable pub condition_variable_wait : (ℕ → ℕ) → ℕ → ℕ → Process → Process
condition_variable_wait priority key thread s =
    call (remove_thread thread) (store key 1 (wait_on priority key thread s))

-- The queue without its first entry for the thread, and if that was its last entry.
unfoldable pub erase_waiter : ℕ → List ℕ → Option (List ℕ × Bool)
erase_waiter thread [] = none
erase_waiter thread (other ∷ queue) =
    if other == thread
    then some (queue, (length queue == 0))
    else elim (erase_waiter thread queue) [
      | none ↦ none
      | some (rest, last) ↦ some (other ∷ rest, last)
    ]

-- What a wait does when its time is up.
unfoldable pub time_out : ℕ → ℕ → Process → Process
time_out key thread s =
    call (insert_thread thread) (elim (erase_waiter thread (s.sync_waiters key)) [
      | none ↦ s
      | some (rest, last) ↦
          let erased : Process = record s { sync_waiters = update s.sync_waiters key rest } in
          if last then store key 0 erased else erased
    ])

-- The threads that a signal wakes, and those that go on waiting.
unfoldable pub wake_loop : Bool → ℕ → List ℕ → List ℕ × List ℕ
wake_loop every count [] = ([], [])
wake_loop every count (thread ∷ queue) =
    let rest = wake_loop every ((count + 2 ^ 32 - 1) % 2 ^ 32) queue in
    if every || not (count == 0) then (thread ∷ rest.0, rest.1) else ([], thread ∷ queue)

-- `amount <= 0`
abbrev pub wakes_all : ℕ → Bool
wakes_all amount = (amount == 0) || leb (2 ^ 31) amount

unfoldable pub wake : ℕ → ℕ → Process → Process
wake key amount s =
    let (woken, rest) = wake_loop (wakes_all amount) amount (s.sync_waiters key) in
    record s {
      sync_waiters = update s.sync_waiters key rest;
      scheduler = s.scheduler ++ map insert_thread woken;
    }

unfoldable pub condition_variable_signal : ℕ → ℕ → Process → Process
condition_variable_signal key amount s =
    let woken = wake key amount s in
    if length (woken.sync_waiters key) == 0 then store key 0 woken else woken

-- `ArbitrationType`
pub data ArbitrationType : Type 0 where
  wait_if_less_than decrement_and_wait_if_less_than wait_if_equal : ArbitrationType

abbrev pub enqueue : (ℕ → ℕ) → ℕ → ℕ → Process → Process
enqueue priority address thread s = call (remove_thread thread) (wait_on priority address thread s)

-- `WaitForAddress` until the thread waits; `InvalidState` is `none`.
unfoldable pub wait_for_address : (ℕ → ℕ) → ArbitrationType → ℕ → ℕ → ℕ → Process → Option Process
wait_for_address priority wait_if_less_than address value thread s =
    if leb value (s.memory address) then none else some (enqueue priority address thread s)
wait_for_address priority decrement_and_wait_if_less_than address value thread s =
    if leb value (s.memory address)
    then none
    else some (
        enqueue priority address thread
          (store address ((s.memory address + 2 ^ 32 - 1) % 2 ^ 32) s))
wait_for_address priority wait_if_equal address value thread s =
    if s.memory address == value then some (enqueue priority address thread s) else none

-- `SignalType`
pub data SignalType : Type 0 where
  signal signal_and_increment_if_equal : SignalType
  signal_and_modify_based_on_waiting_thread_count_if_equal : SignalType

unfoldable pub modified_value : ℕ → ℕ → List ℕ → ℕ
modified_value value amount queue =
    if wakes_all amount
    then (if length queue == 0 then (value + 1) % 2 ^ 32 else (value + 2 ^ 32 - 2) % 2 ^ 32)
    else if length queue == 0
    then (value + 1) % 2 ^ 32
    else if ltb (length queue) amount
    then (value + 2 ^ 32 - 1) % 2 ^ 32
    else value

-- The compare and exchange of `SignalToAddress`.
abbrev pub exchange : ℕ → ℕ → ℕ → Process → Option Process
exchange address value new_value s =
    if s.memory address == value then some (store address new_value s) else none

abbrev pub wake_after : ℕ → ℕ → Option Process → Option Process
wake_after address amount exchanged = elim exchanged [
  | none ↦ none
  | some s ↦ some (wake address amount s)
]

unfoldable pub signal_to_address : SignalType → ℕ → ℕ → ℕ → Process → Option Process
signal_to_address signal address value amount s = some (wake address amount s)
signal_to_address signal_and_increment_if_equal address value amount s =
    wake_after address amount (exchange address value ((value + 1) % 2 ^ 32) s)
signal_to_address signal_and_modify_based_on_waiting_thread_count_if_equal address value amount s =
    wake_after address amount
      (exchange address value (modified_value value amount (s.sync_waiters address)) s)
