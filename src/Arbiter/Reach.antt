-- ===== src/Arbiter/Reach.antt =====
-- Waits, time outs and signals of kernel/types/KProcess.cpp, in any order. Priorities stay as they are,
-- though a thread that waits can be given another one, which moves it in no queue of `syncWaiters`.
use skyline.Base.{
  ℕ, ◌≤◌, ◌≡◌, refl, subst, Bool, true, false, List, [], none, some, leb, ◌==◌, if◌then◌else◌,
  length, arith, Bool-cases, Option-cases, inl, inr, ==-true, some-injective,
}
use skyline.Arbiter.{
  Process, erase_waiter, wake_loop, wakes_all, wait_on, store, condition_variable_wait, time_out,
  wake, condition_variable_signal, ArbitrationType, wait_if_less_than,
  decrement_and_wait_if_less_than, wait_if_equal, wait_for_address, SignalType, signal,
  signal_and_increment_if_equal, signal_and_modify_based_on_waiting_thread_count_if_equal, exchange,
  wake_after, signal_to_address,
}
use skyline.Arbiter.Queue.{erase_waiter-Sorted, wake_loop-append}
use skyline.PriorityQueue.{update, All, Sorted, insert_by_priority-Sorted, Sorted-append}

unless : (b : Bool) (s : Process) {s' : Process} → (if b then none else some s) ≡ some s' → s ≡ s'
unless b s e = ground arith

provided : (b : Bool) (s : Process) {s' : Process} → (if b then some s else none) ≡ some s' → s ≡ s'
provided b s e = ground arith

exchanged :
    (address amount value new_value : ℕ) (s : Process) {s' : Process}
    → wake_after address amount (exchange address value new_value s) ≡ some s'
    → wake address amount (store address new_value s) ≡ s'
exchanged address amount value new_value s e = ground arith

module _ (priority : ℕ → ℕ) where
  -- One call of the process, or the end of a wait.
  pub data Step : Process → Process → Type 0 where
    waits_on_variable :
        (key thread : ℕ) (s : Process) → Step s (condition_variable_wait priority key thread s)
    waits_on_address :
        (type : ArbitrationType) (address value thread : ℕ) (s s' : Process)
        → wait_for_address priority type address value thread s ≡ some s'
        → Step s s'
    times_out : (key thread : ℕ) (s : Process) → Step s (time_out key thread s)
    signals_variable :
        (key amount : ℕ) (s : Process) → Step s (condition_variable_signal key amount s)
    signals_address :
        (type : SignalType) (address value amount : ℕ) (s s' : Process)
        → signal_to_address type address value amount s ≡ some s'
        → Step s s'

  -- From a process without waiters on.
  pub data Reach : Process → Type 0 where
    start :
        (memory : ℕ → ℕ)
        → Reach (record { memory = memory; sync_waiters = λ key. []; scheduler = [] })
    step : (s s' : Process) → Reach s → Step s s' → Reach s'

  abbrev pub AllSorted : Process → Type 0
  AllSorted s = (key : ℕ) → Sorted priority (s.sync_waiters key)

  -- A queue in the place of another.
  update-Sorted :
      (f : ℕ → List ℕ) (key : ℕ) (queue : List ℕ)
      → Sorted priority queue
      → ((key : ℕ) → Sorted priority (f key))
      → (key' : ℕ) → Sorted priority (update f key queue key')
  update-Sorted f key queue s all key' = elim (Bool-cases (key' == key)) [
    | inl e ↦ rw e s
    | inr e ↦ rw e (all key')
  ]

  wait_on-AllSorted :
      (key thread : ℕ) (s : Process) → AllSorted s → AllSorted (wait_on priority key thread s)
  wait_on-AllSorted key thread s all =
      update-Sorted s.sync_waiters key _
        (insert_by_priority-Sorted priority thread (s.sync_waiters key) (all key)) all

  condition_variable_wait-AllSorted :
      (key thread : ℕ) (s : Process)
      → AllSorted s
      → AllSorted (condition_variable_wait priority key thread s)
  unfolding condition_variable_wait
  condition_variable_wait-AllSorted key thread s all = wait_on-AllSorted key thread s all

  wait_for_address-AllSorted :
      (type : ArbitrationType) (address value thread : ℕ) (s : Process) {s' : Process}
      → AllSorted s
      → wait_for_address priority type address value thread s ≡ some s'
      → AllSorted s'
  unfolding wait_for_address
  wait_for_address-AllSorted wait_if_less_than address value thread s all e =
      subst AllSorted (unless (leb value (s.memory address)) _ e)
        (wait_on-AllSorted address thread s all)
  wait_for_address-AllSorted decrement_and_wait_if_less_than address value thread s all e =
      subst AllSorted (unless (leb value (s.memory address)) _ e)
        (wait_on-AllSorted address thread s all)
  wait_for_address-AllSorted wait_if_equal address value thread s all e =
      subst AllSorted (provided (s.memory address == value) _ e)
        (wait_on-AllSorted address thread s all)

  if-AllSorted :
      (b : Bool) (s t : Process) → AllSorted s → AllSorted t → AllSorted (if b then s else t)
  if-AllSorted true s t a b = a
  if-AllSorted false s t a b = b

  erased-AllSorted :
      (key thread : ℕ) (s : Process) {rest : List ℕ} {last : Bool}
      → AllSorted s
      → erase_waiter thread (s.sync_waiters key) ≡ some (rest, last)
      → (key' : ℕ) → Sorted priority (update s.sync_waiters key rest key')
  erased-AllSorted key thread s {rest} all e =
      update-Sorted s.sync_waiters key rest
        (erase_waiter-Sorted priority thread (s.sync_waiters key) (all key) e) all

  time_out-AllSorted :
      (key thread : ℕ) (s : Process) → AllSorted s → AllSorted (time_out key thread s)
  unfolding time_out
  time_out-AllSorted key thread s all =
      elim (Option-cases (erase_waiter thread (s.sync_waiters key))) [
        | inl e ↦ rw e all
        | inr ((rest, last), e) ↦ rw e (
            if-AllSorted last _ _ (erased-AllSorted key thread s all e)
              (erased-AllSorted key thread s all e))
      ]

  wake-AllSorted : (key amount : ℕ) (s : Process) → AllSorted s → AllSorted (wake key amount s)
  unfolding wake
  wake-AllSorted key amount s all =
      update-Sorted s.sync_waiters key _
        (Sorted-append priority (wake_loop (wakes_all amount) amount (s.sync_waiters key)).0 _
          (rw (wake_loop-append (wakes_all amount) amount (s.sync_waiters key)) (all key))).0
        all

  condition_variable_signal-AllSorted :
      (key amount : ℕ) (s : Process)
      → AllSorted s
      → AllSorted (condition_variable_signal key amount s)
  unfolding condition_variable_signal
  condition_variable_signal-AllSorted key amount s all =
      if-AllSorted (length ((wake key amount s).sync_waiters key) == 0) _ _
        (wake-AllSorted key amount s all) (wake-AllSorted key amount s all)

  signal_to_address-AllSorted :
      (type : SignalType) (address value amount : ℕ) (s : Process) {s' : Process}
      → AllSorted s
      → signal_to_address type address value amount s ≡ some s'
      → AllSorted s'
  unfolding signal_to_address
  signal_to_address-AllSorted signal address value amount s all e =
      subst AllSorted (some-injective e) (wake-AllSorted address amount s all)
  signal_to_address-AllSorted signal_and_increment_if_equal address value amount s all e =
      subst AllSorted (exchanged address amount value _ s e)
        (wake-AllSorted address amount (store address _ s) all)
  signal_to_address-AllSorted signal_and_modify_based_on_waiting_thread_count_if_equal address value
        amount s all e =
      subst AllSorted (exchanged address amount value _ s e)
        (wake-AllSorted address amount (store address _ s) all)

  Step-AllSorted : {s s' : Process} → Step s s' → AllSorted s → AllSorted s'
  Step-AllSorted (waits_on_variable key thread s) all =
      condition_variable_wait-AllSorted key thread s all
  Step-AllSorted (waits_on_address type address value thread s s' e) all =
      wait_for_address-AllSorted type address value thread s all e
  Step-AllSorted (times_out key thread s) all = time_out-AllSorted key thread s all
  Step-AllSorted (signals_variable key amount s) all =
      condition_variable_signal-AllSorted key amount s all
  Step-AllSorted (signals_address type address value amount s s' e) all =
      signal_to_address-AllSorted type address value amount s all e

  -- Whatever waits, ends of waits and signals have come, from no waiters on and as long as no priority
  -- changes, no thread waits on a key behind one of a lower priority.
  pub Reach-AllSorted : {s : Process} → Reach s → AllSorted s
  Reach-AllSorted (start memory) = λ key. tt
  Reach-AllSorted (step s s' r t) = Step-AllSorted t (Reach-AllSorted r)

  -- Whatever waits, ends of waits and signals have come before, from no waiters on and as long as no
  -- priority has changed, no thread that a signal wakes has a lower priority than one that it leaves to
  -- wait on the same key.
  pub highest_first :
      {s : Process} (key amount : ℕ)
      → Reach s
      → All
          (λ woken.
            All (λ left. priority woken ≤ priority left) ((wake key amount s).sync_waiters key))
          (wake_loop (wakes_all amount) amount (s.sync_waiters key)).0
  unfolding wake
  highest_first {s} key amount r =
      rw (==-true key key refl)
        (Sorted-append priority (wake_loop (wakes_all amount) amount (s.sync_waiters key)).0 _ (
          rw (wake_loop-append (wakes_all amount) amount (s.sync_waiters key))
            (Reach-AllSorted r key))).1
