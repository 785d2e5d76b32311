-- ===== src/Arbiter/Signals.antt =====
-- What signals and time outs of kernel/types/KProcess.cpp do to a queue.
use skyline.Base.{
  ℕ, zero, suc, ◌+◌, ◌%◌, ◌^◌, ◌<◌, ◌≤◌, Bool, false, ◌&&◌, ltb, subst, ◌≡◌, ◌≢◌, ◌⊎◌, refl, sym,
  ap, ◌∙◌, true, List, [], ◌∷◌, ◌++◌, none, some, ◌==◌, if◌then◌else◌, map, length, take, drop,
  arith, Bool-cases, inl, inr, ==-false, ==-true,
}
use mathlib.Core.List.{append_assoc, append-nil}
use skyline.Arbiter.{
  Process, insert_thread, erase_waiter, wake_loop, wakes_all, store, time_out, wake,
  condition_variable_signal, SignalType, signal, wake_after, exchange,
  signal_and_increment_if_equal, signal_and_modify_based_on_waiting_thread_count_if_equal,
  modified_value, signal_to_address,
}
use skyline.Arbiter.Queue.{wake_loop_lem}
use skyline.PriorityQueue.{All}

-- A positive amount, as a signed number of 32 bits.
abbrev pub is_positive : ℕ → Bool
is_positive amount = ltb 0 amount && ltb amount (2 ^ 31)

-- The threads that a signal of an amount takes from a queue, and those that it leaves.
abbrev pub first : ℕ → List ℕ → List ℕ
first amount queue = if is_positive amount then take amount queue else queue

abbrev pub others : ℕ → List ℕ → List ℕ
others amount queue = if is_positive amount then drop amount queue else []

abbrev pub Woken : ℕ → ℕ → Process → Process → Type 0
Woken key amount s s' =
    (s'.scheduler ≡ s.scheduler ++ map insert_thread (first amount (s.sync_waiters key)))
    × (s'.sync_waiters key ≡ others amount (s.sync_waiters key))

wake_loop-first :
    (amount : ℕ) (queue : List ℕ)
    → wake_loop (wakes_all amount) amount queue ≡ (first amount queue, others amount queue)
wake_loop-first amount queue = elim (Bool-cases (is_positive amount)) [
  | inl e ↦
      let few : wakes_all amount ≡ false = ground arith in
      rw e (wake_loop_lem amount queue ∙ rw few refl)
  | inr e ↦
      let every : wakes_all amount ≡ true = ground arith in
      rw e (wake_loop_lem amount queue ∙ rw every refl)
]

wake-Woken : (key amount : ℕ) (s : Process) → Woken key amount s (wake key amount s)
unfolding wake
wake-Woken key amount s =
    rw (wake_loop-first amount (s.sync_waiters key), ==-true key key refl) (refl, refl)

wake-memory : (key amount : ℕ) (s : Process) → (wake key amount s).memory key ≡ s.memory key
unfolding wake
wake-memory key amount s = refl

-- The word by the count of the waiters: 1 more where there are none; else 2 less for an amount that is
-- not positive, 1 less for one above the count, and the same for any other, all modulo 2^32.
abbrev pub Counted : ℕ → ℕ → List ℕ → ℕ → Type 0
Counted value amount [] new = new ≡ (value + 1) % 2 ^ 32
Counted value amount (thread ∷ queue) new =
    (is_positive amount ≡ false → (new < 2 ^ 32) × ((new + 2) % 2 ^ 32 ≡ value % 2 ^ 32))
    × (is_positive amount ≡ true
        → suc (length queue) < amount
        → (new < 2 ^ 32) × ((new + 1) % 2 ^ 32 ≡ value % 2 ^ 32))
    × (is_positive amount ≡ true → amount ≤ suc (length queue) → new ≡ value)

-- What the word is after a signal, from what it was.
abbrev pub Written : SignalType → ℕ → ℕ → List ℕ → ℕ → ℕ → Type 0
Written signal value amount queue old new = new ≡ old
Written signal_and_increment_if_equal value amount queue old new = new ≡ (value + 1) % 2 ^ 32
Written signal_and_modify_based_on_waiting_thread_count_if_equal value amount queue old new =
    Counted value amount queue new

modified_value-Counted :
    (value amount : ℕ) (queue : List ℕ)
    → Counted value amount queue (modified_value value amount queue)
unfolding modified_value
modified_value-Counted value amount [] = ground arith
modified_value-Counted value amount (thread ∷ queue) =
    (λ p. ground arith, λ p lt. ground arith, λ p le. ground arith)

exchange_lem :
    (type : SignalType) (address value amount new_value : ℕ) (s : Process)
    → type ≢ signal
    → Written type value amount (s.sync_waiters address) (s.memory address) new_value
    → ((wake_after address amount (exchange address value new_value s) ≡ none)
        × (type ≢ signal)
        × (s.memory address ≢ value))
      ⊎ ((s' : Process) × (wake_after address amount (exchange address value new_value s) ≡ some s')
          × ((type ≡ signal) ⊎ (s.memory address ≡ value))
          × Written type value amount
              (s.sync_waiters address)
              (s.memory address)
              (s'.memory address)
          × Woken address amount s s')
exchange_lem type address value amount new_value s ne w =
    elim (Bool-cases (s.memory address == value)) [
      | inl e ↦ rw e (
          inr (
            wake address amount (store address new_value s),
            refl,
            inr (ground arith),
            subst (Written type value amount (s.sync_waiters address) (s.memory address))
                (sym (
                  wake-memory address amount (store address new_value s)
                  ∙ rw (==-true address address refl) refl))
                w,
            wake-Woken address amount (store address new_value s),
          ))
      | inr e ↦ rw e (inl (refl, ne, ground arith))
    ]

-- SignalToAddress refuses nothing but a compare and exchange whose value is not that of the word.
-- Otherwise it leaves the word or writes what its type says: 1 more, or by the count of the waiters 1
-- more, 2 less, 1 less or the same; and it wakes the first threads of the queue: as many as the amount
-- says, or all where it is not positive.
pub signal_to_address_lem :
    (type : SignalType) (address value amount : ℕ) (s : Process)
    → ((signal_to_address type address value amount s ≡ none)
        × (type ≢ signal)
        × (s.memory address ≢ value))
      ⊎ ((s' : Process) × (signal_to_address type address value amount s ≡ some s')
          × ((type ≡ signal) ⊎ (s.memory address ≡ value))
          × Written type value amount
              (s.sync_waiters address)
              (s.memory address)
              (s'.memory address)
          × Woken address amount s s')
unfolding signal_to_address
signal_to_address_lem signal address value amount s = inr (
  wake address amount s,
  refl,
  inl refl,
  wake-memory address amount s,
  wake-Woken address amount s,
)
signal_to_address_lem signal_and_increment_if_equal address value amount s =
    exchange_lem _ address value amount _ s (λ e. cc) refl
signal_to_address_lem signal_and_modify_based_on_waiting_thread_count_if_equal address value amount
      s =
    exchange_lem _ address value amount _ s (λ e. cc)
      (modified_value-Counted value amount (s.sync_waiters address))

signal_one :
    (key : ℕ) (s : Process)
    → ((condition_variable_signal key 1 s).scheduler
        ≡ s.scheduler ++ map insert_thread (take 1 (s.sync_waiters key)))
      × ((condition_variable_signal key 1 s).sync_waiters key ≡ drop 1 (s.sync_waiters key))
unfolding condition_variable_signal
signal_one key s = elim (Bool-cases (length ((wake key 1 s).sync_waiters key) == 0)) [
  | inl e ↦ rw e (wake-Woken key 1 s)
  | inr e ↦ rw e (wake-Woken key 1 s)
]

one_more :
    (n : ℕ) (queue : List ℕ)
    → map insert_thread (take 1 queue) ++ map insert_thread (take n (drop 1 queue))
      ≡ map insert_thread (take (suc n) queue)
one_more zero [] = refl
one_more (suc n) [] = refl
one_more n (thread ∷ queue) = refl

-- Signals of one thread each.
pub signals : ℕ → ℕ → Process → Process
signals key zero s = s
signals key (suc n) s = signals key n (condition_variable_signal key 1 s)

-- After as many signals of a condition variable as threads wait on it, each of them has been handed
-- back to the scheduler, in the order of the queue; after fewer, the first of them.
pub signals_lem :
    (key n : ℕ) (s : Process)
    → (signals key n s).scheduler ≡ s.scheduler ++ map insert_thread (take n (s.sync_waiters key))
unfolding signals
signals_lem key zero s = sym (append-nil s.scheduler)
signals_lem key (suc n) s =
    let s1 = condition_variable_signal key 1 s in
    let (woken, left) = signal_one key s in
    signals_lem key n s1
    ∙ ap (λ q. s1.scheduler ++ map insert_thread (take n q)) left
    ∙ ap (λ c. c ++ map insert_thread (take n (drop 1 (s.sync_waiters key)))) woken
    ∙ append_assoc s.scheduler (map insert_thread (take 1 (s.sync_waiters key))) _
    ∙ ap (s.scheduler ++◌) (one_more n (s.sync_waiters key))

erase_waiter-last :
    (thread : ℕ) (queue : List ℕ)
    → All (λ t. t ≢ thread) queue
    → erase_waiter thread (queue ++ thread ∷ []) ≡ some (queue, true)
unfolding erase_waiter
erase_waiter-last thread [] a = rw (==-true thread thread refl) refl
erase_waiter-last thread (other ∷ queue) a =
    rw (==-false other thread a.0, erase_waiter-last thread queue a.1) refl

-- When the time of the last thread of a queue is up, the word that says that threads wait becomes 0,
-- although the threads before it still wait.
pub time_out-flag :
    (key thread : ℕ) (queue : List ℕ) (s : Process)
    → s.sync_waiters key ≡ queue ++ thread ∷ []
    → All (λ t. t ≢ thread) queue
    → ((time_out key thread s).memory key ≡ 0) × ((time_out key thread s).sync_waiters key ≡ queue)
unfolding time_out
time_out-flag key thread queue s e a =
    rw (e, erase_waiter-last thread queue a, ==-true key key refl) (refl, refl)
