-- ===== src/BufferQueue/Run.antt =====
-- The producer under any sequence of the transactions of its interface, which `OnTransact` of
-- app/src/main/cpp/skyline/services/hosbinder/GraphicBufferProducer.cpp hands to the members.
use skyline.Base.{
  ℕ, zero, suc, ◌≤◌, ◌≡◌, refl, List, [], ◌∷◌, Option, Result, ok, err, ◌>>=◌, Ensures, Ensures->>=,
  inl, inr, arith, length, subst,
}
use skyline.BufferQueue.{
  Request, request_buffer, set_buffer_count, dequeue_buffer, detach_buffer, detach_next_buffer,
  attach_buffer, cancel_buffer, connect, disconnect, set_preallocated_buffer,
}
use skyline.BufferQueue.Types.{BufferSlot, Producer, GraphicBuffer, NativeWindowApi, init}
use skyline.BufferQueue.Queueing.{Outside, QueueRequest, queue_buffer}
use skyline.BufferQueue.Slots.{count_queued, pending_buffer_count}
use skyline.BufferQueue.Ledger.{IsValid, AllSlots, init-IsValid}
use skyline.BufferQueue.Invariant.{
  request_buffer-IsValid, set_buffer_count-IsValid, dequeue_buffer-IsValid, detach_buffer-IsValid,
  detach_next_buffer-IsValid, attach_buffer-IsValid, cancel_buffer-IsValid, connect-IsValid,
  disconnect-IsValid, set_preallocated_buffer-IsValid,
}
use skyline.BufferQueue.Presented.{queue_buffer-IsValid}

-- A call with its arguments. Query changes nothing.
pub data Operation : Type 0 where
  request : ℕ → Operation
  set_count : ℕ → Operation
  dequeue : Request → Operation
  detach : ℕ → Operation
  detach_next : Operation
  attach : GraphicBuffer → Operation
  queue : Outside → ℕ → QueueRequest → Operation
  cancel : ℕ → Operation
  connects : NativeWindowApi → Operation
  disconnects : NativeWindowApi → Operation
  set_preallocated : ℕ → Option GraphicBuffer → Operation

-- The state that a call leaves.
unfoldable pub run : Operation → Producer → Result Producer
run (request slot) p = request_buffer slot p >>= λ r. ok r.2
run (set_count n) p = set_buffer_count n p >>= λ r. ok r.1
run (dequeue q) p = dequeue_buffer q p >>= λ r. ok r.2
run (detach slot) p = detach_buffer slot p >>= λ r. ok r.1
run detach_next p = detach_next_buffer p >>= λ r. ok r.2
run (attach g) p = attach_buffer g p >>= λ r. ok r.2
run (queue o slot q) p = queue_buffer o slot q p >>= λ r. ok r.2
run (cancel slot) p = cancel_buffer slot p
run (connects api) p = connect api p >>= λ r. ok r.2
run (disconnects api) p = ok (disconnect api p).1
run (set_preallocated slot g) p = set_preallocated_buffer slot g p >>= λ r. ok r.1

unfoldable pub run_all : List Operation → Producer → Result Producer
unfolding run
run_all [] p = ok p
run_all (o ∷ os) p = run o p >>= run_all os

-- What holds of a result's state.
of_state {ℓ} :
    {A : Type ℓ} (f : A → Producer) (m : Result A)
    → Ensures (λ r. IsValid (f r)) m
    → Ensures IsValid (m >>= λ r. ok (f r))
of_state f (ok a) h = h
of_state f (err e) h = tt

run-IsValid : (o : Operation) (p : Producer) → IsValid p → Ensures IsValid (run o p)
unfolding run
run-IsValid (request slot) p v = of_state (λ r. r.2) _ (request_buffer-IsValid slot p v)
run-IsValid (set_count n) p v = of_state (λ r. r.1) _ (set_buffer_count-IsValid n p v)
run-IsValid (dequeue q) p v = of_state (λ r. r.2) _ (dequeue_buffer-IsValid q p v)
run-IsValid (detach slot) p v = of_state (λ r. r.1) _ (detach_buffer-IsValid slot p v)
run-IsValid detach_next p v = of_state (λ r. r.2) _ (detach_next_buffer-IsValid p v)
run-IsValid (attach g) p v = of_state (λ r. r.2) _ (attach_buffer-IsValid g p v)
run-IsValid (queue o slot q) p v = of_state (λ r. r.2) _ (queue_buffer-IsValid o slot q p v)
run-IsValid (cancel slot) p v = cancel_buffer-IsValid slot p v
run-IsValid (connects api) p v = of_state (λ r. r.2) _ (connect-IsValid api p v)
run-IsValid (disconnects api) p v = disconnect-IsValid api p v
run-IsValid (set_preallocated slot g) p v =
    of_state (λ r. r.1) _ (set_preallocated_buffer-IsValid slot g p v)

run_all-keeps : (os : List Operation) (p : Producer) → IsValid p → Ensures IsValid (run_all os p)
unfolding run_all
run_all-keeps [] p v = v
run_all-keeps (o ∷ os) p v =
    Ensures->>= IsValid IsValid (run o p) (run_all os) (run-IsValid o p v)
      (λ q w. run_all-keeps os q w)

-- Whatever calls a client makes of a new producer, the state they leave has sixteen slots, each free
-- or dequeued, no slot has a texture without a buffer, and each nvmap handle has been duplicated as
-- often as it has been freed or is held by a slot's texture.
pub run_all-IsValid : (os : List Operation) → Ensures IsValid (run_all os init)
run_all-IsValid os = run_all-keeps os init init-IsValid

count_queued-zero :
    (n : ℕ) (q : List BufferSlot) → AllSlots q → n ≤ length q → count_queued n q ≡ ok 0
unfolding count_queued
count_queued-zero zero q a h = refl
count_queued-zero (suc n) [] a h = absurd (omega arith)
count_queued-zero (suc n) (b ∷ q) a h = elim a.0.0 [
  | inl e ↦ rw (count_queued-zero n q a.1 (omega arith), e) refl
  | inr e ↦ rw (count_queued-zero n q a.1 (omega arith), e) refl
]

-- After any calls, the pending buffer count that Connect and QueueBuffer report is 0 as long as at
-- most sixteen slots are active.
pub run_all-pending :
    (os : List Operation) {p : Producer}
    → run_all os init ≡ ok p
    → p.active_slot_count ≤ 16
    → pending_buffer_count p ≡ ok 0
unfolding pending_buffer_count
run_all-pending os {p} e h =
    count_queued-zero p.active_slot_count p.queue v.slots (omega (arith, v.size))
  where
    v : IsValid p
    v = subst (Ensures IsValid) e (run_all-IsValid os)
