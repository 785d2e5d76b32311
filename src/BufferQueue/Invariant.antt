-- ===== src/BufferQueue/Invariant.antt =====
-- The members of GraphicBufferProducer.cpp and the ledger of a queue, one lemma per member.
use skyline.Base.{
  ℕ, ◌≡◌, refl, Option, none, some, get_elem?, arith, ◌⊎◌, inl, inr, Option-cases, Bool-cases,
  Ensures, ◌&&◌, subst, Bool, length, true, false, set,
}
use skyline.BufferQueue.{
  request_buffer, set_buffer_count, dequeue_buffer, detach_buffer, detach_next_buffer,
  attach_buffer, cancel_buffer, connect, disconnect, set_preallocated_buffer, set_defaults,
  preallocated, Request,
}
use skyline.BufferQueue.Types.{
  free, dequeued, GraphicBuffer, BufferSlot, Producer, is_state, has_buffer, NativeWindowApi,
}
use skyline.BufferQueue.Slots.{oldest, clear, clear_all, freed_by, in_range}
use skyline.BufferQueue.Oldest.{IsOldest, oldest_lem}
use skyline.BufferQueue.Dequeue.{is_free}
use skyline.BufferQueue.Ledger.{
  Ledger, IsValid, IsSlot, AllSlots-get, Ledger-set, Ledger-clear_all, count-handle_held,
}

-- A slot changes its state only: it is free or dequeued after, with the texture and buffer of before.
pub Ledger-keep :
    (p : Producer) (i : ℕ) {b : BufferSlot} (c : BufferSlot)
    → IsValid p
    → get_elem? p.queue i ≡ some b
    → (c.state ≡ free) ⊎ ((c.state ≡ dequeued) ⊎ (c.state ≡ b.state))
    → c.texture ≡ b.texture
    → c.graphic_buffer ≡ b.graphic_buffer
    → IsValid (record p { queue = set p.queue i c })
Ledger-keep p i {b} c v e s t g =
    Ledger-set p.duplicated p.freed i c v e (state s, rw (t, g) known.1) (λ h. rw (t, g) refl)
  where
    known : IsSlot b
    known = AllSlots-get p.queue i v.slots e

    state :
        (c.state ≡ free) ⊎ ((c.state ≡ dequeued) ⊎ (c.state ≡ b.state))
        → (c.state ≡ free) ⊎ (c.state ≡ dequeued)
    state (inl k) = inl k
    state (inr (inl k)) = inr k
    state (inr (inr k)) = rw k known.0

-- A slot gives up its texture, and the handle with it.
Ledger-release :
    (p : Producer) (i : ℕ) {b : BufferSlot} (c : BufferSlot)
    → IsValid p
    → get_elem? p.queue i ≡ some b
    → (c.state ≡ free) ⊎ (c.state ≡ dequeued)
    → c.texture ≡ none
    → Ledger (set p.queue i c) p.duplicated (freed_by b p.freed)
Ledger-release p i {b} c v e s t =
    Ledger-set p.duplicated (freed_by b p.freed) i c v e (s, rw t tt)
      (λ h. rw t (omega (arith, count-handle_held h b.texture b.graphic_buffer p.freed)))

-- The search of a free slot among the first `n`.
abbrev free_slot : ℕ → Producer → Option (ℕ × BufferSlot)
free_slot n p = oldest is_free n 0 p.queue none

free_slot-at :
    (n : ℕ) (p : Producer) {i : ℕ} {b : BufferSlot}
    → free_slot n p ≡ some (i, b)
    → get_elem? p.queue i ≡ some b
free_slot-at n p e = (subst (IsOldest is_free p.queue n) e (oldest_lem is_free p.queue n)).0

pub request_buffer-IsValid :
    (slot : ℕ) (p : Producer) → IsValid p → Ensures (λ r. IsValid r.2) (request_buffer slot p)
unfolding request_buffer
request_buffer-IsValid slot p v = elim (Bool-cases (in_range slot)) [
  | inl r ↦ elim (Option-cases (get_elem? p.queue slot)) [
    | inl e ↦ rw (Ensures, r, e) tt
    | inr (b, e) ↦ rw (Ensures, r, e) (Ledger-keep p slot _ v e (inr (inr refl)) refl refl)
  ]
  | inr r ↦ rw (Ensures, r) v
]

pub connect-IsValid :
    (api : NativeWindowApi) (p : Producer) → IsValid p → Ensures (λ r. IsValid r.2) (connect api p)
unfolding connect
connect-IsValid api p v = ground arith

pub set_buffer_count-IsValid :
    (n : ℕ) (p : Producer) → IsValid p → Ensures (λ r. IsValid r.1) (set_buffer_count n p)
unfolding set_buffer_count clear_all
set_buffer_count-IsValid n p v = ground (arith, Ledger-clear_all v)

pub dequeue_buffer-IsValid :
    (r : Request) (p : Producer) → IsValid p → Ensures (λ r. IsValid r.2) (dequeue_buffer r p)
unfolding dequeue_buffer
dequeue_buffer-IsValid r p v = elim (Option-cases (free_slot p.active_slot_count p)) [
  | inl e ↦ ground (arith, e)
  | inr ((i, b), e) ↦ ground (
    arith,
    Ledger-keep p i (record b { state = dequeued }) v (free_slot-at _ p e) (inr (inl refl)) refl
        refl,
  )
]

pub detach_buffer-IsValid :
    (slot : ℕ) (p : Producer) → IsValid p → Ensures (λ r. IsValid r.1) (detach_buffer slot p)
unfolding detach_buffer clear
detach_buffer-IsValid slot p v = elim (Option-cases (get_elem? p.queue slot)) [
  | inl e ↦ ground (arith, e)
  | inr (b, e) ↦ ground (arith, Ledger-release p slot (clear b) v e (inl refl) refl)
]

pub detach_next_buffer-IsValid :
    (p : Producer) → IsValid p → Ensures (λ r. IsValid r.2) (detach_next_buffer p)
unfolding detach_next_buffer clear
detach_next_buffer-IsValid p v = elim (Option-cases search) [
  | inl e ↦ rw (Ensures, e) v
  | inr ((i, b), e) ↦ rw (Ensures, e) (Ledger-release p i (clear b) v (at e) (inl refl) refl)
]
  where
    test : BufferSlot → Bool
    test b = is_state free b.state && has_buffer b

    search : Option (ℕ × BufferSlot)
    search = oldest test (length p.queue) 0 p.queue none

    at : {i : ℕ} {b : BufferSlot} → search ≡ some (i, b) → get_elem? p.queue i ≡ some b
    at e =
        (subst (IsOldest test p.queue (length p.queue)) e
          (oldest_lem test p.queue (length p.queue))).0

-- The slot after a buffer is attached.
abbrev attached : GraphicBuffer → BufferSlot → BufferSlot
attached g b = record b {
  state = dequeued;
  was_buffer_requested = true;
  is_preallocated = false;
  texture = none;
  graphic_buffer = some g;
}

pub attach_buffer-IsValid :
    (g : GraphicBuffer) (p : Producer) → IsValid p → Ensures (λ r. IsValid r.2) (attach_buffer g p)
unfolding attach_buffer
attach_buffer-IsValid g p v = elim (Option-cases (free_slot (length p.queue) p)) [
  | inl e ↦ ground (arith, e)
  | inr ((i, b), e) ↦
      ground (arith, Ledger-release p i (attached g b) v (free_slot-at _ p e) (inr refl) refl)
]

pub cancel_buffer-IsValid :
    (slot : ℕ) (p : Producer) → IsValid p → Ensures IsValid (cancel_buffer slot p)
unfolding cancel_buffer
cancel_buffer-IsValid slot p v = elim (Option-cases (get_elem? p.queue slot)) [
  | inl e ↦ ground (arith, e)
  | inr (b, e) ↦ ground (
    arith,
    Ledger-keep p slot (record b { state = free; frame_number = 0 }) v e (inl refl) refl refl,
  )
]

pub disconnect-IsValid :
    (api : NativeWindowApi) (p : Producer) → IsValid p → IsValid (disconnect api p).1
unfolding disconnect clear_all
disconnect-IsValid api p v = ground (arith, Ledger-clear_all v)

pub set_defaults-IsValid :
    (g : Option GraphicBuffer) (p : Producer) → IsValid p → Ensures IsValid (set_defaults g p)
set_defaults-IsValid none p v = v
set_defaults-IsValid (some g) p v = ground arith

pub set_preallocated_buffer-IsValid :
    (slot : ℕ) (g : Option GraphicBuffer) (p : Producer)
    → IsValid p
    → Ensures (λ r. IsValid r.1) (set_preallocated_buffer slot g p)
unfolding set_preallocated_buffer
set_preallocated_buffer-IsValid slot none p v = elim (Option-cases (get_elem? p.queue slot)) [
  | inl e ↦ ground (arith, e)
  | inr (b, e) ↦ ground (arith, Ledger-release p slot (preallocated none b) v e (inl refl) refl)
]
set_preallocated_buffer-IsValid slot (some g) p v = elim (Option-cases (get_elem? p.queue slot)) [
  | inl e ↦ ground (arith, e)
  | inr (b, e) ↦ ground (arith, Ledger-release p slot (preallocated (some g) b) v e (inl refl) refl)
]
