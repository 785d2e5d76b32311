-- ===== src/BufferQueue/Dequeue.antt =====
-- What DequeueBuffer of GraphicBufferProducer.cpp hands out.
use skyline.Base.{
  ℕ, ◌≡◌, ◌≢◌, refl, Bool, true, false, Option, none, some, Result, ok, arith, Bool-cases,
  Option-cases, inl, inr, ◌||◌, ◌&&◌, not, ◌==◌, ◌⊎◌, subst,
}
use skyline.BufferQueue.{Request, fits, dequeue_buffer, put_slot}
use skyline.BufferQueue.Types.{
  Status, bad_value, no_memory, no_init, would_block, invalid_operation, BufferSlot, Producer,
  GraphicBuffer, is_state, free, dequeued, max_slot_count,
}
use skyline.BufferQueue.Slots.{oldest, count_dequeued}
use skyline.BufferQueue.Oldest.{IsOldest, oldest_lem}

abbrev pub is_free : BufferSlot → Bool
is_free b = is_state free b.state

-- A buffer that was handed out: the oldest free slot, now dequeued, and nothing else has changed.
pub record HandedOut (r : Request) (p : Producer) (slot : ℕ) (q : Producer) : Type 0 where
  pub from : BufferSlot
  pub buffer : GraphicBuffer
  pub is_oldest : IsOldest is_free p.queue p.active_slot_count (some (slot, from))
  pub has_buffer : from.graphic_buffer ≡ some buffer
  pub fits_request : fits p r buffer ≡ true
  pub result : q ≡ put_slot slot (record from { state = dequeued }) p

-- What each outcome of DequeueBuffer says.
abbrev pub Outcome : Request → Producer → Result (Status × Option ℕ × Producer) → Type 0
Outcome r p (ok (Status.ok, some i, q)) = HandedOut r p i q
Outcome r p (ok (no_init, some i, q)) =
    (q ≡ p)
    × (b : BufferSlot) × (g : GraphicBuffer) × IsOldest is_free p.queue p.active_slot_count
        (some (i, b))
    × (b.graphic_buffer ≡ some g)
    × (fits p r g ≡ false)
Outcome r p (ok (no_memory, some i, q)) =
    (q ≡ p)
    × (b : BufferSlot) × IsOldest is_free p.queue p.active_slot_count (some (i, b))
    × (b.graphic_buffer ≡ none)
Outcome r p (ok (would_block, none, q)) =
    (q ≡ p) × (r.is_async ≡ true) × IsOldest is_free p.queue p.active_slot_count none
Outcome r p (ok (invalid_operation, none, q)) =
    (q ≡ p) × (r.is_async ≡ false) × IsOldest is_free p.queue p.active_slot_count none
Outcome r p (ok (bad_value, none, q)) =
    (q ≡ p) × ((r.width ≡ 0) ⊎ (r.height ≡ 0)) × (r.width ≢ r.height)
Outcome r p _ = ⊥

-- `(width && !height) || (!width && height)`
abbrev pub one_is_zero : ℕ → ℕ → Bool
one_is_zero w h = ((w == 0) && not (h == 0)) || (not (w == 0) && (h == 0))

one_is_zero_lem : (w h : ℕ) → one_is_zero w h ≡ true → ((w ≡ 0) ⊎ (h ≡ 0)) × (w ≢ h)
one_is_zero_lem w h e = ground arith

dequeue_buffer-Outcome : (r : Request) (p : Producer) → Outcome r p (dequeue_buffer r p)
unfolding dequeue_buffer
dequeue_buffer-Outcome r p = elim (Bool-cases (one_is_zero r.width r.height)) [
  | inl e ↦ let z = one_is_zero_lem r.width r.height e in rw e (refl, z.0, z.1)
  | inr e ↦ elim (Option-cases search) [
    | inl none_free ↦
        rw (e, none_free)
          (elim (Bool-cases r.is_async) [
            | inl a ↦ rw a (refl, refl, outcome none none_free)
            | inr a ↦
                rw a
                  (elim (Bool-cases
                    (count_dequeued p.active_slot_count p.queue == max_slot_count)) [
                      | inl c ↦ rw c (refl, refl, outcome none none_free)
                      | inr c ↦ rw c (refl, refl, outcome none none_free)
                    ])
          ])
    | inr ((i, b), found) ↦
        rw (e, found)
          (elim (Option-cases b.graphic_buffer) [
            | inl empty ↦ rw empty (refl, b, outcome (some (i, b)) found, empty)
            | inr (g, full) ↦ rw full (elim (Bool-cases (fits p r g)) [
              | inl f ↦ rw f (record {
                from = b;
                buffer = g;
                is_oldest = outcome (some (i, b)) found;
                has_buffer = full;
                fits_request = f;
                result = refl;
              })
              | inr f ↦ rw f (refl, b, g, outcome (some (i, b)) found, full, f)
            ])
          ])
  ]
]
  where
    search : Option (ℕ × BufferSlot)
    search = oldest is_free p.active_slot_count 0 p.queue none

    outcome :
        (o : Option (ℕ × BufferSlot)) → search ≡ o → IsOldest is_free p.queue p.active_slot_count o
    outcome o h =
        subst (IsOldest is_free p.queue p.active_slot_count) h
          (oldest_lem is_free p.queue p.active_slot_count)

dequeue_buffer-refused :
    (r : Request) (p : Producer)
    → one_is_zero r.width r.height ≡ true
    → dequeue_buffer r p ≡ ok (bad_value, none, p)
unfolding dequeue_buffer
dequeue_buffer-refused r p e = rw e refl

half_zero : (w h : ℕ) → (w ≡ 0) ⊎ (h ≡ 0) → w ≢ h → one_is_zero w h ≡ true
half_zero w h (inl z) ne = ground arith
half_zero w h (inr z) ne = ground arith

-- DequeueBuffer refuses every size of which one half is zero, and no other. Else, of the active slots
-- that are free it takes the first with the least frame number; if the slot's buffer fits the request it
-- alone becomes dequeued, and on each other outcome nothing changes: the slot has no buffer, its buffer
-- does not fit, or no active slot is free.
pub dequeue_buffer_lem :
    (r : Request) (p : Producer)
    → Outcome r p (dequeue_buffer r p)
      × ((r.width ≡ 0) ⊎ (r.height ≡ 0)
          → r.width ≢ r.height
          → dequeue_buffer r p ≡ ok (bad_value, none, p))
dequeue_buffer_lem r p = (
  dequeue_buffer-Outcome r p,
  λ z ne. dequeue_buffer-refused r p (half_zero r.width r.height z ne),
)
