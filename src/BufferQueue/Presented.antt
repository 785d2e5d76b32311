-- ===== src/BufferQueue/Presented.antt =====
-- QueueBuffer of GraphicBufferProducer.cpp and the ledger of a queue.
use skyline.Base.{
  ℕ, ◌+◌, ◌≡◌, refl, List, some, get_elem?, ok, arith, inl, inr, Option-cases, Ensures, subst, ap,
  Result-cases, true,
}
use skyline.BufferQueue.Types.{GraphicBuffer, BufferSlot, Producer, nvmap_handle}
use skyline.BufferQueue.Ledger.{IsValid, one, count, held, held_by, Ledger-set}
use skyline.BufferQueue.Queueing.{
  Outside, QueueRequest, queue_buffer, create_texture, ensure_texture, present,
}
use skyline.BufferQueue.Invariant.{Ledger-keep}

-- The slot that was presented holds a texture; a new one comes with a duplicate of the handle.
present-IsValid :
    (r : QueueRequest) (slot : ℕ) (b : BufferSlot) (g : GraphicBuffer) (t : ℕ) (ds : List ℕ)
    (p : Producer)
    → IsValid p
    → get_elem? p.queue slot ≡ some b
    → b.graphic_buffer ≡ some g
    → ((h : ℕ) → count h ds + held h b ≡ count h p.duplicated + one h (nvmap_handle g))
    → IsValid (present r slot b t ds p)
unfolding present
present-IsValid r slot b g t ds p v e f k =
    Ledger-set ds p.freed slot _ v e (inl refl, rw f tt)
      (λ h.
        let z : held_by h (some t) b.graphic_buffer ≡ one h (nvmap_handle g) =
          ap (held_by h (some t)) f in
        omega (arith, k h, z))

ensure_texture-balance :
    (o : Outside) (b : BufferSlot) (g : GraphicBuffer) (ds : List ℕ)
    → b.graphic_buffer ≡ some g
    → Ensures
        (λ r. (h : ℕ) → count h r.1 + held h b ≡ count h ds + one h (nvmap_handle g))
        (ensure_texture o b g ds)
unfolding ensure_texture
ensure_texture-balance o b g ds f = elim (Option-cases b.texture) [
  | inl e ↦ elim (Result-cases (create_texture o g)) [
    | inl (t, c) ↦
        rw (Ensures, e, c)
          (λ h. let z : held_by h b.texture b.graphic_buffer ≡ 0 = rw e refl in omega (arith, z))
    | inr (x, c) ↦ rw (Ensures, e, c) tt
  ]
  | inr (t, e) ↦
      rw (Ensures, e)
        (λ h.
          let z : held_by h b.texture b.graphic_buffer ≡ one h (nvmap_handle g) = rw (e, f) refl in
          omega (arith, z))
]

pub queue_buffer-IsValid :
    (o : Outside) (slot : ℕ) (r : QueueRequest) (p : Producer)
    → IsValid p
    → Ensures (λ r. IsValid r.2) (queue_buffer o slot r p)
unfolding queue_buffer
queue_buffer-IsValid o slot r p v = elim (Option-cases (get_elem? p.queue slot)) [
  | inl e ↦ ground (arith, e)
  | inr (b, e) ↦ elim (Option-cases b.graphic_buffer) [
    | inl f ↦ ground (arith, e, f)
    | inr (g, f) ↦ elim (Result-cases (ensure_texture o b g p.duplicated)) [
      | inl ((t, ds), d) ↦ ground (
        arith,
        e,
        f,
        d,
        present-IsValid r slot b g t ds p v e f (balance o slot b g p f t ds d),
        Ledger-keep p slot (record b { was_buffer_requested = true }) v e (inr (inr refl)) refl
            refl,
      )
      | inr (x, d) ↦ ground (
        arith,
        e,
        f,
        d,
        Ledger-keep p slot (record b { was_buffer_requested = true }) v e (inr (inr refl)) refl
            refl,
      )
    ]
  ]
]
  where
    balance :
        (o : Outside) (slot : ℕ) (b : BufferSlot) (g : GraphicBuffer) (p : Producer)
        → b.graphic_buffer ≡ some g
        → (t : ℕ) (ds : List ℕ) → ensure_texture o b g p.duplicated ≡ ok (t, ds)
        → (h : ℕ) → count h ds + held h b ≡ count h p.duplicated + one h (nvmap_handle g)
    balance o slot b g p f t ds d =
        subst
          (Ensures
            (λ r. (h : ℕ) → count h r.1 + held h b ≡ count h p.duplicated + one h (nvmap_handle g)))
          d (ensure_texture-balance o b g p.duplicated f)
