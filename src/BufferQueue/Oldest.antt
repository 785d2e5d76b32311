-- ===== src/BufferQueue/Oldest.antt =====
-- The search for a slot, which DequeueBuffer, DetachNextBuffer and AttachBuffer of
-- GraphicBufferProducer.cpp share.
use skyline.Base.{
  ℕ, zero, suc, ◌+◌, ◌-◌, ◌≤◌, ◌<◌, ◌≡◌, refl, sym, ap, subst, ◌∙◌, Bool, true, false, List, [],
  ◌∷◌, Option, none, some, ltb, if◌then◌else◌, get_elem?, arith, Bool-cases, some-injective, inl,
  inr, ◌⊎◌, ltb→lt,
}
use skyline.BufferQueue.Types.{BufferSlot}
use skyline.BufferQueue.Slots.{oldest, better}

-- Among the first `m` slots, the outcome is the first of those with the least frame number that
-- pass the test, and none only if none passes.
abbrev pub IsOldest : (BufferSlot → Bool) → List BufferSlot → ℕ → Option (ℕ × BufferSlot) → Type 0
IsOldest test q m none = (j : ℕ) (c : BufferSlot) → j < m → get_elem? q j ≡ some c → test c ≡ false
IsOldest test q m (some (i, b)) =
    (get_elem? q i ≡ some b)
    × (i < m)
    × (test b ≡ true)
    × ((j : ℕ) (c : BufferSlot)
        → j < m
        → get_elem? q j ≡ some c
        → test c ≡ true
        → (b.frame_number ≤ c.frame_number) × (j < i → b.frame_number < c.frame_number))

below-suc : (j m : ℕ) → j < m + 1 → (j < m) ⊎ (j ≡ m)
below-suc j m h = ground arith

same_slot :
    (q : List BufferSlot) {i j : ℕ} {b c : BufferSlot}
    → get_elem? q i ≡ some b
    → get_elem? q j ≡ some c
    → j ≡ i
    → c ≡ b
same_slot q e d h = some-injective (sym d ∙ ap (get_elem? q) h ∙ e)

IsOldest-skip :
    (test : BufferSlot → Bool) (q : List BufferSlot) (m : ℕ) (x : BufferSlot)
    (best : Option (ℕ × BufferSlot))
    → get_elem? q m ≡ some x
    → test x ≡ false
    → IsOldest test q m best
    → IsOldest test q (m + 1) best
IsOldest-skip test q m x none e t h = λ j c l d. elim (below-suc j m l) [
  | inl k ↦ h j c k d
  | inr k ↦ subst (λ z. test z ≡ false) (sym (same_slot q e d k)) t
]
IsOldest-skip test q m x (some (i, b)) e t h = (
  h.0,
  omega (arith, h.1),
  h.2,
  λ j c l d p. elim (below-suc j m l) [
    | inl k ↦ h.3 j c k d p
    | inr k ↦ cc (t, p, same_slot q e d k)
  ],
)

IsOldest-better :
    (test : BufferSlot → Bool) (q : List BufferSlot) (m : ℕ) (x : BufferSlot)
    (best : Option (ℕ × BufferSlot))
    → get_elem? q m ≡ some x
    → test x ≡ true
    → IsOldest test q m best
    → IsOldest test q (m + 1) (better best m x)
IsOldest-better test q m x none e t h = (
  e,
  omega arith,
  t,
  λ j c l d p. elim (below-suc j m l) [
    | inl k ↦ cc (h j c k d, p)
    | inr k ↦ (rw (same_slot q e d k) (omega arith), λ z. absurd (omega arith))
  ],
)
IsOldest-better test q m x (some (i, b)) e t h =
    elim (Bool-cases (ltb x.frame_number b.frame_number)) [
      | inl less ↦ rw less (
        e,
        omega arith,
        t,
        λ j c l d p. elim (below-suc j m l) [
          | inl k ↦
              let r = (h.3 j c k d p).0 in
              (omega (arith, r, ltb→lt _ _ less), λ z. omega (arith, r, ltb→lt _ _ less))
          | inr k ↦ (rw (same_slot q e d k) (omega arith), λ z. absurd (omega arith))
        ],
      )
      | inr more ↦ rw more (
        h.0,
        omega (arith, h.1),
        h.2,
        λ j c l d p. elim (below-suc j m l) [
          | inl k ↦ h.3 j c k d p
          | inr k ↦ (rw (same_slot q e d k) (ground arith), λ z. absurd (omega (arith, h.1)))
        ],
      )
    ]

below-add : (j m : ℕ) → (j < m) ⊎ ((k : ℕ) × (j ≡ m + k))
below-add j m = elim (Bool-cases (ltb j m)) [
  | inl h ↦ inl (ltb→lt j m h)
  | inr h ↦ inr (j - m, ground arith)
]

-- Past the end of the queue there is nothing to find.
IsOldest-past :
    (test : BufferSlot → Bool) (q : List BufferSlot) (m n : ℕ) (best : Option (ℕ × BufferSlot))
    → ((k : ℕ) → get_elem? q (m + k) ≡ none)
    → IsOldest test q m best
    → IsOldest test q (m + n) best
IsOldest-past test q m n none past h =
    λ j c l d. elim (below-add j m) [ inl k ↦ h j c k d | inr (k, e) ↦ absurd (outside j c k d e) ]
  where
    outside : (j : ℕ) (c : BufferSlot) (k : ℕ) → get_elem? q j ≡ some c → j ≡ m + k → ⊥
    outside j c k d e = cc (past k, d, ap (get_elem? q) e)
IsOldest-past test q m n (some (i, b)) past h = (
  h.0,
  omega (arith, h.1),
  h.2,
  λ j c l d p. elim (below-add j m) [
    | inl k ↦ h.3 j c k d p
    | inr (k, e) ↦ absurd (outside j c k d e)
  ],
)
  where
    outside : (j : ℕ) (c : BufferSlot) (k : ℕ) → get_elem? q j ≡ some c → j ≡ m + k → ⊥
    outside j c k d e = cc (past k, d, ap (get_elem? q) e)

oldest-IsOldest_from :
    (test : BufferSlot → Bool) (q : List BufferSlot) (n i : ℕ) (bs : List BufferSlot)
    (best : Option (ℕ × BufferSlot))
    → ((k : ℕ) → get_elem? q (i + k) ≡ get_elem? bs k)
    → IsOldest test q i best
    → IsOldest test q (i + n) (oldest test n i bs best)
unfolding oldest
oldest-IsOldest_from test q zero i bs best at h =
    subst (λ m. IsOldest test q m best) {y = i + zero} (omega arith) h
oldest-IsOldest_from test q (suc n) i [] best at h = IsOldest-past test q i (suc n) best at h
oldest-IsOldest_from test q (suc n) i (b ∷ bs) best at h =
    subst (λ m. IsOldest test q m (oldest test n (i + 1) bs after)) {x = i + 1 + n} {y = i + suc n}
      (omega arith) (oldest-IsOldest_from test q n (i + 1) bs after (λ k. rest k) next)
  where
    rest : (k : ℕ) → get_elem? q (i + 1 + k) ≡ get_elem? bs k
    rest k = subst (λ m. get_elem? q m ≡ get_elem? bs k) {y = i + 1 + k} (omega arith) (at (suc k))

    here : get_elem? q i ≡ some b
    here = subst (λ m. get_elem? q m ≡ some b) {y = i} (omega arith) (at 0)

    after : Option (ℕ × BufferSlot)
    after = if test b then better best i b else best

    next : IsOldest test q (i + 1) (if test b then better best i b else best)
    next = elim (Bool-cases (test b)) [
      | inl t ↦ rw t (IsOldest-better test q i b best here t h)
      | inr t ↦ rw t (IsOldest-skip test q i b best here t h)
    ]

-- The search over the first `n` slots finds, of those that pass the test, the first one with the
-- least frame number, and nothing only if none passes.
pub oldest_lem :
    (test : BufferSlot → Bool) (q : List BufferSlot) (n : ℕ)
    → IsOldest test q n (oldest test n 0 q none)
oldest_lem test q n =
    subst (λ m. IsOldest test q m (oldest test n 0 q none)) {x = 0 + n} (omega arith)
      (oldest-IsOldest_from test q n 0 q none
        (λ k. subst (λ m. get_elem? q m ≡ get_elem? q k) {x = k} (omega arith) refl)
        (λ j c l d. absurd (omega arith)))
