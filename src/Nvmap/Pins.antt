-- ===== src/Nvmap/Pins.antt =====
-- Pins of nvmap handles: PinHandle and UnpinHandle of services/nvdrv/core/nvmap.cpp.
use skyline.Base.{
  ℕ, zero, suc, ◌%◌, ◌^◌, ◌≡◌, refl, ap, true, false, List, [], ◌∷◌, ◌++◌, Option, none, some, ◌==◌,
  ok, Result, arith, Bool-cases, inl, inr, some-injective, sym, ◌∙◌, ==-true,
}
use skyline.Nvmap.{
  Handle, Smmu, member, erase, find, update, get_handle, make_space, pin_handle, unpin_handle,
  increment, decrement,
}
use skyline.Nvmap

find-id : (i : ℕ) (hs : List Handle) {h : Handle} → find i hs ≡ some h → h.id ≡ i
unfolding find
find-id i [] e = cc
find-id i (g ∷ hs) {h} e = elim (Bool-cases (i == g.id)) [
  | inl d ↦ ap (λ z. z.id) (sym (some-injective (rw d at e))) ∙ ground (arith, d)
  | inr d ↦ find-id i hs (rw d at e)
]

find-update :
    (hs : List Handle) {h : Handle} (g : Handle)
    → find g.id hs ≡ some h
    → find g.id (update g hs) ≡ some g
unfolding find update
find-update [] g e = cc
find-update (x ∷ hs) g e = elim (Bool-cases (g.id == x.id)) [
  | inl c ↦ rw c (rw (==-true g.id g.id refl) refl)
  | inr c ↦ rw c (rw c (find-update hs g (rw c at e)))
]

-- Put and put back.
update-update :
    (hs : List Handle) {h : Handle} (g : Handle)
    → find g.id hs ≡ some h
    → h.id ≡ g.id
    → update h (update g hs) ≡ hs
unfolding find update
update-update [] g e k = cc
update-update (x ∷ hs) {h} g e k = elim (Bool-cases (g.id == x.id)) [
  | inl c ↦ rw c (rw (==-true h.id g.id k) (ap (λ z. z ∷ hs) (sym (some-injective (rw c at e)))))
  | inr c ↦
      let d : (h.id == x.id) ≡ false = ap (λ z. z == x.id) k ∙ c in
      rw c (rw d (ap (λ z. x ∷ z) (update-update hs g (rw c at e) k)))
]

erase-append : (i : ℕ) (js : List ℕ) → member i js ≡ false → erase i (js ++ i ∷ []) ≡ js
unfolding erase member
erase-append i [] m = rw (==-true i i refl) refl
erase-append i (j ∷ js) m = elim (Bool-cases (i == j)) [
  | inl c ↦ cc (rw c at m)
  | inr c ↦ rw c (ap (λ z. j ∷ z) (erase-append i js (rw c at m)))
]

module _ (s : Smmu) where
  -- Where the SMMU has no space left for a handle that is not mapped, while another one waits to be
  -- unmapped, `PinHandle` never returns: no fuel is enough, since the loop tests the address of the
  -- handle to pin, which is 0, and not that of the handle to free.
  pub pin_handle-stuck :
      (n : Nvmap.NvMap s) (i j : ℕ) (q : List ℕ) {h : Handle}
      → get_handle s i n ≡ some h
      → h.pins ≡ 0
      → h.queued ≡ false
      → h.pin_virt_address ≡ 0
      → n.unmap_queue ≡ j ∷ q
      → s.allocate n.smmu (h.aligned_size % 2 ^ 32) ≡ (0, n.smmu)
      → (fuel : ℕ) → pin_handle s fuel i n ≡ none
  unfolding pin_handle make_space
  pin_handle-stuck n i j q {h} e p k v w full fuel =
      rw (pin_handle, e, none_pinned) (simp k (rw (stuck fuel n w refl) refl))
    where
      none_pinned : (h.pins == 0) ≡ true
      none_pinned = ==-true h.pins 0 p

      failed : (s.allocate n.smmu (h.aligned_size % 2 ^ 32)).0 ≡ 0
      failed = ap (λ z. z.0) full

      same : (s.allocate n.smmu (h.aligned_size % 2 ^ 32)).1 ≡ n.smmu
      same = ap (λ z. z.1) full

      unmapped : (h.pin_virt_address == 0) ≡ true
      unmapped = ==-true h.pin_virt_address 0 v

      stuck :
          (fuel : ℕ) (m : Nvmap.NvMap s)
          → m.unmap_queue ≡ j ∷ q
          → m.smmu ≡ n.smmu
          → make_space s fuel h m ≡ none
      stuck zero m a b = refl
      stuck (suc fuel) m a b =
          simp (b, failed, same, a, unmapped)
            (stuck fuel (record m { smmu = n.smmu; unmap_queue = j ∷ q }) refl refl)

  -- The handle while it waits in the queue.
  abbrev waiting : Handle → Handle
  waiting h = record h { pins = 0; queued = true }

  pub get_handle-find :
      (n : Nvmap.NvMap s) (i : ℕ) {h : Handle}
      → get_handle s i n ≡ some h
      → (member i n.handles ≡ true) × (find i n.objects ≡ some h)
  unfolding get_handle
  get_handle-find n i e = elim (Bool-cases (member i n.handles)) [
    | inl m ↦ (m, rw m at e)
    | inr m ↦ cc (rw m at e)
  ]

  unpinned :
      (n : Nvmap.NvMap s) (h : Handle)
      → get_handle s h.id n ≡ some h
      → h.pins ≡ 1
      → unpin_handle s h.id n
        ≡ Nvmap.put s (waiting h) (record n { unmap_queue = n.unmap_queue ++ h.id ∷ [] })
  unfolding unpin_handle
  unpinned n h e p = rw (unpin_handle, e, last) refl
    where
      last : decrement h.pins ≡ 0
      last = rw p refl

  get_handle-waiting :
      (n : Nvmap.NvMap s) (h : Handle)
      → get_handle s h.id n ≡ some h
      → find h.id n.objects ≡ some h
      → get_handle s h.id
          (Nvmap.put s (waiting h) (record n { unmap_queue = n.unmap_queue ++ h.id ∷ [] }))
        ≡ some (waiting h)
  unfolding get_handle
  get_handle-waiting n h e f = rw (get_handle-find n h.id e).0 (find-update n.objects (waiting h) f)

  -- A handle with one pin that waits in no queue is as before, and so is everything else, once it has
  -- been unpinned and pinned again, and the address is the one that it had.
  pub pin_handle-unpin_handle :
      (n : Nvmap.NvMap s) (h : Handle) (fuel : ℕ)
      → get_handle s h.id n ≡ some h
      → h.pins ≡ 1
      → h.queued ≡ false
      → member h.id n.unmap_queue ≡ false
      → pin_handle s fuel h.id (unpin_handle s h.id n) ≡ some (ok (h.pin_virt_address, n))
  unfolding pin_handle
  pin_handle-unpin_handle n h fuel e p k m =
      rw (unpinned n h e p)
        (rw (pin_handle, found) (rw (erase-append h.id n.unmap_queue m) (rw same restored)))
    where
      f : find h.id n.objects ≡ some h
      f = (get_handle-find n h.id e).1

      found :
          get_handle s h.id
            (Nvmap.put s (waiting h) (record n { unmap_queue = n.unmap_queue ++ h.id ∷ [] }))
          ≡ some (waiting h)
      found = get_handle-waiting n h e f

      same : record h { pins = 1; queued = false } ≡ h
      same = rw (p, k) refl

      restored :
          ◌≡◌ {A = Option (Result (ℕ × Nvmap.NvMap s))}
            (some (
              ok (
                h.pin_virt_address,
                record n { objects = update h (update (waiting h) n.objects) },
              )))
            (some (ok (h.pin_virt_address, n)))
      restored =
          ap (λ z. some (ok (h.pin_virt_address, record n { objects = z })))
            (update-update n.objects (waiting h) f refl)
