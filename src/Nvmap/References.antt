-- ===== src/Nvmap/References.antt =====
-- References to nvmap handles: FreeHandle of services/nvdrv/core/nvmap.cpp.
use skyline.Base.{
  ℕ, ◌≡◌, ◌≢◌, refl, Bool, true, false, not, ◌&&◌, List, [], ◌∷◌, some, ◌==◌, arith, Bool-cases,
  inl, inr, if◌then◌else◌, none, ap, ◌∙◌,
}
use skyline.Nvmap.{
  Handle, Smmu, member, erase, find, update, get_handle, drop_reference, try_remove_handle,
  unmap_handle, free_handle, decrement,
}
use skyline.Nvmap.Pins.{get_handle-find}
use skyline.Nvmap

member-erase_ne : (i j : ℕ) (js : List ℕ) → i ≢ j → member j (erase i js) ≡ member j js
unfolding member erase
member-erase_ne i j [] h = refl
member-erase_ne i j (k ∷ js) h = elim (Bool-cases (i == k)) [
  | inl c ↦ ground (arith, c)
  | inr c ↦ rw c (rw (member-erase_ne i j js h) refl)
]

-- No reference is left once one has gone.
pub is_last : Bool → Handle → Bool
is_last internal_session h =
    if internal_session
    then (h.dupes == 0) && (decrement h.internal_dupes == 0)
    else (decrement h.dupes == 0) && (h.internal_dupes == 0)

find-update_ne :
    (j : ℕ) (g : Handle) (hs : List Handle) → g.id ≢ j → find j (update g hs) ≡ find j hs
unfolding find update
find-update_ne j g [] ne = refl
find-update_ne j g (x ∷ hs) ne = elim (Bool-cases (g.id == x.id)) [
  | inl c ↦
      let other : (j == g.id) ≡ false = ground arith in
      let other' : (j == x.id) ≡ false = ground arith in rw c (rw other (rw other' refl))
  | inr c ↦ rw c (rw (find-update_ne j g hs ne) refl)
]

module _ (s : Smmu) where
  -- The other objects under the loss of a reference.
  dropped :
      (internal_session : Bool) (h : Handle) (n : Nvmap.NvMap s) (j : ℕ)
      → h.id ≢ j
      → find j (drop_reference s internal_session h n).1.objects ≡ find j n.objects
  unfolding drop_reference unmap_handle
  dropped true h n j ne =
      find-update_ne j (record h { internal_dupes = decrement h.internal_dupes }) n.objects ne
  dropped false h n j ne = elim (Bool-cases (decrement h.dupes == 0)) [
    | inl c ↦ elim (Bool-cases (h.pin_virt_address == 0)) [
      | inl d ↦ rw c (rw d (find-update_ne j _ n.objects ne))
      | inr d ↦ rw c (rw d (find-update_ne j _ _ ne ∙ find-update_ne j _ n.objects ne))
    ]
    | inr c ↦ rw c (find-update_ne j _ n.objects ne)
  ]

  kept_objects : (h : Handle) (n : Nvmap.NvMap s) → (try_remove_handle s h n).1.objects ≡ n.objects
  unfolding try_remove_handle
  kept_objects h n = ground arith

  removed :
      (internal_session : Bool) (h : Handle) (n : Nvmap.NvMap s)
      → (try_remove_handle s
          (drop_reference s internal_session h n).0
          (drop_reference s internal_session h n).1).1.handles
        ≡ (if is_last internal_session h then erase h.id n.handles else n.handles)
  unfolding drop_reference try_remove_handle is_last unmap_handle
  removed true h n = ground arith
  removed false h n = elim (Bool-cases (decrement h.dupes == 0)) [
    | inl c ↦ elim (Bool-cases (h.pin_virt_address == 0)) [
      | inl d ↦ simp (c, d) (ground arith)
      | inr d ↦ simp (c, d) (ground arith)
    ]
    | inr c ↦ simp c refl
  ]

  -- `FreeHandle` of a registered handle takes it off the map exactly where neither the guest nor the
  -- emulator has a reference left, and leaves every other handle in the map or out of it, with all its
  -- fields, as it was.
  pub free_handle_lem :
      (n : Nvmap.NvMap s) (h : Handle) (internal_session : Bool)
      → get_handle s h.id n ≡ some h
      → member h.id (erase h.id n.handles) ≡ false
      → (member h.id (free_handle s h.id internal_session n).1.handles
          ≡ not (is_last internal_session h))
        × ((j : ℕ)
            → h.id ≢ j
            → (member j (free_handle s h.id internal_session n).1.handles ≡ member j n.handles)
              × (get_handle s j (free_handle s h.id internal_session n).1 ≡ get_handle s j n))
  unfolding free_handle get_handle
  free_handle_lem n h b e once = (
    rw after (elim (Bool-cases (is_last b h)) [
      | inl c ↦ rw c once
      | inr c ↦ rw c (get_handle-find s n h.id e).0
    ]),
    λ j d. (same j d, found j d),
  )
    where
      after :
          (free_handle s h.id b n).1.handles
          ≡ (if is_last b h then erase h.id n.handles else n.handles)
      after = rw (free_handle, e) (removed b h n)

      same : (j : ℕ) → h.id ≢ j → member j (free_handle s h.id b n).1.handles ≡ member j n.handles
      same j d = rw after (elim (Bool-cases (is_last b h)) [
        | inl c ↦ rw c (member-erase_ne h.id j n.handles d)
        | inr c ↦ rw c refl
      ])

      objects : (j : ℕ) → h.id ≢ j → find j (free_handle s h.id b n).1.objects ≡ find j n.objects
      objects j d =
          rw (free_handle, e)
            (ap (find j) (kept_objects (drop_reference s b h n).0 (drop_reference s b h n).1)
              ∙ dropped b h n j d)

      found : (j : ℕ) → h.id ≢ j → get_handle s j (free_handle s h.id b n).1 ≡ get_handle s j n
      found j d = λ i. if same j d i then objects j d i else none
