-- ===== src/SyncpointManager/Allocation.antt =====
-- Which syncpoint `AllocateSyncpoint` of syncpoint_manager.cpp hands out.
use skyline.Base.{
  ℕ, zero, suc, ◌+◌, ◌≡◌, ◌≢◌, refl, Bool, true, false, some, get_elem?, Result, ok, arith, [], ◌∷◌,
  set, err, exhausted, Bool-cases, inl, inr, get_elem?-set_self, get_elem?-set_ne, get_elem?-lt,
  Error, >>=-eq-ok, Result-cases, sym, ◌∙◌, subst,
}
use skyline.SyncpointManager.{
  SyncpointInfo, Syncpoints, find_free_from, reserve_syncpoint, allocate_syncpoint,
}

-- Every syncpoint below `n` is taken.
abbrev pub TakenBelow : ℕ → Syncpoints → Type 0
TakenBelow zero sps = Unit {0}
TakenBelow (suc n) [] = Unit {0}
TakenBelow (suc n) (i ∷ sps) = (i.reserved ≡ true) × TakenBelow n sps

-- What the search finds from `i` on: the first syncpoint that is free.
record Free (i : ℕ) (sps : Syncpoints) (id : ℕ) : Type 0 where
  offset : ℕ
  info : SyncpointInfo
  is_offset : id ≡ i + offset
  present : get_elem? sps offset ≡ some info
  free : info.reserved ≡ false
  first : TakenBelow offset sps

find_free_from-Free :
    (i : ℕ) (sps : Syncpoints) {id : ℕ} → find_free_from i sps ≡ ok id → Free i sps id
unfolding find_free_from
find_free_from-Free i [] e = cc
find_free_from-Free i (x ∷ sps) {id} e = elim (Bool-cases x.reserved) [
  | inl taken ↦
      let f : Free (i + 1) sps id = find_free_from-Free (i + 1) sps (rw taken at e) in
      record {
        offset = suc f.offset;
        info = f.info;
        is_offset = omega (arith, f.is_offset);
        present = f.present;
        free = f.free;
        first = (taken, f.first);
      }
  | inr free ↦ record {
    offset = 0;
    info = x;
    is_offset = ground (arith, rw free at e);
    present = refl;
    free = free;
    first = tt;
  }
]

-- The array is full behind syncpoint 0.
abbrev pub AllTaken : Syncpoints → Type 0
AllTaken [] = Unit {0}
AllTaken (i ∷ sps) = (i.reserved ≡ true) × AllTaken sps

find_free_from-exhausted :
    (i : ℕ) (sps : Syncpoints) → AllTaken sps → find_free_from i sps ≡ err exhausted
unfolding find_free_from
find_free_from-exhausted i [] h = refl
find_free_from-exhausted i (x ∷ sps) h = rw h.0 (find_free_from-exhausted (i + 1) sps h.1)

find_free_from-total :
    (i : ℕ) (sps : Syncpoints) {e : Error} → find_free_from i sps ≡ err e → AllTaken sps
unfolding find_free_from
find_free_from-total i [] e = tt
find_free_from-total i (x ∷ sps) e = elim (Bool-cases x.reserved) [
  | inl taken ↦ (taken, find_free_from-total (i + 1) sps (rw taken at e))
  | inr free ↦ cc (rw free at e)
]

reserve_syncpoint-free :
    (sps : Syncpoints) (id : ℕ) (managed : Bool) {info : SyncpointInfo}
    → get_elem? sps id ≡ some info
    → info.reserved ≡ false
    → reserve_syncpoint sps id managed
      ≡ ok (id, set sps id (record info { reserved = true; interface_managed = managed }))
unfolding reserve_syncpoint
reserve_syncpoint-free sps id managed e f = rw (e, f)

ok-pair :
    {a b : ℕ} {s t : Syncpoints}
    → ◌≡◌ {A = Result (ℕ × Syncpoints)} (ok (a, s)) (ok (b, t))
    → (a ≡ b) × (s ≡ t)
ok-pair h = ground arith

-- A syncpoint that an allocation has handed out is not 0, was free, is the first free one behind 0,
-- and is reserved afterwards under the manager asked for, with its counters kept; every other
-- syncpoint is as before.
pub allocate_syncpoint_lem :
    (zeroth : SyncpointInfo) (sps : Syncpoints) (managed : Bool) {id : ℕ} {after : Syncpoints}
    → allocate_syncpoint (zeroth ∷ sps) managed ≡ ok (id, after)
    → (offset : ℕ) × (info : SyncpointInfo) × (id ≡ suc offset)
      × (get_elem? sps offset ≡ some info)
      × (info.reserved ≡ false)
      × TakenBelow offset sps
      × (get_elem? after id ≡ some (record info { reserved = true; interface_managed = managed }))
      × ((other : ℕ) → id ≢ other → get_elem? after other ≡ get_elem? (zeroth ∷ sps) other)
unfolding allocate_syncpoint
allocate_syncpoint_lem zeroth sps managed {id} {after} e = (
  f.offset,
  f.info,
  sym out.0 ∙ place,
  f.present,
  f.free,
  f.first,
  rw (← out.1, ← out.0)
      (get_elem?-set_self (zeroth ∷ sps) found.0 _ (get_elem?-lt (zeroth ∷ sps) found.0 here)),
  λ other ne. rw (← out.1) (get_elem?-set_ne (zeroth ∷ sps) _ (λ h. ne (sym out.0 ∙ h))),
)
  where
    found :
        (k : ℕ) × (find_free_from 1 sps ≡ ok k)
        × (reserve_syncpoint (zeroth ∷ sps) k managed ≡ ok (id, after))
    found = >>=-eq-ok (find_free_from 1 sps) (λ k. reserve_syncpoint (zeroth ∷ sps) k managed) e

    f : Free 1 sps found.0
    f = find_free_from-Free 1 sps found.1

    place : found.0 ≡ suc f.offset
    place = omega (arith, f.is_offset)

    here : get_elem? (zeroth ∷ sps) found.0 ≡ some f.info
    here = subst (λ k. get_elem? (zeroth ∷ sps) k ≡ some f.info) (sym place) f.present

    out :
        (found.0 ≡ id)
        × (set
              (zeroth ∷ sps)
              found.0
              (record f.info { reserved = true; interface_managed = managed })
            ≡ after)
    out =
        ok-pair (sym (reserve_syncpoint-free (zeroth ∷ sps) found.0 managed here f.free) ∙ found.2)

err-injective : {a b : Error} → ◌≡◌ {A = Result (ℕ × Syncpoints)} (err a) (err b) → a ≡ b
err-injective h = ground arith

find-reserve :
    (zeroth : SyncpointInfo) (sps : Syncpoints) (managed : Bool) (k : ℕ)
    → Free 1 sps k
    → (after : Syncpoints) × (reserve_syncpoint (zeroth ∷ sps) k managed ≡ ok (k, after))
find-reserve zeroth sps managed k f =
    (_, reserve_syncpoint-free (zeroth ∷ sps) k managed here f.free)
  where
    place : k ≡ suc f.offset
    place = omega (arith, f.is_offset)

    here : get_elem? (zeroth ∷ sps) k ≡ some f.info
    here = subst (λ j. get_elem? (zeroth ∷ sps) j ≡ some f.info) (sym place) f.present

-- An allocation fails exactly where every syncpoint behind 0 is reserved, and then always with the
-- exception for it.
pub allocate_syncpoint-exhausted :
    (zeroth : SyncpointInfo) (sps : Syncpoints) (managed : Bool)
    → ((thrown : Error)
        → allocate_syncpoint (zeroth ∷ sps) managed ≡ err thrown
        → AllTaken sps × (thrown ≡ exhausted))
      × (AllTaken sps → allocate_syncpoint (zeroth ∷ sps) managed ≡ err exhausted)
unfolding allocate_syncpoint
allocate_syncpoint-exhausted zeroth sps managed = (
  λ thrown h. elim (Result-cases (find_free_from 1 sps)) [
    | inl (k, e) ↦ absurd (taken_anyway thrown k e (find_free_from-Free 1 sps e) h)
    | inr (x, e) ↦
        let taken = find_free_from-total 1 sps e in
        let both : ◌≡◌ {A = Result (ℕ × Syncpoints)} (err thrown) (err exhausted) =
          sym h ∙ rw (find_free_from-exhausted 1 sps taken) refl in
        (taken, err-injective both)
  ],
  λ h. rw (find_free_from-exhausted 1 sps h),
)
  where
    taken_anyway :
        (thrown : Error) (k : ℕ)
        → find_free_from 1 sps ≡ ok k
        → Free 1 sps k
        → allocate_syncpoint (zeroth ∷ sps) managed ≡ err thrown
        → ⊥
    taken_anyway thrown k e f h = cc (sym (find-reserve zeroth sps managed k f).1 ∙ (rw e at h))
