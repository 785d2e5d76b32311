-- ===== src/SyncpointManager/Expiry.antt =====
-- When a threshold has passed for syncpoint_manager.cpp, on counters that wrap at 2^32.
use skyline.Base.{
  ℕ, ◌+◌, ◌%◌, ◌^◌, ◌≤◌, ◌<◌, ◌≡◌, ◌↔◌, refl, true, false, some, get_elem?, ok, arith, leb, ap,
  leb-false, ◌>>=◌, get_elem?-set_self, get_elem?-lt, set,
}
use skyline.SyncpointManager.{
  SyncpointInfo, Syncpoints, sub32, has_syncpoint_expired, increment_syncpoint_max_ext,
  get_syncpoint_fence, is_fence_signalled,
}

-- A threshold is outstanding if it lies above the minimum by no more than the maximum does, on the
-- circle of 32-bit numbers.
abbrev pub Outstanding : SyncpointInfo → ℕ → Type 0
Outstanding i threshold =
    (0 < sub32 threshold i.counter_min)
    × (sub32 threshold i.counter_min ≤ sub32 i.counter_max i.counter_min)

circle :
    (a b t : ℕ)
    → a < 2 ^ 32
    → b < 2 ^ 32
    → t < 2 ^ 32
    → (sub32 b t < sub32 a t) ↔ ((0 < sub32 t a) × (sub32 t a ≤ sub32 b a))
circle a b t ha hb ht = (λ h. omega arith, λ h. omega arith)

leb-ok-false : (a b : ℕ) → ok (leb a b) ≡ ok false → b < a
leb-ok-false a b h = ground arith

-- For a reserved syncpoint that no interface manages, `HasSyncpointExpired` says that a threshold
-- has not passed exactly where it is outstanding, also where the counters have wrapped round.
pub has_syncpoint_expired_lem :
    (sps : Syncpoints) (id threshold : ℕ) {i : SyncpointInfo}
    → get_elem? sps id ≡ some i
    → i.reserved ≡ true
    → i.interface_managed ≡ false
    → i.counter_min < 2 ^ 32
    → i.counter_max < 2 ^ 32
    → threshold < 2 ^ 32
    → (has_syncpoint_expired sps id threshold ≡ ok false) ↔ Outstanding i threshold
unfolding has_syncpoint_expired
has_syncpoint_expired_lem sps id threshold {i} e r m hmin hmax ht =
    rw (e, r, m)
      (
        (λ h.
            (circle i.counter_min i.counter_max threshold hmin hmax ht).0
              (leb-ok-false (sub32 i.counter_min threshold) (sub32 i.counter_max threshold) h)),
        (λ o. ap ok (
            leb-false (sub32 i.counter_min threshold) (sub32 i.counter_max threshold)
              ((circle i.counter_min i.counter_max threshold hmin hmax ht).1 o))),
      )

-- A fence taken from a syncpoint that no interface manages is not signalled once work was queued
-- before it: after `IncrementSyncpointMaxExt` by an amount below 2^32 that is not 0, on counters
-- whose distance stays below 2^32.
pub fence_after_increment :
    (sps : Syncpoints) (id amount : ℕ) {i : SyncpointInfo}
    → get_elem? sps id ≡ some i
    → i.reserved ≡ true
    → i.interface_managed ≡ false
    → i.counter_min < 2 ^ 32
    → i.counter_max < 2 ^ 32
    → 0 < amount
    → sub32 i.counter_max i.counter_min + amount < 2 ^ 32
    → (increment_syncpoint_max_ext sps id amount >>= λ r.
        get_syncpoint_fence (r.1) id >>= λ f. is_fence_signalled (r.1) f)
      ≡ ok false
unfolding increment_syncpoint_max_ext get_syncpoint_fence is_fence_signalled
fence_after_increment sps id amount {i} e r m hmin hmax pos far =
    rw (e, r, get_elem?-set_self sps id _ (get_elem?-lt sps id e))
      ((has_syncpoint_expired_lem (set sps id after) id after.counter_max
          (get_elem?-set_self sps id after (get_elem?-lt sps id e)) refl m hmin (omega arith)
          (omega arith)).1
        (omega arith))
  where
    after : SyncpointInfo
    after = record i { counter_max = (i.counter_max + amount) % 2 ^ 32; reserved = true }
