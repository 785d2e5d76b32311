-- ===== src/SyncpointManager/Tests.antt =====
-- Three syncpoints of syncpoint_manager.cpp at fixed inputs: the first one is never handed out, the
-- second one is reserved.
use skyline.Base.{
  Error, ℕ, suc, ◌-◌, ◌^◌, ◌≡◌, ◌≢◌, ◌↔◌, refl, true, false, [], ◌∷◌, some, get_elem?, ok, err,
  ◌>>=◌, exhausted, arith,
}
use skyline.SyncpointManager.{
  SyncpointInfo, Syncpoints, fresh, allocate_syncpoint, find_free_syncpoint, find_free_from,
  reserve_syncpoint, at, has_syncpoint_expired, increment_syncpoint_max_ext, get_syncpoint_fence,
  is_fence_signalled,
}
use skyline.SyncpointManager.Allocation.{
  TakenBelow, AllTaken, allocate_syncpoint_lem, allocate_syncpoint-exhausted,
}
use skyline.SyncpointManager.Expiry.{Outstanding, has_syncpoint_expired_lem, fence_after_increment}

-- Its counters have wrapped: the maximum is 2 behind the wrap, the minimum 3 before.
abbrev wrapped : SyncpointInfo
wrapped = record {
  counter_min = 2 ^ 32 - 3;
  counter_max = 2;
  interface_managed = false;
  reserved = true;
}

abbrev rest : Syncpoints
rest = wrapped ∷ fresh ∷ []

abbrev after : Syncpoints
after = fresh ∷ wrapped ∷ record fresh { reserved = true; interface_managed = true } ∷ []

allocates : allocate_syncpoint (fresh ∷ rest) true ≡ ok (2, after)
unfolding allocate_syncpoint find_free_syncpoint find_free_from reserve_syncpoint at
allocates = refl

allocate_syncpoint_lem_example :
    (offset : ℕ) × (info : SyncpointInfo) × (2 ≡ suc offset)
    × (get_elem? rest offset ≡ some info)
    × (info.reserved ≡ false)
    × TakenBelow offset rest
    × (get_elem? after 2 ≡ some (record info { reserved = true; interface_managed = true }))
    × ((other : ℕ) → 2 ≢ other → get_elem? after other ≡ get_elem? (fresh ∷ rest) other)
allocate_syncpoint_lem_example = allocate_syncpoint_lem fresh rest true allocates

allocate_syncpoint-exhausted_example :
    ((thrown : Error)
      → allocate_syncpoint (fresh ∷ wrapped ∷ wrapped ∷ []) true ≡ err thrown
      → AllTaken (wrapped ∷ wrapped ∷ []) × (thrown ≡ exhausted))
    × (AllTaken (wrapped ∷ wrapped ∷ [])
        → allocate_syncpoint (fresh ∷ wrapped ∷ wrapped ∷ []) true ≡ err exhausted)
allocate_syncpoint-exhausted_example =
    allocate_syncpoint-exhausted fresh (wrapped ∷ wrapped ∷ []) true

has_syncpoint_expired_lem_example :
    (has_syncpoint_expired (fresh ∷ rest) 1 1 ≡ ok false) ↔ Outstanding wrapped 1
has_syncpoint_expired_lem_example =
    has_syncpoint_expired_lem (fresh ∷ rest) 1 1 refl refl refl (omega arith) (omega arith)
      (omega arith)

fence_after_increment_example :
    (increment_syncpoint_max_ext (fresh ∷ rest) 1 4 >>= λ r.
    get_syncpoint_fence (r.1) 1 >>= λ f. is_fence_signalled (r.1) f)
    ≡ ok false
fence_after_increment_example =
    fence_after_increment (fresh ∷ rest) 1 4 refl refl refl (omega arith) (omega arith)
      (omega arith) (omega arith)
