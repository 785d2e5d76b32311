-- ===== src/SyncpointManager.antt =====
-- The nvdrv syncpoint manager: app/src/main/cpp/skyline/services/nvdrv/core/syncpoint_manager.h and
-- syncpoint_manager.cpp. `syncpoints.at(id)` throws past the end, `syncpoints[id]` is a fault there.
-- The host1x counter that `UpdateMin` loads is an argument.
pub mod Allocation
pub mod Expiry
mod Tests
use skyline.Base.{
  ℕ, zero, suc, ◌+◌, ◌-◌, ◌%◌, ◌^◌, Bool, true, false, List, [], ◌∷◌, Option, none, some, ltb, leb,
  ◌==◌, if◌then◌else◌, get_elem?, set, length, replicate, Result, ok, err, ◌>>=◌, ◌>>◌, guard,
  or_throw, in_use, unreserved, out_of_range, exhausted, fault,
}

pub record SyncpointInfo : Type 0 where
  pub counter_min : ℕ
  pub counter_max : ℕ
  pub interface_managed : Bool
  pub reserved : Bool

pub record Fence : Type 0 where
  pub id : ℕ
  pub threshold : ℕ

abbrev pub syncpoint_count : ℕ
syncpoint_count = 192

-- The array of syncpoints.
abbrev pub Syncpoints : Type 0
Syncpoints = List SyncpointInfo

abbrev pub fresh : SyncpointInfo
fresh = record { counter_min = 0; counter_max = 0; interface_managed = false; reserved = false }

abbrev pub sub32 : ℕ → ℕ → ℕ
sub32 a b = (a + 2 ^ 32 - b) % 2 ^ 32

unfoldable pub at : Syncpoints → ℕ → Result SyncpointInfo
at sps id = or_throw (get_elem? sps id) out_of_range

unfoldable pub reserve_syncpoint : Syncpoints → ℕ → Bool → Result (ℕ × Syncpoints)
unfolding at
reserve_syncpoint sps id client_managed = do
  info ← at sps id
  if info.reserved
      then err in_use
      else ok (id, set sps id (record info { reserved = true; interface_managed = client_managed }))

-- The loop from index `i` on, over the syncpoints that are left.
unfoldable pub find_free_from : ℕ → Syncpoints → Result ℕ
find_free_from i [] = err exhausted
find_free_from i (info ∷ sps) =
    let rest = find_free_from (i + 1) sps in if info.reserved then rest else ok i

-- Syncpoint 0 is never handed out.
unfoldable pub find_free_syncpoint : Syncpoints → Result ℕ
unfolding find_free_from
find_free_syncpoint [] = err exhausted
find_free_syncpoint (info ∷ sps) = find_free_from 1 sps

unfoldable pub allocate_syncpoint : Syncpoints → Bool → Result (ℕ × Syncpoints)
unfolding find_free_syncpoint reserve_syncpoint
allocate_syncpoint sps client_managed = do
  id ← find_free_syncpoint sps
  reserve_syncpoint sps id client_managed

unfoldable pub is_syncpoint_allocated : Syncpoints → ℕ → Result Bool
is_syncpoint_allocated sps id =
    if leb id syncpoint_count
    then (do info ← or_throw (get_elem? sps id) fault; ok info.reserved)
    else ok false

-- `static_cast<i32>(x) >= 0`
abbrev pub not_negative32 : ℕ → Bool
not_negative32 x = ltb x (2 ^ 31)

abbrev pub expired : SyncpointInfo → ℕ → Bool
expired info threshold =
    if info.interface_managed
    then not_negative32 (sub32 info.counter_min threshold)
    else leb (sub32 info.counter_min threshold) (sub32 info.counter_max threshold)

unfoldable pub has_syncpoint_expired : Syncpoints → ℕ → ℕ → Result Bool
unfolding at
has_syncpoint_expired sps id threshold = do
  info ← at sps id
  guard info.reserved unreserved
  ok (expired info threshold)

unfoldable pub is_fence_signalled : Syncpoints → Fence → Result Bool
unfolding has_syncpoint_expired
is_fence_signalled sps f = has_syncpoint_expired sps f.id f.threshold

unfoldable pub increment_syncpoint_max_ext : Syncpoints → ℕ → ℕ → Result (ℕ × Syncpoints)
unfolding at
increment_syncpoint_max_ext sps id amount = do
  info ← at sps id
  guard info.reserved unreserved
  let top = (info.counter_max + amount) % 2 ^ 32
  ok (top, set sps id (record info { counter_max = top }))

unfoldable pub read_syncpoint_min_value : Syncpoints → ℕ → Result ℕ
unfolding at
read_syncpoint_min_value sps id = do
  info ← at sps id
  guard info.reserved unreserved
  ok info.counter_min

unfoldable pub update_min : Syncpoints → ℕ → ℕ → Result (ℕ × Syncpoints)
unfolding at
update_min sps id loaded = do
  info ← at sps id
  guard info.reserved unreserved
  ok (loaded, set sps id (record info { counter_min = loaded }))

unfoldable pub get_syncpoint_fence : Syncpoints → ℕ → Result Fence
unfolding at
get_syncpoint_fence sps id = do
  info ← at sps id
  guard info.reserved unreserved
  ok (record { id = id; threshold = info.counter_max })

-- `ChannelSyncpoints`
abbrev pub channel_syncpoints : List ℕ
channel_syncpoints = 0 ∷ 0xc ∷ 0 ∷ 0x36 ∷ 0 ∷ 0x37 ∷ 0 ∷ []

unfoldable pub reserve_channels : List ℕ → Syncpoints → Result Syncpoints
unfolding reserve_syncpoint
reserve_channels [] sps = ok sps
reserve_channels (id ∷ ids) sps =
    if id == 0
    then reserve_channels ids sps
    else (reserve_syncpoint sps id false >>= λ r. reserve_channels ids (r.1))

-- The constructor.
unfoldable pub syncpoint_manager : Result Syncpoints
unfolding reserve_syncpoint reserve_channels
syncpoint_manager = do
  a ← reserve_syncpoint (replicate syncpoint_count fresh) 26 true
  b ← reserve_syncpoint a.1 27 true
  reserve_channels channel_syncpoints b.1
