-- ===== src/Nvmap.antt =====
-- The nvmap handles: app/src/main/cpp/skyline/services/nvdrv/core/nvmap.h and nvmap.cpp. An object
-- is named by its id. `handles` are the ids in the map and `unmap_queue` those in the queue; an object
-- lives as long as one of them holds it. An i32 is given by its 32-bit pattern.
pub mod Pins
pub mod References
mod Tests
use skyline.Base.{
  ℕ, zero, suc, ◌+◌, ◌-◌, ◌*◌, ◌/◌, ◌%◌, ◌^◌, Bool, true, false, not, ◌&&◌, ◌||◌, List, [], ◌∷◌,
  ◌++◌, Option, none, some, ltb, leb, ◌==◌, if◌then◌else◌, Result, ok, err, ◌>>=◌, unimplemented,
  fault, no_address,
}

pub data PosixResult : Type 0 where
  success not_permitted invalid_argument : PosixResult

-- `NvMap::Handle`. `queued` says that it has an entry of the unmap queue.
pub record Handle : Type 0 where
  pub id : ℕ
  pub align : ℕ
  pub size : ℕ
  pub aligned_size : ℕ
  pub orig_size : ℕ
  pub dupes : ℕ
  pub internal_dupes : ℕ
  pub pins : ℕ
  pub pin_virt_address : ℕ
  pub queued : Bool
  pub map_uncached : Bool
  pub keep_uncached_after_free : Bool
  pub address : ℕ
  pub is_shared_mem_mapped : Bool
  pub kind : ℕ
  pub allocated : Bool

-- The SMMU and its allocator: an allocation of 0 has failed; what was allocated is mapped to a host
-- address, and what is unmapped is freed.
pub record Smmu : Type 1 where
  pub State : Type 0
  pub allocate : State → ℕ → ℕ × State
  pub map : State → ℕ → ℕ → ℕ → State
  pub unmap : State → ℕ → ℕ → State

abbrev pub increment : ℕ → ℕ
increment n = (n + 1) % 2 ^ 32

abbrev pub decrement : ℕ → ℕ
decrement n = (n + 2 ^ 32 - 1) % 2 ^ 32

abbrev pub is_negative : ℕ → Bool
is_negative n = leb (2 ^ 31) n

unfoldable pub handle : ℕ → ℕ → Handle
handle size id = record {
  id = id;
  align = 0;
  size = size;
  aligned_size = size;
  orig_size = size;
  dupes = 1;
  internal_dupes = 0;
  pins = 0;
  pin_virt_address = 0;
  queued = false;
  map_uncached = false;
  keep_uncached_after_free = false;
  address = 0;
  is_shared_mem_mapped = false;
  kind = 0;
  allocated = false;
}

-- `(value + (multiple - 1)) & ~(multiple - 1)`, for a multiple that is a power of two.
abbrev pub align_up : ℕ → ℕ → ℕ
align_up value multiple = (value + (multiple - 1)) / multiple * multiple

abbrev pub page_size : ℕ
page_size = 4096

-- `flags` are the two bits of them that are used. Sizes stay below 2^64.
unfoldable pub alloc : Bool → ℕ → ℕ → ℕ → Handle → Result (PosixResult × Handle)
alloc map_uncached align kind address h =
    if h.allocated
    then ok (not_permitted, h)
    else if address == 0
    then err unimplemented
    else let a : ℕ = if ltb align page_size then page_size else align in
      let s : ℕ = align_up h.size page_size in
      ok (
        success,
        record h {
          map_uncached = map_uncached;
          keep_uncached_after_free = false;
          kind = kind;
          align = a;
          size = s;
          aligned_size = align_up s a;
          address = address;
          allocated = true;
        },
      )

unfoldable pub duplicate : Bool → Handle → PosixResult × Handle
duplicate internal_session h =
    if not h.allocated
    then (invalid_argument, h)
    else if internal_session
    then (success, record h { internal_dupes = increment h.internal_dupes })
    else (success, record h { dupes = increment h.dupes })

unfoldable pub get_pointer : Handle → Result (ℕ × Handle)
get_pointer h =
    if h.address == 0
    then err no_address
    else ok (h.address, record h { is_shared_mem_mapped = true })

unfoldable pub member : ℕ → List ℕ → Bool
member i [] = false
member i (j ∷ js) = let rest = member i js in if i == j then true else rest

unfoldable pub erase : ℕ → List ℕ → List ℕ
erase i [] = []
erase i (j ∷ js) = let rest = erase i js in if i == j then js else j ∷ rest

unfoldable pub find : ℕ → List Handle → Option Handle
find i [] = none
find i (h ∷ hs) = let rest = find i hs in if i == h.id then some h else rest

-- An object is replaced by what it has become.
unfoldable pub update : Handle → List Handle → List Handle
update h [] = []
update h (g ∷ hs) = let rest = update h hs in if h.id == g.id then h ∷ hs else g ∷ rest

-- `NvMap::FreeInfo`
pub record FreeInfo : Type 0 where
  pub address : ℕ
  pub size : ℕ
  pub was_uncached : Bool

module _ (s : Smmu) where
  open s use {State, allocate, map, unmap}

  pub record NvMap : Type 0 where
    pub smmu : State
    pub objects : List Handle
    pub handles : List ℕ
    pub unmap_queue : List ℕ
    pub next_handle_id : ℕ

  abbrev pub put : Handle → NvMap → NvMap
  put h n = record n { objects = update h n.objects }

  -- A key that the map has is not replaced.
  unfoldable pub add_handle : Handle → NvMap → NvMap
  unfolding member
  add_handle h n =
      if member h.id n.handles
      then n
      else record n { objects = h ∷ n.objects; handles = h.id ∷ n.handles }

  unfoldable pub create_handle : ℕ → NvMap → PosixResult × Option Handle × NvMap
  unfolding add_handle handle
  create_handle size n =
      if size == 0
      then (invalid_argument, none, n)
      else let h : Handle = handle size n.next_handle_id in
        (
          success,
          some h,
          add_handle h (record n { next_handle_id = (n.next_handle_id + 4) % 2 ^ 32 }),
        )

  unfoldable pub get_handle : ℕ → NvMap → Option Handle
  unfolding member find
  get_handle i n = if member i n.handles then find i n.objects else none

  -- The object after it, and the state in which it has been put.
  unfoldable pub unmap_handle : Handle → NvMap → Handle × NvMap
  unfolding erase update
  unmap_handle h n =
      let g : Handle = record h { queued = false; pin_virt_address = 0 } in
      (
        g,
        put g (record n {
          smmu = unmap n.smmu h.pin_virt_address (h.aligned_size % 2 ^ 32);
          unmap_queue = if h.queued then erase h.id n.unmap_queue else n.unmap_queue;
        }),
      )

  unfoldable pub try_remove_handle : Handle → NvMap → Bool × NvMap
  unfolding erase
  try_remove_handle h n =
      if (h.dupes == 0) && (h.internal_dupes == 0)
      then (true, record n { handles = erase h.id n.handles })
      else (false, n)

  -- The loop that frees handles until the allocation succeeds; `none` if the fuel has run out. The
  -- front of an empty queue does not exist.
  unfoldable pub make_space : ℕ → Handle → NvMap → Option (Result (ℕ × NvMap))
  unfolding find unmap_handle
  make_space zero h n = none
  make_space (suc fuel) h n =
      let (address, smmu') = allocate n.smmu (h.aligned_size % 2 ^ 32) in
      let m : NvMap = record n { smmu = smmu' } in
      let kept = make_space fuel h m in
      if not (address == 0) then some (ok (address, m)) else elim n.unmap_queue [
        | [] ↦ some (err fault)
        | i ∷ q ↦
            if not (h.pin_virt_address == 0)
            then (elim (find i n.objects) [
              | none ↦ some (err fault)
              | some g ↦ make_space fuel h (unmap_handle g m).1
            ])
            else kept
      ]

  -- The handle is pinned once more.
  abbrev pub pinned : Handle → NvMap → ℕ × NvMap
  pinned h n = (h.pin_virt_address, put (record h { pins = increment h.pins }) n)

  unfoldable pub pin_handle : ℕ → ℕ → NvMap → Option (Result (ℕ × NvMap))
  unfolding get_handle make_space erase update
  pin_handle fuel i n = elim (get_handle i n) [
    | none ↦ some (ok (0, n))
    | some h ↦
        if not (h.pins == 0)
        then some (ok (pinned h n))
        else if h.queued
        then some (
            ok (
              pinned (record h { queued = false })
                (record n { unmap_queue = erase h.id n.unmap_queue })))
        else (elim (make_space fuel h n) [
          | none ↦ none
          | some (err e) ↦ some (err e)
          | some (ok (address, m)) ↦ some (
              ok (
                pinned (record h { pin_virt_address = address })
                  (record m { smmu = map m.smmu address h.address (h.aligned_size % 2 ^ 32) })))
        ])
  ]

  unfoldable pub unpin_handle : ℕ → NvMap → NvMap
  unfolding get_handle update
  unpin_handle i n = elim (get_handle i n) [
    | none ↦ n
    | some h ↦
        let p : ℕ = decrement h.pins in
        let g : Handle = record h { pins = p } in
        if is_negative p
        then put g n
        else if p == 0
        then put (record g { queued = true })
            (record n { unmap_queue = n.unmap_queue ++ h.id ∷ [] })
        else put g n
  ]

  -- One reference less; the last reference of the guest unmaps the handle and forgets its pins.
  unfoldable pub drop_reference : Bool → Handle → NvMap → Handle × NvMap
  unfolding unmap_handle update
  drop_reference internal_session h n =
      if internal_session
      then (let g : Handle = record h { internal_dupes = decrement h.internal_dupes } in
          (g, put g n))
      else (let g : Handle = record h { dupes = decrement h.dupes } in
          if not (g.dupes == 0)
          then (g, put g n)
          else let (f, m) = (if g.pin_virt_address == 0 then (g, n) else unmap_handle g n) in
            let f' : Handle = record f { pins = 0 } in (f', put f' m))

  -- The address is 0 where something still holds the object.
  unfoldable pub free_handle : ℕ → Bool → NvMap → Option FreeInfo × NvMap
  unfolding get_handle drop_reference try_remove_handle member
  free_handle i internal_session n = elim (get_handle i n) [
    | none ↦ (none, n)
    | some h ↦
        let (g, m) = drop_reference internal_session h n in
        let m' : NvMap = (try_remove_handle g m).1 in
        let held : Bool = member g.id m'.handles || member g.id m'.unmap_queue in
        (
          some (record {
            address = if held then 0 else g.address;
            size = g.size;
            was_uncached = g.map_uncached;
          }),
          m',
        )
  ]
