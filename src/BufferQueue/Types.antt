-- ===== src/BufferQueue/Types.antt =====
-- The data of a buffer queue, of GraphicBufferProducer.h, android_types.h and native_window.h: its
-- slots, the buffers in them, and the producer itself.
use skyline.Base.{
  ℕ, ◌-◌, ◌^◌, Bool, true, false, not, ◌&&◌, List, [], Option, none, some, ◌==◌, if◌then◌else◌,
  replicate,
}

pub data BufferState : Type 0 where
  free dequeued queued acquired : BufferState

abbrev pub is_state : BufferState → BufferState → Bool
is_state free free = true
is_state dequeued dequeued = true
is_state queued queued = true
is_state acquired acquired = true
is_state _ _ = false

-- `AndroidStatus`
pub data Status : Type 0 where
  ok no_memory invalid_operation bad_value no_init would_block : Status

pub data SurfaceLayout : Type 0 where
  pitch tiled blocklinear : SurfaceLayout

-- `NvSurface`
pub record Surface : Type 0 where
  pub width : ℕ
  pub height : ℕ
  pub layout : SurfaceLayout
  pub nvmap_handle : ℕ
  pub offset : ℕ
  pub size : ℕ
  pub is_progressive : Bool

-- `GraphicBuffer`, with its `NvGraphicHandle` and the first surface. `magic_valid` says that
-- its magic number and its integer count are as expected, `handle_magic_valid` that the handle's
-- magic number is.
pub record GraphicBuffer : Type 0 where
  pub magic_valid : Bool
  pub handle_magic_valid : Bool
  pub width : ℕ
  pub height : ℕ
  pub format : ℕ
  pub usage : ℕ
  pub handle_format : ℕ
  pub nvmap_id : ℕ
  pub surface_count : ℕ
  pub surface : Surface

abbrev pub is_tiled : SurfaceLayout → Bool
is_tiled tiled = true
is_tiled _ = false

-- One progressive surface that is not tiled.
unfoldable pub is_supported : GraphicBuffer → Bool
is_supported g =
    (g.surface_count == 1) && g.surface.is_progressive && not (is_tiled g.surface.layout)

-- `surface.nvmapHandle ? surface.nvmapHandle : handle.nvmapId`
abbrev pub nvmap_handle : GraphicBuffer → ℕ
nvmap_handle g = if g.surface.nvmap_handle == 0 then g.nvmap_id else g.surface.nvmap_handle

pub record BufferSlot : Type 0 where
  pub state : BufferState
  pub frame_number : ℕ
  pub was_buffer_requested : Bool
  pub is_preallocated : Bool
  pub texture : Option ℕ
  pub graphic_buffer : Option GraphicBuffer

abbrev pub has_buffer : BufferSlot → Bool
has_buffer b = elim b.graphic_buffer [ none ↦ false | some _ ↦ true ]

abbrev pub empty_slot : BufferSlot
empty_slot = record {
  state = free;
  frame_number = 0;
  was_buffer_requested = false;
  is_preallocated = false;
  texture = none;
  graphic_buffer = none;
}

pub data NativeWindowApi : Type 0 where
  no_api egl cpu media camera unknown_api : NativeWindowApi

-- The APIs that a client may connect with.
unfoldable pub is_api : NativeWindowApi → Bool
is_api egl = true
is_api cpu = true
is_api media = true
is_api camera = true
is_api _ = false

abbrev pub same_api : NativeWindowApi → NativeWindowApi → Bool
same_api no_api no_api = true
same_api egl egl = true
same_api cpu cpu = true
same_api media media = true
same_api camera camera = true
same_api unknown_api unknown_api = true
same_api _ _ = false

-- `NativeWindowQuery`; the queries that are not answered are one constructor.
pub data Query : Type 0 where
  width height format min_undequeued_buffers sticky_transform : Query
  consumer_running_behind consumer_usage_bits max_buffer_count unsupported : Query

pub record Present : Type 0 where
  pub texture : ℕ
  pub timestamp : ℕ
  pub swap_interval : ℕ
  pub scaling_mode : ℕ
  pub transform : ℕ

pub record Producer : Type 0 where
  pub queue : List BufferSlot
  pub active_slot_count : ℕ
  pub preallocated_buffer_count : ℕ
  pub default_width : ℕ
  pub default_height : ℕ
  pub default_format : ℕ
  pub connected_api : NativeWindowApi
  pub frame_number : ℕ
  pub duplicated : List ℕ
  pub freed : List ℕ
  pub presented : List Present
  pub signals : ℕ

abbrev pub max_slot_count : ℕ
max_slot_count = 16

abbrev pub max_u32 : ℕ
max_u32 = 2 ^ 32 - 1

abbrev pub init : Producer
init = record {
  queue = replicate max_slot_count empty_slot;
  active_slot_count = 0;
  preallocated_buffer_count = 0;
  default_width = 1;
  default_height = 1;
  default_format = 1;
  connected_api = no_api;
  frame_number = 0;
  duplicated = [];
  freed = [];
  presented = [];
  signals = 0;
}
