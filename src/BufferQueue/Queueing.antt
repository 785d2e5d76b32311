-- ===== src/BufferQueue/Queueing.antt =====
-- Queueing a buffer to be presented: QueueBuffer of
-- app/src/main/cpp/skyline/services/hosbinder/GraphicBufferProducer.cpp. The wait on the fence, which
-- changes nothing of the queue, is left out.
use skyline.Base.{
  ℕ, ◌+◌, ◌-◌, ◌%◌, ◌^◌, Bool, true, not, ◌||◌, List, ◌∷◌, Option, none, some, ltb, leb, ◌==◌,
  if◌then◌else◌, get_elem?, set, Result, ok, ◌>>=◌, ◌>>◌, guard, or_throw, bad_magic, bad_surface,
  bad_format, bad_transform, duplicate_failed, fault,
}
use skyline.BufferQueue.Types.{
  free, dequeued, Status, bad_value, GraphicBuffer, is_supported, BufferSlot, Producer, Present,
  is_state, nvmap_handle,
}
use skyline.BufferQueue.Slots.{in_range, pending_buffer_count}

-- What QueueBuffer reads of an `NvMap::Handle`.
pub record Handle : Type 0 where
  pub allocated : Bool
  pub orig_size : ℕ
  pub address : ℕ

-- What a queue calls outside itself: `NvMap::GetHandle` on the handles of the moment, the texture
-- that the cache finds or creates for a buffer in memory, and the presentation's transform hint.
pub record Outside : Type 0 where
  pub get_handle : ℕ → Option Handle
  pub find_or_create : GraphicBuffer → ℕ → ℕ
  pub transform_hint : ℕ

-- The parameters of QueueBuffer after the slot. The crop is an `AndroidRect` of u32.
pub record QueueRequest : Type 0 where
  pub timestamp : ℕ
  pub is_auto_timestamp : Bool
  pub left : ℕ
  pub top : ℕ
  pub right : ℕ
  pub bottom : ℕ
  pub scaling_mode : ℕ
  pub transform : ℕ
  pub sticky_transform : ℕ
  pub swap_interval : ℕ

-- The values that QueueBuffer gives back beside its status.
pub record Queued : Type 0 where
  pub width : ℕ
  pub height : ℕ
  pub transform_hint : ℕ
  pub pending : ℕ

-- The subtraction of a u32.
abbrev pub minus_u32 : ℕ → ℕ → ℕ
minus_u32 m n = (m + 2 ^ 32 - n) % 2 ^ 32

-- The transforms that the switch accepts.
unfoldable pub is_transform : ℕ → Bool
is_transform t = leb t 8

-- The pixel formats that have a format of the GPU: RGBA8888, RGBX8888, RGB565 and BGRA8888.
unfoldable pub is_pixel_format : ℕ → Bool
is_pixel_format f = (f == 1) || (f == 2) || (f == 4) || (f == 5)

-- `Duplicate` succeeds on a handle that is allocated.
unfoldable pub check_handle : GraphicBuffer → Handle → Result ℕ
check_handle g h = do
  guard h.allocated duplicate_failed
  guard (leb g.surface.size ((h.orig_size + 2 ^ 64 - g.surface.offset) % 2 ^ 64)) bad_surface
  guard (not (h.address == 0)) fault
  ok (h.address + g.surface.offset)

-- The texture for a buffer that has none yet, which keeps a duplicate of the handle.
unfoldable pub create_texture : Outside → GraphicBuffer → Result ℕ
unfolding is_supported is_pixel_format check_handle
create_texture o g = do
  guard g.handle_magic_valid bad_magic
  guard (is_pixel_format g.handle_format) bad_format
  guard (is_supported g) bad_surface
  h ← or_throw (o.get_handle (nvmap_handle g)) fault
  a ← check_handle g h
  ok (o.find_or_create g a)

-- The slot's texture and the duplicated handles, once it has a texture.
unfoldable pub ensure_texture : Outside → BufferSlot → GraphicBuffer → List ℕ → Result (ℕ × List ℕ)
unfolding create_texture
ensure_texture o b g duplicated = elim b.texture [
  | some t ↦ ok (t, duplicated)
  | none ↦ (do t ← create_texture o g; ok (t, nvmap_handle g ∷ duplicated))
]

abbrev pub presented_by : QueueRequest → ℕ → Present
presented_by r t = record {
  texture = t;
  timestamp = if r.is_auto_timestamp then 0 else r.timestamp;
  swap_interval = r.swap_interval;
  scaling_mode = r.scaling_mode;
  transform = r.transform;
}

-- The state after the frame is handed to the presentation.
unfoldable pub present : QueueRequest → ℕ → BufferSlot → ℕ → List ℕ → Producer → Producer
present r slot b t duplicated p =
    let n = (p.frame_number + 1) % 2 ^ 64 in
    record p {
      queue = set p.queue slot (record b {
        state = free;
        was_buffer_requested = true;
        texture = some t;
        frame_number = n;
      });
      frame_number = n;
      duplicated = duplicated;
      presented = presented_by r t ∷ p.presented;
      signals = p.signals + 1;
    }

-- The crop is larger than the buffer.
unfoldable pub is_cropped : QueueRequest → GraphicBuffer → Bool
is_cropped r g = ltb g.width (minus_u32 r.right r.left) || ltb g.height (minus_u32 r.bottom r.top)

unfoldable pub queue_buffer :
    Outside → ℕ → QueueRequest → Producer → Result (Status × Option Queued × Producer)
unfolding in_range is_cropped ensure_texture is_transform present pending_buffer_count
queue_buffer o slot r p =
    if not (leb r.scaling_mode 3)
    then ok (bad_value, none, p)
    else if not (in_range slot)
    then ok (bad_value, none, p)
    else (do
      b ← or_throw (get_elem? p.queue slot) fault
      if not (is_state dequeued b.state) then ok (bad_value, none, p) else (do
        g ← or_throw b.graphic_buffer fault
        if is_cropped r g
            then ok (
              bad_value,
              none,
              record p { queue = set p.queue slot (record b { was_buffer_requested = true }) },
            )
            else (do
              (t, ds) ← ensure_texture o b g p.duplicated
              guard (is_transform r.transform) bad_transform
              guard (is_transform r.sticky_transform) bad_transform
              let q = present r slot b t ds p
              n ← pending_buffer_count q
              ok (
                Status.ok,
                some (record {
                  width = p.default_width;
                  height = p.default_height;
                  transform_hint = o.transform_hint;
                  pending = n;
                }),
                q,
              ))))
