-- ===== src/BufferQueue.antt =====
-- The producer side of a buffer queue: app/src/main/cpp/skyline/services/hosbinder/
-- GraphicBufferProducer.h and GraphicBufferProducer.cpp. An i32 is given by its 32-bit pattern.
-- Beside the members of the class the state logs what it does to others: the nvmap handles that it
-- duplicates and frees, the frames that it presents, and the signals of `bufferEvent`. A call that
-- throws leaves no state, since it ends the guest.
pub mod Types
pub mod Slots
pub mod Queueing
pub mod Oldest
pub mod Dequeue
pub mod Ledger
pub mod Invariant
pub mod Presented
pub mod Run
mod Tests
use skyline.Base.{
  ℕ, suc, zero, ◌+◌, ◌-◌, ◌%◌, ◌^◌, bit_and, Bool, true, false, not, ◌&&◌, ◌||◌, List, [], ◌∷◌,
  Option, none, some, ltb, leb, ◌==◌, if◌then◌else◌, get_elem?, set, map, Result, ok, err, ◌>>=◌,
  ◌>>◌, guard, or_throw, bad_magic, bad_surface, fault, length,
}
use skyline.BufferQueue.Types.{
  BufferState, free, dequeued, queued, acquired, Status, bad_value, no_memory, no_init, would_block,
  invalid_operation, GraphicBuffer, Surface, is_supported, BufferSlot, Producer, is_state,
  has_buffer, NativeWindowApi, no_api, is_api, same_api, max_u32, max_slot_count, nvmap_handle,
  Query,
}
use skyline.BufferQueue.Slots.{
  clear, clear_all, oldest, count_dequeued, count_preallocated, count_attached, any_dequeued,
  in_range, pending_buffer_count, nonzero_or, freed_by, freed_by_all, clear_slots,
}

-- `bufferEvent->Signal()`
abbrev pub signal : Producer → Producer
signal p = record p { signals = p.signals + 1 }

-- A slot, by its index.
abbrev pub slot_at : Producer → ℕ → Result BufferSlot
slot_at p i = or_throw (get_elem? p.queue i) fault

abbrev pub put_slot : ℕ → BufferSlot → Producer → Producer
put_slot i b p = record p { queue = set p.queue i b }

-- The slot's texture is dropped, and with it the handle of its buffer.
abbrev pub free_texture : BufferSlot → Producer → Producer
free_texture b p = record p { freed = freed_by b p.freed }

unfoldable pub request_buffer : ℕ → Producer → Result (Status × Option GraphicBuffer × Producer)
unfolding in_range
request_buffer slot p = if not (in_range slot) then ok (bad_value, none, p) else (do
  b ← slot_at p slot
  ok (Status.ok, b.graphic_buffer, put_slot slot (record b { was_buffer_requested = true }) p))

unfoldable pub set_buffer_count : ℕ → Producer → Result (Status × Producer)
unfolding any_dequeued clear_all
set_buffer_count count p =
    if ltb count (2 ^ 31) && leb max_slot_count count
    then ok (bad_value, p)
    else if any_dequeued p.queue
    then ok (bad_value, p)
    else if count == 0
    then ok (Status.ok, signal (record p { active_slot_count = 0 }))
    else let q = (if p.preallocated_buffer_count == 0 then clear_all p else p) in
      ok (Status.ok, signal (record q { active_slot_count = count % 2 ^ 8 }))

-- The parameters that a dequeued buffer must fit.
pub record Request : Type 0 where
  pub is_async : Bool
  pub width : ℕ
  pub height : ℕ
  pub format : ℕ
  pub usage : ℕ

abbrev pub fits : Producer → Request → GraphicBuffer → Bool
fits p r g =
    (g.handle_format == nonzero_or r.format p.default_format)
    && (g.surface.width == nonzero_or r.width p.default_width)
    && (g.surface.height == nonzero_or r.height p.default_height)
    && (bit_and g.usage r.usage == r.usage)

-- The status, the slot (`none` is -1), and the new state. A fence without fences is always given.
unfoldable pub dequeue_buffer : Request → Producer → Result (Status × Option ℕ × Producer)
unfolding oldest count_dequeued
dequeue_buffer r p =
    if ((r.width == 0) && not (r.height == 0)) || (not (r.width == 0) && (r.height == 0))
    then ok (bad_value, none, p)
    else elim (oldest (λ b. is_state free b.state) p.active_slot_count 0 p.queue none) [
      | none ↦
          if r.is_async
          then ok (would_block, none, p)
          else if count_dequeued p.active_slot_count p.queue == max_slot_count
          then ok (invalid_operation, none, p)
          else ok (invalid_operation, none, p)
      | some (i, b) ↦ elim b.graphic_buffer [
        | none ↦ ok (no_memory, some i, p)
        | some g ↦
            if fits p r g
            then ok (Status.ok, some i, put_slot i (record b { state = dequeued }) p)
            else ok (no_init, some i, p)
      ]
    ]

unfoldable pub detach_buffer : ℕ → Producer → Result (Status × Producer)
unfolding in_range clear
detach_buffer slot p = if not (in_range slot) then ok (bad_value, p) else (do
  b ← slot_at p slot
  if not (is_state dequeued b.state)
      then ok (bad_value, p)
      else if not b.was_buffer_requested
      then ok (bad_value, p)
      else ok (Status.ok, signal (free_texture b (put_slot slot (clear b) p))))

unfoldable pub detach_next_buffer : Producer → Result (Status × Option GraphicBuffer × Producer)
unfolding oldest clear
detach_next_buffer p =
    elim (oldest (λ b. is_state free b.state && has_buffer b) (length p.queue) 0 p.queue none) [
      | none ↦ ok (no_memory, none, p)
      | some (i, b) ↦
          ok (Status.ok, b.graphic_buffer, signal (free_texture b (put_slot i (clear b) p)))
    ]

-- The counts that follow an attached or a preallocated buffer.
abbrev pub recount : Producer → Producer
recount p = record p {
  preallocated_buffer_count = count_preallocated p.queue % 2 ^ 8;
  active_slot_count = count_attached p.queue % 2 ^ 8;
}

unfoldable pub attach_buffer : GraphicBuffer → Producer → Result (Status × Option ℕ × Producer)
unfolding oldest count_preallocated count_attached is_supported
attach_buffer g p = elim (oldest (λ b. is_state free b.state) (length p.queue) 0 p.queue none) [
  | none ↦ ok (no_memory, none, p)
  | some (i, b) ↦ (do
    guard (g.magic_valid && g.handle_magic_valid) bad_magic
    guard (is_supported g) bad_surface
    ok (
      Status.ok,
      some i,
      recount (
          free_texture b (
            put_slot i
              (record b {
                state = dequeued;
                was_buffer_requested = true;
                is_preallocated = false;
                texture = none;
                graphic_buffer = some g;
              })
              p)),
    ))
]

unfoldable pub cancel_buffer : ℕ → Producer → Result Producer
unfolding in_range
cancel_buffer slot p = if not (in_range slot) then ok p else (do
  b ← slot_at p slot
  if is_state dequeued b.state
      then ok (signal (put_slot slot (record b { state = free; frame_number = 0 }) p))
      else ok p)

unfoldable pub query : Query → Producer → Status × ℕ
query Query.width p = (Status.ok, p.default_width)
query Query.height p = (Status.ok, p.default_height)
query Query.format p = (Status.ok, p.default_format)
query Query.min_undequeued_buffers p = (Status.ok, 0)
query Query.sticky_transform p = (Status.ok, 0)
query Query.consumer_running_behind p = (Status.ok, 0)
query Query.consumer_usage_bits p = (Status.ok, 0)
query Query.max_buffer_count p = (Status.ok, p.active_slot_count)
query Query.unsupported p = (bad_value, 0)

-- The status, the pending buffer count, and the new state; the size that Connect also gives back is
-- the default one.
unfoldable pub connect : NativeWindowApi → Producer → Result (Status × ℕ × Producer)
unfolding is_api pending_buffer_count
connect api p =
    if not (same_api p.connected_api no_api)
    then ok (bad_value, 0, p)
    else if not (is_api api)
    then ok (bad_value, 0, p)
    else (do n ← pending_buffer_count p; ok (Status.ok, n, record p { connected_api = api }))

unfoldable pub disconnect : NativeWindowApi → Producer → Status × Producer
unfolding is_api clear_all
disconnect api p =
    if not (is_api api)
    then (bad_value, p)
    else if not (same_api api p.connected_api)
    then (bad_value, p)
    else (Status.ok, clear_all (record p { connected_api = no_api }))

abbrev pub preallocated : Option GraphicBuffer → BufferSlot → BufferSlot
preallocated g b = record {
  state = free;
  frame_number = 0;
  was_buffer_requested = false;
  is_preallocated = elim g [ none ↦ false | some _ ↦ true ];
  texture = none;
  graphic_buffer = g;
}

abbrev pub set_defaults : Option GraphicBuffer → Producer → Result Producer
set_defaults none p = ok p
set_defaults (some g) p = do
  guard (g.magic_valid && g.handle_magic_valid) bad_magic
  guard (is_supported g) bad_surface
  ok (record p { default_format = g.format; default_width = g.width; default_height = g.height })

unfoldable pub set_preallocated_buffer :
    ℕ → Option GraphicBuffer → Producer → Result (Status × Producer)
unfolding in_range count_preallocated count_attached is_supported
set_preallocated_buffer slot g p = if not (in_range slot) then ok (bad_value, p) else (do
  b ← slot_at p slot
  p' ← set_defaults g (free_texture b (put_slot slot (preallocated g b) p))
  ok (Status.ok, signal (recount p')))
