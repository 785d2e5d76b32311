-- ===== src/BufferQueue/Slots.antt =====
-- The loops over the slots of a queue in GraphicBufferProducer.cpp.
use skyline.Base.{
  ℕ, suc, zero, ◌+◌, Bool, true, false, ◌&&◌, List, [], ◌∷◌, Option, none, some, ltb, ◌==◌,
  if◌then◌else◌, Result, ok, err, fault,
}
use skyline.BufferQueue.Types.{
  free, dequeued, queued, BufferSlot, Producer, GraphicBuffer, is_state, has_buffer, max_u32,
  max_slot_count, nvmap_handle,
}

-- `slot < 0 || slot >= queue.size()` fails; `slot` is the pattern of an i32.
unfoldable pub in_range : ℕ → Bool
in_range slot = ltb slot max_slot_count

abbrev pub nonzero_or : ℕ → ℕ → ℕ
nonzero_or n d = if n == 0 then d else n

-- `if (std::exchange(slot.texture, {})) FreeGraphicBufferNvMap(*slot.graphicBuffer);`
abbrev pub handle_held : Option ℕ → Option GraphicBuffer → List ℕ → List ℕ
handle_held none g freed = freed
handle_held (some t) none freed = freed
handle_held (some t) (some g) freed = nvmap_handle g ∷ freed

abbrev pub freed_by : BufferSlot → List ℕ → List ℕ
freed_by b freed = handle_held b.texture b.graphic_buffer freed

-- What a reset leaves of a slot.
unfoldable pub clear : BufferSlot → BufferSlot
clear b = record b { state = free; frame_number = max_u32; texture = none; graphic_buffer = none }

unfoldable pub clear_slots : List BufferSlot → List BufferSlot
unfolding clear
clear_slots [] = []
clear_slots (b ∷ bs) = clear b ∷ clear_slots bs

unfoldable pub freed_by_all : List BufferSlot → List ℕ → List ℕ
freed_by_all [] freed = freed
freed_by_all (b ∷ bs) freed = freed_by_all bs (freed_by b freed)

unfoldable pub clear_all : Producer → Producer
unfolding clear_slots freed_by_all
clear_all p = record p { queue = clear_slots p.queue; freed = freed_by_all p.queue p.freed }

unfoldable pub any_dequeued : List BufferSlot → Bool
any_dequeued [] = false
any_dequeued (b ∷ bs) = if is_state dequeued b.state then true else any_dequeued bs

-- The loop keeps the first of the slots with the least frame number, among the first `n` that pass.
abbrev pub better : Option (ℕ × BufferSlot) → ℕ → BufferSlot → Option (ℕ × BufferSlot)
better none i b = some (i, b)
better (some (j, c)) i b = if ltb b.frame_number c.frame_number then some (i, b) else some (j, c)

unfoldable pub oldest :
    (BufferSlot → Bool)
    → ℕ
    → ℕ
    → List BufferSlot
    → Option (ℕ × BufferSlot)
    → Option (ℕ × BufferSlot)
oldest test zero i bs best = best
oldest test (suc n) i [] best = best
oldest test (suc n) i (b ∷ bs) best =
    oldest test n (i + 1) bs (if test b then better best i b else best)

unfoldable pub count_dequeued : ℕ → List BufferSlot → ℕ
count_dequeued zero bs = 0
count_dequeued (suc n) [] = 0
count_dequeued (suc n) (b ∷ bs) = (if is_state dequeued b.state then 1 else 0) + count_dequeued n bs

unfoldable pub count_preallocated : List BufferSlot → ℕ
count_preallocated [] = 0
count_preallocated (b ∷ bs) =
    (if has_buffer b && b.is_preallocated then 1 else 0) + count_preallocated bs

unfoldable pub count_attached : List BufferSlot → ℕ
count_attached [] = 0
count_attached (b ∷ bs) = (if has_buffer b then 1 else 0) + count_attached bs

-- `GetPendingBufferCount`; the loop runs on the active slots, past the queue if there are more.
unfoldable pub count_queued : ℕ → List BufferSlot → Result ℕ
count_queued zero bs = ok 0
count_queued (suc n) [] = err fault
count_queued (suc n) (b ∷ bs) = elim (count_queued n bs) [
  | ok k ↦ ok ((if is_state queued b.state then 1 else 0) + k)
  | err e ↦ err e
]

unfoldable pub pending_buffer_count : Producer → Result ℕ
unfolding count_queued
pending_buffer_count p = count_queued p.active_slot_count p.queue
