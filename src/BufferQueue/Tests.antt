-- ===== src/BufferQueue/Tests.antt =====
-- The buffer queue of GraphicBufferProducer.cpp at fixed inputs.
use skyline.Base.{
  none, ok, ◌⊎◌, ◌≢◌, ℕ, ◌≡◌, refl, true, false, List, [], ◌∷◌, some, Result, ok, err, Ensures, set,
  arith,
}
use skyline.BufferQueue.{Request, dequeue_buffer, request_buffer, connect, set_preallocated_buffer}
use skyline.BufferQueue.Types.{
  pitch, GraphicBuffer, Producer, init, egl, empty_slot, Present, is_api, BufferSlot, dequeued,
  bad_value,
}
use skyline.BufferQueue.Slots.{oldest, pending_buffer_count, in_range, count_queued}
use skyline.BufferQueue.Queueing.{
  Outside, QueueRequest, queue_buffer, ensure_texture, create_texture, check_handle, is_transform,
  present, is_cropped, is_pixel_format,
}
use skyline.BufferQueue.Dequeue.{Outcome, dequeue_buffer_lem}
use skyline.BufferQueue.Ledger.{IsValid}
use skyline.BufferQueue.Run.{
  Operation, connects, request, set_preallocated, dequeue, queue, run, run_all, run_all-IsValid,
  run_all-pending,
}

abbrev buffer : GraphicBuffer
buffer = record {
  magic_valid = true;
  handle_magic_valid = true;
  width = 64;
  height = 32;
  format = 1;
  usage = 3;
  handle_format = 1;
  nvmap_id = 4;
  surface_count = 1;
  surface = record {
    width = 64;
    height = 32;
    layout = pitch;
    nvmap_handle = 0;
    offset = 0;
    size = 8192;
    is_progressive = true;
  };
}

abbrev wanted : Request
wanted = record { is_async = false; width = 64; height = 32; format = 1; usage = 3 }

-- One handle of 8192 bytes, numbered 4.
abbrev outside : Outside
outside = record {
  get_handle = λ h. some (record { allocated = true; orig_size = 8192; address = 0x1000 });
  find_or_create = λ g a. 77;
  transform_hint = 0;
}

abbrev frame : QueueRequest
frame = record {
  timestamp = 9;
  is_auto_timestamp = false;
  left = 0;
  top = 0;
  right = 64;
  bottom = 32;
  scaling_mode = 0;
  transform = 0;
  sticky_transform = 0;
  swap_interval = 1;
}

abbrev one_frame : List Operation
one_frame =
    connects egl
    ∷ set_preallocated 0 (some buffer)
    ∷ dequeue wanted
    ∷ request 0
    ∷ queue outside 0 frame
    ∷ []

abbrev shown : Result Producer → List ℕ × List ℕ × List Present
shown (ok p) = (p.duplicated, p.freed, p.presented)
shown (err e) = ([], [], [])

frame_is_shown : shown (run_all one_frame init) ≡ (
  4 ∷ [],
  [],
  record { texture = 77; timestamp = 9; swap_interval = 1; scaling_mode = 0; transform = 0 } ∷ [],
)
unfolding run_all run connect request_buffer dequeue_buffer queue_buffer ensure_texture
    create_texture check_handle is_transform present is_cropped is_pixel_format oldest
    pending_buffer_count in_range count_queued is_api set_preallocated_buffer
frame_is_shown = refl

run_all-IsValid_example : Ensures IsValid (run_all one_frame init)
run_all-IsValid_example = run_all-IsValid one_frame

abbrev requested : Producer
requested = record init {
  connected_api = egl;
  queue = set init.queue 2 (record empty_slot { was_buffer_requested = true });
}

requests : run_all (connects egl ∷ request 2 ∷ []) init ≡ ok requested
unfolding run_all run connect request_buffer is_api in_range pending_buffer_count count_queued
requests = refl

run_all-pending_example : pending_buffer_count requested ≡ ok 0
run_all-pending_example = run_all-pending (connects egl ∷ request 2 ∷ []) requests (omega arith)

-- Two of three active slots are free; the second one is the older.
abbrev slots : List BufferSlot
slots =
    record empty_slot { frame_number = 5; graphic_buffer = some buffer }
    ∷ record empty_slot { frame_number = 3; graphic_buffer = some buffer }
    ∷ record empty_slot { state = dequeued }
    ∷ []

abbrev active : Producer
active = record init { queue = slots; active_slot_count = 3 }

dequeue_buffer_lem_example :
    Outcome wanted active (dequeue_buffer wanted active)
    × ((wanted.width ≡ 0) ⊎ (wanted.height ≡ 0)
        → wanted.width ≢ wanted.height
        → dequeue_buffer wanted active ≡ ok (bad_value, none, active))
dequeue_buffer_lem_example = dequeue_buffer_lem wanted active
