-- ===== src/Capture/Scenarios.antt =====
-- Concrete runs of the capture session of crates/capture/src, and the theorems applied to them.
use moreland_kde.Base.{
  ℕ, zero, ◌≡◌, refl, ◌≢◌, inr, true, false, none, some, List, [], ◌∷◌, ◌++◌, map, arith,
}
use moreland_kde.Base.Result.{Result, ok, err}
use moreland_kde.Base.Text.{text}
use moreland_kde.Capture.Constraints.{
  State, default_state, buffer_constraints, no_caps, on_events, ready, failed, presentation_time,
  done, output_name,
}
use moreland_kde.Capture.Constraints.Generations.{
  Constraint, size, shm, device, format, events_of, event_of, caps_after, batch_consumed,
  batches_merge,
}
use moreland_kde.Capture.Formats.{xr24, ar24, pick_dmabuf_format}
use moreland_kde.Capture.Formats.Choice.{IsVerdict, pick_dmabuf_format-restricted}
use moreland_kde.Capture.Failure.{Failure, geometry_changed_to}
use moreland_kde.Capture.Device.{Dmabuf, Machine, Node, BufferObject, Allocator, from_dev_t}
use moreland_kde.Capture.Session.{
  lost, create_session, dmabuf_buffer, Capture, default_config, dmabuf_mode, Delivery, events,
  allocate_pool,
}
use moreland_kde.Capture.Session.Pool.Allocation.{IsReady, IsAllocation, allocate_pool-IsAllocation}
use moreland_kde.Capture.Session.Frames.{
  Clock, FrameTiming, try_capture_frame, capture_frame, await_constraints,
}
use moreland_kde.Capture.Session.Frames.Recovery.{IsCaptured, capture_frame-IsCaptured}
use moreland_kde.Capture.Session.Frames.Progress.{dispatched, IsArrival, capture_frame-dispatched}
use moreland_kde.Capture.Session.Frames.Ring.{Run, finished, frame, Run-distinct}
use moreland_kde.Capture.Session.Setup.{Compositor, IsStarted, new, new-IsStarted}
use moreland_kde.Capture.Session.Synchronised.{renegotiation_uses_new_batch}
use moreland_kde.Capture.Constraints.{on_event, begin_generation, words, from_ne_bytes}
use moreland_kde.Capture.Device.{
  resolve_render_node, matching_node, render_sibling, open_node, allocate, export_planes,
}
use moreland_kde.Capture.Session.{
  allocate_sized, allocate_dmabuf, dmabuf_choice, finish_dmabuf, build_dmabuf, allocator_for,
  dmabuf_pool, adopt,
}
use moreland_kde.Capture.Session.Frames.{
  start_frame, await_frame, end_frame, renegotiate, check_geometry,
}
use moreland_kde.Capture.Session.Setup.{output_named, negotiate}

abbrev gpu_node : Node
gpu_node = record { name = text "card1"; rdev = some 226 }

abbrev one_plane : BufferObject
one_plane = record { object_modifier = 0; object_planes = (some 9, (0, 7680)) ∷ [] }

abbrev machine : Machine
machine = record {
  nodes = some (some gpu_node ∷ []);
  siblings = λ n. some (some (text "card1") ∷ none ∷ some (text "renderD128") ∷ []);
  node_opens = λ n. true;
  gbm_works = λ n. true;
  known_fourcc = λ f. true;
  create_object = λ i n w h f ms. some one_plane;
  memory = λ i. true;
}

abbrev opened : Allocator
opened = record { path = text "renderD128"; dev_t = some 226 }

-- The constraints of a session of 1920 by 1200.
abbrev offer : List Constraint
offer =
    format xr24 (0 ∷ 0 ∷ 0 ∷ 0 ∷ 0 ∷ 0 ∷ 0 ∷ 0 ∷ [])
    ∷ device (226 ∷ 0 ∷ 0 ∷ 0 ∷ 0 ∷ 0 ∷ 0 ∷ 0 ∷ [])
    ∷ shm (some 1)
    ∷ []

abbrev smaller : Constraint
smaller = size 1280 800

abbrev larger : Constraint
larger = size 1920 1200

abbrev used_state : State
used_state = record default_state {
  caps = record no_caps { buffer_size = some (640, 480); shm_formats = 0 ∷ [] };
  session_done = true;
  caps_consumed = true;
}

batch_consumed_example : on_events (events_of (larger ∷ offer)) used_state ≡ record used_state {
  caps = caps_after (larger ∷ offer) no_caps;
  caps_consumed = false;
  session_done = true;
}
batch_consumed_example = batch_consumed larger offer used_state refl

abbrev merged : State
merged = record used_state { caps_consumed = false }

batches_merge_example :
    on_events (events_of (shm (some 1) ∷ [])) (on_events (events_of (larger ∷ [])) merged)
    ≡ record merged {
      caps = caps_after (shm (some 1) ∷ []) (caps_after (larger ∷ []) merged.caps);
      session_done = true;
    }
batches_merge_example = batches_merge (larger ∷ []) (shm (some 1) ∷ []) merged refl

-- The old format is still there, in front.
merged_formats : (on_events (events_of (shm (some 1) ∷ [])) merged).caps.shm_formats ≡ zero ∷ 1 ∷ []
unfolding on_events on_event begin_generation
merged_formats = refl

renegotiation_uses_new_batch_example :
    await_constraints 100
      (on_events (map event_of (larger ∷ [])) used_state)
      (events 7 (events_of offer) ∷ [])
    ≡ (
      ok tt,
      (
        record used_state {
          caps = caps_after (larger ∷ [] ++ offer) no_caps;
          caps_consumed = false;
          session_done = true;
        },
        [],
      ),
    )
renegotiation_uses_new_batch_example =
    renegotiation_uses_new_batch 100 7 larger [] offer used_state [] refl refl (omega arith)

abbrev mixed : List (ℕ × List ℕ)
mixed = (ar24, 0 ∷ 5 ∷ []) ∷ (xr24, 7 ∷ 9 ∷ []) ∷ []

-- XR24 is offered with no modifier that the consumer takes, and AR24 with two.
falls_back : pick_dmabuf_format mixed (8 ∷ 5 ∷ 0 ∷ []) ≡ ok (ar24, 5 ∷ [])
unfolding pick_dmabuf_format
falls_back = refl

abbrev compositor : Compositor
compositor = record {
  connects = true;
  output_count = 2;
  first_trip = some (output_name 0 (text "DP-1") ∷ []);
  second_trip = some (output_name 1 (text "moreland") ∷ []);
  source_manager = true;
  capture_manager = true;
  shm = true;
  linux_dmabuf = true;
  deliveries = events 1 (map event_of (larger ∷ offer)) ∷ events 2 (done ∷ []) ∷ [];
}

abbrev planes : Dmabuf
planes = record {
  planes = record { fd = 9; offset = 0; stride = 7680 } ∷ [];
  width = 1920;
  height = 1200;
  format = xr24;
  modifier = 0;
}

-- The capture as `new` leaves it.
abbrev started_state : State
started_state = record default_state {
  outputs = text "DP-1" ∷ text "moreland" ∷ [];
  caps = caps_after (larger ∷ offer) no_caps;
  session_done = true;
  caps_consumed = true;
}

abbrev started : Capture
started = record {
  queue = [];
  state = started_state;
  buffers = dmabuf_buffer planes ∷ dmabuf_buffer planes ∷ [];
  next_buffer = 0;
  width = 1920;
  height = 1200;
  mode = dmabuf_mode;
  caps = started_state.caps;
  format = xr24;
  modifier = some 0;
  device_path = some (text "renderD128");
  pool_size = 2;
  allowed_modifiers = [];
  geometry_changed = false;
  has_dmabuf = true;
  allocator = some opened;
  sent = create_session 1 false ∷ [];
}

new-IsStarted_example : IsStarted started
unfolding new output_named negotiate on_events on_event begin_generation words from_ne_bytes
    allocate_pool allocate_sized allocate_dmabuf dmabuf_choice pick_dmabuf_format finish_dmabuf
    build_dmabuf allocator_for dmabuf_pool allocate export_planes adopt from_dev_t
    resolve_render_node matching_node render_sibling open_node
new-IsStarted_example =
    new-IsStarted machine compositor (text "moreland") default_config started refl

-- The frames are ready, and then the compositor asks for another size in the middle of a frame.
abbrev with_queue : List Delivery → Capture
with_queue q = record started { queue = q }

abbrev clock : Clock
clock = record { elapsed = 5; received_ns = 100 }

abbrev two_frames : Capture
two_frames =
    with_queue (events 1 (presentation_time 0 0 90 ∷ ready ∷ []) ∷ events 2 (ready ∷ []) ∷ [])

abbrev one_frame : Capture
one_frame = (try_capture_frame clock two_frames).1

abbrev no_frame_left : Capture
no_frame_left = (try_capture_frame clock one_frame).1

abbrev first_timing : FrameTiming
first_timing = record { latency = 5; presentation_ns = some 90; age = some 10; buffer_index = 0 }

abbrev second_timing : FrameTiming
second_timing = record { latency = 5; presentation_ns = none; age = none; buffer_index = 1 }

both_taken : Run two_frames (first_timing ∷ second_timing ∷ []) no_frame_left
unfolding try_capture_frame start_frame await_frame end_frame on_events on_event
both_taken =
    frame {c = two_frames} {d = one_frame} {t = first_timing} clock refl
      (frame {c = one_frame} {d = no_frame_left} {t = second_timing} clock refl finished)

Run-distinct_example : first_timing.buffer_index ≢ second_timing.buffer_index
Run-distinct_example =
    Run-distinct two_frames no_frame_left (first_timing ∷ second_timing ∷ []) 0 1 first_timing
      second_timing both_taken (omega arith) refl refl (omega arith) (omega arith)

started-IsReady : IsReady started
started-IsReady = ((refl, ((refl, refl), ((refl, refl), tt))), omega arith, refl)

abbrev resized : Capture
resized = with_queue (
    events 1 (event_of smaller ∷ failed buffer_constraints ∷ [])
    ∷ events 2 (map event_of offer ++ (done ∷ []))
    ∷ [])

abbrev after_resize : Result Failure FrameTiming × Capture
after_resize = capture_frame machine clock 1 clock resized

capture_frame-IsCaptured_example : IsCaptured resized after_resize
capture_frame-IsCaptured_example =
    capture_frame-IsCaptured machine clock 1 clock resized (omega arith, inr started-IsReady)

-- The resize is reported and on record, and the pool is there at the new size.
resize_reported : after_resize.0 ≡ err (geometry_changed_to (1920, 1200) (1280, 800))
unfolding capture_frame renegotiate await_constraints check_geometry try_capture_frame start_frame
    await_frame end_frame on_events on_event begin_generation words from_ne_bytes allocate_pool
    allocate_sized allocate_dmabuf dmabuf_choice pick_dmabuf_format finish_dmabuf build_dmabuf
    allocator_for dmabuf_pool allocate export_planes adopt from_dev_t resolve_render_node
    matching_node render_sibling open_node
resize_reported = refl

resize_recorded : after_resize.1.geometry_changed ≡ true
unfolding capture_frame renegotiate await_constraints check_geometry try_capture_frame start_frame
    await_frame end_frame on_events on_event begin_generation words from_ne_bytes allocate_pool
    allocate_sized allocate_dmabuf dmabuf_choice pick_dmabuf_format finish_dmabuf build_dmabuf
    allocator_for dmabuf_pool allocate export_planes adopt from_dev_t resolve_render_node
    matching_node render_sibling open_node
resize_recorded = refl

allocate_pool-IsAllocation_example : IsAllocation started (allocate_pool machine started)
allocate_pool-IsAllocation_example = allocate_pool-IsAllocation machine started (omega arith)

pick_dmabuf_format-restricted_example :
    IsVerdict mixed (8 ∷ 5 ∷ 0 ∷ []) (pick_dmabuf_format mixed (8 ∷ 5 ∷ 0 ∷ []))
pick_dmabuf_format-restricted_example = pick_dmabuf_format-restricted mixed 8 (5 ∷ 0 ∷ [])

-- Constraints of a new generation and an empty dispatch come before the frame.
abbrev slow : Capture
slow = with_queue (
    dispatched ((1, event_of larger ∷ []) ∷ (2, []) ∷ [])
      (events 3 (presentation_time 0 0 90 ∷ ready ∷ []) ∷ lost 4 ∷ []))

capture_frame-dispatched_example :
    IsArrival slow (lost 4 ∷ []) (capture_frame machine clock 1 clock slow)
capture_frame-dispatched_example =
    capture_frame-dispatched machine clock 1 clock slow ((1, event_of larger ∷ []) ∷ (2, []) ∷ []) 3
      (presentation_time 0 0 90 ∷ ready ∷ []) (lost 4 ∷ []) refl refl refl ((refl, tt), (tt, tt))
      (refl, (refl, tt)) refl
