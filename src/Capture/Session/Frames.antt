-- ===== src/Capture/Session/Frames.antt =====
-- crates/capture/src/session.rs: renegotiation, taking a frame, and the accessors.
pub mod Ring
pub mod Outcome
pub mod Progress
pub mod Recovery
use moreland_kde.Base.{
  ℕ, zero, suc, ◌+◌, ◌-◌, ◌*◌, ◌/◌, ◌%◌, ◌^◌, ◌≤◌, ◌<◌, min, max, bit_and, bit_or, ◌≡◌, refl, sym,
  ap, subst, ◌∙◌, ◌≢◌, ◌↔◌, ◌⊎◌, inl, inr, Bool, true, false, not, ◌&&◌, ◌||◌, Option, none, some,
  List, [], ◌∷◌, ◌++◌, map, arith, ltb, leb, ◌==◌, if◌then◌else◌, ltb→lt, lt→ltb, leb→le, le→leb,
  ==_iff, ==_refl, tests, Bool-cases, Option-cases, length, get_elem?, take, drop, replicate,
  keep_if, any, find_first, flatten, All, length-append, take-append-drop, length-take, length-drop,
  length-replicate, take_all, drop_all, All-append,
}
use moreland_kde.Base.Result.{Result, ok, err, ◌>>=◌, ◌>>◌, guard, >>=-eq-ok, guard_passed}
use moreland_kde.Base.Text.{
  Text, text, text_eq, text_eq_iff, text_eq_refl, is_whitespace, is_digit, is_upper, is_lower,
  is_ascii_alphanumeric, lower_char, to_ascii_lowercase, is_empty, starts_with, contains,
  strip_prefix, trim_start, trim_end, trim, push_front, starts_newline, lines, starts_word,
  split_whitespace, split_once, until, second_piece, parse_digits, parse_nonempty, parse_unsigned,
  u8_max, u16_max, u32_max,
}
use moreland_kde.Capture.Constraints.{
  State, Event, FailureReason, on_events, unknown, buffer_constraints, session_stop,
}
use moreland_kde.Capture.Device.{Machine, Dmabuf, Plane}
use moreland_kde.Capture.Session.{
  Capture, Delivery, lost, events, PoolBuffer, Request, ShmBuffer, allocate_pool, shm_buffer,
  dmabuf_buffer, create_frame, attach_buffer, damage_buffer, capture, destroy_frame,
  destroy_session, size,
}
use moreland_kde.Capture.Failure.{
  Failure, stopped_in_renegotiation, timed_out, connection_lost, still_waiting, geometry_changed_to,
  pool_empty, constraints_changed, session_stopped_by_compositor, capture_failed,
  capture_failed_raw, no_dmabuf, fd_refused, no_plane,
}

-- The end of a wait: what it returns, the state and the deliveries that are left.
abbrev pub Waited : Type 0
Waited = Result Failure (Unit {0}) × (State × List Delivery)

abbrev pub five_seconds : ℕ
five_seconds = 5_000_000_000

-- The loop of `renegotiate`, with times in nanoseconds.
unfoldable pub await_constraints : ℕ → State → List Delivery → Waited
await_constraints deadline s [] =
    if s.session_done
    then (ok tt, (s, []))
    else if s.session_stopped
    then (err stopped_in_renegotiation, (s, []))
    else (err still_waiting, (s, []))
await_constraints deadline s (lost now ∷ q) =
    if s.session_done
    then (ok tt, (s, lost now ∷ q))
    else if s.session_stopped
    then (err stopped_in_renegotiation, (s, lost now ∷ q))
    else if ltb deadline now
    then (err timed_out, (s, lost now ∷ q))
    else (err connection_lost, (s, q))
await_constraints deadline s (events now es ∷ q) =
    let later = await_constraints deadline (on_events es s) q in
    if s.session_done
    then (ok tt, (s, events now es ∷ q))
    else if s.session_stopped
    then (err stopped_in_renegotiation, (s, events now es ∷ q))
    else if ltb deadline now
    then (err timed_out, (s, events now es ∷ q))
    else later

abbrev pub same_size : ℕ × ℕ → ℕ × ℕ → Bool
same_size (w, h) (w', h') = w == w' && h == h'

-- The end of `renegotiate`, when the pool was rebuilt: a new size is reported, for the pipeline to
-- be restarted.
unfoldable pub check_geometry :
    ℕ × ℕ → Result Failure (Unit {0}) × Capture → Result Failure (Unit {0}) × Capture
check_geometry before (err e, c) = (err e, c)
check_geometry before (ok u, c) = if same_size (c.width, c.height) before then (ok tt, c) else (
  err (geometry_changed_to before (c.width, c.height)),
  record c { geometry_changed = true },
)

abbrev pub settled : Capture → State × List Delivery → Capture
settled c (s, q) = record c { state = s; queue = q }

abbrev pub rebuild : Machine → Capture → Waited → Result Failure (Unit {0}) × Capture
rebuild m c (err e, rest) = (err e, settled c rest)
rebuild m c (ok u, rest) = check_geometry (c.width, c.height) (allocate_pool m (settled c rest))

-- `renegotiate`, called at a time.
unfoldable pub renegotiate : Machine → ℕ → Capture → Result Failure (Unit {0}) × Capture
renegotiate m now c = rebuild m c (await_constraints (now + five_seconds) c.state c.queue)

-- `FrameTiming`, in nanoseconds.
pub record FrameTiming : Type 0 where
  pub latency : ℕ
  pub presentation_ns : Option ℕ
  pub age : Option ℕ
  pub buffer_index : ℕ

-- Readings of the clocks after the wait for a frame.
pub record Clock : Type 0 where
  pub elapsed : ℕ
  pub received_ns : ℕ

abbrev pub is_some : {A : Type 0} → Option A → Bool
is_some none = false
is_some (some a) = true

abbrev pub frame_over : State → Bool
frame_over s = s.frame_ready || is_some s.frame_failed || is_some s.frame_failed_raw

-- The loop of `try_capture_frame`.
unfoldable pub await_frame : State → List Delivery → Waited
await_frame s [] = if frame_over s then (ok tt, (s, [])) else (err still_waiting, (s, []))
await_frame s (lost now ∷ q) =
    if frame_over s then (ok tt, (s, lost now ∷ q)) else (err connection_lost, (s, q))
await_frame s (events now es ∷ q) =
    let later = await_frame (on_events es s) q in
    if frame_over s then (ok tt, (s, events now es ∷ q)) else later

abbrev pub no_frame : State → State
no_frame s = record s {
  frame_ready = false;
  frame_failed = none;
  frame_failed_raw = none;
  presentation_ns = none;
}

-- The next buffer is handed over and the frame asked for.
unfoldable pub start_frame : Capture → Capture
start_frame c = record c {
  next_buffer = (c.next_buffer + 1) % length c.buffers;
  state = no_frame c.state;
  sent =
      c.sent
      ++ (create_frame
          ∷ attach_buffer c.next_buffer
          ∷ damage_buffer c.width c.height
          ∷ capture
          ∷ []);
}

abbrev pub failure_of : FailureReason → Failure
failure_of buffer_constraints = constraints_changed
failure_of session_stop = session_stopped_by_compositor
failure_of unknown = capture_failed unknown

abbrev pub age_of : Option ℕ → ℕ → Option ℕ
age_of none received = none
age_of (some presented) received = some (received - presented)

-- A reason of failure goes before a raw one, and either before the frame.
abbrev pub outcome :
    Option FailureReason → Option ℕ → Clock → Option ℕ → ℕ → Result Failure FrameTiming
outcome (some reason) raw clock presented index = err (failure_of reason)
outcome none (some raw) clock presented index = err (capture_failed_raw raw)
outcome none none clock presented index = ok (record {
  latency = clock.elapsed;
  presentation_ns = presented;
  age = age_of presented clock.received_ns;
  buffer_index = index;
})

-- A frame whose wait ends is destroyed, and its outcome read off the state.
unfoldable pub end_frame : Clock → ℕ → Capture → Waited → Result Failure FrameTiming × Capture
end_frame clock index c (err e, rest) = (err e, settled c rest)
end_frame clock index c (ok u, (s, q)) = (
  outcome s.frame_failed s.frame_failed_raw clock s.presentation_ns index,
  record c { state = s; queue = q; sent = c.sent ++ (destroy_frame ∷ []) },
)

abbrev pub is_nil : {A : Type 0} → List A → Bool
is_nil [] = true
is_nil (x ∷ xs) = false

abbrev pub take_frame : Clock → Capture → Result Failure FrameTiming × Capture
take_frame clock c =
    end_frame clock c.next_buffer (start_frame c) (await_frame (no_frame c.state) c.queue)

unfoldable pub try_capture_frame : Clock → Capture → Result Failure FrameTiming × Capture
try_capture_frame clock c =
    if c.state.session_stopped
    then (err session_stopped_by_compositor, c)
    else if is_nil c.buffers
    then (err pool_empty, c)
    else take_frame clock c

abbrev pub try_again :
    Clock → Result Failure (Unit {0}) × Capture → Result Failure FrameTiming × Capture
try_again clock (err e, c) = (err e, c)
try_again clock (ok u, c) = try_capture_frame clock c

abbrev pub is_constraints_changed : Failure → Bool
is_constraints_changed constraints_changed = true
is_constraints_changed _ = false

-- Only changed constraints are recovered from, and once.
abbrev pub recover :
    Machine
    → ℕ
    → Clock
    → Result Failure FrameTiming × Capture
    → Result Failure FrameTiming × Capture
recover m now clock (ok t, c) = (ok t, c)
recover m now clock (err e, c) =
    let retried = try_again clock (renegotiate m now c) in
    if is_constraints_changed e then retried else (err e, c)

-- `capture_frame`, with the readings of the clocks for the first attempt, for the renegotiation and
-- for the second attempt.
unfoldable pub capture_frame :
    Machine → Clock → ℕ → Clock → Capture → Result Failure FrameTiming × Capture
capture_frame m first now second c = recover m now second (try_capture_frame first c)
