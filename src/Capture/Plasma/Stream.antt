-- ===== src/Capture/Plasma/Stream.antt =====
-- crates/capture/src/plasma/pipewire.rs: the consumer of the PipeWire stream. Its callbacks run on
-- PipeWire's thread and share the format, the error and the channel of frames with the consumer.
pub mod Described
pub mod Negotiation
use moreland_kde.Base.{
  ℕ, zero, suc, ◌+◌, ◌-◌, ◌*◌, ◌/◌, ◌%◌, ◌^◌, ◌≤◌, ◌<◌, min, max, bit_and, bit_or, ◌≡◌, refl, sym,
  ap, subst, ◌∙◌, ◌≢◌, ◌↔◌, ◌⊎◌, inl, inr, Bool, true, false, not, ◌&&◌, ◌||◌, Option, none, some,
  List, [], ◌∷◌, ◌++◌, map, arith, ltb, leb, ◌==◌, if◌then◌else◌, ltb→lt, lt→ltb, leb→le, le→leb,
  ==_iff, ==_refl, tests, Bool-cases, Option-cases, length, get_elem?, take, drop, replicate,
  keep_if, any, find_first, flatten, All, length-append, take-append-drop, length-take, length-drop,
  length-replicate, take_all, drop_all, All-append,
}
use moreland_kde.Base.Result.{Result, ok, err, ◌>>=◌, ◌>>◌, guard, >>=-eq-ok, guard_passed}
use moreland_kde.Base.Text.{
  Text, text, text_eq, text_eq_iff, text_eq_refl, is_whitespace, is_digit, is_upper, is_lower,
  is_ascii_alphanumeric, lower_char, to_ascii_lowercase, is_empty, starts_with, contains,
  strip_prefix, trim_start, trim_end, trim, push_front, starts_newline, lines, starts_word,
  split_whitespace, split_once, until, second_piece, parse_digits, parse_nonempty, parse_unsigned,
  u8_max, u16_max, u32_max,
}
use moreland_kde.Capture.Plasma.{
  PlasmaVirtualOutput, PlasmaError, no_target, stream_failed, still_waiting,
}

pub record NegotiatedFormat : Type 0 where
  pub width : ℕ
  pub height : ℕ
  pub fourcc : ℕ
  pub modifier : ℕ
  pub stride : ℕ
  pub offset : ℕ

abbrev pub no_format : NegotiatedFormat
no_format = record { width = 0; height = 0; fourcc = 0; modifier = 0; stride = 0; offset = 0 }

pub record Frame : Type 0 where
  pub fd : ℕ
  pub offset : ℕ
  pub stride : ℕ
  pub pts_ns : Option ℕ

-- What the callbacks and the consumer share: the frames are those in the channel.
pub record Shared : Type 0 where
  pub format : NegotiatedFormat
  pub error : Option Text
  pub frames : List Frame

abbrev pub fresh : Shared
fresh = record { format = no_format; error = none; frames = [] }

-- The object serial goes before the node id.
abbrev pub target_of : Option ℕ → Option ℕ → Result PlasmaError ℕ
target_of (some serial) id = ok serial
target_of none (some id) = ok id
target_of none none = err no_target

-- The `target.object` of `PlasmaCapture::new`.
unfoldable pub target : PlasmaVirtualOutput → Result PlasmaError ℕ
target o = target_of o.state.object_serial o.node_id

-- What the process callback finds: nothing to dequeue, a buffer without data, data without an fd, or
-- an fd whose duplication gives another or fails.
pub data Dequeued : Type 0 where
  no_buffer no_data no_fd : Dequeued
  data_fd : Option ℕ → Dequeued

-- What `info` says of a raw video format.
pub record VideoInfo : Type 0 where
  pub info_width : ℕ
  pub info_height : ℕ
  pub info_modifier : ℕ
  pub raw_format : ℕ

-- What happens on PipeWire's thread. A parameter that is no raw video format, or is not read, is
-- `none`; a change of state is looked at if it is an error.
pub data Callback : Type 0 where
  process : Dequeued → Callback
  param_changed : Option VideoInfo → Callback
  state_error : Text → Callback

abbrev pub frame_of : NegotiatedFormat → ℕ → Frame
frame_of f fd = record { fd = fd; offset = f.offset; stride = f.stride; pts_ns = none }

-- A buffer with an fd: no frame before the format is known; a failed duplication is an error.
abbrev pub deliver : Shared → Option ℕ → Shared
deliver s (some fd) = record s { frames = s.frames ++ (frame_of s.format fd ∷ []) }
deliver s none = record s { error = some (text "dup failed") }

unfoldable pub on_process : Dequeued → Shared → Shared
on_process no_buffer s = s
on_process no_data s = s
on_process no_fd s = record s { error = some (text "PipeWire buffer carried no fd (not DMA-BUF?)") }
on_process (data_fd duplicate) s = if s.format.width == 0 then s else deliver s duplicate

abbrev pub dma_drm : ℕ
dma_drm = 0x0c

abbrev pub drm_fourcc_from_spa : VideoInfo → ℕ
drm_fourcc_from_spa info = info.raw_format

abbrev pub fourcc_from : VideoInfo → ℕ
fourcc_from info = if info.raw_format == dma_drm then 0x34325258 else drm_fourcc_from_spa info

-- The stride is set while it is 0; the product is a u32.
abbrev pub with_info : VideoInfo → NegotiatedFormat → NegotiatedFormat
with_info info f = record {
  width = info.info_width;
  height = info.info_height;
  fourcc = fourcc_from info;
  modifier = info.info_modifier;
  stride = if f.stride == 0 then info.info_width * 4 % 4294967296 else f.stride;
  offset = if f.stride == 0 then 0 else f.offset;
}

unfoldable pub on_callback : Callback → Shared → Shared
on_callback (process d) s = on_process d s
on_callback (param_changed none) s = s
on_callback (param_changed (some info)) s = record s { format = with_info info s.format }
on_callback (state_error msg) s = record s { error = some msg }

unfoldable pub on_callbacks : List Callback → Shared → Shared
on_callbacks [] s = s
on_callbacks (c ∷ cs) s = on_callbacks cs (on_callback c s)

-- The consumer's wait: what the callbacks do in each half second. The sender of the channel lives as
-- long as the listener, which the consumer owns, so the channel is not disconnected.
abbrev pub after_round :
    Shared
    → List Frame
    → Option Text
    → Result PlasmaError Frame × Shared
    → Result PlasmaError Frame × Shared
after_round s (f ∷ fs) e later = (ok f, record s { frames = fs })
after_round s [] (some e) later = (err (stream_failed e), record s { error = none })
after_round s [] none later = later

unfoldable pub next_frame : List (List Callback) → Shared → Result PlasmaError Frame × Shared
next_frame [] s = (err still_waiting, s)
next_frame (cs ∷ rounds) s =
    let s' = on_callbacks cs s in
    let later = next_frame rounds (on_callbacks cs s) in after_round s' s'.frames s'.error later

abbrev pub discard : Result PlasmaError Frame × Shared → Result PlasmaError (Unit {0}) × Shared
discard (ok f, s) = (ok tt, s)
discard (err e, s) = (err e, s)

unfoldable pub wait_for_format :
    List (List Callback) → Shared → Result PlasmaError (Unit {0}) × Shared
wait_for_format rounds s =
    let first = discard (next_frame rounds s) in if s.format.width == 0 then first else (ok tt, s)
