-- ===== src/Capture/Constraints.antt =====
-- crates/capture/src/session.rs: `State`, which collects what the compositor sends.
pub mod Generations
use moreland_kde.Base.{
  ℕ, zero, suc, ◌+◌, ◌-◌, ◌*◌, ◌/◌, ◌%◌, ◌^◌, ◌≤◌, ◌<◌, min, max, bit_and, bit_or, ◌≡◌, refl, sym,
  ap, subst, ◌∙◌, ◌≢◌, ◌↔◌, ◌⊎◌, inl, inr, Bool, true, false, not, ◌&&◌, ◌||◌, Option, none, some,
  List, [], ◌∷◌, ◌++◌, map, arith, ltb, leb, ◌==◌, if◌then◌else◌, ltb→lt, lt→ltb, leb→le, le→leb,
  ==_iff, ==_refl, tests, Bool-cases, Option-cases, length, get_elem?, take, drop, replicate,
  keep_if, any, find_first, flatten, All, length-append, take-append-drop, length-take, length-drop,
  length-replicate, take_all, drop_all, All-append,
}
use moreland_kde.Base.Result.{Result, ok, err, ◌>>=◌, ◌>>◌, guard, >>=-eq-ok, guard_passed}
use moreland_kde.Base.Text.{
  Text, text, text_eq, text_eq_iff, text_eq_refl, is_whitespace, is_digit, is_upper, is_lower,
  is_ascii_alphanumeric, lower_char, to_ascii_lowercase, is_empty, starts_with, contains,
  strip_prefix, trim_start, trim_end, trim, push_front, starts_newline, lines, starts_word,
  split_whitespace, split_once, until, second_piece, parse_digits, parse_nonempty, parse_unsigned,
  u8_max, u16_max, u32_max,
}
use moreland_kde.Protocol.Bytes.{from_be_bytes}

-- `SessionCaps`. A format of `wl_shm` is its number, and so is a fourcc, a modifier and a device.
pub record SessionCaps : Type 0 where
  pub buffer_size : Option (ℕ × ℕ)
  pub shm_formats : List ℕ
  pub dmabuf_formats : List (ℕ × List ℕ)
  pub dmabuf_device : Option ℕ

abbrev pub no_caps : SessionCaps
no_caps = record { buffer_size = none; shm_formats = []; dmabuf_formats = []; dmabuf_device = none }

-- `FailureReason`.
pub data FailureReason : Type 0 where
  unknown buffer_constraints session_stop : FailureReason

-- The outputs are known by their index; a name is empty until it is announced.
pub record State : Type 0 where
  pub outputs : List Text
  pub caps : SessionCaps
  pub session_done : Bool
  pub caps_consumed : Bool
  pub session_stopped : Bool
  pub frame_ready : Bool
  pub frame_failed : Option FailureReason
  pub frame_failed_raw : Option ℕ
  pub presentation_ns : Option ℕ

abbrev pub default_state : State
default_state = record {
  outputs = [];
  caps = no_caps;
  session_done = false;
  caps_consumed = false;
  session_stopped = false;
  frame_ready = false;
  frame_failed = none;
  frame_failed_raw = none;
  presentation_ns = none;
}

-- The events of the outputs, of the capture session and of the frame. A `wl_shm` format that the
-- client does not know arrives as `none`; `other` is any event that is not looked at.
pub data Event : Type 0 where
  output_name : ℕ → Text → Event
  buffer_size_event : ℕ → ℕ → Event
  shm_format : Option ℕ → Event
  dmabuf_device_event : List ℕ → Event
  dmabuf_format : ℕ → List ℕ → Event
  done stopped : Event
  presentation_time : ℕ → ℕ → ℕ → Event
  ready : Event
  failed : FailureReason → Event
  failed_raw : ℕ → Event
  other : Event

-- `u64::from_ne_bytes` on a little-endian host.
unfoldable pub from_ne_bytes : List ℕ → ℕ
from_ne_bytes [] = 0
from_ne_bytes (b ∷ bs) = b + 256 * from_ne_bytes bs

-- `chunks_exact(8)`, each read as a number; bytes that do not fill a chunk are left out.
unfoldable pub words : List ℕ → List ℕ
words (b0 ∷ b1 ∷ b2 ∷ b3 ∷ b4 ∷ b5 ∷ b6 ∷ b7 ∷ rest) =
    from_ne_bytes (b0 ∷ b1 ∷ b2 ∷ b3 ∷ b4 ∷ b5 ∷ b6 ∷ b7 ∷ []) ∷ words rest
words _ = []

unfoldable pub begin_generation : State → State
begin_generation s =
    if s.caps_consumed
    then record s { caps = no_caps; caps_consumed = false; session_done = false }
    else s

abbrev pub add_shm_format : Option ℕ → SessionCaps → SessionCaps
add_shm_format none c = c
add_shm_format (some f) c = record c { shm_formats = c.shm_formats ++ (f ∷ []) }

abbrev pub set_device : List ℕ → SessionCaps → SessionCaps
set_device device c =
    if leb 8 (length device)
    then record c { dmabuf_device = some (from_ne_bytes (take 8 device)) }
    else c

abbrev pub with_caps : (SessionCaps → SessionCaps) → State → State
with_caps f s = record s { caps = f s.caps }

abbrev pub rename : ℕ → Text → List Text → List Text
rename i name [] = []
rename zero name (n ∷ ns) = name ∷ ns
rename (suc i) name (n ∷ ns) = n ∷ rename i name ns

-- The `Dispatch` implementations; the sum of seconds and nanoseconds is a u64.
unfoldable pub on_event : Event → State → State
unfolding begin_generation
on_event (output_name index name) s = record s { outputs = rename index name s.outputs }
on_event (buffer_size_event width height) s =
    with_caps (λ c. record c { buffer_size = some (width, height) }) (begin_generation s)
on_event (shm_format format) s = with_caps (add_shm_format format) (begin_generation s)
on_event (dmabuf_device_event device) s = with_caps (set_device device) (begin_generation s)
on_event (dmabuf_format format modifiers) s =
    with_caps
      (λ c. record c { dmabuf_formats = c.dmabuf_formats ++ ((format, words modifiers) ∷ []) })
      (begin_generation s)
on_event done s = record s { session_done = true }
on_event stopped s = record s { session_stopped = true }
on_event (presentation_time hi lo nsec) s = record s {
  presentation_ns = some (((hi * 4294967296 + lo) * 1_000_000_000 + nsec) % 18446744073709551616);
}
on_event ready s = record s { frame_ready = true }
on_event (failed reason) s = record s { frame_failed = some reason }
on_event (failed_raw raw) s = record s { frame_failed_raw = some raw }
on_event other s = s

-- The events of one dispatch, in order.
unfoldable pub on_events : List Event → State → State
on_events [] s = s
on_events (e ∷ es) s = on_events es (on_event e s)
