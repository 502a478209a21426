-- ===== src/Encoder/Pipeline.antt =====
-- crates/encoder/src/lib.rs: the encoder's pipeline, what goes in and what comes out. The elements of
-- GStreamer are parameters; the properties that are set on them are left out, but for the caps.
pub mod Building
use moreland_kde.Base.{
  ℕ, zero, suc, ◌+◌, ◌-◌, ◌*◌, ◌/◌, ◌%◌, ◌^◌, ◌≤◌, ◌<◌, min, max, bit_and, bit_or, ◌≡◌, refl, sym,
  ap, subst, ◌∙◌, ◌≢◌, ◌↔◌, ◌⊎◌, inl, inr, Bool, true, false, not, ◌&&◌, ◌||◌, Option, none, some,
  List, [], ◌∷◌, ◌++◌, map, arith, ltb, leb, ◌==◌, if◌then◌else◌, ltb→lt, lt→ltb, leb→le, le→leb,
  ==_iff, ==_refl, tests, Bool-cases, Option-cases, length, get_elem?, take, drop, replicate,
  keep_if, any, find_first, flatten, All, length-append, take-append-drop, length-take, length-drop,
  length-replicate, take_all, drop_all, All-append,
}
use moreland_kde.Base.Result.{Result, ok, err, ◌>>=◌, ◌>>◌, guard, >>=-eq-ok, guard_passed}
use moreland_kde.Base.Text.{
  Text, text, text_eq, text_eq_iff, text_eq_refl, is_whitespace, is_digit, is_upper, is_lower,
  is_ascii_alphanumeric, lower_char, to_ascii_lowercase, is_empty, starts_with, contains,
  strip_prefix, trim_start, trim_end, trim, push_front, starts_newline, lines, starts_word,
  split_whitespace, split_once, until, second_piece, parse_digits, parse_nonempty, parse_unsigned,
  u8_max, u16_max, u32_max,
}
use moreland_kde.Encoder.Modifiers.{Registry, fourcc_name}

pub data Backend : Type 0 where
  vaapi nvenc_gl : Backend

unfoldable pub nvidia_driver_present : Registry → Bool
nvidia_driver_present g = g.nvidia_version_file

unfoldable pub select_backend : Registry → Backend
select_backend g = if nvidia_driver_present g && g.nvh264enc then nvenc_gl else vaapi

pub record EncoderConfig : Type 0 where
  pub width : ℕ
  pub height : ℕ
  pub framerate : ℕ
  pub bitrate_kbps : ℕ
  pub fourcc : ℕ
  pub modifier : ℕ
  pub keyframe_interval : ℕ
  pub target_usage : ℕ
  pub rate_control : Text
  pub cabac : Bool
  pub num_slices : ℕ

abbrev pub default_config : EncoderConfig
default_config = record {
  width = 1920;
  height = 1200;
  framerate = 60;
  bitrate_kbps = 20_000;
  fourcc = 0x34325258;
  modifier = 0x0200000000000901;
  keyframe_interval = 600;
  target_usage = 3;
  rate_control = text "vbr";
  cabac = true;
  num_slices = 1;
}

abbrev pub hex_digit : ℕ → ℕ
hex_digit n = if ltb n 10 then b'0' + n else b'a' + (n - 10)

-- `count` hexadecimal digits, the last ones of the number.
abbrev pub hex_text : ℕ → ℕ → Text → Text
hex_text zero n acc = acc
hex_text (suc count) n acc = hex_text count (n / 16) (hex_digit (n % 16) ∷ acc)

-- The `drm-format` of the caps; a modifier is a u64, so that sixteen digits hold it.
unfoldable pub drm_format : (List ℕ → Text) → EncoderConfig → Text
drm_format lossy c = fourcc_name lossy c.fourcc ++ text ":0x" ++ hex_text 16 c.modifier []

pub data EncoderError : Type 0 where
  not_initialised : EncoderError
  not_created : Text → EncoderError
  not_added not_linked not_started : EncoderError
  not_duplicated not_wrapped no_meta not_pushed : EncoderError
  no_buffer not_mapped : EncoderError
  pipeline_error : Text → EncoderError

-- What GStreamer does with a pipeline: which elements it makes, and whether they are added, linked
-- and started.
pub record Plugins : Type 0 where
  pub makes : Text → Bool
  pub adds : Bool
  pub links : Bool
  pub starts : Bool

-- `gst::ElementFactory::make(..)..build().context(..)?`; of the context, the factory is kept.
unfoldable pub make : Plugins → Text → Result EncoderError Text
make k factory = guard (k.makes factory) (not_created factory) >> ok factory

-- The `match backend`: the elements that are made there, in the order of `elements.extend`.
unfoldable pub make_vaapi : Plugins → Result EncoderError (List Text)
make_vaapi k = do
  postproc ← make k (text "vapostproc")
  capsfilter ← make k (text "capsfilter")
  encoder ← make k (text "vah264enc")
  ok (postproc ∷ capsfilter ∷ encoder ∷ [])

unfoldable pub make_nvenc_gl : Plugins → Result EncoderError (List Text)
make_nvenc_gl k = do
  upload ← make k (text "glupload")
  convert ← make k (text "glcolorconvert")
  download ← make k (text "gldownload")
  capsfilter ← make k (text "capsfilter")
  encoder ← make k (text "nvh264enc")
  ok (upload ∷ convert ∷ download ∷ capsfilter ∷ encoder ∷ [])

unfoldable pub make_backend : Plugins → Backend → Result EncoderError (List Text)
make_backend k vaapi = make_vaapi k
make_backend k nvenc_gl = make_nvenc_gl k

-- `Encoder`: the elements as linked, and the size of a frame in bytes.
pub record Encoder : Type 0 where
  pub elements : List Text
  pub frame_size : ℕ
  pub width : ℕ
  pub height : ℕ

unfoldable pub new : Registry → Plugins → EncoderConfig → Result EncoderError Encoder
new g k c = do
  guard g.initialises not_initialised
  appsrc ← make k (text "appsrc")
  between ← make_backend k (select_backend g)
  parser ← make k (text "h264parse")
  parsed_filter ← make k (text "capsfilter")
  appsink ← make k (text "appsink")
  let elements = (appsrc ∷ []) ++ (between ++ (parser ∷ parsed_filter ∷ appsink ∷ []))
  guard k.adds not_added
  guard k.links not_linked
  guard k.starts not_started
  ok (record {
    elements = elements;
    frame_size = c.width * c.height * 4;
    width = c.width;
    height = c.height;
  })

-- The buffer that `push_frame` hands over: the memory behind a duplicated fd, and its meta data.
pub record Buffer : Type 0 where
  pub fd : ℕ
  pub bytes : ℕ
  pub width : ℕ
  pub height : ℕ
  pub offset : ℕ
  pub stride : ℕ
  pub pts_ns : ℕ

-- What happens to a frame that is pushed: the duplicated fd, if there is one, and whether it is
-- wrapped, described and accepted.
pub record Pushing : Type 0 where
  pub duplicate : Option ℕ
  pub wraps : Bool
  pub adds_meta : Bool
  pub accepts : Bool

abbrev pub duplicated : Option ℕ → Result EncoderError ℕ
duplicated none = err not_duplicated
duplicated (some fd) = ok fd

unfoldable pub push_frame : Encoder → Pushing → ℕ → ℕ → ℕ → Result EncoderError Buffer
push_frame e p offset stride pts_ns = duplicated p.duplicate >>= λ fd.
    guard p.wraps not_wrapped
    >> guard p.adds_meta no_meta
    >> guard p.accepts not_pushed
    >> ok (record {
      fd = fd;
      bytes = e.frame_size;
      width = e.width;
      height = e.height;
      offset = offset;
      stride = stride;
      pts_ns = pts_ns;
    })

-- A message of the bus is an error with its text, or another.
abbrev pub Message : Type 0
Message = Option Text

-- The messages are taken off the bus up to the first error; the rest stay.
unfoldable pub check_bus :
    Option (List Message) → Result EncoderError (Unit {0}) × Option (List Message)
check_bus none = (ok tt, none)
check_bus (some []) = (ok tt, some [])
check_bus (some (none ∷ ms)) = check_bus (some ms)
check_bus (some (some e ∷ ms)) = (err (pipeline_error e), some ms)

-- `EncodedPacket`
pub record EncodedPacket : Type 0 where
  pub data_bytes : List ℕ
  pub pts_ns : ℕ
  pub keyframe : Bool

-- A sample that is pulled: its buffer, if it carries one, with what is mapped, the time stamp and
-- whether it is a delta unit.
pub record SampleBuffer : Type 0 where
  pub mapped : Option (List ℕ)
  pub pts : Option ℕ
  pub delta_unit : Bool

abbrev pub or_zero : Option ℕ → ℕ
or_zero none = 0
or_zero (some n) = n

abbrev pub packet_of :
    Option ℕ → Bool → Option (List ℕ) → Result EncoderError (Option EncodedPacket)
packet_of pts delta none = err not_mapped
packet_of pts delta (some bytes) =
    ok (some (record { data_bytes = bytes; pts_ns = or_zero pts; keyframe = not delta }))

abbrev pub nothing_yet :
    Result EncoderError (Unit {0}) × Option (List Message)
    → Result EncoderError (Option EncodedPacket) × Option (List Message)
nothing_yet (ok u, bus) = (ok none, bus)
nothing_yet (err e, bus) = (err e, bus)

-- Without a sample in time the bus is looked at.
unfoldable pub pull_packet :
    Option (Option SampleBuffer)
    → Option (List Message)
    → Result EncoderError (Option EncodedPacket) × Option (List Message)
pull_packet none bus = nothing_yet (check_bus bus)
pull_packet (some none) bus = (err no_buffer, bus)
pull_packet (some (some b)) bus = (packet_of b.pts b.delta_unit b.mapped, bus)
