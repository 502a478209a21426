-- ===== src/Protocol/Headers.antt =====
-- crates/protocol/src/lib.rs: constants, `Codec`, `StreamHeader` and `FrameHeader`.
pub mod RoundTrip
use moreland_kde.Base.{
  ℕ, ◌+◌, ◌≡◌, Bool, true, false, List, [], ◌∷◌, ◌++◌, ltb, ◌==◌, if◌then◌else◌, length, replicate,
  bit_and, bit_or, not,
}
use moreland_kde.Base.Result.{Result, ok, err, ◌>>=◌, ◌>>◌, guard}
use moreland_kde.Protocol.Bytes.{
  to_be_bytes, from_be_bytes, write_at, index, slice, bytes_eq, IsU16, IsU32, IsU64,
}

-- `b"MRLD"`
abbrev pub magic : List ℕ
magic = b'M' ∷ b'R' ∷ b'L' ∷ b'D' ∷ []

abbrev pub version : ℕ
version = 3

abbrev pub stream_header_len : ℕ
stream_header_len = 16

abbrev pub frame_header_len : ℕ
frame_header_len = 16

abbrev pub base_port : ℕ
base_port = 27183

abbrev pub default_port : ℕ
default_port = base_port

abbrev pub port_range : ℕ
port_range = 100

-- The `bail!`s of the decoders; `out_of_bounds` is the panic of an index that is out of range.
pub data DecodeError : Type 0 where
  too_short : ℕ → DecodeError
  bad_magic : List ℕ → DecodeError
  unsupported_version : ℕ → DecodeError
  unknown_codec : ℕ → DecodeError
  out_of_bounds : DecodeError

pub data Codec : Type 0 where
  h264 h265 : Codec

-- `self as u8`
unfoldable pub codec_to_u8 : Codec → ℕ
codec_to_u8 h264 = 0
codec_to_u8 h265 = 1

unfoldable pub codec_from_u8 : ℕ → Result DecodeError Codec
codec_from_u8 v = if v == 0 then ok h264 else if v == 1 then ok h265 else err (unknown_codec v)

-- The fields are u16.
pub record StreamHeader : Type 0 where
  pub width : ℕ
  pub height : ℕ
  pub framerate : ℕ
  pub codec : Codec

abbrev pub StreamHeaderFits : StreamHeader → Type 0
StreamHeaderFits h = IsU16 h.width × IsU16 h.height × IsU16 h.framerate

unfoldable pub encode_stream_header : StreamHeader → List ℕ
unfolding codec_to_u8
encode_stream_header h =
    let buf = replicate stream_header_len 0 in
    let buf = write_at buf 0 magic in
    let buf = write_at buf 4 (to_be_bytes 2 version) in
    let buf = write_at buf 6 (to_be_bytes 2 h.width) in
    let buf = write_at buf 8 (to_be_bytes 2 h.height) in
    let buf = write_at buf 10 (to_be_bytes 2 h.framerate) in
    write_at buf 12 (codec_to_u8 h.codec ∷ [])

-- `u16::from_be_bytes([buf[i], buf[i + 1]])`
abbrev pub read_u16 : List ℕ → ℕ → Result DecodeError ℕ
read_u16 buf i = do
  hi ← index out_of_bounds buf i
  lo ← index out_of_bounds buf (i + 1)
  ok (from_be_bytes (hi ∷ lo ∷ []))

unfoldable pub decode_stream_header : List ℕ → Result DecodeError StreamHeader
unfolding codec_from_u8
decode_stream_header buf = do
  guard (not (ltb (length buf) stream_header_len)) (too_short (length buf))
  found ← slice out_of_bounds buf 0 4
  guard (bytes_eq found magic) (bad_magic found)
  v ← read_u16 buf 4
  guard (v == version) (unsupported_version v)
  w ← read_u16 buf 6
  h ← read_u16 buf 8
  f ← read_u16 buf 10
  id ← index out_of_bounds buf 12
  c ← codec_from_u8 id
  ok (record { width = w; height = h; framerate = f; codec = c })

abbrev pub flag_keyframe : ℕ
flag_keyframe = 1

abbrev pub flag_control : ℕ
flag_control = 2

-- `length` is u32 and `pts_ns` u64.
pub record FrameHeader : Type 0 where
  pub length : ℕ
  pub pts_ns : ℕ
  pub keyframe : Bool
  pub control : Bool

abbrev pub FrameHeaderFits : FrameHeader → Type 0
FrameHeaderFits h = IsU32 h.length × IsU64 h.pts_ns

unfoldable pub frame_flags : FrameHeader → ℕ
frame_flags h =
    let flags : ℕ = 0 in
    let flags = if h.keyframe then bit_or flags flag_keyframe else flags in
    if h.control then bit_or flags flag_control else flags

unfoldable pub encode_frame_header : FrameHeader → List ℕ
unfolding frame_flags
encode_frame_header h =
    let buf = replicate frame_header_len 0 in
    let buf = write_at buf 0 (to_be_bytes 4 h.length) in
    let buf = write_at buf 4 (to_be_bytes 8 h.pts_ns) in write_at buf 12 (frame_flags h ∷ [])

unfoldable pub decode_frame_header : List ℕ → Result DecodeError FrameHeader
decode_frame_header buf = do
  guard (not (ltb (length buf) frame_header_len)) (too_short (length buf))
  flags ← index out_of_bounds buf 12
  len ← slice out_of_bounds buf 0 4
  pts ← slice out_of_bounds buf 4 12
  ok (record {
    length = from_be_bytes len;
    pts_ns = from_be_bytes pts;
    keyframe = not (bit_and flags flag_keyframe == 0);
    control = not (bit_and flags flag_control == 0);
  })
