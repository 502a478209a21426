-- ===== src/Transport/Sender.antt =====
-- crates/transport/src/lib.rs: `Sender`, which writes the stream header, then frames and controls.
pub mod Laws
pub mod Stream
pub mod Progress
use moreland_kde.Base.{
  ℕ, zero, suc, ◌+◌, ◌-◌, ◌*◌, ◌/◌, ◌%◌, ◌^◌, ◌≤◌, ◌<◌, min, max, bit_and, bit_or, ◌≡◌, refl, sym,
  ap, subst, ◌∙◌, ◌≢◌, ◌↔◌, ◌⊎◌, inl, inr, Bool, true, false, not, ◌&&◌, ◌||◌, Option, none, some,
  List, [], ◌∷◌, ◌++◌, map, arith, ltb, leb, ◌==◌, if◌then◌else◌, ltb→lt, lt→ltb, leb→le, le→leb,
  ==_iff, ==_refl, tests, Bool-cases, Option-cases, length, get_elem?, take, drop, replicate,
  keep_if, any, find_first, flatten, All, length-append, take-append-drop, length-take, length-drop,
  length-replicate, take_all, drop_all, All-append,
}
use moreland_kde.Base.Result.{Result, ok, err, ◌>>=◌, ◌>>◌, guard, >>=-eq-ok}
use moreland_kde.Protocol.Headers.{
  StreamHeader, encode_stream_header, FrameHeader, encode_frame_header, h264, frame_header_len,
}
use moreland_kde.Protocol.Control.{ControlMessage, encode_control}
use moreland_kde.Transport.Socket.{Socket, WriteError, Outcome, write_all_vectored}

pub record Sender : Type 0 where
  pub stream : Socket
  pub frames_sent : ℕ
  pub bytes_sent : ℕ

pub data SenderError : Type 0 where
  connecting disabling_nagle setting_timeout : SenderError
  sending : WriteError → SenderError

-- The counters are u64.
abbrev pub u64_mod : ℕ
u64_mod = 18446744073709551616

abbrev pub u32_mod : ℕ
u32_mod = 4294967296

unfoldable pub stream_header : ℕ → ℕ → ℕ → StreamHeader
stream_header width height framerate = record {
  width = width % 65536;
  height = height % 65536;
  framerate = framerate % 65536;
  codec = h264;
}

-- Before the first write: whether the connection, `set_nodelay` and `set_write_timeout` succeed.
pub record Opening : Type 0 where
  pub connects : Bool
  pub nodelay : Bool
  pub timeout : Bool

-- The end of a send: the counters grow if the write succeeded; the socket moves on either way.
unfoldable pub account : Sender → ℕ → ℕ → Outcome → Result SenderError (Unit {0}) × Sender
account s frames bytes (ok u, stream) = (
  ok tt,
  record {
    stream = stream;
    frames_sent = (s.frames_sent + frames) % u64_mod;
    bytes_sent = (s.bytes_sent + bytes) % u64_mod;
  },
)
account s frames bytes (err e, stream) = (err (sending e), record s { stream = stream })

-- The end of `connect`.
unfoldable pub connected : ℕ → Outcome → Result SenderError Sender
connected n (ok u, stream) =
    ok (record { stream = stream; frames_sent = 0; bytes_sent = n % u64_mod })
connected n (err e, stream) = err (sending e)

module _ (accepts : ℕ → Option ℕ) where
  -- The standard library's `write_all`: the same loop over one buffer. A write that it retries after
  -- an interruption is no answer of the socket here.
  unfoldable pub write_all : List ℕ → Socket → Outcome
  write_all [] s = (ok tt, s)
  write_all (b ∷ bytes) s = write_all_vectored accepts (length (b ∷ bytes)) ((b ∷ bytes) ∷ []) s

  unfoldable pub connect : Opening → StreamHeader → Result SenderError Sender
  unfolding connected
  connect opening header = do
    guard opening.connects connecting
    guard opening.nodelay disabling_nagle
    guard opening.timeout setting_timeout
    let encoded = encode_stream_header header
    let stream : Socket = record { taken = []; calls = 0 }
    connected (length encoded) (write_all encoded stream)

  unfoldable pub send_frame : List ℕ → ℕ → Bool → Sender → Result SenderError (Unit {0}) × Sender
  send_frame payload pts_ns keyframe s =
      let header = encode_frame_header (record {
        length = length payload % u32_mod;
        pts_ns = pts_ns;
        keyframe = keyframe;
        control = false;
      }) in
      let slices = header ∷ payload ∷ [] in
      account s 1 (length header + length payload)
        (write_all_vectored accepts (length (flatten slices)) slices s.stream)

  -- The rest of `send_control` after the header's `write_all`; `flush` of a TCP stream does nothing.
  unfoldable pub after_header : List ℕ → Sender → Outcome → Result SenderError (Unit {0}) × Sender
  after_header payload s (ok u, stream) =
      account s 0 (frame_header_len + length payload) (write_all payload stream)
  after_header payload s (err e, stream) = (err (sending e), record s { stream = stream })

  unfoldable pub send_control : ControlMessage → Sender → Result SenderError (Unit {0}) × Sender
  send_control msg s =
      let payload = encode_control msg in
      let header = encode_frame_header (record {
        length = length payload % u32_mod;
        pts_ns = 0;
        keyframe = false;
        control = true;
      }) in
      after_header payload s (write_all header s.stream)
