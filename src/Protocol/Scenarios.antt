-- ===== src/Protocol/Scenarios.antt =====
-- Concrete headers and messages of crates/protocol/src/lib.rs, and the theorems applied to them.
use moreland_kde.Base.{ℕ, ◌≡◌, refl, true, false, List, [], ◌∷◌, ◌++◌, arith, All}
use moreland_kde.Base.Result.{ok}
use moreland_kde.Protocol.Bytes.{IsByte}
use moreland_kde.Protocol.Headers.{
  StreamHeader, FrameHeader, h264, encode_stream_header, decode_stream_header, decode_frame_header,
}
use moreland_kde.Protocol.Control.{ControlMessage, rotation_kind, rotation}
use moreland_kde.Protocol.Reverse.{ReverseMessage, ack, touch, move, decode_reverse_message}
use moreland_kde.Protocol.Reverse.Laws.{encode_reverse, decode-encode_reverse}

abbrev tablet : StreamHeader
tablet = record { width = 1920; height = 1200; framerate = 90; codec = h264 }

-- The header of a 1920x1200 stream at 90 frames a second.
abbrev tablet_bytes : List ℕ
tablet_bytes = 0x4d ∷ 0x52 ∷ 0x4c ∷ 0x44 ∷ 0 ∷ 3 ∷ 7 ∷ 128 ∷ 4 ∷ 176 ∷ 0 ∷ 90 ∷ 0 ∷ 0 ∷ 0 ∷ 0 ∷ []

tablet_bytes_encode : encode_stream_header tablet ≡ tablet_bytes
unfolding encode_stream_header
tablet_bytes_encode = refl

tablet_bytes_decode : decode_stream_header tablet_bytes ≡ ok tablet
unfolding decode_stream_header
tablet_bytes_decode = refl

abbrev keyframe : FrameHeader
keyframe = record { length = 70000; pts_ns = 16666666; keyframe = true; control = false }

abbrev keyframe_bytes : List ℕ
keyframe_bytes = 0 ∷ 1 ∷ 17 ∷ 112 ∷ 0 ∷ 0 ∷ 0 ∷ 0 ∷ 0 ∷ 254 ∷ 80 ∷ 42 ∷ 5 ∷ 0 ∷ 0 ∷ 0 ∷ []

keyframe_bytes_decode : decode_frame_header keyframe_bytes ≡ ok keyframe
unfolding decode_frame_header
keyframe_bytes_decode = refl

keyframe_bytes-IsByte : All IsByte keyframe_bytes
keyframe_bytes-IsByte = ground arith

abbrev portrait : ControlMessage
portrait = record { kind = rotation_kind; value = 1 }

portrait_rotation : rotation 90 ≡ ok portrait
unfolding rotation
portrait_rotation = refl

abbrev angle : ℕ
angle = 45

abbrev swipe : ReverseMessage
swipe = touch (record { action = move; x = 32000; y = 500 })

abbrev ack_bytes : List ℕ
ack_bytes = 1 ∷ 0 ∷ 0 ∷ 0 ∷ 0 ∷ 0 ∷ 0 ∷ 3 ∷ 232 ∷ []

ack_bytes_decode : decode_reverse_message ack_bytes ≡ ok (ack 1000)
unfolding decode_reverse_message
ack_bytes_decode = refl

decode-encode_reverse_example : decode_reverse_message (encode_reverse swipe ++ []) ≡ ok swipe
decode-encode_reverse_example = decode-encode_reverse swipe [] (omega arith, omega arith)
