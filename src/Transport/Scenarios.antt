-- ===== src/Transport/Scenarios.antt =====
-- Concrete runs of crates/transport/src, and the theorems applied to them.
use moreland_kde.Base.{
  ℕ, ◌+◌, ◌*◌, ◌%◌, ◌≤◌, ◌<◌, min, ◌≡◌, refl, true, false, Option, some, List, [], ◌∷◌, arith,
  length, drop, flatten,
}
use moreland_kde.Base.Result.{ok}
use moreland_kde.Base.Text.{Text, text, is_whitespace}
use moreland_kde.Protocol.Headers.{
  StreamHeader, StreamHeaderFits, decode_stream_header, stream_header_len, h264,
}
use moreland_kde.Protocol.Control.{ControlMessage, brightness_kind}
use moreland_kde.Transport.Socket.{Socket, write_all_vectored}
use moreland_kde.Transport.Socket.Laws.{Writes, write_all_vectored-Writes}
use moreland_kde.Transport.Sender.{Sender, Opening, connect, u64_mod}
use moreland_kde.Transport.Sender.Laws.{Sent, video, control, read_units, units}
use moreland_kde.Transport.Sender.Stream.{send_all, videos, session_on_wire}
use moreland_kde.Transport.Sender.Progress.{session_succeeds}
use moreland_kde.Transport.Adb.{stream_resolution, display_size, parse_size}
use moreland_kde.Transport.Adb.Laws.{stream_resolution_aspect}

-- A socket that takes up to ten bytes at each call.
abbrev trickle : ℕ → Option ℕ
trickle call = some 10

abbrev fresh_socket : Socket
fresh_socket = record { taken = []; calls = 0 }

abbrev three_slices : List (List ℕ)
three_slices = (1 ∷ 2 ∷ 3 ∷ []) ∷ [] ∷ (4 ∷ 5 ∷ 6 ∷ 7 ∷ 8 ∷ 9 ∷ 10 ∷ 11 ∷ 12 ∷ []) ∷ []

three_slices_arrive :
    (write_all_vectored trickle 12 three_slices fresh_socket).1.taken ≡ flatten three_slices
unfolding write_all_vectored moreland_kde.Transport.Socket.after_write
    moreland_kde.Transport.Socket.write_vectored moreland_kde.Transport.Socket.advance_slices
three_slices_arrive = refl

write_all_vectored-Writes_example :
    Writes
      (flatten three_slices)
      fresh_socket
      (write_all_vectored trickle 12 three_slices fresh_socket)
write_all_vectored-Writes_example =
    write_all_vectored-Writes trickle 12 three_slices fresh_socket (omega arith) (omega arith)

abbrev opening : Opening
opening = record { connects = true; nodelay = true; timeout = true }

abbrev tablet : StreamHeader
tablet = record { width = 1920; height = 1200; framerate = 90; codec = h264 }

abbrev dimmed : ControlMessage
dimmed = record { kind = brightness_kind; value = 40 }

abbrev session : List Sent
session = video (1 ∷ 2 ∷ 3 ∷ []) 1000 true ∷ control dimmed ∷ video (4 ∷ []) 2000 false ∷ []

session_succeeds_example :
    (s : Sender) × (connect trickle opening tablet ≡ ok s)
    × ((send_all trickle session s).0 ≡ ok tt)
session_succeeds_example =
    session_succeeds trickle (λ n. (9, refl)) opening tablet session refl refl refl

abbrev opened : Sender
opened = record {
  stream = record {
    taken = 0x4d ∷ 0x52 ∷ 0x4c ∷ 0x44 ∷ 0 ∷ 3 ∷ 7 ∷ 128 ∷ 4 ∷ 176 ∷ 0 ∷ 90 ∷ 0 ∷ 0 ∷ 0 ∷ 0 ∷ [];
    calls = 2;
  };
  frames_sent = 0;
  bytes_sent = 16;
}

session_opens : connect trickle opening tablet ≡ ok opened
unfolding connect moreland_kde.Transport.Sender.write_all
    moreland_kde.Protocol.Headers.encode_stream_header write_all_vectored
    moreland_kde.Transport.Socket.after_write moreland_kde.Transport.Socket.write_vectored
    moreland_kde.Transport.Socket.advance_slices
session_opens = refl

abbrev closed : Sender
closed = (send_all trickle session opened).1

session_goes : send_all trickle session opened ≡ (ok tt, closed)
unfolding send_all moreland_kde.Transport.Sender.Stream.and_then
    moreland_kde.Transport.Sender.Stream.send moreland_kde.Transport.Sender.send_frame
    moreland_kde.Transport.Sender.account write_all_vectored
    moreland_kde.Protocol.Headers.encode_frame_header moreland_kde.Transport.Socket.after_write
    moreland_kde.Transport.Socket.write_vectored moreland_kde.Transport.Socket.advance_slices
    moreland_kde.Transport.Sender.send_control moreland_kde.Transport.Sender.after_header
    moreland_kde.Transport.Sender.write_all moreland_kde.Protocol.Control.encode_control
session_goes = refl

session_on_wire_example :
    (decode_stream_header closed.stream.taken ≡ ok tablet)
    × (read_units 3 (drop stream_header_len closed.stream.taken) ≡ some (units session))
    × (closed.bytes_sent ≡ length closed.stream.taken % u64_mod)
    × (closed.frames_sent ≡ videos session % u64_mod)
session_on_wire_example =
    session_on_wire trickle opening tablet session opened closed
      (omega arith, omega arith, omega arith)
      ((omega arith, omega arith), (tt, ((omega arith, omega arith), tt))) session_opens
      session_goes

panel_resolution : stream_resolution (2800, 1752) 1920 ≡ ok (1920, 1200)
unfolding stream_resolution
panel_resolution = refl

stream_resolution_aspect_example :
    (1920 ≤ min 2800 1920)
    × (min 2800 1920 ≤ 1920 + 1)
    × (1200 * 2800 ≤ min 2800 1920 * 1752)
    × (min 2800 1920 * 1752 < (1200 + 2) * 2800)
stream_resolution_aspect_example =
    stream_resolution_aspect 2800 1752 1920 (omega arith) (omega arith) (omega arith) (omega arith)
      1920 1200 panel_resolution

abbrev wm_size : Text
wm_size = text "Physical size: 1752x2800\n"

wm_size_parsed : display_size wm_size ≡ ok (2800, 1752)
unfolding display_size parse_size is_whitespace
wm_size_parsed = refl
