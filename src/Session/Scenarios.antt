-- ===== src/Session/Scenarios.antt =====
-- Concrete runs of crates/daemon/src/session.rs, and the theorems applied to them.
use moreland_kde.Base.{
  ◌+◌, Bool, true, false, Option, ◌++◌, drop, ◌≢◌, ◌⊎◌, ◌≤◌, ◌%◌, ℕ, ◌≡◌, refl, none, some, List,
  [], ◌∷◌, arith,
}
use moreland_kde.Protocol.Reverse.{TouchMessage, down}
use moreland_kde.Base.Text.{Text, text}
use moreland_kde.Base.Result.{Result, ok, err}
use moreland_kde.Protocol.Control.{ControlMessage, rotation_kind}
use moreland_kde.Transport.Adb.{display_size}
use moreland_kde.Protocol.Headers.{decode_stream_header, stream_header_len}
use moreland_kde.Transport.Sender.{Sender, SenderError, Opening, stream_header}
use moreland_kde.Transport.Sender.Laws.{Sent, video, read_units, units}
use moreland_kde.Transport.Sender.Stream.{send_all}
use moreland_kde.Session.Configuring.{open_stream, controls, open_stream-controls_first}
use moreland_kde.Session.Threads.{
  initial, send_error, drained, closed as gone, packet, no_packet, acknowledgement, no_connection,
  Turn, shutdown_requested, of_capture, of_drain, of_reader, turn, turns,
}
use moreland_kde.Session.Threads.Accounts.{Inv, turns-Inv}
use moreland_kde.Session.Threads.Ends.{is_returned, turn-is_returned}
use moreland_kde.Session.Statistics.{RoundTrip, quantiles, report}
use moreland_kde.Session.Statistics.Order.{report-ordered}
use moreland_kde.Session.Geometry.{start_size}
use moreland_kde.Session.Geometry.Orientation.{start_size_orientation}
use moreland_kde.Session.Reader.{Shared, Event, closed, got, retry, frame_sent, start, run}
use moreland_kde.Session.Reader.Framing.{deliver, reads, stream, run-deliver}
use moreland_kde.Session.Reader.Fifo.{run_fifo}

abbrev waiting : Shared
waiting = record { sent_at = 100 ∷ 200 ∷ []; round_trips = []; input_tx = some []; warnings = [] }

-- An ack and a touch, split in the middle of the ack.
abbrev chunks : List (ℕ × List ℕ)
chunks =
    (1000, 1 ∷ 0 ∷ 0 ∷ [])
    ∷ (1100, 0 ∷ 0 ∷ 0 ∷ 0 ∷ 3 ∷ 232 ∷ [])
    ∷ (1200, 2 ∷ 0 ∷ 0 ∷ 1 ∷ 2 ∷ 3 ∷ 4 ∷ 0 ∷ 0 ∷ [])
    ∷ []

run-deliver_example : (run (start waiting) (reads chunks)).shared ≡ deliver (stream chunks) waiting
run-deliver_example =
    run-deliver chunks waiting
      (omega arith, omega arith, (omega arith, omega arith, (omega arith, omega arith, tt)))

one_trip : (run (start waiting) (reads chunks)).shared.round_trips ≡ 1000 ∷ []
unfolding run moreland_kde.Session.Reader.step start
    moreland_kde.Protocol.Reverse.decode_reverse_message
one_trip = refl

abbrev nothing_sent : Shared
nothing_sent = record { sent_at = []; round_trips = []; input_tx = none; warnings = [] }

abbrev two_frames : List Event
two_frames =
    frame_sent 10
    ∷ frame_sent 30
    ∷ got 50 (1 ∷ 0 ∷ 0 ∷ [])
    ∷ retry
    ∷ got 75 (0 ∷ 0 ∷ 0 ∷ 0 ∷ 3 ∷ 232 ∷ [])
    ∷ closed
    ∷ []

run_fifo_example :
    ((run (start nothing_sent) two_frames).shared.round_trips ≡ 65 ∷ [])
    × ((run (start nothing_sent) two_frames).shared.sent_at ≡ 30 ∷ [])
unfolding moreland_kde.Protocol.Reverse.decode_reverse_message
run_fifo_example =
    run_fifo two_frames nothing_sent (omega arith, omega arith, (omega arith, omega arith, tt)) refl
      refl

three_trips :
    report (30 ∷ 10 ∷ 20 ∷ [])
    ≡ ok (some (record { min_trip = 10; median = 20; p95 = 30; max_trip = 30 }))
unfolding report quantiles
three_trips = refl

report-ordered_example :
    (q : RoundTrip) × (report (30 ∷ 10 ∷ 20 ∷ []) ≡ ok (some q))
    × (q.min_trip ≤ q.median)
    × (q.median ≤ q.p95)
    × (q.p95 ≤ q.max_trip)
report-ordered_example = report-ordered 30 (10 ∷ 20 ∷ [])

abbrev wm_size : Text
wm_size = text "Physical size: 1752x2800\n"

abbrev portrait : ControlMessage
portrait = record { kind = rotation_kind; value = 1 }

wm_size_parsed : display_size wm_size ≡ ok (2800, 1752)
unfolding display_size moreland_kde.Transport.Adb.parse_size moreland_kde.Base.Text.is_whitespace
wm_size_parsed = refl

portrait_start : start_size none 90 1920 wm_size ≡ ok (portrait, (1200, 1920))
unfolding start_size moreland_kde.Protocol.Control.rotation
    moreland_kde.Session.Geometry.landscape_size display_size moreland_kde.Transport.Adb.parse_size
    moreland_kde.Base.Text.is_whitespace moreland_kde.Transport.Adb.stream_resolution
    moreland_kde.Session.Geometry.rotate
portrait_start = refl

abbrev quarter : ℕ
quarter = 90

start_size_orientation_example :
    (1200 % 2 ≡ 0)
    × (1920 % 2 ≡ 0)
    × (2 ≤ 1200)
    × (2 ≤ 1920)
    × ((quarter ≡ 90) ⊎ (quarter ≡ 270) → 1200 ≤ 1920)
    × (quarter ≢ 90 → quarter ≢ 270 → 1920 ≤ 1200)
start_size_orientation_example =
    start_size_orientation 90 1920 2800 1752 wm_size portrait 1200 1920 wm_size_parsed (omega arith)
      (omega arith) (omega arith) portrait_start

-- The app disconnects: the packet is lost and the connection closed, and the capture loop goes on.
abbrev disconnecting : List Turn
disconnecting =
    of_drain no_packet true
    ∷ of_capture true
    ∷ of_drain packet true
    ∷ of_drain packet true
    ∷ of_reader no_connection
    ∷ of_drain packet false
    ∷ of_reader no_connection
    ∷ of_capture true
    ∷ of_capture true
    ∷ []

capture_goes_on :
    turns disconnecting initial
    ≡ record initial { drain = drained send_error; reader = gone; index = 1; waiting = 1 }
unfolding turns turn moreland_kde.Session.Threads.capture_turn
    moreland_kde.Session.Threads.drain_turn moreland_kde.Session.Threads.reader_turn
capture_goes_on = refl

turns-Inv_example : Inv (turns disconnecting initial)
turns-Inv_example = turns-Inv disconnecting

-- The shutdown is requested behind the test, so that one more frame comes.
abbrev late : List Turn
late = of_drain packet true ∷ of_capture true ∷ shutdown_requested ∷ []

abbrev four_captures : List Turn
four_captures = of_capture true ∷ of_capture true ∷ of_capture true ∷ of_capture true ∷ []

abbrev others : List Turn
others =
    of_drain packet true
    ∷ of_reader acknowledgement
    ∷ of_drain packet true
    ∷ of_reader acknowledgement
    ∷ of_drain packet true
    ∷ of_drain packet true
    ∷ of_reader acknowledgement
    ∷ []

late_shutdown : (turns late initial).shutdown ≡ true
unfolding turns turn moreland_kde.Session.Threads.capture_turn
    moreland_kde.Session.Threads.drain_turn
late_shutdown = refl

turn-is_returned_example :
    let t = turns late initial in
    let u = turns four_captures t in
    let v = turns others u in
    (is_returned (turn (of_capture true) v).capture ≡ true)
    × (u.running ≡ false)
    × (v.index ≤ t.index + 1)
    × (v.packets ≤ u.packets + 1)
turn-is_returned_example =
    turn-is_returned late four_captures others true late_shutdown (omega arith) (omega arith)
      (omega arith)

-- A socket that takes up to ten bytes at each call.
abbrev trickle : ℕ → Option ℕ
trickle call = some 10

abbrev opening : Opening
opening = record { connects = true; nodelay = true; timeout = true }

abbrev turned : ControlMessage
turned = record { kind = rotation_kind; value = 1 }

abbrev first_frames : List Sent
first_frames = video (1 ∷ 2 ∷ 3 ∷ []) 0 true ∷ video (4 ∷ []) 11_111_111 false ∷ []

abbrev opened_or : Sender → Result SenderError Sender → Sender
opened_or default (ok s) = s
opened_or default (err e) = default

abbrev dimmed : Sender
dimmed =
    opened_or
      (record { stream = record { taken = []; calls = 0 }; frames_sent = 0; bytes_sent = 0 })
      (open_stream trickle opening 1200 1920 90 (some 40) turned)

dimmed_opens : open_stream trickle opening 1200 1920 90 (some 40) turned ≡ ok dimmed
unfolding open_stream moreland_kde.Session.Configuring.configure
    moreland_kde.Session.Configuring.configured moreland_kde.Transport.Sender.connect
    moreland_kde.Transport.Sender.connected moreland_kde.Transport.Sender.Stream.and_then
    moreland_kde.Transport.Sender.stream_header moreland_kde.Transport.Sender.write_all
    moreland_kde.Transport.Sender.account moreland_kde.Protocol.Headers.encode_stream_header
    moreland_kde.Transport.Socket.write_all_vectored
    moreland_kde.Protocol.Headers.encode_frame_header moreland_kde.Transport.Socket.after_write
    moreland_kde.Transport.Socket.write_vectored moreland_kde.Transport.Socket.advance_slices
    moreland_kde.Transport.Sender.send_control moreland_kde.Transport.Sender.after_header
    moreland_kde.Protocol.Control.encode_control moreland_kde.Protocol.Control.brightness
dimmed_opens = refl

abbrev shown : Sender
shown = (send_all trickle first_frames dimmed).1

first_frames_go : send_all trickle first_frames dimmed ≡ (ok tt, shown)
unfolding open_stream moreland_kde.Session.Configuring.configure
    moreland_kde.Session.Configuring.configured moreland_kde.Transport.Sender.connect
    moreland_kde.Transport.Sender.connected moreland_kde.Transport.Sender.Stream.and_then
    moreland_kde.Transport.Sender.stream_header moreland_kde.Transport.Sender.write_all
    moreland_kde.Transport.Sender.account moreland_kde.Protocol.Headers.encode_stream_header
    moreland_kde.Transport.Socket.write_all_vectored
    moreland_kde.Protocol.Headers.encode_frame_header moreland_kde.Transport.Socket.after_write
    moreland_kde.Transport.Socket.write_vectored moreland_kde.Transport.Socket.advance_slices
    moreland_kde.Transport.Sender.send_control moreland_kde.Transport.Sender.after_header
    moreland_kde.Protocol.Control.encode_control moreland_kde.Protocol.Control.brightness
    moreland_kde.Transport.Sender.Stream.send_all moreland_kde.Transport.Sender.Stream.send
    moreland_kde.Transport.Sender.send_frame
first_frames_go = refl

open_stream-controls_first_example :
    (decode_stream_header shown.stream.taken ≡ ok (stream_header 1200 1920 90))
    × (read_units 4 (drop stream_header_len shown.stream.taken)
        ≡ some (units (controls (some 40) turned ++ first_frames)))
open_stream-controls_first_example =
    open_stream-controls_first trickle opening 1200 1920 90 (some 40) turned first_frames dimmed
      shown ((omega arith, omega arith), ((omega arith, omega arith), tt)) dimmed_opens
      first_frames_go
