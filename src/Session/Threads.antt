-- ===== src/Session/Threads.antt =====
-- crates/daemon/src/session.rs: the capture loop, the drain thread and the reader thread of a running
-- session, and what they share. A turn is one access to what is shared, or one call of the outside
-- with its answer; the turns of the threads come in any order.
pub mod Accounts
pub mod Capturing
pub mod Draining
pub mod Ends
use moreland_kde.Base.{ℕ, ◌+◌, ◌-◌, Bool, true, false, ◌&&◌, List, [], ◌∷◌, ◌==◌, if◌then◌else◌}

-- How a loop ended: by its condition or a `break`, or with an error.
pub data Ending : Type 0 where
  stopped : Ending
  source_error encoder_error send_error : Ending

-- Where the main thread stands: at the test of `shutdown`, in `next_frame`, in `push_frame`, behind
-- the loop, in the joins, and behind them.
pub data CaptureAt : Type 0 where
  tests capturing pushing : CaptureAt
  ended joining returned : Ending → CaptureAt

-- The drain thread: at the test of `running`, in `pull_packet`, before `sent_at.push_back`, in
-- `send_frame`, and at its end.
pub data DrainAt : Type 0 where
  drain_tests pulling noting sending : DrainAt
  drained : Ending → DrainAt

-- The reader thread: at the test of `running`, in `read`, before `sent_at.pop_front` for a whole
-- acknowledgement, and at its end.
pub data ReaderAt : Type 0 where
  reader_tests reading popping closed : ReaderAt

-- The flags, the places of the threads, the number of frames captured, of packets sent, of send
-- times that wait, and of those that were taken off.
pub record Threads : Type 0 where
  pub shutdown : Bool
  pub running : Bool
  pub capture : CaptureAt
  pub drain : DrainAt
  pub reader : ReaderAt
  pub index : ℕ
  pub packets : ℕ
  pub waiting : ℕ
  pub taken_off : ℕ

abbrev pub initial : Threads
initial = record {
  shutdown = false;
  running = true;
  capture = tests;
  drain = drain_tests;
  reader = reader_tests;
  index = 0;
  packets = 0;
  waiting = 0;
  taken_off = 0;
}

-- `pull_packet` gives a packet, none in time, or an error; a `read` gives the end of a whole
-- acknowledgement, other bytes or a time-out, or the end of the connection.
pub data Pulled : Type 0 where
  packet no_packet pull_error : Pulled

pub data Got : Type 0 where
  acknowledgement no_acknowledgement no_connection : Got

abbrev pub is_drained : DrainAt → Bool
is_drained (drained e) = true
is_drained drain_tests = false
is_drained pulling = false
is_drained noting = false
is_drained sending = false

abbrev pub is_closed : ReaderAt → Bool
is_closed closed = true
is_closed reader_tests = false
is_closed reading = false
is_closed popping = false

-- The main thread: `works` is the answer of `next_frame` or `push_frame`.
unfoldable pub capture_turn : CaptureAt → Bool → Threads → Threads
capture_turn tests works t = record t { capture = if t.shutdown then ended stopped else capturing }
capture_turn capturing works t = record t {
  capture = if works then pushing else ended source_error;
}
capture_turn pushing true t = record t { index = t.index + 1; capture = tests }
capture_turn pushing false t = record t { capture = ended encoder_error }
capture_turn (ended e) works t = record t { running = false; capture = joining e }
capture_turn (joining e) works t = record t {
  capture = if is_drained t.drain && is_closed t.reader then returned e else joining e;
}
capture_turn (returned e) works t = record t { capture = returned e }

abbrev pub after_pull : Pulled → DrainAt
after_pull packet = noting
after_pull no_packet = drain_tests
after_pull pull_error = drained stopped

-- The drain thread: what `pull_packet` gives, or whether `send_frame` works.
unfoldable pub drain_turn : DrainAt → Pulled → Bool → Threads → Threads
drain_turn drain_tests p works t = record t {
  drain = if t.running then pulling else drained stopped;
}
drain_turn pulling p works t = record t { drain = after_pull p }
drain_turn noting p works t = record t { waiting = t.waiting + 1; drain = sending }
drain_turn sending p true t = record t { packets = t.packets + 1; drain = drain_tests }
drain_turn sending p false t = record t { drain = drained send_error }
drain_turn (drained e) p works t = record t { drain = drained e }

abbrev pub after_read : Got → ReaderAt
after_read acknowledgement = popping
after_read no_acknowledgement = reader_tests
after_read no_connection = closed

-- The reader thread; without a send time that waits, the acknowledgement is dropped.
unfoldable pub reader_turn : ReaderAt → Got → Threads → Threads
reader_turn reader_tests g t = record t { reader = if t.running then reading else closed }
reader_turn reading g t = record t { reader = after_read g }
reader_turn popping g t =
    if t.waiting == 0
    then record t { reader = reader_tests }
    else record t { waiting = t.waiting - 1; taken_off = t.taken_off + 1; reader = reader_tests }
reader_turn closed g t = record t { reader = closed }

pub data Turn : Type 0 where
  shutdown_requested : Turn
  of_capture : Bool → Turn
  of_drain : Pulled → Bool → Turn
  of_reader : Got → Turn

unfoldable pub turn : Turn → Threads → Threads
unfolding capture_turn drain_turn reader_turn
turn shutdown_requested t = record t { shutdown = true }
turn (of_capture works) t = capture_turn t.capture works t
turn (of_drain p works) t = drain_turn t.drain p works t
turn (of_reader g) t = reader_turn t.reader g t

unfoldable pub turns : List Turn → Threads → Threads
turns [] t = t
turns (x ∷ xs) t = turns xs (turn x t)
