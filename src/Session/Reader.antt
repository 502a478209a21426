-- ===== src/Session/Reader.antt =====
-- crates/daemon/src/session.rs: the reverse-channel thread, which puts 9-byte messages together
-- from reads of any size and hands each to its consumer. Instants are numbers of nanoseconds.
pub mod Framing
pub mod Fifo
use moreland_kde.Base.{
  ℕ, zero, suc, ◌+◌, ◌-◌, ◌*◌, ◌/◌, ◌%◌, ◌^◌, ◌≤◌, ◌<◌, min, max, bit_and, bit_or, ◌≡◌, refl, sym,
  ap, subst, ◌∙◌, ◌≢◌, ◌↔◌, ◌⊎◌, inl, inr, Bool, true, false, not, ◌&&◌, ◌||◌, Option, none, some,
  List, [], ◌∷◌, ◌++◌, map, arith, ltb, leb, ◌==◌, if◌then◌else◌, ltb→lt, lt→ltb, leb→le, le→leb,
  ==_iff, ==_refl, tests, Bool-cases, Option-cases, length, get_elem?, take, drop, replicate,
  keep_if, any, find_first, All, length-append, take-append-drop, length-take, length-drop,
  length-replicate, take_all, drop_all, All-append,
}
use moreland_kde.Base.Result.{Result, ok, err, ◌>>=◌, ◌>>◌, guard, >>=-eq-ok}
use moreland_kde.Protocol.Bytes.{write_at}
use moreland_kde.Protocol.Reverse.{
  TouchMessage, ReverseMessage, ReverseError, ack, touch, decode_reverse_message, reverse_msg_len,
}

-- What the thread shares with the rest of the session: the send times of the frames that wait for
-- their ack, the measured round trips, the touch worker's channel (`none` if touch is off), and the
-- warnings that it logs.
pub record Shared : Type 0 where
  pub sent_at : List ℕ
  pub round_trips : List ℕ
  pub input_tx : Option (List TouchMessage)
  pub warnings : List ReverseError

-- `if let Some(sent) = sent_at.pop_front() { round_trips.push(sent.elapsed()) }`
unfoldable pub on_ack : ℕ → List ℕ → Shared → Shared
on_ack now [] s = s
on_ack now (sent ∷ waiting) s = record s {
  sent_at = waiting;
  round_trips = s.round_trips ++ ((now - sent) ∷ []);
}

-- `if let Some(tx) = &input_tx { let _ = tx.send(..) }`
unfoldable pub post_touch : TouchMessage → Option (List TouchMessage) → Option (List TouchMessage)
post_touch m none = none
post_touch m (some posted) = some (posted ++ (m ∷ []))

-- The `match` on a whole message.
unfoldable pub dispatch : ℕ → Result ReverseError ReverseMessage → Shared → Shared
unfolding on_ack post_touch
dispatch now (ok (ack pts)) s = on_ack now s.sent_at s
dispatch now (ok (touch m)) s = record s { input_tx = post_touch m s.input_tx }
dispatch now (err e) s = record s { warnings = s.warnings ++ (e ∷ []) }

pub record Reader : Type 0 where
  pub buf : List ℕ
  pub filled : ℕ
  pub shared : Shared

unfoldable pub start : Shared → Reader
start s = record { buf = replicate reverse_msg_len 0; filled = 0; shared = s }

-- The arm `Ok(n)`: `chunk` is what `read(&mut buf[filled..])` stored, at time `now`.
unfoldable pub on_bytes : ℕ → List ℕ → Reader → Reader
unfolding dispatch
on_bytes now chunk r =
    let buf = write_at r.buf r.filled chunk in
    let filled = r.filled + length chunk in
    if filled == reverse_msg_len
    then record {
      buf = buf;
      filled = 0;
      shared = dispatch now (decode_reverse_message buf) r.shared;
    }
    else record { buf = buf; filled = filled; shared = r.shared }

-- What happens at the thread: the outcome of a `read`, or the drain thread pushing a send time.
pub data Event : Type 0 where
  closed : Event
  got : ℕ → List ℕ → Event
  retry : Event
  failed : Event
  frame_sent : ℕ → Event

pub data Flow : Type 0 where
  goes_on stops : Flow

unfoldable pub step : Reader → Event → Reader × Flow
unfolding on_bytes
step r closed = (r, stops)
step r (got now chunk) = (on_bytes now chunk r, goes_on)
step r retry = (r, goes_on)
step r failed = (r, stops)
step r (frame_sent now) =
    (record r { shared = record (r.shared) { sent_at = r.shared.sent_at ++ (now ∷ []) } }, goes_on)

-- The thread's loop over what happens, up to the end of the input or an error.
unfoldable pub run : Reader → List Event → Reader
run r [] = r
run r (e ∷ es) = elim (step r e).1 [ goes_on ↦ run (step r e).0 es | stops ↦ (step r e).0 ]
