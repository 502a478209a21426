-- ===== src/Session/Reader/Fifo.antt =====
-- Round trips are matched first in, first out (crates/daemon/src/session.rs).
use moreland_kde.Base.{
  ℕ, zero, suc, ◌+◌, ◌-◌, ◌≤◌, ◌<◌, ◌≡◌, refl, sym, subst, ap, ◌∙◌, inl, inr, false, List, [], ◌∷◌,
  ◌++◌, ◌==◌, ==_iff, arith, Bool-cases, if◌then◌else◌, length, length-append, length-drop, drop,
  replicate,
}
use moreland_kde.Base.Result.{Result, ok, err}
use mathlib.Core.List.{append-nil, append_assoc}
use moreland_kde.Protocol.Reverse.{
  ReverseMessage, ReverseError, ack, touch, decode_reverse_message, reverse_msg_len,
}
use moreland_kde.Session.Reader.{
  Shared, Reader, Event, closed, got, retry, failed, frame_sent, on_ack, dispatch, start, step, run,
}
use moreland_kde.Session.Reader.Framing.{
  bytes_of, timed, next_filled, length-bytes_of, length-timed, bytes_of-timed, holding,
  on_bytes_last, on_bytes_more,
}

-- What the events say: a frame was sent, or an acknowledgement was complete, at a time.
pub data Arrival : Type 0 where
  sent acked : ℕ → Arrival

abbrev pub ack_at : ℕ → Result ReverseError ReverseMessage → List Arrival → List Arrival
ack_at now (ok (ack pts)) rest = acked now ∷ rest
ack_at now (ok (touch m)) rest = rest
ack_at now (err e) rest = rest

-- The bytes of the reads are cut into groups of nine, `pending` being the unfinished one, up to the
-- end of the thread.
abbrev pub arrivals : List ℕ → List Event → List Arrival
arrivals pending [] = []
arrivals pending (closed ∷ es) = []
arrivals pending (failed ∷ es) = []
arrivals pending (retry ∷ es) = arrivals pending es
arrivals pending (frame_sent now ∷ es) = sent now ∷ arrivals pending es
arrivals pending (got now chunk ∷ es) =
    let whole = ack_at now (decode_reverse_message (pending ++ chunk)) (arrivals [] es) in
    let more = arrivals (pending ++ chunk) es in
    if length pending + length chunk == reverse_msg_len then whole else more

abbrev pub sends : List Arrival → List ℕ
sends [] = []
sends (sent now ∷ as_) = now ∷ sends as_
sends (acked now ∷ as_) = sends as_

-- The times of the acknowledgements that find a frame waiting, of which there are `waiting` at first.
abbrev pub counted : ℕ → List Arrival → List ℕ
counted waiting [] = []
counted waiting (sent now ∷ as_) = counted (suc waiting) as_
counted zero (acked now ∷ as_) = counted zero as_
counted (suc waiting) (acked now ∷ as_) = now ∷ counted waiting as_

-- The i-th acknowledgement belongs to the i-th frame.
abbrev pub elapsed : List ℕ → List ℕ → List ℕ
elapsed [] acks = []
elapsed (s ∷ ss) [] = []
elapsed (s ∷ ss) (a ∷ acks) = (a - s) ∷ elapsed ss acks

-- `read` gives a byte or more, and no more than there is room for.
abbrev pub EventsFit : ℕ → List Event → Type 0
EventsFit filled [] = Unit {0}
EventsFit filled (closed ∷ es) = Unit {0}
EventsFit filled (failed ∷ es) = Unit {0}
EventsFit filled (retry ∷ es) = EventsFit filled es
EventsFit filled (frame_sent now ∷ es) = EventsFit filled es
EventsFit filled (got now chunk ∷ es) =
    (0 < length chunk)
    × (filled + length chunk ≤ reverse_msg_len)
    × EventsFit (next_filled filled (length chunk)) es

-- From these round trips and this queue, the arrivals lead to that state.
abbrev pub Leads : List ℕ → List ℕ → List Arrival → Shared → Type 0
Leads trips queue as_ final =
    (final.round_trips ≡ trips ++ elapsed (queue ++ sends as_) (counted (length queue) as_))
    × (final.sent_at ≡ drop (length (counted (length queue) as_)) (queue ++ sends as_))

elapsed-none : (ss : List ℕ) → elapsed ss [] ≡ []
elapsed-none [] = refl
elapsed-none (s ∷ ss) = refl

Leads-nothing : (s : Shared) → Leads s.round_trips s.sent_at [] s
Leads-nothing s = (
  rw (elapsed-none (s.sent_at ++ [])) (sym (append-nil s.round_trips)),
  sym (append-nil s.sent_at),
)

Leads-sent :
    (trips queue : List ℕ) (now : ℕ) (as_ : List Arrival) (final : Shared)
    → Leads trips (queue ++ (now ∷ [])) as_ final
    → Leads trips queue (sent now ∷ as_) final
Leads-sent trips queue now as_ final h =
    let grown : length (queue ++ (now ∷ [])) ≡ suc (length queue) =
      omega (arith, length-append queue (now ∷ [])) in
    rw (← grown, ← append_assoc queue (now ∷ []) (sends as_)) h

Leads-acked :
    (trips queue : List ℕ) (x now : ℕ) (as_ : List Arrival) (final : Shared)
    → Leads (trips ++ ((now - x) ∷ [])) queue as_ final
    → Leads trips (x ∷ queue) (acked now ∷ as_) final
Leads-acked trips queue x now as_ final (t, q) = (t ∙ append_assoc trips _ _, q)

on_ack-Leads :
    (now : ℕ) (queue : List ℕ) (s : Shared) (as_ : List Arrival) (final : Shared)
    → Leads (on_ack now queue s).round_trips (on_ack now queue s).sent_at as_ final
    → s.sent_at ≡ queue
    → Leads s.round_trips queue (acked now ∷ as_) final
unfolding on_ack
on_ack-Leads now [] s as_ final h e = rw e at h
on_ack-Leads now (x ∷ queue) s as_ final h e = Leads-acked s.round_trips queue x now as_ final h

dispatch-Leads :
    (now : ℕ) (r : Result ReverseError ReverseMessage) (s : Shared) (as_ : List Arrival)
    (final : Shared)
    → Leads (dispatch now r s).round_trips (dispatch now r s).sent_at as_ final
    → Leads s.round_trips s.sent_at (ack_at now r as_) final
unfolding dispatch
dispatch-Leads now (ok (ack pts)) s as_ final h = on_ack-Leads now s.sent_at s as_ final h refl
dispatch-Leads now (ok (touch m)) s as_ final h = h
dispatch-Leads now (err e) s as_ final h = h

arrivals-whole :
    (pending : List ℕ) (now : ℕ) (chunk : List ℕ) (es : List Event)
    → length pending + length chunk ≡ reverse_msg_len
    → arrivals pending (got now chunk ∷ es)
      ≡ ack_at now (decode_reverse_message (pending ++ chunk)) (arrivals [] es)
arrivals-whole pending now chunk es full =
    ap
      (λ b.
        if b
        then ack_at now (decode_reverse_message (pending ++ chunk)) (arrivals [] es)
        else arrivals (pending ++ chunk) es)
      ((==_iff (length pending + length chunk) reverse_msg_len).1 full)

arrivals-more :
    (pending : List ℕ) (now : ℕ) (chunk : List ℕ) (es : List Event)
    → (length pending + length chunk == reverse_msg_len) ≡ false
    → arrivals pending (got now chunk ∷ es) ≡ arrivals (pending ++ chunk) es
arrivals-more pending now chunk es part =
    ap
      (λ b.
        if b
        then ack_at now (decode_reverse_message (pending ++ chunk)) (arrivals [] es)
        else arrivals (pending ++ chunk) es)
      part

-- Equal arrivals, and equal readers from which the loop goes on.
moved :
    (trips queue : List ℕ) {as_ bs : List Arrival} {r t : Reader}
    → as_ ≡ bs
    → r ≡ t
    → (es : List Event) → Leads trips queue bs (run t es).shared
    → Leads trips queue as_ (run r es).shared
moved trips queue {as_} {bs} {r} {t} same reader es h =
    subst (λ x. Leads trips queue x (run r es).shared) (sym same)
      (subst (λ x. Leads trips queue bs (run x es).shared) (sym reader) h)

run-Leads :
    (es : List Event) (p : List (ℕ × ℕ)) (q : List ℕ) (s : Shared)
    → length p + length q ≡ reverse_msg_len
    → EventsFit (length p) es
    → Leads s.round_trips s.sent_at (arrivals (bytes_of p) es) (run (holding p q s) es).shared
unfolding run step
run-Leads [] p q s room fit = Leads-nothing s
run-Leads (closed ∷ es) p q s room fit = Leads-nothing s
run-Leads (failed ∷ es) p q s room fit = Leads-nothing s
run-Leads (retry ∷ es) p q s room fit = run-Leads es p q s room fit
run-Leads (frame_sent now ∷ es) p q s room fit =
    let s' : Shared = record s { sent_at = s.sent_at ++ (now ∷ []) } in
    Leads-sent s.round_trips s.sent_at now (arrivals (bytes_of p) es)
      (run (holding p q s') es).shared (run-Leads es p q s' room fit)
run-Leads (got now c ∷ es) p q s room (some_bytes, fits, fit) =
    elim (Bool-cases (length p + length c == reverse_msg_len)) [
      | inl done ↦
          let full = (==_iff (length p + length c) reverse_msg_len).0 done in
          let s' = dispatch now (decode_reverse_message (bytes_of p ++ c)) s in
          let rest =
            run-Leads es [] (bytes_of p ++ c) s'
              (omega (arith, length-append (bytes_of p) c, length-bytes_of p, full))
              (rw done at fit) in
          moved s.round_trips s.sent_at
            (arrivals-whole (bytes_of p) now c es (omega (arith, length-bytes_of p, full)))
            (on_bytes_last p q c now s room full) es
            (dispatch-Leads now (decode_reverse_message (bytes_of p ++ c)) s (arrivals [] es)
              (run (holding [] (bytes_of p ++ c) s') es).shared rest)
      | inr more ↦
          let rest =
            run-Leads es (p ++ timed now c) (drop (length c) q) s
              (omega (
                arith,
                length-append p (timed now c),
                length-timed now c,
                length-drop (length c) q,
              ))
              (rw (length-append p (timed now c), length-timed now c) (rw more at fit)) in
          moved s.round_trips s.sent_at
            (arrivals-more (bytes_of p) now c es
                (ap (λ n. n + length c == reverse_msg_len) (length-bytes_of p) ∙ more)
              ∙ ap (λ bytes. arrivals bytes es) (sym (bytes_of-timed p now c)))
            (on_bytes_more p q c now s room (ground arith)) es rest
    ]

-- However the bytes of the reverse channel are split over reads and however they interleave with the
-- frames that are sent, the measured round trips are these, in order: of each acknowledgement that
-- is complete while a frame waits for one, its time less the send time of the frame, the i-th such
-- acknowledgement belonging to the i-th frame. The frames that still wait are those after them. A
-- read gives a byte or more and no more than there is room for; nothing is sent or measured before.
pub run_fifo :
    (es : List Event) (s : Shared)
    → EventsFit 0 es
    → s.sent_at ≡ []
    → s.round_trips ≡ []
    → let seen = arrivals [] es in
      let final = (run (start s) es).shared in
      (final.round_trips ≡ elapsed (sends seen) (counted 0 seen))
      × (final.sent_at ≡ drop (length (counted 0 seen)) (sends seen))
unfolding start
run_fifo es s fit hq ht =
    let final = (run (start s) es).shared in
    subst (λ queue. Leads [] queue (arrivals [] es) final) hq
      (subst (λ trips. Leads trips s.sent_at (arrivals [] es) final) ht
        (run-Leads es [] (replicate reverse_msg_len 0) s refl fit))
