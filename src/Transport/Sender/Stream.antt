-- ===== src/Transport/Sender/Stream.antt =====
-- A whole session of `Sender` (crates/transport/src/lib.rs): what the tablet can read back from the
-- bytes on the wire, and what the counters say.
use moreland_kde.Base.{
  ℕ, suc, ◌+◌, ◌%◌, ◌<◌, ◌≡◌, refl, sym, ap, subst, ◌∙◌, Option, some, List, [], ◌∷◌, ◌++◌, arith,
  length, drop, All, length-append,
}
use moreland_kde.Base.Result.{Result, ok, err, guard_passed}
use mathlib.Core.List.{append-nil, append_assoc}
use moreland_kde.Protocol.Headers.{
  StreamHeader, StreamHeaderFits, encode_stream_header, decode_stream_header, stream_header_len,
}
use moreland_kde.Protocol.Headers.RoundTrip.{decode-encode_stream_header}
use moreland_kde.Transport.Socket.{Socket, Outcome}
use moreland_kde.Transport.Socket.Laws.{Writes}
use moreland_kde.Transport.Sender.{
  Sender, SenderError, Opening, connect, connected, connecting, disabling_nagle, setting_timeout,
  send_frame, send_control, write_all, u64_mod,
}
use moreland_kde.Transport.Sender.Laws.{
  Sent, video, control, SentFits, wire, wires, units, read_units, read_units-wires, send_frame_ok,
  send_control_ok, write_all-Writes, Writes-ok,
}

-- `Sender` operations one after another; the first error ends the session.
unfoldable pub send : (ℕ → Option ℕ) → Sent → Sender → Result SenderError (Unit {0}) × Sender
send accepts (video payload pts keyframe) s = send_frame accepts payload pts keyframe s
send accepts (control msg) s = send_control accepts msg s

unfoldable pub and_then :
    (Sender → Result SenderError (Unit {0}) × Sender)
    → Result SenderError (Unit {0}) × Sender
    → Result SenderError (Unit {0}) × Sender
and_then next (ok u, s) = next s
and_then next (err e, s) = (err e, s)

unfoldable pub send_all :
    (ℕ → Option ℕ) → List Sent → Sender → Result SenderError (Unit {0}) × Sender
send_all accepts [] s = (ok tt, s)
send_all accepts (m ∷ ms) s = and_then (send_all accepts ms) (send accepts m s)

and_then_ok :
    (next : Sender → Result SenderError (Unit {0}) × Sender)
    (out : Result SenderError (Unit {0}) × Sender) (t : Sender)
    → and_then next out ≡ (ok tt, t)
    → (u : Sender) × (out ≡ (ok tt, u)) × (next u ≡ (ok tt, t))
unfolding and_then
and_then_ok next (ok tt, s) t e = (s, refl, e)
and_then_ok next (err x, s) t e = absurd (cc)

abbrev pub videos : List Sent → ℕ
videos [] = 0
videos (video payload pts keyframe ∷ ms) = suc (videos ms)
videos (control msg ∷ ms) = videos ms

-- What a session that began at `s` has done when it is at `t`.
pub record Progress (s t : Sender) (bytes : List ℕ) (frames : ℕ) : Type 0 where
  pub wrote : t.stream.taken ≡ s.stream.taken ++ bytes
  pub framed : t.frames_sent ≡ (s.frames_sent + frames) % u64_mod
  pub counted : t.bytes_sent ≡ (s.bytes_sent + length bytes) % u64_mod

Progress-trans :
    {s t u : Sender} {xs ys : List ℕ} {m n : ℕ}
    → Progress s t xs m
    → Progress t u ys n
    → Progress s u (xs ++ ys) (m + n)
Progress-trans {s} {t} {u} {xs} {ys} p q = record {
  wrote = q.wrote ∙ (ap (λ x. x ++ ys) p.wrote ∙ append_assoc s.stream.taken xs ys);
  framed = omega (arith, p.framed, q.framed);
  counted = omega (arith, p.counted, q.counted, length-append xs ys);
}

videos-cons : (m : Sent) (ms : List Sent) → videos (m ∷ []) + videos ms ≡ videos (m ∷ ms)
videos-cons (video payload pts keyframe) ms = omega arith
videos-cons (control msg) ms = omega arith

length-encode_stream_header :
    (h : StreamHeader) → length (encode_stream_header h) ≡ stream_header_len
unfolding encode_stream_header
length-encode_stream_header h = ground arith

drop_stream_header :
    (h : StreamHeader) (rest : List ℕ)
    → drop stream_header_len (encode_stream_header h ++ rest) ≡ rest
unfolding encode_stream_header
drop_stream_header h rest = refl

connected_ok :
    (bytes : List ℕ) (n : ℕ) (start : Socket) (s : Sender) (out : Outcome)
    → start.taken ≡ []
    → Writes bytes start out
    → connected n out ≡ ok s
    → (s.stream.taken ≡ bytes) × (s.frames_sent ≡ 0) × (s.bytes_sent ≡ n % u64_mod)
unfolding connected
connected_ok bytes n start s (ok tt, after) empty w e =
    (ground (arith, Writes-ok bytes start after w), ground arith, ground arith)
connected_ok bytes n start s (err x, after) empty w e = absurd (cc)

abbrev unopened : Socket
unopened = record { taken = []; calls = 0 }

module _ (accepts : ℕ → Option ℕ) where
  connect_ok :
      (opening : Opening) (h : StreamHeader) (s : Sender)
      → connect accepts opening h ≡ ok s
      → (s.stream.taken ≡ encode_stream_header h)
        × (s.frames_sent ≡ 0)
        × (s.bytes_sent ≡ length (encode_stream_header h) % u64_mod)
  unfolding connect
  connect_ok opening h s e =
      let (a, e1) = guard_passed opening.connects connecting _ s e in
      let (b, e2) = guard_passed opening.nodelay disabling_nagle _ s e1 in
      let (c, e3) = guard_passed opening.timeout setting_timeout _ s e2 in
      connected_ok (encode_stream_header h) _ unopened s
        (write_all accepts (encode_stream_header h) unopened) refl
        (write_all-Writes accepts (encode_stream_header h) unopened) e3

  send_ok :
      (m : Sent) (s t : Sender)
      → send accepts m s ≡ (ok tt, t)
      → Progress s t (wire m) (videos (m ∷ []))
  unfolding send
  send_ok (video payload pts keyframe) s t e =
      let (w, f, c) = send_frame_ok accepts payload pts keyframe s t e in
      record { wrote = w; framed = f; counted = c }
  send_ok (control msg) s t e =
      let (w, f, c) = send_control_ok accepts msg s t e in
      record { wrote = w; framed = f; counted = c }

  abbrev Bounded : Sender → Type 0
  Bounded s = (s.frames_sent < u64_mod) × (s.bytes_sent < u64_mod)

  send_all_ok :
      (ms : List Sent) (s t : Sender)
      → Bounded s
      → send_all accepts ms s ≡ (ok tt, t)
      → Progress s t (wires ms) (videos ms)
  unfolding send_all
  send_all_ok [] s t b e =
      subst (λ u. Progress s u [] 0) {x = s} {y = t} (cc)
        (record {
          wrote = sym (append-nil s.stream.taken);
          framed = omega arith;
          counted = omega arith;
        })
  send_all_ok (m ∷ ms) s t b e =
      let (u, first, rest) = and_then_ok (send_all accepts ms) (send accepts m s) t e in
      let p = send_ok m s u first in
      subst (Progress s t (wires (m ∷ ms))) (videos-cons m ms)
        (Progress-trans p (send_all_ok ms u t (omega (arith, p.framed, p.counted)) rest))

-- If connecting and all the sends of a session succeed, then, however the socket split the writes,
-- the bytes on the wire are a stream header that decodes to the one given, followed by units that
-- read back as exactly the frames and controls that were sent, in order; `bytes_sent` is the number
-- of bytes on the wire and `frames_sent` the number of video frames, both modulo 2^64. Payloads are
-- shorter than 2^32 bytes, time stamps fit 64 bits and the header's fields 16.
pub session_on_wire :
    (accepts : ℕ → Option ℕ) (opening : Opening) (h : StreamHeader) (ms : List Sent) (s t : Sender)
    → StreamHeaderFits h
    → All SentFits ms
    → connect accepts opening h ≡ ok s
    → send_all accepts ms s ≡ (ok tt, t)
    → (decode_stream_header t.stream.taken ≡ ok h)
      × (read_units (length ms) (drop stream_header_len t.stream.taken) ≡ some (units ms))
      × (t.bytes_sent ≡ length t.stream.taken % u64_mod)
      × (t.frames_sent ≡ videos ms % u64_mod)
session_on_wire accepts opening h ms s t fits all_fit opened sent =
    let (begun, frames, bytes) = connect_ok accepts opening h s opened in
    let p = send_all_ok accepts ms s t (omega (arith, frames, bytes)) sent in
    let wrote : t.stream.taken ≡ encode_stream_header h ++ wires ms =
      p.wrote ∙ ap (λ x. x ++ wires ms) begun in
    (
      rw wrote (decode-encode_stream_header h (wires ms) fits),
      rw (ap (drop stream_header_len) wrote ∙ drop_stream_header h (wires ms))
          (read_units-wires ms (length ms) all_fit (omega arith)),
      omega (
        arith,
        ap length wrote,
        length-append (encode_stream_header h) (wires ms),
        p.counted,
        frames,
        bytes,
      ),
      omega (arith, p.framed, frames),
    )
