-- ===== src/Session/Configuring.antt =====
-- crates/daemon/src/session.rs: `run` connects to the app, and configures the tablet before any video.
use moreland_kde.Base.{
  ℕ, ◌≡◌, refl, sym, subst, true, ◌∙◌, Option, none, some, List, [], ◌∷◌, ◌++◌, arith, length, drop,
  All,
}
use moreland_kde.Base.Result.{Result, ok, err, ◌>>=◌, >>=-eq-ok}
use moreland_kde.Protocol.Headers.{StreamHeaderFits, decode_stream_header, stream_header_len}
use moreland_kde.Protocol.Control.{ControlMessage, brightness}
use moreland_kde.Transport.Sender.{
  Sender, SenderError, Opening, connect, stream_header, send_control,
}
use moreland_kde.Transport.Sender.Laws.{Sent, control, SentFits, read_units, units}
use moreland_kde.Transport.Sender.Progress.{Flows, session_succeeds}
use moreland_kde.Transport.Sender.Stream.{send, and_then, send_all, session_on_wire}

-- The brightness, if the settings have one, and then the rotation.
unfoldable pub configure :
    (ℕ → Option ℕ) → Option ℕ → ControlMessage → Sender → Result SenderError (Unit {0}) × Sender
configure accepts none rotation_msg s = send_control accepts rotation_msg s
configure accepts (some percent) rotation_msg s =
    and_then (send_control accepts rotation_msg) (send_control accepts (brightness percent) s)

-- `?` on a send: the sender moves on only if it succeeded.
unfoldable pub configured : Result SenderError (Unit {0}) × Sender → Result SenderError Sender
configured (ok u, s) = ok s
configured (err e, s) = err e

-- From `Sender::connect` to the controls, on the size of the source and the frame rate.
unfoldable pub open_stream :
    (ℕ → Option ℕ) → Opening → ℕ → ℕ → ℕ → Option ℕ → ControlMessage → Result SenderError Sender
open_stream accepts opening width height fps percent rotation_msg = do
  s ← connect accepts opening (stream_header width height fps)
  configured (configure accepts percent rotation_msg s)

-- What the tablet is told before it sees a frame.
abbrev pub controls : Option ℕ → ControlMessage → List Sent
controls none rotation_msg = control rotation_msg ∷ []
controls (some percent) rotation_msg = control (brightness percent) ∷ control rotation_msg ∷ []

stream_header-Fits : (width height fps : ℕ) → StreamHeaderFits (stream_header width height fps)
unfolding stream_header
stream_header-Fits width height fps = (omega arith, omega arith, omega arith)

controls-SentFits :
    (percent : Option ℕ) (msg : ControlMessage) (ms : List Sent)
    → All SentFits ms
    → All SentFits (controls percent msg ++ ms)
controls-SentFits none msg ms h = (tt, h)
controls-SentFits (some percent) msg ms h = (tt, (tt, h))

configured_ok :
    (r : Result SenderError (Unit {0}) × Sender) (s : Sender) → configured r ≡ ok s → r ≡ (ok tt, s)
unfolding configured
configured_ok (ok tt, u) s e = cc
configured_ok (err x, u) s e = absurd (cc)

and_then-passed :
    (next : Sender → Result SenderError (Unit {0}) × Sender)
    (r : Result SenderError (Unit {0}) × Sender) (t : Sender)
    → r ≡ (ok tt, t)
    → and_then next r ≡ next t
unfolding and_then
and_then-passed next r t e = rw (e) refl

and_then-chain :
    (next last : Sender → Result SenderError (Unit {0}) × Sender)
    (r : Result SenderError (Unit {0}) × Sender)
    → and_then last (and_then next r) ≡ and_then (λ s. and_then last (next s)) r
unfolding and_then
and_then-chain next last (ok tt, s) = refl
and_then-chain next last (err e, s) = refl

-- The controls and what is sent after them are one session of the sender.
configure-send_all :
    (accepts : ℕ → Option ℕ) (percent : Option ℕ) (msg : ControlMessage) (ms : List Sent)
    (s : Sender)
    → send_all accepts (controls percent msg ++ ms) s
      ≡ and_then (send_all accepts ms) (configure accepts percent msg s)
unfolding configure send_all send
configure-send_all accepts none msg ms s = refl
configure-send_all accepts (some percent) msg ms s = sym (
    and_then-chain (send_control accepts msg) (send_all accepts ms)
      (send_control accepts (brightness percent) s))

-- If the stream opens, and what is sent afterwards all goes through, then the bytes on the wire are
-- the stream header of the source's size and the frame rate, each modulo 2^16, the brightness
-- control if the settings have a brightness, the rotation control, and then what was sent: no frame
-- comes before the controls. Payloads are shorter than 2^32 bytes and time stamps fit 64 bits.
pub open_stream-controls_first :
    (accepts : ℕ → Option ℕ) (opening : Opening) (width height fps : ℕ) (percent : Option ℕ)
    (msg : ControlMessage) (ms : List Sent) (s t : Sender)
    → All SentFits ms
    → open_stream accepts opening width height fps percent msg ≡ ok s
    → send_all accepts ms s ≡ (ok tt, t)
    → (decode_stream_header t.stream.taken ≡ ok (stream_header width height fps))
      × (read_units (length (controls percent msg ++ ms)) (drop stream_header_len t.stream.taken)
          ≡ some (units (controls percent msg ++ ms)))
unfolding open_stream
open_stream-controls_first accepts opening width height fps percent msg ms s t fits opened sent =
    let (u, connects, rest) =
      >>=-eq-ok (connect accepts opening (stream_header width height fps))
        (λ u. configured (configure accepts percent msg u)) opened in
    let all : send_all accepts (controls percent msg ++ ms) u ≡ (ok tt, t) =
      configure-send_all accepts percent msg ms u
      ∙ (and_then-passed (send_all accepts ms) (configure accepts percent msg u) s
            (configured_ok (configure accepts percent msg u) s rest)
          ∙ sent) in
    let (header, read, counted, framed) =
      session_on_wire accepts opening (stream_header width height fps) (controls percent msg ++ ms)
        u t (stream_header-Fits width height fps) (controls-SentFits percent msg ms fits) connects
        all in
    (header, read)

and_then-first :
    (next : Sender → Result SenderError (Unit {0}) × Sender)
    (r : Result SenderError (Unit {0}) × Sender)
    → (and_then next r).0 ≡ ok tt
    → r.0 ≡ ok tt
unfolding and_then
and_then-first next (ok u, s) h = refl
and_then-first next (err e, s) h = h

configured-works :
    (r : Result SenderError (Unit {0}) × Sender)
    → r.0 ≡ ok tt
    → (s : Sender) × (configured r ≡ ok s)
unfolding configured
configured-works (ok u, s) h = (s, refl)
configured-works (err e, s) h = absurd (cc)

-- If the connection and its options succeed, and every write call takes a byte or more, then the
-- stream opens.
open_stream-succeeds :
    (accepts : ℕ → Option ℕ)
    → Flows accepts
    → (opening : Opening) (width height fps : ℕ) (percent : Option ℕ) (msg : ControlMessage)
    → opening.connects ≡ true
    → opening.nodelay ≡ true
    → opening.timeout ≡ true
    → (s : Sender) × (open_stream accepts opening width height fps percent msg ≡ ok s)
unfolding open_stream send_all
open_stream-succeeds accepts flows opening width height fps percent msg c n t =
    let (u, connects, sends) =
      session_succeeds accepts flows opening (stream_header width height fps)
        (controls percent msg ++ []) c n t in
    let works : (configure accepts percent msg u).0 ≡ ok tt =
      and_then-first (send_all accepts []) (configure accepts percent msg u)
        (subst (λ r. r.0 ≡ ok tt) (configure-send_all accepts percent msg [] u) sends) in
    let (s, passes) = configured-works (configure accepts percent msg u) works in
    (
      s,
      subst (λ r. (r >>= (λ v. configured (configure accepts percent msg v))) ≡ ok s) (sym connects)
          passes,
    )
