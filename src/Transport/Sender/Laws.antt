-- ===== src/Transport/Sender/Laws.antt =====
-- What `Sender` (crates/transport/src/lib.rs) puts on the wire, read back by an independent reader.
use moreland_kde.Base.{
  ℕ, zero, suc, ◌+◌, ◌%◌, ◌≤◌, ◌<◌, ◌≡◌, refl, sym, ap, subst, ◌∙◌, inl, inr, Bool, true, false,
  Option, none, some, List, [], ◌∷◌, ◌++◌, arith, length, take, drop, flatten, All, length-append,
  take_all, drop_all,
}
use moreland_kde.Base.Result.{ok, err}
use mathlib.Core.List.{append-nil, append_assoc}
use moreland_kde.Protocol.Bytes.{IsU32, IsU64}
use moreland_kde.Protocol.Headers.{
  FrameHeader, encode_frame_header, decode_frame_header, frame_header_len,
}
use moreland_kde.Protocol.Headers.RoundTrip.{decode-encode_frame_header}
use moreland_kde.Protocol.Control.{ControlMessage, encode_control}
use moreland_kde.Transport.Socket.{Socket, Outcome}
use moreland_kde.Transport.Socket.Laws.{Writes, write_all_vectored-Writes}
use moreland_kde.Transport.Sender.{
  account, after_header, Sender, send_frame, send_control, write_all, u64_mod, u32_mod,
}

-- What a session sends after the stream header.
pub data Sent : Type 0 where
  video : List ℕ → ℕ → Bool → Sent
  control : ControlMessage → Sent

abbrev pub header_of : Sent → FrameHeader
header_of (video payload pts keyframe) = record {
  length = length payload % u32_mod;
  pts_ns = pts;
  keyframe = keyframe;
  control = false;
}
header_of (control msg) = record { length = 2; pts_ns = 0; keyframe = false; control = true }

abbrev pub payload_of : Sent → List ℕ
payload_of (video payload pts keyframe) = payload
payload_of (control msg) = encode_control msg

abbrev pub SentFits : Sent → Type 0
SentFits (video payload pts keyframe) = IsU32 (length payload) × IsU64 pts
SentFits (control msg) = Unit {0}

abbrev pub wire : Sent → List ℕ
wire m = encode_frame_header (header_of m) ++ payload_of m

abbrev pub wires : List Sent → List ℕ
wires [] = []
wires (m ∷ ms) = wire m ++ wires ms

-- The reader's view: headers and payloads cut off one after another, as long as there are bytes.
unfoldable pub read_units : ℕ → List ℕ → Option (List (FrameHeader × List ℕ))
read_units fuel [] = some []
read_units zero (b ∷ bytes) = none
read_units (suc fuel) (b ∷ bytes) = elim (decode_frame_header (b ∷ bytes)) [
  | err e ↦ none
  | ok h ↦
      let body = drop frame_header_len (b ∷ bytes) in
      elim (read_units fuel (drop h.length body)) [
        | none ↦ none
        | some units ↦ some ((h, take h.length body) ∷ units)
      ]
]

abbrev pub units : List Sent → List (FrameHeader × List ℕ)
units [] = []
units (m ∷ ms) = (header_of m, payload_of m) ∷ units ms

pub length-encode_frame_header :
    (h : FrameHeader) → length (encode_frame_header h) ≡ frame_header_len
unfolding encode_frame_header
length-encode_frame_header h = ground arith

take_payload : (n : ℕ) (p rest : List ℕ) → n ≡ length p → take n (p ++ rest) ≡ p
take_payload n p rest e = rw e (take_all p rest)

drop_payload : (n : ℕ) (p rest : List ℕ) → n ≡ length p → drop n (p ++ rest) ≡ rest
drop_payload n p rest e = rw e (drop_all p rest)

read_units_step :
    (fuel : ℕ) (bytes : List ℕ) (h : FrameHeader) (payload rest : List ℕ)
    (us : List (FrameHeader × List ℕ))
    → 0 < length bytes
    → decode_frame_header bytes ≡ ok h
    → drop frame_header_len bytes ≡ payload ++ rest
    → h.length ≡ length payload
    → read_units fuel rest ≡ some us
    → read_units (suc fuel) bytes ≡ some ((h, payload) ∷ us)
unfolding read_units
read_units_step fuel [] h payload rest us pos d cut e ih = elim pos [ ]
read_units_step fuel (b ∷ bytes) h payload rest us pos d cut e ih = rw (
  d,
  read_units,
  cut,
  drop_payload h.length payload rest e,
  ih,
  cut,
  take_payload h.length payload rest e,
)

read_unit :
    (fuel : ℕ) (h : FrameHeader) (payload rest : List ℕ) (us : List (FrameHeader × List ℕ))
    → IsU64 h.pts_ns
    → IsU32 h.length
    → h.length ≡ length payload
    → read_units fuel rest ≡ some us
    → read_units (suc fuel) ((encode_frame_header h ++ payload) ++ rest) ≡ some ((h, payload) ∷ us)
read_unit fuel h payload rest us hp hl e ih =
    rw (append_assoc (encode_frame_header h) payload rest) (
      read_units_step fuel _ h payload rest us
        (omega (
          arith,
          length-append (encode_frame_header h) (payload ++ rest),
          length-encode_frame_header h,
        ))
        (decode-encode_frame_header h (payload ++ rest) (hl, hp))
        (drop_payload frame_header_len (encode_frame_header h) (payload ++ rest)
          (sym (length-encode_frame_header h)))
        e ih)

header_fits :
    (m : Sent)
    → SentFits m
    → IsU64 (header_of m).pts_ns
      × IsU32 (header_of m).length
      × ((header_of m).length ≡ length (payload_of m))
unfolding encode_control
header_fits (video payload pts keyframe) (hl, hp) = (hp, omega arith, omega arith)
header_fits (control msg) fits = (omega arith, omega arith, refl)

pub read_units-wires :
    (ms : List Sent) (fuel : ℕ)
    → All SentFits ms
    → length ms ≤ fuel
    → read_units fuel (wires ms) ≡ some (units ms)
read_units-wires [] fuel fits h = unfold read_units in refl
read_units-wires (m ∷ ms) zero fits h = elim h [ ]
read_units-wires (m ∷ ms) (suc fuel) (fit, fits) h =
    let (hp, hl, e) = header_fits m fit in
    read_unit fuel (header_of m) (payload_of m) (wires ms) (units ms) hp hl e
      (read_units-wires ms fuel fits (omega arith))

-- A successful loop has written all that it was given.
pub Writes-ok :
    (offered : List ℕ) (s t : Socket) → Writes offered s (ok tt, t) → t.taken ≡ s.taken ++ offered
Writes-ok offered s t (inl (done, all)) = all
Writes-ok offered s t (inr (k, less, inl e, part)) = cc
Writes-ok offered s t (inr (k, less, inr e, part)) = cc

module _ (accepts : ℕ → Option ℕ) where
  pub write_all-Writes : (bytes : List ℕ) (s : Socket) → Writes bytes s (write_all accepts bytes s)
  unfolding write_all
  write_all-Writes [] s = inl (refl, sym (append-nil s.taken))
  write_all-Writes (b ∷ bytes) s =
      subst (λ o. Writes o s (write_all accepts (b ∷ bytes) s)) (append-nil (b ∷ bytes))
        (write_all_vectored-Writes accepts (length (b ∷ bytes)) ((b ∷ bytes) ∷ []) s
          (omega (arith, ap length (append-nil bytes))) (omega arith))

  account_ok :
      (bytes : List ℕ) (s t : Sender) (stream : Socket) (frames n : ℕ) (out : Outcome)
      → Writes bytes stream out
      → account s frames n out ≡ (ok tt, t)
      → (t.stream.taken ≡ stream.taken ++ bytes)
        × (t.frames_sent ≡ (s.frames_sent + frames) % u64_mod)
        × (t.bytes_sent ≡ (s.bytes_sent + n) % u64_mod)
  unfolding account
  account_ok bytes s t stream frames n (ok tt, after) w e =
      (ground (arith, Writes-ok bytes stream after w), ground arith, ground arith)
  account_ok bytes s t stream frames n (err x, after) w e = absurd (cc)

  pub send_frame_ok :
      (payload : List ℕ) (pts : ℕ) (keyframe : Bool) (s t : Sender)
      → send_frame accepts payload pts keyframe s ≡ (ok tt, t)
      → (t.stream.taken ≡ s.stream.taken ++ wire (video payload pts keyframe))
        × (t.frames_sent ≡ (s.frames_sent + 1) % u64_mod)
        × (t.bytes_sent ≡ (s.bytes_sent + length (wire (video payload pts keyframe))) % u64_mod)
  unfolding send_frame
  send_frame_ok payload pts keyframe s t e =
      let header = encode_frame_header (header_of (video payload pts keyframe)) in
      let (wrote, frames, bytes) =
        account_ok (flatten (header ∷ payload ∷ [])) s t s.stream 1 (length header + length payload)
          _
          (write_all_vectored-Writes accepts (length (flatten (header ∷ payload ∷ [])))
            (header ∷ payload ∷ []) s.stream (omega arith)
            (omega (arith, length-encode_frame_header (header_of (video payload pts keyframe)))))
          e in
      (rw (append-nil payload) at wrote, frames, bytes ∙ rw (length-append header payload))

  after_header_ok :
      (header payload : List ℕ) (s t : Sender) (out : Outcome)
      → length header ≡ frame_header_len
      → Writes header s.stream out
      → after_header accepts payload s out ≡ (ok tt, t)
      → (t.stream.taken ≡ s.stream.taken ++ (header ++ payload))
        × (t.frames_sent ≡ (s.frames_sent + 0) % u64_mod)
        × (t.bytes_sent ≡ (s.bytes_sent + length (header ++ payload)) % u64_mod)
  unfolding after_header
  after_header_ok header payload s t (ok tt, stream) len w e =
      let (wrote, frames, bytes) =
        account_ok payload s t stream 0 (frame_header_len + length payload) _
          (write_all-Writes payload stream) e in
      (
        wrote
            ∙ (ap (λ x. x ++ payload) (Writes-ok header s.stream stream w)
                ∙ append_assoc s.stream.taken header payload),
        frames,
        bytes ∙ rw (length-append header payload, len),
      )
  after_header_ok header payload s t (err x, stream) len w e = absurd (cc)

  pub send_control_ok :
      (msg : ControlMessage) (s t : Sender)
      → send_control accepts msg s ≡ (ok tt, t)
      → (t.stream.taken ≡ s.stream.taken ++ wire (control msg))
        × (t.frames_sent ≡ (s.frames_sent + 0) % u64_mod)
        × (t.bytes_sent ≡ (s.bytes_sent + length (wire (control msg))) % u64_mod)
  unfolding send_control encode_control
  send_control_ok msg s t e =
      after_header_ok (encode_frame_header (header_of (control msg))) (encode_control msg) s t _
        (length-encode_frame_header (header_of (control msg)))
        (write_all-Writes (encode_frame_header (header_of (control msg))) s.stream) e
