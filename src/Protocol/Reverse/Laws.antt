-- ===== src/Protocol/Reverse/Laws.antt =====
-- The reverse messages of crates/protocol/src/lib.rs: round trips and errors.
use moreland_kde.Base.{ℕ, ◌≡◌, ◌≢◌, List, ◌∷◌, ◌++◌, arith, length, take, drop, All}
use moreland_kde.Base.Result.{ok, err}
use moreland_kde.Protocol.Bytes.{IsByte, IsU64}
use moreland_kde.Protocol.Reverse.{
  TouchFits, ReverseMessage, ack, touch, encode_ack, encode_touch, decode_reverse_message,
  out_of_bounds, touch_too_short, reverse_msg_len,
}

-- The encoder of either message, as the tablet app applies it.
unfoldable pub encode_reverse : ReverseMessage → List ℕ
unfolding encode_ack encode_touch
encode_reverse (ack pts) = encode_ack pts
encode_reverse (touch m) = encode_touch m

abbrev pub ReverseFits : ReverseMessage → Type 0
ReverseFits (ack pts) = IsU64 pts
ReverseFits (touch m) = TouchFits m

-- Decoding an encoded ack or touch gives it back, whatever bytes follow it, for every 64-bit time
-- stamp and every pair of 16-bit coordinates.
pub decode-encode_reverse :
    (m : ReverseMessage) (rest : List ℕ)
    → ReverseFits m
    → decode_reverse_message (encode_reverse m ++ rest) ≡ ok m
unfolding decode_reverse_message encode_reverse
decode-encode_reverse (ack pts) rest fits = ground arith
decode-encode_reverse (touch m) rest fits = ground arith

pub length-encode_reverse : (m : ReverseMessage) → length (encode_reverse m) ≡ reverse_msg_len
unfolding encode_reverse
length-encode_reverse (ack pts) = ground arith
length-encode_reverse (touch m) = ground arith

-- Decoding never indexes outside the buffer, and never hands the touch decoder a short payload.
decode_reverse_message_safe :
    (buf : List ℕ)
    → (decode_reverse_message buf ≢ err out_of_bounds)
      × ((n : ℕ) → decode_reverse_message buf ≢ err (touch_too_short n))
unfolding decode_reverse_message
decode_reverse_message_safe (b0 ∷ b1 ∷ b2 ∷ b3 ∷ b4 ∷ b5 ∷ b6 ∷ b7 ∷ b8 ∷ rest) =
    (λ h. ground arith, λ n h. ground arith)
decode_reverse_message_safe _ = (λ h. ground arith, λ n h. ground arith)

-- The bytes of a buffer that a message accounts for: all 9 of an ack; of a touch the type, the
-- action and the four bytes of the coordinates.
abbrev pub Accounts : ReverseMessage → List ℕ → Type 0
Accounts (ack pts) buf = encode_ack pts ≡ take 9 buf
Accounts (touch m) buf =
    (take 2 (encode_touch m) ≡ take 2 buf)
    × (take 4 (drop 3 (encode_touch m)) ≡ take 4 (drop 3 buf))

-- A buffer of bytes that decodes to an ack holds the 9 bytes of that ack's encoding; one that
-- decodes to a touch agrees with the touch's encoding in the type, the action and the coordinates.
-- Either way the message's numbers fit their fields.
encode-decode_reverse :
    (buf : List ℕ) (m : ReverseMessage)
    → All IsByte buf
    → decode_reverse_message buf ≡ ok m
    → ReverseFits m × Accounts m buf
unfolding decode_reverse_message encode_ack encode_touch
encode-decode_reverse (b0 ∷ b1 ∷ b2 ∷ b3 ∷ b4 ∷ b5 ∷ b6 ∷ b7 ∷ b8 ∷ rest) (ack pts) bytes h =
    ground arith
encode-decode_reverse (b0 ∷ b1 ∷ b2 ∷ b3 ∷ b4 ∷ b5 ∷ b6 ∷ b7 ∷ b8 ∷ rest) (touch m) bytes h =
    ground arith
encode-decode_reverse _ (ack pts) bytes h = ground arith
encode-decode_reverse _ (touch m) bytes h = ground arith
