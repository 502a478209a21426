-- ===== src/Protocol/Headers/RoundTrip.antt =====
-- The headers of crates/protocol/src/lib.rs: their round trips in both directions, and every way in
-- which decoding fails.
use moreland_kde.Base.{
  ℕ, zero, suc, ◌%◌, ◌≤◌, ◌<◌, bit_and, ◌≡◌, refl, ◌≢◌, ◌↔◌, ◌⊎◌, Bool, true, false, not, ◌&&◌,
  some, List, ◌∷◌, ◌++◌, arith, ◌==◌, length, get_elem?, take, drop, All,
}
use moreland_kde.Base.Result.{Result, ok, err}
use moreland_kde.Protocol.Bytes.{IsByte, to_be_bytes}
use moreland_kde.Protocol.Headers.{
  StreamHeader, StreamHeaderFits, encode_stream_header, decode_stream_header, FrameHeader,
  FrameHeaderFits, encode_frame_header, decode_frame_header, out_of_bounds, too_short, magic,
  version, frame_flags, stream_header_len, frame_header_len, DecodeError,
}

-- Decoding an encoded stream header gives the header back, whatever bytes follow it, for every
-- header whose width, height and frame rate fit their 16 bits.
pub decode-encode_stream_header :
    (h : StreamHeader) (rest : List ℕ)
    → StreamHeaderFits h
    → decode_stream_header (encode_stream_header h ++ rest) ≡ ok h
unfolding decode_stream_header encode_stream_header
decode-encode_stream_header h rest fits = ground arith

-- Decoding an encoded frame header gives the header back, both flags included, whatever bytes
-- follow it, for every header whose length fits 32 bits and whose time stamp fits 64.
pub decode-encode_frame_header :
    (h : FrameHeader) (rest : List ℕ)
    → FrameHeaderFits h
    → decode_frame_header (encode_frame_header h ++ rest) ≡ ok h
unfolding decode_frame_header encode_frame_header
decode-encode_frame_header h rest fits = ground arith

-- Decoding a stream header never indexes outside the buffer, whatever its length and bytes are.
decode_stream_header-ne-out_of_bounds :
    (buf : List ℕ) → decode_stream_header buf ≢ err out_of_bounds
unfolding decode_stream_header
decode_stream_header-ne-out_of_bounds
      (b0 ∷ b1 ∷ b2 ∷ b3 ∷ b4 ∷ b5 ∷ b6 ∷ b7 ∷ b8 ∷ b9 ∷ b10 ∷ b11 ∷ b12 ∷ b13 ∷ b14 ∷ b15 ∷ rest) =
    ground arith
decode_stream_header-ne-out_of_bounds _ = ground arith

-- A stream header that decodes has fields of 16 bits, and encoding it gives back the first 13 bytes
-- of the buffer, all that are not reserved.
encode-decode_stream_header :
    (buf : List ℕ) (h : StreamHeader)
    → All IsByte buf
    → decode_stream_header buf ≡ ok h
    → StreamHeaderFits h × (take 13 (encode_stream_header h) ≡ take 13 buf)
unfolding decode_stream_header encode_stream_header
encode-decode_stream_header
      (b0 ∷ b1 ∷ b2 ∷ b3 ∷ b4 ∷ b5 ∷ b6 ∷ b7 ∷ b8 ∷ b9 ∷ b10 ∷ b11 ∷ b12 ∷ b13 ∷ b14 ∷ b15 ∷ rest) h
      bytes e =
    ground arith
encode-decode_stream_header _ h bytes e = ground arith

-- The two flag bits that `decode` reads off a byte, put together again by `encode`.
flags_of : ℕ → ℕ
unfolding frame_flags
flags_of b = frame_flags (record {
  length = 0;
  pts_ns = 0;
  keyframe = not (bit_and b 1 == 0);
  control = not (bit_and b 2 == 0);
})

agree_below : (ℕ → ℕ) → (ℕ → ℕ) → ℕ → Bool
agree_below f g zero = true
agree_below f g (suc n) = f n == g n && agree_below f g n

agree_below→eq : (f g : ℕ → ℕ) (n : ℕ) → agree_below f g n ≡ true → (i : ℕ) → i < n → f i ≡ g i
unfolding agree_below
agree_below→eq f g zero e i h = absurd (omega arith)
agree_below→eq f g (suc n) e i h = ground (arith, agree_below→eq f g n (ground arith) i)

flags_of_lem : (b : ℕ) → b < 256 → flags_of b ≡ b % 4
unfolding agree_below flags_of
flags_of_lem = agree_below→eq flags_of (λ b. b % 4) 256 refl

-- A frame header that decodes has a 32-bit length and a 64-bit time stamp; encoding it gives back
-- the first 12 bytes of the buffer, and the two defined bits of the flag byte.
encode-decode_frame_header :
    (buf : List ℕ) (h : FrameHeader) (flags : ℕ)
    → All IsByte buf
    → get_elem? buf 12 ≡ some flags
    → decode_frame_header buf ≡ ok h
    → FrameHeaderFits h
      × (take 12 (encode_frame_header h) ≡ take 12 buf)
      × (get_elem? (encode_frame_header h) 12 ≡ some (flags % 4))
unfolding decode_frame_header encode_frame_header flags_of
encode-decode_frame_header
      (b0 ∷ b1 ∷ b2 ∷ b3 ∷ b4 ∷ b5 ∷ b6 ∷ b7 ∷ b8 ∷ b9 ∷ b10 ∷ b11 ∷ b12 ∷ b13 ∷ b14 ∷ b15 ∷ rest) h
      flags bytes at e =
    ground (arith, flags_of_lem b12)
encode-decode_frame_header _ h flags bytes at e = ground arith

-- Decoding a frame header fails exactly on the buffers of fewer than 16 bytes, and then names the
-- length that it was given.
decode_frame_header_fails :
    (buf : List ℕ) (e : DecodeError)
    → (decode_frame_header buf ≡ err e)
      ↔ ((length buf < frame_header_len) × (e ≡ too_short (length buf)))
unfolding decode_frame_header
decode_frame_header_fails
      (b0 ∷ b1 ∷ b2 ∷ b3 ∷ b4 ∷ b5 ∷ b6 ∷ b7 ∷ b8 ∷ b9 ∷ b10 ∷ b11 ∷ b12 ∷ b13 ∷ b14 ∷ b15 ∷ rest)
      e =
    (λ h. ground arith, λ h. ground arith)
decode_frame_header_fails _ e = (λ h. ground arith, λ h. ground arith)

abbrev is_ok : Result DecodeError StreamHeader → Bool
is_ok (ok h) = true
is_ok (err e) = false

-- A stream header is accepted exactly if the buffer has 16 bytes or more, begins with the magic
-- number, carries version 3 and names codec 0 or 1.
decode_stream_header_accepts :
    (buf : List ℕ)
    → All IsByte buf
    → (is_ok (decode_stream_header buf) ≡ true) ↔ (
        (stream_header_len ≤ length buf)
        × (take 4 buf ≡ magic)
        × (take 2 (drop 4 buf) ≡ to_be_bytes 2 version)
        × ((get_elem? buf 12 ≡ some 0) ⊎ (get_elem? buf 12 ≡ some 1)))
unfolding decode_stream_header
decode_stream_header_accepts
      (b0 ∷ b1 ∷ b2 ∷ b3 ∷ b4 ∷ b5 ∷ b6 ∷ b7 ∷ b8 ∷ b9 ∷ b10 ∷ b11 ∷ b12 ∷ b13 ∷ b14 ∷ b15 ∷ rest)
      bytes =
    (λ h. ground arith, λ h. ground arith)
decode_stream_header_accepts _ bytes = (λ h. ground arith, λ h. ground arith)
