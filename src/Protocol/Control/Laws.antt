-- ===== src/Protocol/Control/Laws.antt =====
-- What a control message carries over the wire (crates/protocol/src/lib.rs).
use moreland_kde.Base.{ℕ, ◌≤◌, ◌<◌, ◌≡◌, refl, ◌≢◌, ◌↔◌, List, [], ◌∷◌, ◌++◌, arith, take}
use moreland_kde.Base.Result.{ok, err}
use moreland_kde.Protocol.Control.{
  ControlMessage, ControlError, brightness, rotation, rotation_degrees, encode_control,
  decode_control, bad_rotation, brightness_kind, rotation_kind, out_of_bounds,
}

-- A control message survives the wire, whatever bytes follow it.
decode-encode_control :
    (m : ControlMessage) (rest : List ℕ) → decode_control (encode_control m ++ rest) ≡ ok m
unfolding decode_control encode_control
decode-encode_control m rest = ground arith

-- A rotation that is accepted survives the wire, and the tablet reads back the angle asked for.
rotation_over_wire :
    (degrees : ℕ) (m : ControlMessage)
    → rotation degrees ≡ ok m
    → (decode_control (encode_control m) ≡ ok m)
      × (m.kind ≡ rotation_kind)
      × (rotation_degrees m ≡ degrees)
unfolding rotation rotation_degrees decode_control encode_control
rotation_over_wire degrees m h = ground arith

-- A rotation is refused, with the angle in the error, exactly if it is none of 0, 90, 180 and 270.
rotation_refuses :
    (degrees : ℕ) (e : ControlError)
    → (rotation degrees ≡ err e) ↔ (
        (e ≡ bad_rotation degrees)
        × (degrees ≢ 0)
        × (degrees ≢ 90)
        × (degrees ≢ 180)
        × (degrees ≢ 270))
unfolding rotation
rotation_refuses degrees e = (λ h. ground arith, λ h. ground arith)

-- The brightness that arrives is at most 100, and is the one asked for unless that was above 100.
brightness_over_wire :
    (percent : ℕ)
    → (m : ControlMessage) × (decode_control (encode_control (brightness percent)) ≡ ok m)
      × (m.kind ≡ brightness_kind)
      × (m.value ≤ 100)
      × ((percent ≤ 100) → m.value ≡ percent)
      × ((100 < percent) → m.value ≡ 100)
unfolding brightness decode_control encode_control
brightness_over_wire percent =
    (brightness percent, ground arith, refl, omega arith, λ h. omega arith, λ h. omega arith)

-- A buffer that decodes to a control message starts with the encoding of that message.
pub encode-decode_control :
    (buf : List ℕ) (m : ControlMessage) → decode_control buf ≡ ok m → take 2 buf ≡ encode_control m
unfolding decode_control encode_control
encode-decode_control [] m h = ground arith
encode-decode_control (k ∷ []) m h = ground arith
encode-decode_control (k ∷ v ∷ rest) m h = ground arith

-- Decoding a control message never indexes outside the buffer.
pub decode_control-ne-out_of_bounds : (buf : List ℕ) → decode_control buf ≢ err out_of_bounds
unfolding decode_control
decode_control-ne-out_of_bounds [] = ground arith
decode_control-ne-out_of_bounds (k ∷ []) = ground arith
decode_control-ne-out_of_bounds (k ∷ v ∷ rest) = ground arith
