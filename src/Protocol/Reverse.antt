-- ===== src/Protocol/Reverse.antt =====
-- crates/protocol/src/lib.rs: the device -> host messages, `TouchMessage` and `ReverseMessage`.
pub mod Laws
use moreland_kde.Base.{
  ℕ, zero, suc, ◌+◌, ◌-◌, ◌*◌, ◌/◌, ◌%◌, ◌^◌, ◌≤◌, ◌<◌, min, max, bit_and, bit_or, ◌≡◌, refl, sym,
  ap, subst, ◌∙◌, ◌≢◌, ◌↔◌, ◌⊎◌, inl, inr, Bool, true, false, not, ◌&&◌, ◌||◌, Option, none, some,
  List, [], ◌∷◌, ◌++◌, map, arith, ltb, leb, ◌==◌, if◌then◌else◌, ltb→lt, lt→ltb, leb→le, le→leb,
  ==_iff, ==_refl, tests, Bool-cases, Option-cases, length, get_elem?, take, drop, replicate,
  keep_if, any, find_first, All, length-append, take-append-drop, length-take, length-drop,
  length-replicate, take_all, drop_all, All-append,
}
use moreland_kde.Base.Result.{Result, ok, err, ◌>>=◌, ◌>>◌, guard, >>=-eq-ok}
use moreland_kde.Protocol.Bytes.{to_be_bytes, from_be_bytes, write_at, index, slice, IsU16}

abbrev pub reverse_msg_len : ℕ
reverse_msg_len = 9

abbrev pub msg_ack : ℕ
msg_ack = 1

abbrev pub msg_touch : ℕ
msg_touch = 2

abbrev pub touch_len : ℕ
touch_len = 8

pub data TouchAction : Type 0 where
  down move up cancel : TouchAction

pub data ReverseError : Type 0 where
  unknown_action : ℕ → ReverseError
  touch_too_short : ℕ → ReverseError
  too_short : ℕ → ReverseError
  unknown_type : ℕ → ReverseError
  out_of_bounds : ReverseError

-- `self.action as u8`
unfoldable pub action_to_u8 : TouchAction → ℕ
action_to_u8 down = 0
action_to_u8 move = 1
action_to_u8 up = 2
action_to_u8 cancel = 3

unfoldable pub action_from_u8 : ℕ → Result ReverseError TouchAction
action_from_u8 v =
    if v == 0
    then ok down
    else if v == 1
    then ok move
    else if v == 2
    then ok up
    else if v == 3
    then ok cancel
    else err (unknown_action v)

-- The coordinates are u16.
pub record TouchMessage : Type 0 where
  pub action : TouchAction
  pub x : ℕ
  pub y : ℕ

abbrev pub TouchFits : TouchMessage → Type 0
TouchFits m = IsU16 m.x × IsU16 m.y

unfoldable pub encode_touch_payload : TouchMessage → List ℕ
unfolding action_to_u8
encode_touch_payload m =
    let buf = replicate touch_len 0 in
    let buf = write_at buf 0 (action_to_u8 m.action ∷ []) in
    let buf = write_at buf 1 (0 ∷ []) in
    let buf = write_at buf 2 (to_be_bytes 2 m.x) in write_at buf 4 (to_be_bytes 2 m.y)

abbrev pub read_u16 : List ℕ → ℕ → Result ReverseError ℕ
read_u16 buf i = do
  hi ← index out_of_bounds buf i
  lo ← index out_of_bounds buf (i + 1)
  ok (from_be_bytes (hi ∷ lo ∷ []))

unfoldable pub decode_touch_payload : List ℕ → Result ReverseError TouchMessage
unfolding action_from_u8
decode_touch_payload payload = do
  guard (not (ltb (length payload) touch_len)) (touch_too_short (length payload))
  code ← index out_of_bounds payload 0
  action ← action_from_u8 code
  x ← read_u16 payload 2
  y ← read_u16 payload 4
  ok (record { action = action; x = x; y = y })

unfoldable pub encode_ack : ℕ → List ℕ
encode_ack pts_ns =
    let buf = replicate reverse_msg_len 0 in
    let buf = write_at buf 0 (msg_ack ∷ []) in write_at buf 1 (to_be_bytes 8 pts_ns)

unfoldable pub encode_touch : TouchMessage → List ℕ
unfolding encode_touch_payload
encode_touch m =
    let buf = replicate reverse_msg_len 0 in
    let buf = write_at buf 0 (msg_touch ∷ []) in write_at buf 1 (encode_touch_payload m)

pub data ReverseMessage : Type 0 where
  ack : ℕ → ReverseMessage
  touch : TouchMessage → ReverseMessage

-- The `match` on the type byte.
unfoldable pub decode_body : List ℕ → ℕ → Result ReverseError ReverseMessage
unfolding decode_touch_payload
decode_body buf kind =
    if kind == msg_ack
    then (do pts ← slice out_of_bounds buf 1 9; ok (ack (from_be_bytes pts)))
    else if kind == msg_touch
    then (do payload ← slice out_of_bounds buf 1 9; m ← decode_touch_payload payload; ok (touch m))
    else err (unknown_type kind)

unfoldable pub decode_reverse_message : List ℕ → Result ReverseError ReverseMessage
unfolding decode_body
decode_reverse_message buf = do
  guard (not (ltb (length buf) reverse_msg_len)) (too_short (length buf))
  kind ← index out_of_bounds buf 0
  decode_body buf kind
