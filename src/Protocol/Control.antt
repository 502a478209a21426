-- ===== src/Protocol/Control.antt =====
-- crates/protocol/src/lib.rs: `ControlKind` and `ControlMessage`.
pub mod Laws
use moreland_kde.Base.{
  ℕ, zero, suc, ◌+◌, ◌-◌, ◌*◌, ◌/◌, ◌%◌, ◌^◌, ◌≤◌, ◌<◌, min, max, bit_and, bit_or, ◌≡◌, refl, sym,
  ap, subst, ◌∙◌, ◌≢◌, ◌↔◌, ◌⊎◌, inl, inr, Bool, true, false, not, ◌&&◌, ◌||◌, Option, none, some,
  List, [], ◌∷◌, ◌++◌, map, arith, ltb, leb, ◌==◌, if◌then◌else◌, ltb→lt, lt→ltb, leb→le, le→leb,
  ==_iff, ==_refl, tests, Bool-cases, Option-cases, length, get_elem?, take, drop, replicate,
  keep_if, any, find_first, All, length-append, take-append-drop, length-take, length-drop,
  length-replicate, take_all, drop_all, All-append,
}
use moreland_kde.Base.Result.{Result, ok, err, ◌>>=◌, ◌>>◌, guard, >>=-eq-ok}
use moreland_kde.Protocol.Bytes.{index}

pub data ControlKind : Type 0 where
  brightness_kind rotation_kind : ControlKind

pub data ControlError : Type 0 where
  unknown_kind : ℕ → ControlError
  bad_rotation : ℕ → ControlError
  too_short : ℕ → ControlError
  out_of_bounds : ControlError

-- `self.kind as u8`
unfoldable pub kind_to_u8 : ControlKind → ℕ
kind_to_u8 brightness_kind = 1
kind_to_u8 rotation_kind = 2

unfoldable pub kind_from_u8 : ℕ → Result ControlError ControlKind
kind_from_u8 v =
    if v == 1 then ok brightness_kind else if v == 2 then ok rotation_kind else err (unknown_kind v)

pub record ControlMessage : Type 0 where
  pub kind : ControlKind
  pub value : ℕ

abbrev pub control_len : ℕ
control_len = 2

unfoldable pub brightness : ℕ → ControlMessage
brightness percent = record { kind = brightness_kind; value = min percent 100 }

unfoldable pub rotation_value : ℕ → Result ControlError ℕ
rotation_value degrees =
    if degrees == 0
    then ok 0
    else if degrees == 90
    then ok 1
    else if degrees == 180
    then ok 2
    else if degrees == 270
    then ok 3
    else err (bad_rotation degrees)

unfoldable pub rotation : ℕ → Result ControlError ControlMessage
unfolding rotation_value
rotation degrees = do
  value ← rotation_value degrees
  ok (record { kind = rotation_kind; value = value })

unfoldable pub rotation_degrees : ControlMessage → ℕ
rotation_degrees m =
    if m.value == 0
    then 0
    else if m.value == 1
    then 90
    else if m.value == 2
    then 180
    else if m.value == 3
    then 270
    else 0

unfoldable pub encode_control : ControlMessage → List ℕ
unfolding kind_to_u8
encode_control m = kind_to_u8 m.kind ∷ m.value ∷ []

unfoldable pub decode_control : List ℕ → Result ControlError ControlMessage
unfolding kind_from_u8
decode_control buf = do
  guard (not (ltb (length buf) control_len)) (too_short (length buf))
  k ← index out_of_bounds buf 0
  kind ← kind_from_u8 k
  v ← index out_of_bounds buf 1
  ok (record { kind = kind; value = v })
