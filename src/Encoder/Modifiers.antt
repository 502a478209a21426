-- ===== src/Encoder/Modifiers.antt =====
-- crates/encoder/src/lib.rs: the modifiers that the encoder can import, read off what GStreamer has
-- registered. GStreamer is a parameter: what it answers is in a `Registry`.
pub mod Distinct
pub mod Offered
use moreland_kde.Base.{
  ℕ, zero, suc, ◌+◌, ◌-◌, ◌*◌, ◌/◌, ◌%◌, ◌^◌, ◌≤◌, ◌<◌, min, max, bit_and, bit_or, ◌≡◌, refl, sym,
  ap, subst, ◌∙◌, ◌≢◌, ◌↔◌, ◌⊎◌, inl, inr, Bool, true, false, not, ◌&&◌, ◌||◌, Option, none, some,
  List, [], ◌∷◌, ◌++◌, map, arith, ltb, leb, ◌==◌, if◌then◌else◌, ltb→lt, lt→ltb, leb→le, le→leb,
  ==_iff, ==_refl, tests, Bool-cases, Option-cases, length, get_elem?, take, drop, replicate,
  keep_if, any, find_first, flatten, All, length-append, take-append-drop, length-take, length-drop,
  length-replicate, take_all, drop_all, All-append,
}
use moreland_kde.Base.Result.{Result, ok, err, ◌>>=◌, ◌>>◌, guard, >>=-eq-ok, guard_passed}
use moreland_kde.Base.Text.{
  Text, text, text_eq, text_eq_iff, text_eq_refl, is_whitespace, is_digit, is_upper, is_lower,
  is_ascii_alphanumeric, lower_char, to_ascii_lowercase, is_empty, starts_with, contains,
  strip_prefix, trim_start, trim_end, trim, push_front, starts_newline, lines, starts_word,
  split_whitespace, split_once, until, second_piece, parse_digits, parse_nonempty, parse_unsigned,
  u8_max, u16_max, u32_max,
}

-- A value of a field of caps: a string, a list of values, or of another type.
mutual
  pub data Value : Type 0 where
    string_value : Text → Value
    list_value : Values → Value
    other_value : Value

  pub data Values : Type 0 where
    no_values : Values
    value_and : Value → Values → Values

-- A pad template: whether it is a sink's, and the `drm-format` of each structure of its caps, where
-- the structure and the field are there.
pub record Template : Type 0 where
  pub is_sink : Bool
  pub drm_formats : List (Option Value)

-- `vapostproc` holds the templates of that factory, if it is registered.
pub record Registry : Type 0 where
  pub initialises : Bool
  pub nvidia_version_file : Bool
  pub nvh264enc : Bool
  pub vapostproc : Option (List Template)

abbrev pub u64_max : ℕ
u64_max = 18446744073709551615

abbrev pub hex_value : ℕ → Option ℕ
hex_value c =
    if is_digit c
    then some (c - b'0')
    else if leb b'a' c && leb c b'f'
    then some (c - b'a' + 10)
    else if leb b'A' c && leb c b'F'
    then some (c - b'A' + 10)
    else none

abbrev pub next_hex : ℕ → ℕ → Option ℕ → Option ℕ
next_hex max acc none = none
next_hex max acc (some d) = if leb (acc * 16 + d) max then some (acc * 16 + d) else none

-- The digits of a hexadecimal number that must not pass `max`.
abbrev pub hex_digits : ℕ → Option ℕ → Text → Option ℕ
hex_digits max none s = none
hex_digits max (some acc) [] = some acc
hex_digits max (some acc) (c ∷ s) = hex_digits max (next_hex max acc (hex_value c)) s

abbrev pub hex_nonempty : ℕ → Text → Option ℕ
hex_nonempty max [] = none
hex_nonempty max (c ∷ s) = hex_digits max (some 0) (c ∷ s)

-- `u64::from_str_radix(_, 16)`: an optional `+`, then at least one digit, and no overflow.
abbrev pub from_hex : ℕ → Text → Option ℕ
from_hex max [] = none
from_hex max (c ∷ s) = if c == b'+' then hex_nonempty max s else hex_nonempty max (c ∷ s)

abbrev pub and_then {ℓ} : {A B : Type ℓ} → Option A → (A → Option B) → Option B
and_then none f = none
and_then (some a) f = f a

abbrev pub or_else {ℓ} : {A : Type ℓ} → Option A → Option A → Option A
or_else none b = b
or_else (some a) b = some a

abbrev pub fourcc_and_modifier : Text → Option (Text × Text) → Text × Text
fourcc_and_modifier s none = (s, text "0")
fourcc_and_modifier s (some parts) = parts

abbrev pub parse_modifier : Text → Option ℕ
parse_modifier s =
    or_else (and_then (strip_prefix s (text "0x")) (from_hex u64_max)) (parse_unsigned u64_max s)

unfoldable pub parse_drm_format : Text → Text → Option ℕ
parse_drm_format s wanted =
    let parts = fourcc_and_modifier (trim s) (split_once b':' (trim s)) in
    if text_eq (trim parts.0) wanted then parse_modifier (trim parts.1) else none

abbrev pub has : ℕ → List ℕ → Bool
has x xs = any (λ y. y == x) xs

abbrev pub push_new : List ℕ → Option ℕ → List ℕ
push_new out none = out
push_new out (some m) = if has m out then out else out ++ (m ∷ [])

abbrev mutual
  pub collect_modifiers : Text → Value → List ℕ → List ℕ
  collect_modifiers wanted (string_value s) out = push_new out (parse_drm_format s wanted)
  collect_modifiers wanted (list_value vs) out = collect_all wanted vs out
  collect_modifiers wanted other_value out = out

  pub collect_all : Text → Values → List ℕ → List ℕ
  collect_all wanted no_values out = out
  collect_all wanted (value_and v vs) out = collect_all wanted vs (collect_modifiers wanted v out)

abbrev pub collect_structures : Text → List (Option Value) → List ℕ → List ℕ
collect_structures wanted [] out = out
collect_structures wanted (none ∷ vs) out = collect_structures wanted vs out
collect_structures wanted (some v ∷ vs) out =
    collect_structures wanted vs (collect_modifiers wanted v out)

abbrev pub collect_templates : Text → List Template → List ℕ → List ℕ
collect_templates wanted [] out = out
collect_templates wanted (t ∷ ts) out =
    collect_templates wanted ts
      (if t.is_sink then collect_structures wanted t.drm_formats out else out)

abbrev pub probed : Text → Bool → Option (List Template) → List ℕ
probed wanted true (some ts) = collect_templates wanted ts []
probed wanted true none = []
probed wanted false found = []

abbrev pub with_linear : List ℕ → List ℕ
with_linear ms = if has 0 ms then ms else ms ++ (0 ∷ [])

-- `fourcc_name` is the four bytes as text; what stands for bytes that are no UTF-8 is a parameter.
abbrev pub le_bytes : ℕ → List ℕ
le_bytes code = code % 256 ∷ code / 256 % 256 ∷ code / 65536 % 256 ∷ code / 16777216 % 256 ∷ []

unfoldable pub fourcc_name : (List ℕ → Text) → ℕ → Text
fourcc_name lossy code =
    let bytes = le_bytes code in if any (λ b. leb 128 b) bytes then lossy bytes else bytes

unfoldable pub supported_modifiers : (List ℕ → Text) → Registry → ℕ → List ℕ
supported_modifiers lossy g code =
    with_linear (probed (fourcc_name lossy code) g.initialises g.vapostproc)
