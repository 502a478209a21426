-- ===== src/Transport/Adb.antt =====
-- crates/transport/src/adb.rs: parsing of `adb` output and the streaming resolution.
pub mod Laws
use moreland_kde.Base.{
  ℕ, zero, suc, ◌+◌, ◌-◌, ◌*◌, ◌/◌, ◌%◌, ◌^◌, ◌≤◌, ◌<◌, min, max, bit_and, bit_or, ◌≡◌, refl, sym,
  ap, subst, ◌∙◌, ◌≢◌, ◌↔◌, ◌⊎◌, inl, inr, Bool, true, false, not, ◌&&◌, ◌||◌, Option, none, some,
  List, [], ◌∷◌, ◌++◌, map, arith, ltb, leb, ◌==◌, if◌then◌else◌, ltb→lt, lt→ltb, leb→le, le→leb,
  ==_iff, ==_refl, tests, Bool-cases, Option-cases, length, get_elem?, take, drop, replicate,
  keep_if, any, find_first, flatten, All, length-append, take-append-drop, length-take, length-drop,
  length-replicate, take_all, drop_all, All-append,
}
use moreland_kde.Base.Result.{Result, ok, err, ◌>>=◌, ◌>>◌, guard, >>=-eq-ok, guard_passed}
use moreland_kde.Base.Text.{
  Text, text, text_eq, text_eq_iff, text_eq_refl, is_whitespace, is_digit, is_upper, is_lower,
  is_ascii_alphanumeric, lower_char, to_ascii_lowercase, is_empty, starts_with, contains,
  strip_prefix, trim_start, trim_end, trim, push_front, starts_newline, lines, starts_word,
  split_whitespace, split_once, until, second_piece, parse_digits, parse_nonempty, parse_unsigned,
  u8_max, u16_max, u32_max,
}

pub data AdbError : Type 0 where
  unparsed_size : Text → AdbError
  zero_dimension : ℕ → ℕ → AdbError
  divide_by_zero : AdbError

pub record Device : Type 0 where
  pub serial : Text
  pub model : Option Text

-- `trim_start_matches("model:")`: the prefix is taken off as often as it stands there.
unfoldable pub trim_model : ℕ → Text → Text
trim_model zero f = f
trim_model (suc fuel) f = elim (strip_prefix f (text "model:")) [
  | none ↦ f
  | some rest ↦ trim_model fuel rest
]

unfoldable pub model_of : List Text → Option Text
unfolding trim_model
model_of fields = elim (find_first (λ f. starts_with f (text "model:")) fields) [
  | none ↦ none
  | some f ↦ some (trim_model (length f) f)
]

-- The loop's body on the words of a line: `none` is `continue`.
unfoldable pub device_of_words : List Text → Option Device
unfolding model_of
device_of_words [] = none
device_of_words (serial ∷ []) = none
device_of_words (serial ∷ state ∷ fields) =
    if text_eq state (text "device")
    then some (record { serial = serial; model = model_of fields })
    else none

unfoldable pub device_of_line : Text → Option Device
unfolding device_of_words
device_of_line line =
    let line = trim line in if is_empty line then none else device_of_words (split_whitespace line)

abbrev pub push_some : Option Device → List Device → List Device
push_some none ds = ds
push_some (some d) ds = d ∷ ds

unfoldable pub devices_of_lines : List Text → List Device
unfolding device_of_line
devices_of_lines [] = []
devices_of_lines (l ∷ ls) = push_some (device_of_line l) (devices_of_lines ls)

-- `devices` on the output of `adb devices -l`, whose first line is a heading.
unfoldable pub devices : Text → List Device
unfolding devices_of_lines
devices out = devices_of_lines (drop 1 (lines out))

-- The closure `parse` of `display_size`.
unfoldable pub parse_size : Text → Text → Option (ℕ × ℕ)
parse_size out prefix = elim (find_first (λ l. starts_with (trim l) prefix) (lines out)) [
  | none ↦ none
  | some line ↦ elim (second_piece b':' line) [
    | none ↦ none
    | some spec ↦ elim (split_once b'x' (trim spec)) [
      | none ↦ none
      | some p ↦ elim (parse_unsigned u32_max (trim p.0)) [
        | none ↦ none
        | some w ↦ elim (parse_unsigned u32_max (trim p.1)) [ none ↦ none | some h ↦ some (w, h) ]
      ]
    ]
  ]
]

abbrev pub or_else : Option (ℕ × ℕ) → Option (ℕ × ℕ) → Option (ℕ × ℕ)
or_else (some a) b = some a
or_else none b = b

-- The end of `display_size`: the panel in landscape orientation.
unfoldable pub landscape : Text → Option (ℕ × ℕ) → Result AdbError (ℕ × ℕ)
landscape out none = err (unparsed_size out)
landscape out (some (w, h)) =
    if w == 0 || h == 0 then err (zero_dimension w h) else if leb h w then ok (w, h) else ok (h, w)

-- `display_size` on the output of `wm size`.
unfoldable pub display_size : Text → Result AdbError (ℕ × ℕ)
unfolding landscape
display_size out =
    landscape out
      (or_else (parse_size out (text "Override size")) (parse_size out (text "Physical size")))

-- `value & !1`.
unfoldable pub align2 : ℕ → ℕ
align2 value = value - value % 2

-- The fields are u32; the product is taken in 64 bits and the quotient is cut to 32. A panel of
-- width 0 is a panic of the division.
unfoldable pub stream_resolution : ℕ × ℕ → ℕ → Result AdbError (ℕ × ℕ)
unfolding align2
stream_resolution (pw, ph) max_width =
    let width = max (min pw max_width) 2 in
    let height = width * ph / pw % 4294967296 in
    if pw == 0 then err divide_by_zero else ok (align2 width, align2 (max height 2))
