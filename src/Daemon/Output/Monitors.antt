-- ===== src/Daemon/Output/Monitors.antt =====
-- crates/daemon/src/output.rs: the state of Hyprland's monitors, read before an output is created and
-- restored after. JSON is read by a library, and a float is known by the texts it is printed as.
pub mod Restoring
use moreland_kde.Base.{
  ℕ, zero, suc, ◌+◌, ◌-◌, ◌*◌, ◌/◌, ◌%◌, ◌^◌, ◌≤◌, ◌<◌, min, max, bit_and, bit_or, ◌≡◌, refl, sym,
  ap, subst, ◌∙◌, ◌≢◌, ◌↔◌, ◌⊎◌, inl, inr, Bool, true, false, not, ◌&&◌, ◌||◌, Option, none, some,
  List, [], ◌∷◌, ◌++◌, map, arith, ltb, leb, ◌==◌, if◌then◌else◌, ltb→lt, lt→ltb, leb→le, le→leb,
  ==_iff, ==_refl, tests, Bool-cases, Option-cases, length, get_elem?, take, drop, replicate,
  keep_if, any, find_first, flatten, All, length-append, take-append-drop, length-take, length-drop,
  length-replicate, take_all, drop_all, All-append,
}
use moreland_kde.Base.Result.{Result, ok, err, ◌>>=◌, ◌>>◌, guard, >>=-eq-ok, guard_passed}
use moreland_kde.Base.Text.{
  Text, text, text_eq, text_eq_iff, text_eq_refl, is_whitespace, is_digit, is_upper, is_lower,
  is_ascii_alphanumeric, lower_char, to_ascii_lowercase, is_empty, starts_with, contains,
  strip_prefix, trim_start, trim_end, trim, push_front, starts_newline, lines, starts_word,
  split_whitespace, split_once, until, second_piece, parse_digits, parse_nonempty, parse_unsigned,
  u8_max, u16_max, u32_max,
}
use moreland_kde.Base.Int.{ℤ, pos, negsuc}
use moreland_kde.Daemon.Output.{
  World, Command, OutputError, Ran, run, after, not_json, not_an_array, missing, out_of_range,
}
use moreland_kde.Daemon.Output.Lua.{lua_string}

-- An f64: its `{:.6}` and its `{}`.
pub record Float : Type 0 where
  pub six_digits : Text
  pub shown : Text

-- What the fields of a monitor in the JSON hold, where they are there and of the kind asked for.
pub record JsonMonitor : Type 0 where
  pub name_field : Option Text
  pub x_field : Option ℤ
  pub y_field : Option ℤ
  pub width_field : Option ℕ
  pub height_field : Option ℕ
  pub refresh_field : Option Float
  pub scale_field : Option Float
  pub transform_field : Option ℤ

-- The JSON library: a text that is no JSON, one that is no array, or the elements.
abbrev pub JsonReader : Type 0
JsonReader = Text → Option (Option (List JsonMonitor))

pub record MonitorState : Type 0 where
  pub name : Text
  pub x : ℤ
  pub y : ℤ
  pub width : ℕ
  pub height : ℕ
  pub refresh_rate : Float
  pub scale : Float
  pub transform : ℤ

abbrev pub field {ℓ} : {A : Type ℓ} → Text → Option A → Result OutputError A
field key none = err (missing key)
field key (some a) = ok a

-- `i32::try_from`
abbrev pub to_i32 : Text → ℤ → Result OutputError ℤ
to_i32 key (pos n) = if leb n 2147483647 then ok (pos n) else err (out_of_range key)
to_i32 key (negsuc n) = if leb n 2147483647 then ok (negsuc n) else err (out_of_range key)

-- `u32::try_from`
abbrev pub to_u32 : Text → ℕ → Result OutputError ℕ
to_u32 key n = if leb n u32_max then ok n else err (out_of_range key)

unfoldable pub monitor_state : JsonMonitor → Result OutputError MonitorState
monitor_state j = field (text "name") j.name_field >>= λ name. field (text "x") j.x_field >>= λ x.
    field (text "y") j.y_field >>= λ y. field (text "width") j.width_field >>= λ width.
    field (text "height") j.height_field >>= λ height.
    field (text "refreshRate") j.refresh_field >>= λ refresh.
    field (text "scale") j.scale_field >>= λ scale.
    field (text "transform") j.transform_field >>= λ transform. to_i32 (text "x") x >>= λ x'.
    to_i32 (text "y") y >>= λ y'. to_u32 (text "width") width >>= λ width'.
    to_u32 (text "height") height >>= λ height'.
    to_i32 (text "transform") transform >>= λ transform'. ok (record {
      name = name;
      x = x';
      y = y';
      width = width';
      height = height';
      refresh_rate = refresh;
      scale = scale;
      transform = transform';
    })

unfoldable pub monitor_states : List JsonMonitor → Result OutputError (List MonitorState)
monitor_states [] = ok []
monitor_states (j ∷ js) = monitor_state j >>= λ m. monitor_states js >>= λ ms. ok (m ∷ ms)

abbrev pub read_monitors :
    Option (Option (List JsonMonitor)) → Result OutputError (List MonitorState)
read_monitors none = err not_json
read_monitors (some none) = err not_an_array
read_monitors (some (some js)) = monitor_states js

unfoldable pub hyprland_monitor_state : JsonReader → World → List Command → Ran (List MonitorState)
hyprland_monitor_state json w log =
    after (run w (text "hyprctl", text "monitors" ∷ text "-j" ∷ []) log)
      (λ out log'. (read_monitors (json out), log'))

-- A number in decimal digits; twenty are enough for a u64.
abbrev pub last_digits : ℕ → ℕ → Text → Text
last_digits zero n acc = acc
last_digits (suc fuel) n acc =
    let more = last_digits fuel (n / 10) ((b'0' + n % 10) ∷ acc) in
    if ltb n 10 then (b'0' + n % 10) ∷ acc else more

abbrev pub decimal : ℕ → Text
decimal n = last_digits 20 n []

abbrev pub decimal_ℤ : ℤ → Text
decimal_ℤ (pos n) = decimal n
decimal_ℤ (negsuc n) = b'-' ∷ decimal (n + 1)

-- `trim_end_matches`
abbrev pub trim_end_matches : ℕ → Text → Text
trim_end_matches c [] = []
trim_end_matches c (d ∷ s) =
    let rest = trim_end_matches c s in if d == c && is_empty rest then [] else d ∷ rest

unfoldable pub refresh_text : Float → Text
refresh_text f = trim_end_matches b'.' (trim_end_matches b'0' f.six_digits)

unfoldable pub monitor_rule : MonitorState → Text
monitor_rule m =
    text "hl.monitor({ output = "
    ++ lua_string m.name
    ++ text ", mode = \""
    ++ decimal m.width
    ++ text "x"
    ++ decimal m.height
    ++ text "@"
    ++ refresh_text m.refresh_rate
    ++ text "\", position = \""
    ++ decimal_ℤ m.x
    ++ text "x"
    ++ decimal_ℤ m.y
    ++ text "\", scale = "
    ++ m.scale.shown
    ++ text ", transform = "
    ++ decimal_ℤ m.transform
    ++ text " })"

abbrev pub semicolon : Text
semicolon = text "; "

-- The loop: a rule and `"; "` for every monitor but the excluded one.
unfoldable pub rules : List MonitorState → Text → Text
rules [] excluded = []
rules (m ∷ ms) excluded =
    let rest = rules ms excluded in
    if text_eq m.name excluded then rest else monitor_rule m ++ semicolon ++ rest

abbrev pub ends_with : Text → Text → Bool
ends_with [] p = text_eq [] p
ends_with (c ∷ s) p = text_eq (c ∷ s) p || ends_with s p

-- `truncate` at two less than the length, if the text ends so.
unfoldable pub drop_last_semicolon : Text → Text
drop_last_semicolon s = if ends_with s semicolon then take (length s - 2) s else s

unfoldable pub restore_hyprland_monitor_state :
    World → List MonitorState → Text → List Command → Ran (Unit {0})
restore_hyprland_monitor_state w states excluded log =
    after
      (run w (text "hyprctl", text "eval" ∷ drop_last_semicolon (rules states excluded) ∷ []) log)
      (λ out log'. (ok tt, log'))
