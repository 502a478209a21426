-- ===== src/Daemon/Config/Arguments.antt =====
-- crates/daemon/src/main.rs: the command line.
use moreland_kde.Base.{
  ℕ, min, max, Bool, true, false, ◌||◌, Option, none, some, List, [], ◌∷◌, ◌==◌, if◌then◌else◌,
}
use moreland_kde.Base.Result.{Result, ok, err, ◌>>=◌}
use moreland_kde.Base.Text.{
  Text, text, text_eq, to_ascii_lowercase, split_once, parse_unsigned, u16_max, u32_max,
}
use moreland_kde.Base.Int.{ℤ}
use moreland_kde.Base.Table.{insert}
use moreland_kde.Daemon.Registry.{SpawnArgs}
use moreland_kde.Daemon.Config.{screen_mode, pointer_mode, Numbers, Args, default_args}

-- How the process ends before the daemon starts.
pub data Exit : Type 0 where
  bad_rotation bad_touch_mode help : Exit

abbrev pub u64_max : ℕ
u64_max = 18446744073709551615

-- `parse().ok()).unwrap_or(default)` on the next argument, which may be missing.
abbrev pub number_or : ℕ → ℕ → Option Text → ℕ
number_or max default none = default
number_or max default (some v) = elim (parse_unsigned max v) [ none ↦ default | some n ↦ n ]

abbrev pub or_default : {A : Type 0} → A → Option A → A
or_default default none = default
or_default default (some a) = a

-- A value with the serial that it is for, in lower case, if one stands before an `=`.
abbrev pub for_serial : Text → Option (Text × Text) → Option Text × Text
for_serial raw none = (none, raw)
for_serial raw (some ([], v)) = (none, raw)
for_serial raw (some (c ∷ s, v)) = (some (to_ascii_lowercase (c ∷ s)), v)

abbrev pub split_serial : Text → Option Text × Text
split_serial raw = for_serial raw (split_once b'=' raw)

abbrev pub degrees_of : Option ℕ → Option ℕ
degrees_of none = none
degrees_of (some n) = if n == 0 || n == 90 || n == 180 || n == 270 then some n else none

-- The options, and `other` for what the loop skips.
pub data Flag : Type 0 where
  width_flag height_flag max_width_flag native_flag fps_flag bitrate_flag position_flag : Flag
  position_y_flag output_name_flag brightness_flag rotation_flag show_cursor_flag : Flag
  no_touch_flag json_flag touch_mode_flag sensitivity_flag once_flag stats_flag : Flag
  seconds_flag help_flag other : Flag

abbrev pub spellings : List (Text × Flag)
spellings =
    (text "--width", width_flag)
    ∷ (text "--height", height_flag)
    ∷ (text "--max-width", max_width_flag)
    ∷ (text "--native", native_flag)
    ∷ (text "--fps", fps_flag)
    ∷ (text "--bitrate", bitrate_flag)
    ∷ (text "--position", position_flag)
    ∷ (text "--position-y", position_y_flag)
    ∷ (text "--output-name", output_name_flag)
    ∷ (text "-b", brightness_flag)
    ∷ (text "--brightness", brightness_flag)
    ∷ (text "--rotation", rotation_flag)
    ∷ (text "--show-cursor", show_cursor_flag)
    ∷ (text "--no-touch", no_touch_flag)
    ∷ (text "--json", json_flag)
    ∷ (text "--touch-mode", touch_mode_flag)
    ∷ (text "--pointer-sensitivity", sensitivity_flag)
    ∷ (text "--once", once_flag)
    ∷ (text "--stats", stats_flag)
    ∷ (text "--seconds", seconds_flag)
    ∷ (text "--help", help_flag)
    ∷ (text "-h", help_flag)
    ∷ []

abbrev pub flag_in : Text → List (Text × Flag) → Flag
flag_in arg [] = other
flag_in arg (s ∷ ss) = let rest = flag_in arg ss in if text_eq arg s.0 then s.1 else rest

unfoldable pub flag_of : Text → Flag
flag_of arg = flag_in arg spellings

-- Whether an option takes the next argument.
unfoldable pub takes_value : Flag → Bool
takes_value native_flag = false
takes_value show_cursor_flag = false
takes_value no_touch_flag = false
takes_value json_flag = false
takes_value once_flag = false
takes_value stats_flag = false
takes_value help_flag = false
takes_value other = false
takes_value _ = true

module _ (N : Numbers) where
  open N use {F32, parse_positive, parse_i32}

  -- `percent.min(100)`, for one device or for all.
  unfoldable pub set_brightness : Option Text → Option ℕ → Args F32 → Args F32
  set_brightness serial none a = a
  set_brightness none (some percent) a = record a {
    config = record a.config { brightness = some (min percent 100) };
  }
  set_brightness (some s) (some percent) a = record a {
    brightness_overrides = insert s (min percent 100) a.brightness_overrides;
  }

  unfoldable pub set_rotation : Option Text → Option ℕ → Args F32 → Result Exit (Args F32)
  set_rotation serial none a = err bad_rotation
  set_rotation none (some degrees) a =
      ok (record a { config = record a.config { rotation = degrees } })
  set_rotation (some s) (some degrees) a =
      ok (record a { rotation_overrides = insert s degrees a.rotation_overrides })

  unfoldable pub set_touch_mode : Text → Args F32 → Result Exit (Args F32)
  set_touch_mode raw a =
      if text_eq raw (text "screen") || text_eq raw (text "touchscreen")
      then ok (record a { config = record a.config { touch_mode = screen_mode } })
      else if text_eq raw (text "pointer") || text_eq raw (text "mouse")
      then ok (record a { config = record a.config { touch_mode = pointer_mode } })
      else err bad_touch_mode

  abbrev pub set_position_x : Option ℤ → Args F32 → Args F32
  set_position_x v a = record a {
    config = record a.config { position_x = or_default a.config.position_x v };
  }

  abbrev pub set_position_y : Option ℤ → Args F32 → Args F32
  set_position_y v a = record a {
    config = record a.config { position_y = or_default a.config.position_y v };
  }

  abbrev pub set_output_name : Option Text → Args F32 → Args F32
  set_output_name none a = a
  set_output_name (some name) a = record a {
    config = record a.config { output_name = name };
    explicit_output_name = true;
  }

  abbrev pub set_sensitivity : Option F32 → Args F32 → Args F32
  set_sensitivity none a = a
  set_sensitivity (some v) a = record a { config = record a.config { pointer_sensitivity = v } }

  abbrev pub parsed : {A : Type 0} → (Text → Option A) → Option Text → Option A
  parsed parse none = none
  parsed parse (some v) = parse v

  -- What an option does, with the argument behind it if it takes one and there is one.
  unfoldable pub apply : Flag → Option Text → Args F32 → Result Exit (Args F32)
  apply width_flag v a = ok (record a { width = some (number_or u32_max 1920 v) })
  apply height_flag v a = ok (record a { height = some (number_or u32_max 1200 v) })
  apply max_width_flag v a =
      ok (record a { config = record a.config { max_width = number_or u32_max 1920 v } })
  apply native_flag v a = ok (record a { config = record a.config { max_width = u32_max } })
  apply fps_flag v a = ok (record a { config = record a.config { fps = number_or u32_max 60 v } })
  apply bitrate_flag v a =
      ok (record a { config = record a.config { bitrate_kbps = number_or u32_max 20000 v } })
  apply position_flag v a = ok (set_position_x (parsed parse_i32 v) a)
  apply position_y_flag v a = ok (set_position_y (parsed parse_i32 v) a)
  apply output_name_flag v a = ok (set_output_name v a)
  apply brightness_flag v a =
      let raw = or_default [] v in
      ok (set_brightness (split_serial raw).0 (parse_unsigned u32_max (split_serial raw).1) a)
  apply rotation_flag v a =
      let raw = or_default [] v in
      set_rotation (split_serial raw).0 (degrees_of (parse_unsigned u16_max (split_serial raw).1)) a
  apply show_cursor_flag v a = ok (record a { config = record a.config { paint_cursor = true } })
  apply no_touch_flag v a = ok (record a { config = record a.config { enable_touch = false } })
  apply json_flag v a = ok (record a { config = record a.config { json_output = true } })
  apply touch_mode_flag v a = set_touch_mode (or_default [] v) a
  apply sensitivity_flag v a = ok (set_sensitivity (parse_positive (or_default [] v)) a)
  apply once_flag v a = ok (record a { once = true })
  apply stats_flag v a = ok (record a { config = record a.config { stats = true } })
  apply seconds_flag v a = ok (record a {
    seconds = parsed (parse_unsigned u64_max) v;
    config = record a.config { stats = true };
  })
  apply help_flag v a = err help
  apply other v a = ok a

  unfoldable pub parse_loop : List Text → Args F32 → Result Exit (Args F32)
  parse_loop [] a = ok a
  parse_loop (arg ∷ []) a = apply (flag_of arg) none a
  parse_loop (arg ∷ v ∷ rest) a =
      if takes_value (flag_of arg)
      then apply (flag_of arg) (some v) a >>= (λ b. parse_loop rest b)
      else apply (flag_of arg) none a >>= (λ b. parse_loop (v ∷ rest) b)

  -- Only a width and a height together pin the resolution.
  abbrev pub pair_of : Option ℕ → Option ℕ → Option (ℕ × ℕ)
  pair_of (some w) (some h) = some (w, h)
  pair_of (some w) none = none
  pair_of none (some h) = none
  pair_of none none = none

  abbrev pub pin_resolution : Args F32 → Args F32
  pin_resolution a = record a { config = record a.config { resolution = pair_of a.width a.height } }

  -- `parse_args`, on the arguments behind the program's name.
  unfoldable pub parse_args : List Text → Result Exit (Args F32)
  parse_args argv = parse_loop argv (default_args N) >>= (λ a. ok (pin_resolution a))

  -- The part of the arguments that starts sessions.
  unfoldable pub spawn_args : Args F32 → SpawnArgs
  spawn_args a = record {
    base_port = a.config.port;
    output_name = a.config.output_name;
    explicit_output_name = a.explicit_output_name;
    once = a.once;
    brightness = a.config.brightness;
    rotation = a.config.rotation;
    brightness_overrides = a.brightness_overrides;
    rotation_overrides = a.rotation_overrides;
  }
