-- ===== src/Daemon/Config.antt =====
-- crates/daemon/src/session.rs and main.rs: the settings of a session, and what the command line collects.
pub mod Arguments
pub mod Ranges
use moreland_kde.Base.{
  ℕ, zero, suc, ◌+◌, ◌-◌, ◌*◌, ◌/◌, ◌%◌, ◌^◌, ◌≤◌, ◌<◌, min, max, bit_and, bit_or, ◌≡◌, refl, sym,
  ap, subst, ◌∙◌, ◌≢◌, ◌↔◌, ◌⊎◌, inl, inr, Bool, true, false, not, ◌&&◌, ◌||◌, Option, none, some,
  List, [], ◌∷◌, ◌++◌, map, arith, ltb, leb, ◌==◌, if◌then◌else◌, ltb→lt, lt→ltb, leb→le, le→leb,
  ==_iff, ==_refl, tests, Bool-cases, Option-cases, length, get_elem?, take, drop, replicate,
  keep_if, any, find_first, flatten, All, length-append, take-append-drop, length-take, length-drop,
  length-replicate, take_all, drop_all, All-append,
}
use moreland_kde.Base.Result.{Result, ok, err, ◌>>=◌, ◌>>◌, guard, >>=-eq-ok, guard_passed}
use moreland_kde.Base.Text.{
  Text, text, text_eq, text_eq_iff, text_eq_refl, is_whitespace, is_digit, is_upper, is_lower,
  is_ascii_alphanumeric, lower_char, to_ascii_lowercase, is_empty, starts_with, contains,
  strip_prefix, trim_start, trim_end, trim, push_front, starts_newline, lines, starts_word,
  split_whitespace, split_once, until, second_piece, parse_digits, parse_nonempty, parse_unsigned,
  u8_max, u16_max, u32_max,
}
use moreland_kde.Base.Int.{ℤ, pos, negsuc}
use moreland_kde.Base.Table.{Table, insert}
use moreland_kde.Protocol.Headers.{default_port}
use moreland_kde.Daemon.Registry.{SpawnArgs}

pub data TouchMode : Type 0 where
  screen_mode pointer_mode : TouchMode

-- `f32` as the command line uses it: `parse_positive` is `parse::<f32>()` with the test that the
-- value is above zero and finite. `parse_i32` is `parse::<i32>()`.
pub record Numbers : Type 1 where
  pub F32 : Type 0
  pub default_sensitivity : F32
  pub parse_positive : Text → Option F32
  pub parse_i32 : Text → Option ℤ

pub record Config (F : Type 0) : Type 0 where
  pub resolution : Option (ℕ × ℕ)
  pub max_width : ℕ
  pub fps : ℕ
  pub bitrate_kbps : ℕ
  pub position_x : ℤ
  pub position_y : ℤ
  pub output_name : Text
  pub port : ℕ
  pub paint_cursor : Bool
  pub stats : Bool
  pub brightness : Option ℕ
  pub rotation : ℕ
  pub enable_touch : Bool
  pub touch_mode : TouchMode
  pub pointer_sensitivity : F
  pub json_output : Bool

-- What `parse_args` collects; `width` and `height` are its local variables.
pub record Args (F : Type 0) : Type 0 where
  pub config : Config F
  pub explicit_output_name : Bool
  pub once : Bool
  pub seconds : Option ℕ
  pub width : Option ℕ
  pub height : Option ℕ
  pub brightness_overrides : Table ℕ
  pub rotation_overrides : Table ℕ

module _ (N : Numbers) where
  open N use {F32, default_sensitivity, parse_positive, parse_i32}

  -- `Config::default`.
  unfoldable pub default_config : Config F32
  default_config = record {
    resolution = none;
    max_width = 1920;
    fps = 90;
    bitrate_kbps = 20000;
    position_x = pos 0;
    position_y = pos 1080;
    output_name = text "moreland";
    port = default_port;
    paint_cursor = false;
    stats = false;
    brightness = none;
    rotation = 0;
    enable_touch = true;
    touch_mode = screen_mode;
    pointer_sensitivity = default_sensitivity;
    json_output = false;
  }

  unfoldable pub default_args : Args F32
  default_args = record {
    config = default_config;
    explicit_output_name = false;
    once = false;
    seconds = none;
    width = none;
    height = none;
    brightness_overrides = [];
    rotation_overrides = [];
  }
