-- ===== src/Daemon/Config/Ranges.antt =====
-- crates/daemon/src/main.rs: the ranges that the command line keeps to, up to the settings of a session.
use moreland_kde.Base.{
  ℕ, min, ◌≡◌, refl, sym, ap, subst, ◌∙◌, inl, inr, Bool, true, ◌||◌, Option, none, some, List, [],
  ◌∷◌, arith, leb, ◌==◌, Bool-cases, All,
}
use moreland_kde.Base.Result.{Result, ok, err, ◌>>=◌}
use moreland_kde.Base.Text.{Text, text, text_eq, to_ascii_lowercase, parse_unsigned, u16_max}
use moreland_kde.Base.Table.{Table, lookup, All-keep_if}
use moreland_kde.Daemon.Registry.{session_config, override_brightness, override_rotation}
use moreland_kde.Daemon.Config.{Numbers, Args, default_config, default_args}
use moreland_kde.Daemon.Config.Arguments.{
  Exit, Flag, split_serial, degrees_of, flag_of, takes_value, set_brightness, set_rotation,
  set_touch_mode, apply, parse_loop, parse_args, spawn_args, width_flag, height_flag,
  max_width_flag, native_flag, fps_flag, bitrate_flag, position_flag, position_y_flag,
  output_name_flag, brightness_flag, rotation_flag, show_cursor_flag, no_touch_flag, json_flag,
  touch_mode_flag, sensitivity_flag, once_flag, stats_flag, seconds_flag, help_flag, other,
  or_default, set_output_name, set_sensitivity,
}

-- The four rotations.
abbrev pub is_rotation : ℕ → Bool
is_rotation n = n == 0 || n == 90 || n == 180 || n == 270

abbrev pub percent_fits : Option ℕ → Bool
percent_fits none = true
percent_fits (some n) = leb n 100

-- Rotations are among the four, and brightness is a percentage, for all devices and for single ones.
record InRange {F : Type 0} (a : Args F) : Type 0 where
  rotation : is_rotation a.config.rotation ≡ true
  brightness : percent_fits a.config.brightness ≡ true
  rotations : All (λ e. is_rotation e.1 ≡ true) a.rotation_overrides
  percents : All (λ e. leb e.1 100 ≡ true) a.brightness_overrides

degrees_of_lem : (o : Option ℕ) (n : ℕ) → degrees_of o ≡ some n → is_rotation n ≡ true
degrees_of_lem none n h = absurd (cc)
degrees_of_lem (some m) n h = ground (arith, h)

min_fits : (n : ℕ) → leb (min n 100) 100 ≡ true
min_fits n = ground arith

module _ (N : Numbers) where
  set_brightness-InRange :
      (serial : Option Text) (o : Option ℕ) (a : Args N.F32)
      → InRange a
      → InRange (set_brightness N serial o a)
  unfolding set_brightness
  set_brightness-InRange serial none a v = v
  set_brightness-InRange none (some n) a v = record {
    rotation = v.rotation;
    brightness = min_fits n;
    rotations = v.rotations;
    percents = v.percents;
  }
  set_brightness-InRange (some s) (some n) a v = record {
    rotation = v.rotation;
    brightness = v.brightness;
    rotations = v.rotations;
    percents = (min_fits n, All-keep_if _ _ a.brightness_overrides v.percents);
  }

  abbrev Kept : Result Exit (Args N.F32) → Type 0
  Kept (ok a) = InRange a
  Kept (err e) = Unit {0}

  >>=-Kept :
      (m : Result Exit (Args N.F32)) (f : Args N.F32 → Result Exit (Args N.F32))
      → Kept m
      → ((a : Args N.F32) → InRange a → Kept (f a))
      → Kept (m >>= f)
  >>=-Kept (ok a) f v later = later a v
  >>=-Kept (err e) f v later = tt

  set_rotation-Kept :
      (serial : Option Text) (o : Option ℕ) (a : Args N.F32)
      → ((n : ℕ) → o ≡ some n → is_rotation n ≡ true)
      → InRange a
      → Kept (set_rotation N serial o a)
  unfolding set_rotation
  set_rotation-Kept serial none a fits v = tt
  set_rotation-Kept none (some n) a fits v = record {
    rotation = fits n refl;
    brightness = v.brightness;
    rotations = v.rotations;
    percents = v.percents;
  }
  set_rotation-Kept (some s) (some n) a fits v = record {
    rotation = v.rotation;
    brightness = v.brightness;
    rotations = (fits n refl, All-keep_if _ _ a.rotation_overrides v.rotations);
    percents = v.percents;
  }

  -- A change of other settings.
  same :
      (a b : Args N.F32)
      → b.config.rotation ≡ a.config.rotation
      → b.config.brightness ≡ a.config.brightness
      → b.rotation_overrides ≡ a.rotation_overrides
      → b.brightness_overrides ≡ a.brightness_overrides
      → InRange a
      → InRange b
  same a b r p rs ps v = record {
    rotation = rw r v.rotation;
    brightness = rw p v.brightness;
    rotations = rw rs v.rotations;
    percents = rw ps v.percents;
  }

  set_touch_mode-Kept : (raw : Text) (a : Args N.F32) → InRange a → Kept (set_touch_mode N raw a)
  unfolding set_touch_mode
  set_touch_mode-Kept raw a v =
      elim (Bool-cases (text_eq raw (text "screen") || text_eq raw (text "touchscreen"))) [
        | inl is_screen ↦ rw is_screen (same a _ refl refl refl refl v)
        | inr not_screen ↦
            elim (Bool-cases (text_eq raw (text "pointer") || text_eq raw (text "mouse"))) [
              | inl is_pointer ↦ rw (not_screen, is_pointer) (same a _ refl refl refl refl v)
              | inr neither ↦ rw (not_screen, neither) tt
            ]
      ]

  set_output_name-InRange :
      (o : Option Text) (a : Args N.F32) → InRange a → InRange (set_output_name N o a)
  set_output_name-InRange none a v = v
  set_output_name-InRange (some n) a v = same a _ refl refl refl refl v

  set_sensitivity-InRange :
      (o : Option N.F32) (a : Args N.F32) → InRange a → InRange (set_sensitivity N o a)
  set_sensitivity-InRange none a v = v
  set_sensitivity-InRange (some n) a v = same a _ refl refl refl refl v

  apply-Kept : (f : Flag) (v : Option Text) (a : Args N.F32) → InRange a → Kept (apply N f v a)
  unfolding apply
  apply-Kept width_flag v a i = same a _ refl refl refl refl i
  apply-Kept height_flag v a i = same a _ refl refl refl refl i
  apply-Kept max_width_flag v a i = same a _ refl refl refl refl i
  apply-Kept native_flag v a i = same a _ refl refl refl refl i
  apply-Kept fps_flag v a i = same a _ refl refl refl refl i
  apply-Kept bitrate_flag v a i = same a _ refl refl refl refl i
  apply-Kept position_flag v a i = same a _ refl refl refl refl i
  apply-Kept position_y_flag v a i = same a _ refl refl refl refl i
  apply-Kept output_name_flag v a i = set_output_name-InRange v a i
  apply-Kept brightness_flag v a i = set_brightness-InRange _ _ a i
  apply-Kept rotation_flag v a i =
      set_rotation-Kept _ _ a
        (λ n h. degrees_of_lem (parse_unsigned u16_max (split_serial (or_default [] v)).1) n h) i
  apply-Kept show_cursor_flag v a i = same a _ refl refl refl refl i
  apply-Kept no_touch_flag v a i = same a _ refl refl refl refl i
  apply-Kept json_flag v a i = same a _ refl refl refl refl i
  apply-Kept touch_mode_flag v a i = set_touch_mode-Kept _ a i
  apply-Kept sensitivity_flag v a i = set_sensitivity-InRange _ a i
  apply-Kept once_flag v a i = same a _ refl refl refl refl i
  apply-Kept stats_flag v a i = same a _ refl refl refl refl i
  apply-Kept seconds_flag v a i = same a _ refl refl refl refl i
  apply-Kept help_flag v a i = tt
  apply-Kept other v a i = i

  parse_loop-Kept : (argv : List Text) (a : Args N.F32) → InRange a → Kept (parse_loop N argv a)
  unfolding parse_loop
  parse_loop-Kept [] a v = v
  parse_loop-Kept (arg ∷ []) a v = apply-Kept (flag_of arg) none a v
  parse_loop-Kept (arg ∷ w ∷ rest) a v = elim (Bool-cases (takes_value (flag_of arg))) [
    | inl takes ↦ rw takes (
        >>=-Kept (apply N (flag_of arg) (some w) a) (λ b. parse_loop N rest b)
          (apply-Kept (flag_of arg) (some w) a v) (parse_loop-Kept rest))
    | inr alone ↦ rw alone (
        >>=-Kept (apply N (flag_of arg) none a) (λ b. parse_loop N (w ∷ rest) b)
          (apply-Kept (flag_of arg) none a v) (parse_loop-Kept (w ∷ rest)))
  ]

  default_args-InRange : InRange (default_args N)
  unfolding default_args default_config
  default_args-InRange = record {
    rotation = refl;
    brightness = refl;
    rotations = tt;
    percents = tt;
  }

  parse_args-Kept : (argv : List Text) → Kept (parse_args N argv)
  unfolding parse_args
  parse_args-Kept argv =
      >>=-Kept (parse_loop N argv (default_args N)) _ (parse_loop-Kept argv _ default_args-InRange)
        (λ a v. same a _ refl refl refl refl v)

lookup-All :
    (p : ℕ → Bool) (k : Text) (t : Table ℕ) (n : ℕ)
    → All (λ e. p e.1 ≡ true) t
    → lookup k t ≡ some n
    → p n ≡ true
lookup-All p k [] n h e = absurd (cc)
lookup-All p k (x ∷ t) n h e = elim (Bool-cases (text_eq x.0 k)) [
  | inl there ↦ let same_value : x.1 ≡ n = ground (arith, there, e) in ap p (sym same_value) ∙ h.0
  | inr apart ↦ lookup-All p k t n h.1 (ground (arith, apart, e))
]

override_rotation-fits :
    (o : Option ℕ) (default : ℕ)
    → ((n : ℕ) → o ≡ some n → is_rotation n ≡ true)
    → is_rotation default ≡ true
    → is_rotation (override_rotation o default) ≡ true
override_rotation-fits none default h d = d
override_rotation-fits (some n) default h d = h n refl

override_brightness-fits :
    (o default : Option ℕ)
    → ((n : ℕ) → o ≡ some n → leb n 100 ≡ true)
    → percent_fits default ≡ true
    → percent_fits (override_brightness o default) ≡ true
override_brightness-fits none default h d = d
override_brightness-fits (some n) default h d = h n refl

-- Whatever the command line is, if the daemon starts with it, every session that it runs, on any
-- device, port and name, has one of the four rotations, and no brightness above 100.
pub parse_args-session_config :
    (N : Numbers) (argv : List Text) (a : Args N.F32) (serial output_name : Text) (port : ℕ)
    → parse_args N argv ≡ ok a
    → let c = session_config serial (spawn_args N a) port output_name in
      (is_rotation c.rotation ≡ true) × (percent_fits c.brightness ≡ true)
unfolding session_config spawn_args
parse_args-session_config N argv a serial output_name port h =
    let v : InRange a = subst (Kept N) h (parse_args-Kept N argv) in
    (
      override_rotation-fits _ _
          (λ n e.
            lookup-All is_rotation (to_ascii_lowercase serial) a.rotation_overrides n v.rotations e)
          v.rotation,
      override_brightness-fits _ _
          (λ n e.
            lookup-All (λ m. leb m 100) (to_ascii_lowercase serial) a.brightness_overrides n
              v.percents e)
          v.brightness,
    )
