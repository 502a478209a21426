-- ===== src/Daemon/Output/Lifecycle.antt =====
-- crates/daemon/src/output.rs: `VirtualOutput`, from its creation to its removal.
pub mod Commands
pub mod Ownership
use moreland_kde.Base.{
  ℕ, zero, suc, ◌+◌, ◌-◌, ◌*◌, ◌/◌, ◌%◌, ◌^◌, ◌≤◌, ◌<◌, min, max, bit_and, bit_or, ◌≡◌, refl, sym,
  ap, subst, ◌∙◌, ◌≢◌, ◌↔◌, ◌⊎◌, inl, inr, Bool, true, false, not, ◌&&◌, ◌||◌, Option, none, some,
  List, [], ◌∷◌, ◌++◌, map, arith, ltb, leb, ◌==◌, if◌then◌else◌, ltb→lt, lt→ltb, leb→le, le→leb,
  ==_iff, ==_refl, tests, Bool-cases, Option-cases, length, get_elem?, take, drop, replicate,
  keep_if, any, find_first, flatten, All, length-append, take-append-drop, length-take, length-drop,
  length-replicate, take_all, drop_all, All-append,
}
use moreland_kde.Base.Result.{Result, ok, err, ◌>>=◌, ◌>>◌, guard, >>=-eq-ok, guard_passed}
use moreland_kde.Base.Text.{
  Text, text, text_eq, text_eq_iff, text_eq_refl, is_whitespace, is_digit, is_upper, is_lower,
  is_ascii_alphanumeric, lower_char, to_ascii_lowercase, is_empty, starts_with, contains,
  strip_prefix, trim_start, trim_end, trim, push_front, starts_newline, lines, starts_word,
  split_whitespace, split_once, until, second_piece, parse_digits, parse_nonempty, parse_unsigned,
  u8_max, u16_max, u32_max,
}
use moreland_kde.Daemon.Output.{
  World, Compositor, hyprland, sway, labwc, kwin, unsupported, Command, OutputError, Ran, run,
  after, detect, ensure_supported, labwc_output_exists, no_labwc_output, plasma_failed,
  without_plasma, unsupported_compositor,
}
use moreland_kde.Base.Int.{ℤ}
use moreland_kde.Daemon.Output.Lua.{lua_string}
use moreland_kde.Daemon.Output.Monitors.{
  JsonReader, MonitorState, hyprland_monitor_state, restore_hyprland_monitor_state, decimal,
  decimal_ℤ,
}
use moreland_kde.Capture.Plasma.{PlasmaVirtualOutput, Desktop, PlasmaError}
use moreland_kde.Capture.Plasma as Plasma

pub data VirtualOutput : Type 0 where
  owned : Compositor → Text → VirtualOutput
  kwin_output : Option PlasmaVirtualOutput → VirtualOutput

-- The mode and the place that are asked for.
pub record Placement : Type 0 where
  pub width : ℕ
  pub height : ℕ
  pub refresh : ℕ
  pub x : ℤ
  pub y : ℤ

abbrev pub mode_text : Placement → Text
mode_text p = decimal p.width ++ text "x" ++ decimal p.height ++ text "@" ++ decimal p.refresh

abbrev pub position_text : Placement → Text
position_text p = decimal_ℤ p.x ++ text "x" ++ decimal_ℤ p.y

unfoldable pub monitor_spec : Text → Placement → Text
monitor_spec name p = name ++ text "," ++ mode_text p ++ text "," ++ position_text p ++ text ",1"

unfoldable pub placement_rule : Text → Placement → Text
placement_rule name p =
    text "hl.monitor({ output = "
    ++ lua_string name
    ++ text ", mode = \""
    ++ mode_text p
    ++ text "\", position = \""
    ++ position_text p
    ++ text "\", scale = 1 })"

abbrev pub hyprctl : List Text → Command
hyprctl args = (text "hyprctl", args)

-- An output of the name is reused, else created.
unfoldable pub ensure_output : World → Text → List MonitorState → List Command → Ran (Unit {0})
ensure_output w name states log =
    let creating =
      after (run w (hyprctl (text "output" ∷ text "create" ∷ text "headless" ∷ name ∷ [])) log)
        (λ out log'. (ok tt, log')) in
    if any (λ m. text_eq m.name name) states then (ok tt, log) else creating

-- A reply that names the parser is a refusal, though the command succeeds: the rule goes through
-- `eval` then.
unfoldable pub configure : World → Text → Placement → List Command → Ran (Unit {0})
configure w name p log =
    after (run w (hyprctl (text "keyword" ∷ text "monitor" ∷ monitor_spec name p ∷ [])) log)
      (λ reply log'.
        if contains reply (text "non-legacy parsers")
        then after (run w (hyprctl (text "eval" ∷ placement_rule name p ∷ [])) log')
            (λ out log''. (ok tt, log''))
        else (ok tt, log'))

unfoldable pub create_hyprland :
    JsonReader → World → Text → Placement → List Command → Ran VirtualOutput
create_hyprland json w name p log = after (hyprland_monitor_state json w log) (λ saved log1.
    after (ensure_output w name saved log1) (λ u log2. after (configure w name p log2) (λ v log3.
      after (restore_hyprland_monitor_state w saved name log3)
        (λ r log4. (ok (owned hyprland name), log4)))))

abbrev pub create_labwc : World → Text → Bool × List Command → Ran VirtualOutput
create_labwc w name (true, log) = (ok (owned labwc name), log)
create_labwc w name (false, log) = (err no_labwc_output, log)

abbrev pub kwin_created :
    Result PlasmaError PlasmaVirtualOutput × List Plasma.Request → List Command → Ran VirtualOutput
kwin_created (ok o, sent) log = (ok (kwin_output (some o)), log)
kwin_created (err e, sent) log = (err plasma_failed, log)

unfoldable pub create_kwin : World → Desktop → Text → List Command → Ran VirtualOutput
create_kwin w d name log =
    if w.plasma_feature then kwin_created (Plasma.create name d) log else (err without_plasma, log)

-- `other => other.ensure_supported()?`, and what follows if it passes.
abbrev pub create_other : World → Compositor → Text → List Command → Ran VirtualOutput
create_other w c name log = elim (ensure_supported w c) [
  | err e ↦ (err e, log)
  | ok u ↦ (ok (owned c name), log)
]

abbrev pub create_on :
    JsonReader → World → Desktop → Text → Placement → Compositor × List Command → Ran VirtualOutput
create_on json w d name p (labwc, log) = create_labwc w name (labwc_output_exists w name log)
create_on json w d name p (hyprland, log) = create_hyprland json w name p log
create_on json w d name p (kwin, log) = create_kwin w d name log
create_on json w d name p (sway, log) = create_other w sway name log
create_on json w d name p (unsupported, log) = create_other w unsupported name log

-- `VirtualOutput::create`, without its pauses.
unfoldable pub create :
    JsonReader → World → Desktop → Text → Placement → List Command → Ran VirtualOutput
create json w d name p log = create_on json w d name p (detect w log)

unfoldable pub name_of : VirtualOutput → Text
name_of (owned c name) = name
name_of (kwin_output (some o)) = o.name
name_of (kwin_output none) = text "<consumed>"

unfoldable pub applied_mode : VirtualOutput → Bool
applied_mode (owned labwc name) = false
applied_mode (owned hyprland name) = true
applied_mode (owned sway name) = true
applied_mode (owned kwin name) = true
applied_mode (owned unsupported name) = true
applied_mode (kwin_output o) = true

-- `Drop`: the command that is run; an output of KWin goes with its stream, one of labwc stays.
unfoldable pub removal : VirtualOutput → List Command
removal (owned hyprland name) = hyprctl (text "output" ∷ text "remove" ∷ name ∷ []) ∷ []
removal (owned sway name) = (text "swaymsg", text "output" ∷ name ∷ text "unplug" ∷ []) ∷ []
removal (owned labwc name) = []
removal (owned kwin name) = []
removal (owned unsupported name) = []
removal (kwin_output o) = []
