-- ===== src/Daemon/Output/Scenarios.antt =====
-- Concrete runs of crates/daemon/src/output.rs, and the theorems applied to them.
use moreland_kde.Base.{
  if◌then◌else◌, ◌≡◌, refl, true, false, Option, none, some, List, [], ◌∷◌, ◌++◌, map,
  if◌then◌else◌,
}
use moreland_kde.Base.Result.{Result, ok, err}
use moreland_kde.Base.Text.{Text, text, text_eq}
use moreland_kde.Base.Int.{pos, negsuc}
use moreland_kde.Daemon.Output.{
  World, Compositor, hyprland, sway, labwc, kwin, unsupported, Command, OutputError, not_run,
  detect, confirmation,
}
use moreland_kde.Daemon.Output.Lua.{lua_string, read_lua, read_lua-lua_string}
use moreland_kde.Daemon.Output.Detection.{IsFound, detect-IsFound}
use moreland_kde.Daemon.Output.Monitors.{
  Float, JsonReader, MonitorState, rules, drop_last_semicolon, monitor_rule, decimal, refresh_text,
}
use moreland_kde.Daemon.Output.Monitors.Restoring.{join, kept, restoring_program}
use moreland_kde.Daemon.Output.Lifecycle.{owned, Placement, create}
use moreland_kde.Daemon.Output.Lifecycle.Ownership.{IsOutputOf, create-IsOutputOf}
use moreland_kde.Capture.Plasma.{Desktop}

-- A name that tries to close the string.
abbrev hostile : Text
hostile = text "a\" })"

read_lua-lua_string_example :
    read_lua (lua_string hostile ++ text " })") ≡ some (hostile, text " })")
read_lua-lua_string_example = read_lua-lua_string hostile (text " })")

abbrev plain_float : Float
plain_float = record { six_digits = text "60.000000"; shown = text "1" }

abbrev monitor : MonitorState
monitor = record {
  name = text "DP-1";
  x = pos 0;
  y = negsuc 1079;
  width = 2560;
  height = 1440;
  refresh_rate = plain_float;
  scale = plain_float;
  transform = pos 0;
}

refresh_is_short : refresh_text plain_float ≡ text "60"
unfolding refresh_text
refresh_is_short = refl

width_in_digits : decimal monitor.width ≡ text "2560"
width_in_digits = refl

abbrev tablet_monitor : MonitorState
tablet_monitor = record monitor { name = text "moreland" }

restoring_program_example :
    drop_last_semicolon (rules (monitor ∷ tablet_monitor ∷ monitor ∷ []) (text "moreland"))
    ≡ join (map monitor_rule (kept (monitor ∷ tablet_monitor ∷ monitor ∷ []) (text "moreland")))
restoring_program_example =
    restoring_program (monitor ∷ tablet_monitor ∷ monitor ∷ []) (text "moreland")

-- Hyprland's variable is left over from an earlier session, and its program does not answer; labwc
-- runs, under the name of wlroots.
abbrev left_over : Text → Option Text
left_over name =
    if text_eq name (text "HYPRLAND_INSTANCE_SIGNATURE")
    then some (text "dead")
    else if text_eq name (text "XDG_CURRENT_DESKTOP")
    then some (text "wlroots")
    else none

abbrev answers : List Command → Command → Result OutputError Text
answers log cmd =
    if text_eq cmd.0 (text "wlr-randr")
    then ok (text "eDP-1 \"panel\"\n  Enabled: yes\nHEADLESS-1 \"x\"\n")
    else err (not_run cmd)

abbrev labwc_world : World
labwc_world = record { variable = left_over; answer = answers; plasma_feature = true }

detect-IsFound_example :
    IsFound labwc_world (hyprland ∷ sway ∷ labwc ∷ kwin ∷ []) (detect labwc_world [])
detect-IsFound_example = detect-IsFound labwc_world []

labwc_found : detect labwc_world [] ≡ (labwc, confirmation hyprland ∷ confirmation labwc ∷ [])
unfolding detect moreland_kde.Daemon.Output.detect_among moreland_kde.Daemon.Output.desktop
labwc_found = refl

abbrev no_desktop : Desktop
no_desktop = record { connects = false; advertised = none; asked_at = 0; deliveries = [] }

abbrev placement : Placement
placement = record { width = 1920; height = 1200; refresh = 60; x = pos 0; y = pos 1080 }

-- There are no monitors yet, and every reply refuses the rule.
abbrev no_monitors : JsonReader
no_monitors out = some (some [])

abbrev hypr_world : World
hypr_world = record {
  variable = λ name. if text_eq name (text "HYPRLAND_INSTANCE_SIGNATURE") then some [] else none;
  answer = λ log cmd. ok (text "non-legacy parsers");
  plasma_feature = true;
}

abbrev tablet_name : Text
tablet_name = text "moreland"

abbrev hypr_log : List Command
hypr_log = (create no_monitors hypr_world no_desktop tablet_name placement []).1

tablet_created :
    create no_monitors hypr_world no_desktop tablet_name placement []
    ≡ (ok (owned hyprland tablet_name), hypr_log)
unfolding create moreland_kde.Daemon.Output.Lifecycle.create_hyprland detect
    moreland_kde.Daemon.Output.Lifecycle.ensure_output
    moreland_kde.Daemon.Output.Lifecycle.configure
    moreland_kde.Daemon.Output.Monitors.hyprland_monitor_state
    moreland_kde.Daemon.Output.Monitors.restore_hyprland_monitor_state
    moreland_kde.Daemon.Output.Monitors.monitor_states moreland_kde.Daemon.Output.detect_among
    moreland_kde.Daemon.Output.desktop moreland_kde.Daemon.Output.run
tablet_created = refl

create-IsOutputOf_example :
    IsOutputOf no_monitors hypr_world tablet_name placement
      (detect hypr_world [])
      (owned hyprland tablet_name)
      hypr_log
create-IsOutputOf_example =
    create-IsOutputOf no_monitors hypr_world no_desktop tablet_name placement []
      (owned hyprland tablet_name) hypr_log tablet_created
