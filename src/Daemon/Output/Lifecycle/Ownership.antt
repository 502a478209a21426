-- ===== src/Daemon/Output/Lifecycle/Ownership.antt =====
-- crates/daemon/src/output.rs: which outputs are created, on which compositor.
use moreland_kde.Base.{◌≡◌, refl, sym, ap, Bool, true, false, some, List, [], ◌∷◌, ◌++◌}
use moreland_kde.Base.Result.{Result, ok, err}
use moreland_kde.Base.Text.{text, Text}
use moreland_kde.Daemon.Output.{
  World, Compositor, hyprland, sway, labwc, kwin, unsupported, Command, run, detect,
  ensure_supported, labwc_output_exists,
}
use moreland_kde.Daemon.Output.Monitors.{JsonReader}
use moreland_kde.Daemon.Output.Lifecycle.{
  VirtualOutput, owned, kwin_output, Placement, create_labwc, create_kwin, kwin_created, create_on,
  create,
}
use moreland_kde.Capture.Plasma.{PlasmaVirtualOutput, Desktop, PlasmaError}
use moreland_kde.Capture.Plasma as Plasma
use moreland_kde.Capture.Plasma.Answers.{IsStreaming, IsCreation, create-IsCreation}
use moreland_kde.Daemon.Output.Lifecycle.Commands.{IsSetUp, hyprland_ok, same_output}

-- What is returned on each compositor, as `detect` found it after the commands of `log`.
abbrev pub IsOutputOf :
    JsonReader
    → World
    → Text
    → Placement
    → Compositor × List Command
    → VirtualOutput
    → List Command
    → Type 0
IsOutputOf json w name p (hyprland, log) o log' =
    (o ≡ owned hyprland name) × IsSetUp json w name p log log'
IsOutputOf json w name p (labwc, log) o log' =
    (o ≡ owned labwc name)
    × ((labwc_output_exists w name log).0 ≡ true)
    × (log' ≡ log ++ ((text "wlr-randr", []) ∷ []))
IsOutputOf json w name p (kwin, log) o log' =
    (v : PlasmaVirtualOutput) × (o ≡ kwin_output (some v))
    × (w.plasma_feature ≡ true)
    × (v.name ≡ name)
    × IsStreaming v.state
    × (log' ≡ log)
IsOutputOf json w name p (sway, log) o log' = false ≡ true
IsOutputOf json w name p (unsupported, log) o log' = false ≡ true

labwc_ok :
    (w : World) (name : Text) (r : Bool × List Command) (o : VirtualOutput) (log' : List Command)
    → create_labwc w name r ≡ (ok o, log')
    → (o ≡ owned labwc name) × (r.0 ≡ true) × (log' ≡ r.1)
labwc_ok w name (true, log) o log' h =
    (same_output (owned labwc name) o log log' h, refl, sym (ap (λ r. r.1) h))
labwc_ok w name (false, log) o log' h = absurd (cc)

kwin_created_ok :
    (name : Text) (r : Result PlasmaError PlasmaVirtualOutput × List Plasma.Request)
    (log : List Command) (o : VirtualOutput) (log' : List Command)
    → IsCreation name r
    → kwin_created r log ≡ (ok o, log')
    → (v : PlasmaVirtualOutput) × (o ≡ kwin_output (some v))
      × (v.name ≡ name)
      × IsStreaming v.state
      × (log' ≡ log)
kwin_created_ok name (ok v, sent) log o log' (streams, id, named, once, same) h =
    (v, same_output (kwin_output (some v)) o log log' h, named, streams, sym (ap (λ r. r.1) h))
kwin_created_ok name (err e, sent) log o log' c h = absurd (cc)

kwin_ok :
    (json : JsonReader) (w : World) (d : Desktop) (name : Text) (p : Placement) (log : List Command)
    (o : VirtualOutput) (log' : List Command) (feature : Bool)
    → w.plasma_feature ≡ feature
    → create_kwin w d name log ≡ (ok o, log')
    → IsOutputOf json w name p (kwin, log) o log'
unfolding create_kwin
kwin_ok json w d name p log o log' true f h =
    let (v, same, named, streams, quiet) =
      kwin_created_ok name (Plasma.create name d) log o log' (create-IsCreation name d)
        (rw f at h) in
    (v, same, f, named, streams, quiet)
kwin_ok json w d name p log o log' false f h = absurd (cc)

create_on_ok :
    (json : JsonReader) (w : World) (d : Desktop) (name : Text) (p : Placement)
    (found : Compositor × List Command) (o : VirtualOutput) (log' : List Command)
    → create_on json w d name p found ≡ (ok o, log')
    → IsOutputOf json w name p found o log'
unfolding ensure_supported labwc_output_exists run
create_on_ok json w d name p (labwc, log) o log' h =
    labwc_ok w name (labwc_output_exists w name log) o log' h
create_on_ok json w d name p (hyprland, log) o log' h = hyprland_ok json w name p log o log' h
create_on_ok json w d name p (kwin, log) o log' h =
    kwin_ok json w d name p log o log' w.plasma_feature refl h
create_on_ok json w d name p (sway, log) o log' h = absurd (cc)
create_on_ok json w d name p (unsupported, log) o log' h = absurd (cc)

-- What an output that is created took, on the compositor that was detected. On Hyprland the monitors
-- were listed and read, an output of the name was created unless one was among them, the mode and
-- the place were set, once more through `eval` if the reply refuses the rule, and the other monitors
-- were restored; these commands, in this order and no others, were run, and each of them succeeded.
-- On labwc the output was there, and nothing but the listing was run. On KWin the output streams
-- under the name asked for, with no command at all. On Sway and without a known compositor none is
-- created.
pub create-IsOutputOf :
    (json : JsonReader) (w : World) (d : Desktop) (name : Text) (p : Placement) (log : List Command)
    (o : VirtualOutput) (log' : List Command)
    → create json w d name p log ≡ (ok o, log')
    → IsOutputOf json w name p (detect w log) o log'
unfolding create
create-IsOutputOf json w d name p log o log' h =
    create_on_ok json w d name p (detect w log) o log' h
