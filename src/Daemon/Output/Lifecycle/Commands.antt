-- ===== src/Daemon/Output/Lifecycle/Commands.antt =====
-- crates/daemon/src/output.rs: what is run to set an output up on Hyprland.
use moreland_kde.Base.{
  ◌≡◌, refl, sym, subst, ap, ◌∙◌, Bool, true, false, List, [], ◌∷◌, ◌++◌, any, if◌then◌else◌,
}
use moreland_kde.Base.Result.{ok, err}
use moreland_kde.Base.Text.{text, Text, text_eq, contains}
use mathlib.Core.List.{append-nil, append_assoc}
use moreland_kde.Daemon.Output.{World, hyprland, Command, Ran, run, after}
use moreland_kde.Daemon.Output.Monitors.{
  JsonReader, MonitorState, read_monitors, rules, drop_last_semicolon, hyprland_monitor_state,
  restore_hyprland_monitor_state,
}
use moreland_kde.Daemon.Output.Lifecycle.{
  VirtualOutput, owned, Placement, create_hyprland, ensure_output, configure, monitor_spec,
  placement_rule,
}

-- The commands, run one after the other from `log` on, all exit with success.
abbrev pub Answered : World → List Command → List Command → Type 0
Answered w log [] = Unit {0}
Answered w log (c ∷ cs) =
    ((out : Text) × (w.answer log c ≡ ok out)) × Answered w (log ++ (c ∷ [])) cs

abbrev pub Runs : World → List Command → List Command → List Command → Type 0
Runs w log cs log' = (log' ≡ log ++ cs) × Answered w log cs

Answered-append :
    (w : World) (log cs ds : List Command)
    → Answered w log cs
    → Answered w (log ++ cs) ds
    → Answered w log (cs ++ ds)
Answered-append w log [] ds a b = subst (λ l. Answered w l ds) (append-nil log) b
Answered-append w log (c ∷ cs) ds (one, more) b = (
  one,
  Answered-append w (log ++ (c ∷ [])) cs ds more
      (subst (λ l. Answered w l ds) (sym (append_assoc log (c ∷ []) cs)) b),
)

Runs-then :
    (w : World) (log cs log1 ds log2 : List Command)
    → Runs w log cs log1
    → Runs w log1 ds log2
    → Runs w log (cs ++ ds) log2
Runs-then w log cs log1 ds log2 (e, a) (f, b) = (
  f ∙ (ap (λ l. l ++ ds) e ∙ append_assoc log cs ds),
  Answered-append w log cs ds a (subst (λ l. Answered w l ds) e b),
)

after_ok :
    {A B : Type 0} (r : Ran A) (next : A → List Command → Ran B) (b : B) (log2 : List Command)
    → after r next ≡ (ok b, log2)
    → (a : A) × (log1 : List Command) × (r ≡ (ok a, log1)) × (next a log1 ≡ (ok b, log2))
after_ok (ok a, log1) next b log2 h = (a, log1, refl, h)
after_ok (err e, log1) next b log2 h = absurd (cc)

run_ok :
    (w : World) (c : Command) (log : List Command) (out : Text) (log1 : List Command)
    → run w c log ≡ (ok out, log1)
    → (w.answer log c ≡ ok out) × Runs w log (c ∷ []) log1
unfolding run
run_ok w c log out log1 h =
    let answers : w.answer log c ≡ ok out = ap (λ r. r.0) h in
    (answers, (sym (ap (λ r. r.1) h), ((out, answers), tt)))

abbrev pub hypr : List Text → Command
hypr args = (text "hyprctl", args)

abbrev pub listing : Command
listing = hypr (text "monitors" ∷ text "-j" ∷ [])

-- An output is created unless the monitors have one of the name.
abbrev pub creation : Text → List MonitorState → List Command
creation name states =
    if any (λ m. text_eq m.name name) states
    then []
    else hypr (text "output" ∷ text "create" ∷ text "headless" ∷ name ∷ []) ∷ []

abbrev pub configuration : Text → Placement → Command
configuration name p = hypr (text "keyword" ∷ text "monitor" ∷ monitor_spec name p ∷ [])

-- The rule goes through `eval` if the reply refuses it.
abbrev pub second_try : Text → Placement → Text → List Command
second_try name p reply =
    if contains reply (text "non-legacy parsers")
    then hypr (text "eval" ∷ placement_rule name p ∷ []) ∷ []
    else []

abbrev pub restoration : Text → List MonitorState → Command
restoration name states = hypr (text "eval" ∷ drop_last_semicolon (rules states name) ∷ [])

-- The whole of what is run on Hyprland.
abbrev pub commands : Text → Placement → List MonitorState → Text → List Command
commands name p states reply =
    (listing ∷ [])
    ++ (creation name states
        ++ ((configuration name p ∷ second_try name p reply) ++ (restoration name states ∷ [])))

abbrev pub IsSetUp : JsonReader → World → Text → Placement → List Command → List Command → Type 0
IsSetUp json w name p log log' =
    (out : Text) × (states : List MonitorState) × (reply : Text) × (w.answer log listing ≡ ok out)
    × (read_monitors (json out) ≡ ok states)
    × (w.answer (log ++ ((listing ∷ []) ++ creation name states)) (configuration name p) ≡ ok reply)
    × Runs w log (commands name p states reply) log'

last_command :
    (w : World) (c : Command) (log : List Command) (u : Unit {0}) (log1 : List Command)
    → after (run w c log) (λ out log'. (ok tt, log')) ≡ (ok u, log1)
    → Runs w log (c ∷ []) log1
last_command w c log u log1 h =
    let (out, mid, ran, ends) = after_ok (run w c log) (λ out log'. (ok tt, log')) u log1 h in
    subst (Runs w log (c ∷ [])) (ap (λ r. r.1) ends) (run_ok w c log out mid ran).1

nothing_run :
    (w : World) (log : List Command) (u : Unit {0}) (log1 : List Command)
    → Path (Ran (Unit {0})) (ok tt, log) (ok u, log1)
    → Runs w log [] log1
nothing_run w log u log1 h = (sym (ap (λ r. r.1) h) ∙ sym (append-nil log), tt)

monitors_ok :
    (json : JsonReader) (w : World) (log : List Command) (states : List MonitorState)
    (log1 : List Command)
    → hyprland_monitor_state json w log ≡ (ok states, log1)
    → (out : Text) × (w.answer log listing ≡ ok out)
      × (read_monitors (json out) ≡ ok states)
      × Runs w log (listing ∷ []) log1
unfolding hyprland_monitor_state
monitors_ok json w log states log1 h =
    let (out, mid, ran, ends) =
      after_ok (run w listing log) (λ out log'. (read_monitors (json out), log')) states log1 h in
    let (answers, runs) = run_ok w listing log out mid ran in
    (out, answers, ap (λ r. r.0) ends, subst (Runs w log (listing ∷ [])) (ap (λ r. r.1) ends) runs)

unless_there :
    (w : World) (c : Command) (log : List Command) (u : Unit {0}) (log1 : List Command)
    (there : Bool)
    → (if there then (ok tt, log) else after (run w c log) (λ out log'. (ok tt, log')))
      ≡ (ok u, log1)
    → Runs w log (if there then [] else c ∷ []) log1
unless_there w c log u log1 true h = nothing_run w log u log1 h
unless_there w c log u log1 false h = last_command w c log u log1 h

if_refused :
    (w : World) (c : Command) (log : List Command) (u : Unit {0}) (log1 : List Command)
    (refused : Bool)
    → (if refused then after (run w c log) (λ out log'. (ok tt, log')) else (ok tt, log))
      ≡ (ok u, log1)
    → Runs w log (if refused then c ∷ [] else []) log1
if_refused w c log u log1 true h = last_command w c log u log1 h
if_refused w c log u log1 false h = nothing_run w log u log1 h

ensure_ok :
    (w : World) (name : Text) (states : List MonitorState) (log : List Command) (u : Unit {0})
    (log1 : List Command)
    → ensure_output w name states log ≡ (ok u, log1)
    → Runs w log (creation name states) log1
unfolding ensure_output
ensure_ok w name states log u log1 h =
    unless_there w (hypr (text "output" ∷ text "create" ∷ text "headless" ∷ name ∷ [])) log u log1
      (any (λ m. text_eq m.name name) states) h

configure_ok :
    (w : World) (name : Text) (p : Placement) (log : List Command) (u : Unit {0})
    (log1 : List Command)
    → configure w name p log ≡ (ok u, log1)
    → (reply : Text) × (w.answer log (configuration name p) ≡ ok reply)
      × Runs w log (configuration name p ∷ second_try name p reply) log1
unfolding configure
configure_ok w name p log u log1 h =
    let (reply, mid, ran, ends) = after_ok (run w (configuration name p) log) _ u log1 h in
    let (answers, runs) = run_ok w (configuration name p) log reply mid ran in
    (
      reply,
      answers,
      Runs-then w log (configuration name p ∷ []) mid (second_try name p reply) log1 runs (
          if_refused w (hypr (text "eval" ∷ placement_rule name p ∷ [])) mid u log1
            (contains reply (text "non-legacy parsers")) ends),
    )

restore_ok :
    (w : World) (states : List MonitorState) (name : Text) (log : List Command) (u : Unit {0})
    (log1 : List Command)
    → restore_hyprland_monitor_state w states name log ≡ (ok u, log1)
    → Runs w log (restoration name states ∷ []) log1
unfolding restore_hyprland_monitor_state
restore_ok w states name log u log1 h = last_command w (restoration name states) log u log1 h

pub same_output :
    (o v : VirtualOutput) (log log' : List Command)
    → Path (Ran VirtualOutput) (ok o, log) (ok v, log')
    → v ≡ o
same_output o v log log' h = cc

-- An output is created on Hyprland only if all of the set-up was run, and each command succeeded.
pub hyprland_ok :
    (json : JsonReader) (w : World) (name : Text) (p : Placement) (log : List Command)
    (o : VirtualOutput) (log' : List Command)
    → create_hyprland json w name p log ≡ (ok o, log')
    → (o ≡ owned hyprland name) × IsSetUp json w name p log log'
unfolding create_hyprland
hyprland_ok json w name p log o log' h =
    let (states, log1, saved, h1) = after_ok (hyprland_monitor_state json w log) _ o log' h in
    let (u, log2, ensured, h2) = after_ok (ensure_output w name states log1) _ o log' h1 in
    let (v, log3, configured, h3) = after_ok (configure w name p log2) _ o log' h2 in
    let (r, log4, restored, h4) =
      after_ok (restore_hyprland_monitor_state w states name log3) _ o log' h3 in
    let (out, answers, read, lists) = monitors_ok json w log states log1 saved in
    let creates = ensure_ok w name states log1 u log2 ensured in
    let (reply, replies, configures) = configure_ok w name p log2 v log3 configured in
    let restores = restore_ok w states name log3 r log4 restored in
    let begins : Runs w log ((listing ∷ []) ++ creation name states) log2 =
      Runs-then w log (listing ∷ []) log1 (creation name states) log2 lists creates in
    let ends : Runs w log1
        (creation name states
          ++ ((configuration name p ∷ second_try name p reply) ++ (restoration name states ∷ [])))
        log4 =
      Runs-then w log1 (creation name states) log2 _ log4 creates (
        Runs-then w log2 (configuration name p ∷ second_try name p reply) log3
          (restoration name states ∷ []) log4 configures restores) in
    (
      same_output (owned hyprland name) o log4 log' h4,
      (
        out,
        states,
        reply,
        answers,
        read,
        subst (λ l. w.answer l (configuration name p) ≡ ok reply) (begins.0) replies,
        subst (Runs w log (commands name p states reply)) (ap (λ x. x.1) h4)
            (Runs-then w log (listing ∷ []) log1 _ log4 lists ends),
      ),
    )
