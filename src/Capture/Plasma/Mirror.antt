-- ===== src/Capture/Plasma/Mirror.antt =====
-- crates/capture/src/plasma/mod.rs: the search for an output that is there, and its mirroring.
use moreland_kde.Base.{
  ℕ, ◌+◌, Bool, false, Option, none, some, List, [], ◌∷◌, ltb, leb, if◌then◌else◌, any,
}
use moreland_kde.Base.Result.{Result, ok, err}
use moreland_kde.Base.Text.{Text, text_eq}
use moreland_kde.Capture.Plasma.{
  State, Event, PlasmaError, connection_lost, still_waiting, no_output, not_connected, on_events,
  default_state, Desktop, Request, mirrored_output, bound_version, virtual_output, settle,
  create_timeout, PlasmaVirtualOutput,
}

-- One round of `find_output`: the round trip that syncs the registry, the versions of the outputs
-- advertised, the names announced, and the time after that.
pub record Round : Type 0 where
  pub syncs : Bool
  pub versions : List ℕ
  pub announced : Option (List Event)
  pub looked_at : ℕ

-- The name arrives only from version 4 on.
abbrev pub bound_outputs : List ℕ → List (Option Text)
bound_outputs [] = []
bound_outputs (v ∷ vs) = let rest = bound_outputs vs in if ltb v 4 then rest else none ∷ rest

abbrev pub known_names : List (Option Text) → List Text
known_names [] = []
known_names (none ∷ os) = known_names os
known_names (some n ∷ os) = n ∷ known_names os

abbrev pub is_named : Text → Option Text → Bool
is_named wanted none = false
is_named wanted (some n) = text_eq n wanted

abbrev pub look : State → List ℕ → List Event → State
look s versions es = on_events es (record s { outputs = bound_outputs versions })

unfoldable pub find_output : Text → ℕ → State → List Round → Result PlasmaError (Unit {0}) × State
find_output wanted deadline s [] = (err still_waiting, s)
find_output wanted deadline s (r ∷ rs) =
    if r.syncs
    then elim r.announced [
      | none ↦ (err connection_lost, record s { outputs = bound_outputs r.versions })
      | some es ↦
          let s' = look s r.versions es in
          let later = find_output wanted deadline (look s r.versions es) rs in
          if any (is_named wanted) s'.outputs
          then (ok tt, s')
          else if leb deadline r.looked_at
          then (err (no_output (known_names s'.outputs)), s')
          else later
    ]
    else (err connection_lost, s)

abbrev pub mirror_found :
    Text
    → Desktop
    → Result PlasmaError (Unit {0}) × State
    → Result PlasmaError PlasmaVirtualOutput × List Request
mirror_found name d (err e, s) = (err e, [])
mirror_found name d (ok u, s) = elim (bound_version d.advertised) [
  | err e ↦ (err e, [])
  | ok version ↦
      virtual_output name mirrored_output (settle (d.asked_at + create_timeout) s d.deliveries)
]

-- `mirror`: the output must be there at the first look.
unfoldable pub mirror :
    Text → Desktop → List Round → Result PlasmaError PlasmaVirtualOutput × List Request
mirror name d rounds =
    if d.connects
    then mirror_found name d (find_output name 0 default_state rounds)
    else (err not_connected, [])
