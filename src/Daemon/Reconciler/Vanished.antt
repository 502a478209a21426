-- ===== src/Daemon/Reconciler/Vanished.antt =====
-- crates/daemon/src/main.rs: the sessions whose device has vanished.
use moreland_kde.Base.{
  ℕ, ◌≡◌, refl, sym, subst, ◌∙◌, ◌≢◌, ◌⊎◌, inl, inr, Bool, true, false, ◌&&◌, ◌||◌, List, [], ◌∷◌,
  map, Bool-cases, keep_if, any, All,
}
use moreland_kde.Base.Result.{Result, ok, err}
use moreland_kde.Base.Text.{Text, text_eq, text_eq_refl}
use moreland_kde.Base.Table.{contains_key, All-keep_if, All-map_elements}
use moreland_kde.Daemon.Tracker.{Device, is_ready}
use moreland_kde.Daemon.Registry.{Session, Registry, SpawnArgs, SessionConfig, SpawnError}
use moreland_kde.Daemon.Reconciler.{
  Daemon, Tick, Update, continue, listed, timed_out, lost, ready_serials, member, stop_vanished,
  candidates, once_candidates, enter, start_one, start_all, announce_idle, reconcile, on_update,
  reap, iterate, debounced, is_nil,
}
use moreland_kde.Daemon.Reconciler.Safety.{start_all-keeps}

-- Whether a session may run on: its device is ready, or it is told to stop.
abbrev pub Settled : List Text → Text × Session → Type 0
Settled ready e = (member e.0 ready ≡ true) ⊎ (e.1.shutdown ≡ true)

stop_vanished-Settled :
    (ready : List Text) (r : Registry) → All (Settled ready) (stop_vanished ready r)
unfolding stop_vanished
stop_vanished-Settled ready [] = tt
stop_vanished-Settled ready (e ∷ r) = elim (Bool-cases (member e.0 ready)) [
  | inl there ↦ rw there (inl there, stop_vanished-Settled ready r)
  | inr gone ↦ rw gone (inr refl, stop_vanished-Settled ready r)
]

abbrev serials_of : List Device → List Text
serials_of xs = map (λ x. x.serial) xs

or_true : (a b : Bool) → b ≡ true → (a || b) ≡ true
or_true true b h = refl
or_true false b h = h

member_of_serials : (xs : List Device) → All (λ x. member x.serial (serials_of xs) ≡ true) xs
member_of_serials [] = tt
member_of_serials (x ∷ xs) = (
  rw (text_eq_refl x.serial) refl,
  All-map_elements _ _ (λ y h. or_true (text_eq x.serial y.serial) _ h) xs (member_of_serials xs),
)

candidates-ready :
    (args : SpawnArgs) (now : ℕ) (d : Daemon)
    → All
        (λ x. member x.serial (serials_of (keep_if is_ready d.devices)) ≡ true)
        (candidates args now d).0
unfolding candidates once_candidates
candidates-ready args now d = elim (Bool-cases args.once) [
  | inl once ↦ elim (Bool-cases d.once_armed) [
    | inl armed ↦ simp (once, armed) tt
    | inr ready ↦
        elim (Bool-cases (any (debounced now d.seen_ready_at) (keep_if is_ready d.devices))) [
          | inl arms ↦ simp (once, ready, arms) (member_of_serials (keep_if is_ready d.devices))
          | inr waits ↦ simp (once, ready, waits) tt
        ]
  ]
  | inr many ↦ simp many (
      All-keep_if _ _ _
        (All-keep_if _ _ _ (All-keep_if _ _ _ (member_of_serials (keep_if is_ready d.devices)))))
]

reconcile-Settled :
    (args : SpawnArgs) (tick : Tick) (d : Daemon)
    → All (Settled (ready_serials d.devices)) (reconcile args tick d).registry
unfolding reconcile announce_idle ready_serials
reconcile-Settled args tick d =
    start_all-keeps args tick (All (Settled (ready_serials d.devices)))
      (λ x. member x.serial (ready_serials d.devices) ≡ true)
      (λ thread x r s config q new e p. (inl q, All-keep_if _ _ r p)) _ _
      (candidates-ready args tick.now _) (stop_vanished-Settled _ _)

enter-devices :
    (tick : Tick) (x : Device) (o : Result SpawnError (Session × SessionConfig)) (d : Daemon)
    → (enter tick x o d).devices ≡ d.devices
unfolding enter
enter-devices tick x (ok (s, config)) d = refl
enter-devices tick x (err e) d = refl

start_one-devices :
    (args : SpawnArgs) (tick : Tick) (x : Device) (d : Daemon)
    → (start_one args tick x d).devices ≡ d.devices
unfolding start_one
start_one-devices args tick x d = elim (Bool-cases (contains_key x.serial d.registry)) [
  | inl running ↦ rw running refl
  | inr new ↦ rw new (enter-devices tick x _ d)
]

start_all-devices :
    (args : SpawnArgs) (tick : Tick) (xs : List Device) (d : Daemon)
    → (start_all args tick xs d).devices ≡ d.devices
unfolding start_all
start_all-devices args tick [] d = refl
start_all-devices args tick (x ∷ xs) d =
    start_all-devices args tick xs _ ∙ start_one-devices args tick x d

reconcile-devices :
    (args : SpawnArgs) (tick : Tick) (d : Daemon) → (reconcile args tick d).devices ≡ d.devices
unfolding reconcile announce_idle
reconcile-devices args tick d = start_all-devices args tick _ _

-- Every session of a daemon may run on.
abbrev pub AllSettled : Daemon → Type 0
AllSettled d = All (Settled (ready_serials d.devices)) d.registry

reconcile-AllSettled :
    (args : SpawnArgs) (tick : Tick) (d : Daemon) → AllSettled (reconcile args tick d)
reconcile-AllSettled args tick d =
    subst (λ u. All (Settled (ready_serials u)) (reconcile args tick d).registry)
      (sym (reconcile-devices args tick d)) (reconcile-Settled args tick d)

on_update-AllSettled :
    (args : SpawnArgs) (tick : Tick) (u : Update) (d : Daemon)
    → u ≢ lost
    → AllSettled (on_update args tick u d)
unfolding on_update
on_update-AllSettled args tick (listed devices) d h = reconcile-AllSettled args tick _
on_update-AllSettled args tick timed_out d h = reconcile-AllSettled args tick d
on_update-AllSettled args tick lost d h = absurd (h refl)

-- After an iteration that goes on, unless the tracker was lost, every session either has a device
-- that is ready in the list that stands, or is told to stop.
pub iterate-AllSettled :
    (args : SpawnArgs) (tick : Tick) (d next : Daemon)
    → tick.update ≢ lost
    → iterate args tick d ≡ continue next
    → AllSettled next
unfolding iterate
iterate-AllSettled args tick d next reached h =
    elim (Bool-cases (args.once && (reap tick d).once_armed && is_nil (reap tick d).registry)) [
      | inl over ↦ absurd (cc)
      | inr on ↦
          let e : on_update args tick tick.update (reap tick d) ≡ next = cc in
          subst AllSettled e (on_update-AllSettled args tick tick.update (reap tick d) reached)
    ]
