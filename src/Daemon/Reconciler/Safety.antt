-- ===== src/Daemon/Reconciler/Safety.antt =====
-- crates/daemon/src/main.rs: what every iteration of the reconciler keeps and reaches.
use moreland_kde.Base.{
  ℕ, ◌≡◌, refl, inl, inr, false, ◌&&◌, Option, none, some, List, [], ◌∷◌, arith, Bool-cases, All,
}
use moreland_kde.Base.Result.{Result, ok, err}
use moreland_kde.Base.Text.{Text}
use moreland_kde.Base.Table.{
  Table, lookup, contains_key, remove, insert, Distinct-keep_if, Distinct-map,
}
use moreland_kde.Daemon.Tracker.{Device}
use moreland_kde.Daemon.Registry.{
  Session, Cooldown, Registry, SpawnArgs, SessionConfig, SpawnError, Threads, spawn_session,
  reap_finished, reap_each, reap_one, finished_serials,
}
use moreland_kde.Daemon.Registry.Allocation.{Inv, spawn_session-Inv}
use moreland_kde.Daemon.Reconciler.{
  Daemon, Tick, Update, Flow, stop, continue, listed, timed_out, lost, initial, stop_vanished,
  enter, start_one, start_all, announce_idle, reconcile, on_update, reap, follow, iterate, run_loop,
  is_nil,
}

remove-Inv : (k : Text) (r : Registry) → Inv r → Inv (remove k r)
remove-Inv k r v = record {
  serials = Distinct-keep_if _ _ r v.serials;
  ports = Distinct-keep_if _ _ r v.ports;
  names = Distinct-keep_if _ _ r v.names;
}

reap_one-Inv :
    (th : Threads) (serial : Text) (o : Option Session) (rc : Registry × Table Cooldown)
    → Inv rc.0
    → Inv (reap_one th serial o rc).0
unfolding reap_one
reap_one-Inv th serial none (r, c) v = v
reap_one-Inv th serial (some s) (r, c) v = remove-Inv serial r v

reap_each-Inv :
    (th : Threads) (ss : List Text) (rc : Registry × Table Cooldown)
    → Inv rc.0
    → Inv (reap_each th ss rc).0
unfolding reap_each
reap_each-Inv th [] rc v = v
reap_each-Inv th (s ∷ ss) rc v = reap_each-Inv th ss _ (reap_one-Inv th s (lookup s rc.0) rc v)

stop_vanished-Inv : (ready : List Text) (r : Registry) → Inv r → Inv (stop_vanished ready r)
unfolding stop_vanished
stop_vanished-Inv ready r v = record {
  serials = Distinct-map _ _ (λ e. ground arith) r v.serials;
  ports = Distinct-map _ _ (λ e. ground arith) r v.ports;
  names = Distinct-map _ _ (λ e. ground arith) r v.names;
}

-- A property of the registry that a started session keeps holds after all of them, if each of the
-- devices to start has what that needs.
module _ (args : SpawnArgs) (tick : Tick) (P : Registry → Type 0) (Q : Device → Type 0)
    (keeps : (thread : ℕ) (x : Device) (r : Registry) (s : Session) (config : SessionConfig)
      → Q x
      → contains_key x.serial r ≡ false
      → spawn_session tick.starts thread x args r ≡ ok (s, config)
      → P r
      → P (insert x.serial s r)) where
  enter-keeps :
      (x : Device) (d : Daemon) (result : Result SpawnError (Session × SessionConfig))
      → Q x
      → contains_key x.serial d.registry ≡ false
      → spawn_session tick.starts d.spawned x args d.registry ≡ result
      → P d.registry
      → P (enter tick x result d).registry
  unfolding enter
  enter-keeps x d (ok (s, config)) q new e p = keeps d.spawned x d.registry s config q new e p
  enter-keeps x d (err f) q new e p = p

  start_one-keeps :
      (x : Device) (d : Daemon) → Q x → P d.registry → P (start_one args tick x d).registry
  unfolding start_one
  start_one-keeps x d q p = elim (Bool-cases (contains_key x.serial d.registry)) [
    | inl running ↦ rw running p
    | inr new ↦ rw new (enter-keeps x d _ q new refl p)
  ]

  pub start_all-keeps :
      (xs : List Device) (d : Daemon)
      → All Q xs
      → P d.registry
      → P (start_all args tick xs d).registry
  unfolding start_all
  start_all-keeps [] d q p = p
  start_all-keeps (x ∷ xs) d q p = start_all-keeps xs _ q.1 (start_one-keeps x d q.0 p)

reconcile-Inv :
    (args : SpawnArgs) (tick : Tick) (d : Daemon)
    → Inv d.registry
    → Inv (reconcile args tick d).registry
unfolding reconcile announce_idle
reconcile-Inv args tick d v =
    start_all-keeps args tick Inv (λ x. Unit {0})
      (λ thread x r s config q new e p.
        (spawn_session-Inv tick.starts thread x args r s config e new p).0)
      _ _ (all_units _) (stop_vanished-Inv _ _ v)
  where
    all_units : (xs : List Device) → All (λ x. Unit {0}) xs
    all_units [] = tt
    all_units (x ∷ xs) = (tt, all_units xs)

on_update-Inv :
    (args : SpawnArgs) (tick : Tick) (u : Update) (d : Daemon)
    → Inv d.registry
    → Inv (on_update args tick u d).registry
unfolding on_update
on_update-Inv args tick (listed devices) d v = reconcile-Inv args tick _ v
on_update-Inv args tick timed_out d v = reconcile-Inv args tick d v
on_update-Inv args tick lost d v = v

abbrev pub state_of : Flow → Daemon
state_of (stop d) = d
state_of (continue d) = d

iterate-Inv :
    (args : SpawnArgs) (tick : Tick) (d : Daemon)
    → Inv d.registry
    → Inv (state_of (iterate args tick d)).registry
unfolding iterate reap reap_finished
iterate-Inv args tick d v =
    let w =
      reap_each-Inv tick.threads (finished_serials tick.threads d.registry)
        (d.registry, d.cooldowns) v in
    elim (Bool-cases (args.once && (reap tick d).once_armed && is_nil (reap tick d).registry)) [
      | inl over ↦ rw over w
      | inr on ↦ rw on (on_update-Inv args tick tick.update (reap tick d) w)
    ]

follow-Inv :
    (args : SpawnArgs) (ticks : List Tick) (flow : Flow)
    → ((d : Daemon) → Inv d.registry → Inv (run_loop args ticks d).registry)
    → Inv (state_of flow).registry
    → Inv (follow flow (λ d'. run_loop args ticks d')).registry
follow-Inv args ticks (stop d) later v = v
follow-Inv args ticks (continue d) later v = later d v

run_loop-Inv :
    (args : SpawnArgs) (ticks : List Tick) (d : Daemon)
    → Inv d.registry
    → Inv (run_loop args ticks d).registry
unfolding run_loop
run_loop-Inv args [] d v = v
run_loop-Inv args (tick ∷ ticks) d v =
    follow-Inv args ticks (iterate args tick d) (run_loop-Inv args ticks)
      (iterate-Inv args tick d v)

-- Whatever the tracker, the threads and the clock do, and however long the daemon runs, no two
-- sessions ever share a device, a port or an output name.
pub run_loop-initial-Inv :
    (args : SpawnArgs) (ticks : List Tick) → Inv (run_loop args ticks initial).registry
unfolding initial
run_loop-initial-Inv args ticks =
    run_loop-Inv args ticks initial (record { serials = tt; ports = tt; names = tt })
