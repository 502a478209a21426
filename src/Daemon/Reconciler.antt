-- ===== src/Daemon/Reconciler.antt =====
-- crates/daemon/src/main.rs: the loop of `main` that starts and stops sessions, one iteration at a time.
pub mod Safety
pub mod Vanished
pub mod Debounce
use moreland_kde.Base.{
  ℕ, zero, suc, ◌+◌, ◌-◌, ◌*◌, ◌/◌, ◌%◌, ◌^◌, ◌≤◌, ◌<◌, min, max, bit_and, bit_or, ◌≡◌, refl, sym,
  ap, subst, ◌∙◌, ◌≢◌, ◌↔◌, ◌⊎◌, inl, inr, Bool, true, false, not, ◌&&◌, ◌||◌, Option, none, some,
  List, [], ◌∷◌, ◌++◌, map, arith, ltb, leb, ◌==◌, if◌then◌else◌, ltb→lt, lt→ltb, leb→le, le→leb,
  ==_iff, ==_refl, tests, Bool-cases, Option-cases, length, get_elem?, take, drop, replicate,
  keep_if, any, find_first, flatten, All, length-append, take-append-drop, length-take, length-drop,
  length-replicate, take_all, drop_all, All-append,
}
use moreland_kde.Base.Result.{Result, ok, err, ◌>>=◌, ◌>>◌, guard, >>=-eq-ok, guard_passed}
use moreland_kde.Base.Text.{
  Text, text, text_eq, text_eq_iff, text_eq_refl, is_whitespace, is_digit, is_upper, is_lower,
  is_ascii_alphanumeric, lower_char, to_ascii_lowercase, is_empty, starts_with, contains,
  strip_prefix, trim_start, trim_end, trim, push_front, starts_newline, lines, starts_word,
  split_whitespace, split_once, until, second_piece, parse_digits, parse_nonempty, parse_unsigned,
  u8_max, u16_max, u32_max,
}
use moreland_kde.Base.Table.{Table, lookup, contains_key, remove, insert, modify}
use moreland_kde.Daemon.Tracker.{Device, is_ready}
use moreland_kde.Daemon.Registry.{
  Session, Cooldown, Registry, SpawnArgs, SessionConfig, SpawnError, Threads, spawn_session,
  bump_cooldown, reap_finished, with_shutdown, spawn_debounce,
}

-- What the tracker's `next_update` gives: a list, a timeout, or the loss of the tracker.
pub data Update : Type 0 where
  listed : List Device → Update
  timed_out lost : Update

-- The local variables of `main`; `spawned` numbers the threads.
pub record Daemon : Type 0 where
  pub devices : List Device
  pub registry : Registry
  pub cooldowns : Table Cooldown
  pub seen_ready_at : Table ℕ
  pub announced_idle : Bool
  pub once_armed : Bool
  pub spawned : ℕ

-- What one iteration meets: the threads, the tracker, the clock, and whether threads start.
pub record Tick : Type 0 where
  pub threads : Threads
  pub update : Update
  pub now : ℕ
  pub failed_at : Text → ℕ
  pub starts : ℕ → Bool

pub data Flow : Type 0 where
  stop : Daemon → Flow
  continue : Daemon → Flow

unfoldable pub initial : Daemon
initial = record {
  devices = [];
  registry = [];
  cooldowns = [];
  seen_ready_at = [];
  announced_idle = false;
  once_armed = false;
  spawned = 0;
}

-- The serials of the devices that are ready.
unfoldable pub ready_serials : List Device → List Text
ready_serials devices = map (λ d. d.serial) (keep_if is_ready devices)

abbrev pub member : Text → List Text → Bool
member s ss = any (λ t. text_eq t s) ss

-- `entry(..).or_insert(now)` for each serial.
unfoldable pub or_insert_all : ℕ → List Text → Table ℕ → Table ℕ
or_insert_all now [] seen = seen
or_insert_all now (s ∷ ss) seen =
    or_insert_all now ss (if contains_key s seen then seen else insert s now seen)

unfoldable pub track_ready : ℕ → List Text → Table ℕ → Table ℕ
track_ready now ready seen = or_insert_all now ready (keep_if (λ e. member e.0 ready) seen)

-- The sessions whose device is not ready any more are told to stop.
unfoldable pub stop_vanished : List Text → Registry → Registry
stop_vanished ready r = map (λ e. if member e.0 ready then e else (e.0, with_shutdown e.1)) r

abbrev pub old_enough : ℕ → Option ℕ → Bool
old_enough now none = false
old_enough now (some t) = leb spawn_debounce (now - t)

unfoldable pub debounced : ℕ → Table ℕ → Device → Bool
debounced now seen d = old_enough now (lookup d.serial seen)

abbrev pub cooled_down : ℕ → Option Cooldown → Bool
cooled_down now none = true
cooled_down now (some c) = leb c.next_attempt now

-- Who may start in this iteration, and whether `--once` is armed from here on.
unfoldable pub once_candidates : ℕ → Daemon → List Device × Bool
once_candidates now d =
    if d.once_armed
    then ([], true)
    else if any (debounced now d.seen_ready_at) (keep_if is_ready d.devices)
    then (keep_if is_ready d.devices, true)
    else ([], false)

unfoldable pub candidates : SpawnArgs → ℕ → Daemon → List Device × Bool
candidates args now d = if args.once then once_candidates now d else (
  keep_if (λ x. cooled_down now (lookup x.serial d.cooldowns))
      (keep_if (debounced now d.seen_ready_at)
        (keep_if (λ x. not (contains_key x.serial d.registry)) (keep_if is_ready d.devices))),
  d.once_armed,
)

-- What follows from the outcome of `spawn_session`.
unfoldable pub enter : Tick → Device → Result SpawnError (Session × SessionConfig) → Daemon → Daemon
enter tick device (ok (session, config)) d = record d {
  registry = insert device.serial session d.registry;
  announced_idle = false;
  spawned = d.spawned + 1;
}
enter tick device (err e) d = record d {
  cooldowns = bump_cooldown (tick.failed_at device.serial) device.serial d.cooldowns;
}

unfoldable pub start_one : SpawnArgs → Tick → Device → Daemon → Daemon
start_one args tick device d =
    if contains_key device.serial d.registry
    then d
    else enter tick device (spawn_session tick.starts d.spawned device args d.registry) d

unfoldable pub start_all : SpawnArgs → Tick → List Device → Daemon → Daemon
start_all args tick [] d = d
start_all args tick (x ∷ xs) d = start_all args tick xs (start_one args tick x d)

abbrev pub is_nil : {A : Type 0} → List A → Bool
is_nil [] = true
is_nil (x ∷ xs) = false

unfoldable pub announce_idle : Daemon → Daemon
announce_idle d = record d { announced_idle = is_nil d.registry || d.announced_idle }

-- The part of an iteration behind the tracker's answer.
unfoldable pub reconcile : SpawnArgs → Tick → Daemon → Daemon
reconcile args tick d =
    let ready = ready_serials d.devices in
    let d1 : Daemon = record d {
      seen_ready_at = track_ready tick.now ready d.seen_ready_at;
      registry = stop_vanished ready d.registry;
    } in
    let (starting, armed) = candidates args tick.now d1 in
    announce_idle (start_all args tick starting (record d1 { once_armed = armed }))

unfoldable pub on_update : SpawnArgs → Tick → Update → Daemon → Daemon
on_update args tick (listed devices) d =
    reconcile args tick (record d { devices = devices; announced_idle = false })
on_update args tick timed_out d = reconcile args tick d
on_update args tick lost d = d

unfoldable pub reap : Tick → Daemon → Daemon
reap tick d =
    let (registry, cooldowns) = reap_finished tick.threads (d.registry, d.cooldowns) in
    record d { registry = registry; cooldowns = cooldowns }

-- One iteration of the loop.
unfoldable pub iterate : SpawnArgs → Tick → Daemon → Flow
iterate args tick d =
    let reaped = reap tick d in
    if args.once && reaped.once_armed && is_nil reaped.registry
    then stop reaped
    else continue (on_update args tick tick.update reaped)

abbrev pub follow : Flow → (Daemon → Daemon) → Daemon
follow (stop d) later = d
follow (continue d) later = later d

-- The loop over the iterations until one stops it or `shutdown` is set, behind the last of them.
unfoldable pub run_loop : SpawnArgs → List Tick → Daemon → Daemon
run_loop args [] d = d
run_loop args (tick ∷ ticks) d = follow (iterate args tick d) (λ d'. run_loop args ticks d')

-- The end of `main`: every session is told to stop before the threads are joined.
unfoldable pub stop_all : Registry → Registry
stop_all r = map (λ e. (e.0, with_shutdown e.1)) r
