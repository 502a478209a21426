-- ===== src/Daemon/Scenarios.antt =====
-- Concrete runs of the reconciler of crates/daemon/src/main.rs, and the theorems applied to them.
use moreland_kde.Base.{
  ℕ, ◌+◌, ◌*◌, ◌≤◌, ◌<◌, ◌≡◌, refl, ◌⊎◌, Bool, true, false, none, some, List, [], ◌∷◌, ◌++◌, arith,
  length, All,
}
use moreland_kde.Base.Result.{ok}
use moreland_kde.Base.Text.{Text, text, is_whitespace, u16_max}
use moreland_kde.Base.Table.{lookup}
use moreland_kde.Protocol.Headers.{port_range}
use moreland_kde.Daemon.Tracker.{Device, read_payload, next_update}
use moreland_kde.Daemon.Tracker.{frame_request}
use moreland_kde.Daemon.Tracker.Laws.{DeviceFits, print_devices, next_update-print_devices}
use moreland_kde.Daemon.Registry.{
  Session, Cooldown, Registry, SpawnArgs, SessionConfig, Ended, failed, Threads, allocate_port,
  port_taken, name_taken_in, resolve_output_name, dashed, serial_suffix, spawn_session,
  session_config, bump_cooldown, failures_of, seconds, reap_finished,
}
use moreland_kde.Daemon.Registry.Allocation.{Inv, allocate_port_lem, resolve_output_name_lem}
use moreland_kde.Daemon.Registry.Reaping.{bump_cooldown_lem}
use moreland_kde.Daemon.Reconciler.{
  Daemon, Tick, Update, listed, timed_out, initial, iterate, continue, reap, run_loop,
}
use moreland_kde.Daemon.Reconciler.Safety.{run_loop-initial-Inv}
use moreland_kde.Daemon.Reconciler.Vanished.{AllSettled, iterate-AllSettled}
use moreland_kde.Daemon.Reconciler.Debounce.{Waited, iterate-Waited}
use moreland_kde.Daemon.Config.{default_config, default_args, Numbers, Args}
use moreland_kde.Daemon.Config.Arguments.{parse_args, spawn_args}
use moreland_kde.Daemon.Config.Ranges.{is_rotation, percent_fits, parse_args-session_config}

abbrev args : SpawnArgs
args = record {
  base_port = 27183;
  output_name = text "moreland";
  explicit_output_name = false;
  once = false;
  brightness = none;
  rotation = 0;
  brightness_overrides = [];
  rotation_overrides = (text "rf8n50qrdnv", 90) ∷ [];
}

abbrev tablet : Device
tablet = record { serial = text "RF8N50QRDNV"; state = text "device" }

abbrev second : Device
second = record { serial = text "emulator-5554"; state = text "device" }

abbrev starts : ℕ → Bool
starts n = true

abbrev first_session : Session
first_session = record { shutdown = false; handle = 0; port = 27183; output_name = text "moreland" }

abbrev one_running : Registry
one_running = (text "RF8N50QRDNV", first_session) ∷ []

one_running-Inv : Inv one_running
one_running-Inv = record { serials = (tt, tt); ports = (tt, tt); names = (tt, tt) }

second_port : allocate_port one_running 27183 ≡ ok 27184
unfolding allocate_port moreland_kde.Daemon.Registry.allocate_from
second_port = refl

second_name :
    resolve_output_name false (text "moreland") (text "emulator-5554") one_running
    ≡ ok (text "moreland-5554")
unfolding resolve_output_name serial_suffix
second_name = refl

allocate_port_lem_example :
    (27183 ≤ 27184)
    × (27184 < 27183 + port_range)
    × (27184 ≤ u16_max)
    × (port_taken 27184 one_running ≡ false)
    × ((q : ℕ) → 27183 ≤ q → q < 27184 → port_taken q one_running ≡ true)
allocate_port_lem_example = allocate_port_lem one_running 27183 27184 second_port

abbrev base_name : Text
base_name = text "moreland"

abbrev emulator_name : Text
emulator_name = text "moreland-5554"

resolve_output_name_lem_example :
    (name_taken_in emulator_name one_running ≡ false)
    × (false ≡ true → emulator_name ≡ base_name)
    × (name_taken_in base_name one_running ≡ false → emulator_name ≡ base_name)
    × ((emulator_name ≡ base_name)
        ⊎ (emulator_name ≡ dashed base_name (serial_suffix second.serial 4))
        ⊎ (emulator_name ≡ dashed base_name second.serial))
resolve_output_name_lem_example =
    resolve_output_name_lem false base_name second.serial emulator_name one_running second_name

abbrev second_session : Session
second_session = record {
  shutdown = false;
  handle = 1;
  port = 27184;
  output_name = text "moreland-5554";
}

abbrev second_config : SessionConfig
second_config = record {
  port = 27184;
  output_name = text "moreland-5554";
  brightness = none;
  rotation = 0;
}

second_spawned : spawn_session starts 1 second args one_running ≡ ok (second_session, second_config)
unfolding spawn_session allocate_port moreland_kde.Daemon.Registry.allocate_from resolve_output_name
    serial_suffix session_config
second_spawned = refl

bump_cooldown_lem_example :
    (c : Cooldown) × (lookup tablet.serial (bump_cooldown 5 tablet.serial []) ≡ some c)
    × (c.failures ≡ failures_of (lookup {V = Cooldown} tablet.serial []) + 1)
    × (5 + seconds 2 ≤ c.next_attempt)
    × (c.next_attempt ≤ 5 + seconds 16)
    × (c.failures ≤ 8 → c.next_attempt ≡ 5 + seconds (2 * c.failures))
bump_cooldown_lem_example = bump_cooldown_lem 5 tablet.serial []

abbrev all_fail : Threads
all_fail = record { is_finished = λ n. true; outcome = λ n. failed; noted_at = λ s. 9 }

abbrev none_ends : Threads
none_ends = record { is_finished = λ n. false; outcome = λ n. failed; noted_at = λ s. 9 }

abbrev plugged : Tick
plugged = record {
  threads = none_ends;
  update = listed (tablet ∷ second ∷ []);
  now = 1_000_000_000;
  failed_at = λ s. 0;
  starts = starts;
}

abbrev later : Tick
later = record plugged { update = timed_out; now = 2_000_000_000 }

both_start : length (run_loop args (plugged ∷ later ∷ []) initial).registry ≡ 2
unfolding moreland_kde.Daemon.Registry.allocate_from moreland_kde.Daemon.Registry.allocate_port
    moreland_kde.Daemon.Registry.serial_suffix moreland_kde.Daemon.Registry.resolve_output_name
    moreland_kde.Daemon.Registry.session_config moreland_kde.Daemon.Registry.spawn_session
    moreland_kde.Daemon.Registry.reap_one moreland_kde.Daemon.Registry.reap_each
    moreland_kde.Daemon.Registry.reap_finished moreland_kde.Daemon.Reconciler.initial
    moreland_kde.Daemon.Reconciler.ready_serials moreland_kde.Daemon.Reconciler.or_insert_all
    moreland_kde.Daemon.Reconciler.track_ready moreland_kde.Daemon.Reconciler.stop_vanished
    moreland_kde.Daemon.Reconciler.debounced moreland_kde.Daemon.Reconciler.candidates
    moreland_kde.Daemon.Reconciler.enter moreland_kde.Daemon.Reconciler.start_one
    moreland_kde.Daemon.Reconciler.start_all moreland_kde.Daemon.Reconciler.announce_idle
    moreland_kde.Daemon.Reconciler.reconcile moreland_kde.Daemon.Reconciler.on_update
    moreland_kde.Daemon.Reconciler.reap moreland_kde.Daemon.Reconciler.iterate
    moreland_kde.Daemon.Reconciler.run_loop moreland_kde.Daemon.Tracker.is_ready
both_start = refl

run_loop-initial-Inv_example : Inv (run_loop args (plugged ∷ later ∷ []) initial).registry
run_loop-initial-Inv_example = run_loop-initial-Inv args (plugged ∷ later ∷ [])

abbrev noted : Daemon
noted = run_loop args (plugged ∷ []) initial

abbrev streaming : Daemon
streaming = run_loop args (plugged ∷ later ∷ []) initial

noted_then_streaming : iterate args later noted ≡ continue streaming
unfolding run_loop initial iterate
noted_then_streaming = refl

iterate-AllSettled_example : AllSettled streaming
iterate-AllSettled_example =
    iterate-AllSettled args later noted streaming (λ e. absurd (cc)) noted_then_streaming

iterate-Waited_example : All (Waited 2_000_000_000 (reap later noted)) streaming.registry
iterate-Waited_example = iterate-Waited args later noted streaming refl noted_then_streaming

abbrev plain_numbers : Numbers
plain_numbers = record {
  F32 = ℕ;
  default_sensitivity = 6;
  parse_positive = λ s. none;
  parse_i32 = λ s. none;
}

abbrev command_line : List Text
command_line =
    text "--rotation"
    ∷ text "RF8N50QRDNV=90"
    ∷ text "--brightness"
    ∷ text "500"
    ∷ text "--stats"
    ∷ []

abbrev given : Args ℕ
given = record (default_args plain_numbers) {
  config = record (default_config plain_numbers) { brightness = some 100; stats = true };
  rotation_overrides = (text "rf8n50qrdnv", 90) ∷ [];
}

given_parsed : parse_args plain_numbers command_line ≡ ok given
unfolding parse_args moreland_kde.Daemon.Config.Arguments.parse_loop
    moreland_kde.Daemon.Config.Arguments.takes_value moreland_kde.Daemon.Config.Arguments.flag_of
    moreland_kde.Daemon.Config.Arguments.apply moreland_kde.Daemon.Config.Arguments.set_rotation
    default_config moreland_kde.Daemon.Config.Arguments.set_brightness default_args
given_parsed = refl

parse_args-session_config_example :
    let c = session_config tablet.serial (spawn_args plain_numbers given) 27183 base_name in
    (is_rotation c.rotation ≡ true) × (percent_fits c.brightness ≡ true)
parse_args-session_config_example =
    parse_args-session_config plain_numbers command_line given tablet.serial base_name 27183
      given_parsed

abbrev short : Device
short = record { serial = text "e1"; state = text "up" }

short_fits : DeviceFits short
unfolding is_whitespace
short_fits = ((refl, (refl, tt)), (refl, (refl, tt)))

next_update-print_devices_example :
    next_update (frame_request (print_devices (short ∷ short ∷ [])) ++ [])
    ≡ ok (short ∷ short ∷ [], [])
next_update-print_devices_example =
    next_update-print_devices (short ∷ short ∷ []) [] (short_fits, (short_fits, tt)) (omega arith)
