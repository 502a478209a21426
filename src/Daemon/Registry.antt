-- ===== src/Daemon/Registry.antt =====
-- crates/daemon/src/main.rs: sessions and cooldowns, ports, output names, and the start of a session.
pub mod Allocation
pub mod Reaping
use moreland_kde.Base.Table.{Table, lookup, contains_key, remove, insert}
use moreland_kde.Base.{
  ℕ, zero, suc, ◌+◌, ◌-◌, ◌*◌, ◌/◌, ◌%◌, ◌^◌, ◌≤◌, ◌<◌, min, max, bit_and, bit_or, ◌≡◌, refl, sym,
  ap, subst, ◌∙◌, ◌≢◌, ◌↔◌, ◌⊎◌, inl, inr, Bool, true, false, not, ◌&&◌, ◌||◌, Option, none, some,
  List, [], ◌∷◌, ◌++◌, map, arith, ltb, leb, ◌==◌, if◌then◌else◌, ltb→lt, lt→ltb, leb→le, le→leb,
  ==_iff, ==_refl, tests, Bool-cases, Option-cases, length, get_elem?, take, drop, replicate,
  keep_if, any, find_first, flatten, All, length-append, take-append-drop, length-take, length-drop,
  length-replicate, take_all, drop_all, All-append,
}
use moreland_kde.Base.Result.{Result, ok, err, ◌>>=◌, ◌>>◌, guard, >>=-eq-ok, guard_passed}
use moreland_kde.Base.Text.{
  Text, text, text_eq, text_eq_iff, text_eq_refl, is_whitespace, is_digit, is_upper, is_lower,
  is_ascii_alphanumeric, lower_char, to_ascii_lowercase, is_empty, starts_with, contains,
  strip_prefix, trim_start, trim_end, trim, push_front, starts_newline, lines, starts_word,
  split_whitespace, split_once, until, second_piece, parse_digits, parse_nonempty, parse_unsigned,
  u8_max, u16_max, u32_max,
}
use moreland_kde.Protocol.Headers.{port_range}
use moreland_kde.Daemon.Tracker.{Device}

abbrev pub spawn_debounce : ℕ
spawn_debounce = 600_000_000

-- How a session's thread ends.
pub data Ended : Type 0 where
  clean failed panicked : Ended

-- `Session`; the thread is known by the number of its start.
pub record Session : Type 0 where
  pub shutdown : Bool
  pub handle : ℕ
  pub port : ℕ
  pub output_name : Text

pub record Cooldown : Type 0 where
  pub failures : ℕ
  pub next_attempt : ℕ

abbrev pub Registry : Type 0
Registry = Table Session

-- The part of the arguments that the reconciler reads.
pub record SpawnArgs : Type 0 where
  pub base_port : ℕ
  pub output_name : Text
  pub explicit_output_name : Bool
  pub once : Bool
  pub brightness : Option ℕ
  pub rotation : ℕ
  pub brightness_overrides : Table ℕ
  pub rotation_overrides : Table ℕ

-- What `spawn_session` gives a session of its own.
pub record SessionConfig : Type 0 where
  pub port : ℕ
  pub output_name : Text
  pub brightness : Option ℕ
  pub rotation : ℕ

pub data SpawnError : Type 0 where
  port_overflow no_free_port name_taken no_free_name no_thread : SpawnError

-- Whether a session of the registry has a port, or a name.
abbrev pub port_taken : ℕ → Registry → Bool
port_taken p r = any (λ e. e.1.port == p) r

abbrev pub name_taken_in : Text → Registry → Bool
name_taken_in n r = any (λ e. text_eq e.1.output_name n) r

-- The loop over the offsets, of which `left` are still to try; `checked_add` is on a u16.
unfoldable pub allocate_from : ℕ → Registry → ℕ → Result SpawnError ℕ
allocate_from zero r candidate = err no_free_port
allocate_from (suc left) r candidate =
    let later = allocate_from left r (candidate + 1) in
    if ltb u16_max candidate
    then err port_overflow
    else if port_taken candidate r
    then later
    else ok candidate

unfoldable pub allocate_port : Registry → ℕ → Result SpawnError ℕ
allocate_port r base = allocate_from port_range r base

-- `serial_suffix`.
unfoldable pub serial_suffix : Text → ℕ → Text
serial_suffix serial n =
    let cleaned = keep_if is_ascii_alphanumeric serial in
    to_ascii_lowercase (drop (length cleaned - n) cleaned)

abbrev pub dashed : Text → Text → Text
dashed base suffix = base ++ (text "-" ++ suffix)

unfoldable pub resolve_output_name : Bool → Text → Text → Registry → Result SpawnError Text
resolve_output_name true base serial r = if name_taken_in base r then err name_taken else ok base
resolve_output_name false base serial r =
    if not (name_taken_in base r)
    then ok base
    else if not (name_taken_in (dashed base (serial_suffix serial 4)) r)
    then ok (dashed base (serial_suffix serial 4))
    else if not (name_taken_in (dashed base serial) r)
    then ok (dashed base serial)
    else err no_free_name

abbrev pub override_brightness : Option ℕ → Option ℕ → Option ℕ
override_brightness none default = default
override_brightness (some percent) default = some percent

abbrev pub override_rotation : Option ℕ → ℕ → ℕ
override_rotation none default = default
override_rotation (some degrees) default = degrees

-- The settings of a session for one device; overrides are looked up by the serial in lower case.
unfoldable pub session_config : Text → SpawnArgs → ℕ → Text → SessionConfig
session_config serial args port output_name = record {
  port = port;
  output_name = output_name;
  brightness =
      override_brightness (lookup (to_ascii_lowercase serial) args.brightness_overrides)
        args.brightness;
  rotation =
      override_rotation (lookup (to_ascii_lowercase serial) args.rotation_overrides) args.rotation;
}

-- `spawn_session`; `starts` says whether the system starts the thread of a number.
unfoldable pub spawn_session :
    (ℕ → Bool) → ℕ → Device → SpawnArgs → Registry → Result SpawnError (Session × SessionConfig)
spawn_session starts thread device args r = do
  port ← allocate_port r args.base_port
  output_name ← resolve_output_name args.explicit_output_name args.output_name device.serial r
  guard (starts thread) no_thread
  ok (
    record { shutdown = false; handle = thread; port = port; output_name = output_name },
    session_config device.serial args port output_name,
  )

abbrev pub failures_of : Option Cooldown → ℕ
failures_of none = 0
failures_of (some c) = c.failures

abbrev pub seconds : ℕ → ℕ
seconds n = n * 1_000_000_000

-- The backoff after a number of failures.
unfoldable pub backoff : ℕ → ℕ
backoff failures = seconds (2 * max (min failures 8) 1)

-- `bump_cooldown`; the count of failures is a u32.
unfoldable pub bump_cooldown : ℕ → Text → Table Cooldown → Table Cooldown
bump_cooldown now serial cooldowns =
    let failures = failures_of (lookup serial cooldowns) + 1 in
    insert serial (record { failures = failures; next_attempt = now + backoff failures }) cooldowns

-- A joined session's outcome, logged and noted.
unfoldable pub note_end : ℕ → Text → Ended → Table Cooldown → Table Cooldown
note_end now serial clean cooldowns = remove serial cooldowns
note_end now serial failed cooldowns = bump_cooldown now serial cooldowns
note_end now serial panicked cooldowns = bump_cooldown now serial cooldowns

-- What the threads do: which have finished, how each ends, and the clock when that is noted.
pub record Threads : Type 0 where
  pub is_finished : ℕ → Bool
  pub outcome : ℕ → Ended
  pub noted_at : Text → ℕ

abbrev pub finished_serials : Threads → Registry → List Text
finished_serials th r = map (λ e. e.0) (keep_if (λ e. th.is_finished e.1.handle) r)

unfoldable pub reap_one :
    Threads → Text → Option Session → Registry × Table Cooldown → Registry × Table Cooldown
reap_one th serial none (r, c) = (r, c)
reap_one th serial (some s) (r, c) =
    (remove serial r, note_end (th.noted_at serial) serial (th.outcome s.handle) c)

unfoldable pub reap_each :
    Threads → List Text → Registry × Table Cooldown → Registry × Table Cooldown
reap_each th [] rc = rc
reap_each th (serial ∷ rest) rc = reap_each th rest (reap_one th serial (lookup serial rc.0) rc)

-- `reap_finished`.
unfoldable pub reap_finished : Threads → Registry × Table Cooldown → Registry × Table Cooldown
unfolding reap_each reap_one
reap_finished th rc = reap_each th (finished_serials th rc.0) rc

abbrev pub with_shutdown : Session → Session
with_shutdown s = record s { shutdown = true }

-- `join_all_parallel`: the registry is drained, and each thread's outcome is waited for.
unfoldable pub join_all_parallel : Threads → Registry → List (Text × Ended) × Registry
join_all_parallel th r = (map (λ e. (e.0, th.outcome e.1.handle)) r, [])
