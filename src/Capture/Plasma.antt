-- ===== src/Capture/Plasma.antt =====
-- crates/capture/src/plasma/mod.rs: the virtual output of KWin and the wait for its stream.
pub mod Answers
pub mod Mirror
pub mod Stream
pub mod Scenarios
use moreland_kde.Base.{
  ℕ, zero, suc, ◌+◌, ◌-◌, ◌*◌, ◌/◌, ◌%◌, ◌^◌, ◌≤◌, ◌<◌, min, max, bit_and, bit_or, ◌≡◌, refl, sym,
  ap, subst, ◌∙◌, ◌≢◌, ◌↔◌, ◌⊎◌, inl, inr, Bool, true, false, not, ◌&&◌, ◌||◌, Option, none, some,
  List, [], ◌∷◌, ◌++◌, map, arith, ltb, leb, ◌==◌, if◌then◌else◌, ltb→lt, lt→ltb, leb→le, le→leb,
  ==_iff, ==_refl, tests, Bool-cases, Option-cases, length, get_elem?, take, drop, replicate,
  keep_if, any, find_first, flatten, All, length-append, take-append-drop, length-take, length-drop,
  length-replicate, take_all, drop_all, All-append,
}
use moreland_kde.Base.Result.{Result, ok, err, ◌>>=◌, ◌>>◌, guard, >>=-eq-ok, guard_passed}
use moreland_kde.Base.Text.{
  Text, text, text_eq, text_eq_iff, text_eq_refl, is_whitespace, is_digit, is_upper, is_lower,
  is_ascii_alphanumeric, lower_char, to_ascii_lowercase, is_empty, starts_with, contains,
  strip_prefix, trim_start, trim_end, trim, push_front, starts_newline, lines, starts_word,
  split_whitespace, split_once, until, second_piece, parse_digits, parse_nonempty, parse_unsigned,
  u8_max, u16_max, u32_max,
}

pub data PlasmaError : Type 0 where
  not_connected not_available connection_lost timed_out still_waiting : PlasmaError
  refused : Text → PlasmaError
  closed_early neither_serial_nor_node : PlasmaError
  no_output : List Text → PlasmaError
  no_target : PlasmaError
  stream_failed : Text → PlasmaError

abbrev pub min_version : ℕ
min_version = 2

abbrev pub max_version : ℕ
max_version = 6

abbrev pub description_since : ℕ
description_since = 4

-- `CREATE_TIMEOUT` in nanoseconds.
abbrev pub create_timeout : ℕ
create_timeout = 5_000_000_000

-- The outputs that are bound, by index; a name is there once it is announced.
pub record State : Type 0 where
  pub node_id : Option ℕ
  pub object_serial : Option ℕ
  pub failed : Option Text
  pub closed : Bool
  pub outputs : List (Option Text)

abbrev pub default_state : State
default_state = record {
  node_id = none;
  object_serial = none;
  failed = none;
  closed = false;
  outputs = [];
}

abbrev pub is_some {ℓ} : {A : Type ℓ} → Option A → Bool
is_some none = false
is_some (some a) = true

unfoldable pub settled : State → Bool
settled s = is_some s.object_serial || is_some s.node_id || is_some s.failed || s.closed

pub data Event : Type 0 where
  output_name : ℕ → Text → Event
  created : ℕ → Event
  serial : ℕ → ℕ → Event
  failed_event : Text → Event
  closed_event : Event
  other : Event

abbrev pub announce : ℕ → Text → List (Option Text) → List (Option Text)
announce i name [] = []
announce zero name (o ∷ os) = some name ∷ os
announce (suc i) name (o ∷ os) = o ∷ announce i name os

unfoldable pub on_event : Event → State → State
on_event (output_name i name) s = record s { outputs = announce i name s.outputs }
on_event (created node) s = record s { node_id = some node }
on_event (serial hi lo) s = record s { object_serial = some (hi * 4294967296 + lo) }
on_event (failed_event e) s = record s { failed = some e }
on_event closed_event s = record s { closed = true }
on_event other s = s

unfoldable pub on_events : List Event → State → State
on_events [] s = s
on_events (e ∷ es) s = on_events es (on_event e s)

-- What one dispatch finds, with the time at which the loop looks at the clock before it.
pub data Delivery : Type 0 where
  events : ℕ → List Event → Delivery
  lost : ℕ → Delivery

-- The requests to the screencast manager and its stream.
pub data Request : Type 0 where
  described_output plain_output mirrored_output close_stream destroy_manager : Request

abbrev pub Settling : Type 0
Settling = Result PlasmaError (Unit {0}) × (State × List Request)

-- The end of `settle`: a refusal goes before a closed stream.
abbrev pub verdict : Option Text → Bool → Result PlasmaError (Unit {0})
verdict (some e) closed = err (refused e)
verdict none true = err closed_early
verdict none false = ok tt

unfoldable pub settle : ℕ → State → List Delivery → Settling
settle deadline s [] =
    if settled s then (verdict s.failed s.closed, (s, [])) else (err still_waiting, (s, []))
settle deadline s (lost now ∷ q) =
    if settled s
    then (verdict s.failed s.closed, (s, []))
    else if leb deadline now
    then (err timed_out, (s, close_stream ∷ []))
    else (err connection_lost, (s, []))
settle deadline s (events now es ∷ q) =
    let later = settle deadline (on_events es s) q in
    if settled s
    then (verdict s.failed s.closed, (s, []))
    else if leb deadline now
    then (err timed_out, (s, close_stream ∷ []))
    else later

-- What the system answers: the connection, the version of the manager that is advertised, the time
-- of the request and what is dispatched after it.
pub record Desktop : Type 0 where
  pub connects : Bool
  pub advertised : Option ℕ
  pub asked_at : ℕ
  pub deliveries : List Delivery

-- `bind` takes the highest version that both sides know.
abbrev pub bound_version : Option ℕ → Result PlasmaError ℕ
bound_version none = err not_available
bound_version (some v) = if leb min_version v then ok (min v max_version) else err not_available

-- `PlasmaVirtualOutput`
pub record PlasmaVirtualOutput : Type 0 where
  pub state : State
  pub name : Text
  pub node_id : Option ℕ
  pub sent : List Request

abbrev pub output_request : ℕ → Request
output_request version = if leb description_since version then described_output else plain_output

abbrev pub virtual_output :
    Text → Request → Settling → Result PlasmaError PlasmaVirtualOutput × List Request
virtual_output name asked (err e, (s, closing)) = (err e, asked ∷ closing)
virtual_output name asked (ok u, (s, closing)) = (
  ok (record { state = s; name = name; node_id = s.node_id; sent = asked ∷ closing }),
  asked ∷ closing,
)

-- A stream that settled without an identifier is closed.
abbrev pub identified :
    Result PlasmaError PlasmaVirtualOutput × List Request
    → Result PlasmaError PlasmaVirtualOutput × List Request
identified (err e, sent) = (err e, sent)
identified (ok o, sent) =
    if is_some o.node_id || is_some o.state.object_serial
    then (ok o, sent)
    else (err neither_serial_nor_node, sent ++ (close_stream ∷ []))

abbrev pub create_bound :
    Text → Desktop → Result PlasmaError ℕ → Result PlasmaError PlasmaVirtualOutput × List Request
create_bound name d (err e) = (err e, [])
create_bound name d (ok version) = identified (
    virtual_output name (output_request version)
      (settle (d.asked_at + create_timeout) default_state d.deliveries))

-- `create`, with the requests that were sent, also when it fails.
unfoldable pub create : Text → Desktop → Result PlasmaError PlasmaVirtualOutput × List Request
create name d = create_bound name d (guard d.connects not_connected >> bound_version d.advertised)

-- `poll`: false once the stream is closed.
unfoldable pub poll : List Event → PlasmaVirtualOutput → Bool × PlasmaVirtualOutput
poll es o = let s = on_events es o.state in (not s.closed, record o { state = s })

-- `Drop`: the requests that it adds.
unfoldable pub drop_output : PlasmaVirtualOutput → List Request
drop_output o = o.sent ++ (close_stream ∷ destroy_manager ∷ [])
