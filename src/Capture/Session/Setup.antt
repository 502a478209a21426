-- ===== src/Capture/Session/Setup.antt =====
-- crates/capture/src/session.rs: `Capture::new`, from the registry to the first pool.
use moreland_kde.Base.{
  ℕ, suc, ◌<◌, max, ◌≡◌, sym, ap, subst, ◌∙◌, Bool, true, false, Option, none, some, List, [], ◌∷◌,
  arith, if◌then◌else◌, replicate,
}
use moreland_kde.Base.Result.{>>=-OkHas, >>=-OkHas_from, OkHas, Result, ok, err, ◌>>=◌, ◌>>◌, guard}
use moreland_kde.Base.Text.{Text, text_eq}
use moreland_kde.Capture.Constraints.{State, Event, default_state, no_caps, on_events}
use moreland_kde.Capture.Device.{Machine}
use moreland_kde.Capture.Failure.{
  Failure, not_connected, no_output, no_global, connection_lost, still_waiting,
  stopped_in_negotiation,
}
use moreland_kde.Capture.Session.{
  Capture, CaptureConfig, BufferMode, shm_mode, dmabuf_mode, Delivery, events, lost, create_session,
  allocate_pool,
}
use moreland_kde.Capture.Session.Frames.{Waited}
use moreland_kde.Capture.Session.Pool.Allocation.{IsReady, IsAllocation, allocate_pool-IsAllocation}

-- What the compositor answers: the number of outputs, what the two round trips bring, which globals
-- there are, and what is dispatched from then on.
pub record Compositor : Type 0 where
  pub connects : Bool
  pub output_count : ℕ
  pub first_trip : Option (List Event)
  pub second_trip : Option (List Event)
  pub source_manager : Bool
  pub capture_manager : Bool
  pub shm : Bool
  pub linux_dmabuf : Bool
  pub deliveries : List Delivery

abbrev pub round_trip : Option (List Event) → State → Result Failure State
round_trip none s = err connection_lost
round_trip (some es) s = ok (on_events es s)

-- The place of the first output with the name.
unfoldable pub output_named : Text → List Text → Result Failure ℕ
output_named name [] = err no_output
output_named name (n ∷ ns) =
    let later = output_named name ns >>= λ i. ok (suc i) in if text_eq n name then ok 0 else later

-- The loop of `new` that waits for the constraints.
unfoldable pub negotiate : State → List Delivery → Waited
negotiate s [] = if s.session_done then (ok tt, (s, [])) else (err still_waiting, (s, []))
negotiate s (lost now ∷ q) =
    if s.session_done then (ok tt, (s, lost now ∷ q)) else (err connection_lost, (s, q))
negotiate s (events now es ∷ q) =
    let s' = on_events es s in
    let later = negotiate (on_events es s) q in
    if s.session_done
    then (ok tt, (s, events now es ∷ q))
    else if s'.session_stopped
    then (err stopped_in_negotiation, (on_events es s, q))
    else later

abbrev pub waited : Waited → Result Failure (State × List Delivery)
waited (err e, rest) = err e
waited (ok u, rest) = ok rest

-- Only buffers of the GPU need the global.
abbrev pub dmabuf_global : BufferMode → Bool → Result Failure Bool
dmabuf_global shm_mode there = ok false
dmabuf_global dmabuf_mode there = guard there no_global >> ok true

abbrev pub fresh : CaptureConfig → Bool → ℕ → State → List Delivery → Capture
fresh config has output s q = record {
  queue = q;
  state = s;
  buffers = [];
  next_buffer = 0;
  width = 0;
  height = 0;
  mode = config.mode;
  caps = no_caps;
  format = 0;
  modifier = none;
  device_path = none;
  pool_size = max config.pool_size 1;
  allowed_modifiers = config.allowed_modifiers;
  geometry_changed = false;
  has_dmabuf = has;
  allocator = none;
  sent = create_session output config.paint_cursor ∷ [];
}

abbrev pub with_pool : Result Failure (Unit {0}) × Capture → Result Failure Capture
with_pool (err e, c) = err e
with_pool (ok u, c) = ok c

abbrev pub named_outputs : Compositor → Result Failure State
named_outputs k =
    guard k.connects not_connected
    >> round_trip k.first_trip (record default_state { outputs = replicate k.output_count [] })
    >>= round_trip k.second_trip

abbrev pub capture_for :
    Compositor → CaptureConfig → ℕ → State × List Delivery → Result Failure Capture
capture_for k config output rest =
    dmabuf_global config.mode k.linux_dmabuf >>= λ has. ok (fresh config has output rest.0 rest.1)

abbrev pub session_for : Compositor → CaptureConfig → State → ℕ → Result Failure Capture
session_for k config s output =
    guard k.source_manager no_global
    >> guard k.capture_manager no_global
    >> guard k.shm no_global
    >> waited (negotiate s k.deliveries)
    >>= capture_for k config output

abbrev pub session_parts : Compositor → Text → CaptureConfig → Result Failure Capture
session_parts k output_name config =
    named_outputs k >>= λ s. output_named output_name s.outputs >>= session_for k config s

unfoldable pub new : Machine → Compositor → Text → CaptureConfig → Result Failure Capture
new m k output_name config =
    session_parts k output_name config >>= λ c. with_pool (allocate_pool m c)

abbrev HasBuffers : Capture → Type 0
HasBuffers c = 0 < c.pool_size

session_parts-HasBuffers :
    (k : Compositor) (output_name : Text) (config : CaptureConfig)
    → OkHas HasBuffers (session_parts k output_name config)
session_parts-HasBuffers k output_name config =
    >>=-OkHas HasBuffers (named_outputs k)
      (λ s. output_named output_name s.outputs >>= session_for k config s)
      (λ s.
        >>=-OkHas HasBuffers (output_named output_name s.outputs) (session_for k config s)
          (λ output.
            >>=-OkHas HasBuffers
              (guard k.source_manager no_global
                >> guard k.capture_manager no_global
                >> guard k.shm no_global
                >> waited (negotiate s k.deliveries))
              (capture_for k config output)
              (λ rest.
                >>=-OkHas HasBuffers (dmabuf_global config.mode k.linux_dmabuf)
                  (λ has. ok (fresh config has output rest.0 rest.1)) (λ has. omega arith))))

abbrev pub IsStarted : Capture → Type 0
IsStarted c =
    IsReady c × (0 < c.pool_size) × (c.state.caps_consumed ≡ true) × (c.caps ≡ c.state.caps)

with_pool-IsStarted :
    (c : Capture) (r : Result Failure (Unit {0}) × Capture)
    → 0 < c.pool_size
    → IsAllocation c r
    → OkHas IsStarted (with_pool r)
with_pool-IsStarted c (err e, d) some_buffer allocation = tt
with_pool-IsStarted c (ok u, d) some_buffer allocation =
    let (ready, state, caps, mode, size, queue, sent, geometry) = allocation in
    (
      ready,
      subst (λ n. 0 < n) (sym size) some_buffer,
      ap (λ s. s.caps_consumed) state,
      caps ∙ sym (ap (λ s. s.caps) state),
    )

-- A capture that `new` returns is ready to take frames, whatever the compositor sent: its pool is
-- whole and not empty, also when no buffer was configured, every buffer has the size announced, and
-- the constraints that it was built from count as used.
pub new-IsStarted :
    (m : Machine) (k : Compositor) (output_name : Text) (config : CaptureConfig) (c : Capture)
    → new m k output_name config ≡ ok c
    → IsStarted c
unfolding new
new-IsStarted m k output_name config c h = subst (OkHas IsStarted) h (
    >>=-OkHas_from HasBuffers IsStarted (session_parts k output_name config)
      (λ d. with_pool (allocate_pool m d)) (session_parts-HasBuffers k output_name config)
      (λ d some_buffer.
        with_pool-IsStarted d (allocate_pool m d) some_buffer
          (allocate_pool-IsAllocation m d some_buffer)))
