-- ===== src/Capture/Session/Frames/Progress.antt =====
-- crates/capture/src/session.rs: a frame that the compositor completes is returned.
use moreland_kde.Base.{
  ℕ, ◌≡◌, refl, sym, ap, subst, ◌∙◌, Bool, true, false, Option, none, List, [], ◌∷◌, ◌++◌,
  if◌then◌else◌, any, All,
}
use moreland_kde.Base.Result.{Result, ok, err}
use moreland_kde.Capture.Constraints.{FailureReason, State, Event, on_events}
use moreland_kde.Capture.Device.{Machine}
use moreland_kde.Capture.Failure.{pool_empty, session_stopped_by_compositor, Failure}
use moreland_kde.Capture.Session.{destroy_frame, lost, Capture, Delivery, events}
use moreland_kde.Capture.Session.Frames.{
  age_of, await_frame, frame_over, no_frame, FrameTiming, Clock, start_frame, end_frame, outcome,
  is_nil, take_frame, try_capture_frame, recover, capture_frame,
}
use moreland_kde.Capture.Session.Frames.Outcome.{
  says_nothing, is_failure, is_ready, IsPending, IsTaken, on_events-IsPending, on_events-ready,
}

-- Dispatches one after the other, and then others.
abbrev pub dispatched : List (ℕ × List Event) → List Delivery → List Delivery
dispatched [] rest = rest
dispatched ((now, es) ∷ before) rest = events now es ∷ dispatched before rest

pending_not_over : (s : State) → IsPending s → frame_over s ≡ false
pending_not_over s (r, f, w) = rw (r, f, w) refl

taken_over : (s : State) → IsTaken s → frame_over s ≡ true
taken_over s (r, f, w) = rw (r) refl

await_frame-over :
    (s : State) (q : List Delivery) → frame_over s ≡ true → await_frame s q ≡ (ok tt, (s, q))
unfolding await_frame
await_frame-over s [] h = rw (h) refl
await_frame-over s (lost now ∷ q) h = rw (h) refl
await_frame-over s (events now es ∷ q) h = rw (h) refl

await_frame-events :
    (s : State) (now : ℕ) (es : List Event) (q : List Delivery)
    → frame_over s ≡ false
    → await_frame s (events now es ∷ q) ≡ await_frame (on_events es s) q
unfolding await_frame
await_frame-events s now es q h = rw (h) refl

-- The state when the frame is there.
abbrev after_all : List (ℕ × List Event) → List Event → State → State
after_all [] es s = on_events es s
after_all ((now, quiet) ∷ before) es s = after_all before es (on_events quiet s)

after_all-IsTaken :
    (before : List (ℕ × List Event)) (es : List Event) (s : State)
    → All (λ b. All (λ e. says_nothing e ≡ true) b.1) before
    → All (λ e. is_failure e ≡ false) es
    → any is_ready es ≡ true
    → IsPending s
    → IsTaken (after_all before es s)
after_all-IsTaken [] es s h hs r p = on_events-ready es s hs r p
after_all-IsTaken ((now, quiet) ∷ before) es s (h, rest) hs r p =
    after_all-IsTaken before es (on_events quiet s) rest hs r (on_events-IsPending quiet s h p)

await_frame-dispatched :
    (before : List (ℕ × List Event)) (now : ℕ) (es : List Event) (q : List Delivery) (s : State)
    → All (λ b. All (λ e. says_nothing e ≡ true) b.1) before
    → All (λ e. is_failure e ≡ false) es
    → any is_ready es ≡ true
    → IsPending s
    → await_frame s (dispatched before (events now es ∷ q)) ≡ (ok tt, (after_all before es s, q))
await_frame-dispatched [] now es q s h hs r p =
    await_frame-events s now es q (pending_not_over s p)
    ∙ await_frame-over (on_events es s) q
        (taken_over (on_events es s) (on_events-ready es s hs r p))
await_frame-dispatched ((at, quiet) ∷ before) now es q s (h, rest) hs r p =
    await_frame-events s at quiet (dispatched before (events now es ∷ q)) (pending_not_over s p)
    ∙ await_frame-dispatched before now es q (on_events quiet s) rest hs r
        (on_events-IsPending quiet s h p)

abbrev timing : Clock → Option ℕ → ℕ → FrameTiming
timing clock presented index = record {
  latency = clock.elapsed;
  presentation_ns = presented;
  age = age_of presented clock.received_ns;
  buffer_index = index;
}

outcome-timing :
    (reason : Option FailureReason) (raw : Option ℕ) (clock : Clock) (presented : Option ℕ)
    (index : ℕ)
    → reason ≡ none
    → raw ≡ none
    → outcome reason raw clock presented index ≡ ok (timing clock presented index)
outcome-timing reason raw clock presented index f w = rw (f, w) refl

not_refused :
    (clock : Clock) (c : Capture) (stopped empty : Bool)
    → stopped ≡ false
    → empty ≡ false
    → (if stopped
        then (err session_stopped_by_compositor, c)
        else if empty
        then (err pool_empty, c)
        else take_frame clock c)
      ≡ take_frame clock c
not_refused clock c true empty h e = absurd (cc)
not_refused clock c false true h e = absurd (cc)
not_refused clock c false false h e = refl

-- What a call gives when the frame arrives.
abbrev pub IsArrival : Capture → List Delivery → Result Failure FrameTiming × Capture → Type 0
IsArrival c q (ok t, d) = (t.buffer_index ≡ c.next_buffer) × (d.queue ≡ q) × (d.buffers ≡ c.buffers)
IsArrival c q (err e, d) = false ≡ true

end_frame-IsArrival :
    (clock : Clock) (c : Capture) (s : State) (q : List Delivery)
    → IsTaken s
    → IsArrival c q (end_frame clock c.next_buffer (start_frame c) (ok tt, (s, q)))
unfolding end_frame start_frame
end_frame-IsArrival clock c s q (r, f, w) =
    subst
      (λ o. IsArrival c q (
        o,
        record (start_frame c) {
          state = s;
          queue = q;
          sent = (start_frame c).sent ++ (destroy_frame ∷ []);
        },
      ))
      (sym (
        outcome-timing s.frame_failed s.frame_failed_raw clock s.presentation_ns c.next_buffer f w))
      (refl, refl, refl)

recover-IsArrival :
    (m : Machine) (now : ℕ) (clock : Clock) (c : Capture) (q : List Delivery)
    (r : Result Failure FrameTiming × Capture)
    → IsArrival c q r
    → IsArrival c q (recover m now clock r)
recover-IsArrival m now clock c q (ok t, d) h = h
recover-IsArrival m now clock c q (err e, d) h = absurd (cc)

-- The session runs and has buffers, and the compositor completes the frame: in a dispatch, after any
-- number of others that say nothing of its outcome, there is a `ready` and no failure. Then
-- `capture_frame` returns the frame, in the buffer that was next, and has read no further.
pub capture_frame-dispatched :
    (m : Machine) (first : Clock) (later : ℕ) (second : Clock) (c : Capture)
    (before : List (ℕ × List Event)) (now : ℕ) (es : List Event) (q : List Delivery)
    → c.state.session_stopped ≡ false
    → is_nil c.buffers ≡ false
    → c.queue ≡ dispatched before (events now es ∷ q)
    → All (λ b. All (λ e. says_nothing e ≡ true) b.1) before
    → All (λ e. is_failure e ≡ false) es
    → any is_ready es ≡ true
    → IsArrival c q (capture_frame m first later second c)
unfolding capture_frame try_capture_frame
capture_frame-dispatched m first later second c before now es q running filled queued quiet unfailed
      arrives =
    let s : State = after_all before es (no_frame c.state) in
    let waits : await_frame (no_frame c.state) c.queue ≡ (ok tt, (s, q)) =
      ap (await_frame (no_frame c.state)) queued
      ∙ await_frame-dispatched before now es q (no_frame c.state) quiet unfailed arrives
          (refl, refl, refl) in
    let taken : IsTaken s =
      after_all-IsTaken before es (no_frame c.state) quiet unfailed arrives (refl, refl, refl) in
    let tried : IsArrival c q (take_frame first c) =
      subst (λ w. IsArrival c q (end_frame first c.next_buffer (start_frame c) w)) (sym waits)
        (end_frame-IsArrival first c s q taken) in
    recover-IsArrival m later second c q (try_capture_frame first c) (
      subst (IsArrival c q)
        (sym (not_refused first c c.state.session_stopped (is_nil c.buffers) running filled)) tried)
