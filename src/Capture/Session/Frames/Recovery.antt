-- ===== src/Capture/Session/Frames/Recovery.antt =====
-- crates/capture/src/session.rs: what a call of `capture_frame` can leave.
use moreland_kde.Base.{
  ℕ, ◌+◌, ◌%◌, ◌<◌, ◌≡◌, refl, sym, ap, subst, ◌∙◌, ◌⊎◌, inl, inr, Bool, true, false, Option, none,
  some, List, [], ◌∷◌, ◌++◌, arith, if◌then◌else◌, Bool-cases, length,
}
use moreland_kde.Base.Result.{Result, ok, err}
use native.Mathlib.Nat.{mod-lt}
use moreland_kde.Capture.Constraints.{State, FailureReason}
use moreland_kde.Capture.Device.{Machine}
use moreland_kde.Capture.Failure.{
  pool_empty, geometry_changed_to, session_stopped_by_compositor, Failure,
}
use moreland_kde.Capture.Session.{destroy_frame, Capture, Delivery, allocate_pool}
use moreland_kde.Capture.Session.Pool.Allocation.{
  IsReady, IsValid, IsAllocation, allocate_pool-IsAllocation,
}
use moreland_kde.Capture.Session.Frames.{
  is_constraints_changed, Waited, settled, await_constraints, await_frame, same_size,
  check_geometry, rebuild, renegotiate, FrameTiming, Clock, start_frame, end_frame, outcome, is_nil,
  no_frame, take_frame, try_capture_frame, try_again, recover, capture_frame, five_seconds,
}

abbrev pub SameShape : Capture → Capture → Type 0
SameShape c c' =
    (c'.width ≡ c.width) × (c'.height ≡ c.height) × (c'.geometry_changed ≡ c.geometry_changed)

-- The size is the one of before, or the change of size is on record.
abbrev pub KeepsSize : Capture → Capture → Type 0
KeepsSize c c' = ((c'.width ≡ c.width) × (c'.height ≡ c.height)) ⊎ (c'.geometry_changed ≡ true)

-- What an attempt leaves.
abbrev pub IsTried : Capture → Result Failure FrameTiming × Capture → Type 0
IsTried c (ok t, c') =
    (t.buffer_index < length c'.buffers) × (0 < c'.pool_size) × IsReady c' × SameShape c c'
IsTried c (err e, c') = IsValid c' × SameShape c c'

-- What a renegotiation leaves.
abbrev pub IsRenegotiated : Capture → Result Failure (Unit {0}) × Capture → Type 0
IsRenegotiated c (ok u, c') = (0 < c'.pool_size) × IsReady c' × SameShape c c'
IsRenegotiated c (err e, c') = IsValid c' × KeepsSize c c'

-- What a call leaves.
abbrev pub IsCaptured : Capture → Result Failure FrameTiming × Capture → Type 0
IsCaptured c (ok t, c') =
    (t.buffer_index < length c'.buffers) × (0 < c'.pool_size) × IsReady c' × SameShape c c'
IsCaptured c (err e, c') = IsValid c' × KeepsSize c c'

next_index : (n size len : ℕ) → 0 < size → len ≡ size → (n + 1) % len < size
next_index n size len some_buffer whole =
    subst (λ l. (n + 1) % l < size) (sym whole) (mod-lt (n + 1) some_buffer)

-- A capture that started a frame and waited is as ready as before.
started-IsReady :
    (c : Capture) (s : State) (q : List Delivery)
    → 0 < c.pool_size
    → IsReady c
    → IsReady (settled (start_frame c) (s, q))
unfolding start_frame
started-IsReady c s q some_buffer (pool, at, sized) =
    (pool, next_index c.next_buffer c.pool_size (length c.buffers) some_buffer pool.0, sized)

outcome-IsTried :
    (c c' : Capture) (reason : Option FailureReason) (raw : Option ℕ) (clock : Clock)
    (presented : Option ℕ) (index : ℕ)
    → 0 < c'.pool_size
    → IsReady c'
    → index < length c'.buffers
    → SameShape c c'
    → IsTried c (outcome reason raw clock presented index, c')
outcome-IsTried c c' (some reason) raw clock presented index some_buffer ready within shape =
    ((some_buffer, inr ready), shape)
outcome-IsTried c c' none (some raw) clock presented index some_buffer ready within shape =
    ((some_buffer, inr ready), shape)
outcome-IsTried c c' none none clock presented index some_buffer ready within shape =
    (within, some_buffer, ready, shape)

end_frame-IsTried :
    (c : Capture) (clock : Clock) (waited : Waited)
    → 0 < c.pool_size
    → IsReady c
    → IsTried c (end_frame clock c.next_buffer (start_frame c) waited)
unfolding end_frame start_frame
end_frame-IsTried c clock (err e, (s, q)) some_buffer ready =
    ((some_buffer, inr (started-IsReady c s q some_buffer ready)), (refl, refl, refl))
end_frame-IsTried c clock (ok u, (s, q)) some_buffer ready =
    outcome-IsTried c
      (record (start_frame c) {
        state = s;
        queue = q;
        sent = (start_frame c).sent ++ (destroy_frame ∷ []);
      })
      s.frame_failed s.frame_failed_raw clock s.presentation_ns c.next_buffer some_buffer
      (started-IsReady c s q some_buffer ready)
      (subst (λ n. c.next_buffer < n) (sym ready.0.0) ready.1) (refl, refl, refl)

IsReady-unless_empty : (c : Capture) → IsValid c → is_nil c.buffers ≡ false → IsReady c
IsReady-unless_empty c (some_buffer, inl empty) h =
    let impossible : true ≡ false = subst (λ bs. is_nil bs ≡ false) empty h in absurd (cc)
IsReady-unless_empty c (some_buffer, inr ready) h = ready

tried :
    (c : Capture) (clock : Clock) (stopped empty : Bool)
    → IsValid c
    → is_nil c.buffers ≡ empty
    → IsTried c (
        if stopped
        then (err session_stopped_by_compositor, c)
        else if empty
        then (err pool_empty, c)
        else take_frame clock c)
tried c clock true empty valid e = (valid, (refl, refl, refl))
tried c clock false true valid e = (valid, (refl, refl, refl))
tried c clock false false valid e =
    end_frame-IsTried c clock (await_frame (no_frame c.state) c.queue) valid.0
      (IsReady-unless_empty c valid e)

try_capture_frame-IsTried :
    (c : Capture) (clock : Clock) → IsValid c → IsTried c (try_capture_frame clock c)
unfolding try_capture_frame
try_capture_frame-IsTried c clock valid =
    tried c clock c.state.session_stopped (is_nil c.buffers) valid refl

same_size-eq : (a b c d : ℕ) → same_size (a, b) (c, d) ≡ true → (a ≡ c) × (b ≡ d)
same_size-eq a b c d h = ground arith

allocated-IsRenegotiated :
    (c d c' : Capture) (u : Unit {0}) (same : Bool)
    → 0 < c.pool_size
    → (d.pool_size ≡ c.pool_size) × SameShape c d
    → IsAllocation d (ok u, c')
    → same_size (c'.width, c'.height) (c.width, c.height) ≡ same
    → IsRenegotiated c (
        if same then (ok tt, c') else (
          err (geometry_changed_to (c.width, c.height) (c'.width, c'.height)),
          record c' { geometry_changed = true },
        ))
allocated-IsRenegotiated c d c' u true some_buffer (count, shape) allocation e =
    let (ready, state, caps, mode, size, queue, sent, geometry) = allocation in
    let (w, h) = same_size-eq c'.width c'.height c.width c.height e in
    (subst (λ n. 0 < n) (sym (size ∙ count)) some_buffer, ready, (w, h, geometry ∙ shape.2))
allocated-IsRenegotiated c d c' u false some_buffer (count, shape) allocation e =
    let (ready, state, caps, mode, size, queue, sent, geometry) = allocation in
    ((subst (λ n. 0 < n) (sym (size ∙ count)) some_buffer, inr ready), inr refl)

check_geometry-IsRenegotiated :
    (c d : Capture) (r : Result Failure (Unit {0}) × Capture)
    → 0 < c.pool_size
    → (d.pool_size ≡ c.pool_size) × SameShape c d
    → IsAllocation d r
    → IsRenegotiated c (check_geometry (c.width, c.height) r)
unfolding check_geometry
check_geometry-IsRenegotiated c d (ok u, c') some_buffer alike allocation =
    allocated-IsRenegotiated c d c' u (same_size (c'.width, c'.height) (c.width, c.height))
      some_buffer alike allocation refl
check_geometry-IsRenegotiated c d (err e, c') some_buffer (count, (w, h, g)) allocation = (
  (
    subst (λ n. 0 < n) (sym (ap (λ r. r.pool_size) allocation ∙ count)) some_buffer,
    inl (ap (λ r. r.buffers) allocation),
  ),
  inl (ap (λ r. r.width) allocation ∙ w, ap (λ r. r.height) allocation ∙ h),
)

rebuild-IsRenegotiated :
    (m : Machine) (c : Capture) (waited : Waited)
    → IsValid c
    → IsRenegotiated c (rebuild m c waited)
rebuild-IsRenegotiated m c (err e, (s, q)) valid = (valid, inl (refl, refl))
rebuild-IsRenegotiated m c (ok u, (s, q)) valid =
    check_geometry-IsRenegotiated c (settled c (s, q)) (allocate_pool m (settled c (s, q))) valid.0
      (refl, (refl, refl, refl)) (allocate_pool-IsAllocation m (settled c (s, q)) valid.0)

renegotiate-IsRenegotiated :
    (m : Machine) (now : ℕ) (c : Capture) → IsValid c → IsRenegotiated c (renegotiate m now c)
unfolding renegotiate
renegotiate-IsRenegotiated m now c valid =
    rebuild-IsRenegotiated m c (await_constraints (now + five_seconds) c.state c.queue) valid

SameShape-trans : (a b c : Capture) → SameShape a b → SameShape b c → SameShape a c
SameShape-trans a b c (w, h, g) (w', h', g') = (w' ∙ w, h' ∙ h, g' ∙ g)

KeepsSize-trans : (a b c : Capture) → SameShape a b → KeepsSize b c → KeepsSize a c
KeepsSize-trans a b c (w, h, g) (inl (w', h')) = inl (w' ∙ w, h' ∙ h)
KeepsSize-trans a b c (w, h, g) (inr changed) = inr changed

tried-IsCaptured :
    (c d : Capture) (r : Result Failure FrameTiming × Capture)
    → SameShape c d
    → IsTried d r
    → IsCaptured c r
tried-IsCaptured c d (ok t, c') shape (within, some_buffer, ready, shape') =
    (within, some_buffer, ready, SameShape-trans c d c' shape shape')
tried-IsCaptured c d (err e, c') shape (valid, shape') =
    let (w, h, g) = SameShape-trans c d c' shape shape' in (valid, inl (w, h))

try_again-IsCaptured :
    (c d : Capture) (clock : Clock) (r : Result Failure (Unit {0}) × Capture)
    → SameShape c d
    → IsRenegotiated d r
    → IsCaptured c (try_again clock r)
try_again-IsCaptured c d clock (ok u, e) shape (some_buffer, ready, shape') =
    tried-IsCaptured c e (try_capture_frame clock e) (SameShape-trans c d e shape shape')
      (try_capture_frame-IsTried e clock (some_buffer, inr ready))
try_again-IsCaptured c d clock (err f, e) shape (valid, keeps) =
    (valid, KeepsSize-trans c d e shape keeps)

recover-IsCaptured :
    (m : Machine) (now : ℕ) (clock : Clock) (c : Capture) (r : Result Failure FrameTiming × Capture)
    → IsTried c r
    → IsCaptured c (recover m now clock r)
recover-IsCaptured m now clock c (ok t, d) tried = tried
recover-IsCaptured m now clock c (err e, d) (valid, shape) =
    elim (Bool-cases (is_constraints_changed e)) [
      | inl changed ↦ rw (changed) (
          try_again-IsCaptured c d clock (renegotiate m now d) shape
            (renegotiate-IsRenegotiated m now d valid))
      | inr else_failed ↦ rw (else_failed) (valid, KeepsSize-trans c d d shape (inl (refl, refl)))
    ]

-- From a capture whose pool is empty or whole, a call of `capture_frame` ends in one of two ways,
-- whatever the compositor sends. A frame stands in a buffer of a whole pool whose buffers have the
-- size of the session, which is the size before the call. A failure leaves the pool empty or whole,
-- and either the size of before or the change of size on record.
pub capture_frame-IsCaptured :
    (m : Machine) (first : Clock) (now : ℕ) (second : Clock) (c : Capture)
    → IsValid c
    → IsCaptured c (capture_frame m first now second c)
unfolding capture_frame
capture_frame-IsCaptured m first now second c valid =
    recover-IsCaptured m now second c (try_capture_frame first c)
      (try_capture_frame-IsTried c first valid)
