-- ===== src/Capture/Plasma/Stream/Negotiation.antt =====
-- crates/capture/src/plasma/pipewire.rs: when the format is known.
use moreland_kde.Base.{
  ℕ, ◌<◌, ◌≡◌, refl, ◌⊎◌, inl, inr, false, Option, none, some, List, [], ◌∷◌, arith, ◌==◌,
  Bool-cases, All,
}
use moreland_kde.Base.Result.{Result, ok, err}
use moreland_kde.Base.Text.{Text}
use moreland_kde.Capture.Plasma.{PlasmaError}
use moreland_kde.Capture.Plasma.Stream.{
  Shared, Frame, Callback, Dequeued, process, param_changed, state_error, no_buffer, no_data, no_fd,
  data_fd, on_process, on_callback, on_callbacks, deliver, after_round, next_frame, discard,
  wait_for_format,
}

-- A format that is announced has a width.
abbrev pub Announces : Callback → Type 0
Announces (param_changed (some info)) = 0 < info.info_width
Announces (param_changed none) = Unit {0}
Announces (process d) = Unit {0}
Announces (state_error e) = Unit {0}

-- Frames are only there when the format is.
abbrev pub IsNegotiated : Shared → Type 0
IsNegotiated s = (s.frames ≡ []) ⊎ (0 < s.format.width)

nonzero : (n : ℕ) → (n == 0) ≡ false → 0 < n
nonzero n h = ground arith

delivered :
    (s : Shared) (duplicate : Option ℕ)
    → (s.format.width == 0) ≡ false
    → IsNegotiated (deliver s duplicate)
delivered s (some fd) known = inr (nonzero s.format.width known)
delivered s none known = inr (nonzero s.format.width known)

on_process-IsNegotiated :
    (d : Dequeued) (s : Shared) → IsNegotiated s → IsNegotiated (on_process d s)
unfolding on_process
on_process-IsNegotiated no_buffer s h = h
on_process-IsNegotiated no_data s h = h
on_process-IsNegotiated no_fd s h = h
on_process-IsNegotiated (data_fd duplicate) s h = elim (Bool-cases (s.format.width == 0)) [
  | inl unknown ↦ rw (unknown) h
  | inr known ↦ rw (known) (delivered s duplicate known)
]

on_callback-IsNegotiated :
    (c : Callback) (s : Shared) → Announces c → IsNegotiated s → IsNegotiated (on_callback c s)
unfolding on_callback
on_callback-IsNegotiated (process d) s a h = on_process-IsNegotiated d s h
on_callback-IsNegotiated (param_changed none) s a h = h
on_callback-IsNegotiated (param_changed (some info)) s a h = inr a
on_callback-IsNegotiated (state_error e) s a h = h

on_callbacks-IsNegotiated :
    (cs : List Callback) (s : Shared)
    → All Announces cs
    → IsNegotiated s
    → IsNegotiated (on_callbacks cs s)
unfolding on_callbacks
on_callbacks-IsNegotiated [] s a h = h
on_callbacks-IsNegotiated (c ∷ cs) s (a, as_too) h =
    on_callbacks-IsNegotiated cs (on_callback c s) as_too (on_callback-IsNegotiated c s a h)

-- What a wait for a frame ends in: the format is known, or there is a failure.
abbrev pub KnowsFormat : {A : Type 0} → Result PlasmaError A × Shared → Type 0
KnowsFormat (ok a, s) = 0 < s.format.width
KnowsFormat (err e, s) = Unit {0}

round-KnowsFormat :
    (s : Shared) (frames : List Frame) (e : Option Text) (later : Result PlasmaError Frame × Shared)
    → s.frames ≡ frames
    → IsNegotiated s
    → KnowsFormat later
    → KnowsFormat (after_round s frames e later)
round-KnowsFormat s (f ∷ fs) e later same (inl nothing) k = absurd (cc)
round-KnowsFormat s (f ∷ fs) e later same (inr known) k = known
round-KnowsFormat s [] (some e) later same h k = tt
round-KnowsFormat s [] none later same h k = k

next_frame-KnowsFormat :
    (rounds : List (List Callback)) (s : Shared)
    → All (All Announces) rounds
    → IsNegotiated s
    → KnowsFormat (next_frame rounds s)
unfolding next_frame
next_frame-KnowsFormat [] s a h = tt
next_frame-KnowsFormat (cs ∷ rounds) s (a, as_too) h =
    let h' : IsNegotiated (on_callbacks cs s) = on_callbacks-IsNegotiated cs s a h in
    round-KnowsFormat (on_callbacks cs s) (on_callbacks cs s).frames (on_callbacks cs s).error
      (next_frame rounds (on_callbacks cs s)) refl h'
      (next_frame-KnowsFormat rounds (on_callbacks cs s) as_too h')

discard-KnowsFormat :
    (r : Result PlasmaError Frame × Shared) → KnowsFormat r → KnowsFormat (discard r)
discard-KnowsFormat (ok f, s) h = h
discard-KnowsFormat (err e, s) h = tt

-- If every format that KWin announces has a width, then a wait for the format that succeeds leaves
-- the format known, whatever the order of the callbacks: frames that come before it are dropped.
pub wait_for_format-KnowsFormat :
    (rounds : List (List Callback)) (s : Shared)
    → All (All Announces) rounds
    → s.frames ≡ []
    → KnowsFormat (wait_for_format rounds s)
unfolding wait_for_format
wait_for_format-KnowsFormat rounds s a empty = elim (Bool-cases (s.format.width == 0)) [
  | inl unknown ↦
      rw (unknown)
        (discard-KnowsFormat (next_frame rounds s) (next_frame-KnowsFormat rounds s a (inl empty)))
  | inr known ↦ rw (known) (nonzero s.format.width known)
]
