-- ===== src/Capture/Session/Frames/Outcome.antt =====
-- crates/capture/src/session.rs: what the events of a dispatch say of the outcome of a frame.
use moreland_kde.Base.{
  ◌≡◌, refl, sym, subst, ◌∙◌, ◌⊎◌, inl, inr, Bool, true, false, ◌||◌, none, List, [], ◌∷◌,
  Bool-cases, any, All,
}
use moreland_kde.Capture.Constraints.{
  State, Event, output_name, buffer_size_event, shm_format, dmabuf_device_event, dmabuf_format,
  done, stopped, presentation_time, ready, failed, failed_raw, other, on_event, on_events,
  begin_generation,
}

-- An event that says nothing of the outcome of a frame, and one that is no failure.
abbrev pub says_nothing : Event → Bool
says_nothing ready = false
says_nothing (failed reason) = false
says_nothing (failed_raw raw) = false
says_nothing _ = true

abbrev pub is_failure : Event → Bool
is_failure (failed reason) = true
is_failure (failed_raw raw) = true
is_failure _ = false

abbrev pub is_ready : Event → Bool
is_ready ready = true
is_ready _ = false

-- The two states agree on the outcome of the frame.
abbrev SameOutcome : State → State → Type 0
SameOutcome s t =
    (t.frame_ready ≡ s.frame_ready)
    × (t.frame_failed ≡ s.frame_failed)
    × (t.frame_failed_raw ≡ s.frame_failed_raw)

begin_generation-SameOutcome : (s : State) → SameOutcome s (begin_generation s)
unfolding begin_generation
begin_generation-SameOutcome s = elim (Bool-cases s.caps_consumed) [
  | inl used ↦ rw (used) (refl, refl, refl)
  | inr unused ↦ rw (unused) (refl, refl, refl)
]

on_event-SameOutcome :
    (e : Event) (s : State) → says_nothing e ≡ true → SameOutcome s (on_event e s)
unfolding on_event
on_event-SameOutcome (output_name i n) s h = (refl, refl, refl)
on_event-SameOutcome (buffer_size_event w k) s h = begin_generation-SameOutcome s
on_event-SameOutcome (shm_format f) s h = begin_generation-SameOutcome s
on_event-SameOutcome (dmabuf_device_event d) s h = begin_generation-SameOutcome s
on_event-SameOutcome (dmabuf_format f ms) s h = begin_generation-SameOutcome s
on_event-SameOutcome done s h = (refl, refl, refl)
on_event-SameOutcome stopped s h = (refl, refl, refl)
on_event-SameOutcome (presentation_time hi lo n) s h = (refl, refl, refl)
on_event-SameOutcome ready s h = absurd (cc)
on_event-SameOutcome (failed reason) s h = absurd (cc)
on_event-SameOutcome (failed_raw raw) s h = absurd (cc)
on_event-SameOutcome other s h = (refl, refl, refl)

-- No outcome yet, and a frame that is there.
abbrev pub IsPending : State → Type 0
IsPending s = (s.frame_ready ≡ false) × (s.frame_failed ≡ none) × (s.frame_failed_raw ≡ none)

abbrev pub IsTaken : State → Type 0
IsTaken s = (s.frame_ready ≡ true) × (s.frame_failed ≡ none) × (s.frame_failed_raw ≡ none)

SameOutcome-IsPending : (s t : State) → SameOutcome s t → IsPending s → IsPending t
SameOutcome-IsPending s t (r, f, w) (r', f', w') = (r ∙ r', f ∙ f', w ∙ w')

SameOutcome-IsTaken : (s t : State) → SameOutcome s t → IsTaken s → IsTaken t
SameOutcome-IsTaken s t (r, f, w) (r', f', w') = (r ∙ r', f ∙ f', w ∙ w')

pub on_events-IsPending :
    (es : List Event) (s : State)
    → All (λ e. says_nothing e ≡ true) es
    → IsPending s
    → IsPending (on_events es s)
unfolding on_events
on_events-IsPending [] s h p = p
on_events-IsPending (e ∷ es) s (h, hs) p =
    on_events-IsPending es (on_event e s) hs
      (SameOutcome-IsPending s (on_event e s) (on_event-SameOutcome e s h) p)

quiet_or_ready :
    (e : Event)
    → is_failure e ≡ false
    → (e ≡ ready) ⊎ ((is_ready e ≡ false) × (says_nothing e ≡ true))
quiet_or_ready (output_name i n) h = inr (refl, refl)
quiet_or_ready (buffer_size_event w k) h = inr (refl, refl)
quiet_or_ready (shm_format f) h = inr (refl, refl)
quiet_or_ready (dmabuf_device_event d) h = inr (refl, refl)
quiet_or_ready (dmabuf_format f ms) h = inr (refl, refl)
quiet_or_ready done h = inr (refl, refl)
quiet_or_ready stopped h = inr (refl, refl)
quiet_or_ready (presentation_time hi lo n) h = inr (refl, refl)
quiet_or_ready ready h = inl refl
quiet_or_ready (failed reason) h = absurd (cc)
quiet_or_ready (failed_raw raw) h = absurd (cc)
quiet_or_ready other h = inr (refl, refl)

on_ready :
    (s : State) → (s.frame_failed ≡ none) × (s.frame_failed_raw ≡ none) → IsTaken (on_event ready s)
unfolding on_event
on_ready s (f, w) = (refl, f, w)

on_events-IsTaken :
    (es : List Event) (s : State)
    → All (λ e. is_failure e ≡ false) es
    → IsTaken s
    → IsTaken (on_events es s)
unfolding on_events
on_events-IsTaken [] s h t = t
on_events-IsTaken (e ∷ es) s (h, hs) t = elim (quiet_or_ready e h) [
  | inl same ↦
      on_events-IsTaken es (on_event e s) hs
        (subst (λ x. IsTaken (on_event x s)) (sym same) (on_ready s (t.1, t.2)))
  | inr (unready, quiet) ↦
      on_events-IsTaken es (on_event e s) hs
        (SameOutcome-IsTaken s (on_event e s) (on_event-SameOutcome e s quiet) t)
]

pub on_events-ready :
    (es : List Event) (s : State)
    → All (λ e. is_failure e ≡ false) es
    → any is_ready es ≡ true
    → IsPending s
    → IsTaken (on_events es s)
unfolding on_events
on_events-ready [] s h r p = absurd (cc)
on_events-ready (e ∷ es) s (h, hs) r p = elim (quiet_or_ready e h) [
  | inl same ↦
      on_events-IsTaken es (on_event e s) hs
        (subst (λ x. IsTaken (on_event x s)) (sym same) (on_ready s (p.1, p.2)))
  | inr (unready, quiet) ↦
      on_events-ready es (on_event e s) hs (subst (λ b. b || any is_ready es ≡ true) unready r)
        (SameOutcome-IsPending s (on_event e s) (on_event-SameOutcome e s quiet) p)
]
