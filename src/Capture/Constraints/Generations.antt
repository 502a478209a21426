-- ===== src/Capture/Constraints/Generations.antt =====
-- crates/capture/src/session.rs: what a batch of constraint events leaves behind.
use moreland_kde.Base.{
  ℕ, ◌≡◌, refl, sym, ap, ◌∙◌, inl, inr, true, false, Option, none, some, List, [], ◌∷◌, ◌++◌, map,
  leb, if◌then◌else◌, Bool-cases, length, take,
}
use mathlib.Core.List.{append-nil, append_assoc}
use moreland_kde.Capture.Constraints.{
  SessionCaps, State, Event, no_caps, on_event, on_events, begin_generation, add_shm_format,
  set_device, with_caps, words, from_ne_bytes, buffer_size_event, shm_format, dmabuf_device_event,
  dmabuf_format, done,
}

-- The events that describe the constraints of the session.
pub data Constraint : Type 0 where
  size : ℕ → ℕ → Constraint
  shm : Option ℕ → Constraint
  device : List ℕ → Constraint
  format : ℕ → List ℕ → Constraint

abbrev pub event_of : Constraint → Event
event_of (size w h) = buffer_size_event w h
event_of (shm f) = shm_format f
event_of (device d) = dmabuf_device_event d
event_of (format f ms) = dmabuf_format f ms

-- What a batch says, read off it kind by kind: the last size and the last device that is whole, and
-- all the formats.
abbrev pub last_size : Option (ℕ × ℕ) → List Constraint → Option (ℕ × ℕ)
last_size before [] = before
last_size before (size w h ∷ cs) = last_size (some (w, h)) cs
last_size before (shm f ∷ cs) = last_size before cs
last_size before (device d ∷ cs) = last_size before cs
last_size before (format f ms ∷ cs) = last_size before cs

abbrev pub known_shm : Option ℕ → List ℕ
known_shm none = []
known_shm (some f) = f ∷ []

abbrev pub all_shm : List Constraint → List ℕ
all_shm [] = []
all_shm (shm f ∷ cs) = known_shm f ++ all_shm cs
all_shm (size w h ∷ cs) = all_shm cs
all_shm (device d ∷ cs) = all_shm cs
all_shm (format f ms ∷ cs) = all_shm cs

abbrev pub all_formats : List Constraint → List (ℕ × List ℕ)
all_formats [] = []
all_formats (format f ms ∷ cs) = (f, words ms) ∷ all_formats cs
all_formats (shm f ∷ cs) = all_formats cs
all_formats (size w h ∷ cs) = all_formats cs
all_formats (device d ∷ cs) = all_formats cs

abbrev pub whole_device : Option ℕ → List ℕ → Option ℕ
whole_device before d = if leb 8 (length d) then some (from_ne_bytes (take 8 d)) else before

abbrev pub last_device : Option ℕ → List Constraint → Option ℕ
last_device before [] = before
last_device before (device d ∷ cs) = last_device (whole_device before d) cs
last_device before (size w h ∷ cs) = last_device before cs
last_device before (shm f ∷ cs) = last_device before cs
last_device before (format f ms ∷ cs) = last_device before cs

-- The capabilities after a batch, given those before it.
abbrev pub caps_after : List Constraint → SessionCaps → SessionCaps
caps_after cs c = record {
  buffer_size = last_size c.buffer_size cs;
  shm_formats = c.shm_formats ++ all_shm cs;
  dmabuf_formats = c.dmabuf_formats ++ all_formats cs;
  dmabuf_device = last_device c.dmabuf_device cs;
}

abbrev pub events_of : List Constraint → List Event
events_of cs = map event_of cs ++ (done ∷ [])

-- What one constraint adds.
abbrev pub add_constraint : Constraint → SessionCaps → SessionCaps
add_constraint (size w h) c = record c { buffer_size = some (w, h) }
add_constraint (shm f) c = add_shm_format f c
add_constraint (device d) c = set_device d c
add_constraint (format f ms) c = record c {
  dmabuf_formats = c.dmabuf_formats ++ ((f, words ms) ∷ []);
}

caps_after-nil : (c : SessionCaps) → caps_after [] c ≡ c
caps_after-nil c = rw (append-nil c.shm_formats, append-nil c.dmabuf_formats)

caps_after-cons :
    (k : Constraint) (cs : List Constraint) (c : SessionCaps)
    → caps_after cs (add_constraint k c) ≡ caps_after (k ∷ cs) c
caps_after-cons (size w h) cs c = refl
caps_after-cons (shm none) cs c = refl
caps_after-cons (shm (some f)) cs c = rw (append_assoc c.shm_formats (f ∷ []) (all_shm cs))
caps_after-cons (device d) cs c = elim (Bool-cases (leb 8 (length d))) [
  | inl e ↦ rw (e)
  | inr e ↦ rw (e)
]
caps_after-cons (format f ms) cs c =
    rw (append_assoc c.dmabuf_formats ((f, words ms) ∷ []) (all_formats cs))

begin_generation-unconsumed : (s : State) → s.caps_consumed ≡ false → begin_generation s ≡ s
unfolding begin_generation
begin_generation-unconsumed s h = rw (h)

pub caps_after-append :
    (cs ds : List Constraint) (c : SessionCaps)
    → caps_after ds (caps_after cs c) ≡ caps_after (cs ++ ds) c
caps_after-append [] ds c = ap (caps_after ds) (caps_after-nil c)
caps_after-append (k ∷ cs) ds c =
    ap (caps_after ds) (sym (caps_after-cons k cs c))
    ∙ caps_after-append cs ds (add_constraint k c)
    ∙ caps_after-cons k (cs ++ ds) c

abbrev restarted : State → State
restarted s = record s { caps = no_caps; caps_consumed = false; session_done = false }

begin_generation-consumed : (s : State) → s.caps_consumed ≡ true → begin_generation s ≡ restarted s
unfolding begin_generation
begin_generation-consumed s h = rw (h)

on_event-event_of :
    (k : Constraint) (s : State)
    → on_event (event_of k) s ≡ with_caps (add_constraint k) (begin_generation s)
unfolding on_event
on_event-event_of (size w h) s = refl
on_event-event_of (shm f) s = refl
on_event-event_of (device d) s = refl
on_event-event_of (format f ms) s = refl

on_event-unconsumed :
    (k : Constraint) (s : State)
    → s.caps_consumed ≡ false
    → on_event (event_of k) s ≡ with_caps (add_constraint k) s
on_event-unconsumed k s h =
    on_event-event_of k s ∙ ap (with_caps (add_constraint k)) (begin_generation-unconsumed s h)

on_event-consumed :
    (k : Constraint) (s : State)
    → s.caps_consumed ≡ true
    → on_event (event_of k) s ≡ with_caps (add_constraint k) (restarted s)
on_event-consumed k s h =
    on_event-event_of k s ∙ ap (with_caps (add_constraint k)) (begin_generation-consumed s h)

on_event-done : (s : State) → on_event done s ≡ record s { session_done = true }
unfolding on_event
on_event-done s = refl

pub batch_unconsumed :
    (cs : List Constraint) (s : State)
    → s.caps_consumed ≡ false
    → on_events (events_of cs) s ≡ record s { caps = caps_after cs s.caps; session_done = true }
unfolding on_events
batch_unconsumed [] s h = rw (on_event-done s, caps_after-nil s.caps)
batch_unconsumed (k ∷ cs) s h =
    ap (on_events (events_of cs)) (on_event-unconsumed k s h)
    ∙ batch_unconsumed cs (with_caps (add_constraint k) s) h
    ∙ ap (λ c. record s { caps = c; session_done = true }) (caps_after-cons k cs s.caps)

-- When the capabilities were used to build a pool, a nonempty batch of constraints, in whatever
-- order its events come, followed by `done`, leaves exactly the capabilities that the batch
-- describes, and the session negotiated and not yet used.
pub batch_consumed :
    (k : Constraint) (cs : List Constraint) (s : State)
    → s.caps_consumed ≡ true
    → on_events (events_of (k ∷ cs)) s
      ≡ record s { caps = caps_after (k ∷ cs) no_caps; caps_consumed = false; session_done = true }
unfolding on_events
batch_consumed k cs s h =
    ap (on_events (events_of cs)) (on_event-consumed k s h)
    ∙ batch_unconsumed cs (with_caps (add_constraint k) (restarted s)) refl
    ∙ ap (λ c. record s { caps = c; caps_consumed = false; session_done = true })
        (caps_after-cons k cs no_caps)

part_unconsumed :
    (cs : List Constraint) (s : State)
    → s.caps_consumed ≡ false
    → on_events (map event_of cs) s ≡ with_caps (caps_after cs) s
unfolding on_events
part_unconsumed [] s h = ap (λ c. record s { caps = c }) (sym (caps_after-nil s.caps))
part_unconsumed (k ∷ cs) s h =
    ap (on_events (map event_of cs)) (on_event-unconsumed k s h)
    ∙ part_unconsumed cs (with_caps (add_constraint k) s) h
    ∙ ap (λ c. record s { caps = c }) (caps_after-cons k cs s.caps)

-- A part of a batch, not ended yet.
pub part_consumed :
    (k : Constraint) (cs : List Constraint) (s : State)
    → s.caps_consumed ≡ true
    → on_events (map event_of (k ∷ cs)) s
      ≡ record s { caps = caps_after (k ∷ cs) no_caps; caps_consumed = false; session_done = false }
unfolding on_events
part_consumed k cs s h =
    ap (on_events (map event_of cs)) (on_event-consumed k s h)
    ∙ part_unconsumed cs (with_caps (add_constraint k) (restarted s)) refl
    ∙ ap (λ c. record s { caps = c; caps_consumed = false; session_done = false })
        (caps_after-cons k cs no_caps)

-- Two batches that arrive before the first is used are taken as one: every format of the first is
-- kept in front of those of the second.
pub batches_merge :
    (cs ds : List Constraint) (s : State)
    → s.caps_consumed ≡ false
    → on_events (events_of ds) (on_events (events_of cs) s)
      ≡ record s { caps = caps_after ds (caps_after cs s.caps); session_done = true }
batches_merge cs ds s h =
    rw (batch_unconsumed cs s h)
      (batch_unconsumed ds (record s { caps = caps_after cs s.caps; session_done = true }) h)
