-- ===== src/Session/Threads/Capturing.antt =====
-- crates/daemon/src/session.rs: the capture loop, once the shutdown is requested.
use moreland_kde.Base.{
  ℕ, ◌+◌, ◌-◌, ◌≤◌, ◌≡◌, refl, ap, ◌∙◌, Bool, true, false, ◌&&◌, List, [], ◌∷◌, ◌==◌, arith,
  if◌then◌else◌,
}
use moreland_kde.Session.Threads.{
  Ending, stopped, CaptureAt, tests, capturing, pushing, ended, joining, returned, DrainAt,
  drain_tests, pulling, noting, sending, drained, ReaderAt, reader_tests, reading, popping, closed,
  Threads, Pulled, Got, is_drained, is_closed, capture_turn, drain_turn, reader_turn, Turn,
  shutdown_requested, of_capture, of_drain, of_reader, turn, turns,
}

-- How many turns of its own each thread has left at most, once it is asked to end.
abbrev pub capture_left : CaptureAt → ℕ
capture_left capturing = 4
capture_left pushing = 3
capture_left tests = 2
capture_left (ended e) = 1
capture_left (joining e) = 0
capture_left (returned e) = 0

-- A frame or a packet that is on its way.
abbrev pub frame_coming : CaptureAt → ℕ
frame_coming capturing = 1
frame_coming pushing = 1
frame_coming tests = 0
frame_coming (ended e) = 0
frame_coming (joining e) = 0
frame_coming (returned e) = 0

-- The turns of each thread.
abbrev pub captures : List Turn → ℕ
captures [] = 0
captures (of_capture works ∷ xs) = captures xs + 1
captures (shutdown_requested ∷ xs) = captures xs
captures (of_drain p works ∷ xs) = captures xs
captures (of_reader g ∷ xs) = captures xs

-- A turn with the shutdown requested: what is left of the capture loop, and its frames.
abbrev pub Capturing : ℕ → CaptureAt → Threads → Threads → Type 0
Capturing spent c t u =
    (u.shutdown ≡ true)
    × (capture_left u.capture ≤ capture_left c - spent)
    × (u.index + frame_coming u.capture ≤ t.index + frame_coming c)

asked :
    (b : Bool) (t : Threads)
    → t.shutdown ≡ true
    → b ≡ true
    → Capturing 1 tests t (record t { capture = if b then ended stopped else capturing })
asked true t s e = (s, omega arith, omega arith)
asked false t s e = absurd (cc)

waits_for :
    (e : Ending) (b : Bool) (t : Threads)
    → t.shutdown ≡ true
    → Capturing 1 (joining e) t (record t { capture = if b then returned e else joining e })
waits_for e true t s = (s, omega arith, omega arith)
waits_for e false t s = (s, omega arith, omega arith)

capture_turn-Capturing :
    (c : CaptureAt) (works : Bool) (t : Threads)
    → t.shutdown ≡ true
    → Capturing 1 c t (capture_turn c works t)
unfolding capture_turn
capture_turn-Capturing tests works t s = asked t.shutdown t s s
capture_turn-Capturing capturing true t s = (s, omega arith, omega arith)
capture_turn-Capturing capturing false t s = (s, omega arith, omega arith)
capture_turn-Capturing pushing true t s = (s, omega arith, omega arith)
capture_turn-Capturing pushing false t s = (s, omega arith, omega arith)
capture_turn-Capturing (ended e) works t s = (s, omega arith, omega arith)
capture_turn-Capturing (joining e) works t s =
    waits_for e (is_drained t.drain && is_closed t.reader) t s
capture_turn-Capturing (returned e) works t s = (s, omega arith, omega arith)

-- The turns of the other threads leave the main thread's things alone.
abbrev pub SameMain : Threads → Threads → Type 0
SameMain t u =
    (u.shutdown ≡ t.shutdown)
    × (u.running ≡ t.running)
    × (u.capture ≡ t.capture)
    × (u.index ≡ t.index)

pub drain_turn-SameMain :
    (d : DrainAt) (p : Pulled) (works : Bool) (t : Threads)
    → SameMain t (drain_turn d p works t) × ((drain_turn d p works t).reader ≡ t.reader)
unfolding drain_turn
drain_turn-SameMain drain_tests p works t = ((refl, refl, refl, refl), refl)
drain_turn-SameMain pulling p works t = ((refl, refl, refl, refl), refl)
drain_turn-SameMain noting p works t = ((refl, refl, refl, refl), refl)
drain_turn-SameMain sending p true t = ((refl, refl, refl, refl), refl)
drain_turn-SameMain sending p false t = ((refl, refl, refl, refl), refl)
drain_turn-SameMain (drained e) p works t = ((refl, refl, refl, refl), refl)

pub pop-SameMain :
    (b : Bool) (t : Threads)
    → let u : Threads = if b then record t { reader = reader_tests } else record t {
      waiting = t.waiting - 1;
      taken_off = t.taken_off + 1;
      reader = reader_tests;
    } in
      SameMain t u × (u.drain ≡ t.drain) × (u.packets ≡ t.packets) × (u.reader ≡ reader_tests)
pop-SameMain true t = ((refl, refl, refl, refl), refl, refl, refl)
pop-SameMain false t = ((refl, refl, refl, refl), refl, refl, refl)

pub reader_turn-SameMain :
    (r : ReaderAt) (g : Got) (t : Threads)
    → SameMain t (reader_turn r g t)
      × ((reader_turn r g t).drain ≡ t.drain)
      × ((reader_turn r g t).packets ≡ t.packets)
unfolding reader_turn
reader_turn-SameMain reader_tests g t = ((refl, refl, refl, refl), refl, refl)
reader_turn-SameMain reading g t = ((refl, refl, refl, refl), refl, refl)
reader_turn-SameMain popping g t =
    let (same, drain, packets, reader) = pop-SameMain (t.waiting == 0) t in (same, drain, packets)
reader_turn-SameMain closed g t = ((refl, refl, refl, refl), refl, refl)

SameMain-Capturing : (t u : Threads) → t.shutdown ≡ true → SameMain t u → Capturing 0 t.capture t u
SameMain-Capturing t u s (shutdown, running, capture, index) = (
  shutdown ∙ s,
  omega (arith, ap capture_left capture),
  omega (arith, ap frame_coming capture, index),
)

pub turns-Capturing :
    (xs : List Turn) (t : Threads)
    → t.shutdown ≡ true
    → Capturing (captures xs) t.capture t (turns xs t)
unfolding turns turn
turns-Capturing [] t s = (s, omega arith, omega arith)
turns-Capturing (shutdown_requested ∷ xs) t s =
    let (shut, left, frames) = turns-Capturing xs (record t { shutdown = true }) refl in
    (shut, left, frames)
turns-Capturing (of_capture works ∷ xs) t s =
    let (shut, left, frames) = capture_turn-Capturing t.capture works t s in
    let (shut', left', frames') = turns-Capturing xs (capture_turn t.capture works t) shut in
    (shut', omega (arith, left, left'), omega (arith, frames, frames'))
turns-Capturing (of_drain p works ∷ xs) t s =
    let u = drain_turn t.drain p works t in
    let (shut, left, frames) = SameMain-Capturing t u s (drain_turn-SameMain t.drain p works t).0 in
    let (shut', left', frames') = turns-Capturing xs u shut in
    (shut', omega (arith, left, left'), omega (arith, frames, frames'))
turns-Capturing (of_reader g ∷ xs) t s =
    let u = reader_turn t.reader g t in
    let (shut, left, frames) = SameMain-Capturing t u s (reader_turn-SameMain t.reader g t).0 in
    let (shut', left', frames') = turns-Capturing xs u shut in
    (shut', omega (arith, left, left'), omega (arith, frames, frames'))
