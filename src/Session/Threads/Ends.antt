-- ===== src/Session/Threads/Ends.antt =====
-- crates/daemon/src/session.rs: a session that is asked to end does.
use moreland_kde.Base.{◌+◌, ◌≤◌, ◌≡◌, refl, ap, ◌∙◌, Bool, true, false, not, List, arith}
use moreland_kde.Session.Threads.{
  CaptureAt, tests, capturing, pushing, ended, joining, returned, DrainAt, drain_tests, pulling,
  noting, sending, drained, ReaderAt, reader_tests, reading, popping, closed, Threads, initial,
  is_drained, is_closed, capture_turn, Turn, of_capture, turn, turns,
}
use moreland_kde.Session.Threads.Accounts.{is_behind, turns-keep, turns-Inv}
use moreland_kde.Session.Threads.Capturing.{capture_left, frame_coming, captures, turns-Capturing}
use moreland_kde.Session.Threads.Draining.{
  drain_left, reader_left, packet_coming, drains, readers, Draining, turns-Draining,
}

abbrev pub is_returned : CaptureAt → Bool
is_returned (returned e) = true
is_returned tests = false
is_returned capturing = false
is_returned pushing = false
is_returned (ended e) = false
is_returned (joining e) = false

nothing_left : (c : CaptureAt) → capture_left c ≡ 0 → is_behind c ≡ true
nothing_left (joining e) h = refl
nothing_left (returned e) h = refl
nothing_left tests h = absurd (omega (arith, h))
nothing_left capturing h = absurd (omega (arith, h))
nothing_left pushing h = absurd (omega (arith, h))
nothing_left (ended e) h = absurd (omega (arith, h))

capture_left_max : (c : CaptureAt) → (capture_left c ≤ 4) × (frame_coming c ≤ 1)
capture_left_max tests = (omega arith, omega arith)
capture_left_max capturing = (omega arith, omega arith)
capture_left_max pushing = (omega arith, omega arith)
capture_left_max (ended e) = (omega arith, omega arith)
capture_left_max (joining e) = (omega arith, omega arith)
capture_left_max (returned e) = (omega arith, omega arith)

drain_left_max : (d : DrainAt) → (drain_left d ≤ 4) × (packet_coming d ≤ 1)
drain_left_max drain_tests = (omega arith, omega arith)
drain_left_max pulling = (omega arith, omega arith)
drain_left_max noting = (omega arith, omega arith)
drain_left_max sending = (omega arith, omega arith)
drain_left_max (drained e) = (omega arith, omega arith)

reader_left_max : (r : ReaderAt) → reader_left r ≤ 3
reader_left_max reader_tests = omega arith
reader_left_max reading = omega arith
reader_left_max popping = omega arith
reader_left_max closed = omega arith

drained_at : (d : DrainAt) → drain_left d ≡ 0 → is_drained d ≡ true
drained_at (drained e) h = refl
drained_at drain_tests h = absurd (omega (arith, h))
drained_at pulling h = absurd (omega (arith, h))
drained_at noting h = absurd (omega (arith, h))
drained_at sending h = absurd (omega (arith, h))

closed_at : (r : ReaderAt) → reader_left r ≡ 0 → is_closed r ≡ true
closed_at closed h = refl
closed_at reader_tests h = absurd (omega (arith, h))
closed_at reading h = absurd (omega (arith, h))
closed_at popping h = absurd (omega (arith, h))

returns :
    (c : CaptureAt) (works : Bool) (t : Threads)
    → is_behind c ≡ true
    → is_drained t.drain ≡ true
    → is_closed t.reader ≡ true
    → is_returned (capture_turn c works t).capture ≡ true
unfolding capture_turn
returns (joining e) works t back d r = rw (d, r) refl
returns (returned e) works t back d r = refl
returns tests works t back d r = absurd (cc)
returns capturing works t back d r = absurd (cc)
returns pushing works t back d r = absurd (cc)
returns (ended e) works t back d r = absurd (cc)

-- Once the shutdown is requested, the session returns, whatever the calls answer and however the
-- turns interleave: after four turns of the main thread the flag of the others is cleared, and after
-- four more of the drain thread and three of the reader thread the next turn of the main thread
-- returns. From the request on at most one more frame is pushed, and from the clearing of the flag
-- on at most one more packet is sent. The state is one that a session reaches.
pub turn-is_returned :
    (before xs ys : List Turn) (works : Bool)
    → let t = turns before initial in
      t.shutdown ≡ true
      → 4 ≤ captures xs
      → 4 ≤ drains ys
      → 3 ≤ readers ys
      → let u = turns xs t in
        let v = turns ys u in
        (is_returned (turn (of_capture works) v).capture ≡ true)
        × (u.running ≡ false)
        × (v.index ≤ t.index + 1)
        × (v.packets ≤ u.packets + 1)
unfolding turn
turn-is_returned before xs ys works s many_c many_d many_r =
    let t = turns before initial in
    let u = turns xs t in
    let v = turns ys u in
    let (shut, left, frames) = turns-Capturing xs t s in
    let (most, one) = capture_left_max t.capture in
    let behind : is_behind u.capture ≡ true =
      nothing_left u.capture (omega (arith, left, most, many_c)) in
    let (a, runs, o, j) = turns-keep xs t (turns-Inv before) in
    let off : u.running ≡ false = runs ∙ ap not behind in
    let over : Draining (drains ys) (readers ys) u v = turns-Draining ys u off behind in
    let (shut', left', frames') = turns-Capturing ys u shut in
    let (most_d, one_d) = drain_left_max u.drain in
    (
      returns v.capture works v over.behind
          (drained_at v.drain (omega (arith, over.drain, most_d, many_d)))
          (closed_at v.reader (omega (arith, over.reader, reader_left_max u.reader, many_r))),
      off,
      omega (arith, frames, frames', one),
      omega (arith, over.packets, one_d),
    )
