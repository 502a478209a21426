-- ===== src/Session/Threads/Draining.antt =====
-- crates/daemon/src/session.rs: the drain and reader threads, once the main thread is behind its loop.
use moreland_kde.Base.{
  ℕ, ◌+◌, ◌-◌, ◌≤◌, ◌≡◌, refl, ap, ◌∙◌, Bool, true, false, ◌&&◌, List, [], ◌∷◌, ◌==◌, arith,
  if◌then◌else◌,
}
use moreland_kde.Session.Threads.{
  Ending, stopped, CaptureAt, tests, capturing, pushing, ended, joining, returned, DrainAt,
  drain_tests, pulling, noting, sending, drained, ReaderAt, reader_tests, reading, popping, closed,
  Threads, Pulled, packet, no_packet, pull_error, Got, acknowledgement, no_acknowledgement,
  no_connection, is_drained, is_closed, after_pull, after_read, capture_turn, drain_turn,
  reader_turn, Turn, shutdown_requested, of_capture, of_drain, of_reader, turn, turns,
}
use moreland_kde.Session.Threads.Accounts.{is_behind}
use moreland_kde.Session.Threads.Capturing.{drain_turn-SameMain, pop-SameMain, reader_turn-SameMain}

abbrev pub drain_left : DrainAt → ℕ
drain_left pulling = 4
drain_left noting = 3
drain_left sending = 2
drain_left drain_tests = 1
drain_left (drained e) = 0

abbrev pub reader_left : ReaderAt → ℕ
reader_left reading = 3
reader_left popping = 2
reader_left reader_tests = 1
reader_left closed = 0

abbrev pub packet_coming : DrainAt → ℕ
packet_coming pulling = 1
packet_coming noting = 1
packet_coming sending = 1
packet_coming drain_tests = 0
packet_coming (drained e) = 0

abbrev pub drains : List Turn → ℕ
drains [] = 0
drains (of_drain p works ∷ xs) = drains xs + 1
drains (shutdown_requested ∷ xs) = drains xs
drains (of_capture works ∷ xs) = drains xs
drains (of_reader g ∷ xs) = drains xs

abbrev pub readers : List Turn → ℕ
readers [] = 0
readers (of_reader g ∷ xs) = readers xs + 1
readers (shutdown_requested ∷ xs) = readers xs
readers (of_capture works ∷ xs) = readers xs
readers (of_drain p works ∷ xs) = readers xs

-- A turn behind the capture loop: what is left of the other threads, and the packets.
pub record Draining (drained_ read_ : ℕ) (t u : Threads) : Type 0 where
  pub running : u.running ≡ false
  pub behind : is_behind u.capture ≡ true
  pub drain : drain_left u.drain ≤ drain_left t.drain - drained_
  pub reader : reader_left u.reader ≤ reader_left t.reader - read_
  pub packets : u.packets + packet_coming u.drain ≤ t.packets + packet_coming t.drain

idle :
    (t u : Threads)
    → u.running ≡ false
    → is_behind u.capture ≡ true
    → u.drain ≡ t.drain
    → u.reader ≡ t.reader
    → u.packets ≡ t.packets
    → Draining 0 0 t u
idle t u run back d r p = record {
  running = run;
  behind = back;
  drain = omega (arith, ap drain_left d);
  reader = omega (arith, ap reader_left r);
  packets = omega (arith, p, ap packet_coming d);
}

waits_on :
    (e : Ending) (b : Bool) (t : Threads)
    → t.running ≡ false
    → Draining 0 0 t (record t { capture = if b then returned e else joining e })
waits_on e true t run = idle t (record t { capture = returned e }) run refl refl refl refl
waits_on e false t run = idle t (record t { capture = joining e }) run refl refl refl refl

capture_turn-Draining :
    (c : CaptureAt) (works : Bool) (t : Threads)
    → t.running ≡ false
    → is_behind c ≡ true
    → Draining 0 0 t (capture_turn c works t)
unfolding capture_turn
capture_turn-Draining (joining e) works t run back =
    waits_on e (is_drained t.drain && is_closed t.reader) t run
capture_turn-Draining (returned e) works t run back =
    idle t (record t { capture = returned e }) run refl refl refl refl
capture_turn-Draining tests works t run back = absurd (cc)
capture_turn-Draining capturing works t run back = absurd (cc)
capture_turn-Draining pushing works t run back = absurd (cc)
capture_turn-Draining (ended e) works t run back = absurd (cc)

-- What a turn of the drain thread does to its place and the packets.
abbrev DrainStep : DrainAt → Threads → Threads → Type 0
DrainStep d t u =
    (drain_left u.drain ≤ drain_left d - 1)
    × (u.packets + packet_coming u.drain ≤ t.packets + packet_coming d)

drain_tested :
    (b : Bool) (t : Threads)
    → b ≡ false
    → DrainStep drain_tests t (record t { drain = if b then pulling else drained stopped })
drain_tested true t e = absurd (cc)
drain_tested false t e = (omega arith, omega arith)

pulled : (p : Pulled) (t : Threads) → DrainStep pulling t (record t { drain = after_pull p })
pulled packet t = (omega arith, omega arith)
pulled no_packet t = (omega arith, omega arith)
pulled pull_error t = (omega arith, omega arith)

drain_turn-DrainStep :
    (d : DrainAt) (p : Pulled) (works : Bool) (t : Threads)
    → t.running ≡ false
    → DrainStep d t (drain_turn d p works t)
unfolding drain_turn
drain_turn-DrainStep drain_tests p works t run = drain_tested t.running t run
drain_turn-DrainStep pulling p works t run = pulled p t
drain_turn-DrainStep noting p works t run = (omega arith, omega arith)
drain_turn-DrainStep sending p true t run = (omega arith, omega arith)
drain_turn-DrainStep sending p false t run = (omega arith, omega arith)
drain_turn-DrainStep (drained e) p works t run = (omega arith, omega arith)

reader_tested :
    (b : Bool)
    → b ≡ false
    → reader_left (if b then reading else closed) ≤ reader_left reader_tests - 1
reader_tested true e = absurd (cc)
reader_tested false e = omega arith

read_one : (g : Got) → reader_left (after_read g) ≤ reader_left reading - 1
read_one acknowledgement = omega arith
read_one no_acknowledgement = omega arith
read_one no_connection = omega arith

reader_turn-left :
    (r : ReaderAt) (g : Got) (t : Threads)
    → t.running ≡ false
    → reader_left (reader_turn r g t).reader ≤ reader_left r - 1
unfolding reader_turn
reader_turn-left reader_tests g t run = reader_tested t.running run
reader_turn-left reading g t run = read_one g
reader_turn-left popping g t run =
    let (same, drain, packets, reader) = pop-SameMain (t.waiting == 0) t in
    omega (arith, ap reader_left reader)
reader_turn-left closed g t run = omega arith

Draining-then :
    (a b c d e f : ℕ) (t u v : Threads)
    → Draining a b t u
    → Draining c d u v
    → e ≤ c + a
    → f ≤ d + b
    → Draining e f t v
Draining-then a b c d e f t u v x y he hf = record {
  running = y.running;
  behind = y.behind;
  drain = omega (arith, x.drain, y.drain, he);
  reader = omega (arith, x.reader, y.reader, hf);
  packets = omega (arith, x.packets, y.packets);
}

pub turns-Draining :
    (xs : List Turn) (t : Threads)
    → t.running ≡ false
    → is_behind t.capture ≡ true
    → Draining (drains xs) (readers xs) t (turns xs t)
unfolding turns turn
turns-Draining [] t run back = idle t t run back refl refl refl
turns-Draining (shutdown_requested ∷ xs) t run back =
    let u : Threads = record t { shutdown = true } in
    let x = turns-Draining xs u run back in
    record {
      running = x.running;
      behind = x.behind;
      drain = x.drain;
      reader = x.reader;
      packets = x.packets;
    }
turns-Draining (of_capture works ∷ xs) t run back =
    let u = capture_turn t.capture works t in
    let x = capture_turn-Draining t.capture works t run back in
    Draining-then 0 0 (drains xs) (readers xs) (drains xs) (readers xs) t u (turns xs u) x
      (turns-Draining xs u x.running x.behind) (omega arith) (omega arith)
turns-Draining (of_drain p works ∷ xs) t run back =
    let u = drain_turn t.drain p works t in
    let ((shutdown, running, capture, index), reader) = drain_turn-SameMain t.drain p works t in
    let (left, sent) = drain_turn-DrainStep t.drain p works t run in
    let x : Draining 1 0 t u = record {
      running = running ∙ run;
      behind = ap is_behind capture ∙ back;
      drain = left;
      reader = omega (arith, ap reader_left reader);
      packets = sent;
    } in
    Draining-then 1 0 (drains xs) (readers xs) (drains xs + 1) (readers xs) t u (turns xs u) x
      (turns-Draining xs u x.running x.behind) (omega arith) (omega arith)
turns-Draining (of_reader g ∷ xs) t run back =
    let u = reader_turn t.reader g t in
    let ((shutdown, running, capture, index), drain, packets) = reader_turn-SameMain t.reader g t in
    let x : Draining 0 1 t u = record {
      running = running ∙ run;
      behind = ap is_behind capture ∙ back;
      drain = omega (arith, ap drain_left drain);
      reader = reader_turn-left t.reader g t run;
      packets = omega (arith, packets, ap packet_coming drain);
    } in
    Draining-then 0 1 (drains xs) (readers xs) (drains xs) (readers xs + 1) t u (turns xs u) x
      (turns-Draining xs u x.running x.behind) (omega arith) (omega arith)
