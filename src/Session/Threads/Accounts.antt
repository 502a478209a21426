-- ===== src/Session/Threads/Accounts.antt =====
-- crates/daemon/src/session.rs: what holds whenever the threads of a session are looked at.
use moreland_kde.Base.{
  ℕ, ◌+◌, ◌-◌, ◌≡◌, refl, Bool, true, false, not, ◌&&◌, List, [], ◌∷◌, ◌==◌, arith, if◌then◌else◌,
}
use moreland_kde.Session.Threads.{
  Ending, stopped, source_error, encoder_error, send_error, CaptureAt, tests, capturing, pushing,
  ended, joining, returned, DrainAt, drain_tests, pulling, noting, sending, drained, ReaderAt,
  reader_tests, reading, popping, closed, Threads, initial, Pulled, packet, no_packet, pull_error,
  Got, is_drained, is_closed, after_pull, capture_turn, drain_turn, reader_turn, Turn,
  shutdown_requested, of_capture, of_drain, of_reader, turn, turns,
}

-- A send time that is noted while its packet is not sent, or never will be.
abbrev pub noted : DrainAt → ℕ
noted sending = 1
noted (drained send_error) = 1
noted (drained stopped) = 0
noted (drained source_error) = 0
noted (drained encoder_error) = 0
noted drain_tests = 0
noted pulling = 0
noted noting = 0

-- The main thread is behind the point where it clears `running`.
abbrev pub is_behind : CaptureAt → Bool
is_behind (joining e) = true
is_behind (returned e) = true
is_behind tests = false
is_behind capturing = false
is_behind pushing = false
is_behind (ended e) = false

-- A loop that ended without an error did so on request; a session that returned has joined the
-- others.
abbrev pub OnRequest : CaptureAt → Bool → Type 0
OnRequest (ended stopped) shutdown = shutdown ≡ true
OnRequest (joining stopped) shutdown = shutdown ≡ true
OnRequest (returned stopped) shutdown = shutdown ≡ true
OnRequest _ shutdown = Unit {0}

abbrev pub Joined : CaptureAt → DrainAt → ReaderAt → Type 0
Joined (returned e) d r = (is_drained d ≡ true) × (is_closed r ≡ true)
Joined _ d r = Unit {0}

abbrev pub InvAt : CaptureAt → DrainAt → ReaderAt → Threads → Type 0
InvAt c d r t =
    (t.waiting + t.taken_off ≡ t.packets + noted d)
    × (t.running ≡ not (is_behind c))
    × OnRequest c t.shutdown
    × Joined c d r

abbrev pub Inv : Threads → Type 0
Inv t = InvAt t.capture t.drain t.reader t

OnRequest-set : (c : CaptureAt) (shutdown : Bool) → OnRequest c shutdown → OnRequest c true
OnRequest-set (ended stopped) s h = refl
OnRequest-set (joining stopped) s h = refl
OnRequest-set (returned stopped) s h = refl
OnRequest-set (ended source_error) s h = tt
OnRequest-set (ended encoder_error) s h = tt
OnRequest-set (ended send_error) s h = tt
OnRequest-set (joining source_error) s h = tt
OnRequest-set (joining encoder_error) s h = tt
OnRequest-set (joining send_error) s h = tt
OnRequest-set (returned source_error) s h = tt
OnRequest-set (returned encoder_error) s h = tt
OnRequest-set (returned send_error) s h = tt
OnRequest-set tests s h = tt
OnRequest-set capturing s h = tt
OnRequest-set pushing s h = tt

joining-on : (e : Ending) (s : Bool) → OnRequest (ended e) s → OnRequest (joining e) s
joining-on stopped s h = h
joining-on source_error s h = h
joining-on encoder_error s h = h
joining-on send_error s h = h

returned-on : (e : Ending) (s : Bool) → OnRequest (joining e) s → OnRequest (returned e) s
returned-on stopped s h = h
returned-on source_error s h = h
returned-on encoder_error s h = h
returned-on send_error s h = h

tested :
    (b : Bool) (t : Threads)
    → t.shutdown ≡ b
    → InvAt tests t.drain t.reader t
    → Inv (record t { capture = if b then ended stopped else capturing })
tested true t e (a, r, o, j) = (a, r, e, tt)
tested false t e (a, r, o, j) = (a, r, tt, tt)

captured :
    (b : Bool) (t : Threads)
    → InvAt capturing t.drain t.reader t
    → Inv (record t { capture = if b then pushing else ended source_error })
captured true t (a, r, o, j) = (a, r, tt, tt)
captured false t (a, r, o, j) = (a, r, tt, tt)

joined :
    (e : Ending) (b c : Bool) (t : Threads)
    → is_drained t.drain ≡ b
    → is_closed t.reader ≡ c
    → InvAt (joining e) t.drain t.reader t
    → Inv (record t { capture = if b && c then returned e else joining e })
joined e true true t d r (a, run, o, j) = (a, run, returned-on e t.shutdown o, (d, r))
joined e true false t d r i = i
joined e false c t d r i = i

capture_turn-Inv :
    (c : CaptureAt) (works : Bool) (t : Threads)
    → InvAt c t.drain t.reader t
    → Inv (capture_turn c works t)
unfolding capture_turn
capture_turn-Inv tests works t i = tested t.shutdown t refl i
capture_turn-Inv capturing works t i = captured works t i
capture_turn-Inv pushing true t (a, r, o, j) = (a, r, tt, tt)
capture_turn-Inv pushing false t (a, r, o, j) = (a, r, tt, tt)
capture_turn-Inv (ended e) works t (a, r, o, j) = (a, refl, joining-on e t.shutdown o, tt)
capture_turn-Inv (joining e) works t i =
    joined e (is_drained t.drain) (is_closed t.reader) t refl refl i
capture_turn-Inv (returned e) works t i = i

-- Only a place that is no end is left.
Joined-drain :
    (c : CaptureAt) (d d' : DrainAt) (r : ReaderAt)
    → is_drained d ≡ false
    → Joined c d r
    → Joined c d' r
Joined-drain (returned e) d d' r h (over, shut) = absurd (cc)
Joined-drain tests d d' r h j = tt
Joined-drain capturing d d' r h j = tt
Joined-drain pushing d d' r h j = tt
Joined-drain (ended e) d d' r h j = tt
Joined-drain (joining e) d d' r h j = tt

Joined-reader :
    (c : CaptureAt) (d : DrainAt) (r r' : ReaderAt)
    → is_closed r ≡ false
    → Joined c d r
    → Joined c d r'
Joined-reader (returned e) d r r' h (over, shut) = absurd (cc)
Joined-reader tests d r r' h j = tt
Joined-reader capturing d r r' h j = tt
Joined-reader pushing d r r' h j = tt
Joined-reader (ended e) d r r' h j = tt
Joined-reader (joining e) d r r' h j = tt

drain_moves :
    (d d' : DrainAt) (t : Threads)
    → is_drained d ≡ false
    → noted d ≡ 0
    → noted d' ≡ 0
    → InvAt t.capture d t.reader t
    → Inv (record t { drain = d' })
drain_moves d d' t open_ before after (a, r, o, j) =
    (omega (arith, before, after, a), r, o, Joined-drain t.capture d d' t.reader open_ j)

noted-after_pull : (p : Pulled) → noted (after_pull p) ≡ 0
noted-after_pull packet = refl
noted-after_pull no_packet = refl
noted-after_pull pull_error = refl

noted-tested : (b : Bool) → noted (if b then pulling else drained stopped) ≡ 0
noted-tested true = refl
noted-tested false = refl

drain_turn-Inv :
    (d : DrainAt) (p : Pulled) (works : Bool) (t : Threads)
    → InvAt t.capture d t.reader t
    → Inv (drain_turn d p works t)
unfolding drain_turn
drain_turn-Inv drain_tests p works t i =
    drain_moves drain_tests (if t.running then pulling else drained stopped) t refl refl
      (noted-tested t.running) i
drain_turn-Inv pulling p works t i =
    drain_moves pulling (after_pull p) t refl refl (noted-after_pull p) i
drain_turn-Inv noting p works t (a, r, o, j) =
    (omega (arith, a), r, o, Joined-drain t.capture noting sending t.reader refl j)
drain_turn-Inv sending p true t (a, r, o, j) =
    (omega (arith, a), r, o, Joined-drain t.capture sending drain_tests t.reader refl j)
drain_turn-Inv sending p false t (a, r, o, j) =
    (a, r, o, Joined-drain t.capture sending (drained send_error) t.reader refl j)
drain_turn-Inv (drained e) p works t i = i

popped :
    (b : Bool) (t : Threads)
    → (t.waiting == 0) ≡ b
    → InvAt t.capture t.drain popping t
    → Inv (
        if b then record t { reader = reader_tests } else record t {
          waiting = t.waiting - 1;
          taken_off = t.taken_off + 1;
          reader = reader_tests;
        })
popped true t e (a, r, o, j) =
    (a, r, o, Joined-reader t.capture t.drain popping reader_tests refl j)
popped false t e (a, r, o, j) =
    (ground (arith, a, e), r, o, Joined-reader t.capture t.drain popping reader_tests refl j)

reader_turn-Inv :
    (r : ReaderAt) (g : Got) (t : Threads) → InvAt t.capture t.drain r t → Inv (reader_turn r g t)
unfolding reader_turn
reader_turn-Inv reader_tests g t (a, r, o, j) =
    (a, r, o, Joined-reader t.capture t.drain reader_tests _ refl j)
reader_turn-Inv reading g t (a, r, o, j) =
    (a, r, o, Joined-reader t.capture t.drain reading _ refl j)
reader_turn-Inv popping g t i = popped (t.waiting == 0) t refl i
reader_turn-Inv closed g t i = i

pub turn-Inv : (x : Turn) (t : Threads) → Inv t → Inv (turn x t)
unfolding turn
turn-Inv shutdown_requested t (a, r, o, j) = (a, r, OnRequest-set t.capture t.shutdown o, j)
turn-Inv (of_capture works) t i = capture_turn-Inv t.capture works t i
turn-Inv (of_drain p works) t i = drain_turn-Inv t.drain p works t i
turn-Inv (of_reader g) t i = reader_turn-Inv t.reader g t i

pub turns-keep : (xs : List Turn) (t : Threads) → Inv t → Inv (turns xs t)
unfolding turns
turns-keep [] t i = i
turns-keep (x ∷ xs) t i = turns-keep xs (turn x t) (turn-Inv x t i)

initial-Inv : Inv initial
initial-Inv = (refl, refl, tt, tt)

-- However the turns of the threads interleave, also between a test of a flag and the call behind it,
-- and whatever the calls answer: the send times that wait or were taken off are as many as the
-- packets sent, and one more while a packet is on its way or after one that could not be sent;
-- `running` is set exactly until the main thread clears it behind its loop; the loop has ended
-- without an error only if the shutdown was requested; and when the session returns, both other
-- threads have ended.
pub turns-Inv : (xs : List Turn) → Inv (turns xs initial)
turns-Inv xs = turns-keep xs initial initial-Inv
