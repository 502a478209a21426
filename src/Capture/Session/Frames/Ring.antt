-- ===== src/Capture/Session/Frames/Ring.antt =====
-- crates/capture/src/session.rs: the order in which the buffers of the pool are used.
use moreland_kde.Base.{
  ℕ, zero, suc, ◌+◌, ◌-◌, ◌%◌, ◌≤◌, ◌<◌, ◌≡◌, refl, sym, ap, subst, ◌∙◌, ◌≢◌, inl, inr, Bool, true,
  false, Option, none, some, List, [], ◌∷◌, ◌++◌, arith, ltb, if◌then◌else◌, ltb→lt, Bool-cases,
  length, get_elem?,
}
use moreland_kde.Base.Result.{Result, ok, err}
use native.Mathlib.Nat.{mod-lt, mod-add-mod, mod-eq_of_lt, mod-eq-sub-mod}
use moreland_kde.Capture.Constraints.{FailureReason}
use moreland_kde.Capture.Failure.{Failure, session_stopped_by_compositor, pool_empty}
use moreland_kde.Capture.Session.{destroy_frame, Capture}
use moreland_kde.Capture.Session.Frames.{
  Waited, await_frame, FrameTiming, Clock, start_frame, end_frame, outcome, is_nil, no_frame,
  take_frame, try_capture_frame,
}

-- Frames that are taken one after the other, each at the first attempt.
pub data Run : Capture → List FrameTiming → Capture → Type 0 where
  finished : {c : Capture} → Run c [] c
  frame :
      {c d e : Capture} {t : FrameTiming} {ts : List FrameTiming} (clock : Clock)
      → try_capture_frame clock c ≡ (ok t, d)
      → Run d ts e
      → Run c (t ∷ ts) e

-- What a frame that is taken does to the ring.
abbrev IsTurn : Capture → Result Failure FrameTiming × Capture → Type 0
IsTurn c (ok t, d) =
    (t.buffer_index ≡ c.next_buffer)
    × (d.buffers ≡ c.buffers)
    × (d.next_buffer ≡ (c.next_buffer + 1) % length c.buffers)
IsTurn c (err e, d) = Unit {0}

outcome-IsTurn :
    (c d : Capture) (reason : Option FailureReason) (raw : Option ℕ) (clock : Clock)
    (presented : Option ℕ)
    → d.buffers ≡ c.buffers
    → d.next_buffer ≡ (c.next_buffer + 1) % length c.buffers
    → IsTurn c (outcome reason raw clock presented c.next_buffer, d)
outcome-IsTurn c d (some reason) raw clock presented kept turned = tt
outcome-IsTurn c d none (some raw) clock presented kept turned = tt
outcome-IsTurn c d none none clock presented kept turned = (refl, kept, turned)

end_frame-IsTurn :
    (c : Capture) (clock : Clock) (waited : Waited)
    → IsTurn c (end_frame clock c.next_buffer (start_frame c) waited)
unfolding end_frame start_frame
end_frame-IsTurn c clock (err e, (s, q)) = tt
end_frame-IsTurn c clock (ok u, (s, q)) =
    outcome-IsTurn c
      (record (start_frame c) {
        state = s;
        queue = q;
        sent = (start_frame c).sent ++ (destroy_frame ∷ []);
      })
      s.frame_failed s.frame_failed_raw clock s.presentation_ns refl refl

tried-IsTurn :
    (c : Capture) (clock : Clock) (stopped empty : Bool)
    → IsTurn c (
        if stopped
        then (err session_stopped_by_compositor, c)
        else if empty
        then (err pool_empty, c)
        else take_frame clock c)
tried-IsTurn c clock true empty = tt
tried-IsTurn c clock false true = tt
tried-IsTurn c clock false false = end_frame-IsTurn c clock (await_frame (no_frame c.state) c.queue)

try_capture_frame-IsTurn :
    (c d : Capture) (clock : Clock) (t : FrameTiming)
    → try_capture_frame clock c ≡ (ok t, d)
    → IsTurn c (ok t, d)
unfolding try_capture_frame
try_capture_frame-IsTurn c d clock t h =
    subst (IsTurn c) h (tried-IsTurn c clock c.state.session_stopped (is_nil c.buffers))

turn_zero : (n l : ℕ) → n < l → (n + 0) % l ≡ n
turn_zero n l h = let same : n + 0 ≡ n = omega arith in ap (λ x. x % l) same ∙ mod-eq_of_lt h

turn_suc : (n k l : ℕ) → ((n + 1) % l + k) % l ≡ (n + suc k) % l
turn_suc n k l =
    let same : n + 1 + k ≡ n + suc k = omega arith in mod-add-mod (n + 1) l k ∙ ap (λ x. x % l) same

positive : (n l : ℕ) → n < l → 0 < l
positive n l h = omega arith

-- The number of a frame's buffer goes up with the frame, around the pool.
Run-index :
    (c d : Capture) (ts : List FrameTiming) (k : ℕ) (t : FrameTiming)
    → Run c ts d
    → c.next_buffer < length c.buffers
    → get_elem? ts k ≡ some t
    → t.buffer_index ≡ (c.next_buffer + k) % length c.buffers
Run-index c d [] k t run within h = absurd (cc)
Run-index c d (u ∷ ts) zero t (frame {d = e} clock tried run) within h =
    let same : u ≡ t = cc in
    let (index, kept, turned) = try_capture_frame-IsTurn c e clock u tried in
    ap (λ f. f.buffer_index) (sym same)
    ∙ index
    ∙ sym (turn_zero c.next_buffer (length c.buffers) within)
Run-index c d (u ∷ ts) (suc k) t (frame {d = e} clock tried run) within h =
    let (index, kept, turned) = try_capture_frame-IsTurn c e clock u tried in
    let around : (e.next_buffer + k) % length e.buffers
        ≡ (c.next_buffer + suc k) % length c.buffers =
      rw (turned, kept) (turn_suc c.next_buffer k (length c.buffers)) in
    let within' : e.next_buffer < length e.buffers =
      rw (turned, kept)
        (mod-lt (c.next_buffer + 1) (positive c.next_buffer (length c.buffers) within)) in
    Run-index e d ts k t run within' h ∙ around

shifted : (r d n : ℕ) → r < n → 0 < d → d < n → r ≢ (r + d) % n
shifted r d n within moved small h = elim (Bool-cases (ltb (r + d) n)) [
  | inl inside ↦ let same : r ≡ r + d = h ∙ mod-eq_of_lt (ltb→lt (r + d) n inside) in omega arith
  | inr outside ↦
      let over : n ≤ r + d = ground arith in
      let back : r + d - n < n = omega arith in
      let same : r ≡ r + d - n = h ∙ mod-eq-sub-mod over ∙ mod-eq_of_lt back in omega arith
]

-- Numbers less than the modulus apart are not alike by it.
mod_distinct : (a d n : ℕ) → 0 < d → d < n → a % n ≢ (a + d) % n
mod_distinct a d n moved small h =
    shifted (a % n) d n (mod-lt a (positive d n small)) moved small (h ∙ sym (mod-add-mod a n d))

-- In a run of frames, each taken at the first attempt, two frames less than the size of the pool
-- apart stand in different buffers: the frame that a consumer holds is not overwritten until the
-- pool has gone around.
pub Run-distinct :
    (c d : Capture) (ts : List FrameTiming) (i gap : ℕ) (t u : FrameTiming)
    → Run c ts d
    → c.next_buffer < length c.buffers
    → get_elem? ts i ≡ some t
    → get_elem? ts (i + gap) ≡ some u
    → 0 < gap
    → gap < length c.buffers
    → t.buffer_index ≢ u.buffer_index
Run-distinct c d ts i gap t u run within at_t at_u apart near h =
    let same : c.next_buffer + (i + gap) ≡ c.next_buffer + i + gap = omega arith in
    mod_distinct (c.next_buffer + i) gap (length c.buffers) apart near (
      sym (Run-index c d ts i t run within at_t)
      ∙ h
      ∙ Run-index c d ts (i + gap) u run within at_u
      ∙ ap (λ x. x % length c.buffers) same)
