-- ===== src/Capture/Session/Synchronised.antt =====
-- crates/capture/src/session.rs: which constraints a renegotiation uses.
use moreland_kde.Base.{
  ℕ, ◌≤◌, ◌≡◌, refl, ap, ◌∙◌, true, false, List, [], ◌∷◌, ◌++◌, map, arith, ltb,
}
use moreland_kde.Base.Result.{ok}
use moreland_kde.Capture.Constraints.{State, Event, no_caps, on_events}
use moreland_kde.Capture.Constraints.Generations.{
  Constraint, event_of, events_of, caps_after, caps_after-append, part_consumed, batch_unconsumed,
}
use moreland_kde.Capture.Session.{lost, Delivery, events}
use moreland_kde.Capture.Session.Frames.{await_constraints}

pub await_constraints-done :
    (deadline : ℕ) (s : State) (q : List Delivery)
    → s.session_done ≡ true
    → await_constraints deadline s q ≡ (ok tt, (s, q))
unfolding await_constraints
await_constraints-done deadline s [] h = rw (h)
await_constraints-done deadline s (lost now ∷ q) h = rw (h)
await_constraints-done deadline s (events now es ∷ q) h = rw (h)

await_constraints-step :
    (deadline : ℕ) (s : State) (now : ℕ) (es : List Event) (q : List Delivery)
    → s.session_done ≡ false
    → s.session_stopped ≡ false
    → now ≤ deadline
    → await_constraints deadline s (events now es ∷ q)
      ≡ await_constraints deadline (on_events es s) q
unfolding await_constraints
await_constraints-step deadline s now es q undone running in_time =
    let early : ltb deadline now ≡ false = ground arith in rw (undone, running, early)

-- The constraints of the old pool are used, and the compositor announces new ones in an order of its
-- own: the first of them before the frame fails, the rest and `done` in a dispatch that is called
-- before the deadline. Then the renegotiation goes on with exactly the constraints of the new batch.
pub renegotiation_uses_new_batch :
    (deadline now : ℕ) (k : Constraint) (cs ds : List Constraint) (s : State) (q : List Delivery)
    → s.caps_consumed ≡ true
    → s.session_stopped ≡ false
    → now ≤ deadline
    → await_constraints deadline
        (on_events (map event_of (k ∷ cs)) s)
        (events now (events_of ds) ∷ q)
      ≡ (
        ok tt,
        (
          record s {
            caps = caps_after (k ∷ cs ++ ds) no_caps;
            caps_consumed = false;
            session_done = true;
          },
          q,
        ),
      )
renegotiation_uses_new_batch deadline now k cs ds s q used running in_time =
    let begun : State = record s {
      caps = caps_after (k ∷ cs) no_caps;
      caps_consumed = false;
      session_done = false;
    } in
    let whole : State = record begun {
      caps = caps_after ds (caps_after (k ∷ cs) no_caps);
      session_done = true;
    } in
    ap (λ t. await_constraints deadline t (events now (events_of ds) ∷ q))
      (part_consumed k cs s used)
    ∙ await_constraints-step deadline begun now (events_of ds) q refl running in_time
    ∙ ap (λ t. await_constraints deadline t q) (batch_unconsumed ds begun refl)
    ∙ await_constraints-done deadline whole q refl
    ∙ ap (λ c. (ok tt, (record s { caps = c; caps_consumed = false; session_done = true }, q)))
        (caps_after-append (k ∷ cs) ds no_caps)
