-- ===== src/Capture/Plasma/Answers.antt =====
-- crates/capture/src/plasma/mod.rs: what a virtual output that was created carries.
use moreland_kde.Base.{
  ℕ, ◌+◌, min, ◌≡◌, refl, ap, ◌≢◌, Bool, true, false, ◌||◌, Option, none, some, List, [], ◌∷◌, leb,
  if◌then◌else◌, length,
}
use moreland_kde.Base.Result.{Result, ok, err, ◌>>◌, guard}
use moreland_kde.Base.Text.{Text}
use moreland_kde.Capture.Plasma.{
  not_available, max_version, min_version, not_connected, connection_lost, close_stream, timed_out,
  neither_serial_nor_node, still_waiting, State, Delivery, events, lost, Desktop, PlasmaError,
  PlasmaVirtualOutput, Request, Settling, is_some, settled, settle, verdict, on_events,
  default_state, virtual_output, identified, create, create_bound, bound_version, output_request,
  create_timeout,
}

-- The stream is there: it has an identifier, was not refused and is not closed.
abbrev pub IsStreaming : State → Type 0
IsStreaming s =
    (is_some s.node_id || is_some s.object_serial ≡ true) × (s.failed ≡ none) × (s.closed ≡ false)

-- What `settle` ends in: a stream and nothing closed, or a failure.
abbrev pub IsSettled : Settling → Type 0
IsSettled (ok u, (s, closing)) = IsStreaming s × (closing ≡ [])
IsSettled (err e, rest) = e ≢ neither_serial_nor_node

settled-Streaming :
    (serial id : Option ℕ) (failure : Option Text) (closed : Bool)
    → is_some serial || is_some id || is_some failure || closed ≡ true
    → verdict failure closed ≡ ok tt
    → (is_some id || is_some serial ≡ true) × (failure ≡ none) × (closed ≡ false)
settled-Streaming serial id (some e) closed h v = absurd (cc)
settled-Streaming serial id none true h v = absurd (cc)
settled-Streaming (some n) none none false h v = (refl, refl, refl)
settled-Streaming (some n) (some m) none false h v = (refl, refl, refl)
settled-Streaming none (some m) none false h v = (refl, refl, refl)
settled-Streaming none none none false h v = absurd (cc)

no_such_verdict :
    (failure : Option Text) (closed : Bool) (e : PlasmaError)
    → verdict failure closed ≡ err e
    → e ≢ neither_serial_nor_node
no_such_verdict none true e h same = absurd (cc)
no_such_verdict none false e h same = absurd (cc)
no_such_verdict (some f) closed e h same = absurd (cc)

still_waiting_differs : still_waiting ≢ neither_serial_nor_node
still_waiting_differs h = cc

timed_out_differs : timed_out ≢ neither_serial_nor_node
timed_out_differs h = cc

connection_lost_differs : connection_lost ≢ neither_serial_nor_node
connection_lost_differs h = cc

concluded :
    (s : State) (r : Result PlasmaError (Unit {0}))
    → settled s ≡ true
    → verdict s.failed s.closed ≡ r
    → IsSettled (r, (s, []))
unfolding settled
concluded s (ok u) h v = (settled-Streaming s.object_serial s.node_id s.failed s.closed h v, refl)
concluded s (err e) h v = no_such_verdict s.failed s.closed e v

ended :
    (s : State) (over : Bool) (rest : Settling)
    → settled s ≡ over
    → IsSettled rest
    → IsSettled (if over then (verdict s.failed s.closed, (s, [])) else rest)
ended s true rest h later = concluded s (verdict s.failed s.closed) h refl
ended s false rest h later = later

in_time :
    (late : Bool) (e : PlasmaError) (at : State × List Request) (rest : Settling)
    → e ≢ neither_serial_nor_node
    → IsSettled rest
    → IsSettled (if late then (err e, at) else rest)
in_time true e at rest differs later = differs
in_time false e at rest differs later = later

settle-IsSettled : (deadline : ℕ) (s : State) (q : List Delivery) → IsSettled (settle deadline s q)
unfolding settle
settle-IsSettled deadline s [] =
    ended s (settled s) (err still_waiting, (s, [])) refl still_waiting_differs
settle-IsSettled deadline s (lost now ∷ q) =
    ended s (settled s)
      (if leb deadline now
        then (err timed_out, (s, close_stream ∷ []))
        else (err connection_lost, (s, [])))
      refl
      (in_time (leb deadline now) timed_out (s, close_stream ∷ []) (err connection_lost, (s, []))
        timed_out_differs connection_lost_differs)
settle-IsSettled deadline s (events now es ∷ q) =
    ended s (settled s)
      (if leb deadline now
        then (err timed_out, (s, close_stream ∷ []))
        else settle deadline (on_events es s) q)
      refl
      (in_time (leb deadline now) timed_out (s, close_stream ∷ [])
        (settle deadline (on_events es s) q) timed_out_differs
        (settle-IsSettled deadline (on_events es s) q))

-- What `create` ends in: an output that streams, for which one request was sent and nothing closed;
-- or a failure, and never the one that says that the compositor sent no identifier.
abbrev pub IsCreation : Text → Result PlasmaError PlasmaVirtualOutput × List Request → Type 0
IsCreation name (ok o, sent) =
    IsStreaming o.state
    × (o.node_id ≡ o.state.node_id)
    × (o.name ≡ name)
    × (length sent ≡ 1)
    × (o.sent ≡ sent)
IsCreation name (err e, sent) = e ≢ neither_serial_nor_node

created-IsCreation :
    (name : Text) (asked : Request) (r : Settling)
    → IsSettled r
    → IsCreation name (identified (virtual_output name asked r))
created-IsCreation name asked (ok u, (s, closing)) (streams, none_closed) =
    rw (streams.0) (streams, refl, refl, ap (λ c. length (asked ∷ c)) none_closed, refl)
created-IsCreation name asked (err e, (s, closing)) differs = differs

bound-IsCreation :
    (name : Text) (d : Desktop) (bound : Result PlasmaError ℕ)
    → ((e : PlasmaError) → bound ≡ err e → e ≢ neither_serial_nor_node)
    → IsCreation name (create_bound name d bound)
bound-IsCreation name d (ok v) differs =
    created-IsCreation name (output_request v)
      (settle (d.asked_at + create_timeout) default_state d.deliveries)
      (settle-IsSettled (d.asked_at + create_timeout) default_state d.deliveries)
bound-IsCreation name d (err e) differs = differs e refl

old_version :
    (new_enough : Bool) (v : ℕ) (e : PlasmaError)
    → (if new_enough then ok (min v max_version) else err not_available) ≡ err e
    → e ≢ neither_serial_nor_node
old_version true v e h same = absurd (cc)
old_version false v e h same = absurd (cc)

unbound :
    (connects : Bool) (advertised : Option ℕ) (e : PlasmaError)
    → (guard connects not_connected >> bound_version advertised) ≡ err e
    → e ≢ neither_serial_nor_node
unbound false advertised e h same = absurd (cc)
unbound true none e h same = absurd (cc)
unbound true (some v) e h same = old_version (leb min_version v) v e h same

-- `create` ends in one of two ways, whatever KWin sends. It returns an output that streams: it has a
-- node id or a serial, was neither refused nor closed, and one request was sent for it, so that no
-- stream was closed. Or it fails, and never because KWin sent no identifier without failing.
pub create-IsCreation : (name : Text) (d : Desktop) → IsCreation name (create name d)
unfolding create
create-IsCreation name d =
    bound-IsCreation name d (guard d.connects not_connected >> bound_version d.advertised)
      (unbound d.connects d.advertised)
