-- ===== src/Transport/Sender/Progress.antt =====
-- `write_all_vectored` and `Sender` of crates/transport/src/lib.rs on a socket that keeps taking bytes.
use moreland_kde.Base.{
  ℕ, zero, suc, ◌+◌, ◌-◌, ◌%◌, ◌≤◌, ◌<◌, min, ◌≡◌, refl, ap, true, false, Option, some, List, [],
  ◌∷◌, ◌++◌, arith, length, take, flatten, length-append, length-drop,
}
use moreland_kde.Base.Result.{Result, ok, err}
use moreland_kde.Protocol.Headers.{StreamHeader, encode_stream_header}
use moreland_kde.Transport.Socket.{Socket, Outcome, after_write, write_vectored, write_all_vectored}
use moreland_kde.Transport.Socket.Laws.{StartsFull, advance_slices_lem}
use moreland_kde.Transport.Sender.{
  Sender, SenderError, Opening, account, connected, write_all, connect, u32_mod, send_frame,
  send_control, after_header,
}
use moreland_kde.Transport.Sender.Laws.{Sent, video, control, length-encode_frame_header}
use moreland_kde.Transport.Sender.Stream.{send, and_then, send_all}

-- Every write call takes at least one byte of what it is offered.
abbrev pub Flows : (ℕ → Option ℕ) → Type 0
Flows accepts = (n : ℕ) → (k : ℕ) × (accepts n ≡ some (suc k))

after_write-works :
    (next : List (List ℕ) → Socket → Outcome) (slices : List (List ℕ)) (t : Socket) (fuel k : ℕ)
    → ((left : List (List ℕ))
        → length (flatten left) ≤ fuel
        → StartsFull left
        → (next left t).0 ≡ ok tt)
    → suc k ≤ length (flatten slices)
    → length (flatten slices) ≤ suc fuel
    → (after_write next slices (some (suc k)) t).0 ≡ ok tt
unfolding after_write
after_write-works next slices t fuel k ih hk bound =
    let (left, found, same, full) = advance_slices_lem (suc k) slices hk in
    rw found (ih left (rw same (omega (arith, length-drop (suc k) (flatten slices)))) full)

module _ (accepts : ℕ → Option ℕ) (flows : Flows accepts) where
  write_vectored-flows :
      (slices : List (List ℕ)) (s : Socket)
      → 0 < length (flatten slices)
      → (k : ℕ) × (t : Socket) × (write_vectored accepts slices s ≡ (some (suc k), t))
        × (suc k ≤ length (flatten slices))
  unfolding write_vectored
  write_vectored-flows slices s h =
      let (n, e) = flows s.calls in
      let m = min (suc n) (length (flatten slices)) in
      let positive : m ≡ suc (m - 1) = omega (arith, h) in
      let t : Socket = record { taken = s.taken ++ take m (flatten slices); calls = s.calls + 1 } in
      (m - 1, t, rw (e, write_vectored) (ap (λ (j : ℕ). (some j, t)) positive), omega (arith, h))

  write_all_vectored-works :
      (fuel : ℕ) (slices : List (List ℕ)) (s : Socket)
      → length (flatten slices) ≤ fuel
      → StartsFull slices
      → (write_all_vectored accepts fuel slices s).0 ≡ ok tt
  unfolding write_all_vectored
  write_all_vectored-works fuel [] s h full = refl
  write_all_vectored-works zero (x ∷ xs) s h full =
      absurd (omega (arith, length-append x (flatten xs)))
  write_all_vectored-works (suc fuel) (x ∷ xs) s h full =
      let (k, t, e, le) =
        write_vectored-flows (x ∷ xs) s (omega (arith, length-append x (flatten xs))) in
      rw e (
        after_write-works (write_all_vectored accepts fuel) (x ∷ xs) t fuel k
          (λ left hl fl. write_all_vectored-works fuel left t hl fl) le h)

  write_all-works : (bytes : List ℕ) (s : Socket) → (write_all accepts bytes s).0 ≡ ok tt
  unfolding write_all
  write_all-works [] s = refl
  write_all-works (b ∷ bytes) s =
      write_all_vectored-works _ ((b ∷ bytes) ∷ []) s (omega (arith, length-append (b ∷ bytes) []))
        (omega arith)

  account-works : (s : Sender) (f n : ℕ) (o : Outcome) → o.0 ≡ ok tt → (account s f n o).0 ≡ ok tt
  unfolding account
  account-works s f n (ok u, t) h = refl
  account-works s f n (err e, t) h = absurd (cc)

  after_header-works :
      (payload : List ℕ) (s : Sender) (o : Outcome)
      → o.0 ≡ ok tt
      → (after_header accepts payload s o).0 ≡ ok tt
  unfolding after_header
  after_header-works payload s (ok u, t) h = account-works s 0 _ _ (write_all-works payload t)
  after_header-works payload s (err e, t) h = absurd (cc)

  send-works : (m : Sent) (s : Sender) → (send accepts m s).0 ≡ ok tt
  unfolding send send_frame send_control
  send-works (video payload pts keyframe) s = account-works s 1 _ _ (
      write_all_vectored-works _ _ s.stream (omega arith) (
        omega (
          arith,
          length-encode_frame_header (record {
            length = length payload % u32_mod;
            pts_ns = pts;
            keyframe = keyframe;
            control = false;
          }),
        )))
  send-works (control msg) s = after_header-works _ s _ (write_all-works _ s.stream)

  and_then-works :
      (next : Sender → Result SenderError (Unit {0}) × Sender)
      (o : Result SenderError (Unit {0}) × Sender)
      → o.0 ≡ ok tt
      → ((s : Sender) → (next s).0 ≡ ok tt)
      → (and_then next o).0 ≡ ok tt
  unfolding and_then
  and_then-works next (ok u, s) h later = later s
  and_then-works next (err e, s) h later = absurd (cc)

  send_all-works : (ms : List Sent) (s : Sender) → (send_all accepts ms s).0 ≡ ok tt
  unfolding send_all
  send_all-works [] s = refl
  send_all-works (m ∷ ms) s = and_then-works _ _ (send-works m s) (send_all-works ms)

  connected-works : (n : ℕ) (o : Outcome) → o.0 ≡ ok tt → (s : Sender) × (connected n o ≡ ok s)
  unfolding connected
  connected-works n (ok u, t) h = (_, refl)
  connected-works n (err e, t) h = absurd (cc)

  -- If the connection and its options succeed, and every write call takes a byte or more, then the
  -- sender connects, and every sequence of frames and controls is sent to its end without an error.
  pub session_succeeds :
      (opening : Opening) (h : StreamHeader) (ms : List Sent)
      → opening.connects ≡ true
      → opening.nodelay ≡ true
      → opening.timeout ≡ true
      → (s : Sender) × (connect accepts opening h ≡ ok s) × ((send_all accepts ms s).0 ≡ ok tt)
  unfolding connect
  session_succeeds opening h ms c n t =
      let fresh : Socket = record { taken = []; calls = 0 } in
      let bytes = encode_stream_header h in
      let (s, e) =
        connected-works (length bytes) (write_all accepts bytes fresh)
          (write_all-works bytes fresh) in
      (s, simp (c, n, t) e, send_all-works ms s)
