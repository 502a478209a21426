-- ===== src/Session/Reader/Framing.antt =====
-- The reverse channel is framed by bytes, not by reads: how the bytes were split over `read` calls
-- makes no difference (crates/daemon/src/session.rs).
use moreland_kde.Base.{
  ℕ, suc, ◌+◌, ◌≤◌, ◌<◌, ◌≡◌, refl, sym, ap, inl, inr, List, [], ◌∷◌, ◌++◌, arith, ◌==◌,
  if◌then◌else◌, ==_iff, Bool-cases, length, drop, replicate, length-append, length-drop,
}
use mathlib.Core.List.{append-nil, append_assoc}
use moreland_kde.Protocol.Bytes.{write_at}
use moreland_kde.Protocol.Reverse.{decode_reverse_message, reverse_msg_len}
use moreland_kde.Session.Reader.{Shared, Reader, Event, got, dispatch, on_bytes, start, step, run}

-- The reference: a stream of timed bytes is cut into groups of nine, and each group is decoded and
-- dispatched at the time of its last byte. An unfinished group is not dispatched.
unfoldable pub deliver : List (ℕ × ℕ) → Shared → Shared
deliver
      ((t0, b0)
        ∷ (t1, b1)
        ∷ (t2, b2)
        ∷ (t3, b3)
        ∷ (t4, b4)
        ∷ (t5, b5)
        ∷ (t6, b6)
        ∷ (t7, b7)
        ∷ (t8, b8)
        ∷ rest)
      s =
    deliver rest
      (dispatch t8 (decode_reverse_message (b0 ∷ b1 ∷ b2 ∷ b3 ∷ b4 ∷ b5 ∷ b6 ∷ b7 ∷ b8 ∷ [])) s)
deliver _ s = s

abbrev pub timed : ℕ → List ℕ → List (ℕ × ℕ)
timed now [] = []
timed now (b ∷ bs) = (now, b) ∷ timed now bs

abbrev pub bytes_of : List (ℕ × ℕ) → List ℕ
bytes_of [] = []
bytes_of ((t, b) ∷ rest) = b ∷ bytes_of rest

-- The reads of a run, each with its time.
abbrev pub reads : List (ℕ × List ℕ) → List Event
reads [] = []
reads ((now, chunk) ∷ rest) = got now chunk ∷ reads rest

abbrev pub stream : List (ℕ × List ℕ) → List (ℕ × ℕ)
stream [] = []
stream ((now, chunk) ∷ rest) = timed now chunk ++ stream rest

-- What `read` promises: at least one byte, and no more than the space behind `filled`.
abbrev pub next_filled : ℕ → ℕ → ℕ
next_filled filled n = if filled + n == reverse_msg_len then 0 else filled + n

abbrev pub ReadsFit : ℕ → List (ℕ × List ℕ) → Type 0
ReadsFit filled [] = Unit {0}
ReadsFit filled ((now, chunk) ∷ rest) =
    (0 < length chunk)
    × (filled + length chunk ≤ reverse_msg_len)
    × ReadsFit (next_filled filled (length chunk)) rest

write_at-append :
    (p q c : List ℕ)
    → length c ≤ length q
    → write_at (p ++ q) (length p) c ≡ p ++ (c ++ drop (length c) q)
write_at-append (x ∷ p) q c h = ap (◌∷◌ x) (write_at-append p q c h)
write_at-append [] [] [] h = refl
write_at-append [] [] (x ∷ c) h = absurd (omega arith)
write_at-append [] (y ∷ q) [] h = refl
write_at-append [] (y ∷ q) (x ∷ c) h = ap (◌∷◌ x) (write_at-append [] q c (omega arith))

pub length-bytes_of : (xs : List (ℕ × ℕ)) → length (bytes_of xs) ≡ length xs
length-bytes_of [] = refl
length-bytes_of ((t, b) ∷ xs) = ap suc (length-bytes_of xs)

pub length-timed : (now : ℕ) (c : List ℕ) → length (timed now c) ≡ length c
length-timed now [] = refl
length-timed now (b ∷ c) = ap suc (length-timed now c)

pub bytes_of-timed :
    (p : List (ℕ × ℕ)) (now : ℕ) (c : List ℕ) → bytes_of (p ++ timed now c) ≡ bytes_of p ++ c
bytes_of-timed [] now [] = refl
bytes_of-timed [] now (b ∷ c) = ap (◌∷◌ b) (bytes_of-timed [] now c)
bytes_of-timed ((t, b) ∷ p) now c = ap (◌∷◌ b) (bytes_of-timed p now c)

abbrev last_time : List (ℕ × ℕ) → ℕ
last_time [] = 0
last_time ((t, b) ∷ []) = t
last_time ((t, b) ∷ (u, d) ∷ rest) = last_time ((u, d) ∷ rest)

last_time-timed : (now : ℕ) (c : List ℕ) → 0 < length c → last_time (timed now c) ≡ now
last_time-timed now [] h = elim h [ ]
last_time-timed now (b ∷ []) h = refl
last_time-timed now (b ∷ d ∷ c) h = last_time-timed now (d ∷ c) (omega arith)

last_time-append :
    (p : List (ℕ × ℕ)) (now : ℕ) (c : List ℕ) → 0 < length c → last_time (p ++ timed now c) ≡ now
last_time-append [] now c h = last_time-timed now c h
last_time-append ((t, b) ∷ []) now [] h = elim h [ ]
last_time-append ((t, b) ∷ []) now (d ∷ c) h = last_time-timed now (d ∷ c) h
last_time-append ((t, b) ∷ (u, d) ∷ p) now c h = last_time-append ((u, d) ∷ p) now c h

deliver_group :
    (xs rest : List (ℕ × ℕ)) (s : Shared)
    → length xs ≡ reverse_msg_len
    → deliver (xs ++ rest) s
      ≡ deliver rest (dispatch (last_time xs) (decode_reverse_message (bytes_of xs)) s)
unfolding deliver
deliver_group
      ((t0, b0)
        ∷ (t1, b1)
        ∷ (t2, b2)
        ∷ (t3, b3)
        ∷ (t4, b4)
        ∷ (t5, b5)
        ∷ (t6, b6)
        ∷ (t7, b7)
        ∷ (t8, b8)
        ∷ [])
      rest s h =
    refl
deliver_group _ rest s h = absurd (omega arith)

deliver_short : (xs : List (ℕ × ℕ)) (s : Shared) → length xs < reverse_msg_len → deliver xs s ≡ s
unfolding deliver
deliver_short
      ((t0, b0)
        ∷ (t1, b1)
        ∷ (t2, b2)
        ∷ (t3, b3)
        ∷ (t4, b4)
        ∷ (t5, b5)
        ∷ (t6, b6)
        ∷ (t7, b7)
        ∷ (t8, b8)
        ∷ rest)
      s h =
    absurd (omega arith)
deliver_short _ s h = refl

-- Nine timed bytes whose last one came at `now` are one dispatch.
deliver_nine :
    (p : List (ℕ × ℕ)) (now : ℕ) (c : List ℕ) (rest : List (ℕ × ℕ)) (s : Shared)
    → 0 < length c
    → length p + length c ≡ reverse_msg_len
    → deliver ((p ++ timed now c) ++ rest) s
      ≡ deliver rest (dispatch now (decode_reverse_message (bytes_of p ++ c)) s)
deliver_nine p now c rest s h e = rw (
  deliver_group (p ++ timed now c) rest s
      (omega (arith, length-append p (timed now c), length-timed now c)),
  last_time-append p now c h,
  bytes_of-timed p now c,
)

-- The reader whose buffer holds the unfinished group `p` in front of stale bytes `q`.
abbrev pub holding : List (ℕ × ℕ) → List ℕ → Shared → Reader
holding p q s = record { buf = bytes_of p ++ q; filled = length p; shared = s }

drop_exact : (c q : List ℕ) → length c ≡ length q → drop (length c) q ≡ []
drop_exact [] [] h = refl
drop_exact [] (y ∷ q) h = absurd (omega arith)
drop_exact (x ∷ c) [] h = absurd (omega arith)
drop_exact (x ∷ c) (y ∷ q) h = drop_exact c q (omega arith)

filled_buf :
    (p : List (ℕ × ℕ)) (q c : List ℕ)
    → length c ≤ length q
    → write_at (bytes_of p ++ q) (length p) c ≡ bytes_of p ++ (c ++ drop (length c) q)
filled_buf p q c h = rw (← length-bytes_of p) (write_at-append (bytes_of p) q c h)

-- A read that completes the group.
pub on_bytes_last :
    (p : List (ℕ × ℕ)) (q c : List ℕ) (now : ℕ) (s : Shared)
    → length p + length q ≡ reverse_msg_len
    → length p + length c ≡ reverse_msg_len
    → on_bytes now c (holding p q s)
      ≡ holding [] (bytes_of p ++ c) (dispatch now (decode_reverse_message (bytes_of p ++ c)) s)
unfolding on_bytes
on_bytes_last p q c now s hq hc = rw (
  filled_buf p q c (omega arith),
  drop_exact c q (omega arith),
  append-nil c,
  (==_iff (length p + length c) reverse_msg_len).1 hc,
)

-- A read that leaves the group unfinished.
pub on_bytes_more :
    (p : List (ℕ × ℕ)) (q c : List ℕ) (now : ℕ) (s : Shared)
    → length p + length q ≡ reverse_msg_len
    → length p + length c < reverse_msg_len
    → on_bytes now c (holding p q s) ≡ holding (p ++ timed now c) (drop (length c) q) s
unfolding on_bytes
on_bytes_more p q c now s hq hc =
    rw
      (
        filled_buf p q c (omega arith),
        bytes_of-timed p now c,
        append_assoc (bytes_of p) c (drop (length c) q),
        length-append p (timed now c),
        length-timed now c,
      )
      (ground arith)

run-reads :
    (chunks : List (ℕ × List ℕ)) (p : List (ℕ × ℕ)) (q : List ℕ) (s : Shared)
    → length p < reverse_msg_len
    → length p + length q ≡ reverse_msg_len
    → ReadsFit (length p) chunks
    → (run (holding p q s) (reads chunks)).shared ≡ deliver (p ++ stream chunks) s
unfolding run step
run-reads [] p q s hp hq fit = sym (rw append-nil (deliver_short p s hp))
run-reads ((now, c) ∷ chunks) p q s hp hq (some_bytes, room, fit) =
    elim (Bool-cases (length p + length c == reverse_msg_len)) [
      | inl done ↦
          rw
            (
              on_bytes_last p q c now s hq ((==_iff _ _).0 done),
              ← append_assoc p (timed now c) (stream chunks),
              deliver_nine p now c (stream chunks) s some_bytes ((==_iff _ _).0 done),
            )
            (run-reads chunks [] (bytes_of p ++ c)
              (dispatch now (decode_reverse_message (bytes_of p ++ c)) s) (omega arith)
              (omega (
                arith,
                length-append (bytes_of p) c,
                length-bytes_of p,
                (==_iff (length p + length c) reverse_msg_len).0 done,
              ))
              (rw done at fit))
      | inr more ↦
          rw
            (
              on_bytes_more p q c now s hq (ground arith),
              ← append_assoc p (timed now c) (stream chunks),
            )
            (run-reads chunks (p ++ timed now c) (drop (length c) q) s
              (ground (arith, length-append p (timed now c), length-timed now c))
              (omega (
                arith,
                length-append p (timed now c),
                length-timed now c,
                length-drop (length c) q,
              ))
              (rw (length-append p (timed now c), length-timed now c) (rw more at fit)))
    ]

-- However the bytes are split over reads, what the thread has done after them is what the stream of
-- bytes says: each group of nine is decoded and dispatched once, at the time of the read that
-- completed it, and an unfinished group waits. The reads are those that `read` can answer with.
pub run-deliver :
    (chunks : List (ℕ × List ℕ)) (s : Shared)
    → ReadsFit 0 chunks
    → (run (start s) (reads chunks)).shared ≡ deliver (stream chunks) s
unfolding start
run-deliver chunks s fit =
    run-reads chunks [] (replicate reverse_msg_len 0) s (omega arith) refl fit
