-- ===== src/Transport/Socket/Laws.antt =====
-- `write_all_vectored` of crates/transport/src/lib.rs writes all of its slices, or a proper prefix
-- and an error, however the socket splits the writes.
use moreland_kde.Base.{
  ℕ, zero, suc, ◌+◌, ◌-◌, ◌≤◌, ◌<◌, min, ◌≡◌, refl, sym, ap, subst, ◌∙◌, ◌⊎◌, inl, inr, Option,
  none, some, List, [], ◌∷◌, ◌++◌, arith, leb, leb→le, Bool-cases, Option-cases, length, take, drop,
  flatten, length-append, take-append-drop, length-take, length-drop,
}
use moreland_kde.Base.Result.{ok, err}
use mathlib.Core.List.{append-nil, append_assoc}
use native.Mathlib.Nat.{suc-add}
use moreland_kde.Transport.Socket.{
  Outcome, after_write, Socket, io_error, write_zero, advance_slices, write_vectored,
  write_all_vectored,
}

-- The first slice is not empty, so that a write call is offered a byte.
abbrev pub StartsFull : List (List ℕ) → Type 0
StartsFull [] = Unit {0}
StartsFull (x ∷ xs) = 0 < length x

drop-append_le : (n : ℕ) (x ys : List ℕ) → n ≤ length x → drop n (x ++ ys) ≡ drop n x ++ ys
drop-append_le zero x ys h = refl
drop-append_le (suc n) [] ys h = absurd (omega arith)
drop-append_le (suc n) (y ∷ x) ys h = drop-append_le n x ys (omega arith)

drop-append_ge : (n : ℕ) (x ys : List ℕ) → length x ≤ n → drop n (x ++ ys) ≡ drop (n - length x) ys
drop-append_ge n [] ys h = ap (λ (k : ℕ). drop k ys) (omega arith)
drop-append_ge zero (y ∷ x) ys h = absurd (omega arith)
drop-append_ge (suc n) (y ∷ x) ys h =
    drop-append_ge n x ys (omega arith) ∙ ap (λ (k : ℕ). drop k ys) (omega arith)

-- Within what is offered, `advance_slices` leaves the rest of the bytes, its first slice not empty.
pub advance_slices_lem :
    (n : ℕ) (slices : List (List ℕ))
    → n ≤ length (flatten slices)
    → (left : List (List ℕ)) × (advance_slices n slices ≡ some left)
      × (flatten left ≡ drop n (flatten slices))
      × StartsFull left
unfolding advance_slices
advance_slices_lem zero [] h = ([], refl, refl, tt)
advance_slices_lem (suc n) [] h = absurd (omega arith)
advance_slices_lem n (s ∷ ss) h = elim (Bool-cases (leb (length s) n)) [
  | inl all_used ↦
      let (left, found, same, full) =
        advance_slices_lem (n - length s) ss (omega (arith, length-append s (flatten ss))) in
      (
        left,
        rw all_used found,
        same ∙ sym (drop-append_ge n s (flatten ss) (leb→le _ _ all_used)),
        full,
      )
  | inr part ↦ (
    drop n s ∷ ss,
    rw part,
    sym (drop-append_le n s (flatten ss) (ground arith)),
    ground (arith, length-drop n s),
  )
]

take-length_le : (n : ℕ) (xs : List ℕ) → length (take n xs) ≤ n
take-length_le n xs = omega (arith, length-take n xs)

-- Writing in two parts.
take-drop-append : (k m : ℕ) (xs : List ℕ) → take k xs ++ take m (drop k xs) ≡ take (k + m) xs
take-drop-append zero m xs = ap (λ (n : ℕ). take n xs) (omega arith)
take-drop-append (suc k) zero [] = rw (suc-add k 0)
take-drop-append (suc k) (suc m) [] = rw (suc-add k (suc m))
take-drop-append (suc k) m (x ∷ xs) = rw (suc-add k m) (ap (◌∷◌ x) (take-drop-append k m xs))

-- The outcome of a loop that starts at socket `s` and is given the bytes `offered`: all of them are
-- written, or a proper prefix and an error of the socket.
abbrev pub Writes : List ℕ → Socket → Outcome → Type 0
Writes offered s out =
    ((out.0 ≡ ok tt) × (out.1.taken ≡ s.taken ++ offered))
    ⊎ ((k : ℕ) × (k < length offered)
        × ((out.0 ≡ err io_error) ⊎ (out.0 ≡ err write_zero))
        × (out.1.taken ≡ s.taken ++ take k offered))

-- A first part of `k` bytes that were taken, and an outcome for the rest.
Writes-after :
    (k : ℕ) (offered : List ℕ) (s t : Socket) (out : Outcome)
    → k ≤ length offered
    → t.taken ≡ s.taken ++ take k offered
    → Writes (drop k offered) t out
    → Writes offered s out
Writes-after k offered s t out h e (inl (done, all)) = inl (
  done,
  rw (all, e, append_assoc (s.taken) (take k offered) (drop k offered), take-append-drop k offered),
)
Writes-after k offered s t out h e (inr (m, less, why, part)) = inr (
  k + m,
  omega (arith, length-drop k offered),
  why,
  rw (
    part,
    e,
    append_assoc (s.taken) (take k offered) (take m (drop k offered)),
    take-drop-append k m offered,
  ),
)

after_write-Writes :
    (next : List (List ℕ) → Socket → Outcome) (slices : List (List ℕ)) (s t : Socket) (fuel k : ℕ)
    → ((left : List (List ℕ))
        → length (flatten left) ≤ fuel
        → StartsFull left
        → Writes (flatten left) t (next left t))
    → k ≤ length (flatten slices)
    → 0 < length (flatten slices)
    → length (flatten slices) ≤ suc fuel
    → t.taken ≡ s.taken ++ take k (flatten slices)
    → Writes (flatten slices) s (after_write next slices (some k) t)
unfolding after_write
after_write-Writes next slices s t fuel zero ih hk pos bound e = inr (0, pos, inr refl, e)
after_write-Writes next slices s t fuel (suc k) ih hk pos bound e =
    let (left, found, same, full) = advance_slices_lem (suc k) slices hk in
    rw found (
      Writes-after (suc k) (flatten slices) s t (next left t) hk e (
        subst (λ o. Writes o t (next left t)) same
          (ih left (rw same (omega (arith, length-drop (suc k) (flatten slices)))) full)))

module _ (accepts : ℕ → Option ℕ) where
  write_vectored_cases :
      (slices : List (List ℕ)) (s : Socket)
      → ((t : Socket) × (write_vectored accepts slices s ≡ (none, t)) × (t.taken ≡ s.taken))
        ⊎ ((k : ℕ) × (t : Socket) × (write_vectored accepts slices s ≡ (some k, t))
            × (k ≤ length (flatten slices))
            × (t.taken ≡ s.taken ++ take k (flatten slices)))
  unfolding write_vectored
  write_vectored_cases slices s = elim (Option-cases (accepts s.calls)) [
    | inl e ↦ inl (record s { calls = s.calls + 1 }, rw (e, write_vectored), refl)
    | inr (n, e) ↦ inr (
      min n (length (flatten slices)),
      record {
        taken = s.taken ++ take (min n (length (flatten slices))) (flatten slices);
        calls = s.calls + 1;
      },
      rw (e, write_vectored),
      omega arith,
      refl,
    )
  ]

  -- With as many rounds as there are bytes, and a first slice that is not empty, the loop ends: the
  -- socket has then taken all the bytes in order, or a proper prefix of them and the call reports an
  -- error of the socket. It never panics and never runs out of rounds.
  pub write_all_vectored-Writes :
      (fuel : ℕ) (slices : List (List ℕ)) (s : Socket)
      → length (flatten slices) ≤ fuel
      → StartsFull slices
      → Writes (flatten slices) s (write_all_vectored accepts fuel slices s)
  unfolding write_all_vectored after_write
  write_all_vectored-Writes fuel [] s h full = inl (refl, sym (append-nil s.taken))
  write_all_vectored-Writes zero (x ∷ xs) s h full =
      absurd (omega (arith, length-append x (flatten xs)))
  write_all_vectored-Writes (suc fuel) (x ∷ xs) s h full = elim (write_vectored_cases (x ∷ xs) s) [
    | inl (t, e, same) ↦
        rw (e, after_write)
          (inr (
            0,
            omega (arith, length-append x (flatten xs)),
            inl refl,
            same ∙ sym (append-nil s.taken),
          ))
    | inr (k, t, e, le, same) ↦ rw e (
        after_write-Writes (write_all_vectored accepts fuel) (x ∷ xs) s t fuel k
          (λ left hl fl. write_all_vectored-Writes fuel left t hl fl) le
          (omega (arith, length-append x (flatten xs))) h same)
  ]
