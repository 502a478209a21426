-- ===== src/Transport/Socket.antt =====
-- crates/transport/src/lib.rs: `write_all_vectored`, over a socket that takes what it likes.
pub mod Laws
use moreland_kde.Base.{
  ℕ, zero, suc, ◌+◌, ◌-◌, ◌*◌, ◌/◌, ◌%◌, ◌^◌, ◌≤◌, ◌<◌, min, max, bit_and, bit_or, ◌≡◌, refl, sym,
  ap, subst, ◌∙◌, ◌≢◌, ◌↔◌, ◌⊎◌, inl, inr, Bool, true, false, not, ◌&&◌, ◌||◌, Option, none, some,
  List, [], ◌∷◌, ◌++◌, map, arith, ltb, leb, ◌==◌, if◌then◌else◌, ltb→lt, lt→ltb, leb→le, le→leb,
  ==_iff, ==_refl, tests, Bool-cases, Option-cases, length, get_elem?, take, drop, replicate,
  keep_if, any, find_first, flatten, All, length-append, take-append-drop, length-take, length-drop,
  length-replicate, take_all, drop_all, All-append,
}
use moreland_kde.Base.Result.{Result, ok, err, ◌>>=◌, ◌>>◌, guard, >>=-eq-ok}
use mathlib.Core.List.{append-nil, append_assoc}

-- The socket: the bytes it has taken, and the number of write calls so far.
pub record Socket : Type 0 where
  pub taken : List ℕ
  pub calls : ℕ

pub data WriteError : Type 0 where
  io_error write_zero advance_panic out_of_fuel : WriteError

-- `IoSlice::advance_slices`: drops every slice that is used up, and panics past the end.
unfoldable pub advance_slices : ℕ → List (List ℕ) → Option (List (List ℕ))
advance_slices n [] = if n == 0 then some [] else none
advance_slices n (s ∷ ss) =
    let rest = advance_slices (n - length s) ss in
    if leb (length s) n then rest else some (drop n s ∷ ss)

abbrev pub Outcome : Type 0
Outcome = Result WriteError (Unit {0}) × Socket

-- `IoSlice::advance_slices(&mut slices, written)` and the next round.
unfoldable pub advance_then :
    (List (List ℕ) → Socket → Outcome) → Option (List (List ℕ)) → Socket → Outcome
advance_then next none s = (err advance_panic, s)
advance_then next (some left) s = next left s

-- What the loop does with the answer of a write call.
unfoldable pub after_write :
    (List (List ℕ) → Socket → Outcome) → List (List ℕ) → Option ℕ → Socket → Outcome
unfolding advance_then
after_write next slices none s = (err io_error, s)
after_write next slices (some zero) s = (err write_zero, s)
after_write next slices (some (suc k)) s = advance_then next (advance_slices (suc k) slices) s

-- The operating system's answer to each write call, by its number: an error, or how many bytes it is
-- ready to take. It takes no more than it was offered.
module _ (accepts : ℕ → Option ℕ) where
  unfoldable pub write_vectored : List (List ℕ) → Socket → Option ℕ × Socket
  write_vectored slices s = elim (accepts s.calls) [
    | none ↦ (none, record s { calls = s.calls + 1 })
    | some n ↦
        let offered = flatten slices in
        let k = min n (length offered) in
        (some k, record { taken = s.taken ++ take k offered; calls = s.calls + 1 })
  ]

  -- The loop, one round per write call.
  unfoldable pub write_all_vectored : ℕ → List (List ℕ) → Socket → Outcome
  write_all_vectored fuel [] s = (ok tt, s)
  write_all_vectored zero (x ∷ xs) s = (err out_of_fuel, s)
  write_all_vectored (suc fuel) (x ∷ xs) s =
      let (written, s') = write_vectored (x ∷ xs) s in
      after_write (write_all_vectored fuel) (x ∷ xs) written s'
