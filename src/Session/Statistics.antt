-- ===== src/Session/Statistics.antt =====
-- crates/daemon/src/session.rs: the round-trip statistics that `report` prints, in nanoseconds.
pub mod Order
use moreland_kde.Base.{
  ℕ, zero, suc, ◌+◌, ◌-◌, ◌*◌, ◌/◌, ◌%◌, ◌^◌, ◌≤◌, ◌<◌, min, max, bit_and, bit_or, ◌≡◌, refl, sym,
  ap, subst, ◌∙◌, ◌≢◌, ◌↔◌, ◌⊎◌, inl, inr, Bool, true, false, not, ◌&&◌, ◌||◌, Option, none, some,
  List, [], ◌∷◌, ◌++◌, map, arith, ltb, leb, ◌==◌, if◌then◌else◌, ltb→lt, lt→ltb, leb→le, le→leb,
  ==_iff, ==_refl, tests, Bool-cases, Option-cases, length, get_elem?, take, drop, replicate,
  keep_if, any, find_first, flatten, All, length-append, take-append-drop, length-take, length-drop,
  length-replicate, take_all, drop_all, All-append,
}
use moreland_kde.Base.Result.{Result, ok, err, ◌>>=◌, ◌>>◌, guard, >>=-eq-ok, guard_passed}

-- An index out of range is a panic.
pub data StatisticsError : Type 0 where
  index_panic : StatisticsError

-- `sort_unstable` on numbers.
abbrev pub insert_sorted : ℕ → List ℕ → List ℕ
insert_sorted x [] = x ∷ []
insert_sorted x (y ∷ ys) = let rest = insert_sorted x ys in if leb x y then x ∷ y ∷ ys else y ∷ rest

abbrev pub sort : List ℕ → List ℕ
sort [] = []
sort (x ∷ xs) = insert_sorted x (sort xs)

pub record RoundTrip : Type 0 where
  pub min_trip : ℕ
  pub median : ℕ
  pub p95 : ℕ
  pub max_trip : ℕ

abbrev pub found : Option ℕ → Result StatisticsError ℕ
found none = err index_panic
found (some t) = ok t

-- `sorted[i]`
abbrev pub at : List ℕ → ℕ → Result StatisticsError ℕ
at sorted i = found (get_elem? sorted i)

unfoldable pub quantiles : List ℕ → Result StatisticsError RoundTrip
quantiles sorted = do
  min_trip ← at sorted 0
  median ← at sorted (length sorted / 2)
  p95 ← at sorted (length sorted * 95 / 100)
  max_trip ← at sorted (length sorted - 1)
  ok (record { min_trip = min_trip; median = median; p95 = p95; max_trip = max_trip })

-- What `report` prints of the round trips: nothing if there are none.
unfoldable pub report : List ℕ → Result StatisticsError (Option RoundTrip)
report [] = ok none
report (t ∷ ts) = quantiles (sort (t ∷ ts)) >>= (λ q. ok (some q))
