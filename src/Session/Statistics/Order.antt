-- ===== src/Session/Statistics/Order.antt =====
-- crates/daemon/src/session.rs: the statistics never index out of range, and are in order.
use moreland_kde.Base.{
  ℕ, zero, suc, ◌-◌, ◌*◌, ◌/◌, ◌≤◌, ◌<◌, ◌≡◌, refl, subst, inl, inr, some, List, [], ◌∷◌, arith,
  leb, leb→le, Bool-cases, length, get_elem?, All,
}
use moreland_kde.Base.Result.{ok}
use moreland_kde.Session.Statistics.{RoundTrip, insert_sorted, sort, quantiles, report}

abbrev Sorted : List ℕ → Type 0
Sorted [] = Unit {0}
Sorted (x ∷ xs) = All (λ y. x ≤ y) xs × Sorted xs

All-insert_sorted :
    (P : ℕ → Type 0) (x : ℕ) (xs : List ℕ) → P x → All P xs → All P (insert_sorted x xs)
All-insert_sorted P x [] p h = (p, tt)
All-insert_sorted P x (y ∷ ys) p h = elim (Bool-cases (leb x y)) [
  | inl le ↦ rw le (p, h)
  | inr gt ↦ rw gt (h.0, All-insert_sorted P x ys p h.1)
]

weaken : (x y : ℕ) (ys : List ℕ) → x ≤ y → All (λ z. y ≤ z) ys → All (λ z. x ≤ z) ys
weaken x y [] le h = tt
weaken x y (z ∷ ys) le h = (omega (arith, le, h.0), weaken x y ys le h.1)

insert_sorted-Sorted : (x : ℕ) (xs : List ℕ) → Sorted xs → Sorted (insert_sorted x xs)
insert_sorted-Sorted x [] s = (tt, tt)
insert_sorted-Sorted x (y ∷ ys) s = elim (Bool-cases (leb x y)) [
  | inl le ↦ rw le ((leb→le x y le, weaken x y ys (leb→le x y le) s.0), s)
  | inr gt ↦
      rw gt (
        All-insert_sorted (λ z. y ≤ z) x ys (ground (arith, gt)) s.0,
        insert_sorted-Sorted x ys s.1,
      )
]

sort-Sorted : (xs : List ℕ) → Sorted (sort xs)
sort-Sorted [] = tt
sort-Sorted (x ∷ xs) = insert_sorted-Sorted x (sort xs) (sort-Sorted xs)

length-insert_sorted : (x : ℕ) (xs : List ℕ) → length (insert_sorted x xs) ≡ suc (length xs)
length-insert_sorted x [] = refl
length-insert_sorted x (y ∷ ys) = let rest = length-insert_sorted x ys in ground (arith, rest)

-- Within a list there is an element at every index, and a sorted list grows with the index.
element : (xs : List ℕ) (i : ℕ) → i < length xs → (a : ℕ) × (get_elem? xs i ≡ some a)
element [] i h = absurd (omega (arith, h))
element (x ∷ xs) zero h = (x, refl)
element (x ∷ xs) (suc i) h = element xs i (omega (arith, h))

get-All : (P : ℕ → Type 0) (xs : List ℕ) (i a : ℕ) → All P xs → get_elem? xs i ≡ some a → P a
get-All P [] i a h e = absurd (cc)
get-All P (x ∷ xs) zero a h e = subst P {x = x} {y = a} (ground (arith, e)) h.0
get-All P (x ∷ xs) (suc i) a h e = get-All P xs i a h.1 e

grows :
    (xs : List ℕ) (i j a b : ℕ)
    → Sorted xs
    → i ≤ j
    → get_elem? xs i ≡ some a
    → get_elem? xs j ≡ some b
    → a ≤ b
grows [] i j a b s le e f = absurd (cc)
grows (x ∷ xs) zero zero a b s le e f = ground (arith, e, f)
grows (x ∷ xs) zero (suc j) a b s le e f =
    let x_le : x ≤ b = get-All (λ z. x ≤ z) xs j b s.0 f in ground (arith, e, x_le)
grows (x ∷ xs) (suc i) zero a b s le e f = absurd (omega (arith, le))
grows (x ∷ xs) (suc i) (suc j) a b s le e f = grows xs i j a b s.1 (omega (arith, le)) e f

quantiles-Ordered :
    (xs : List ℕ)
    → 0 < length xs
    → Sorted xs
    → (q : RoundTrip) × (quantiles xs ≡ ok q)
      × (q.min_trip ≤ q.median)
      × (q.median ≤ q.p95)
      × (q.p95 ≤ q.max_trip)
unfolding quantiles
quantiles-Ordered xs h s =
    let (a, ea) = element xs 0 h in
    let (b, eb) = element xs (length xs / 2) (omega (arith, h)) in
    let (c, ec) = element xs (length xs * 95 / 100) (omega (arith, h)) in
    let (d, ed) = element xs (length xs - 1) (omega (arith, h)) in
    (
      record { min_trip = a; median = b; p95 = c; max_trip = d },
      rw (ea, eb, ec, ed) refl,
      grows xs 0 (length xs / 2) a b s (omega arith) ea eb,
      grows xs (length xs / 2) (length xs * 95 / 100) b c s (omega arith) eb ec,
      grows xs (length xs * 95 / 100) (length xs - 1) c d s (omega (arith, h)) ec ed,
    )

-- The report of any round trips, one or more, never indexes out of range, and gives a minimum, a
-- median, a 95th percentile and a maximum in ascending order.
pub report-ordered :
    (t : ℕ) (ts : List ℕ)
    → (q : RoundTrip) × (report (t ∷ ts) ≡ ok (some q))
      × (q.min_trip ≤ q.median)
      × (q.median ≤ q.p95)
      × (q.p95 ≤ q.max_trip)
unfolding report
report-ordered t ts =
    let (q, e, low, mid, high) =
      quantiles-Ordered (sort (t ∷ ts)) (omega (arith, length-insert_sorted t (sort ts)))
        (sort-Sorted (t ∷ ts)) in
    (q, rw e refl, low, mid, high)
