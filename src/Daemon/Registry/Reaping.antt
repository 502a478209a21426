-- ===== src/Daemon/Registry/Reaping.antt =====
-- crates/daemon/src/main.rs: cooldowns, and which sessions a reaping takes away.
use moreland_kde.Base.{
  ℕ, ◌+◌, ◌*◌, ◌≤◌, ◌≡◌, refl, sym, ap, ◌∙◌, ◌≢◌, inl, inr, Bool, false, not, Option, none, some,
  List, [], ◌∷◌, arith, Bool-cases, keep_if, any, All,
}
use moreland_kde.Base.Text.{Text, text_eq, text_eq_iff, text_eq_refl}
use moreland_kde.Base.Table.{Table, lookup, remove, insert, Distinct, All-map_elements}
use moreland_kde.Daemon.Registry.{
  Session, Cooldown, Registry, Threads, bump_cooldown, backoff, failures_of, seconds, reap_finished,
  reap_each, reap_one, finished_serials,
}

lookup-insert : {V : Type 0} (k : Text) (v : V) (t : Table V) → lookup k (insert k v t) ≡ some v
lookup-insert k v t = rw (text_eq_refl k) refl

lookup-remove : {V : Type 0} (k : Text) (t : Table V) → lookup k (remove k t) ≡ none
lookup-remove k [] = refl
lookup-remove k (e ∷ t) = elim (Bool-cases (text_eq e.0 k)) [
  | inl same ↦ rw same (lookup-remove k t)
  | inr other ↦ rw (other, other) (lookup-remove k t)
]

-- A device that fails waits two seconds for each of its failures, this one included, and never less
-- than two seconds nor more than sixteen.
pub bump_cooldown_lem :
    (now : ℕ) (serial : Text) (cooldowns : Table Cooldown)
    → (c : Cooldown) × (lookup serial (bump_cooldown now serial cooldowns) ≡ some c)
      × (c.failures ≡ failures_of (lookup serial cooldowns) + 1)
      × (now + seconds 2 ≤ c.next_attempt)
      × (c.next_attempt ≤ now + seconds 16)
      × (c.failures ≤ 8 → c.next_attempt ≡ now + seconds (2 * c.failures))
unfolding bump_cooldown backoff
bump_cooldown_lem now serial cooldowns =
    (_, lookup-insert serial _ _, refl, omega arith, omega arith, λ h. omega (arith, h))

-- The sessions that still run.
abbrev pub running : Threads → Registry → Registry
running th r = keep_if (λ e. not (th.is_finished e.1.handle)) r

abbrev member : Text → List Text → Bool
member s ss = any (λ t. text_eq s t) ss

-- The registry without a list of serials.
abbrev without : List Text → Registry → Registry
without ss r = keep_if (λ e. not (member e.0 ss)) r

remove_absent : (k : Text) (r : Registry) → lookup k r ≡ none → remove k r ≡ r
remove_absent k [] h = refl
remove_absent k (e ∷ r) h = elim (Bool-cases (text_eq e.0 k)) [
  | inl same ↦ absurd (ground (arith, same, h))
  | inr other ↦ rw other (ap (◌∷◌ e) (remove_absent k r (ground (arith, other, h))))
]

reap_one_lem :
    (th : Threads) (k : Text) (rc : Registry × Table Cooldown) (o : Option Session)
    → lookup k rc.0 ≡ o
    → (reap_one th k o rc).0 ≡ remove k rc.0
unfolding reap_one
reap_one_lem th k (r, c) none h = sym (remove_absent k r h)
reap_one_lem th k (r, c) (some s) h = refl

without-cons :
    (k : Text) (ss : List Text) (r : Registry) → without ss (remove k r) ≡ without (k ∷ ss) r
without-cons k ss [] = refl
without-cons k ss (e ∷ r) = elim (Bool-cases (text_eq e.0 k)) [
  | inl same ↦ rw same (without-cons k ss r)
  | inr other ↦ rw (other, without-cons k ss r) refl
]

without_none : (r : Registry) → without [] r ≡ r
without_none [] = refl
without_none (e ∷ r) = ap (◌∷◌ e) (without_none r)

reap_each_lem :
    (th : Threads) (ss : List Text) (rc : Registry × Table Cooldown)
    → (reap_each th ss rc).0 ≡ without ss rc.0
unfolding reap_each
reap_each_lem th [] rc = sym (without_none rc.0)
reap_each_lem th (s ∷ ss) rc =
    reap_each_lem th ss _ ∙ (ap (without ss) (reap_one_lem th s rc _ refl) ∙ without-cons s ss rc.0)

keep_if_same :
    (p q : Text × Session → Bool) (r : Registry)
    → All (λ e. p e ≡ q e) r
    → keep_if p r ≡ keep_if q r
keep_if_same p q [] h = refl
keep_if_same p q (e ∷ r) h = rw (h.0, keep_if_same p q r h.1) refl

differ : (s t : Text) → s ≢ t → text_eq s t ≡ false
differ s t ne = elim (Bool-cases (text_eq s t)) [
  | inl same ↦ absurd (ne ((text_eq_iff s t).0 same))
  | inr other ↦ other
]

absent_finished :
    (th : Threads) (k : Text) (r : Registry)
    → All (λ y. k ≢ y.0) r
    → member k (finished_serials th r) ≡ false
absent_finished th k [] h = refl
absent_finished th k (e ∷ r) h =
    let rest = absent_finished th k r h.1 in
    let other = differ k e.0 h.0 in
    elim (Bool-cases (th.is_finished e.1.handle)) [
      | inl over ↦ rw (over, other, rest) refl
      | inr on ↦ rw (on, rest) refl
    ]

All-both :
    (P Q : Text × Session → Type 0) (r : Registry) → All P r → All Q r → All (λ e. P e × Q e) r
All-both P Q [] a b = tt
All-both P Q (e ∷ r) a b = ((a.0, b.0), All-both P Q r a.1 b.1)

finished_members :
    (th : Threads) (r : Registry)
    → Distinct (λ e. e.0) r
    → All (λ e. not (member e.0 (finished_serials th r)) ≡ not (th.is_finished e.1.handle)) r
finished_members th [] d = tt
finished_members th (e ∷ r) d = elim (Bool-cases (th.is_finished e.1.handle)) [
  | inl over ↦ (
    rw (over, text_eq_refl e.0) refl,
    All-map_elements _ _ (λ y h. rw (over, differ y.0 e.0 (λ q. h.0 (sym q))) h.1) r
        (All-both _ _ r d.0 (finished_members th r d.1)),
  )
  | inr on ↦ (
    rw (on, absent_finished th e.0 r d.0) refl,
    All-map_elements _ _ (λ y h. rw on h) r (finished_members th r d.1),
  )
]

-- A reaping takes exactly the sessions whose thread has finished, and leaves the others as they are.
reap_finished_lem :
    (th : Threads) (r : Registry) (cooldowns : Table Cooldown)
    → Distinct (λ e. e.0) r
    → (reap_finished th (r, cooldowns)).0 ≡ running th r
unfolding reap_finished
reap_finished_lem th r cooldowns d =
    reap_each_lem th (finished_serials th r) (r, cooldowns)
    ∙ keep_if_same _ _ r (finished_members th r d)
