-- ===== src/Daemon/Reconciler/Debounce.antt =====
-- crates/daemon/src/main.rs: no session starts before its device has been ready for a while.
use moreland_kde.Base.{
  ℕ, ◌≡◌, refl, sym, ap, subst, ◌∙◌, ◌⊎◌, inl, inr, Bool, true, false, not, none, List, [], ◌∷◌,
  arith, if◌then◌else◌, Bool-cases, keep_if, All,
}
use moreland_kde.Base.Text.{Text, text_eq, text_eq_iff, text_eq_refl}
use moreland_kde.Base.Table.{
  Table, lookup, contains_key, remove, insert, All-keep_if, All-map_elements, keep_if_passes,
}
use moreland_kde.Daemon.Tracker.{is_ready}
use moreland_kde.Daemon.Registry.{Session, Registry, SpawnArgs}
use moreland_kde.Daemon.Reconciler.{
  Daemon, Tick, Update, continue, listed, timed_out, lost, member, track_ready, or_insert_all,
  stop_vanished, candidates, announce_idle, reconcile, on_update, reap, iterate, debounced,
  old_enough, cooled_down,
}
use moreland_kde.Daemon.Reconciler.Safety.{start_all-keeps}

lookup-remove_other :
    (k s : Text) (t : Table ℕ) → text_eq s k ≡ false → lookup k (remove s t) ≡ lookup k t
lookup-remove_other k s [] h = refl
lookup-remove_other k s (e ∷ t) h = elim (Bool-cases (text_eq e.0 s)) [
  | inr other ↦ rw (other, lookup-remove_other k s t h) refl
  | inl same ↦
      let apart : text_eq e.0 k ≡ false = ap (λ u. text_eq u k) ((text_eq_iff e.0 s).0 same) ∙ h in
      rw (same, apart) (lookup-remove_other k s t h)
]

-- A serial that is entered now is not old enough.
or_insert_all-old :
    (now : ℕ) (k : Text) (ss : List Text) (t : Table ℕ)
    → old_enough now (lookup k (or_insert_all now ss t)) ≡ true
    → old_enough now (lookup k t) ≡ true
unfolding or_insert_all
or_insert_all-old now k [] t h = h
or_insert_all-old now k (s ∷ ss) t h = elim (Bool-cases (contains_key s t)) [
  | inl there ↦ or_insert_all-old now k ss t (
      subst
        (λ u.
          old_enough now (lookup k (or_insert_all now ss (if u then t else insert s now t))) ≡ true)
        there h)
  | inr new ↦
      let later = or_insert_all-old now k ss (insert s now t) (
        subst
          (λ u.
            old_enough now (lookup k (or_insert_all now ss (if u then t else insert s now t)))
            ≡ true)
          new h) in
      elim (Bool-cases (text_eq s k)) [
        | inl same ↦ absurd (ground (arith, same, later))
        | inr other ↦
            ap (old_enough now) (sym (lookup-remove_other k s t other))
            ∙ ground (arith, other, later)
      ]
]

lookup-keep_if-none :
    (k : Text) (p : Text → Bool) (t : Table ℕ)
    → p k ≡ false
    → lookup k (keep_if (λ e. p e.0) t) ≡ none
lookup-keep_if-none k p [] h = refl
lookup-keep_if-none k p (e ∷ t) h = elim (Bool-cases (p e.0)) [
  | inr fail ↦ rw fail (lookup-keep_if-none k p t h)
  | inl pass ↦ elim (Bool-cases (text_eq e.0 k)) [
    | inl same ↦ absurd (cc (pass, h, (text_eq_iff e.0 k).0 same))
    | inr other ↦ rw (pass, other) (lookup-keep_if-none k p t h)
  ]
]

keep_if-old :
    (now : ℕ) (k : Text) (p : Text → Bool) (t : Table ℕ)
    → old_enough now (lookup k (keep_if (λ e. p e.0) t)) ≡ true
    → old_enough now (lookup k t) ≡ true
keep_if-old now k p [] h = h
keep_if-old now k p (e ∷ t) h = elim (Bool-cases (text_eq e.0 k)) [
  | inr other ↦ rw other (
      keep_if-old now k p t (elim (Bool-cases (p e.0)) [
        | inl pass ↦ ground (arith, pass, other, h)
        | inr fail ↦ ground (arith, fail, h)
      ]))
  | inl same ↦ elim (Bool-cases (p e.0)) [
    | inl pass ↦ ground (arith, pass, same, h)
    | inr fail ↦
        let k_fails : p k ≡ false = ap p (sym ((text_eq_iff e.0 k).0 same)) ∙ fail in
        absurd (ground (arith, fail, h, lookup-keep_if-none k p t k_fails))
  ]
]

track_ready-old :
    (now : ℕ) (k : Text) (ready : List Text) (t : Table ℕ)
    → old_enough now (lookup k (track_ready now ready t)) ≡ true
    → old_enough now (lookup k t) ≡ true
unfolding track_ready
track_ready-old now k ready t h =
    keep_if-old now k (λ s. member s ready) t (or_insert_all-old now k ready _ h)

-- A session that runs already, or whose device was noted as ready at least 600 ms ago, in an
-- earlier iteration.
abbrev pub Waited : ℕ → Daemon → Text × Session → Type 0
Waited now d e =
    (contains_key e.0 d.registry ≡ true) ⊎ (old_enough now (lookup e.0 d.seen_ready_at) ≡ true)

keys_contained : (r : Registry) → All (λ e. contains_key e.0 r ≡ true) r
keys_contained [] = tt
keys_contained (e ∷ r) = (
  rw (text_eq_refl e.0) refl,
  All-map_elements _ _ (λ y h. ground (arith, h)) r (keys_contained r),
)

stop_vanished-All :
    (P : Text → Type 0) (ready : List Text) (r : Registry)
    → All (λ e. P e.0) r
    → All (λ e. P e.0) (stop_vanished ready r)
unfolding stop_vanished
stop_vanished-All P ready [] h = tt
stop_vanished-All P ready (e ∷ r) h = elim (Bool-cases (member e.0 ready)) [
  | inl there ↦ rw there (h.0, stop_vanished-All P ready r h.1)
  | inr gone ↦ rw gone (h.0, stop_vanished-All P ready r h.1)
]

candidates-debounced :
    (args : SpawnArgs) (now : ℕ) (d : Daemon)
    → args.once ≡ false
    → All (λ x. debounced now d.seen_ready_at x ≡ true) (candidates args now d).0
unfolding candidates
candidates-debounced args now d many = simp many (
    All-keep_if (λ x. debounced now d.seen_ready_at x ≡ true)
      (λ x. cooled_down now (lookup x.serial d.cooldowns))
      (keep_if (debounced now d.seen_ready_at)
        (keep_if (λ x. not (contains_key x.serial d.registry)) (keep_if is_ready d.devices)))
      (keep_if_passes (debounced now d.seen_ready_at)
        (keep_if (λ x. not (contains_key x.serial d.registry)) (keep_if is_ready d.devices))))

reconcile-Waited :
    (args : SpawnArgs) (tick : Tick) (d : Daemon)
    → args.once ≡ false
    → All (Waited tick.now d) (reconcile args tick d).registry
unfolding reconcile announce_idle debounced
reconcile-Waited args tick d many =
    start_all-keeps args tick (All (Waited tick.now d))
      (λ x. old_enough tick.now (lookup x.serial d.seen_ready_at) ≡ true)
      (λ thread x r s config q new e p. (inr q, All-keep_if _ _ r p)) _ _
      (All-map_elements _ _ (λ x h. track_ready-old tick.now x.serial _ d.seen_ready_at h) _
        (candidates-debounced args tick.now _ many))
      (stop_vanished-All
        (λ k.
          (contains_key k d.registry ≡ true)
          ⊎ (old_enough tick.now (lookup k d.seen_ready_at) ≡ true))
        _ d.registry (All-map_elements _ _ (λ e h. inl h) d.registry (keys_contained d.registry)))

on_update-Waited :
    (args : SpawnArgs) (tick : Tick) (u : Update) (d : Daemon)
    → args.once ≡ false
    → All (Waited tick.now d) (on_update args tick u d).registry
unfolding on_update
on_update-Waited args tick (listed devices) d many = reconcile-Waited args tick _ many
on_update-Waited args tick timed_out d many = reconcile-Waited args tick d many
on_update-Waited args tick lost d many =
    All-map_elements _ _ (λ e h. inl h) d.registry (keys_contained d.registry)

-- Without `--once`, every session after an iteration either survived its reaping, or is for a device
-- that an earlier iteration had noted as ready at least 600 ms before this one.
pub iterate-Waited :
    (args : SpawnArgs) (tick : Tick) (d next : Daemon)
    → args.once ≡ false
    → iterate args tick d ≡ continue next
    → All (Waited tick.now (reap tick d)) next.registry
unfolding iterate
iterate-Waited args tick d next many h =
    let e : on_update args tick tick.update (reap tick d) ≡ next = ground (arith, many, h) in
    subst (λ u. All (Waited tick.now (reap tick d)) u.registry) e
      (on_update-Waited args tick tick.update (reap tick d) many)
