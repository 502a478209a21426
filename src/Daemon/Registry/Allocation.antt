-- ===== src/Daemon/Registry/Allocation.antt =====
-- crates/daemon/src/main.rs: the allocators of ports and names, and what they keep distinct.
use moreland_kde.Base.{
  ℕ, zero, suc, ◌+◌, ◌≤◌, ◌<◌, ◌≡◌, sym, ap, subst, ◌∙◌, ◌≢◌, ◌⊎◌, inl, inr, Bool, true, false, not,
  [], ◌∷◌, arith, ltb, ◌==◌, ltb→lt, Bool-cases, length, keep_if, any, All,
}
use moreland_kde.Base.Result.{ok, >>=-eq-ok, guard_passed, ok_injective}
use moreland_kde.Base.Text.{Text, text_eq, text_eq_iff, u16_max}
use moreland_kde.Base.Table.{
  contains_key, remove, insert, Distinct, All-keep_if, All-map_elements, Distinct-keep_if,
  none_passes,
}
use moreland_kde.Protocol.Headers.{port_range}
use moreland_kde.Daemon.Tracker.{Device}
use moreland_kde.Daemon.Registry.{
  Session, Registry, SpawnArgs, SessionConfig, port_taken, name_taken_in, allocate_from,
  allocate_port, resolve_output_name, serial_suffix, dashed, spawn_session, session_config,
}

abbrev AllTaken : ℕ → ℕ → Registry → Type 0
AllTaken low n r = (q : ℕ) → low ≤ q → q < low + n → port_taken q r ≡ true

-- A port from `c` on is taken if `c` is, and every later one up to it.
widen :
    (c q : ℕ) (r : Registry)
    → port_taken c r ≡ true
    → c ≤ q
    → (c + 1 ≤ q → port_taken q r ≡ true)
    → port_taken q r ≡ true
widen c q r first le later = elim (Bool-cases (ltb c q)) [
  | inl lt ↦ later (omega (arith, ltb→lt c q lt))
  | inr ge ↦ subst (λ u. port_taken u r ≡ true) {x = c} {y = q} (ground (arith, ge, le)) first
]

allocate_from_lem :
    (left : ℕ) (r : Registry) (c p : ℕ)
    → allocate_from left r c ≡ ok p
    → (c ≤ p)
      × (p < c + left)
      × (p ≤ u16_max)
      × (port_taken p r ≡ false)
      × ((q : ℕ) → c ≤ q → q < p → port_taken q r ≡ true)
unfolding allocate_from
allocate_from_lem zero r c p h = absurd (cc)
allocate_from_lem (suc left) r c p h = elim (Bool-cases (port_taken c r)) [
  | inr free ↦
      let e : c ≡ p = ground (arith, free, h) in
      (
        omega (arith, e),
        omega (arith, e),
        ground (arith, free, h),
        ap (λ u. port_taken u r) (sym e) ∙ free,
        λ q lo hi. absurd (omega (arith, e, lo, hi)),
      )
  | inl taken ↦
      let (a, b, d, e, f) = allocate_from_lem left r (c + 1) p (ground (arith, taken, h)) in
      (omega (arith, a), omega (arith, b), d, e, λ q lo hi. widen c q r taken lo (λ le. f q le hi))
]

-- A port that is given lies in the range of a hundred ports from the base, is a 16-bit number, no
-- running session has it, and it is the lowest such one: the sessions have every lower port of the
-- range.
pub allocate_port_lem :
    (r : Registry) (base p : ℕ)
    → allocate_port r base ≡ ok p
    → (base ≤ p)
      × (p < base + port_range)
      × (p ≤ u16_max)
      × (port_taken p r ≡ false)
      × ((q : ℕ) → base ≤ q → q < p → port_taken q r ≡ true)
unfolding allocate_port
allocate_port_lem r base p h = allocate_from_lem port_range r base p h

abbrev others : ℕ → Registry → Registry
others p r = keep_if (λ e. not (e.1.port == p)) r

length-others :
    (p : ℕ) (r : Registry)
    → (length (others p r) ≤ length r) × (port_taken p r ≡ true → length (others p r) < length r)
length-others p [] = (omega arith, λ h. absurd (cc))
length-others p (e ∷ r) = let (a, b) = length-others p r in ground (arith, a, b)

port_taken-others :
    (p q : ℕ) (r : Registry) → p < q → port_taken q r ≡ true → port_taken q (others p r) ≡ true
port_taken-others p q [] lt h = h
port_taken-others p q (e ∷ r) lt h = let rest = port_taken-others p q r lt in ground (arith, rest)

-- Sessions are as many as ports that they have.
pigeonhole : (n c : ℕ) (r : Registry) → AllTaken c n r → n ≤ length r
pigeonhole zero c r h = omega arith
pigeonhole (suc n) c r h =
    let fewer = (length-others c r).1 (h c (omega arith) (omega arith)) in
    let rest =
      pigeonhole n (c + 1) (others c r)
        (λ q lo hi. port_taken-others c q r (omega arith) (h q (omega arith) (omega arith))) in
    omega (arith, fewer, rest)

allocate_from_finds :
    (left : ℕ) (r : Registry) (c : ℕ)
    → c + left ≤ 65536
    → AllTaken c left r ⊎ ((p : ℕ) × (allocate_from left r c ≡ ok p))
unfolding allocate_from
allocate_from_finds zero r c fits = inl (λ q lo hi. absurd (omega arith))
allocate_from_finds (suc left) r c fits = elim (Bool-cases (port_taken c r)) [
  | inr free ↦ inr (c, ground (arith, free, fits))
  | inl taken ↦ elim (allocate_from_finds left r (c + 1) (omega arith)) [
    | inl all ↦ inl (λ q lo hi. widen c q r taken lo (λ le. all q le (omega arith)))
    | inr found ↦ inr (found.0, ground (arith, taken, fits, found.1))
  ]
]

-- With fewer than a hundred sessions and a base that leaves room for the range below 65536, a port
-- is given.
allocate_port_works :
    (r : Registry) (base : ℕ)
    → length r < port_range
    → base + port_range ≤ 65536
    → (p : ℕ) × (allocate_port r base ≡ ok p)
unfolding allocate_port
allocate_port_works r base few fits = elim (allocate_from_finds port_range r base fits) [
  | inl all ↦ absurd (omega (arith, few, pigeonhole port_range base r all))
  | inr found ↦ found
]

-- A name that is given is held by no running session. It is the base if that is explicit or free,
-- and otherwise the base with the last characters of the serial, or all of it, behind a dash.
pub resolve_output_name_lem :
    (explicit : Bool) (base serial n : Text) (r : Registry)
    → resolve_output_name explicit base serial r ≡ ok n
    → (name_taken_in n r ≡ false)
      × (explicit ≡ true → n ≡ base)
      × (name_taken_in base r ≡ false → n ≡ base)
      × ((n ≡ base) ⊎ (n ≡ dashed base (serial_suffix serial 4)) ⊎ (n ≡ dashed base serial))
unfolding resolve_output_name
resolve_output_name_lem true base serial n r h =
    let free : name_taken_in base r ≡ false = ground (arith, h) in
    let e : base ≡ n = ground (arith, h) in
    (ap (λ m. name_taken_in m r) (sym e) ∙ free, λ _. sym e, λ _. sym e, inl (sym e))
resolve_output_name_lem false base serial n r h = elim (Bool-cases (name_taken_in base r)) [
  | inr free ↦
      let e : base ≡ n = ground (arith, h, free) in
      (ap (λ m. name_taken_in m r) (sym e) ∙ free, λ _. sym e, λ _. sym e, inl (sym e))
  | inl held ↦ elim (Bool-cases (name_taken_in (dashed base (serial_suffix serial 4)) r)) [
    | inr free ↦
        let e : dashed base (serial_suffix serial 4) ≡ n = ground (arith, h, held, free) in
        (
          ap (λ m. name_taken_in m r) (sym e) ∙ free,
          λ x. absurd (cc),
          λ x. absurd (cc),
          inr (inl (sym e)),
        )
    | inl both ↦
        let free : name_taken_in (dashed base serial) r ≡ false = ground (arith, h, held, both) in
        let e : dashed base serial ≡ n = ground (arith, h, held, both, free) in
        (
          ap (λ m. name_taken_in m r) (sym e) ∙ free,
          λ x. absurd (cc),
          λ x. absurd (cc),
          inr (inr (sym e)),
        )
  ]
]

-- No two sessions share a device, a port or an output name.
pub record Inv (r : Registry) : Type 0 where
  pub serials : Distinct (λ e. e.0) r
  pub ports : Distinct (λ e. e.1.port) r
  pub names : Distinct (λ e. e.1.output_name) r

fresh :
    {B : Type 0} (f : Text × Session → B) (b : B) (p : Text × Session → Bool) (k : Text)
    (r : Registry)
    → ((e : Text × Session) → p e ≡ false → b ≢ f e)
    → any p r ≡ false
    → All (λ e. b ≢ f e) (remove k r)
fresh f b p k r apart free = All-keep_if _ _ r (All-map_elements _ _ apart r (none_passes p r free))

apart_port : (p : ℕ) (e : Text × Session) → (e.1.port == p) ≡ false → p ≢ e.1.port
apart_port p e h same = absurd (ground (arith, h, same))

apart_text : (n m : Text) → text_eq m n ≡ false → n ≢ m
apart_text n m h same = absurd (cc (h, (text_eq_iff m n).1 (sym same)))

-- A session that is entered under a serial, with a port and a name that no session has, keeps the
-- sessions apart.
pub insert-Inv :
    (serial : Text) (s : Session) (r : Registry)
    → contains_key serial r ≡ false
    → port_taken s.port r ≡ false
    → name_taken_in s.output_name r ≡ false
    → Inv r
    → Inv (insert serial s r)
insert-Inv serial s r k p n v = record {
  serials = (
    fresh (λ e. e.0) serial _ serial r (λ e h. apart_text serial e.0 h) k,
    Distinct-keep_if _ _ r v.serials,
  );
  ports = (
    fresh (λ e. e.1.port) s.port _ serial r (λ e h. apart_port s.port e h) p,
    Distinct-keep_if _ _ r v.ports,
  );
  names = (
    fresh (λ e. e.1.output_name) s.output_name _ serial r
        (λ e h. apart_text s.output_name e.1.output_name h) n,
    Distinct-keep_if _ _ r v.names,
  );
}

-- A session that starts for a device without one keeps devices, ports and names distinct, is not
-- told to stop, and is run with the port and the name that are entered for it.
pub spawn_session-Inv :
    (starts : ℕ → Bool) (thread : ℕ) (device : Device) (args : SpawnArgs) (r : Registry)
    (s : Session) (config : SessionConfig)
    → spawn_session starts thread device args r ≡ ok (s, config)
    → contains_key device.serial r ≡ false
    → Inv r
    → Inv (insert device.serial s r)
      × (config.port ≡ s.port)
      × (config.output_name ≡ s.output_name)
      × (s.shutdown ≡ false)
unfolding spawn_session session_config
spawn_session-Inv starts thread device args r s config h new v =
    let (port, port_eq, h') = >>=-eq-ok _ _ h in
    let (name, name_eq, h'') = >>=-eq-ok _ _ h' in
    let given = ok_injective _ _ _ (guard_passed _ _ _ _ h'').1 in
    let port_same : port ≡ s.port = ap (λ x. x.0.port) given in
    let name_same : name ≡ s.output_name = ap (λ x. x.0.output_name) given in
    let (_, _, _, free, _) = allocate_port_lem r args.base_port port port_eq in
    let (apart, _, _, _) =
      resolve_output_name_lem args.explicit_output_name args.output_name device.serial name r
        name_eq in
    (
      insert-Inv device.serial s r new (ap (λ q. port_taken q r) (sym port_same) ∙ free)
          (ap (λ n. name_taken_in n r) (sym name_same) ∙ apart) v,
      sym (ap (λ x. x.1.port) given) ∙ port_same,
      sym (ap (λ x. x.1.output_name) given) ∙ name_same,
      sym (ap (λ x. x.0.shutdown) given),
    )
