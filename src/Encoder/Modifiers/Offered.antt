-- ===== src/Encoder/Modifiers/Offered.antt =====
-- crates/encoder/src/lib.rs: which modifiers the encoder is said to support.
use moreland_kde.Base.{
  ℕ, ◌≡◌, refl, sym, ap, subst, ◌∙◌, inl, inr, Bool, true, false, ◌||◌, Option, none, some, List,
  [], ◌∷◌, ◌++◌, ◌==◌, if◌then◌else◌, ==_iff, Bool-cases, any,
}
use moreland_kde.Base.Text.{Text}
use moreland_kde.Encoder.Modifiers.Distinct.{
  or_assoc, any-append, NoRepeat, NoRepeat-push_new, NoRepeat-probed,
}
use moreland_kde.Encoder.Modifiers.{
  Value, Values, string_value, list_value, other_value, no_values, value_and, Template, Registry,
  has, push_new, parse_drm_format, collect_modifiers, collect_all, collect_structures,
  collect_templates, probed, with_linear, fourcc_name, supported_modifiers,
}

-- The strings in a value.
abbrev mutual
  pub strings : Value → List Text
  strings (string_value s) = s ∷ []
  strings (list_value vs) = strings_of_all vs
  strings other_value = []

  pub strings_of_all : Values → List Text
  strings_of_all no_values = []
  strings_of_all (value_and v vs) = strings v ++ strings_of_all vs

abbrev pub strings_of_structures : List (Option Value) → List Text
strings_of_structures [] = []
strings_of_structures (none ∷ vs) = strings_of_structures vs
strings_of_structures (some v ∷ vs) = strings v ++ strings_of_structures vs

-- The strings that the sink pads of the importer offer.
abbrev pub strings_of_templates : List Template → List Text
strings_of_templates [] = []
strings_of_templates (t ∷ ts) =
    (if t.is_sink then strings_of_structures t.drm_formats else []) ++ strings_of_templates ts

abbrev pub offered : Registry → List Text
offered g = elim g.vapostproc [
  | none ↦ []
  | some ts ↦ if g.initialises then strings_of_templates ts else []
]

abbrev pub is_that : ℕ → Option ℕ → Bool
is_that m none = false
is_that m (some k) = k == m

-- One of the strings names the format with the modifier.
abbrev pub names : Text → ℕ → List Text → Bool
names wanted m ss = any (λ s. is_that m (parse_drm_format s wanted)) ss

or_false : (a : Bool) → a || false ≡ a
or_false true = refl
or_false false = refl

-- A modifier that is there already adds nothing.
or_absorbed : (a b : Bool) → (b ≡ true → a ≡ true) → a ≡ a || b
or_absorbed true b h = refl
or_absorbed false true h = h refl
or_absorbed false false h = refl

has-push_new :
    (m : ℕ) (out : List ℕ) (o : Option ℕ) → has m (push_new out o) ≡ has m out || is_that m o
has-push_new m out none = sym (or_false (has m out))
has-push_new m out (some k) = elim (Bool-cases (has k out)) [
  | inl there ↦ rw (there) (
      or_absorbed (has m out) (k == m)
        (λ same. subst (λ x. has x out ≡ true) ((==_iff k m).0 same) there))
  | inr absent ↦
      rw (absent)
        (any-append (λ y. y == m) out (k ∷ []) ∙ ap (λ b. has m out || b) (or_false (k == m)))
]

mutual
  has-collect_modifiers :
      (m : ℕ) (wanted : Text) (v : Value) (out : List ℕ)
      → has m (collect_modifiers wanted v out) ≡ has m out || names wanted m (strings v)
  has-collect_modifiers m wanted (string_value s) out =
      has-push_new m out (parse_drm_format s wanted)
      ∙ ap (λ b. has m out || b) (sym (or_false (is_that m (parse_drm_format s wanted))))
  has-collect_modifiers m wanted (list_value vs) out = has-collect_all m wanted vs out
  has-collect_modifiers m wanted other_value out = sym (or_false (has m out))

  has-collect_all :
      (m : ℕ) (wanted : Text) (vs : Values) (out : List ℕ)
      → has m (collect_all wanted vs out) ≡ has m out || names wanted m (strings_of_all vs)
  has-collect_all m wanted no_values out = sym (or_false (has m out))
  has-collect_all m wanted (value_and v vs) out =
      has-collect_all m wanted vs (collect_modifiers wanted v out)
      ∙ ap (λ b. b || names wanted m (strings_of_all vs)) (has-collect_modifiers m wanted v out)
      ∙ or_assoc (has m out) (names wanted m (strings v)) (names wanted m (strings_of_all vs))
      ∙ ap (λ b. has m out || b)
          (sym (
            any-append (λ s. is_that m (parse_drm_format s wanted)) (strings v)
              (strings_of_all vs)))

-- One more group of strings.
joined :
    (m : ℕ) (wanted : Text) (before : Bool) (ss ts : List Text)
    → before || names wanted m ss || names wanted m ts ≡ before || names wanted m (ss ++ ts)
joined m wanted before ss ts =
    or_assoc before (names wanted m ss) (names wanted m ts)
    ∙ ap (λ b. before || b) (sym (any-append (λ s. is_that m (parse_drm_format s wanted)) ss ts))

has-collect_structures :
    (m : ℕ) (wanted : Text) (vs : List (Option Value)) (out : List ℕ)
    → has m (collect_structures wanted vs out)
      ≡ has m out || names wanted m (strings_of_structures vs)
has-collect_structures m wanted [] out = sym (or_false (has m out))
has-collect_structures m wanted (none ∷ vs) out = has-collect_structures m wanted vs out
has-collect_structures m wanted (some v ∷ vs) out =
    has-collect_structures m wanted vs (collect_modifiers wanted v out)
    ∙ ap (λ b. b || names wanted m (strings_of_structures vs))
        (has-collect_modifiers m wanted v out)
    ∙ joined m wanted (has m out) (strings v) (strings_of_structures vs)

has-collect_templates :
    (m : ℕ) (wanted : Text) (ts : List Template) (out : List ℕ)
    → has m (collect_templates wanted ts out)
      ≡ has m out || names wanted m (strings_of_templates ts)
has-collect_templates m wanted [] out = sym (or_false (has m out))
has-collect_templates m wanted (t ∷ ts) out = elim (Bool-cases t.is_sink) [
  | inl sink ↦ rw (sink) (
      has-collect_templates m wanted ts (collect_structures wanted t.drm_formats out)
      ∙ ap (λ b. b || names wanted m (strings_of_templates ts))
          (has-collect_structures m wanted t.drm_formats out)
      ∙ joined m wanted (has m out) (strings_of_structures t.drm_formats) (strings_of_templates ts))
  | inr source ↦ rw (source) (has-collect_templates m wanted ts out)
]

has-probed :
    (m : ℕ) (wanted : Text) (g : Registry) (found : Option (List Template)) (works : Bool)
    → has m (probed wanted works found)
      ≡ names wanted m
          (elim found [ none ↦ [] | some ts ↦ if works then strings_of_templates ts else [] ])
has-probed m wanted g (some ts) true = has-collect_templates m wanted ts []
has-probed m wanted g (some ts) false = refl
has-probed m wanted g none true = refl
has-probed m wanted g none false = refl

has-with_linear : (m : ℕ) (ms : List ℕ) → has m (with_linear ms) ≡ has m ms || 0 == m
has-with_linear m ms = has-push_new m ms (some 0)

-- A modifier is among the supported ones exactly if it is the linear one or one of the strings that
-- the importer's sink pads offer names the format with it; and none is listed twice.
pub supported_modifiers_lem :
    (lossy : List ℕ → Text) (g : Registry) (code m : ℕ)
    → (has m (supported_modifiers lossy g code)
        ≡ names (fourcc_name lossy code) m (offered g) || 0 == m)
      × NoRepeat (supported_modifiers lossy g code)
unfolding supported_modifiers
supported_modifiers_lem lossy g code m =
    let wanted : Text = fourcc_name lossy code in
    let found : List ℕ = probed wanted g.initialises g.vapostproc in
    (
      has-with_linear m found
          ∙ ap (λ b. b || 0 == m) (has-probed m wanted g g.vapostproc g.initialises),
      NoRepeat-push_new found (some 0) (NoRepeat-probed wanted g.initialises g.vapostproc),
    )
