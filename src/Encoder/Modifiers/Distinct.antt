-- ===== src/Encoder/Modifiers/Distinct.antt =====
-- crates/encoder/src/lib.rs: no modifier is collected twice.
use moreland_kde.Base.{
  ℕ, ◌≡◌, refl, sym, ap, ◌∙◌, inl, inr, Bool, true, false, ◌||◌, Option, none, some, List, [], ◌∷◌,
  ◌++◌, arith, ◌==◌, Bool-cases, any,
}
use moreland_kde.Base.Text.{Text}
use moreland_kde.Encoder.Modifiers.{
  Value, Values, string_value, list_value, other_value, no_values, value_and, Template, has,
  push_new, parse_drm_format, collect_modifiers, collect_all, collect_structures, collect_templates,
  probed,
}

pub or_assoc : (a b c : Bool) → (a || b) || c ≡ a || (b || c)
or_assoc true b c = refl
or_assoc false b c = refl

pub any-append {ℓ} :
    {A : Type ℓ} (p : A → Bool) (xs ys : List A) → any p (xs ++ ys) ≡ any p xs || any p ys
any-append p [] ys = refl
any-append p (x ∷ xs) ys =
    ap (λ b. p x || b) (any-append p xs ys) ∙ sym (or_assoc (p x) (any p xs) (any p ys))

-- No number stands twice.
abbrev pub NoRepeat : List ℕ → Type 0
NoRepeat [] = Unit {0}
NoRepeat (x ∷ xs) = (has x xs ≡ false) × NoRepeat xs

neither : (a b : Bool) → a || b ≡ false → (a ≡ false) × (b ≡ false)
neither true b h = absurd (cc)
neither false b h = (refl, h)

differs : (x m : ℕ) (xs : List ℕ) → has m (x ∷ xs) ≡ false → (m == x) ≡ false
differs x m xs h = let unlike : (x == m) ≡ false = (neither (x == m) (has m xs) h).0 in ground arith

later_absent : (x m : ℕ) (xs : List ℕ) → has m (x ∷ xs) ≡ false → has m xs ≡ false
later_absent x m xs h = (neither (x == m) (has m xs) h).1

NoRepeat-append : (m : ℕ) (xs : List ℕ) → NoRepeat xs → has m xs ≡ false → NoRepeat (xs ++ (m ∷ []))
NoRepeat-append m [] distinct absent = (refl, tt)
NoRepeat-append m (x ∷ xs) (head, rest) absent = (
  any-append (λ y. y == x) xs (m ∷ []) ∙ rw (head, differs x m xs absent) refl,
  NoRepeat-append m xs rest (later_absent x m xs absent),
)

pub NoRepeat-push_new : (out : List ℕ) (o : Option ℕ) → NoRepeat out → NoRepeat (push_new out o)
NoRepeat-push_new out none h = h
NoRepeat-push_new out (some m) h = elim (Bool-cases (has m out)) [
  | inl there ↦ rw (there) h
  | inr absent ↦ rw (absent) (NoRepeat-append m out h absent)
]

mutual
  NoRepeat-collect_modifiers :
      (wanted : Text) (v : Value) (out : List ℕ)
      → NoRepeat out
      → NoRepeat (collect_modifiers wanted v out)
  NoRepeat-collect_modifiers wanted (string_value s) out h =
      NoRepeat-push_new out (parse_drm_format s wanted) h
  NoRepeat-collect_modifiers wanted (list_value vs) out h = NoRepeat-collect_all wanted vs out h
  NoRepeat-collect_modifiers wanted other_value out h = h

  NoRepeat-collect_all :
      (wanted : Text) (vs : Values) (out : List ℕ)
      → NoRepeat out
      → NoRepeat (collect_all wanted vs out)
  NoRepeat-collect_all wanted no_values out h = h
  NoRepeat-collect_all wanted (value_and v vs) out h =
      NoRepeat-collect_all wanted vs (collect_modifiers wanted v out)
        (NoRepeat-collect_modifiers wanted v out h)

NoRepeat-collect_structures :
    (wanted : Text) (vs : List (Option Value)) (out : List ℕ)
    → NoRepeat out
    → NoRepeat (collect_structures wanted vs out)
NoRepeat-collect_structures wanted [] out h = h
NoRepeat-collect_structures wanted (none ∷ vs) out h = NoRepeat-collect_structures wanted vs out h
NoRepeat-collect_structures wanted (some v ∷ vs) out h =
    NoRepeat-collect_structures wanted vs (collect_modifiers wanted v out)
      (NoRepeat-collect_modifiers wanted v out h)

NoRepeat-collect_templates :
    (wanted : Text) (ts : List Template) (out : List ℕ)
    → NoRepeat out
    → NoRepeat (collect_templates wanted ts out)
NoRepeat-collect_templates wanted [] out h = h
NoRepeat-collect_templates wanted (t ∷ ts) out h = elim (Bool-cases t.is_sink) [
  | inl sink ↦ rw (sink) (
      NoRepeat-collect_templates wanted ts (collect_structures wanted t.drm_formats out)
        (NoRepeat-collect_structures wanted t.drm_formats out h))
  | inr source ↦ rw (source) (NoRepeat-collect_templates wanted ts out h)
]

pub NoRepeat-probed :
    (wanted : Text) (works : Bool) (found : Option (List Template))
    → NoRepeat (probed wanted works found)
NoRepeat-probed wanted true (some ts) = NoRepeat-collect_templates wanted ts [] tt
NoRepeat-probed wanted true none = tt
NoRepeat-probed wanted false found = tt
