-- ===== src/Base/Table.antt =====
-- Maps from texts, as lists of entries in no order that anything depends on, and distinct values.
use mathlib.Core.Path.{◌≡◌, sym, ◌∙◌}
use mathlib.Core.Logic.{inr, inl, ◌≢◌}
use mathlib.Core.Bool.{Bool, true, false, not}
use mathlib.Core.Option.{Option, none, some}
use mathlib.Core.List.{List, [], ◌∷◌, map}
use native.Mathlib.Omega.{arith}
use moreland_kde.Base.Tests.{if◌then◌else◌, Bool-cases}
use moreland_kde.Base.Lists.{All, any, keep_if}
use moreland_kde.Base.Text.{Text, text_eq}

abbrev pub Table : Type 0 → Type 0
Table V = List (Text × V)

module _ {V : Type 0} where
  abbrev pub lookup : Text → Table V → Option V
  lookup k [] = none
  lookup k (e ∷ t) = let rest = lookup k t in if text_eq e.0 k then some e.1 else rest

  abbrev pub contains_key : Text → Table V → Bool
  contains_key k t = any (λ e. text_eq e.0 k) t

  abbrev pub remove : Text → Table V → Table V
  remove k t = keep_if (λ e. not (text_eq e.0 k)) t

  abbrev pub insert : Text → V → Table V → Table V
  insert k v t = (k, v) ∷ remove k t

  -- What a change does to the value of one key.
  abbrev pub modify : Text → (V → V) → Table V → Table V
  modify k f t = map (λ e. if text_eq e.0 k then (e.0, f e.1) else e) t

module _ {A : Type 0} where
  -- Whether no two elements agree in what `f` reads of them.
  abbrev pub Distinct : {B : Type 0} → (A → B) → List A → Type 0
  Distinct f [] = Unit {0}
  Distinct f (x ∷ xs) = All (λ y. f x ≢ f y) xs × Distinct f xs

  pub All-keep_if : (P : A → Type 0) (p : A → Bool) (xs : List A) → All P xs → All P (keep_if p xs)
  All-keep_if P p [] h = tt
  All-keep_if P p (x ∷ xs) h = elim (Bool-cases (p x)) [
    | inl pass ↦ rw pass (h.0, All-keep_if P p xs h.1)
    | inr fail ↦ rw fail (All-keep_if P p xs h.1)
  ]

  pub All-map_elements :
      (P Q : A → Type 0) → ((x : A) → P x → Q x) → (xs : List A) → All P xs → All Q xs
  All-map_elements P Q f [] h = tt
  All-map_elements P Q f (x ∷ xs) h = (f x h.0, All-map_elements P Q f xs h.1)

  pub Distinct-keep_if :
      {B : Type 0} (f : A → B) (p : A → Bool) (xs : List A)
      → Distinct f xs
      → Distinct f (keep_if p xs)
  Distinct-keep_if f p [] h = tt
  Distinct-keep_if f p (x ∷ xs) h = elim (Bool-cases (p x)) [
    | inl pass ↦ rw pass (All-keep_if _ p xs h.0, Distinct-keep_if f p xs h.1)
    | inr fail ↦ rw fail (Distinct-keep_if f p xs h.1)
  ]

  -- Every element that a filter keeps passes its test.
  pub keep_if_passes : (p : A → Bool) (xs : List A) → All (λ x. p x ≡ true) (keep_if p xs)
  keep_if_passes p [] = tt
  keep_if_passes p (x ∷ xs) = elim (Bool-cases (p x)) [
    | inl pass ↦ rw pass (pass, keep_if_passes p xs)
    | inr fail ↦ rw fail (keep_if_passes p xs)
  ]

  -- A test that no element passes fails on each of them.
  pub none_passes : (p : A → Bool) (xs : List A) → any p xs ≡ false → All (λ x. p x ≡ false) xs
  none_passes p [] h = tt
  none_passes p (x ∷ xs) h = elim (Bool-cases (p x)) [
    | inl pass ↦ absurd (ground (arith, pass, h))
    | inr fail ↦ (fail, none_passes p xs (ground (arith, fail, h)))
  ]

  pub All-map :
      (P Q : A → Type 0) (g : A → A)
      → ((x : A) → P x → Q (g x))
      → (xs : List A) → All P xs
      → All Q (map g xs)
  All-map P Q g f [] h = tt
  All-map P Q g f (x ∷ xs) h = (f x h.0, All-map P Q g f xs h.1)

  -- A change that `f` does not see keeps the elements distinct.
  pub Distinct-map :
      {B : Type 0} (f : A → B) (g : A → A)
      → ((x : A) → f (g x) ≡ f x)
      → (xs : List A) → Distinct f xs
      → Distinct f (map g xs)
  Distinct-map f g same [] h = tt
  Distinct-map f g same (x ∷ xs) h = (
    All-map (λ y. f x ≢ f y) _ g (λ y ne e. ne (sym (same x) ∙ (e ∙ same y))) xs h.0,
    Distinct-map f g same xs h.1,
  )
