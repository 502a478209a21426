-- ===== src/Base/Search.antt =====
-- What a first match is: it passes, and nothing before it does.
use moreland_kde.Base.Tests.{if◌then◌else◌}
use moreland_kde.Base.Lists.{find_first, All}
use mathlib.Core.Path.{◌≡◌, refl, ap, ◌∙◌, sym}
use mathlib.Core.Bool.{Bool, true, false}
use mathlib.Core.Option.{none, some}
use mathlib.Core.List.{List, [], ◌∷◌, ◌++◌}

module _ {ℓ} {A : Type ℓ} where
  -- `x` is the first element of `xs` that passes `p`.
  abbrev pub IsFirst : (A → Bool) → List A → A → Type ℓ
  IsFirst p xs x =
      (before : List A) × (after : List A) × (xs ≡ before ++ (x ∷ after))
      × (p x ≡ true)
      × All (λ y. p y ≡ false) before

  later :
      (p : A → Bool) (y : A) (ys : List A) (x : A)
      → p y ≡ false
      → IsFirst p ys x
      → IsFirst p (y ∷ ys) x
  later p y ys x e (before, after, split, passes, earlier) =
      (y ∷ before, after, ap (◌∷◌ y) split, passes, (e, earlier))

  found :
      (b : Bool) (p : A → Bool) (y : A) (ys : List A) (x : A)
      → p y ≡ b
      → (find_first p ys ≡ some x → IsFirst p ys x)
      → (if b then some y else find_first p ys) ≡ some x
      → IsFirst p (y ∷ ys) x
  found true p y ys x e ih h =
      let same : y ≡ x = cc in ([], ys, ap (λ z. z ∷ ys) same, ap p (sym same) ∙ e, tt)
  found false p y ys x e ih h = later p y ys x e (ih h)

  pub find_first-some :
      (p : A → Bool) (xs : List A) (x : A) → find_first p xs ≡ some x → IsFirst p xs x
  find_first-some p [] x h = absurd (cc)
  find_first-some p (y ∷ ys) x h = found (p y) p y ys x refl (find_first-some p ys x) h

  missed :
      (b : Bool) (p : A → Bool) (y : A) (ys : List A)
      → p y ≡ b
      → (find_first p ys ≡ none → All (λ z. p z ≡ false) ys)
      → (if b then some y else find_first p ys) ≡ none
      → (p y ≡ false) × All (λ z. p z ≡ false) ys
  missed true p y ys e ih h = absurd (cc)
  missed false p y ys e ih h = (e, ih h)

  pub find_first-none :
      (p : A → Bool) (xs : List A) → find_first p xs ≡ none → All (λ y. p y ≡ false) xs
  find_first-none p [] h = tt
  find_first-none p (y ∷ ys) h = missed (p y) p y ys refl (find_first-none p ys) h
