-- ===== src/Base/Result.antt =====
-- `Result<T, E>` with `?` as bind; a panic of the source is an error value of its own.
use mathlib.Core.Path.{◌≡◌, refl, ap}
use mathlib.Core.Bool.{Bool, true, false}

pub data Result {ℓ} (E : Type 0) (A : Type ℓ) : Type ℓ where
  ok : A → Result E A
  err : E → Result E A

-- `if !test { bail!(e) }`
abbrev pub guard : {E : Type 0} → Bool → E → Result E (Unit {0})
guard false failure = err failure
guard true failure = ok tt

module _ {ℓ κ} {E : Type 0} {A : Type ℓ} {B : Type κ} where
  infixl 5 ◌>>=◌
  abbrev pub ◌>>=◌ : Result E A → (A → Result E B) → Result E B
  err failure >>= next = err failure
  ok value >>= next = next value

  -- Inversion of a successful bind.
  pub >>=-eq-ok :
      (first : Result E A) (next : A → Result E B) {b : B}
      → (first >>= next) ≡ ok b
      → (a : A) × (first ≡ ok a) × (next a ≡ ok b)
  >>=-eq-ok (err failure) next h = cc
  >>=-eq-ok (ok value) next h = (value, refl, h)

module _ {ℓ} {E : Type 0} {A : Type ℓ} where
  infixl 5 ◌>>◌
  abbrev pub ◌>>◌ : Result E (Unit {0}) → Result E A → Result E A
  first >> second = first >>= λ _. second

  -- A guard that was passed.
  pub guard_passed :
      (test : Bool) (failure : E) (rest : Result E A) (a : A)
      → (guard test failure >> rest) ≡ ok a
      → (test ≡ true) × (rest ≡ ok a)
  guard_passed true failure rest a h = (refl, h)
  guard_passed false failure rest a h = cc

abbrev unwrap_or {ℓ} : {E : Type 0} {A : Type ℓ} → A → Result E A → A
unwrap_or default (ok a) = a
unwrap_or default (err e) = default

-- Results that agree carry values that agree.
pub ok_injective {ℓ} : (E : Type 0) {A : Type ℓ} (a b : A) → Path (Result E A) (ok a) (ok b) → a ≡ b
ok_injective E a b h = ap (unwrap_or a) h

-- What holds of the value, if there is one.
abbrev pub OkHas {ℓ} : {E : Type 0} {A : Type ℓ} → (A → Type 0) → Result E A → Type 0
OkHas P (ok a) = P a
OkHas P (err e) = Unit {0}

pub >>=-OkHas {ℓ κ} :
    {E : Type 0} {A : Type ℓ} {B : Type κ} (P : B → Type 0) (first : Result E A)
    (next : A → Result E B)
    → ((a : A) → OkHas P (next a))
    → OkHas P (first >>= next)
>>=-OkHas P (ok a) next each = each a
>>=-OkHas P (err e) next each = tt

pub >>=-OkHas_from {ℓ κ} :
    {E : Type 0} {A : Type ℓ} {B : Type κ} (Q : A → Type 0) (P : B → Type 0) (first : Result E A)
    (next : A → Result E B)
    → OkHas Q first
    → ((a : A) → Q a → OkHas P (next a))
    → OkHas P (first >>= next)
>>=-OkHas_from Q P (ok a) next holds each = each a holds
>>=-OkHas_from Q P (err e) next holds each = tt
