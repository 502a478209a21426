-- ===== src/Capture/Formats/Choice.antt =====
-- crates/capture/src/session.rs: which format and modifier the compositor and the consumer agree on.
use moreland_kde.Base.{
  ℕ, ◌≡◌, refl, sym, subst, ◌⊎◌, inl, inr, false, Option, none, some, List, [], ◌∷◌, ◌==◌, ==_iff,
  find_first, All,
}
use moreland_kde.Base.Result.{Result, ok, err}
use moreland_kde.Base.Search.{IsFirst, find_first-some, find_first-none}
use moreland_kde.Capture.Failure.{Failure, no_shared_modifier}
use moreland_kde.Capture.Formats.{
  one_shared, has, take_format, offered_as, dmabuf_among, pick_dmabuf_format, xr24, ar24,
}

-- The compositor's first entry for the fourcc offers a modifier, and `m` is the first of the
-- consumer's list that it offers.
abbrev pub Shares : ℕ → List (ℕ × List ℕ) → List ℕ → ℕ → Type 0
Shares code formats allowed m =
    (offered : List ℕ) × (offered_as code formats ≡ some (code, offered))
    × IsFirst (λ k. has k offered) allowed m

-- Whatever the first entry for the fourcc offers, the consumer takes none of it.
abbrev pub SharesNone : ℕ → List (ℕ × List ℕ) → List ℕ → Type 0
SharesNone code formats allowed =
    (offered : List ℕ)
    → offered_as code formats ≡ some (code, offered)
    → All (λ k. has k offered ≡ false) allowed

abbrev pub IsVerdict : List (ℕ × List ℕ) → List ℕ → Result Failure (ℕ × List ℕ) → Type 0
IsVerdict formats allowed (ok (code, modifiers)) =
    (m : ℕ) × (modifiers ≡ m ∷ [])
    × (((code ≡ xr24) × Shares xr24 formats allowed m)
        ⊎ ((code ≡ ar24) × SharesNone xr24 formats allowed × Shares ar24 formats allowed m))
IsVerdict formats allowed (err e) =
    (e ≡ no_shared_modifier) × SharesNone xr24 formats allowed × SharesNone ar24 formats allowed

offered_code :
    (code : ℕ) (formats : List (ℕ × List ℕ)) (found : ℕ × List ℕ)
    → offered_as code formats ≡ some found
    → found.0 ≡ code
offered_code code formats found h =
    let first : IsFirst (λ f. f.0 == code) formats found =
      find_first-some (λ f. f.0 == code) formats found h in
    (==_iff found.0 code).0 first.3

module _ (allowed : List ℕ) (later : Result Failure (ℕ × List ℕ))
    (P : Result Failure (ℕ × List ℕ) → Type 0) where
  first_shared :
      (code : ℕ) (offered : List ℕ) (o : Option ℕ)
      → find_first (λ k. has k offered) allowed ≡ o
      → ((m : ℕ) → IsFirst (λ k. has k offered) allowed m → P (ok (code, m ∷ [])))
      → (All (λ k. has k offered ≡ false) allowed → P later)
      → P (one_shared code o later)
  first_shared code offered none e shared unshared =
      unshared (find_first-none (λ k. has k offered) allowed e)
  first_shared code offered (some m) e shared unshared =
      shared m (find_first-some (λ k. has k offered) allowed m e)

first_taken :
    (a : ℕ) (allowed : List ℕ) (later : Result Failure (ℕ × List ℕ))
    (P : Result Failure (ℕ × List ℕ) → Type 0) (code : ℕ) (formats : List (ℕ × List ℕ))
    (o : Option (ℕ × List ℕ))
    → offered_as code formats ≡ o
    → ((m : ℕ) → Shares code formats (a ∷ allowed) m → P (ok (code, m ∷ [])))
    → (SharesNone code formats (a ∷ allowed) → P later)
    → P (take_format o (a ∷ allowed) later)
first_taken a allowed later P code formats none e shared unshared =
    unshared (λ offered h. absurd (cc))
first_taken a allowed later P code formats (some (code', offered)) e shared unshared =
    let same : code' ≡ code = offered_code code formats (code', offered) e in
    let here : offered_as code formats ≡ some (code, offered) =
      subst (λ c. offered_as code formats ≡ some (c, offered)) same e in
    first_shared (a ∷ allowed) later P code' offered (find_first (λ k. has k offered) (a ∷ allowed))
      refl (λ m first. subst (λ c. P (ok (c, m ∷ []))) (sym same) (shared m (offered, here, first)))
      (λ none_shared. unshared (λ offered' h.
        let same_offer : offered ≡ offered' = cc in
        subst (λ os. All (λ k. has k os ≡ false) (a ∷ allowed)) same_offer none_shared))

-- The consumer names the modifiers that it takes, in its order of preference. Then the negotiated
-- format is XR24 with the one modifier that is the first of the consumer's list among those that
-- the compositor offers for XR24; or, only if XR24 shares no modifier, AR24 with the first one
-- shared for it; and the failure is that neither shares one.
pub pick_dmabuf_format-restricted :
    (formats : List (ℕ × List ℕ)) (a : ℕ) (allowed : List ℕ)
    → IsVerdict formats (a ∷ allowed) (pick_dmabuf_format formats (a ∷ allowed))
unfolding pick_dmabuf_format
pick_dmabuf_format-restricted formats a allowed =
    let P : Result Failure (ℕ × List ℕ) → Type 0 = IsVerdict formats (a ∷ allowed) in
    first_taken a allowed (dmabuf_among (ar24 ∷ []) formats (a ∷ allowed)) P xr24 formats
      (offered_as xr24 formats) refl (λ m shares. (m, refl, inl (refl, shares)))
      (λ nothing.
        first_taken a allowed (err no_shared_modifier) P ar24 formats (offered_as ar24 formats) refl
          (λ m shares. (m, refl, inr (refl, nothing, shares)))
          (λ nothing'. (refl, nothing, nothing')))
