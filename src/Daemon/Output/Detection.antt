-- ===== src/Daemon/Output/Detection.antt =====
-- crates/daemon/src/output.rs: which compositor is detected.
use moreland_kde.Base.{◌≡◌, refl, ◌⊎◌, inl, inr, true, false, List, [], ◌∷◌, ◌++◌, Bool-cases, All}
use moreland_kde.Daemon.Output.{
  World, Compositor, hyprland, sway, labwc, kwin, unsupported, Command, marked, confirmation, is_ok,
  detect_among, detect,
}

-- Asked at its turn, the compositor is marked in the environment and answers.
abbrev pub IsLive : World → List Command → Compositor → Type 0
IsLive w log c = (marked w c ≡ true) × (is_ok (w.answer log (confirmation c)) ≡ true)

-- It is not marked, or marked and does not answer.
abbrev pub IsPassed : World → List Command → Compositor → Type 0
IsPassed w log c = (marked w c ≡ false) ⊎ (is_ok (w.answer log (confirmation c)) ≡ false)

-- How the candidates are gone through, with the commands run so far: the ones passed over, and the
-- one that is taken, if there is one.
pub data Search (w : World)
    : List Compositor → List Command → Compositor × List Command → Type 0 where
  nobody : {log : List Command} → Search w [] log (unsupported, log)
  unmarked :
      {c : Compositor} {cs : List Compositor} {log : List Command} {r : Compositor × List Command}
      → marked w c ≡ false
      → Search w cs log r
      → Search w (c ∷ cs) log r
  silent :
      {c : Compositor} {cs : List Compositor} {log : List Command} {r : Compositor × List Command}
      → marked w c ≡ true
      → is_ok (w.answer log (confirmation c)) ≡ false
      → Search w cs (log ++ (confirmation c ∷ [])) r
      → Search w (c ∷ cs) log r
  taken :
      {c : Compositor} {cs : List Compositor} {log : List Command}
      → marked w c ≡ true
      → is_ok (w.answer log (confirmation c)) ≡ true
      → Search w (c ∷ cs) log (c, log ++ (confirmation c ∷ []))

detect_among-Search :
    (w : World) (cs : List Compositor) (log : List Command)
    → Search w cs log (detect_among w cs log)
unfolding detect_among
detect_among-Search w [] log = nobody
detect_among-Search w (c ∷ cs) log = elim (Bool-cases (marked w c)) [
  | inl m ↦ elim (Bool-cases (is_ok (w.answer log (confirmation c)))) [
    | inl a ↦ rw (m, a) (taken m a)
    | inr a ↦ rw (m, a) (silent m a (detect_among-Search w cs (log ++ (confirmation c ∷ []))))
  ]
  | inr m ↦ rw (m) (unmarked m (detect_among-Search w cs log))
]

-- The compositor was confirmed by the last command that was run, or there is none: each candidate
-- was, at its turn, unmarked or silent.
abbrev pub IsFound : World → List Compositor → Compositor × List Command → Type 0
IsFound w cs r =
    ((before : List Command) × (IsLive w before r.0) × (r.1 ≡ before ++ (confirmation r.0 ∷ [])))
    ⊎ ((r.0 ≡ unsupported) × All (λ c. (before : List Command) × IsPassed w before c) cs)

passed_on :
    (w : World) (c : Compositor) (cs : List Compositor) (before : List Command)
    (r : Compositor × List Command)
    → IsPassed w before c
    → IsFound w cs r
    → IsFound w (c ∷ cs) r
passed_on w c cs before r passed (inl live) = inl live
passed_on w c cs before r passed (inr (none_live, rest)) = inr (none_live, ((before, passed), rest))

Search-IsFound :
    (w : World) (cs : List Compositor) (log : List Command) (r : Compositor × List Command)
    → Search w cs log r
    → IsFound w cs r
Search-IsFound w [] log r nobody = inr (refl, tt)
Search-IsFound w (c ∷ cs) log r (unmarked m s) =
    passed_on w c cs log r (inl m) (Search-IsFound w cs log r s)
Search-IsFound w (c ∷ cs) log r (silent m a s) =
    passed_on w c cs log r (inr a) (Search-IsFound w cs (log ++ (confirmation c ∷ [])) r s)
Search-IsFound w (c ∷ cs) log r (taken m a) = inl (log, (m, a), refl)

-- A compositor is reported only if the environment names it and the last command that was run, its
-- own round trip, succeeded: a mark left over from an earlier session is not enough. Otherwise none
-- is supported, and each of the four was unmarked or did not answer at its turn.
pub detect-IsFound :
    (w : World) (log : List Command)
    → IsFound w (hyprland ∷ sway ∷ labwc ∷ kwin ∷ []) (detect w log)
unfolding detect
detect-IsFound w log =
    Search-IsFound w (hyprland ∷ sway ∷ labwc ∷ kwin ∷ []) log (detect w log)
      (detect_among-Search w (hyprland ∷ sway ∷ labwc ∷ kwin ∷ []) log)
