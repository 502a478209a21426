-- ===== src/Daemon/Output/Monitors/Restoring.antt =====
-- crates/daemon/src/output.rs: the program that restores the monitors.
use moreland_kde.Base.{
  ◌-◌, ◌≡◌, refl, sym, ap, ◌∙◌, inl, inr, Bool, true, false, not, ◌||◌, List, [], ◌∷◌, ◌++◌, map,
  arith, Bool-cases, length, keep_if, length-append, take_all,
}
use mathlib.Core.List.{append_assoc, append-nil}
use moreland_kde.Base.Text.{Text, text_eq, text_eq_refl}
use moreland_kde.Daemon.Output.Monitors.{
  MonitorState, monitor_rule, rules, semicolon, ends_with, drop_last_semicolon,
}

-- The rules of a program of Lua, with a semicolon between two of them.
abbrev pub join : List Text → Text
join [] = []
join (t ∷ []) = t
join (t ∷ u ∷ ts) = t ++ semicolon ++ join (u ∷ ts)

abbrev pub kept : List MonitorState → Text → List MonitorState
kept states excluded = keep_if (λ m. not (text_eq m.name excluded)) states

-- Every rule with its semicolon.
abbrev closed : List Text → Text
closed [] = []
closed (t ∷ ts) = t ++ semicolon ++ closed ts

rules-closed :
    (states : List MonitorState) (excluded : Text)
    → rules states excluded ≡ closed (map monitor_rule (kept states excluded))
unfolding rules
rules-closed [] excluded = refl
rules-closed (m ∷ ms) excluded = elim (Bool-cases (text_eq m.name excluded)) [
  | inl e ↦ rw (e) (rules-closed ms excluded)
  | inr e ↦ rw (e) (ap (λ s. monitor_rule m ++ semicolon ++ s) (rules-closed ms excluded))
]

closed-join : (t : Text) (ts : List Text) → closed (t ∷ ts) ≡ join (t ∷ ts) ++ semicolon
closed-join t [] = append-nil (t ++ semicolon)
closed-join t (u ∷ ts) =
    ap (λ s. t ++ semicolon ++ s) (closed-join u ts)
    ∙ sym (append_assoc (t ++ semicolon) (join (u ∷ ts)) semicolon)

or_true : (b : Bool) → (b || true) ≡ true
or_true true = refl
or_true false = refl

ends_with-append : (s p : Text) → ends_with (s ++ p) p ≡ true
ends_with-append [] [] = refl
ends_with-append [] (c ∷ p) = rw (text_eq_refl (c ∷ p)) refl
ends_with-append (c ∷ s) p = rw (ends_with-append s p) (or_true (text_eq (c ∷ (s ++ p)) p))

drop_last_semicolon-append : (s : Text) → drop_last_semicolon (s ++ semicolon) ≡ s
unfolding drop_last_semicolon
drop_last_semicolon-append s =
    let count : length (s ++ semicolon) - 2 ≡ length s = omega (arith, length-append s semicolon) in
    rw (ends_with-append s semicolon, count) (take_all s semicolon)

drop_last_semicolon-closed : (ts : List Text) → drop_last_semicolon (closed ts) ≡ join ts
unfolding drop_last_semicolon
drop_last_semicolon-closed [] = refl
drop_last_semicolon-closed (t ∷ ts) =
    ap drop_last_semicolon (closed-join t ts) ∙ drop_last_semicolon-append (join (t ∷ ts))

-- The program that restores the monitors has one rule for each monitor but the one with the name of
-- the new output, in the order in which they were read, and a semicolon between two rules.
pub restoring_program :
    (states : List MonitorState) (excluded : Text)
    → drop_last_semicolon (rules states excluded) ≡ join (map monitor_rule (kept states excluded))
restoring_program states excluded =
    ap drop_last_semicolon (rules-closed states excluded)
    ∙ drop_last_semicolon-closed (map monitor_rule (kept states excluded))
