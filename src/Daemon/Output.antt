-- ===== src/Daemon/Output.antt =====
-- crates/daemon/src/output.rs: which compositor runs, and the virtual output on it. A program that is
-- run is answered by a `World`, which may look at the commands before it.
pub mod Lua
pub mod Monitors
pub mod Detection
pub mod Lifecycle
pub mod Scenarios
use moreland_kde.Base.{
  ℕ, zero, suc, ◌+◌, ◌-◌, ◌*◌, ◌/◌, ◌%◌, ◌^◌, ◌≤◌, ◌<◌, min, max, bit_and, bit_or, ◌≡◌, refl, sym,
  ap, subst, ◌∙◌, ◌≢◌, ◌↔◌, ◌⊎◌, inl, inr, Bool, true, false, not, ◌&&◌, ◌||◌, Option, none, some,
  List, [], ◌∷◌, ◌++◌, map, arith, ltb, leb, ◌==◌, if◌then◌else◌, ltb→lt, lt→ltb, leb→le, le→leb,
  ==_iff, ==_refl, tests, Bool-cases, Option-cases, length, get_elem?, take, drop, replicate,
  keep_if, any, find_first, flatten, All, length-append, take-append-drop, length-take, length-drop,
  length-replicate, take_all, drop_all, All-append,
}
use moreland_kde.Base.Result.{Result, ok, err, ◌>>=◌, ◌>>◌, guard, >>=-eq-ok, guard_passed}
use moreland_kde.Base.Text.{
  Text, text, text_eq, text_eq_iff, text_eq_refl, is_whitespace, is_digit, is_upper, is_lower,
  is_ascii_alphanumeric, lower_char, to_ascii_lowercase, is_empty, starts_with, contains,
  strip_prefix, trim_start, trim_end, trim, push_front, starts_newline, lines, starts_word,
  split_whitespace, split_once, until, second_piece, parse_digits, parse_nonempty, parse_unsigned,
  u8_max, u16_max, u32_max,
}

pub data Compositor : Type 0 where
  hyprland sway labwc kwin unsupported : Compositor

-- A program and its arguments.
abbrev pub Command : Type 0
Command = Text × List Text

pub data OutputError : Type 0 where
  not_run exit_failure : Command → OutputError
  not_json not_an_array : OutputError
  missing out_of_range : Text → OutputError
  sway_unsupported without_plasma unsupported_compositor : OutputError
  no_labwc_output plasma_failed : OutputError

-- What the system answers: a variable of the environment, and of a command, after those before it,
-- its standard output, if it was run and exited with success.
pub record World : Type 0 where
  pub variable : Text → Option Text
  pub answer : List Command → Command → Result OutputError Text
  pub plasma_feature : Bool

-- An outcome, with the commands that were run up to there.
abbrev pub Ran : Type 0 → Type 0
Ran A = Result OutputError A × List Command

abbrev pub after : {A B : Type 0} → Ran A → (A → List Command → Ran B) → Ran B
after (err e, log) next = (err e, log)
after (ok a, log) next = next a log

unfoldable pub run : World → Command → List Command → Ran Text
run w cmd log = (w.answer log cmd, log ++ (cmd ∷ []))

-- `eq_ignore_ascii_case`
abbrev pub same_name : Text → Text → Bool
same_name a b = text_eq (to_ascii_lowercase a) (to_ascii_lowercase b)

-- `split(':')`
abbrev pub pieces : ℕ → Text → List Text
pieces sep [] = [] ∷ []
pieces sep (c ∷ s) = let rest = pieces sep s in if c == sep then [] ∷ rest else push_front c rest

abbrev pub is_set : Option Text → Bool
is_set none = false
is_set (some v) = true

abbrev pub or_empty : Option Text → Text
or_empty none = []
or_empty (some v) = v

unfoldable pub desktop : World → Text
desktop w = or_empty (w.variable (text "XDG_CURRENT_DESKTOP"))

-- The marks of each compositor in the environment.
abbrev pub marked : World → Compositor → Bool
marked w hyprland =
    is_set (w.variable (text "HYPRLAND_INSTANCE_SIGNATURE"))
    || same_name (desktop w) (text "Hyprland")
marked w sway = is_set (w.variable (text "SWAYSOCK")) || same_name (desktop w) (text "sway")
marked w labwc = same_name (desktop w) (text "labwc") || same_name (desktop w) (text "wlroots")
marked w kwin =
    any (λ p. same_name p (text "KDE")) (pieces b':' (desktop w))
    || is_set (w.variable (text "KDE_FULL_SESSION"))
marked w unsupported = true

-- The round trips that confirm a mark.
abbrev pub confirmation : Compositor → Command
confirmation hyprland = (text "hyprctl", text "version" ∷ [])
confirmation sway = (text "swaymsg", text "-t" ∷ text "get_version" ∷ [])
confirmation labwc = (text "wlr-randr", [])
confirmation kwin = (text "kscreen-doctor", text "-o" ∷ [])
confirmation unsupported = ([], [])

abbrev pub is_ok : {A : Type 0} → Result OutputError A → Bool
is_ok (ok a) = true
is_ok (err e) = false

-- The candidates in turn: only a marked one is asked, and the first that answers is it.
unfoldable pub detect_among : World → List Compositor → List Command → Compositor × List Command
detect_among w [] log = (unsupported, log)
detect_among w (c ∷ cs) log =
    let unmarked = detect_among w cs log in
    let silent = detect_among w cs (log ++ (confirmation c ∷ [])) in
    if marked w c
    then (if is_ok (w.answer log (confirmation c))
        then (c, log ++ (confirmation c ∷ []))
        else silent)
    else unmarked

unfoldable pub detect : World → List Command → Compositor × List Command
detect w log = detect_among w (hyprland ∷ sway ∷ labwc ∷ kwin ∷ []) log

-- `Compositor::name`
unfoldable pub compositor_name : Compositor → Text
compositor_name hyprland = text "Hyprland"
compositor_name sway = text "Sway"
compositor_name labwc = text "labwc"
compositor_name kwin = text "KWin"
compositor_name unsupported = text "unsupported"

unfoldable pub ensure_supported : World → Compositor → Result OutputError (Unit {0})
ensure_supported w hyprland = ok tt
ensure_supported w sway = err sway_unsupported
ensure_supported w labwc = ok tt
ensure_supported w kwin = guard w.plasma_feature without_plasma
ensure_supported w unsupported = err unsupported_compositor

abbrev pub first_word_is : Text → List Text → Bool
first_word_is name [] = false
first_word_is name (w ∷ ws) = text_eq w name

abbrev pub lists_output : Text → Result OutputError Text → Bool
lists_output name (ok out) = any (λ line. first_word_is name (split_whitespace line)) (lines out)
lists_output name (err e) = false

unfoldable pub labwc_output_exists : World → Text → List Command → Bool × List Command
labwc_output_exists w name log =
    let listing = run w (text "wlr-randr", []) log in (lists_output name listing.0, listing.1)
