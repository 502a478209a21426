-- ===== src/Capture/Formats.antt =====
-- crates/capture/src/session.rs: the choice of a pixel format and of modifiers; fourcc codes.
pub mod Choice
use moreland_kde.Base.{
  ℕ, zero, suc, ◌+◌, ◌-◌, ◌*◌, ◌/◌, ◌%◌, ◌^◌, ◌≤◌, ◌<◌, min, max, bit_and, bit_or, ◌≡◌, refl, sym,
  ap, subst, ◌∙◌, ◌≢◌, ◌↔◌, ◌⊎◌, inl, inr, Bool, true, false, not, ◌&&◌, ◌||◌, Option, none, some,
  List, [], ◌∷◌, ◌++◌, map, arith, ltb, leb, ◌==◌, if◌then◌else◌, ltb→lt, lt→ltb, leb→le, le→leb,
  ==_iff, ==_refl, tests, Bool-cases, Option-cases, length, get_elem?, take, drop, replicate,
  keep_if, any, find_first, flatten, All, length-append, take-append-drop, length-take, length-drop,
  length-replicate, take_all, drop_all, All-append,
}
use moreland_kde.Base.Result.{Result, ok, err, ◌>>=◌, ◌>>◌, guard, >>=-eq-ok, guard_passed}
use moreland_kde.Base.Text.{
  Text, text, text_eq, text_eq_iff, text_eq_refl, is_whitespace, is_digit, is_upper, is_lower,
  is_ascii_alphanumeric, lower_char, to_ascii_lowercase, is_empty, starts_with, contains,
  strip_prefix, trim_start, trim_end, trim, push_front, starts_newline, lines, starts_word,
  split_whitespace, split_once, until, second_piece, parse_digits, parse_nonempty, parse_unsigned,
  u8_max, u16_max, u32_max,
}
use moreland_kde.Capture.Constraints.{from_ne_bytes}
use moreland_kde.Capture.Failure.{Failure, no_shm_format, no_dmabuf_format, no_shared_modifier}

-- The numbers of `wl_shm::Format`.
abbrev pub argb8888 : ℕ
argb8888 = 0

abbrev pub xrgb8888 : ℕ
xrgb8888 = 1

-- `u32::from_le_bytes`
unfoldable pub fourcc : List ℕ → ℕ
fourcc [] = 0
fourcc (b ∷ bs) = b + 256 * fourcc bs

abbrev pub xr24 : ℕ
xr24 = 0x34325258

abbrev pub ar24 : ℕ
ar24 = 0x34325241

-- `slice::contains`
abbrev pub has : ℕ → List ℕ → Bool
has x xs = any (λ y. y == x) xs

abbrev pub shm_among : List ℕ → List ℕ → Result Failure ℕ
shm_among [] formats = err no_shm_format
shm_among (wanted ∷ rest) formats =
    let later = shm_among rest formats in if has wanted formats then ok wanted else later

unfoldable pub pick_shm_format : List ℕ → Result Failure ℕ
pick_shm_format formats = shm_among (xrgb8888 ∷ argb8888 ∷ []) formats

abbrev pub one_shared : ℕ → Option ℕ → Result Failure (ℕ × List ℕ) → Result Failure (ℕ × List ℕ)
one_shared code none later = later
one_shared code (some m) later = ok (code, m ∷ [])

-- What follows when the format's modifiers are `offered` and the consumer's first that is among
-- them is `shared`.
abbrev pub take_format :
    Option (ℕ × List ℕ) → List ℕ → Result Failure (ℕ × List ℕ) → Result Failure (ℕ × List ℕ)
take_format none allowed later = later
take_format (some (code, offered)) [] later = ok (code, offered)
take_format (some (code, offered)) (a ∷ allowed) later =
    one_shared code (find_first (λ m. has m offered) (a ∷ allowed)) later

abbrev pub none_picked : List ℕ → Failure
none_picked [] = no_dmabuf_format
none_picked (a ∷ allowed) = no_shared_modifier

abbrev pub offered_as : ℕ → List (ℕ × List ℕ) → Option (ℕ × List ℕ)
offered_as wanted formats = find_first (λ f. f.0 == wanted) formats

abbrev pub dmabuf_among : List ℕ → List (ℕ × List ℕ) → List ℕ → Result Failure (ℕ × List ℕ)
dmabuf_among [] formats allowed = err (none_picked allowed)
dmabuf_among (wanted ∷ rest) formats allowed =
    take_format (offered_as wanted formats) allowed (dmabuf_among rest formats allowed)

unfoldable pub pick_dmabuf_format : List (ℕ × List ℕ) → List ℕ → Result Failure (ℕ × List ℕ)
pick_dmabuf_format formats allowed = dmabuf_among (xr24 ∷ ar24 ∷ []) formats allowed

xr24_lem : fourcc (text "XR24") ≡ xr24
unfolding fourcc
xr24_lem = refl

ar24_lem : fourcc (text "AR24") ≡ ar24
unfolding fourcc
ar24_lem = refl
