-- ===== src/Transport/Adb/Laws.antt =====
-- The streaming resolution of crates/transport/src/adb.rs.
use moreland_kde.Base.{ℕ, ◌+◌, ◌*◌, ◌/◌, ◌%◌, ◌≤◌, ◌<◌, min, max, ◌≡◌, ◌⊎◌, none, some, arith}
use moreland_kde.Base.Result.{ok}
use moreland_kde.Base.Text.{Text, text}
use moreland_kde.Transport.Adb.{align2, stream_resolution, display_size, parse_size}

quotient_le : (w pw ph : ℕ) → w ≤ pw → 0 < pw → w * ph / pw ≤ ph
quotient_le w pw ph h pos = grind arith

-- Both axes of a streaming resolution are even and at least 2; it is at most as large as the panel
-- and no wider than `max_width`, which, like the panel's width, is at least 2. The panel is u32.
pub stream_resolution_bounds :
    (pw ph max_width : ℕ)
    → 2 ≤ pw
    → 2 ≤ max_width
    → ph < 4294967296
    → (w h : ℕ) → stream_resolution (pw, ph) max_width ≡ ok (w, h)
    → (w % 2 ≡ 0) × (h % 2 ≡ 0) × (2 ≤ w) × (2 ≤ h) × (w ≤ pw) × (w ≤ max_width) × (h ≤ max ph 2)
unfolding stream_resolution
stream_resolution_bounds pw ph max_width hp hm hh w h e =
    ground (arith, quotient_le (max (min pw max_width) 2) pw ph (omega arith) (omega arith))

quotient_bounds : (x pw : ℕ) → 0 < pw → (x / pw * pw ≤ x) × (x < (x / pw + 1) * pw)
quotient_bounds x pw pos = grind arith

two_le_quotient : (x pw : ℕ) → 0 < pw → 2 * pw ≤ x → 2 ≤ x / pw
two_le_quotient x pw pos h = grind arith

-- Rounding a quotient down to an even number loses less than 2 of it.
even_cut :
    (q h pw x : ℕ)
    → h ≤ q
    → q ≤ h + 1
    → q * pw ≤ x
    → x < (q + 1) * pw
    → (h * pw ≤ x) × (x < (h + 2) * pw)
even_cut q h pw x lo hi below above = grind arith

resolution_parts :
    (pw ph max_width : ℕ)
    → 2 ≤ pw
    → max (min pw max_width) 2 ≡ min pw max_width
    → 2 ≤ min pw max_width * ph / pw
    → min pw max_width * ph / pw < 4294967296
    → (w h : ℕ) → stream_resolution (pw, ph) max_width ≡ ok (w, h)
    → (w ≡ align2 (min pw max_width)) × (h ≡ align2 (min pw max_width * ph / pw))
unfolding stream_resolution
resolution_parts pw ph max_width hp e2 q2 fits w h e = ground arith

-- The panel's width and `max_width` are at least 2, the panel's height is below 2^32, and that height
-- times the lesser of the two widths, over the panel's width, is at least 2. Then the aspect ratio
-- is kept up to the rounding to even numbers: the width is the panel's or `max_width`, whichever is
-- less, or one below it, and the height is at most the panel's height scaled by the lesser width,
-- and above it less 2.
pub stream_resolution_aspect :
    (pw ph max_width : ℕ)
    → 2 ≤ pw
    → 2 ≤ max_width
    → ph < 4294967296
    → 2 * pw ≤ min pw max_width * ph
    → (w h : ℕ) → stream_resolution (pw, ph) max_width ≡ ok (w, h)
    → (w ≤ min pw max_width)
      × (min pw max_width ≤ w + 1)
      × (h * pw ≤ min pw max_width * ph)
      × (min pw max_width * ph < (h + 2) * pw)
unfolding align2
stream_resolution_aspect pw ph max_width hp hm hh two w h e =
    let width : max (min pw max_width) 2 ≡ min pw max_width = omega arith in
    let x = min pw max_width * ph in
    let (below, above) = quotient_bounds x pw (omega arith) in
    let fits = quotient_le (min pw max_width) pw ph (omega arith) (omega arith) in
    let q2 = two_le_quotient x pw (omega arith) two in
    let (rw_, rh) = resolution_parts pw ph max_width hp width q2 (omega arith) w h e in
    let (lo, hi) = even_cut (x / pw) h pw x (omega arith) (omega arith) below above in
    (omega arith, omega arith, lo, hi)

-- The size that `display_size` reports is landscape and not empty, and the override counts where
-- there is one.
pub display_size_landscape :
    (out : Text) (w h : ℕ)
    → display_size out ≡ ok (w, h)
    → (h ≤ w)
      × (0 < h)
      × (((parse_size out (text "Override size") ≡ some (w, h))
            ⊎ (parse_size out (text "Override size") ≡ some (h, w)))
          ⊎ ((parse_size out (text "Override size") ≡ none)
              × ((parse_size out (text "Physical size") ≡ some (w, h))
                  ⊎ (parse_size out (text "Physical size") ≡ some (h, w)))))
unfolding display_size
display_size_landscape out w h e = ground arith
