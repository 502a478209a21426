-- ===== src/Session/Geometry/Orientation.antt =====
-- crates/daemon/src/session.rs: the orientation of the virtual output.
use moreland_kde.Base.{
  ℕ, ◌*◌, ◌/◌, ◌%◌, ◌≤◌, ◌<◌, min, max, ◌≡◌, sym, ap, ◌∙◌, ◌≢◌, ◌⊎◌, none, arith,
}
use moreland_kde.Base.Result.{Result, ok, err, ◌>>=◌, >>=-eq-ok, ok_injective}
use moreland_kde.Base.Text.{Text}
use moreland_kde.Protocol.Control.{ControlMessage, rotation}
use moreland_kde.Transport.Adb.{AdbError, display_size, stream_resolution, align2}
use moreland_kde.Transport.Adb.Laws.{stream_resolution_bounds, display_size_landscape}
use moreland_kde.Session.Geometry.{StartError, sized, checked, landscape_size, rotate, start_size}

scaled_le : (w pw ph : ℕ) → ph ≤ pw → 0 < pw → w * ph / pw ≤ w
scaled_le w pw ph h pos = grind arith

-- The streaming resolution of a landscape panel is landscape.
stream_resolution_landscape :
    (pw ph max_width w h : ℕ)
    → 2 ≤ pw
    → ph ≤ pw
    → 2 ≤ max_width
    → stream_resolution (pw, ph) max_width ≡ ok (w, h)
    → h ≤ w
unfolding stream_resolution align2
stream_resolution_landscape pw ph max_width w h hp le hm e =
    ground (arith, scaled_le (max (min pw max_width) 2) pw ph le (omega arith))

sized_ok : (r : Result AdbError (ℕ × ℕ)) (s : ℕ × ℕ) → sized r ≡ ok s → r ≡ ok s
sized_ok (ok a) s h = ap ok (ok_injective StartError a s h)
sized_ok (err e) s h = absurd (cc)

turned :
    (degrees a b w h : ℕ)
    → (rotate degrees (a, b)).0 ≡ w
    → (rotate degrees (a, b)).1 ≡ h
    → (a % 2 ≡ 0) × (b % 2 ≡ 0) × (2 ≤ a) × (2 ≤ b) × (b ≤ a)
    → (w % 2 ≡ 0)
      × (h % 2 ≡ 0)
      × (2 ≤ w)
      × (2 ≤ h)
      × ((degrees ≡ 90) ⊎ (degrees ≡ 270) → w ≤ h)
      × (degrees ≢ 90 → degrees ≢ 270 → h ≤ w)
unfolding rotate
turned degrees a b w h ew eh (ea, eb, la, lb, le) =
    (ground arith, ground arith, ground arith, ground arith, λ d. ground arith, λ n m. ground arith)

-- When the size is taken from the panel, whose `wm size` output gives less than 2^32 on either
-- side and at least 2 on the longer one, and the limit is at least 2, then a session that starts
-- has a virtual output with sides that are even and at least 2, upright for the rotations 90 and 270,
-- and lying for the others.
pub start_size_orientation :
    (degrees max_width pw ph : ℕ) (out : Text) (m : ControlMessage) (w h : ℕ)
    → display_size out ≡ ok (pw, ph)
    → 2 ≤ pw
    → ph < 4294967296
    → 2 ≤ max_width
    → start_size none degrees max_width out ≡ ok (m, (w, h))
    → (w % 2 ≡ 0)
      × (h % 2 ≡ 0)
      × (2 ≤ w)
      × (2 ≤ h)
      × ((degrees ≡ 90) ⊎ (degrees ≡ 270) → w ≤ h)
      × (degrees ≢ 90 → degrees ≢ 270 → h ≤ w)
unfolding start_size landscape_size
start_size_orientation degrees max_width pw ph out m w h panel hp hh hm e =
    let (message, e1, e2) =
      >>=-eq-ok (checked (rotation degrees))
        (λ n. landscape_size none max_width out >>= (λ s. ok (n, rotate degrees s))) e in
    let (size, e3, e4) =
      >>=-eq-ok (landscape_size none max_width out) (λ s. ok (message, rotate degrees s)) e2 in
    let (found, e5, e6) =
      >>=-eq-ok (sized (display_size out)) (λ p. sized (stream_resolution p max_width)) e3 in
    let same : (pw, ph) ≡ found =
      ok_injective StartError (pw, ph) found (sym (ap sized panel) ∙ e5) in
    let scaled : stream_resolution (pw, ph) max_width ≡ ok size =
      sized_ok _ size (ap (λ p. sized (stream_resolution p max_width)) same ∙ e6) in
    let given =
      ap (λ x. x.1) (ok_injective StartError (message, rotate degrees size) (m, (w, h)) e4) in
    let (ea, eb, la, lb, _, _, _) =
      stream_resolution_bounds pw ph max_width hp hm hh size.0 size.1 scaled in
    let (lying, _, _) = display_size_landscape out pw ph panel in
    turned degrees size.0 size.1 w h (ap (λ x. x.0) given) (ap (λ x. x.1) given)
      (ea, eb, la, lb, stream_resolution_landscape pw ph max_width size.0 size.1 hp lying hm scaled)
