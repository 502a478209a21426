-- ===== src/Session/Geometry.antt =====
-- crates/daemon/src/session.rs: the size that a session of `run` starts with, and its time stamps.
pub mod Orientation
use moreland_kde.Base.{
  ℕ, zero, suc, ◌+◌, ◌-◌, ◌*◌, ◌/◌, ◌%◌, ◌^◌, ◌≤◌, ◌<◌, min, max, bit_and, bit_or, ◌≡◌, refl, sym,
  ap, subst, ◌∙◌, ◌≢◌, ◌↔◌, ◌⊎◌, inl, inr, Bool, true, false, not, ◌&&◌, ◌||◌, Option, none, some,
  List, [], ◌∷◌, ◌++◌, map, arith, ltb, leb, ◌==◌, if◌then◌else◌, ltb→lt, lt→ltb, leb→le, le→leb,
  ==_iff, ==_refl, tests, Bool-cases, Option-cases, length, get_elem?, take, drop, replicate,
  keep_if, any, find_first, flatten, All, length-append, take-append-drop, length-take, length-drop,
  length-replicate, take_all, drop_all, All-append,
}
use moreland_kde.Base.Result.{Result, ok, err, ◌>>=◌, ◌>>◌, guard, >>=-eq-ok, guard_passed}
use moreland_kde.Base.Text.{Text}
use moreland_kde.Protocol.Control.{ControlError, ControlMessage, rotation}
use moreland_kde.Transport.Adb.{AdbError, display_size, stream_resolution}

pub data StartError : Type 0 where
  invalid_rotation : ControlError → StartError
  no_size : AdbError → StartError
  zero_framerate : StartError

abbrev pub sized : Result AdbError (ℕ × ℕ) → Result StartError (ℕ × ℕ)
sized (ok s) = ok s
sized (err e) = err (no_size e)

abbrev pub checked : Result ControlError ControlMessage → Result StartError ControlMessage
checked (ok m) = ok m
checked (err e) = err (invalid_rotation e)

-- The configured size, or the one scaled from the panel, whose `wm size` output is `out`.
unfoldable pub landscape_size : Option (ℕ × ℕ) → ℕ → Text → Result StartError (ℕ × ℕ)
landscape_size (some explicit) max_width out = ok explicit
landscape_size none max_width out = do
  panel ← sized (display_size out)
  sized (stream_resolution panel max_width)

-- `std::mem::swap` for a portrait rotation.
unfoldable pub rotate : ℕ → ℕ × ℕ → ℕ × ℕ
rotate degrees (w, h) = if degrees == 90 || degrees == 270 then (h, w) else (w, h)

-- The message for the tablet and the size of the virtual output.
unfoldable pub start_size :
    Option (ℕ × ℕ) → ℕ → ℕ → Text → Result StartError (ControlMessage × (ℕ × ℕ))
start_size resolution degrees max_width out = do
  message ← checked (rotation degrees)
  size ← landscape_size resolution max_width out
  ok (message, rotate degrees size)

-- The time stamp of each frame; a frame rate of 0 is a panic of the division.
unfoldable pub frame_pts : ℕ → ℕ → Result StartError ℕ
frame_pts fps index = if fps == 0 then err zero_framerate else ok (index * (1_000_000_000 / fps))
