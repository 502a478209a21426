-- ===== src/Daemon/Input/Worker.antt =====
-- crates/daemon/src/input.rs: `TouchInput` and the worker that drives it from a channel.
pub mod Release
use moreland_kde.Base.{
  ℕ, zero, suc, ◌+◌, ◌-◌, ◌*◌, ◌/◌, ◌%◌, ◌^◌, ◌≤◌, ◌<◌, min, max, bit_and, bit_or, ◌≡◌, refl, sym,
  ap, subst, ◌∙◌, ◌≢◌, ◌↔◌, ◌⊎◌, inl, inr, Bool, true, false, not, ◌&&◌, ◌||◌, Option, none, some,
  List, [], ◌∷◌, ◌++◌, map, arith, ltb, leb, ◌==◌, if◌then◌else◌, ltb→lt, lt→ltb, leb→le, le→leb,
  ==_iff, ==_refl, tests, Bool-cases, Option-cases, length, get_elem?, take, drop, replicate,
  keep_if, any, find_first, flatten, All, length-append, take-append-drop, length-take, length-drop,
  length-replicate, take_all, drop_all, All-append,
}
use moreland_kde.Base.Result.{Result, ok, err, ◌>>=◌, ◌>>◌, guard, >>=-eq-ok, guard_passed}
use moreland_kde.Protocol.Reverse.{TouchAction, TouchMessage, cancel}
use moreland_kde.Daemon.Input.Device.{Device, EmitError}
use moreland_kde.Daemon.Input.Touchscreen.{Touchscreen, send as send_screen}
use moreland_kde.Daemon.Input.Pointer.{
  Floats, Pointer, on_touch, on_long_press, cancel_all,
  time_until_long_press as time_until_long_press_of,
}

-- `F` is the type of the floats.
pub data TouchInput (F : Type 0) : Type 0 where
  screen : Touchscreen → TouchInput F
  pointer : Pointer F → TouchInput F

-- What the worker's receive ends with: a message, or the end of the wait, at a time.
pub data Arrival : Type 0 where
  touch : ℕ → TouchMessage → Arrival
  timeout : ℕ → Arrival

module _ (M : Floats) (works : ℕ → Bool) where
  abbrev pub Out : Type 0
  Out = Result EmitError (Unit {0}) × TouchInput M.F32

  abbrev of_screen : Result EmitError (Unit {0}) × Touchscreen → Out
  of_screen (r, ts) = (r, screen ts)

  abbrev of_pointer : Result EmitError (Unit {0}) × Pointer M.F32 → Out
  of_pointer (r, p) = (r, pointer p)

  unfoldable pub time_until_long_press : ℕ → TouchInput M.F32 → Option ℕ
  time_until_long_press now (screen ts) = none
  time_until_long_press now (pointer p) = time_until_long_press_of M works now p.state

  unfoldable pub send : TouchAction → ℕ → ℕ → ℕ → TouchInput M.F32 → Out
  send action now x y (screen ts) = of_screen (send_screen works action x y ts)
  send action now x y (pointer p) = of_pointer (on_touch M works action now x y p)

  unfoldable pub long_press : TouchInput M.F32 → Out
  long_press (screen ts) = (ok tt, screen ts)
  long_press (pointer p) = of_pointer (on_long_press M works p)

  -- `TouchInput::cancel`.
  unfoldable pub cancel_input : TouchInput M.F32 → Out
  cancel_input (screen ts) = of_screen (send_screen works cancel 0 0 ts)
  cancel_input (pointer p) = of_pointer (cancel_all M works p)

  -- A wait ends only while a long press is due.
  unfoldable pub on_timeout : Option ℕ → TouchInput M.F32 → TouchInput M.F32
  on_timeout none input = input
  on_timeout (some t) input = (long_press input).1

  -- One turn of the loop; an error is logged, and the loop goes on.
  unfoldable pub turn : Arrival → TouchInput M.F32 → TouchInput M.F32
  turn (touch now t) input = (send t.action now t.x t.y input).1
  turn (timeout now) input = on_timeout (time_until_long_press now input) input

  unfoldable pub turns : List Arrival → TouchInput M.F32 → TouchInput M.F32
  turns [] input = input
  turns (a ∷ rest) input = turns rest (turn a input)

  -- `run_touch_worker` on what arrives before the channel closes.
  unfoldable pub run_touch_worker : List Arrival → TouchInput M.F32 → TouchInput M.F32
  run_touch_worker arrivals input = (cancel_input (turns arrivals input)).1
