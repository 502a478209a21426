-- ===== src/Daemon/Input/Worker/Release.antt =====
-- crates/daemon/src/input.rs: what the worker leaves held when its channel closes.
use moreland_kde.Base.{
  ℕ, ◌≡◌, refl, ap, inl, inr, Bool, true, false, ◌||◌, Option, none, some, List, [], ◌∷◌, arith,
  Bool-cases,
}
use moreland_kde.Base.Result.{Result, ok, err}
use moreland_kde.Protocol.Reverse.{TouchAction, TouchMessage, TouchFits, down, move, up, cancel}
use moreland_kde.Daemon.Input.Device.{EmitError, AllWork, held, btn_touch, btn_left, btn_right}
use moreland_kde.Daemon.Input.Touchscreen.Laws.{Inv as ScreenInv, send-Inv}
use moreland_kde.Daemon.Input.Pointer.{
  Floats, Pointer, PointerState, idle, touched, dragging, consumed, on_touch, on_move, on_up,
  release, on_long_press, long_press as long_press_state, emit_batch, and_then, left_down, left_up,
  is_far,
}
use moreland_kde.Daemon.Input.Pointer.Buttons.{
  Inv as ButtonsInv, is_dragging, on_touch-Inv, cancel_all-Inv, on_long_press-Inv,
}
use moreland_kde.Daemon.Input.Worker.{
  TouchInput, screen, pointer, Arrival, touch, timeout, turn, turns, run_touch_worker, send,
  on_timeout, cancel_input, long_press,
}

-- Whether a finger is on the pad after a message.
abbrev pub finger_after : TouchAction → Bool → Bool
finger_after down on = true
finger_after move on = on
finger_after up on = false
finger_after cancel on = false

-- Arrivals with coordinates of 16 bits in which no second finger comes down.
abbrev pub OneFinger : Bool → List Arrival → Type 0
OneFinger on [] = Unit {0}
OneFinger on (timeout now ∷ rest) = OneFinger on rest
OneFinger on (touch now t ∷ rest) =
    TouchFits t × (t.action ≡ down → on ≡ false) × OneFinger (finger_after t.action on) rest

module _ (M : Floats) (works : ℕ → Bool) where
  and_then-idle :
      (out : Result EmitError (Unit {0}) × Pointer M.F32)
      (next : Pointer M.F32 → Result EmitError (Unit {0}) × Pointer M.F32)
      → out.1.state ≡ idle
      → ((q : Pointer M.F32) → q.state ≡ idle → (next q).1.state ≡ idle)
      → (and_then M works out next).1.state ≡ idle
  and_then-idle (ok u, p) next e later = later p e
  and_then-idle (err f, p) next e later = e

  release-idle :
      (prev : PointerState) (now x y : ℕ) (p : Pointer M.F32)
      → p.state ≡ idle
      → (release M works prev now x y p).1.state ≡ idle
  unfolding release emit_batch
  release-idle idle now x y p e = e
  release-idle consumed now x y p e = e
  release-idle (dragging lx ly) now x y p e =
      and_then-idle (emit_batch M works left_up p) (λ q. (ok tt, record q { last_tap_end = none }))
        e (λ q h. h)
  release-idle (touched t) now x y p e =
      elim (Bool-cases (t.moved || is_far x y t.down_x t.down_y)) [
        | inl far ↦ rw far e
        | inr near ↦ rw near (
            and_then-idle (emit_batch M works left_down p)
              (λ q.
                and_then M works (emit_batch M works left_up q)
                  (λ r. (ok tt, record r { last_tap_end = some now })))
              e
              (λ q h.
                and_then-idle (emit_batch M works left_up q)
                  (λ r. (ok tt, record r { last_tap_end = some now })) h (λ r i. i)))
      ]

  -- With no finger on the pad there is no gesture.
  abbrev Rests : Bool → Pointer M.F32 → Type 0
  Rests on p = on ≡ false → p.state ≡ idle

  on_touch-Rests :
      (action : TouchAction) (now x y : ℕ) (on : Bool) (p : Pointer M.F32)
      → Rests on p
      → Rests (finger_after action on) (on_touch M works action now x y p).1
  unfolding on_touch on_up on_move
  on_touch-Rests down now x y on p r = λ h. absurd (cc)
  on_touch-Rests up now x y on p r = λ h. release-idle p.state now x y _ refl
  on_touch-Rests cancel now x y on p r = λ h. release-idle p.state now x y _ refl
  on_touch-Rests move now x y on p r = λ h. simp (r h) refl

  on_long_press-Rests :
      (on : Bool) (p : Pointer M.F32) → Rests on p → Rests on (on_long_press M works p).1
  unfolding on_long_press long_press_state
  on_long_press-Rests on p r = λ h. simp (r h) refl

-- What holds of the input between two arrivals.
abbrev pub WorkerInv : {F : Type 0} → Bool → TouchInput F → Type 0
WorkerInv on (screen ts) = ScreenInv ts
WorkerInv on (pointer p) = ButtonsInv p × (on ≡ false → p.state ≡ idle)

-- Nothing is held on the device.
abbrev pub Released : {F : Type 0} → TouchInput F → Type 0
Released (screen ts) = held btn_touch ts.device ≡ false
Released (pointer p) = (held btn_left p.device ≡ false) × (held btn_right p.device ≡ false)

module _ (M : Floats) (works : ℕ → Bool) (all : AllWork works) where
  send-WorkerInv :
      (t : TouchMessage) (now : ℕ) (on : Bool) (input : TouchInput M.F32)
      → TouchFits t
      → (t.action ≡ down → on ≡ false)
      → WorkerInv on input
      → WorkerInv (finger_after t.action on) (send M works t.action now t.x t.y input).1
  unfolding send
  send-WorkerInv t now on (screen ts) fits one v =
      (send-Inv works all t.action t.x t.y ts fits.0 fits.1 v).1
  send-WorkerInv t now on (pointer p) fits one v = (
    (on_touch-Inv M works all t.action now t.x t.y p (λ e. ap is_dragging (v.1 (one e))) v.0).1,
    on_touch-Rests M works t.action now t.x t.y on p v.1,
  )

  on_timeout-WorkerInv :
      (due : Option ℕ) (on : Bool) (input : TouchInput M.F32)
      → WorkerInv on input
      → WorkerInv on (on_timeout M works due input)
  unfolding on_timeout long_press
  on_timeout-WorkerInv none on input v = v
  on_timeout-WorkerInv (some t) on (screen ts) v = v
  on_timeout-WorkerInv (some t) on (pointer p) v =
      (on_long_press-Inv M works all p v.0, on_long_press-Rests M works on p v.1)

  cancel_input-Released :
      (on : Bool) (input : TouchInput M.F32)
      → WorkerInv on input
      → Released (cancel_input M works input).1
  unfolding cancel_input
  cancel_input-Released on (screen ts) v =
      (send-Inv works all cancel 0 0 ts (omega arith) (omega arith) v).2 (inr refl)
  cancel_input-Released on (pointer p) v =
      let (done, left, right, over) = cancel_all-Inv M works all p v.0 in (left, right)

  -- While the kernel takes what is written, a worker whose device agrees with its state at the start,
  -- and that meets any touches of one finger at a time with any ends of waits between them, has no
  -- contact and no button held when its channel closes.
  pub run_touch_worker-Released :
      (arrivals : List Arrival) (on : Bool) (input : TouchInput M.F32)
      → OneFinger on arrivals
      → WorkerInv on input
      → Released (run_touch_worker M works arrivals input)
  unfolding run_touch_worker turns turn
  run_touch_worker-Released [] on input one v = cancel_input-Released on input v
  run_touch_worker-Released (timeout now ∷ rest) on input one v =
      run_touch_worker-Released rest on _ one (on_timeout-WorkerInv _ on input v)
  run_touch_worker-Released (touch now t ∷ rest) on input one v =
      run_touch_worker-Released rest _ _ one.2 (send-WorkerInv t now on input one.0 one.1 v)
