-- ===== src/Daemon/Input/Scenarios.antt =====
-- Concrete touches of crates/daemon/src/input.rs, and the theorems applied to them.
use moreland_kde.Base.{ℕ, ◌≡◌, refl, ◌⊎◌, Bool, true, false, none, List, [], ◌∷◌, arith}
use moreland_kde.Base.Result.{ok}
use moreland_kde.Base.Int.{pos}
use moreland_kde.Protocol.Reverse.{down, move, up, cancel}
use moreland_kde.Daemon.Input.Device.{Device, AllWork, held, btn_touch, btn_left, key, syn}
use moreland_kde.Daemon.Input.Touchscreen.{new as new_screen, send}
use moreland_kde.Daemon.Input.Touchscreen.Laws.{Inv as ScreenInv, new-Inv, send-Inv}
use moreland_kde.Daemon.Input.Pointer.{Floats, Pointer, idle, dragging, on_touch}
use moreland_kde.Daemon.Input.Pointer.Buttons.{Inv as ButtonsInv, on_touch-Inv}
use moreland_kde.Daemon.Input.Worker.{pointer, Arrival, touch, timeout, run_touch_worker}
use moreland_kde.Daemon.Input.Worker.Release.{Released, run_touch_worker-Released}

abbrev always : ℕ → Bool
always n = true

always-AllWork : AllWork always
always-AllWork n = refl

abbrev new_device : Device
new_device = record { log = []; attempts = 0 }

-- Numbers that stand in for the floats: a pixel per unit, and nothing left over.
abbrev coarse : Floats
coarse = record { F32 = ℕ; zero_f = 0; scale = λ d s r. s; whole = λ f. pos f; rest = λ f d. 0 }

abbrev new_pointer : Pointer ℕ
new_pointer = record {
  device = new_device;
  state = idle;
  last_tap_end = none;
  residual = (0, 0);
  sensitivity = 3;
}

new_pointer-Inv : ButtonsInv new_pointer
unfolding held
new_pointer-Inv = record { left = refl; right = refl }

-- A pointer that drags, its left button down.
abbrev drags : Pointer ℕ
drags = record {
  device = record { log = (key btn_left true ∷ syn ∷ []) ∷ []; attempts = 1 };
  state = dragging 500 500;
  last_tap_end = none;
  residual = (0, 0);
  sensitivity = 3;
}

drags-Inv : ButtonsInv drags
unfolding held
drags-Inv = record { left = refl; right = refl }

send-Inv_example :
    ((send always down 1000 2000 (new_screen new_device)).0 ≡ ok tt)
    × ScreenInv (send always down 1000 2000 (new_screen new_device)).1
    × (((down ≡ up) ⊎ (down ≡ cancel))
        → held btn_touch (send always down 1000 2000 (new_screen new_device)).1.device ≡ false)
send-Inv_example =
    send-Inv always always-AllWork down 1000 2000 (new_screen new_device) (omega arith)
      (omega arith) new-Inv

on_touch-Inv_example :
    ((on_touch coarse always move 7 600 700 drags).0 ≡ ok tt)
    × ButtonsInv (on_touch coarse always move 7 600 700 drags).1
on_touch-Inv_example =
    on_touch-Inv coarse always always-AllWork move 7 600 700 drags (λ e. absurd (cc)) drags-Inv

-- A tap, and then a drag that is still going on when the channel closes.
abbrev tap_and_drag : List Arrival
tap_and_drag =
    touch 0 (record { action = down; x = 1000; y = 1000 })
    ∷ touch 5 (record { action = up; x = 1000; y = 1000 })
    ∷ touch 9 (record { action = down; x = 1000; y = 1000 })
    ∷ touch 12 (record { action = move; x = 9000; y = 1000 })
    ∷ timeout 900
    ∷ []

run_touch_worker-Released_example :
    Released (run_touch_worker coarse always tap_and_drag (pointer new_pointer))
run_touch_worker-Released_example =
    run_touch_worker-Released coarse always always-AllWork tap_and_drag false (pointer new_pointer)
      (
        (omega arith, omega arith),
        (λ e. refl),
        (
          (omega arith, omega arith),
          (λ e. absurd (cc)),
          (
            (omega arith, omega arith),
            (λ e. refl),
            ((omega arith, omega arith), (λ e. absurd (cc)), tt),
          ),
        ),
      )
      (new_pointer-Inv, λ e. refl)
