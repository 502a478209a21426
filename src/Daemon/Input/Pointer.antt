-- ===== src/Daemon/Input/Pointer.antt =====
-- crates/daemon/src/input.rs: `PointerInput`, the gesture state machine of the relative pointer.
-- Instants and durations are numbers of nanoseconds; the time is an argument of each call.
pub mod Buttons
use moreland_kde.Base.{
  ℕ, zero, suc, ◌+◌, ◌-◌, ◌*◌, ◌/◌, ◌%◌, ◌^◌, ◌≤◌, ◌<◌, min, max, bit_and, bit_or, ◌≡◌, refl, sym,
  ap, subst, ◌∙◌, ◌≢◌, ◌↔◌, ◌⊎◌, inl, inr, Bool, true, false, not, ◌&&◌, ◌||◌, Option, none, some,
  List, [], ◌∷◌, ◌++◌, map, arith, ltb, leb, ◌==◌, if◌then◌else◌, ltb→lt, lt→ltb, leb→le, le→leb,
  ==_iff, ==_refl, tests, Bool-cases, Option-cases, length, get_elem?, take, drop, replicate,
  keep_if, any, find_first, flatten, All, length-append, take-append-drop, length-take, length-drop,
  length-replicate, take_all, drop_all, All-append,
}
use moreland_kde.Base.Result.{Result, ok, err, ◌>>=◌, ◌>>◌, guard, >>=-eq-ok, guard_passed}
use moreland_kde.Base.Int.{ℤ, pos, negsuc, sub_ℕ, abs_ℕ}
use moreland_kde.Protocol.Reverse.{TouchAction, down, move, up, cancel}
use moreland_kde.Daemon.Input.Device.{
  Device, EmitError, Batch, InputEvent, emit, key, rel, syn, rel_x, rel_y, btn_left, btn_right,
}

abbrev pub tap_max_move : ℕ
tap_max_move = 1500

abbrev pub long_press_after : ℕ
long_press_after = 600_000_000

abbrev pub double_tap_window : ℕ
double_tap_window = 300_000_000

-- `PointerState::Touched`.
pub record Touch : Type 0 where
  pub down_at : ℕ
  pub down_x : ℕ
  pub down_y : ℕ
  pub last_x : ℕ
  pub last_y : ℕ
  pub pending_drag : Bool
  pub moved : Bool

pub data PointerState : Type 0 where
  idle : PointerState
  touched : Touch → PointerState
  dragging : ℕ → ℕ → PointerState
  consumed : PointerState

-- `f32`, as far as the program uses it: `scale` is `d as f32 * sensitivity + residual`, `whole` is
-- `trunc() as i32`, and `rest` is `f - whole as f32`.
pub record Floats : Type 1 where
  pub F32 : Type 0
  pub zero_f : F32
  pub scale : ℤ → F32 → F32 → F32
  pub whole : F32 → ℤ
  pub rest : F32 → ℤ → F32

-- `F` is the type of the floats.
pub record Pointer (F : Type 0) : Type 0 where
  pub device : Device
  pub state : PointerState
  pub last_tap_end : Option ℕ
  pub residual : F × F
  pub sensitivity : F

abbrev pub left_down : Batch
left_down = key btn_left true ∷ syn ∷ []

abbrev pub left_up : Batch
left_up = key btn_left false ∷ syn ∷ []

abbrev pub right_down : Batch
right_down = key btn_right true ∷ syn ∷ []

abbrev pub right_up : Batch
right_up = key btn_right false ∷ syn ∷ []

abbrev pub is_zero : ℤ → Bool
is_zero (pos n) = n == 0
is_zero (negsuc n) = false

-- The events of a cursor move; an axis that does not move is left out.
unfoldable pub motion_batch : ℤ → ℤ → Batch
motion_batch dx dy =
    (if is_zero dx then [] else rel rel_x dx ∷ [])
    ++ ((if is_zero dy then [] else rel rel_y dy ∷ []) ++ (syn ∷ []))

-- Whether a position is further than the slop from where the finger came down, on either axis.
unfoldable pub is_far : ℕ → ℕ → ℕ → ℕ → Bool
is_far x y down_x down_y =
    ltb tap_max_move (abs_ℕ (sub_ℕ x down_x)) || ltb tap_max_move (abs_ℕ (sub_ℕ y down_y))

-- `self.last_tap_end.map(|t| t.elapsed() < DOUBLE_TAP_WINDOW).unwrap_or(false)`
unfoldable pub is_double_tap : ℕ → Option ℕ → Bool
is_double_tap now none = false
is_double_tap now (some t) = ltb (now - t) double_tap_window

module _ (M : Floats) (works : ℕ → Bool) where
  open M use {F32, zero_f, scale, whole, rest}

  abbrev pub Out : Type 0
  Out = Result EmitError (Unit {0}) × Pointer F32

  -- `self.device.emit(..)?`
  unfoldable pub emit_batch : Batch → Pointer F32 → Out
  emit_batch batch p =
      let (r, device) = emit works batch p.device in (r, record p { device = device })

  abbrev pub and_then : Out → (Pointer F32 → Out) → Out
  and_then out next = elim out.0 [ ok u ↦ next out.1 | err e ↦ out ]

  unfoldable pub new : Device → F32 → Pointer F32
  new device sensitivity = record {
    device = device;
    state = idle;
    last_tap_end = none;
    residual = (zero_f, zero_f);
    sensitivity = sensitivity;
  }

  -- `time_until_long_press`.
  unfoldable pub time_until_long_press : ℕ → PointerState → Option ℕ
  time_until_long_press now idle = none
  time_until_long_press now (touched t) =
      if t.moved then none else some (long_press_after - (now - t.down_at))
  time_until_long_press now (dragging x y) = none
  time_until_long_press now consumed = none

  -- `relative_delta`: the whole pixels to move, with the fractions kept for the next call.
  unfoldable pub relative_delta : ℕ × ℕ → ℕ × ℕ → Pointer F32 → (ℤ × ℤ) × Pointer F32
  relative_delta last now p =
      let fx = scale (sub_ℕ now.0 last.0) p.sensitivity p.residual.0 in
      let fy = scale (sub_ℕ now.1 last.1) p.sensitivity p.residual.1 in
      ((whole fx, whole fy), record p { residual = (rest fx (whole fx), rest fy (whole fy)) })

  -- `emit_relative`.
  unfoldable pub emit_relative : ℤ → ℤ → Pointer F32 → Out
  unfolding motion_batch
  emit_relative dx dy p =
      if is_zero dx && is_zero dy then (ok tt, p) else emit_batch (motion_batch dx dy) p

  unfoldable pub on_down : ℕ → ℕ → ℕ → Pointer F32 → Out
  on_down now x y p = (
    ok tt,
    record p {
      residual = (zero_f, zero_f);
      state = touched (record {
        down_at = now;
        down_x = x;
        down_y = y;
        last_x = x;
        last_y = y;
        pending_drag = is_double_tap now p.last_tap_end;
        moved = false;
      });
    },
  )

  -- A move of the cursor, and then the new state.
  unfoldable pub move_cursor : ℕ × ℕ → ℕ × ℕ → PointerState → Pointer F32 → Out
  move_cursor last now state p =
      let (d, p') = relative_delta last now p in
      and_then (emit_relative d.0 d.1 p') (λ q. (ok tt, record q { state = state }))

  unfoldable pub on_move : PointerState → ℕ → ℕ → Pointer F32 → Out
  on_move idle x y p = (ok tt, p)
  on_move consumed x y p = (ok tt, p)
  on_move (touched t) x y p =
      let now_moved = t.moved || is_far x y t.down_x t.down_y in
      if t.pending_drag && now_moved
      then and_then (emit_batch left_down p) (λ q. (ok tt, record q { state = dragging x y }))
      else move_cursor (t.last_x, t.last_y) (x, y)
          (touched (record t { last_x = x; last_y = y; moved = now_moved })) p
  on_move (dragging last_x last_y) x y p = move_cursor (last_x, last_y) (x, y) (dragging x y) p

  -- The state is `Idle` before anything is written; `prev` is the state that it replaces.
  unfoldable pub release : PointerState → ℕ → ℕ → ℕ → Pointer F32 → Out
  release (touched t) now x y p =
      if t.moved || is_far x y t.down_x t.down_y
      then (ok tt, record p { last_tap_end = none })
      else and_then (emit_batch left_down p) (λ q.
        and_then (emit_batch left_up q) (λ r. (ok tt, record r { last_tap_end = some now })))
  release (dragging last_x last_y) now x y p =
      and_then (emit_batch left_up p) (λ q. (ok tt, record q { last_tap_end = none }))
  release consumed now x y p = (ok tt, record p { last_tap_end = none })
  release idle now x y p = (ok tt, record p { last_tap_end = none })

  unfoldable pub on_up : ℕ → ℕ → ℕ → Pointer F32 → Out
  on_up now x y p = release p.state now x y (record p { state = idle })

  unfoldable pub on_touch : TouchAction → ℕ → ℕ → ℕ → Pointer F32 → Out
  on_touch down now x y p = on_down now x y p
  on_touch move now x y p = on_move p.state x y p
  on_touch up now x y p = on_up now x y p
  on_touch cancel now x y p = on_up now x y p

  unfoldable pub long_press : PointerState → Pointer F32 → Out
  long_press (touched t) p = and_then (emit_batch right_down p) (λ q.
      and_then (emit_batch right_up q)
        (λ r. (ok tt, record r { state = consumed; last_tap_end = none })))
  long_press idle p = (ok tt, p)
  long_press (dragging x y) p = (ok tt, p)
  long_press consumed p = (ok tt, p)

  -- `on_long_press`.
  unfoldable pub on_long_press : Pointer F32 → Out
  unfolding long_press
  on_long_press p = long_press p.state p

  abbrev pub settled : Pointer F32 → Pointer F32
  settled p = record p { state = idle; last_tap_end = none; residual = (zero_f, zero_f) }

  unfoldable pub cancel_state : PointerState → Pointer F32 → Out
  cancel_state (dragging x y) p = and_then (emit_batch left_up p) (λ q. (ok tt, settled q))
  cancel_state idle p = (ok tt, settled p)
  cancel_state (touched t) p = (ok tt, settled p)
  cancel_state consumed p = (ok tt, settled p)

  -- `PointerInput::cancel`.
  unfoldable pub cancel_all : Pointer F32 → Out
  unfolding cancel_state
  cancel_all p = cancel_state p.state p
