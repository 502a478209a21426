-- ===== src/Daemon/Input/Pointer/Buttons.antt =====
-- The mouse buttons of crates/daemon/src/input.rs: what the compositor sees as held.
use moreland_kde.Base.{
  ℕ, ◌≡◌, refl, sym, ap, ◌∙◌, inl, inr, Bool, true, false, ◌&&◌, ◌||◌, arith, Bool-cases,
}
use moreland_kde.Base.Result.{Result, ok}
use moreland_kde.Base.Int.{ℤ}
use moreland_kde.Protocol.Reverse.{TouchAction, down, move, up, cancel}
use moreland_kde.Daemon.Input.Device.{
  EmitError, Batch, Key, held, taken, emit_works, held-taken, held_after, AllWork, btn_left,
  btn_right,
}
use moreland_kde.Daemon.Input.Pointer.{
  Floats, Pointer, PointerState, idle, touched, dragging, consumed, emit_batch, relative_delta,
  emit_relative, on_down, move_cursor, on_move, release, on_up, on_touch, long_press, on_long_press,
  cancel_state, cancel_all, motion_batch, left_down, left_up, right_down, right_up, is_far, is_zero,
}

abbrev pub is_dragging : PointerState → Bool
is_dragging (dragging x y) = true
is_dragging idle = false
is_dragging (touched t) = false
is_dragging consumed = false

-- The left button is held exactly while dragging, and the right one never between calls.
pub record Inv {F : Type 0} (p : Pointer F) : Type 0 where
  pub left : held btn_left p.device ≡ is_dragging p.state
  pub right : held btn_right p.device ≡ false

held-motion : (k : Key) (h : Bool) (dx dy : ℤ) → held_after k h (motion_batch dx dy) ≡ h
unfolding motion_batch
held-motion k h dx dy = ground arith

module _ (M : Floats) (works : ℕ → Bool) (all : AllWork works) where
  emit_batch_works :
      (b : Batch) (p : Pointer M.F32)
      → emit_batch M works b p ≡ (ok tt, record p { device = taken b p.device })
  unfolding emit_batch
  emit_batch_works b p = rw (emit_works works b p.device (all p.device.attempts))

  -- The call succeeds and keeps the invariant.
  abbrev Good : Result EmitError (Unit {0}) × Pointer M.F32 → Type 0
  Good out = (out.0 ≡ ok tt) × Inv out.1

  emit_relative-Good :
      (dx dy : ℤ) (state : PointerState) (p : Pointer M.F32)
      → is_dragging state ≡ is_dragging p.state
      → Inv p
      → (q : Pointer M.F32) × (emit_relative M works dx dy p ≡ (ok tt, q))
        × Inv (record q { state = state })
  unfolding emit_relative
  emit_relative-Good dx dy state p same v = elim (Bool-cases (is_zero dx && is_zero dy)) [
    | inl still ↦ (p, rw still, record { left = v.left ∙ sym same; right = v.right })
    | inr moves ↦ (
      record p { device = taken (motion_batch dx dy) p.device },
      rw (moves, emit_batch_works (motion_batch dx dy) p),
      record {
        left =
            held-taken btn_left (motion_batch dx dy) p.device
            ∙ (held-motion btn_left (held btn_left p.device) dx dy ∙ (v.left ∙ sym same));
        right =
            held-taken btn_right (motion_batch dx dy) p.device
            ∙ (held-motion btn_right (held btn_right p.device) dx dy ∙ v.right);
      },
    )
  ]

  move_cursor-Good :
      (last now : ℕ × ℕ) (state : PointerState) (p : Pointer M.F32)
      → is_dragging state ≡ is_dragging p.state
      → Inv p
      → Good (move_cursor M works last now state p)
  unfolding move_cursor relative_delta
  move_cursor-Good last now state p same v =
      let (d, p') = relative_delta M works last now p in
      let (q, e, w) =
        emit_relative-Good d.0 d.1 state p' same (record { left = v.left; right = v.right }) in
      rw e (refl, w)

  pressed_left :
      (p : Pointer M.F32) (x y : ℕ)
      → Inv p
      → Inv (record p { device = taken left_down p.device; state = dragging x y })
  pressed_left p x y v = record {
    left = held-taken btn_left left_down p.device;
    right = held-taken btn_right left_down p.device ∙ v.right;
  }

  on_move-Good :
      (state : PointerState) (x y : ℕ) (p : Pointer M.F32)
      → p.state ≡ state
      → Inv p
      → Good (on_move M works state x y p)
  unfolding on_move
  on_move-Good idle x y p e v = (refl, v)
  on_move-Good consumed x y p e v = (refl, v)
  on_move-Good (dragging lx ly) x y p e v =
      move_cursor-Good (lx, ly) (x, y) (dragging x y) p (sym (ap is_dragging e)) v
  on_move-Good (touched t) x y p e v =
      elim (Bool-cases (t.pending_drag && (t.moved || is_far x y t.down_x t.down_y))) [
        | inl starts ↦ rw (starts, emit_batch_works left_down p) (refl, pressed_left p x y v)
        | inr moves ↦
            rw moves (move_cursor-Good (t.last_x, t.last_y) (x, y) _ p (sym (ap is_dragging e)) v)
      ]

  release-Good :
      (prev : PointerState) (now x y : ℕ) (p : Pointer M.F32)
      → p.state ≡ idle
      → held btn_left p.device ≡ is_dragging prev
      → held btn_right p.device ≡ false
      → Good (release M works prev now x y p)
  unfolding release
  release-Good idle now x y p e l r = (refl, record { left = rw e l; right = r })
  release-Good consumed now x y p e l r = (refl, record { left = rw e l; right = r })
  release-Good (dragging lx ly) now x y p e l r = rw (emit_batch_works left_up p) (
    refl,
    record {
      left = held-taken btn_left left_up p.device ∙ sym (ap is_dragging e);
      right = held-taken btn_right left_up p.device ∙ r;
    },
  )
  release-Good (touched t) now x y p e l r =
      elim (Bool-cases (t.moved || is_far x y t.down_x t.down_y)) [
        | inl far ↦ rw far (refl, record { left = rw e l; right = r })
        | inr near ↦
            rw (near, emit_batch_works left_down p, emit_batch_works left_up _)
              (
                refl,
                record {
                  left =
                      held-taken btn_left left_up (taken left_down p.device)
                      ∙ sym (ap is_dragging e);
                  right =
                      held-taken btn_right left_up (taken left_down p.device)
                      ∙ (held-taken btn_right left_down p.device ∙ r);
                },
              )
      ]

  long_press-Good :
      (state : PointerState) (p : Pointer M.F32)
      → p.state ≡ state
      → Inv p
      → Good (long_press M works state p)
  unfolding long_press
  long_press-Good idle p e v = (refl, v)
  long_press-Good consumed p e v = (refl, v)
  long_press-Good (dragging x y) p e v = (refl, v)
  long_press-Good (touched t) p e v =
      rw (emit_batch_works right_down p, emit_batch_works right_up _)
        (
          refl,
          record {
            left =
                held-taken btn_left right_up (taken right_down p.device)
                ∙ (held-taken btn_left right_down p.device ∙ (v.left ∙ ap is_dragging e));
            right = held-taken btn_right right_up (taken right_down p.device);
          },
        )

  -- While the kernel takes what is written, every touch, at any time and position, succeeds and
  -- leaves the left button held exactly if a drag goes on, and the right button up, provided that
  -- no finger comes down during a drag.
  pub on_touch-Inv :
      (action : TouchAction) (now x y : ℕ) (p : Pointer M.F32)
      → (action ≡ down → is_dragging p.state ≡ false)
      → Inv p
      → ((on_touch M works action now x y p).0 ≡ ok tt) × Inv (on_touch M works action now x y p).1
  unfolding on_touch on_down on_up
  on_touch-Inv down now x y p fresh v =
      (refl, record { left = v.left ∙ fresh refl; right = v.right })
  on_touch-Inv move now x y p fresh v = on_move-Good p.state x y p refl v
  on_touch-Inv up now x y p fresh v =
      release-Good p.state now x y (record p { state = idle }) refl v.left v.right
  on_touch-Inv cancel now x y p fresh v =
      release-Good p.state now x y (record p { state = idle }) refl v.left v.right

  cancel_state-Good :
      (state : PointerState) (p : Pointer M.F32)
      → held btn_left p.device ≡ is_dragging state
      → held btn_right p.device ≡ false
      → ((cancel_state M works state p).0 ≡ ok tt)
        × (held btn_left (cancel_state M works state p).1.device ≡ false)
        × (held btn_right (cancel_state M works state p).1.device ≡ false)
        × ((cancel_state M works state p).1.state ≡ idle)
  unfolding cancel_state
  cancel_state-Good idle p l r = (refl, l, r, refl)
  cancel_state-Good (touched t) p l r = (refl, l, r, refl)
  cancel_state-Good consumed p l r = (refl, l, r, refl)
  cancel_state-Good (dragging x y) p l r =
      rw (emit_batch_works left_up p) (
        refl,
        held-taken btn_left left_up p.device,
        held-taken btn_right left_up p.device ∙ r,
        refl,
      )

  -- While the kernel takes what is written, a cancel succeeds, leaves no button held and no gesture
  -- open.
  pub cancel_all-Inv :
      (p : Pointer M.F32)
      → Inv p
      → ((cancel_all M works p).0 ≡ ok tt)
        × (held btn_left (cancel_all M works p).1.device ≡ false)
        × (held btn_right (cancel_all M works p).1.device ≡ false)
        × ((cancel_all M works p).1.state ≡ idle)
  unfolding cancel_all
  cancel_all-Inv p v = cancel_state-Good p.state p v.left v.right

  pub on_long_press-Inv : (p : Pointer M.F32) → Inv p → Inv (on_long_press M works p).1
  unfolding on_long_press
  on_long_press-Inv p v = (long_press-Good p.state p refl v).1

  -- A down during a drag, with a cancel of the input as the very next call: both succeed, the gesture
  -- is over, and the left button is still held.
  down_in_drag-held :
      (now x y : ℕ) (p : Pointer M.F32)
      → is_dragging p.state ≡ true
      → Inv p
      → let q : Pointer M.F32 = (on_touch M works down now x y p).1 in
        let out = cancel_all M works q in
        (out.0 ≡ ok tt) × (out.1.state ≡ idle) × (held btn_left out.1.device ≡ true)
  unfolding on_touch on_down cancel_all cancel_state
  down_in_drag-held now x y p drag v = (refl, refl, v.left ∙ drag)
