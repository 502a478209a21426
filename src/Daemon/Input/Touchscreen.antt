-- ===== src/Daemon/Input/Touchscreen.antt =====
-- crates/daemon/src/input.rs: `Touchscreen`, a single contact of multitouch protocol B.
pub mod Laws
use moreland_kde.Base.{
  ℕ, zero, suc, ◌+◌, ◌-◌, ◌*◌, ◌/◌, ◌%◌, ◌^◌, ◌≤◌, ◌<◌, min, max, bit_and, bit_or, ◌≡◌, refl, sym,
  ap, subst, ◌∙◌, ◌≢◌, ◌↔◌, ◌⊎◌, inl, inr, Bool, true, false, not, ◌&&◌, ◌||◌, Option, none, some,
  List, [], ◌∷◌, ◌++◌, map, arith, ltb, leb, ◌==◌, if◌then◌else◌, ltb→lt, lt→ltb, leb→le, le→leb,
  ==_iff, ==_refl, tests, Bool-cases, Option-cases, length, get_elem?, take, drop, replicate,
  keep_if, any, find_first, flatten, All, length-append, take-append-drop, length-take, length-drop,
  length-replicate, take_all, drop_all, All-append,
}
use moreland_kde.Base.Result.{Result, ok, err, ◌>>=◌, ◌>>◌, guard, >>=-eq-ok, guard_passed}
use moreland_kde.Base.Int.{ℤ, pos, negsuc}
use moreland_kde.Protocol.Reverse.{TouchAction, down, move, up, cancel}
use moreland_kde.Daemon.Input.Device.{
  Device, EmitError, Batch, InputEvent, emit, abs, key, syn, abs_x, abs_y, mt_slot, mt_tracking_id,
  mt_position_x, mt_position_y, btn_touch,
}

abbrev pub abs_range : ℕ
abs_range = 32767

abbrev pub max_tracking_id : ℕ
max_tracking_id = 65535

-- The tracking id is an i32 that stays positive.
pub record Touchscreen : Type 0 where
  pub device : Device
  pub contact_open : Bool
  pub next_tracking_id : ℕ
  pub last_pos : ℕ × ℕ

abbrev pub Out : Type 0
Out = Result EmitError (Unit {0}) × Touchscreen

unfoldable pub new : Device → Touchscreen
new device = record {
  device = device;
  contact_open = false;
  next_tracking_id = 1;
  last_pos = (0, 0);
}

-- `(v as u32 * ABS_RANGE as u32) / 65535`; the product of a u16 fits.
unfoldable pub scale_to_range : ℕ → ℕ
scale_to_range v = v * abs_range % 4294967296 / 65535

-- `self.device.emit(..)?`
unfoldable pub emit_batch : (ℕ → Bool) → Batch → Touchscreen → Out
emit_batch works batch ts =
    let (r, device) = emit works batch ts.device in (r, record ts { device = device })

-- `alloc_tracking_id`: the id to use, and the counter after it.
unfoldable pub next_id : ℕ → ℕ
next_id id = if leb max_tracking_id id then 1 else id + 1

abbrev pub release_batch : ℕ → ℕ → Batch
release_batch x y =
    abs mt_slot (pos 0)
    ∷ abs mt_position_x (pos x)
    ∷ abs mt_position_y (pos y)
    ∷ abs abs_x (pos x)
    ∷ abs abs_y (pos y)
    ∷ abs mt_tracking_id (negsuc 0)
    ∷ key btn_touch false
    ∷ syn
    ∷ []

abbrev pub down_batch : ℕ → ℕ → ℕ → Batch
down_batch id x y =
    abs mt_slot (pos 0)
    ∷ abs mt_tracking_id (pos id)
    ∷ abs mt_position_x (pos x)
    ∷ abs mt_position_y (pos y)
    ∷ abs abs_x (pos x)
    ∷ abs abs_y (pos y)
    ∷ key btn_touch true
    ∷ syn
    ∷ []

abbrev pub move_batch : ℕ → ℕ → Batch
move_batch x y =
    abs mt_position_x (pos x)
    ∷ abs mt_position_y (pos y)
    ∷ abs abs_x (pos x)
    ∷ abs abs_y (pos y)
    ∷ syn
    ∷ []

-- `emit_release`: the contact counts as closed before the batch is written.
unfoldable pub emit_release : (ℕ → Bool) → Touchscreen → Out
emit_release works ts =
    emit_batch works (release_batch ts.last_pos.0 ts.last_pos.1)
      (record ts { contact_open = false })

abbrev pub and_then : Out → (Touchscreen → Out) → Out
and_then out next = elim out.0 [ ok u ↦ next out.1 | err e ↦ out ]

unfoldable pub open_contact : (ℕ → Bool) → ℕ → ℕ → Touchscreen → Out
open_contact works x y ts = emit_batch works (down_batch ts.next_tracking_id x y) (record {
  device = ts.device;
  contact_open = true;
  next_tracking_id = next_id ts.next_tracking_id;
  last_pos = (x, y);
})

unfoldable pub on_down : (ℕ → Bool) → ℕ → ℕ → Touchscreen → Out
on_down works x y ts =
    if ts.contact_open
    then and_then (emit_release works ts) (open_contact works x y)
    else open_contact works x y ts

unfoldable pub on_move : (ℕ → Bool) → ℕ → ℕ → Touchscreen → Out
on_move works x y ts =
    if ts.contact_open
    then emit_batch works (move_batch x y) (record ts { last_pos = (x, y) })
    else (ok tt, ts)

-- A release at (0, 0) keeps the last position.
unfoldable pub place_release : ℕ → ℕ → Touchscreen → Touchscreen
place_release x y ts = if x == 0 && y == 0 then ts else record ts { last_pos = (x, y) }

unfoldable pub on_up : (ℕ → Bool) → ℕ → ℕ → Touchscreen → Out
on_up works x y ts =
    if ts.contact_open then emit_release works (place_release x y ts) else (ok tt, ts)

-- `Touchscreen::send`.
unfoldable pub send : (ℕ → Bool) → TouchAction → ℕ → ℕ → Touchscreen → Out
send works down x y ts = on_down works (scale_to_range x) (scale_to_range y) ts
send works move x y ts = on_move works (scale_to_range x) (scale_to_range y) ts
send works up x y ts = on_up works (scale_to_range x) (scale_to_range y) ts
send works cancel x y ts = on_up works (scale_to_range x) (scale_to_range y) ts
