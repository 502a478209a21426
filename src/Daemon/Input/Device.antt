-- ===== src/Daemon/Input/Device.antt =====
-- crates/daemon/src/input.rs: input events, and a uinput device as the log of what it emitted.
use moreland_kde.Base.{ℕ, ◌+◌, ◌≡◌, refl, Bool, true, false, List, [], ◌∷◌, ◌++◌, if◌then◌else◌}
use moreland_kde.Base.Result.{Result, ok, err}
use moreland_kde.Base.Int.{ℤ}

pub data AbsAxis : Type 0 where
  abs_x abs_y mt_slot mt_tracking_id mt_position_x mt_position_y : AbsAxis

pub data Key : Type 0 where
  btn_touch btn_left btn_right : Key

pub data RelAxis : Type 0 where
  rel_x rel_y : RelAxis

-- The value of a key event is 1 or 0, written as a truth value.
pub data InputEvent : Type 0 where
  abs : AbsAxis → ℤ → InputEvent
  key : Key → Bool → InputEvent
  rel : RelAxis → ℤ → InputEvent
  syn : InputEvent

abbrev pub Batch : Type 0
Batch = List InputEvent

-- The device: the batches that the kernel took, and the number of attempts.
pub record Device : Type 0 where
  pub log : List Batch
  pub attempts : ℕ

pub data EmitError : Type 0 where
  emit_failed : EmitError

-- `VirtualDevice::emit`; `works` says of each attempt whether the kernel takes the batch.
unfoldable pub emit : (ℕ → Bool) → Batch → Device → Result EmitError (Unit {0}) × Device
emit works batch d =
    if works d.attempts
    then (ok tt, record { log = d.log ++ (batch ∷ []); attempts = d.attempts + 1 })
    else (err emit_failed, record d { attempts = d.attempts + 1 })

-- Whether a key is down after a log, from its last event; `held` is the state before.
abbrev is_key : Key → Key → Bool
is_key btn_touch btn_touch = true
is_key btn_left btn_left = true
is_key btn_right btn_right = true
is_key _ _ = false

abbrev pub held_after : Key → Bool → Batch → Bool
held_after k held [] = held
held_after k held (abs a v ∷ es) = held_after k held es
held_after k held (rel a v ∷ es) = held_after k held es
held_after k held (syn ∷ es) = held_after k held es
held_after k held (key j down ∷ es) = held_after k (if is_key k j then down else held) es

abbrev pub held_by : Key → Bool → List Batch → Bool
held_by k held [] = held
held_by k held (b ∷ bs) = held_by k (held_after k held b) bs

-- Whether the compositor sees the key as down.
unfoldable pub held : Key → Device → Bool
held k d = held_by k false d.log

held_by-append :
    (k : Key) (h : Bool) (bs : List Batch) (b : Batch)
    → held_by k h (bs ++ (b ∷ [])) ≡ held_after k (held_by k h bs) b
held_by-append k h [] b = refl
held_by-append k h (x ∷ bs) b = held_by-append k (held_after k h x) bs b

-- The device after a batch that the kernel took.
unfoldable pub taken : Batch → Device → Device
taken b d = record { log = d.log ++ (b ∷ []); attempts = d.attempts + 1 }

pub emit_works :
    (works : ℕ → Bool) (b : Batch) (d : Device)
    → works d.attempts ≡ true
    → emit works b d ≡ (ok tt, taken b d)
unfolding emit taken
emit_works works b d h = rw h

-- A batch that is taken changes what is held by its own events.
pub held-taken : (k : Key) (b : Batch) (d : Device) → held k (taken b d) ≡ held_after k (held k d) b
unfolding held taken
held-taken k b d = held_by-append k false d.log b

-- A batch that is refused changes nothing but the number of attempts.
pub emit_fails :
    (works : ℕ → Bool) (b : Batch) (d : Device)
    → works d.attempts ≡ false
    → emit works b d ≡ (err emit_failed, record d { attempts = d.attempts + 1 })
unfolding emit
emit_fails works b d h = rw h

pub held_attempts : (k : Key) (d : Device) (n : ℕ) → held k (record d { attempts = n }) ≡ held k d
unfolding held
held_attempts k d n = refl

-- Every attempt succeeds.
abbrev pub AllWork : (ℕ → Bool) → Type 0
AllWork works = (n : ℕ) → works n ≡ true
