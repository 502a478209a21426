-- ===== src/Daemon/Input/Touchscreen/Laws.antt =====
-- The touchscreen of crates/daemon/src/input.rs: ranges, the contact and what the compositor sees.
use moreland_kde.Base.{
  ℕ, ◌≤◌, ◌<◌, ◌≡◌, refl, ◌∙◌, ◌⊎◌, inl, inr, Bool, false, ◌&&◌, [], arith, ◌==◌, Bool-cases,
}
use moreland_kde.Base.Result.{ok}
use moreland_kde.Protocol.Reverse.{TouchAction, down, move, up, cancel}
use moreland_kde.Daemon.Input.Device.{
  Batch, held, taken, emit_works, held-taken, AllWork, btn_touch,
}
use moreland_kde.Daemon.Input.Touchscreen.{
  Touchscreen, new, send, on_down, on_move, on_up, open_contact, emit_release, emit_batch,
  scale_to_range, next_id, abs_range, max_tracking_id, place_release, release_batch, move_batch,
  down_batch,
}

-- Scaling keeps the order and maps the 16-bit range onto the axis, ends included.
pub scale_to_range_lem :
    (v w : ℕ)
    → v ≤ w
    → w < 65536
    → (scale_to_range v ≤ scale_to_range w)
      × (scale_to_range w ≤ abs_range)
      × (scale_to_range 0 ≡ 0)
      × (scale_to_range 65535 ≡ abs_range)
unfolding scale_to_range
scale_to_range_lem v w h b = (omega arith, omega arith, refl, refl)

-- What the compositor sees agrees with what the daemon believes, and the state is in range.
pub record Inv (ts : Touchscreen) : Type 0 where
  pub contact : held btn_touch ts.device ≡ ts.contact_open
  pub id_low : 1 ≤ ts.next_tracking_id
  pub id_high : ts.next_tracking_id ≤ max_tracking_id
  pub x_fits : ts.last_pos.0 ≤ abs_range
  pub y_fits : ts.last_pos.1 ≤ abs_range

pub new-Inv : Inv (new (record { log = []; attempts = 0 }))
unfolding new held
new-Inv = record {
  contact = refl;
  id_low = omega arith;
  id_high = omega arith;
  x_fits = omega arith;
  y_fits = omega arith;
}

scaled : (v : ℕ) → v < 65536 → scale_to_range v ≤ abs_range
scaled v h = (scale_to_range_lem v v (omega arith) h).1

place_release-Inv :
    (x y : ℕ) (ts : Touchscreen)
    → x ≤ abs_range
    → y ≤ abs_range
    → Inv ts
    → Inv (place_release x y ts)
unfolding place_release
place_release-Inv x y ts hx hy v = elim (Bool-cases (x == 0 && y == 0)) [
  | inl origin ↦ rw origin v
  | inr away ↦ rw away (record {
    contact = v.contact;
    id_low = v.id_low;
    id_high = v.id_high;
    x_fits = hx;
    y_fits = hy;
  })
]

module _ (works : ℕ → Bool) (all : AllWork works) where
  emit_batch_works :
      (b : Batch) (ts : Touchscreen)
      → emit_batch works b ts ≡ (ok tt, record ts { device = taken b ts.device })
  unfolding emit_batch
  emit_batch_works b ts = rw (emit_works works b ts.device (all ts.device.attempts))

  open_contact-Inv :
      (x y : ℕ) (ts : Touchscreen)
      → x ≤ abs_range
      → y ≤ abs_range
      → 1 ≤ ts.next_tracking_id
      → ts.next_tracking_id ≤ max_tracking_id
      → ((open_contact works x y ts).0 ≡ ok tt) × Inv (open_contact works x y ts).1
  unfolding open_contact next_id
  open_contact-Inv x y ts hx hy low high = rw (emit_batch_works _ _) (
    refl,
    record {
      contact = held-taken btn_touch (down_batch ts.next_tracking_id x y) ts.device;
      id_low = ground arith;
      id_high = ground arith;
      x_fits = hx;
      y_fits = hy;
    },
  )

  on_down-Inv :
      (x y : ℕ) (ts : Touchscreen)
      → x ≤ abs_range
      → y ≤ abs_range
      → Inv ts
      → ((on_down works x y ts).0 ≡ ok tt) × Inv (on_down works x y ts).1
  unfolding on_down emit_release
  on_down-Inv x y ts hx hy v = elim (Bool-cases ts.contact_open) [
    | inl was_open ↦
        simp was_open (rw (emit_batch_works _ _) (open_contact-Inv x y _ hx hy v.id_low v.id_high))
    | inr shut ↦ simp shut (open_contact-Inv x y ts hx hy v.id_low v.id_high)
  ]

  on_move-Inv :
      (x y : ℕ) (ts : Touchscreen)
      → x ≤ abs_range
      → y ≤ abs_range
      → Inv ts
      → ((on_move works x y ts).0 ≡ ok tt) × Inv (on_move works x y ts).1
  unfolding on_move
  on_move-Inv x y ts hx hy v = elim (Bool-cases ts.contact_open) [
    | inl is_open ↦ simp is_open (
        rw (emit_batch_works _ _) (
          refl,
          record {
            contact = held-taken btn_touch (move_batch x y) ts.device ∙ (v.contact ∙ is_open);
            id_low = v.id_low;
            id_high = v.id_high;
            x_fits = hx;
            y_fits = hy;
          },
        ))
    | inr shut ↦ simp shut (refl, v)
  ]

  emit_release-Inv :
      (ts : Touchscreen)
      → Inv ts
      → ((emit_release works ts).0 ≡ ok tt)
        × Inv (emit_release works ts).1
        × ((emit_release works ts).1.contact_open ≡ false)
  unfolding emit_release
  emit_release-Inv ts v = rw (emit_batch_works _ _) (
    refl,
    record {
      contact = held-taken btn_touch (release_batch ts.last_pos.0 ts.last_pos.1) ts.device;
      id_low = v.id_low;
      id_high = v.id_high;
      x_fits = v.x_fits;
      y_fits = v.y_fits;
    },
    refl,
  )

  on_up-Inv :
      (x y : ℕ) (ts : Touchscreen)
      → x ≤ abs_range
      → y ≤ abs_range
      → Inv ts
      → ((on_up works x y ts).0 ≡ ok tt)
        × Inv (on_up works x y ts).1
        × ((on_up works x y ts).1.contact_open ≡ false)
  unfolding on_up
  on_up-Inv x y ts hx hy v = elim (Bool-cases ts.contact_open) [
    | inl is_open ↦
        simp is_open (emit_release-Inv (place_release x y ts) (place_release-Inv x y ts hx hy v))
    | inr shut ↦ simp shut (refl, v, refl)
  ]

  -- While the kernel takes what is written, every touch succeeds and keeps the invariant: the
  -- compositor sees the contact exactly while the daemon thinks it open, tracking ids stay between
  -- 1 and 65535 and positions on the axes. After an up or a cancel the contact is closed.
  pub send-Inv :
      (action : TouchAction) (x y : ℕ) (ts : Touchscreen)
      → x < 65536
      → y < 65536
      → Inv ts
      → ((send works action x y ts).0 ≡ ok tt)
        × Inv (send works action x y ts).1
        × (((action ≡ up) ⊎ (action ≡ cancel))
            → held btn_touch (send works action x y ts).1.device ≡ false)
  unfolding send
  send-Inv down x y ts hx hy v =
      let (done, kept) =
        on_down-Inv (scale_to_range x) (scale_to_range y) ts (scaled x hx) (scaled y hy) v in
      (done, kept, λ h. elim h [ inl e ↦ absurd (cc) | inr e ↦ absurd (cc) ])
  send-Inv move x y ts hx hy v =
      let (done, kept) =
        on_move-Inv (scale_to_range x) (scale_to_range y) ts (scaled x hx) (scaled y hy) v in
      (done, kept, λ h. elim h [ inl e ↦ absurd (cc) | inr e ↦ absurd (cc) ])
  send-Inv up x y ts hx hy v =
      let (done, kept, shut) =
        on_up-Inv (scale_to_range x) (scale_to_range y) ts (scaled x hx) (scaled y hy) v in
      (done, kept, λ h. kept.contact ∙ shut)
  send-Inv cancel x y ts hx hy v =
      let (done, kept, shut) =
        on_up-Inv (scale_to_range x) (scale_to_range y) ts (scaled x hx) (scaled y hy) v in
      (done, kept, λ h. kept.contact ∙ shut)
