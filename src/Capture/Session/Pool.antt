-- ===== src/Capture/Session/Pool.antt =====
-- crates/capture/src/session.rs: what a pool is that was built, and what is left when it was not.
pub mod Allocation
use moreland_kde.Base.{
  ℕ, zero, suc, ◌+◌, ◌-◌, ◌*◌, ◌/◌, ◌%◌, ◌^◌, ◌≤◌, ◌<◌, min, max, bit_and, bit_or, ◌≡◌, refl, sym,
  ap, subst, ◌∙◌, ◌≢◌, ◌↔◌, ◌⊎◌, inl, inr, Bool, true, false, not, ◌&&◌, ◌||◌, Option, none, some,
  List, [], ◌∷◌, ◌++◌, map, arith, ltb, leb, ◌==◌, if◌then◌else◌, ltb→lt, lt→ltb, leb→le, le→leb,
  ==_iff, ==_refl, tests, Bool-cases, Option-cases, length, get_elem?, take, drop, replicate,
  keep_if, any, find_first, flatten, All, length-append, take-append-drop, length-take, length-drop,
  length-replicate, take_all, drop_all, All-append,
}
use moreland_kde.Base.Result.{
  ok_injective, Result, ok, err, ◌>>=◌, ◌>>◌, guard, >>=-eq-ok, guard_passed,
}
use moreland_kde.Base.Text.{u32_max}
use moreland_kde.Capture.Device.{
  Plane, BufferObject, Machine, Allocator, Dmabuf, allocate, created, export_planes,
  asked_modifiers,
}
use moreland_kde.Capture.Failure.{
  unknown_fourcc, Failure, stride_overflow, size_overflow, memory_refused,
}
use moreland_kde.Capture.Session.{
  Capture, BufferMode, shm_mode, dmabuf_mode, PoolBuffer, shm_buffer, dmabuf_buffer, ShmBuffer,
  size, new_shm, shm_pool, dmabuf_pool, checked_mul,
}

-- A buffer of the mode and the size.
abbrev pub Fits : BufferMode → ℕ → ℕ → PoolBuffer → Type 0
Fits shm_mode w h (shm_buffer b) =
    (b.width ≡ w) × (b.height ≡ h) × (b.stride ≡ w * 4) × (size b ≡ w * 4 * h)
Fits dmabuf_mode w h (dmabuf_buffer b) = (b.width ≡ w) × (b.height ≡ h)
Fits shm_mode w h (dmabuf_buffer b) = false ≡ true
Fits dmabuf_mode w h (shm_buffer b) = false ≡ true

-- A pool of `count` buffers that fit.
abbrev pub IsPool : BufferMode → ℕ → ℕ → ℕ → List PoolBuffer → Type 0
IsPool mode w h count bs = (length bs ≡ count) × All (Fits mode w h) bs

checked_mul-eq-ok :
    (failure : Failure) (a b c : ℕ) → checked_mul failure a b ≡ ok c → (c ≡ a * b) × (c ≤ u32_max)
checked_mul-eq-ok failure a b c h = elim (Bool-cases (leb (a * b) u32_max)) [
  | inl small ↦
      let made : ok (a * b) ≡ ok c =
        subst (λ t. (if t then ok (a * b) else err failure) ≡ ok c) small h in
      let same : a * b ≡ c = ok_injective Failure (a * b) c made in
      (sym same, subst (λ n. n ≤ u32_max) same (leb→le (a * b) u32_max small))
  | inr large ↦
      let failed : err failure ≡ ok c =
        subst (λ t. (if t then ok (a * b) else err failure) ≡ ok c) large h in
      absurd (cc)
]

no_wrap : (n : ℕ) → n ≤ u32_max → n % 4294967296 ≡ n
no_wrap n h = omega arith

new_shm-Fits :
    (m : Machine) (number w h : ℕ) (b : ShmBuffer)
    → new_shm m number w h ≡ ok b
    → Fits shm_mode w h (shm_buffer b)
unfolding new_shm size
new_shm-Fits m number w h b e =
    let (stride, strides, e1) =
      >>=-eq-ok (checked_mul stride_overflow w 4)
        (λ stride. checked_mul size_overflow stride h >>= λ size.
          guard (m.memory number) memory_refused
          >> ok (record { width = w; height = h; stride = stride }))
        e in
    let (bytes, sizes, e2) =
      >>=-eq-ok (checked_mul size_overflow stride h)
        (λ size.
          guard (m.memory number) memory_refused
          >> ok (record { width = w; height = h; stride = stride }))
        e1 in
    let (passed, made) =
      guard_passed (m.memory number) memory_refused
        (ok (record { width = w; height = h; stride = stride })) b e2 in
    let (stride_is, stride_small) = checked_mul-eq-ok stride_overflow w 4 stride strides in
    let (bytes_is, bytes_small) = checked_mul-eq-ok size_overflow stride h bytes sizes in
    let here : Fits shm_mode w h (shm_buffer (record { width = w; height = h; stride = stride })) =
      (
        refl,
        refl,
        stride_is,
        no_wrap (stride * h) (subst (λ n. n ≤ u32_max) bytes_is bytes_small)
            ∙ ap (λ n. n * h) stride_is,
      ) in
    subst (λ r. Fits shm_mode w h (shm_buffer r))
      (ok_injective Failure (record { width = w; height = h; stride = stride }) b made) here

shm_pool-IsPool :
    (m : Machine) (number w h count : ℕ) (bs : List PoolBuffer)
    → shm_pool m number w h count ≡ ok bs
    → IsPool shm_mode w h count bs
unfolding shm_pool
shm_pool-IsPool m number w h zero [] e = (refl, tt)
shm_pool-IsPool m number w h zero (b ∷ bs) e = absurd (cc)
shm_pool-IsPool m number w h (suc count) bs e =
    let (b, made, e1) =
      >>=-eq-ok (new_shm m number w h)
        (λ b. shm_pool m (suc number) w h count >>= λ bs. ok (shm_buffer b ∷ bs)) e in
    let (bs', rest, same) =
      >>=-eq-ok (shm_pool m (suc number) w h count) (λ bs. ok (shm_buffer b ∷ bs)) e1 in
    let (counts, fits) = shm_pool-IsPool m (suc number) w h count bs' rest in
    subst (IsPool shm_mode w h (suc count)) (ok_injective Failure (shm_buffer b ∷ bs') bs same)
      (ap suc counts, (new_shm-Fits m number w h b made, fits))

allocate-Fits :
    (m : Machine) (number : ℕ) (a : Allocator) (w h code : ℕ) (modifiers : List ℕ) (b : Dmabuf)
    → allocate m number a w h code modifiers ≡ ok b
    → (b.width ≡ w) × (b.height ≡ h)
unfolding allocate
allocate-Fits m number a w h code modifiers b e =
    let object_of : Result Failure BufferObject =
      created (m.create_object number a.path w h code (asked_modifiers modifiers)) in
    let filled : BufferObject → List Plane → Dmabuf = λ o planes. record {
      planes = planes;
      width = w;
      height = h;
      format = code;
      modifier = o.object_modifier;
    } in
    let (object, makes, e1) =
      >>=-eq-ok (guard (m.known_fourcc code) unknown_fourcc >> object_of)
        (λ o. export_planes o.object_planes >>= λ planes. ok (filled o planes)) e in
    let (planes, exports, same) =
      >>=-eq-ok (export_planes object.object_planes) (λ planes. ok (filled object planes)) e1 in
    let made : filled object planes ≡ b = ok_injective Failure (filled object planes) b same in
    (sym (ap (λ r. r.width) made), sym (ap (λ r. r.height) made))

dmabuf_pool-IsPool :
    (m : Machine) (a : Allocator) (w h code : ℕ) (modifiers : List ℕ) (number : ℕ) (last : Option ℕ)
    (count : ℕ) (bs : List PoolBuffer) (modifier : Option ℕ)
    → dmabuf_pool m a w h code modifiers number last count ≡ ok (bs, modifier)
    → IsPool dmabuf_mode w h count bs
unfolding dmabuf_pool
dmabuf_pool-IsPool m a w h code modifiers number last zero bs modifier e =
    subst (λ p. IsPool dmabuf_mode w h zero p.0) (ok_injective Failure ([], last) (bs, modifier) e)
      (refl, tt)
dmabuf_pool-IsPool m a w h code modifiers number last (suc count) bs modifier e =
    let (b, made, e1) =
      >>=-eq-ok (allocate m number a w h code modifiers)
        (λ b. dmabuf_pool m a w h code modifiers (suc number) (some b.modifier) count >>= λ pool.
          ok (dmabuf_buffer b ∷ pool.0, pool.1))
        e in
    let (pool, rest, same) =
      >>=-eq-ok (dmabuf_pool m a w h code modifiers (suc number) (some b.modifier) count)
        (λ pool. ok (dmabuf_buffer b ∷ pool.0, pool.1)) e1 in
    let (counts, fits) =
      dmabuf_pool-IsPool m a w h code modifiers (suc number) (some b.modifier) count pool.0 pool.1
        rest in
    subst (λ p. IsPool dmabuf_mode w h (suc count) p.0)
      (ok_injective Failure (dmabuf_buffer b ∷ pool.0, pool.1) (bs, modifier) same)
      (ap suc counts, (allocate-Fits m number a w h code modifiers b made, fits))
