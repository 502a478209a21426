-- ===== src/Capture/Session/Pool/Allocation.antt =====
-- crates/capture/src/session.rs: `allocate_pool` on every branch.
use moreland_kde.Base.{ℕ, ◌<◌, ◌≡◌, refl, sym, subst, ◌⊎◌, true, Option, none, some, List, []}
use moreland_kde.Base.Result.{ok_injective, Result, ok, err, ◌>>=◌, >>=-eq-ok}
use moreland_kde.Capture.Device.{Machine, Allocator}
use moreland_kde.Capture.Failure.{no_buffer_size, Failure}
use moreland_kde.Capture.Session.{
  dmabuf_pool, shm_pool, allocator_for, pick_shm_format, PoolBuffer, Capture, BufferMode, shm_mode,
  dmabuf_mode, NewPool, allocate_pool, allocate_for, allocate_sized, allocate_dmabuf, finish_dmabuf,
  finish_shm, adopt, build_shm, build_dmabuf, dmabuf_choice,
}
use moreland_kde.Capture.Session.Pool.{IsPool, shm_pool-IsPool, dmabuf_pool-IsPool}

-- A capture whose pool is whole, fits the size that the compositor asked for, and whose next buffer
-- is one of the pool.
abbrev pub IsReady : Capture → Type 0
IsReady c =
    IsPool c.mode c.width c.height c.pool_size c.buffers
    × (c.next_buffer < c.pool_size)
    × (c.caps.buffer_size ≡ some (c.width, c.height))

-- At least one buffer was asked for, and the pool is empty or whole.
abbrev pub IsValid : Capture → Type 0
IsValid c = (0 < c.pool_size) × ((c.buffers ≡ []) ⊎ IsReady c)

-- What `allocate_pool` leaves: a pool for the constraints received, which are then used; or no pool,
-- and else only the allocator can have changed.
abbrev pub IsAllocation : Capture → Result Failure (Unit {0}) × Capture → Type 0
IsAllocation c (ok u, c') =
    IsReady c'
    × (c'.state ≡ record c.state { caps_consumed = true })
    × (c'.caps ≡ c.state.caps)
    × (c'.mode ≡ c.mode)
    × (c'.pool_size ≡ c.pool_size)
    × (c'.queue ≡ c.queue)
    × (c'.sent ≡ c.sent)
    × (c'.geometry_changed ≡ c.geometry_changed)
IsAllocation c (err e, c') = c' ≡ record c { buffers = []; allocator = c'.allocator }

build_shm-IsPool :
    (m : Machine) (c : Capture) (w h : ℕ) (p : NewPool)
    → build_shm m c w h ≡ ok p
    → IsPool shm_mode w h c.pool_size p.pool_buffers
unfolding build_shm
build_shm-IsPool m c w h p e =
    let filled : ℕ → List PoolBuffer → NewPool =
      λ format bs. record { pool_buffers = bs; pool_format = format; pool_modifier = none } in
    let (format, picked, e1) =
      >>=-eq-ok (pick_shm_format c.state.caps.shm_formats)
        (λ format. shm_pool m 0 w h c.pool_size >>= λ bs. ok (filled format bs)) e in
    let (bs, made, same) =
      >>=-eq-ok (shm_pool m 0 w h c.pool_size) (λ bs. ok (filled format bs)) e1 in
    subst (λ r. IsPool shm_mode w h c.pool_size r.pool_buffers)
      (ok_injective Failure (filled format bs) p same) (shm_pool-IsPool m 0 w h c.pool_size bs made)

build_dmabuf-IsPool :
    (m : Machine) (c : Capture) (w h code : ℕ) (modifiers : List ℕ) (dev : ℕ) (p : NewPool)
    (a : Allocator)
    → build_dmabuf m c w h code modifiers dev ≡ ok (p, a)
    → IsPool dmabuf_mode w h c.pool_size p.pool_buffers
unfolding build_dmabuf
build_dmabuf-IsPool m c w h code modifiers dev p a e =
    let filled : Allocator → List PoolBuffer × Option ℕ → NewPool × Allocator =
      λ b made. (record { pool_buffers = made.0; pool_format = code; pool_modifier = made.1 }, b) in
    let (b, opened, e1) =
      >>=-eq-ok (allocator_for m dev c.allocator)
        (λ b. dmabuf_pool m b w h code modifiers 0 none c.pool_size >>= λ made. ok (filled b made))
        e in
    let (made, makes, same) =
      >>=-eq-ok (dmabuf_pool m b w h code modifiers 0 none c.pool_size) (λ made. ok (filled b made))
        e1 in
    subst (λ r. IsPool dmabuf_mode w h c.pool_size r.0.pool_buffers)
      (ok_injective Failure (filled b made) (p, a) same)
      (dmabuf_pool-IsPool m b w h code modifiers 0 none c.pool_size made.0 made.1 makes)

finish_shm-IsAllocation :
    (c : Capture) (w h : ℕ) (r : Result Failure NewPool)
    → 0 < c.pool_size
    → c.mode ≡ shm_mode
    → c.state.caps.buffer_size ≡ some (w, h)
    → ((p : NewPool) → r ≡ ok p → IsPool shm_mode w h c.pool_size p.pool_buffers)
    → IsAllocation c (finish_shm r w h (record c { buffers = [] }))
unfolding finish_shm adopt
finish_shm-IsAllocation c w h (err e) some_buffer mode sized fits = refl
finish_shm-IsAllocation c w h (ok p) some_buffer mode sized fits = (
  (
    subst (λ k. IsPool k w h c.pool_size p.pool_buffers) (sym mode) (fits p refl),
    some_buffer,
    sized,
  ),
  refl,
  refl,
  refl,
  refl,
  refl,
  refl,
  refl,
)

finish_dmabuf-IsAllocation :
    (c : Capture) (w h : ℕ) (r : Result Failure (NewPool × Allocator))
    → 0 < c.pool_size
    → c.mode ≡ dmabuf_mode
    → c.state.caps.buffer_size ≡ some (w, h)
    → ((p : NewPool) (a : Allocator)
        → r ≡ ok (p, a)
        → IsPool dmabuf_mode w h c.pool_size p.pool_buffers)
    → IsAllocation c (finish_dmabuf r w h (record c { buffers = [] }))
unfolding finish_dmabuf adopt
finish_dmabuf-IsAllocation c w h (err e) some_buffer mode sized fits = refl
finish_dmabuf-IsAllocation c w h (ok (p, a)) some_buffer mode sized fits = (
  (
    subst (λ k. IsPool k w h c.pool_size p.pool_buffers) (sym mode) (fits p a refl),
    some_buffer,
    sized,
  ),
  refl,
  refl,
  refl,
  refl,
  refl,
  refl,
  refl,
)

allocate_dmabuf-IsAllocation :
    (m : Machine) (c : Capture) (w h : ℕ) (choice : Result Failure ((ℕ × List ℕ) × ℕ))
    → 0 < c.pool_size
    → c.mode ≡ dmabuf_mode
    → c.state.caps.buffer_size ≡ some (w, h)
    → IsAllocation c (allocate_dmabuf m choice w h (record c { buffers = [] }))
unfolding allocate_dmabuf
allocate_dmabuf-IsAllocation m c w h (err e) some_buffer mode sized = refl
allocate_dmabuf-IsAllocation m c w h (ok ((code, modifiers), dev)) some_buffer mode sized =
    finish_dmabuf-IsAllocation c w h
      (build_dmabuf m (record c { buffers = [] }) w h code modifiers dev) some_buffer mode sized
      (build_dmabuf-IsPool m (record c { buffers = [] }) w h code modifiers dev)

allocate_sized-IsAllocation :
    (m : Machine) (c : Capture) (w h : ℕ) (mode : BufferMode)
    → 0 < c.pool_size
    → c.mode ≡ mode
    → c.state.caps.buffer_size ≡ some (w, h)
    → IsAllocation c (allocate_sized m mode w h (record c { buffers = [] }))
unfolding allocate_sized
allocate_sized-IsAllocation m c w h shm_mode some_buffer mode sized =
    finish_shm-IsAllocation c w h (build_shm m (record c { buffers = [] }) w h) some_buffer mode
      sized (build_shm-IsPool m (record c { buffers = [] }) w h)
allocate_sized-IsAllocation m c w h dmabuf_mode some_buffer mode sized =
    allocate_dmabuf-IsAllocation m c w h (dmabuf_choice (record c { buffers = [] })) some_buffer
      mode sized

sized_or_not :
    (m : Machine) (c : Capture) (announced : Option (ℕ × ℕ))
    → 0 < c.pool_size
    → c.state.caps.buffer_size ≡ announced
    → IsAllocation c (
        allocate_for m
          (elim announced [ none ↦ err no_buffer_size | some s ↦ ok s ])
          (record c { buffers = [] }))
sized_or_not m c none some_buffer sized = refl
sized_or_not m c (some (w, h)) some_buffer sized =
    allocate_sized-IsAllocation m c w h c.mode some_buffer refl sized

-- With at least one buffer asked for, rebuilding the pool ends in one of two ways. Either it
-- succeeds, and the pool has exactly that many buffers, each of the session's kind and of the size
-- that the compositor announced, the next buffer is one of them, and the constraints count as used.
-- Or it fails, and no buffer is left, while size, format and constraints are those from before.
pub allocate_pool-IsAllocation :
    (m : Machine) (c : Capture) → 0 < c.pool_size → IsAllocation c (allocate_pool m c)
unfolding allocate_pool
allocate_pool-IsAllocation m c some_buffer =
    sized_or_not m c c.state.caps.buffer_size some_buffer refl
