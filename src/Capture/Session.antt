-- ===== src/Capture/Session.antt =====
-- crates/capture/src/session.rs and shm.rs: `Capture`, its buffer pool and how it is built. A request
-- to the compositor is kept in `sent` where it concerns the session or a frame; those that create and destroy
-- buffers are left out.
pub mod Frames
pub mod Access
pub mod Pool
pub mod Setup
pub mod Synchronised
use moreland_kde.Base.{
  ℕ, zero, suc, ◌+◌, ◌-◌, ◌*◌, ◌/◌, ◌%◌, ◌^◌, ◌≤◌, ◌<◌, min, max, bit_and, bit_or, ◌≡◌, refl, sym,
  ap, subst, ◌∙◌, ◌≢◌, ◌↔◌, ◌⊎◌, inl, inr, Bool, true, false, not, ◌&&◌, ◌||◌, Option, none, some,
  List, [], ◌∷◌, ◌++◌, map, arith, ltb, leb, ◌==◌, if◌then◌else◌, ltb→lt, lt→ltb, leb→le, le→leb,
  ==_iff, ==_refl, tests, Bool-cases, Option-cases, length, get_elem?, take, drop, replicate,
  keep_if, any, find_first, flatten, All, length-append, take-append-drop, length-take, length-drop,
  length-replicate, take_all, drop_all, All-append,
}
use moreland_kde.Base.Result.{Result, ok, err, ◌>>=◌, ◌>>◌, guard, >>=-eq-ok, guard_passed}
use moreland_kde.Base.Text.{
  Text, text, text_eq, text_eq_iff, text_eq_refl, is_whitespace, is_digit, is_upper, is_lower,
  is_ascii_alphanumeric, lower_char, to_ascii_lowercase, is_empty, starts_with, contains,
  strip_prefix, trim_start, trim_end, trim, push_front, starts_newline, lines, starts_word,
  split_whitespace, split_once, until, second_piece, parse_digits, parse_nonempty, parse_unsigned,
  u8_max, u16_max, u32_max,
}
use moreland_kde.Capture.Constraints.{SessionCaps, no_caps, State, Event, on_events}
use moreland_kde.Capture.Formats.{pick_shm_format, pick_dmabuf_format}
use moreland_kde.Capture.Device.{Machine, Allocator, Dmabuf, from_dev_t, allocate}
use moreland_kde.Capture.Failure.{
  Failure, no_buffer_size, stride_overflow, size_overflow, memory_refused, no_dmabuf_global,
  no_dmabuf_device,
}

pub data BufferMode : Type 0 where
  shm_mode dmabuf_mode : BufferMode

pub record CaptureConfig : Type 0 where
  pub mode : BufferMode
  pub pool_size : ℕ
  pub allowed_modifiers : List ℕ
  pub paint_cursor : Bool

abbrev pub default_config : CaptureConfig
default_config = record {
  mode = dmabuf_mode;
  pool_size = 2;
  allowed_modifiers = [];
  paint_cursor = false;
}

-- `ShmBuffer`, without its fd; what is mapped has `stride * height` bytes.
pub record ShmBuffer : Type 0 where
  pub width : ℕ
  pub height : ℕ
  pub stride : ℕ

pub data PoolBuffer : Type 0 where
  shm_buffer : ShmBuffer → PoolBuffer
  dmabuf_buffer : Dmabuf → PoolBuffer

-- The requests that concern the session and its frames; a buffer is its index in the pool. A session
-- is created for an output, with or without the cursor.
pub data Request : Type 0 where
  create_session : ℕ → Bool → Request
  create_frame : Request
  attach_buffer : ℕ → Request
  damage_buffer : ℕ → ℕ → Request
  capture destroy_frame destroy_session : Request

-- What one `blocking_dispatch` finds, with the time at which it is called: the events that it hands
-- over, in order, or a failed connection.
pub data Delivery : Type 0 where
  events : ℕ → List Event → Delivery
  lost : ℕ → Delivery

-- `Capture`. The globals that are held are `has_dmabuf`; `queue` is what will be dispatched.
pub record Capture : Type 0 where
  pub queue : List Delivery
  pub state : State
  pub buffers : List PoolBuffer
  pub next_buffer : ℕ
  pub width : ℕ
  pub height : ℕ
  pub mode : BufferMode
  pub caps : SessionCaps
  pub format : ℕ
  pub modifier : Option ℕ
  pub device_path : Option Text
  pub pool_size : ℕ
  pub allowed_modifiers : List ℕ
  pub geometry_changed : Bool
  pub has_dmabuf : Bool
  pub allocator : Option Allocator
  pub sent : List Request

abbrev pub buffer_size_of : SessionCaps → Result Failure (ℕ × ℕ)
buffer_size_of caps = elim caps.buffer_size [ none ↦ err no_buffer_size | some size ↦ ok size ]

abbrev pub device_of : SessionCaps → Result Failure ℕ
device_of caps = elim caps.dmabuf_device [ none ↦ err no_dmabuf_device | some dev ↦ ok dev ]

-- `u32::checked_mul`
abbrev pub checked_mul : Failure → ℕ → ℕ → Result Failure ℕ
checked_mul failure a b = if leb (a * b) u32_max then ok (a * b) else err failure

-- `ShmBuffer::new` for the buffer of the pool with the given number; `memory` says whether the memory
-- is created, sized and mapped.
unfoldable pub new_shm : Machine → ℕ → ℕ → ℕ → Result Failure ShmBuffer
new_shm m number width height = checked_mul stride_overflow width 4 >>= λ stride.
    checked_mul size_overflow stride height >>= λ size.
    guard (m.memory number) memory_refused
    >> ok (record { width = width; height = height; stride = stride })

-- `ShmBuffer::size`, a u32 product.
unfoldable pub size : ShmBuffer → ℕ
size b = (b.stride * b.height) % 4294967296

-- `count` buffers, numbered on from `number`; the first that fails ends it.
unfoldable pub shm_pool : Machine → ℕ → ℕ → ℕ → ℕ → Result Failure (List PoolBuffer)
shm_pool m number width height zero = ok []
shm_pool m number width height (suc count) = new_shm m number width height >>= λ b.
    shm_pool m (suc number) width height count >>= λ bs. ok (shm_buffer b ∷ bs)

-- The buffers, and the modifier of the last.
unfoldable pub dmabuf_pool :
    Machine
    → Allocator
    → ℕ
    → ℕ
    → ℕ
    → List ℕ
    → ℕ
    → Option ℕ
    → ℕ
    → Result Failure (List PoolBuffer × Option ℕ)
dmabuf_pool m a width height code modifiers number last zero = ok ([], last)
dmabuf_pool m a width height code modifiers number last (suc count) =
    allocate m number a width height code modifiers >>= λ b.
    dmabuf_pool m a width height code modifiers (suc number) (some b.modifier) count >>= λ pool.
    ok (dmabuf_buffer b ∷ pool.0, pool.1)

-- The device can change between generations: an allocator is reused only for the same device.
abbrev pub keeps_device : Option ℕ → ℕ → Bool
keeps_device none dev = false
keeps_device (some d) dev = d == dev

unfoldable pub allocator_for : Machine → ℕ → Option Allocator → Result Failure Allocator
allocator_for m dev none = from_dev_t m dev
allocator_for m dev (some existing) =
    let opened = from_dev_t m dev in if keeps_device existing.dev_t dev then ok existing else opened

-- What the building of a pool sets: buffers, format, modifier, and the allocator of GPU buffers.
pub record NewPool : Type 0 where
  pub pool_buffers : List PoolBuffer
  pub pool_format : ℕ
  pub pool_modifier : Option ℕ

unfoldable pub build_shm : Machine → Capture → ℕ → ℕ → Result Failure NewPool
build_shm m c width height = pick_shm_format c.state.caps.shm_formats >>= λ format.
    shm_pool m 0 width height c.pool_size >>= λ bs.
    ok (record { pool_buffers = bs; pool_format = format; pool_modifier = none })

-- The part before the allocator is taken: the format, its modifiers and the device.
unfoldable pub dmabuf_choice : Capture → Result Failure ((ℕ × List ℕ) × ℕ)
dmabuf_choice c =
    guard c.has_dmabuf no_dmabuf_global
    >> pick_dmabuf_format c.state.caps.dmabuf_formats c.allowed_modifiers
    >>= λ format. device_of c.state.caps >>= λ dev. ok (format, dev)

unfoldable pub build_dmabuf :
    Machine → Capture → ℕ → ℕ → ℕ → List ℕ → ℕ → Result Failure (NewPool × Allocator)
build_dmabuf m c width height code modifiers dev = allocator_for m dev c.allocator >>= λ a.
    dmabuf_pool m a width height code modifiers 0 none c.pool_size >>= λ made.
    ok (record { pool_buffers = made.0; pool_format = code; pool_modifier = made.1 }, a)

-- The end of `allocate_pool`: the new pool is in place and the constraints are used.
unfoldable pub adopt : NewPool → ℕ → ℕ → Capture → Capture
adopt p width height c = record c {
  buffers = p.pool_buffers;
  next_buffer = 0;
  width = width;
  height = height;
  caps = c.state.caps;
  format = p.pool_format;
  modifier = p.pool_modifier;
  state = record c.state { caps_consumed = true };
}

unfoldable pub finish_shm :
    Result Failure NewPool → ℕ → ℕ → Capture → Result Failure (Unit {0}) × Capture
finish_shm (err e) width height c = (err e, c)
finish_shm (ok p) width height c = (ok tt, adopt p width height c)

-- The allocator was taken out of the capture before the buffers are made.
unfoldable pub finish_dmabuf :
    Result Failure (NewPool × Allocator) → ℕ → ℕ → Capture → Result Failure (Unit {0}) × Capture
finish_dmabuf (err e) width height c = (err e, record c { allocator = none })
finish_dmabuf (ok (p, a)) width height c =
    (ok tt, record (adopt p width height c) { device_path = some a.path; allocator = some a })

unfoldable pub allocate_dmabuf :
    Machine
    → Result Failure ((ℕ × List ℕ) × ℕ)
    → ℕ
    → ℕ
    → Capture
    → Result Failure (Unit {0}) × Capture
allocate_dmabuf m (err e) width height c = (err e, c)
allocate_dmabuf m (ok ((code, modifiers), dev)) width height c =
    finish_dmabuf (build_dmabuf m c width height code modifiers dev) width height c

unfoldable pub allocate_sized :
    Machine → BufferMode → ℕ → ℕ → Capture → Result Failure (Unit {0}) × Capture
allocate_sized m shm_mode width height c = finish_shm (build_shm m c width height) width height c
allocate_sized m dmabuf_mode width height c = allocate_dmabuf m (dmabuf_choice c) width height c

abbrev pub allocate_for :
    Machine → Result Failure (ℕ × ℕ) → Capture → Result Failure (Unit {0}) × Capture
allocate_for m (err e) c = (err e, c)
allocate_for m (ok (width, height)) c = allocate_sized m c.mode width height c

-- `allocate_pool`: the old buffers are gone, whatever follows.
unfoldable pub allocate_pool : Machine → Capture → Result Failure (Unit {0}) × Capture
allocate_pool m c = allocate_for m (buffer_size_of c.state.caps) (record c { buffers = [] })
