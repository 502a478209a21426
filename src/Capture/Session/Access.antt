-- ===== src/Capture/Session/Access.antt =====
-- crates/capture/src/session.rs: what a consumer takes from a capture, and its end.
use moreland_kde.Base.{ℕ, Option, none, some, List, [], ◌∷◌, ◌++◌, get_elem?}
use moreland_kde.Base.Result.{Result, ok, err}
use moreland_kde.Capture.Device.{Machine, Dmabuf, Plane}
use moreland_kde.Capture.Failure.{Failure, no_dmabuf, fd_refused, no_plane}
use moreland_kde.Capture.Session.{
  Capture, PoolBuffer, shm_buffer, dmabuf_buffer, destroy_session, size,
}
use moreland_kde.Capture.Session.Frames.{FrameTiming, Clock, capture_frame}

abbrev pub dmabuf_in : Option PoolBuffer → Option Dmabuf
dmabuf_in (some (dmabuf_buffer backing)) = some backing
dmabuf_in (some (shm_buffer backing)) = none
dmabuf_in none = none

unfoldable pub dmabuf : Capture → ℕ → Option Dmabuf
dmabuf c index = dmabuf_in (get_elem? c.buffers index)

-- The number of bytes and the stride of a pool buffer in shared memory.
abbrev pub shm_in : Option PoolBuffer → Option (ℕ × ℕ)
shm_in (some (shm_buffer backing)) = some (size backing, backing.stride)
shm_in (some (dmabuf_buffer backing)) = none
shm_in none = none

unfoldable pub shm_bytes : Capture → ℕ → Option (ℕ × ℕ)
shm_bytes c index = shm_in (get_elem? c.buffers index)

-- `source::Frame`.
pub record Frame : Type 0 where
  pub fd : ℕ
  pub offset : ℕ
  pub stride : ℕ
  pub pts_ns : Option ℕ

-- `duplicate` is the fd that `try_clone` returns, if it does. A buffer without planes is a panic of
-- the source.
abbrev pub first_plane : Option ℕ → FrameTiming → List Plane → Result Failure Frame
first_plane duplicate t [] = err no_plane
first_plane none t (p ∷ ps) = err fd_refused
first_plane (some fd) t (p ∷ ps) =
    ok (record { fd = fd; offset = p.offset; stride = p.stride; pts_ns = t.presentation_ns })

abbrev pub frame_in : Option ℕ → FrameTiming → Option Dmabuf → Result Failure Frame
frame_in duplicate t none = err no_dmabuf
frame_in duplicate t (some d) = first_plane duplicate t d.planes

abbrev pub hand_over :
    Option ℕ → Result Failure FrameTiming × Capture → Result Failure Frame × Capture
hand_over duplicate (err e, c) = (err e, c)
hand_over duplicate (ok t, c) = (frame_in duplicate t (dmabuf c t.buffer_index), c)

unfoldable pub next_frame :
    Machine → Clock → ℕ → Clock → Option ℕ → Capture → Result Failure Frame × Capture
next_frame m first now second duplicate c = hand_over duplicate (capture_frame m first now second c)

-- `FrameSource::modifier`.
unfoldable pub modifier_of : Capture → ℕ
modifier_of c = elim c.modifier [ none ↦ 0 | some m ↦ m ]

-- `Drop`
unfoldable pub drop_capture : Capture → Capture
drop_capture c = record c { buffers = []; sent = c.sent ++ (destroy_session ∷ []) }
