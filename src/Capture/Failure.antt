-- ===== src/Capture/Failure.antt =====
-- crates/capture/src/session.rs, dmabuf.rs, shm.rs: the ways in which setting up and capturing fail,
-- the messages of `bail!` and `context` as constructors. `still_waiting` is no failure of the source:
-- the call has not returned, since the compositor sends nothing more.
use moreland_kde.Base.{ℕ}
use moreland_kde.Capture.Constraints.{FailureReason}

pub data Failure : Type 0 where
  no_buffer_size no_shm_format stride_overflow size_overflow memory_refused : Failure
  no_dmabuf_global no_dmabuf_format no_shared_modifier no_dmabuf_device : Failure
  listing_failed no_node_matches no_render_node node_not_opened no_gbm_device : Failure
  unknown_fourcc allocation_refused plane_not_exported : Failure
  stopped_in_negotiation stopped_in_renegotiation timed_out connection_lost still_waiting : Failure
  geometry_changed_to : ℕ × ℕ → ℕ × ℕ → Failure
  pool_empty constraints_changed session_stopped_by_compositor : Failure
  capture_failed : FailureReason → Failure
  capture_failed_raw : ℕ → Failure
  no_dmabuf fd_refused no_plane : Failure
  no_output not_connected no_global : Failure
