-- ===== src/Lib.antt =====
-- Moreland streams a virtual monitor of a Linux desktop to Android tablets over USB. A daemon
-- (crates/daemon) watches for tablets and runs one session for each. A session creates the monitor,
-- captures it (crates/capture), encodes the frames (crates/encoder), and sends them over TCP through an `adb` forward (crates/transport) in a format of its own
-- (crates/protocol). The tablet answers with acks and touches, and the daemon emits the touches
-- through a virtual input device.
--
-- How the development follows the code:
--
--   Base (Tests, Lists, Result, Text, Int, Table): numbers, lists, texts as lists of code points,
--     maps as lists of entries, `Result` with bind, and the lemmas that the components share.
--   Protocol: crates/protocol/src/lib.rs.
--     Headers (`StreamHeader`, `FrameHeader`, `Codec`), Control (`ControlMessage`), Reverse
--     (`TouchMessage`, `encode_ack`, `encode_touch`, `decode_reverse_message`), Bytes (big-endian
--     numbers and slices). Byte strings are lists of numbers; an index out of range is an error value.
--   Transport: crates/transport/src.
--     Socket (`write_all_vectored` of lib.rs), Sender (`Sender` of lib.rs), Adb (`devices`,
--     `display_size`, `stream_resolution` of adb.rs).
--   Session: crates/daemon/src/session.rs.
--     Reader (the reverse-channel thread of `run`), Geometry (the size and time stamps of `run`),
--     Configuring (the connection to the app and the controls that `run` sends at first),
--     Statistics (`report`), Threads (the main thread, the drain thread and the reader thread of
--     `run`, as functions that take one turn of a thread, over what they share; a schedule is a list
--     of turns. Accounts is about every schedule, Capturing, Draining and Ends about the shutdown).
--   Capture: crates/capture/src.
--     Constraints (`State` and its events in session.rs), Formats (`pick_shm_format`,
--     `pick_dmabuf_format`), Device (dmabuf.rs), Failure (the errors), Session (`Capture` of
--     session.rs and `ShmBuffer` of shm.rs: Setup is `new`, Pool is about `allocate_pool`, Frames has
--     `capture_frame` and `renegotiate`, Synchronised is about the constraints that they use),
--     Plasma (plasma/mod.rs), Plasma.Stream (plasma/pipewire.rs: Negotiation is about the wait for
--     the format, Described about the frames).
--   Encoder: crates/encoder/src/lib.rs.
--     Modifiers (`supported_modifiers`), Pipeline (`Encoder`).
--   Daemon.Tracker: crates/daemon/src/tracker.rs, on the bytes that the ADB server sends.
--   Daemon.Input: crates/daemon/src/input.rs.
--     Device (the virtual device as a log of what it emitted), Touchscreen, Pointer, Worker
--     (`TouchInput`, `run_touch_worker`).
--   Daemon.Config: `Config` of crates/daemon/src/session.rs and `Args` of main.rs; Daemon.Config.Arguments:
--     `parse_args` of main.rs.
--   Daemon.Registry: `spawn_session`, `allocate_port`, `resolve_output_name`, `reap_finished`,
--     `join_all_parallel` and `bump_cooldown` of main.rs.
--   Daemon.Output: crates/daemon/src/output.rs.
--     Output (`Compositor`), Lua (`lua_string`), Monitors (the state of Hyprland's monitors),
--     Lifecycle (`VirtualOutput`; Commands is about what is run on Hyprland, Ownership about all
--     compositors).
--   Daemon.Reconciler: the loop of `main` in main.rs. `iterate` is one turn; `run_loop` is all of them.
--
-- Each component has a module of definitions, child modules for what is proved of it, and a module
-- Scenarios with concrete runs.
--
-- State is a record that each operation takes and gives back. Errors are values; where the code
-- logs an error and goes on, so does the model. Instants are numbers of nanoseconds. Integers are
-- natural numbers, cut to their width where the code cuts them; `checked_add` and `parse` fail
-- where they fail in the code. What lies outside is a parameter: the socket's answer to each write
-- (`accepts`), the kernel's answer to each input batch (`works`), floating point (`Floats`,
-- `Numbers`), threads (`Threads`, `starts`), the tracker's answers and the clock (`Tick`), the compositor's events,
-- dispatch by dispatch (`Delivery`, `Setup.Compositor`, `Desktop`), the DRM nodes and GBM (`Machine`),
-- the programs that are run (`World`, which sees the commands before each), the JSON library
-- (`JsonReader`), PipeWire's callbacks (`Callback`) and GStreamer (`Registry`, `Plugins`). Where a wait
-- has used up what was sent, the result is `still_waiting`: the call has not returned.
--
-- Fuel: `write_all_vectored` runs on a number of rounds, and the number of bytes is enough, since
-- every round but the last writes one; `trim_model` runs on the length of the text, and `decimal` on
-- twenty digits, enough for 64 bits. All else is structural recursion. The retries of the standard library on an interrupted call are part of
-- the call.
--
-- Not modelled: setting a session up on the device (the calls of `adb` in `run`) and running `adb`;
-- the requests that create and destroy buffers; the properties set on the elements of GStreamer; the
-- cursor mode on KWin; crates/capture/src/discovery.rs and the programs under crates/capture/src/bin,
-- which only print; pauses and logging; the Android app; scripts. The host is little-endian.
-- Counts of failures of a device are not wrapped at 2^32. Locks of the session's threads are taken
-- to make each access one step.
pub mod Base
pub mod Protocol
pub mod Transport
pub mod Session
pub mod Capture
pub mod Encoder
pub mod Daemon
