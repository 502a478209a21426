-- ===== src/Capture/Plasma/Stream/Described.antt =====
-- crates/capture/src/plasma/pipewire.rs: how the frames that come off the stream are described.
use moreland_kde.Base.{
  ℕ, ◌*◌, ◌<◌, ◌≡◌, ◌==◌, true, false, refl, sym, ap, ◌∙◌, none, some, List, [], ◌∷◌, ◌++◌, map,
  arith, All,
}
use mathlib.Core.List.{append-nil, append_assoc}
use moreland_kde.Capture.Plasma.Stream.{
  Shared, Frame, fresh, Callback, process, param_changed, state_error, Dequeued, no_buffer, no_data,
  no_fd, data_fd, VideoInfo, on_process, on_callback, on_callbacks,
}

-- Every format that is announced has this width.
abbrev pub HasWidth : ℕ → Callback → Type 0
HasWidth width (param_changed (some info)) = info.info_width ≡ width
HasWidth width (param_changed none) = Unit {0}
HasWidth width (process d) = Unit {0}
HasWidth width (state_error e) = Unit {0}

-- The fds of the buffers, and those that come after the first format.
abbrev pub fds : Dequeued → List ℕ
fds (data_fd (some fd)) = fd ∷ []
fds (data_fd none) = []
fds no_buffer = []
fds no_data = []
fds no_fd = []

abbrev pub offered : List Callback → List ℕ
offered [] = []
offered (process d ∷ cs) = fds d ++ offered cs
offered (param_changed info ∷ cs) = offered cs
offered (state_error e ∷ cs) = offered cs

abbrev pub after_format : List Callback → List ℕ
after_format [] = []
after_format (param_changed (some info) ∷ cs) = offered cs
after_format (param_changed none ∷ cs) = after_format cs
after_format (process d ∷ cs) = after_format cs
after_format (state_error e ∷ cs) = after_format cs

-- A frame of packed pixels of four bytes.
abbrev pub packed : ℕ → ℕ → Frame
packed width fd = record { fd = fd; offset = 0; stride = width * 4; pts_ns = none }

abbrev Knows : ℕ → Shared → Type 0
Knows width s = (s.format.width ≡ width) × (s.format.stride ≡ width * 4) × (s.format.offset ≡ 0)

abbrev KnowsNothing : Shared → Type 0
KnowsNothing s = (s.format.width ≡ 0) × (s.format.stride ≡ 0) × (s.frames ≡ [])

module _ (width : ℕ) (positive : 0 < width) (fits : width * 4 < 4294967296) where
  announced_first :
      (info : VideoInfo) (s : Shared)
      → info.info_width ≡ width
      → KnowsNothing s
      → Knows width (on_callback (param_changed (some info)) s)
        × ((on_callback (param_changed (some info)) s).frames ≡ [])
  unfolding on_callback
  announced_first info s h (w, z, f) =
      let unset : (s.format.stride == 0) ≡ true = ground arith in
      rw (unset, h) ((refl, omega arith, refl), f)

  announced_again :
      (info : VideoInfo) (s : Shared)
      → info.info_width ≡ width
      → Knows width s
      → Knows width (on_callback (param_changed (some info)) s)
  unfolding on_callback
  announced_again info s h (w, z, o) =
      let set : (s.format.stride == 0) ≡ false = ground arith in rw (set, h) (refl, z, o)

  taken_in :
      (fd : ℕ) (s : Shared)
      → Knows width s
      → ((on_process (data_fd (some fd)) s).frames ≡ s.frames ++ (packed width fd ∷ []))
        × Knows width (on_process (data_fd (some fd)) s)
  unfolding on_process
  taken_in fd s (w, z, o) =
      let known : (s.format.width == 0) ≡ false = ground arith in
      rw (known) (rw (z, o) refl, (w, z, o))

  left_out :
      (d : Dequeued) (s : Shared)
      → fds d ≡ []
      → Knows width s
      → ((on_process d s).frames ≡ s.frames) × Knows width (on_process d s)
  unfolding on_process
  left_out no_buffer s e k = (refl, k)
  left_out no_data s e k = (refl, k)
  left_out no_fd s e k = (refl, k)
  left_out (data_fd none) s e (w, z, o) =
      let known : (s.format.width == 0) ≡ false = ground arith in rw (known) (refl, (w, z, o))
  left_out (data_fd (some fd)) s e k = absurd (cc)

  after_left_out :
      (d : Dequeued) (cs : List Callback) (s : Shared)
      → fds d ≡ []
      → Knows width s
      → (Knows width (on_process d s)
          → (on_callbacks cs (on_process d s)).frames
            ≡ (on_process d s).frames ++ map (packed width) (offered cs))
      → (on_callbacks cs (on_process d s)).frames ≡ s.frames ++ map (packed width) (offered cs)
  after_left_out d cs s e k later =
      let (same, kept) = left_out d s e k in
      later kept ∙ ap (λ fs. fs ++ map (packed width) (offered cs)) same

  all_taken :
      (cs : List Callback) (s : Shared)
      → All (HasWidth width) cs
      → Knows width s
      → (on_callbacks cs s).frames ≡ s.frames ++ map (packed width) (offered cs)
  unfolding on_callbacks on_callback
  all_taken [] s h k = sym (append-nil s.frames)
  all_taken (process (data_fd (some fd)) ∷ cs) s (h, hs) k =
      let (one, kept) = taken_in fd s k in
      all_taken cs (on_process (data_fd (some fd)) s) hs kept
      ∙ (ap (λ fs. fs ++ map (packed width) (offered cs)) one
          ∙ append_assoc s.frames (packed width fd ∷ []) (map (packed width) (offered cs)))
  all_taken (process (data_fd none) ∷ cs) s (h, hs) k =
      after_left_out (data_fd none) cs s refl k (all_taken cs (on_process (data_fd none) s) hs)
  all_taken (process no_buffer ∷ cs) s (h, hs) k =
      after_left_out no_buffer cs s refl k (all_taken cs (on_process no_buffer s) hs)
  all_taken (process no_data ∷ cs) s (h, hs) k =
      after_left_out no_data cs s refl k (all_taken cs (on_process no_data s) hs)
  all_taken (process no_fd ∷ cs) s (h, hs) k =
      after_left_out no_fd cs s refl k (all_taken cs (on_process no_fd s) hs)
  all_taken (param_changed none ∷ cs) s (h, hs) k = all_taken cs s hs k
  all_taken (param_changed (some info) ∷ cs) s (h, hs) k =
      all_taken cs (on_callback (param_changed (some info)) s) hs (announced_again info s h k)
  all_taken (state_error e ∷ cs) s (h, hs) k = all_taken cs (record s { error = some e }) hs k

  passed_by : (d : Dequeued) (s : Shared) → KnowsNothing s → KnowsNothing (on_process d s)
  unfolding on_process
  passed_by no_buffer s n = n
  passed_by no_data s n = n
  passed_by no_fd s n = n
  passed_by (data_fd fd) s (w, z, f) =
      let unknown : (s.format.width == 0) ≡ true = ground arith in rw (unknown) (w, z, f)

  none_before :
      (cs : List Callback) (s : Shared)
      → All (HasWidth width) cs
      → KnowsNothing s
      → (on_callbacks cs s).frames ≡ map (packed width) (after_format cs)
  unfolding on_callbacks on_callback
  none_before [] s h (w, z, f) = f
  none_before (process d ∷ cs) s (h, hs) n = none_before cs (on_process d s) hs (passed_by d s n)
  none_before (param_changed none ∷ cs) s (h, hs) n = none_before cs s hs n
  none_before (param_changed (some info) ∷ cs) s (h, hs) n =
      let (k, none_yet) = announced_first info s h n in
      all_taken cs (on_callback (param_changed (some info)) s) hs k
      ∙ ap (λ fs. fs ++ map (packed width) (offered cs)) none_yet
  none_before (state_error e ∷ cs) s (h, hs) n = none_before cs (record s { error = some e }) hs n

-- Every format that is announced has the same width, which is not 0 and of which four bytes a pixel
-- fit 32 bits. Then the frames in the channel are, in order, the buffers that come after the first
-- format and whose fd could be duplicated, each described by the duplicate, the offset 0 and the
-- stride of packed pixels of four bytes, however errors, other parameters and empty buffers
-- interleave.
pub on_callbacks-packed :
    (width : ℕ) (cs : List Callback)
    → 0 < width
    → width * 4 < 4294967296
    → All (HasWidth width) cs
    → (on_callbacks cs fresh).frames ≡ map (packed width) (after_format cs)
on_callbacks-packed width cs positive fits same =
    none_before width positive fits cs fresh same (refl, refl, refl)
