-- ===== src/Capture/Plasma/Scenarios.antt =====
-- Concrete runs of crates/capture/src/plasma, and the theorems applied to them.
use moreland_kde.Base.{ℕ, ◌≡◌, refl, true, some, none, List, [], ◌∷◌, arith}
use moreland_kde.Base.Text.{text}
use moreland_kde.Capture.Plasma.{Desktop, events, created, serial, create}
use moreland_kde.Capture.Plasma.Answers.{IsCreation, create-IsCreation}
use moreland_kde.Capture.Plasma.Stream.{
  Shared, fresh, Callback, process, param_changed, data_fd, VideoInfo, on_callback, on_callbacks,
  wait_for_format,
}
use moreland_kde.Capture.Plasma.Stream.Described.{packed, on_callbacks-packed}
use moreland_kde.Capture.Plasma.Stream.Negotiation.{KnowsFormat, wait_for_format-KnowsFormat}

-- Version 6 answers with the node, and then with the serial.
abbrev plasma6 : Desktop
plasma6 = record {
  connects = true;
  advertised = some 7;
  asked_at = 10;
  deliveries = events 20 [] ∷ events 30 (created 41 ∷ serial 0 977 ∷ []) ∷ [];
}

create-IsCreation_example : IsCreation (text "moreland") (create (text "moreland") plasma6)
create-IsCreation_example = create-IsCreation (text "moreland") plasma6

abbrev wide : VideoInfo
wide = record { info_width = 1920; info_height = 1200; info_modifier = 0; raw_format = 0x0c }

abbrev narrow : VideoInfo
narrow = record { info_width = 1280; info_height = 800; info_modifier = 0; raw_format = 0x0c }

-- A buffer comes before the format, and is dropped; the next one is delivered.
abbrev rounds : List (List Callback)
rounds =
    (process (data_fd (some 5)) ∷ [])
    ∷ (param_changed (some wide) ∷ process (data_fd (some 6)) ∷ [])
    ∷ []

wait_for_format-KnowsFormat_example : KnowsFormat (wait_for_format rounds fresh)
wait_for_format-KnowsFormat_example =
    wait_for_format-KnowsFormat rounds fresh ((tt, tt), ((omega arith, (tt, tt)), tt)) refl

abbrev negotiated : Shared
negotiated = on_callback (param_changed (some wide)) fresh

-- Between two formats of the same width, one buffer fails.
abbrev callbacks : List Callback
callbacks =
    process (data_fd (some 5))
    ∷ param_changed (some wide)
    ∷ process (data_fd (some 6))
    ∷ process (data_fd none)
    ∷ param_changed (some wide)
    ∷ process (data_fd (some 8))
    ∷ []

on_callbacks-packed_example :
    (on_callbacks callbacks fresh).frames ≡ packed 1920 6 ∷ packed 1920 8 ∷ []
on_callbacks-packed_example =
    on_callbacks-packed 1920 callbacks (omega arith) (omega arith)
      (tt, (refl, (tt, (tt, (refl, (tt, tt))))))

-- After a format of another width, the frames of 1280 pixels are described with the stride of 1920.
abbrev old_stride : ℕ
old_stride = 7680

narrow_width :
    (on_callbacks (param_changed (some narrow) ∷ []) negotiated).format.width ≡ narrow.info_width
unfolding on_callbacks on_callback
narrow_width = refl

narrow_stride :
    (on_callbacks (param_changed (some narrow) ∷ []) negotiated).format.stride ≡ old_stride
unfolding on_callbacks on_callback
narrow_stride = refl
