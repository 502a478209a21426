-- ===== src/Encoder/Pipeline/Building.antt =====
-- crates/encoder/src/lib.rs: when the pipeline is built, and when its errors surface.
use moreland_kde.Base.{
  ◌≡◌, refl, ap, sym, ◌∙◌, inl, inr, Bool, true, false, not, ◌&&◌, ◌*◌, Option, none, some, List,
  [], ◌∷◌, ◌++◌, drop, Bool-cases, find_first, if◌then◌else◌,
}
use moreland_kde.Base.Result.{Result, ok, err, guard, ◌>>=◌, ◌>>◌}
use moreland_kde.Base.Text.{Text, text}
use moreland_kde.Encoder.Modifiers.{Registry}
use moreland_kde.Encoder.Pipeline.{
  nvidia_driver_present, EncoderConfig, EncoderError, Encoder, Plugins, make, make_vaapi,
  make_nvenc_gl, make_backend, select_backend, new, not_created, not_added, not_linked, not_started,
  pipeline_error, check_bus, Message, pull_packet, EncodedPacket, nothing_yet,
}

-- The pipelines, from the compositor's buffers to the packets.
abbrev va_pipeline : List Text
va_pipeline =
    text "appsrc"
    ∷ text "vapostproc"
    ∷ text "capsfilter"
    ∷ text "vah264enc"
    ∷ text "h264parse"
    ∷ text "capsfilter"
    ∷ text "appsink"
    ∷ []

abbrev gl_pipeline : List Text
gl_pipeline =
    text "appsrc"
    ∷ text "glupload"
    ∷ text "glcolorconvert"
    ∷ text "gldownload"
    ∷ text "capsfilter"
    ∷ text "nvh264enc"
    ∷ text "h264parse"
    ∷ text "capsfilter"
    ∷ text "appsink"
    ∷ []

-- The one through GL is for a machine with NVIDIA's driver and its encoder.
abbrev pub pipeline_for : Registry → List Text
pipeline_for g = if g.nvidia_version_file && g.nvh264enc then gl_pipeline else va_pipeline

-- An error for the first element that cannot be made, or else what follows.
abbrev pub unless_missing :
    {A : Type 0} → Option Text → Result EncoderError A → Result EncoderError A
unless_missing none rest = rest
unless_missing (some e) rest = err (not_created e)

abbrev pub or_missing :
    {A : Type 0} → Plugins → List Text → Result EncoderError A → Result EncoderError A
or_missing k es rest = unless_missing (find_first (λ e. not (k.makes e)) es) rest

-- What the first element decides.
abbrev decided :
    {A : Type 0} → Plugins → Text → List Text → Result EncoderError A → Bool → Result EncoderError A
decided k e es rest b =
    unless_missing (if not b then some e else find_first (λ e. not (k.makes e)) es) rest

or_missing-made :
    {A : Type 0} (k : Plugins) (e : Text) (es : List Text) (rest : Result EncoderError A)
    → k.makes e ≡ true
    → or_missing k (e ∷ es) rest ≡ or_missing k es rest
or_missing-made k e es rest h = ap (decided k e es rest) h

or_missing-missing :
    {A : Type 0} (k : Plugins) (e : Text) (es : List Text) (rest : Result EncoderError A)
    → k.makes e ≡ false
    → or_missing k (e ∷ es) rest ≡ err (not_created e)
or_missing-missing k e es rest h = ap (decided k e es rest) h

make_step :
    {A : Type 0} (k : Plugins) (e : Text) (es : List Text) (next : Text → Result EncoderError A)
    (rest : Result EncoderError A)
    → next e ≡ or_missing k es rest
    → (make k e >>= next) ≡ or_missing k (e ∷ es) rest
unfolding make
make_step k e es next rest h = elim (Bool-cases (k.makes e)) [
  | inl made ↦
      ap (λ b. (guard b (not_created e) >> ok e) >>= next) made
      ∙ (h ∙ sym (or_missing-made k e es rest made))
  | inr missing ↦
      ap (λ b. (guard b (not_created e) >> ok e) >>= next) missing
      ∙ sym (or_missing-missing k e es rest missing)
]

or_missing-then :
    {A B : Type 0} (k : Plugins) (xs ys : List Text) (a : A) (next : A → Result EncoderError B)
    (rest : Result EncoderError B)
    → next a ≡ or_missing k ys rest
    → (or_missing k xs (ok a) >>= next) ≡ or_missing k (xs ++ ys) rest
or_missing-then k [] ys a next rest h = h
or_missing-then k (x ∷ xs) ys a next rest h = elim (Bool-cases (k.makes x)) [
  | inl made ↦
      ap (λ r. r >>= next) (or_missing-made k x xs (ok a) made)
      ∙ (or_missing-then k xs ys a next rest h ∙ sym (or_missing-made k x (xs ++ ys) rest made))
  | inr missing ↦
      ap (λ r. r >>= next) (or_missing-missing k x xs (ok a) missing)
      ∙ sym (or_missing-missing k x (xs ++ ys) rest missing)
]

abbrev va_part : List Text
va_part = text "vapostproc" ∷ text "capsfilter" ∷ text "vah264enc" ∷ []

abbrev gl_part : List Text
gl_part =
    text "glupload"
    ∷ text "glcolorconvert"
    ∷ text "gldownload"
    ∷ text "capsfilter"
    ∷ text "nvh264enc"
    ∷ []

make_vaapi_lem : (k : Plugins) → make_vaapi k ≡ or_missing k va_part (ok va_part)
unfolding make_vaapi
make_vaapi_lem k =
    make_step k _ (drop 1 va_part) _ (ok va_part)
      (make_step k _ (drop 2 va_part) _ (ok va_part) (make_step k _ [] _ (ok va_part) refl))

make_nvenc_gl_lem : (k : Plugins) → make_nvenc_gl k ≡ or_missing k gl_part (ok gl_part)
unfolding make_nvenc_gl
make_nvenc_gl_lem k = make_step k _ (drop 1 gl_part) _ (ok gl_part) (
    make_step k _ (drop 2 gl_part) _ (ok gl_part) (
      make_step k _ (drop 3 gl_part) _ (ok gl_part)
        (make_step k _ (drop 4 gl_part) _ (ok gl_part) (make_step k _ [] _ (ok gl_part) refl))))

-- The first error on the bus.
abbrev pub first_error : List Message → Option Text
first_error [] = none
first_error (none ∷ ms) = first_error ms
first_error (some e ∷ ms) = some e

abbrev pub surfaced : Option Text → Result EncoderError (Option EncodedPacket)
surfaced none = ok none
surfaced (some e) = err (pipeline_error e)

check_bus_lem :
    (ms : List Message) → (nothing_yet (check_bus (some ms))).0 ≡ surfaced (first_error ms)
unfolding check_bus
check_bus_lem [] = refl
check_bus_lem (none ∷ ms) = check_bus_lem ms
check_bus_lem (some e ∷ ms) = refl

-- With no packet in time, the first error that waits on the bus is returned, whatever messages stand
-- before it, and without one there is just no packet.
pub pull_packet-check_bus :
    (ms : List Message) → (pull_packet none (some ms)).0 ≡ surfaced (first_error ms)
unfolding pull_packet
pull_packet-check_bus ms = check_bus_lem ms

-- What follows the elements: they are added, linked and started.
abbrev pub started : Plugins → EncoderConfig → List Text → Result EncoderError Encoder
started k c elements = do
  guard k.adds not_added
  guard k.links not_linked
  guard k.starts not_started
  ok (record {
    elements = elements;
    frame_size = c.width * c.height * 4;
    width = c.width;
    height = c.height;
  })

abbrev ends : List Text
ends = text "h264parse" ∷ text "capsfilter" ∷ text "appsink" ∷ []

-- What `new` does with the elements of the backend.
abbrev around :
    Plugins → EncoderConfig → Result EncoderError (List Text) → Result EncoderError Encoder
around k c backend = do
  appsrc ← make k (text "appsrc")
  between ← backend
  parser ← make k (text "h264parse")
  parsed_filter ← make k (text "capsfilter")
  appsink ← make k (text "appsink")
  started k c (appsrc ∷ (between ++ (parser ∷ parsed_filter ∷ appsink ∷ [])))

around_lem :
    (k : Plugins) (c : EncoderConfig) (part : List Text) (backend : Result EncoderError (List Text))
    → backend ≡ or_missing k part (ok part)
    → around k c backend
      ≡ or_missing k (text "appsrc" ∷ (part ++ ends)) (started k c (text "appsrc" ∷ (part ++ ends)))
around_lem k c part backend h =
    let rest = started k c (text "appsrc" ∷ (part ++ ends)) in
    make_step k _ (part ++ ends) _ rest (
      rw (h) (
        or_missing-then k part ends part _ rest (
          make_step k _ (drop 1 ends) _ rest
            (make_step k _ (drop 2 ends) _ rest (make_step k _ [] _ rest refl)))))

pub new-pipeline_for :
    (g : Registry) (k : Plugins) (c : EncoderConfig)
    → g.initialises ≡ true
    → new g k c ≡ or_missing k (pipeline_for g) (started k c (pipeline_for g))
unfolding new select_backend nvidia_driver_present make_backend
new-pipeline_for g k c works = elim (Bool-cases (g.nvidia_version_file && g.nvh264enc)) [
  | inl gl ↦ rw (works, gl) (around_lem k c gl_part (make_nvenc_gl k) (make_nvenc_gl_lem k))
  | inr va ↦ rw (works, va) (around_lem k c va_part (make_vaapi k) (make_vaapi_lem k))
]
