-- ===== src/Daemon/Tracker/Laws.antt =====
-- The device list and the frames of crates/daemon/src/tracker.rs.
use moreland_kde.Base.{
  ℕ, ◌+◌, ◌*◌, ◌/◌, ◌%◌, ◌<◌, ◌≡◌, refl, sym, ap, ◌∙◌, true, false, some, List, [], ◌∷◌, ◌++◌,
  arith, ◌==◌, le→leb, length, All, length-append, take_all, drop_all, All-append,
}
use moreland_kde.Base.Result.{ok}
use moreland_kde.Base.Text.{Text, is_whitespace, push_front, lines, starts_word, split_whitespace}
use mathlib.Core.List.{append-nil, append_assoc}
use moreland_kde.Daemon.Tracker.{
  Device, parse_devices, device_of_words, read_exact, hex_value, hex_digits, from_hex, read_payload,
  hex_char, hex4, frame_request, next_update,
}

-- A field of a device line: at least one character, and no whitespace.
abbrev pub IsWord : Text → Type 0
IsWord [] = ⊥
IsWord (c ∷ s) = (is_whitespace c ≡ false) × All (λ d. is_whitespace d ≡ false) s

-- A line as the ADB server prints it: serial, tab, state, newline.
abbrev pub print_device : Device → Text
print_device d = d.serial ++ (9 ∷ (d.state ++ (10 ∷ [])))

abbrev pub print_devices : List Device → Text
print_devices [] = []
print_devices (d ∷ ds) = print_device d ++ print_devices ds

abbrev pub DeviceFits : Device → Type 0
DeviceFits d = IsWord d.serial × IsWord d.state

-- Characters that end no line.
abbrev NoBreak : Text → Type 0
NoBreak = All (λ c. ((c == 10) ≡ false) × ((c == 13) ≡ false))

lines_line : (l rest : Text) → NoBreak l → lines (l ++ (10 ∷ rest)) ≡ l ∷ lines rest
lines_line [] rest h = refl
lines_line (c ∷ l) rest ((n, r), h) = rw (n, r, lines_line l rest h)

tab_is_whitespace : is_whitespace 9 ≡ true
unfolding is_whitespace
tab_is_whitespace = refl

not_break : (c : ℕ) → is_whitespace c ≡ false → ((c == 10) ≡ false) × ((c == 13) ≡ false)
unfolding is_whitespace
not_break c h = ground arith

space_free_NoBreak : (s : Text) → All (λ d. is_whitespace d ≡ false) s → NoBreak s
space_free_NoBreak [] h = tt
space_free_NoBreak (c ∷ s) (hc, h) = (not_break c hc, space_free_NoBreak s h)

split_more :
    (c : ℕ) (s : Text)
    → is_whitespace c ≡ false
    → starts_word s ≡ true
    → split_whitespace (c ∷ s) ≡ push_front c (split_whitespace s)
split_more c s hc hs = rw (hc, hs)

split_word :
    (c : ℕ) (s rest : Text)
    → is_whitespace c ≡ false
    → All (λ d. is_whitespace d ≡ false) s
    → starts_word rest ≡ false
    → split_whitespace (c ∷ (s ++ rest)) ≡ (c ∷ s) ∷ split_whitespace rest
split_word c [] rest hc h e = rw (hc, e)
split_word c (d ∷ s) rest hc (hd, h) e =
    split_more c (d ∷ (s ++ rest)) hc (rw hd) ∙ ap (push_front c) (split_word d s rest hd h e)

split_tab : (t : Text) → split_whitespace (9 ∷ t) ≡ split_whitespace t
split_tab t = rw tab_is_whitespace

split_last :
    (d : ℕ) (t : Text)
    → is_whitespace d ≡ false
    → All (λ c. is_whitespace c ≡ false) t
    → split_whitespace (d ∷ t) ≡ (d ∷ t) ∷ []
split_last d t hd k =
    ap (λ x. split_whitespace (d ∷ x)) (sym (append-nil t)) ∙ split_word d t [] hd k refl

split_line :
    (d : Device)
    → DeviceFits d
    → split_whitespace (d.serial ++ (9 ∷ d.state)) ≡ d.serial ∷ d.state ∷ []
split_line d (hs, ht) = split_fields d.serial d.state hs ht
  where
    split_fields : (s t : Text) → IsWord s → IsWord t → split_whitespace (s ++ (9 ∷ t)) ≡ s ∷ t ∷ []
    split_fields [] t h k = absurd h
    split_fields (c ∷ s) [] h k = absurd k
    split_fields (c ∷ s) (d ∷ t) (hc, h) (hd, k) =
        split_word c s (9 ∷ d ∷ t) hc h (rw tab_is_whitespace)
        ∙ ap (◌∷◌ (c ∷ s)) (split_tab (d ∷ t) ∙ split_last d t hd k)

-- follows, for every request shorter than 65536 bytes.
hex_value-hex_char : (d : ℕ) → d < 16 → hex_value (hex_char d) ≡ some d
unfolding hex_value hex_char
hex_value-hex_char d h = ground arith

hex_digits_step :
    (acc d : ℕ) (s : Text) → d < 16 → hex_digits acc (hex_char d ∷ s) ≡ hex_digits (acc * 16 + d) s
unfolding hex_digits
hex_digits_step acc d s h = rw (hex_value-hex_char d h, hex_digits)

hex_char-ne-plus : (d : ℕ) → d < 16 → (hex_char d == b'+') ≡ false
unfolding hex_char
hex_char-ne-plus d h = ground arith

from_hex-hex4 : (n : ℕ) → n < 65536 → from_hex (hex4 n) ≡ some n
unfolding from_hex hex4
from_hex-hex4 n h =
    let total : (((0 * 16 + n / 4096 % 16) * 16 + n / 256 % 16) * 16 + n / 16 % 16) * 16 + n % 16
        ≡ n =
      omega arith in
    rw (hex_char-ne-plus (n / 4096 % 16) (omega arith)) (
      hex_digits_step 0 (n / 4096 % 16)
        (hex_char (n / 256 % 16) ∷ hex_char (n / 16 % 16) ∷ hex_char (n % 16) ∷ []) (omega arith)
      ∙ (hex_digits_step (0 * 16 + n / 4096 % 16) (n / 256 % 16)
            (hex_char (n / 16 % 16) ∷ hex_char (n % 16) ∷ []) (omega arith)
          ∙ (hex_digits_step ((0 * 16 + n / 4096 % 16) * 16 + n / 256 % 16) (n / 16 % 16)
                (hex_char (n % 16) ∷ []) (omega arith)
              ∙ (hex_digits_step (((0 * 16 + n / 4096 % 16) * 16 + n / 256 % 16) * 16 + n / 16 % 16)
                    (n % 16) [] (omega arith)
                  ∙ ap some total))))

read_exact_all : (xs rest : List ℕ) → read_exact (length xs) (xs ++ rest) ≡ ok (xs, rest)
unfolding read_exact
read_exact_all xs rest = rw (
  le→leb (length xs) (length (xs ++ rest)) (omega (arith, length-append xs rest)),
  take_all xs rest,
  drop_all xs rest,
)

-- A payload framed by its length in four hexadecimal digits is read back whole, and what follows it
-- is left on the stream, for every payload shorter than 65536 bytes.
pub read_payload-frame_request :
    (s : Text) (rest : List ℕ)
    → length s < 65536
    → read_payload (frame_request s ++ rest) ≡ ok (s, rest)
unfolding read_payload frame_request
read_payload-frame_request s rest h = rw (
  append_assoc (hex4 (length s)) s rest,
  read_exact_all (hex4 (length s)) (s ++ rest),
  from_hex-hex4 (length s) h,
  read_exact_all s rest,
)

regroup : (s t rest : Text) → (s ++ (9 ∷ (t ++ (10 ∷ [])))) ++ rest ≡ (s ++ (9 ∷ t)) ++ (10 ∷ rest)
regroup s t rest = simp append_assoc

IsWord-NoBreak : (s : Text) → IsWord s → NoBreak s
IsWord-NoBreak [] h = absurd h
IsWord-NoBreak (c ∷ s) (hc, h) = (not_break c hc, space_free_NoBreak s h)

device_line :
    (d : Device) (rest : Text)
    → DeviceFits d
    → lines (print_device d ++ rest) ≡ (d.serial ++ (9 ∷ d.state)) ∷ lines rest
device_line d rest (hs, ht) =
    ap lines (regroup d.serial d.state rest)
    ∙ lines_line (d.serial ++ (9 ∷ d.state)) rest (
        All-append (λ c. ((c == 10) ≡ false) × ((c == 13) ≡ false)) d.serial (9 ∷ d.state)
          (IsWord-NoBreak d.serial hs) ((refl, refl), IsWord-NoBreak d.state ht))

devices_back : (ds : List Device) → All DeviceFits ds → parse_devices (print_devices ds) ≡ ds
unfolding parse_devices device_of_words
devices_back [] fits = refl
devices_back (d ∷ ds) (fit, fits) =
    rw (device_line d (print_devices ds) fit, split_line d fit) (ap (◌∷◌ d) (devices_back ds fits))

-- The device list that the server prints is parsed back to the same devices, in the same order, if
-- each serial and state is a word; and `next_update` takes exactly that list off the stream.
pub next_update-print_devices :
    (ds : List Device) (rest : List ℕ)
    → All DeviceFits ds
    → length (print_devices ds) < 65536
    → next_update (frame_request (print_devices ds) ++ rest) ≡ ok (ds, rest)
unfolding next_update
next_update-print_devices ds rest fits h =
    rw (read_payload-frame_request (print_devices ds) rest h, devices_back ds fits)
