-- ===== src/Daemon/Tracker.antt =====
-- crates/daemon/src/tracker.rs: the ADB server protocol and the device list.
pub mod Laws
use moreland_kde.Base.{
  ℕ, zero, suc, ◌+◌, ◌-◌, ◌*◌, ◌/◌, ◌%◌, ◌^◌, ◌≤◌, ◌<◌, min, max, bit_and, bit_or, ◌≡◌, refl, sym,
  ap, subst, ◌∙◌, ◌≢◌, ◌↔◌, ◌⊎◌, inl, inr, Bool, true, false, not, ◌&&◌, ◌||◌, Option, none, some,
  List, [], ◌∷◌, ◌++◌, map, arith, ltb, leb, ◌==◌, if◌then◌else◌, ltb→lt, lt→ltb, leb→le, le→leb,
  ==_iff, ==_refl, tests, Bool-cases, Option-cases, length, get_elem?, take, drop, replicate,
  keep_if, any, find_first, flatten, All, length-append, take-append-drop, length-take, length-drop,
  length-replicate, take_all, drop_all, All-append,
}
use moreland_kde.Base.Result.{Result, ok, err, ◌>>=◌, ◌>>◌, guard, >>=-eq-ok, guard_passed}
use moreland_kde.Base.Text.{
  Text, text, text_eq, text_eq_iff, text_eq_refl, is_whitespace, is_digit, is_upper, is_lower,
  is_ascii_alphanumeric, lower_char, to_ascii_lowercase, is_empty, starts_with, contains,
  strip_prefix, trim_start, trim_end, trim, push_front, starts_newline, lines, starts_word,
  split_whitespace, split_once, until, second_piece, parse_digits, parse_nonempty, parse_unsigned,
  u8_max, u16_max, u32_max,
}

pub record Device : Type 0 where
  pub serial : Text
  pub state : Text

-- `Device::is_ready`.
unfoldable pub is_ready : Device → Bool
is_ready d = text_eq d.state (text "device")

-- What the filter's closure does with the words of a line.
unfoldable pub device_of_words : List Text → Option Device
device_of_words [] = none
device_of_words (serial ∷ []) = none
device_of_words (serial ∷ state ∷ rest) = some (record { serial = serial; state = state })

abbrev pub push_some : Option Device → List Device → List Device
push_some none ds = ds
push_some (some d) ds = d ∷ ds

unfoldable pub devices_of_lines : List Text → List Device
unfolding device_of_words
devices_of_lines [] = []
devices_of_lines (l ∷ ls) = push_some (device_of_words (split_whitespace l)) (devices_of_lines ls)

unfoldable pub parse_devices : Text → List Device
unfolding devices_of_lines
parse_devices payload = devices_of_lines (lines payload)

pub data TrackerError : Type 0 where
  end_of_stream bad_length : TrackerError
  rejected : Text → TrackerError
  unexpected_status : Text → TrackerError

-- `read_exact`: the bytes and the stream behind them.
unfoldable pub read_exact : ℕ → List ℕ → Result TrackerError (List ℕ × List ℕ)
read_exact n s = if leb n (length s) then ok (take n s, drop n s) else err end_of_stream

unfoldable pub hex_value : ℕ → Option ℕ
hex_value c =
    if is_digit c
    then some (c - b'0')
    else if leb b'a' c && leb c b'f'
    then some (c - b'a' + 10)
    else if leb b'A' c && leb c b'F'
    then some (c - b'A' + 10)
    else none

-- The digits of `usize::from_str_radix(_, 16)`.
unfoldable pub hex_digits : ℕ → Text → Option ℕ
hex_digits acc [] = some acc
hex_digits acc (c ∷ s) = elim (hex_value c) [ none ↦ none | some d ↦ hex_digits (acc * 16 + d) s ]

-- `usize::from_str_radix(_, 16)` on four characters, where a leading `+` is allowed.
unfoldable pub from_hex : Text → Option ℕ
unfolding hex_digits
from_hex [] = none
from_hex (c ∷ s) = if c == b'+' then hex_digits 0 s else hex_digits 0 (c ∷ s)

unfoldable pub to_length : Option ℕ → Result TrackerError ℕ
to_length none = err bad_length
to_length (some n) = ok n

-- `read_payload`; the payload is taken as it is, byte by byte.
unfoldable pub read_payload : List ℕ → Result TrackerError (Text × List ℕ)
unfolding from_hex to_length
read_payload s = do
  (len_hex, s) ← read_exact 4 s
  len ← to_length (from_hex len_hex)
  read_exact len s

-- A hexadecimal digit, and `{:04x}` of a number below 65536.
unfoldable pub hex_char : ℕ → ℕ
hex_char d = if ltb d 10 then d + b'0' else d - 10 + b'a'

unfoldable pub hex4 : ℕ → Text
unfolding hex_char
hex4 n =
    hex_char (n / 4096 % 16)
    ∷ hex_char (n / 256 % 16)
    ∷ hex_char (n / 16 % 16)
    ∷ hex_char (n % 16)
    ∷ []

-- What `send_request` writes, for a request below 65536 bytes.
unfoldable pub frame_request : Text → List ℕ
unfolding hex4
frame_request request = hex4 (length request) ++ request

-- The status that the server answers with; on `FAIL` the reason follows, or is taken as empty.
unfoldable pub reason_of : Result TrackerError (Text × List ℕ) → Text
reason_of (ok (reason, rest)) = reason
reason_of (err e) = []

unfoldable pub judge_status : Text → List ℕ → Result TrackerError (List ℕ)
unfolding reason_of
judge_status status rest =
    if text_eq status (text "OKAY")
    then ok rest
    else if text_eq status (text "FAIL")
    then err (rejected (reason_of (read_payload rest)))
    else err (unexpected_status status)

unfoldable pub read_status : List ℕ → Result TrackerError (List ℕ)
unfolding judge_status
read_status s = do (status, rest) ← read_exact 4 s; judge_status status rest

-- `next_update` on what the server has sent.
unfoldable pub next_update : List ℕ → Result TrackerError (List Device × List ℕ)
next_update s = do (payload, rest) ← read_payload s; ok (parse_devices payload, rest)
