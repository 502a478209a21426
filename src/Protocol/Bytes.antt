-- ===== src/Protocol/Bytes.antt =====
-- Fixed-size byte buffers and big-endian fields, as crates/protocol/src/lib.rs uses them.
-- A buffer is a list of numbers; an access outside it is a panic of the source.
use moreland_kde.Base.{
  ℕ, zero, suc, ◌+◌, ◌-◌, ◌*◌, ◌/◌, ◌%◌, ◌^◌, ◌<◌, ◌≡◌, refl, none, some, List, [], ◌∷◌, ◌++◌,
  arith, leb, if◌then◌else◌, length, get_elem?, take, drop, All, length-append, All-append, ◌&&◌,
  Bool, true, false, ◌==◌, ◌↔◌,
}
use moreland_kde.Base.Result.{Result, ok, err}

abbrev pub IsByte : ℕ → Type 0
IsByte b = b < 256

abbrev pub IsU16 : ℕ → Type 0
IsU16 v = v < 65536

abbrev pub IsU32 : ℕ → Type 0
IsU32 v = v < 4294967296

abbrev pub IsU64 : ℕ → Type 0
IsU64 v = v < 18446744073709551616

-- `to_be_bytes` of a value of `n` bytes.
abbrev pub to_be_bytes : ℕ → ℕ → List ℕ
to_be_bytes zero v = []
to_be_bytes (suc n) v = to_be_bytes n (v / 256) ++ (v % 256 ∷ [])

abbrev pub from_be_loop : ℕ → List ℕ → ℕ
from_be_loop acc [] = acc
from_be_loop acc (b ∷ bs) = from_be_loop (acc * 256 + b) bs

-- `from_be_bytes`.
abbrev pub from_be_bytes : List ℕ → ℕ
from_be_bytes bs = from_be_loop 0 bs

-- `buf[at..at + bytes.len()].copy_from_slice(bytes)`, at offsets that are in range.
abbrev pub write_at : List ℕ → ℕ → List ℕ → List ℕ
write_at [] i bytes = []
write_at (b ∷ buf) (suc i) bytes = b ∷ write_at buf i bytes
write_at (b ∷ buf) zero [] = b ∷ buf
write_at (b ∷ buf) zero (x ∷ bytes) = x ∷ write_at buf zero bytes

-- `buf[i]`; `e` is the panic.
abbrev pub index : {E : Type 0} → E → List ℕ → ℕ → Result E ℕ
index e buf i = elim (get_elem? buf i) [ none ↦ err e | some b ↦ ok b ]

-- `&buf[lo..hi]` for `lo <= hi`; `e` is the panic.
abbrev pub slice : {E : Type 0} → E → List ℕ → ℕ → ℕ → Result E (List ℕ)
slice e buf lo hi = if leb hi (length buf) then ok (take (hi - lo) (drop lo buf)) else err e

-- `==` of byte slices.
abbrev pub bytes_eq : List ℕ → List ℕ → Bool
bytes_eq [] [] = true
bytes_eq [] (y ∷ ys) = false
bytes_eq (x ∷ xs) [] = false
bytes_eq (x ∷ xs) (y ∷ ys) = x == y && bytes_eq xs ys

from_be_loop-append :
    (acc : ℕ) (xs : List ℕ) (b : ℕ)
    → from_be_loop acc (xs ++ (b ∷ [])) ≡ from_be_loop acc xs * 256 + b
from_be_loop-append acc [] b = refl
from_be_loop-append acc (x ∷ xs) b = from_be_loop-append (acc * 256 + x) xs b

pow_bound : (n v : ℕ) → v < 256 ^ suc n → v / 256 < 256 ^ n
pow_bound n v h = omega arith

-- Decoding undoes encoding for every value that the width holds.
pub from_be_bytes-to_be_bytes : (n v : ℕ) → v < 256 ^ n → from_be_bytes (to_be_bytes n v) ≡ v
from_be_bytes-to_be_bytes zero v h = omega arith
from_be_bytes-to_be_bytes (suc n) v h = omega (
  arith,
  from_be_loop-append 0 (to_be_bytes n (v / 256)) (v % 256),
  from_be_bytes-to_be_bytes n (v / 256) (pow_bound n v h),
)

pub to_be_bytes-IsByte : (n v : ℕ) → All IsByte (to_be_bytes n v)
to_be_bytes-IsByte zero v = tt
to_be_bytes-IsByte (suc n) v =
    All-append IsByte (to_be_bytes n (v / 256)) (v % 256 ∷ []) (to_be_bytes-IsByte n (v / 256))
      (omega arith)

pub length-to_be_bytes : (n v : ℕ) → length (to_be_bytes n v) ≡ n
length-to_be_bytes zero v = refl
length-to_be_bytes (suc n) v =
    omega (
      arith,
      length-append (to_be_bytes n (v / 256)) (v % 256 ∷ []),
      length-to_be_bytes n (v / 256),
    )

-- A read below the length succeeds.
pub index_lt :
    {E : Type 0} (e : E) (buf : List ℕ) (i : ℕ) → i < length buf → (b : ℕ) × (index e buf i ≡ ok b)
index_lt e [] i h = elim h [ ]
index_lt e (b ∷ buf) zero h = (b, refl)
index_lt e (b ∷ buf) (suc i) h = index_lt e buf i (omega arith)

pub bytes_eq_iff : (xs ys : List ℕ) → (bytes_eq xs ys ≡ true) ↔ (xs ≡ ys)
bytes_eq_iff [] [] = ground arith
bytes_eq_iff [] (y ∷ ys) = ground arith
bytes_eq_iff (x ∷ xs) [] = ground arith
bytes_eq_iff (x ∷ xs) (y ∷ ys) = ground (arith, bytes_eq_iff xs ys)
