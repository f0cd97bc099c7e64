-- ===== src/Wire/Words.antt =====
-- Little-endian words: `to_le_bytes` and `from_le_bytes` of the Rust standard library.
use mathlib.Core.Path.{subst}
use agent_share.Prelude.{
  ℕ, zero, suc, ◌+◌, ◌-◌, ◌*◌, ◌/◌, ◌%◌, ◌^◌, ◌<◌, ◌≡◌, refl, ap, sym, List, [], ◌∷◌, arith, length,
  All, ltb, if◌then◌else◌,
}

abbrev pub IsByte : ℕ → Type 0
IsByte b = b < 256

-- `w` bytes, the lowest first; what does not fit is cut off.
unfoldable pub le_bytes : ℕ → ℕ → List ℕ
le_bytes zero n = []
le_bytes (suc w) n = (n % 256) ∷ le_bytes w (n / 256)

unfoldable pub from_le : List ℕ → ℕ
from_le [] = 0
from_le (b ∷ bs) = b + 256 * from_le bs

pub length-le_bytes : (w n : ℕ) → length (le_bytes w n) ≡ w
unfolding le_bytes
length-le_bytes zero n = refl
length-le_bytes (suc w) n = ap suc (length-le_bytes w (n / 256))

pub le_bytes-IsByte : (w n : ℕ) → All IsByte (le_bytes w n)
unfolding le_bytes
le_bytes-IsByte zero n = tt
le_bytes-IsByte (suc w) n = (omega arith, le_bytes-IsByte w (n / 256))

-- Writing the bytes of a word that was read gives the bytes back.
pub le_bytes-from_le : (bs : List ℕ) → All IsByte bs → le_bytes (length bs) (from_le bs) ≡ bs
unfolding le_bytes from_le
le_bytes-from_le [] h = refl
le_bytes-from_le (b ∷ bs) (hb, hbs) =
    let low : (b + 256 * from_le bs) % 256 ≡ b = omega arith in
    let high : (b + 256 * from_le bs) / 256 ≡ from_le bs = omega arith in
    cc (low, high, le_bytes-from_le bs hbs)

-- A bound that shrinks by a byte in each round.
abbrev pub Fits : ℕ → ℕ → Type 0
Fits zero n = n ≡ 0
Fits (suc w) n = Fits w (n / 256)

pub from_le-le_bytes : (w n : ℕ) → Fits w n → from_le (le_bytes w n) ≡ n
unfolding le_bytes from_le
from_le-le_bytes zero n h = omega arith
from_le-le_bytes (suc w) n h = omega (arith, from_le-le_bytes w (n / 256) h)

pub from_le-Fits : (bs : List ℕ) → All IsByte bs → Fits (length bs) (from_le bs)
unfolding from_le
from_le-Fits [] h = refl
from_le-Fits (b ∷ bs) (hb, hbs) =
    let high : (b + 256 * from_le bs) / 256 ≡ from_le bs = omega arith in
    subst (Fits (length bs)) (sym high) (from_le-Fits bs hbs)

abbrev pub IsU16 : ℕ → Type 0
IsU16 n = n < 2 ^ 16

abbrev pub IsU32 : ℕ → Type 0
IsU32 n = n < 2 ^ 32

abbrev pub IsU64 : ℕ → Type 0
IsU64 n = n < 2 ^ 64

pub u16-Fits : (n : ℕ) → IsU16 n → Fits 2 n
u16-Fits n h = omega arith

pub u32-Fits : (n : ℕ) → IsU32 n → Fits 4 n
u32-Fits n h = omega arith

pub u64-Fits : (n : ℕ) → IsU64 n → Fits 8 n
u64-Fits n h = omega arith

pub Fits-IsU16 : (n : ℕ) → Fits 2 n → IsU16 n
Fits-IsU16 n h = omega arith

pub Fits-IsU32 : (n : ℕ) → Fits 4 n → IsU32 n
Fits-IsU32 n h = omega arith

pub Fits-IsU64 : (n : ℕ) → Fits 8 n → IsU64 n
Fits-IsU64 n h = omega arith

-- `i64`, with `negsuc n` for -(n + 1).
pub data ℤ : Type 0 where
  pos negsuc : ℕ → ℤ

abbrev pub IsI64 : ℤ → Type 0
IsI64 (pos n) = n < 2 ^ 63
IsI64 (negsuc n) = n < 2 ^ 63

-- The two's complement pattern of an `i64`, and the number that a pattern stands for.
unfoldable pub to_bits : ℤ → ℕ
to_bits (pos n) = n
to_bits (negsuc n) = 2 ^ 64 - (n + 1)

unfoldable pub of_bits : ℕ → ℤ
of_bits n = if ltb n (2 ^ 63) then pos n else negsuc (2 ^ 64 - 1 - n)

pub of_bits-to_bits : (z : ℤ) → IsI64 z → of_bits (to_bits z) ≡ z
unfolding of_bits to_bits
of_bits-to_bits (pos n) h = ground arith
of_bits-to_bits (negsuc n) h = ground arith

pub to_bits-of_bits : (n : ℕ) → IsU64 n → to_bits (of_bits n) ≡ n
unfolding of_bits to_bits
to_bits-of_bits n h = ground arith

pub to_bits-IsU64 : (z : ℤ) → IsI64 z → IsU64 (to_bits z)
unfolding to_bits
to_bits-IsU64 (pos n) h = omega arith
to_bits-IsU64 (negsuc n) h = omega arith

pub of_bits-IsI64 : (n : ℕ) → IsU64 n → IsI64 (of_bits n)
unfolding of_bits
of_bits-IsI64 n h = ground arith
