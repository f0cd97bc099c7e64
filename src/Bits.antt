-- ===== src/Bits.antt =====
-- `|` and `&` of Rust on unsigned words, as arithmetic: fields side by side, low masks and single bits.
use Prim.Native.Nat.{bit_and, bit_or, bit_and-bitwise, bit_or-bitwise, digits, min, max}
use native.Mathlib.Nat.{pow-suc}
use agent_share.Prelude.{
  ℕ, zero, suc, ◌+◌, ◌*◌, ◌/◌, ◌%◌, ◌^◌, ◌<◌, ◌≤◌, ◌≡◌, refl, ap, ◌∙◌, Bool, true, false, ◌&&◌, not,
  arith, ltb, ltb→lt, ◌==◌, if◌then◌else◌,
}

-- The recursion on digits does not depend on its fuel.
same_digits :
    (rest : ℕ → ℕ) (op : ℕ → ℕ → ℕ) (fuel other a b : ℕ)
    → a ≤ fuel
    → a ≤ other
    → digits rest op fuel a b ≡ digits rest op other a b
same_digits rest op zero zero a b h k = refl
same_digits rest op zero (suc other) zero b h k = refl
same_digits rest op zero (suc other) (suc a) b h k = absurd (omega arith)
same_digits rest op (suc fuel) zero zero b h k = refl
same_digits rest op (suc fuel) zero (suc a) b h k = absurd (omega arith)
same_digits rest op (suc fuel) (suc other) zero b h k = refl
same_digits rest op (suc fuel) (suc other) (suc a) b h k =
    rw (same_digits rest op fuel other (suc a / 2) (b / 2) (omega arith) (omega arith)) refl

or_low : (a b : ℕ) → bit_or a b ≡ bit_or (a / 2) (b / 2) * 2 + max (a % 2) (b % 2)
or_low zero b = simp bit_or-bitwise (omega arith)
or_low (suc a) b = simp bit_or-bitwise (
    omega (
      arith,
      same_digits (λ t. t) max a (suc a / 2) (suc a / 2) (b / 2) (omega arith) (omega arith),
    ))

and_low : (a b : ℕ) → bit_and a b ≡ bit_and (a / 2) (b / 2) * 2 + min (a % 2) (b % 2)
and_low zero b = simp bit_and-bitwise (omega arith)
and_low (suc a) b = simp bit_and-bitwise (
    omega (
      arith,
      same_digits (λ t. 0) min a (suc a / 2) (suc a / 2) (b / 2) (omega arith) (omega arith),
    ))

or_zero_below : (bound a : ℕ) → a ≤ bound → bit_or a 0 ≡ a
or_zero_below bound zero h = refl
or_zero_below zero (suc a) h = absurd (omega arith)
or_zero_below (suc bound) (suc a) h =
    omega (arith, or_low (suc a) 0, or_zero_below bound (suc a / 2) (omega arith))

and_zero_below : (bound a : ℕ) → a ≤ bound → bit_and a 0 ≡ 0
and_zero_below bound zero h = refl
and_zero_below zero (suc a) h = absurd (omega arith)
and_zero_below (suc bound) (suc a) h =
    omega (arith, and_low (suc a) 0, and_zero_below bound (suc a / 2) (omega arith))

pub bit_or-zero : (a : ℕ) → bit_or a 0 ≡ a
bit_or-zero a = or_zero_below a a (omega arith)

-- A field beside a shifted word.
pub bit_or-shifted :
    (width word field : ℕ)
    → field < 2 ^ width
    → bit_or (word * 2 ^ width) field ≡ word * 2 ^ width + field
bit_or-shifted zero word field h =
    let none_left : field ≡ 0 = omega arith in rw none_left (bit_or-zero (word * 1) ∙ omega arith)
bit_or-shifted (suc width) word field h =
    let twice : word * 2 ^ suc width ≡ 2 * (word * 2 ^ width) =
      omega (arith, ap (λ (t : ℕ). word * t) (pow-suc 2 width)) in
    let wide : 2 ^ suc width ≡ 2 * 2 ^ width = omega (arith, pow-suc 2 width) in
    ground (
      arith,
      twice,
      wide,
      or_low (word * 2 ^ suc width) field,
      bit_or-shifted width word (field / 2) (omega arith),
    )

and_zero : (a : ℕ) → bit_and a 0 ≡ 0
and_zero a = and_zero_below a a (omega arith)

-- A mask of ones takes a remainder.
pub bit_and-six_ones : (a : ℕ) → bit_and a 0x3f ≡ a % 2 ^ 6
bit_and-six_ones a = omega (
  arith,
  and_low (a) 63,
  and_low (a / 2) 31,
  and_low (a / 2 / 2) 15,
  and_low (a / 2 / 2 / 2) 7,
  and_low (a / 2 / 2 / 2 / 2) 3,
  and_low (a / 2 / 2 / 2 / 2 / 2) 1,
  and_zero (a / 2 / 2 / 2 / 2 / 2 / 2),
)

pub bit_and-eight_ones : (a : ℕ) → bit_and a 0xff ≡ a % 2 ^ 8
bit_and-eight_ones a =
    omega (arith, and_low a 255, and_low (a / 2) 127, bit_and-six_ones (a / 2 / 2))

-- What holds below a bound by evaluation holds below it.
unfoldable pub all_below : ℕ → (ℕ → Bool) → Bool
all_below zero p = true
all_below (suc n) p = p n && all_below n p

pub all_below_lem : (n : ℕ) (p : ℕ → Bool) (x : ℕ) → all_below n p ≡ true → x < n → p x ≡ true
unfolding all_below
all_below_lem zero p x h lt = absurd (omega arith)
all_below_lem (suc n) p x h lt = ground (arith, all_below_lem n p x)

abbrev has : ℕ → ℕ → Bool
has byte k = not (bit_and byte (2 ^ k) == 0)

abbrev same : Bool → Bool → Bool
same true b = b
same false b = not b

same→eq : (a b : Bool) → same a b ≡ true → a ≡ b
same→eq true true h = refl
same→eq true false h = ground arith
same→eq false true h = ground arith
same→eq false false h = refl

abbrev one_bit : ℕ → ℕ → ℕ → Bool
one_bit byte k j = same (has (bit_or byte (2 ^ k)) j) (if k == j then true else has byte j)

one_bit_table :
    all_below 256 (λ byte. all_below 8 (λ k. all_below 8 (λ j. one_bit byte k j))) ≡ true
unfolding all_below
one_bit_table = refl

-- Setting a bit of a byte sets that bit alone.
pub bit_and-bit_or :
    (byte k j : ℕ)
    → byte < 256
    → k < 8
    → j < 8
    → not (bit_and (bit_or byte (2 ^ k)) (2 ^ j) == 0)
      ≡ (if k == j then true else not (bit_and byte (2 ^ j) == 0))
bit_and-bit_or byte k j hb hk hj = same→eq _ _ (
    all_below_lem 8 (λ j. one_bit byte k j) j
      (all_below_lem 8 (λ k. all_below 8 (λ j. one_bit byte k j)) k
        (all_below_lem 256 (λ byte. all_below 8 (λ k. all_below 8 (λ j. one_bit byte k j))) byte
          one_bit_table hb)
        hk)
      hj)

byte_table : all_below 256 (λ byte. all_below 8 (λ k. ltb (bit_or byte (2 ^ k)) 256)) ≡ true
unfolding all_below
byte_table = refl

pub bit_or-IsByte : (byte k : ℕ) → byte < 256 → k < 8 → bit_or byte (2 ^ k) < 256
bit_or-IsByte byte k hb hk = ltb→lt _ _ (
    all_below_lem 8 (λ k. ltb (bit_or byte (2 ^ k)) 256) k
      (all_below_lem 256 (λ byte. all_below 8 (λ k. ltb (bit_or byte (2 ^ k)) 256)) byte byte_table
        hb)
      hk)

zero-and : (b : ℕ) → bit_and 0 b ≡ 0
zero-and b = bit_and-bitwise 0 b

pub zero-bit_and-bit : (b : ℕ) → not (bit_and 0 b == 0) ≡ false
zero-bit_and-bit b = rw (zero-and b) refl
