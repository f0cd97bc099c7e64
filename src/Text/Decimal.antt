-- ===== src/Text/Decimal.antt =====
-- A number that is printed is read back.
use agent_share.Prelude.{
  ℕ, zero, suc, ◌+◌, ◌-◌, ◌*◌, ◌/◌, ◌%◌, ◌^◌, ◌<◌, ◌≤◌, ◌≡◌, refl, ap, ◌∙◌, List, [], ◌∷◌, ◌++◌,
  true, false, none, some, arith, ltb, ◌==◌, All, All-append, Bool-cases, inl, inr,
}
use agent_share.Text.{is_empty, parse_digits, parse_u32, digits, decimal}

abbrev pub IsDigit : ℕ → Type 0
IsDigit c = (b'0' ≤ c) × (c ≤ b'9')

-- Enough fuel for the digits of a number.
abbrev Enough : ℕ → ℕ → Type 0
Enough zero n = n < 1
Enough (suc fuel) n = Enough fuel (n / 10)

digits-IsDigit : (fuel n : ℕ) → All IsDigit (digits fuel n)
unfolding digits
digits-IsDigit zero n = tt
digits-IsDigit (suc fuel) n = elim (Bool-cases (ltb n 10)) [
  | inl small ↦ rw small ((omega arith, ground arith), tt)
  | inr large ↦ rw large (
      All-append IsDigit (digits fuel (n / 10)) ((b'0' + n % 10) ∷ [])
        (digits-IsDigit fuel (n / 10)) ((omega arith, omega arith), tt))
]

pub decimal-IsDigit : (n : ℕ) → All IsDigit (decimal n)
unfolding decimal
decimal-IsDigit n = digits-IsDigit 10 n

parse_digits-append :
    (acc n : ℕ) (xs ys : List ℕ)
    → parse_digits acc xs ≡ some n
    → parse_digits acc (xs ++ ys) ≡ parse_digits n ys
unfolding parse_digits
parse_digits-append acc n [] ys h =
    ap (λ o. elim o [ none ↦ parse_digits acc ys | some k ↦ parse_digits k ys ]) h
parse_digits-append acc n (c ∷ cs) ys h =
    ground (arith, parse_digits-append (acc * 10 + (c - b'0')) n cs ys)

digits-read :
    (fuel n : ℕ) → n < 2 ^ 32 → Enough (suc fuel) n → parse_digits 0 (digits (suc fuel) n) ≡ some n
unfolding digits parse_digits
digits-read zero n small h = let one : ltb n 10 ≡ true = ground arith in rw one (ground arith)
digits-read (suc fuel) n small h = elim (Bool-cases (ltb n 10)) [
  | inl one ↦ rw one (ground arith)
  | inr more ↦ rw more (
      parse_digits-append 0 (n / 10) (digits (suc fuel) (n / 10)) ((b'0' + n % 10) ∷ [])
        (digits-read fuel (n / 10) (omega arith) h)
      ∙ ground arith)
]

parse_u32-digits :
    (cs : List ℕ) {n : ℕ}
    → All IsDigit cs
    → is_empty cs ≡ false
    → parse_digits 0 cs ≡ some n
    → parse_u32 cs ≡ some n
unfolding parse_u32
parse_u32-digits [] h e p = cc
parse_u32-digits (c ∷ cs) h e p = let plain : (c == b'+') ≡ false = ground arith in rw plain p

digits-ne-nil : (fuel n : ℕ) → is_empty (digits (suc fuel) n) ≡ false
unfolding digits
digits-ne-nil fuel n = elim (Bool-cases (ltb n 10)) [
  | inl one ↦ rw one refl
  | inr more ↦ rw more (last (digits fuel (n / 10)))
]
  where
    last : (xs : List ℕ) → is_empty (xs ++ (b'0' + n % 10) ∷ []) ≡ false
    last [] = refl
    last (x ∷ xs) = refl

pub decimal-ne-nil : (n : ℕ) → is_empty (decimal n) ≡ false
unfolding decimal
decimal-ne-nil n = digits-ne-nil 9 n

pub parse_u32-decimal : (n : ℕ) → n < 2 ^ 32 → parse_u32 (decimal n) ≡ some n
unfolding decimal
parse_u32-decimal n h =
    parse_u32-digits (digits 10 n) (decimal-IsDigit n) (decimal-ne-nil n)
      (digits-read 9 n h (omega arith))
