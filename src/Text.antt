-- ===== src/Text.antt =====
-- The functions on `str` of the Rust standard library that the code calls, on a text as its characters.
pub mod Decimal
pub mod Order
pub mod Pieces
use agent_share.Prelude.{
  ℕ, zero, suc, ◌+◌, ◌-◌, ◌*◌, ◌/◌, ◌%◌, ◌^◌, List, [], ◌∷◌, ◌++◌, Bool, true, false, ◌&&◌, ◌||◌,
  Option, none, some, ltb, leb, ◌==◌, if◌then◌else◌,
}

abbrev pub is_empty {ℓ} : {A : Type ℓ} → List A → Bool
is_empty [] = true
is_empty (x ∷ xs) = false

-- The Unicode property `White_Space`.
unfoldable pub is_whitespace : ℕ → Bool
is_whitespace c =
    (leb 9 c && leb c 13)
    || c == 0x20
    || c == 0x85
    || c == 0xa0
    || c == 0x1680
    || (leb 0x2000 c && leb c 0x200a)
    || c == 0x2028
    || c == 0x2029
    || c == 0x202f
    || c == 0x205f
    || c == 0x3000

unfoldable pub trim_start : List ℕ → List ℕ
trim_start [] = []
trim_start (c ∷ cs) = if is_whitespace c then trim_start cs else c ∷ cs

unfoldable pub trim_end : List ℕ → List ℕ
trim_end [] = []
trim_end (c ∷ cs) =
    let rest = trim_end cs in if is_empty rest && is_whitespace c then [] else c ∷ rest

-- `trim`
unfoldable pub trim : List ℕ → List ℕ
unfolding trim_start trim_end is_whitespace
trim text = trim_end (trim_start text)

abbrev onto_first : ℕ → List (List ℕ) → List (List ℕ)
onto_first c [] = (c ∷ []) ∷ []
onto_first c (piece ∷ pieces) = (c ∷ piece) ∷ pieces

-- `split` at every occurrence of a character.
unfoldable pub split : ℕ → List ℕ → List (List ℕ)
split at [] = [] ∷ []
split at (c ∷ cs) = let rest = split at cs in if c == at then [] ∷ rest else onto_first c rest

abbrev onto_before : ℕ → Option (List ℕ × List ℕ) → Option (List ℕ × List ℕ)
onto_before c none = none
onto_before c (some (before, after)) = some (c ∷ before, after)

-- `split_once` at the first occurrence of a character.
unfoldable pub split_once : ℕ → List ℕ → Option (List ℕ × List ℕ)
split_once at [] = none
split_once at (c ∷ cs) = if c == at then some ([], cs) else onto_before c (split_once at cs)

-- `strip_prefix` of a character.
unfoldable pub strip_prefix : ℕ → List ℕ → Option (List ℕ)
strip_prefix c [] = none
strip_prefix c (x ∷ xs) = if x == c then some xs else none

-- The digits of `parse::<u32>`: a character that is none is an error, and so is an overflow.
unfoldable pub parse_digits : ℕ → List ℕ → Option ℕ
parse_digits acc [] = some acc
parse_digits acc (c ∷ cs) =
    if leb b'0' c && leb c b'9' && ltb (acc * 10 + (c - b'0')) (2 ^ 32)
    then parse_digits (acc * 10 + (c - b'0')) cs
    else none

-- `parse::<u32>`: a leading `+` is allowed, and no digit at all is an error.
unfoldable pub parse_u32 : List ℕ → Option ℕ
unfolding parse_digits
parse_u32 [] = none
parse_u32 (c ∷ cs) =
    if c == b'+' then (if is_empty cs then none else parse_digits 0 cs) else parse_digits 0 (c ∷ cs)

unfoldable pub digits : ℕ → ℕ → List ℕ
digits zero n = []
digits (suc fuel) n =
    let front = digits fuel (n / 10) in
    if ltb n 10 then (b'0' + n) ∷ [] else front ++ (b'0' + n % 10) ∷ []

-- `Display` of a `u32`, which has at most ten digits.
unfoldable pub decimal : ℕ → List ℕ
unfolding digits
decimal n = digits 10 n

-- `<=` of strings: their bytes in lexicographic order.
unfoldable pub bytes_le : List ℕ → List ℕ → Bool
bytes_le [] ys = true
bytes_le (x ∷ xs) [] = false
bytes_le (x ∷ xs) (y ∷ ys) = if ltb x y then true else (x == y) && bytes_le xs ys
