-- ===== src/Serving/Base64/RoundTrip.antt =====
-- `from_base64` reads what `to_base64` writes.
use Prim.Native.Nat.{bit_or}
use agent_share.Prelude.{
  ℕ, ◌+◌, ◌*◌, ◌/◌, ◌%◌, ◌^◌, ◌<◌, ◌≡◌, refl, ap, ◌∙◌, List, [], ◌∷◌, Bool, true, false, not,
  Option, none, some, get_elem?, arith, ◌==◌, ==_iff, All,
}
use agent_share.Bits.{
  bit_or-shifted, bit_and-six_ones, bit_and-eight_ones, all_below, all_below_lem,
}
use agent_share.Wire.Words.{IsByte}
use agent_share.Text.{is_whitespace}
use agent_share.Text.Pieces.{HasNoSpace}
use agent_share.Serving.Base64.{base64, symbol, pack, to_base64, position, unpack, from_base64}

abbrev or_64 : Option ℕ → ℕ
or_64 none = 64
or_64 (some n) = n

abbrev or_none : Option ℕ → ℕ
or_none none = 0
or_none (some n) = n

-- Every symbol of the alphabet is found at its place.
table : all_below 64 (λ v. or_64 (position base64 0 (or_none (get_elem? base64 v))) == v) ≡ true
unfolding all_below base64 position
table = refl

or_64-some : (o : Option ℕ) (v : ℕ) → v < 64 → or_64 o ≡ v → o ≡ some v
or_64-some none v h e = absurd (omega arith)
or_64-some (some n) v h e = ap some e

position_lem : (v : ℕ) → v < 64 → position base64 0 (or_none (get_elem? base64 v)) ≡ some v
position_lem v h = or_64-some _ v h ((==_iff _ v).0 (all_below_lem 64 _ v table h))

symbol-position :
    (packed shift : ℕ) → position base64 0 (symbol packed shift) ≡ some (packed / 2 ^ shift % 64)
unfolding symbol
symbol-position packed shift =
    rw (bit_and-six_ones (packed / 2 ^ shift))
      (position_lem (packed / 2 ^ shift % 64) (omega arith))

pub pack_lem : (a b c : ℕ) → b < 256 → c < 256 → pack a b c ≡ a * 65536 + b * 256 + c
unfolding pack
pack_lem a b c hb hc =
    let high = bit_or-shifted 16 a (b * 256) (omega arith) in
    let both : a * 65536 + b * 256 ≡ (a * 256 + b) * 2 ^ 8 = omega arith in
    rw high (rw both (bit_or-shifted 8 (a * 256 + b) c hc ∙ omega arith))

-- The word after a symbol.
abbrev shifted : ℕ → ℕ → ℕ
shifted packed value = packed * 64 % 2 ^ 32 + value

shifted_lem :
    (packed value : ℕ) → value < 64 → bit_or (packed * 2 ^ 6 % 2 ^ 32) value ≡ shifted packed value
shifted_lem packed value h =
    let even : packed * 64 % 2 ^ 32 ≡ (packed * 64 % 2 ^ 32 / 64) * 2 ^ 6 = omega arith in
    ap (λ w. bit_or w value) even
    ∙ bit_or-shifted 6 (packed * 64 % 2 ^ 32 / 64) value h
    ∙ omega arith

module _ (packed next value : ℕ) (symbols : List ℕ) (found : position base64 0 next ≡ some value)
    (small : value < 64) where
  unpack_first : unpack packed 0 (next ∷ symbols) ≡ unpack (shifted packed value) 6 symbols
  unfolding unpack
  unpack_first = rw (found, unpack) (rw (shifted_lem packed value small) refl)

  unpack_second :
      unpack packed 6 (next ∷ symbols)
      ≡ (shifted packed value / 16 % 256) ∷ unpack (shifted packed value) 4 symbols
  unfolding unpack
  unpack_second =
      rw (found, unpack)
        (rw (shifted_lem packed value small)
          (rw (bit_and-eight_ones (shifted packed value / 16)) refl))

  unpack_third :
      unpack packed 4 (next ∷ symbols)
      ≡ (shifted packed value / 4 % 256) ∷ unpack (shifted packed value) 2 symbols
  unfolding unpack
  unpack_third =
      rw (found, unpack)
        (rw (shifted_lem packed value small)
          (rw (bit_and-eight_ones (shifted packed value / 4)) refl))

  unpack_fourth :
      unpack packed 2 (next ∷ symbols)
      ≡ (shifted packed value % 256) ∷ unpack (shifted packed value) 0 symbols
  unfolding unpack
  unpack_fourth =
      rw (found, unpack)
        (rw (shifted_lem packed value small) (
          ap (λ n. n ∷ unpack (shifted packed value) 0 symbols)
            (bit_and-eight_ones (shifted packed value / 1) ∙ omega arith)))

-- The bytes of two, three and four symbols of one word.
module _ (packed word : ℕ) (symbols : List ℕ) where
  abbrev part : ℕ → ℕ
  part shift = word / 2 ^ shift % 64

  abbrev one : ℕ
  one = shifted packed (part 18)

  abbrev two : ℕ
  two = shifted one (part 12)

  abbrev three : ℕ
  three = shifted two (part 6)

  abbrev four : ℕ
  four = shifted three (part 0)

  -- The word's bytes, from what has been shifted in.
  first_byte : two / 16 % 256 ≡ word / 65536 % 256
  first_byte = omega arith

  second_byte : three / 4 % 256 ≡ word / 256 % 256
  second_byte = omega arith

  third_byte : four % 256 ≡ word % 256
  third_byte = omega arith

  two_symbols :
      unpack packed 0 (symbol word 18 ∷ symbol word 12 ∷ symbols)
      ≡ (word / 65536 % 256) ∷ unpack two 4 symbols
  two_symbols =
      unpack_first packed (symbol word 18) (part 18) (symbol word 12 ∷ symbols)
        (symbol-position word 18) (omega arith)
      ∙ unpack_second one (symbol word 12) (part 12) symbols (symbol-position word 12) (omega arith)
      ∙ ap (λ n. n ∷ unpack two 4 symbols) first_byte

  third_symbol :
      unpack two 4 (symbol word 6 ∷ symbols) ≡ (word / 256 % 256) ∷ unpack three 2 symbols
  third_symbol =
      unpack_third two (symbol word 6) (part 6) symbols (symbol-position word 6) (omega arith)
      ∙ ap (λ n. n ∷ unpack three 2 symbols) second_byte

  fourth_symbol : unpack three 2 (symbol word 0 ∷ symbols) ≡ (word % 256) ∷ unpack four 0 symbols
  fourth_symbol =
      unpack_fourth three (symbol word 0) (part 0) symbols (symbol-position word 0) (omega arith)
      ∙ ap (λ n. n ∷ unpack four 0 symbols) third_byte

cons : {m n : ℕ} {ms ns : List ℕ} → m ≡ n → ms ≡ ns → (m ∷ ms) ≡ (n ∷ ns)
cons p q = rw p (rw q refl)

unpack-to_base64 :
    (packed : ℕ) (bits : List ℕ) → All IsByte bits → unpack packed 0 (to_base64 bits) ≡ bits
unfolding to_base64 unpack
unpack-to_base64 packed [] h = refl
unpack-to_base64 packed (a ∷ []) h =
    let ha : a < 256 = h.0 in
    let word : pack a 0 0 ≡ a * 65536 + 0 * 256 + 0 = pack_lem a 0 0 (omega arith) (omega arith) in
    two_symbols packed (pack a 0 0) [] ∙ ap (λ n. n ∷ []) (rw word (omega arith))
unpack-to_base64 packed (a ∷ b ∷ []) h =
    let ha : a < 256 = h.0 in
    let hb : b < 256 = h.1.0 in
    let word : pack a b 0 ≡ a * 65536 + b * 256 + 0 = pack_lem a b 0 hb (omega arith) in
    two_symbols packed (pack a b 0) (symbol (pack a b 0) 6 ∷ [])
    ∙ ap (λ t. (pack a b 0 / 65536 % 256) ∷ t) (third_symbol packed (pack a b 0) [])
    ∙ rw word (cons (omega arith) (cons (omega arith) refl))
unpack-to_base64 packed (a ∷ b ∷ c ∷ rest) h =
    let ha : a < 256 = h.0 in
    let hb : b < 256 = h.1.0 in
    let hc : c < 256 = h.1.1.0 in
    let p = pack a b c in
    let word : p ≡ a * 65536 + b * 256 + c = pack_lem a b c hb hc in
    let after = four packed p rest in
    two_symbols packed p (symbol p 6 ∷ symbol p 0 ∷ to_base64 rest)
    ∙ ap (λ t. (p / 65536 % 256) ∷ t)
        (third_symbol packed p (symbol p 0 ∷ to_base64 rest)
          ∙ ap (λ t. (p / 256 % 256) ∷ t) (fourth_symbol packed p (to_base64 rest)))
    ∙ cons (rw word (omega arith)) (
        cons (rw word (omega arith))
          (cons (rw word (omega arith)) (unpack-to_base64 after rest h.1.1.1)))

pub from_base64-to_base64 : (bits : List ℕ) → All IsByte bits → from_base64 (to_base64 bits) ≡ bits
unfolding from_base64
from_base64-to_base64 bits h = unpack-to_base64 0 bits h

-- Nothing that `trim` takes off.
symbols_table : all_below 64 (λ v. not (is_whitespace (or_none (get_elem? base64 v)))) ≡ true
unfolding all_below base64 is_whitespace
symbols_table = refl

not-true : (b : Bool) → not b ≡ true → b ≡ false
not-true true h = cc
not-true false h = refl

symbol-no-space : (packed shift : ℕ) → is_whitespace (symbol packed shift) ≡ false
unfolding symbol
symbol-no-space packed shift = rw (bit_and-six_ones (packed / 2 ^ shift)) (
    not-true _ (
      all_below_lem 64 (λ v. not (is_whitespace (or_none (get_elem? base64 v))))
        (packed / 2 ^ shift % 64) symbols_table (omega arith)))

pub to_base64-HasNoSpace : (bits : List ℕ) → HasNoSpace (to_base64 bits)
unfolding to_base64
to_base64-HasNoSpace [] = tt
to_base64-HasNoSpace (a ∷ []) =
    (symbol-no-space (pack a 0 0) 18, (symbol-no-space (pack a 0 0) 12, tt))
to_base64-HasNoSpace (a ∷ b ∷ []) = (
  symbol-no-space (pack a b 0) 18,
  (symbol-no-space (pack a b 0) 12, (symbol-no-space (pack a b 0) 6, tt)),
)
to_base64-HasNoSpace (a ∷ b ∷ c ∷ rest) =
    let at = symbol-no-space (pack a b c) in
    (at 18, (at 12, (at 6, (at 0, to_base64-HasNoSpace rest))))
