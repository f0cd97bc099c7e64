-- ===== src/Serving/Bitmap.antt =====
-- The bitmap form: bit `i` is slot `i`.
use Prim.Native.Nat.{bit_and, bit_or}
use agent_share.Prelude.{
  ℕ, zero, suc, ◌+◌, ◌/◌, ◌%◌, ◌^◌, ◌<◌, ◌≤◌, ◌≡◌, ◌≢◌, ◌⊎◌, refl, sym, ◌∙◌, List, [], ◌∷◌, Bool,
  true, false, ◌&&◌, not, none, some, get_elem?, set, replicate, length, length-set,
  length-replicate, get_elem?-set_self, get_elem?-set_ne, arith, ltb, leb, ◌==◌, ==_iff, All,
  All-set, All-replicate, if◌then◌else◌, Bool-cases, Option-cases, inl, inr,
}
use agent_share.Bits.{bit_and-bit_or, bit_or-IsByte, zero-bit_and-bit}
use agent_share.Sorting.{mem, IsFrom, IsFrom-weaken}
use agent_share.Wire.Words.{IsByte}
use agent_share.Serving.{has_bit, set_bit, set_bits, no_bits, read_bits}

All-get_elem? : (P : ℕ → Type 0) (xs : List ℕ) (i x : ℕ) → All P xs → get_elem? xs i ≡ some x → P x
All-get_elem? P [] i x h e = cc
All-get_elem? P (y ∷ ys) zero x h e = let same : y ≡ x = cc in rw (← same) h.0
All-get_elem? P (y ∷ ys) (suc i) x h e = All-get_elem? P ys i x h.1 e

get_elem?-lt : (xs : List ℕ) (i x : ℕ) → get_elem? xs i ≡ some x → i < length xs
get_elem?-lt [] i x h = cc
get_elem?-lt (y ∷ ys) zero x h = omega arith
get_elem?-lt (y ∷ ys) (suc i) x h = omega (arith, get_elem?-lt ys i x h)

lt-get_elem? : (xs : List ℕ) (i : ℕ) → i < length xs → (x : ℕ) × (get_elem? xs i ≡ some x)
lt-get_elem? [] i h = absurd (omega arith)
lt-get_elem? (y ∷ ys) zero h = (y, refl)
lt-get_elem? (y ∷ ys) (suc i) h = lt-get_elem? ys i (omega arith)

-- What `has_bit` says of the byte that it finds.
has_bit-some :
    (bits : List ℕ) (slot byte : ℕ)
    → get_elem? bits (slot / 8) ≡ some byte
    → has_bit bits slot ≡ not (bit_and byte (2 ^ (slot % 8)) == 0)
unfolding has_bit
has_bit-some bits slot byte e = rw (e, has_bit) refl

has_bit-none :
    (bits : List ℕ) (slot : ℕ) → get_elem? bits (slot / 8) ≡ none → has_bit bits slot ≡ false
unfolding has_bit
has_bit-none bits slot e = rw (e, has_bit) refl

has_bit-other :
    (bits bits' : List ℕ) (slot : ℕ)
    → get_elem? bits (slot / 8) ≡ get_elem? bits' (slot / 8)
    → has_bit bits slot ≡ has_bit bits' slot
has_bit-other bits bits' slot e = elim (Option-cases (get_elem? bits' (slot / 8))) [
  | inl n ↦ has_bit-none bits slot (e ∙ n) ∙ sym (has_bit-none bits' slot n)
  | inr (byte, b) ↦ has_bit-some bits slot byte (e ∙ b) ∙ sym (has_bit-some bits' slot byte b)
]

-- Setting the bit of a slot within the bitmap sets that slot alone.
has_bit-set :
    (bits : List ℕ) (slot i byte : ℕ)
    → byte < 256
    → get_elem? bits (slot / 8) ≡ some byte
    → has_bit (set bits (slot / 8) (bit_or byte (2 ^ (slot % 8)))) i
      ≡ (if slot == i then true else has_bit bits i)
has_bit-set bits slot i byte small found =
    let new = bit_or byte (2 ^ (slot % 8)) in
    let within = get_elem?-lt bits (slot / 8) byte found in
    elim (Bool-cases (slot / 8 == i / 8)) [
      | inl e ↦
          let here : slot / 8 ≡ i / 8 = (==_iff _ _).0 e in
          let at : get_elem? (set bits (slot / 8) new) (i / 8) ≡ some new =
            rw (← here) (get_elem?-set_self bits (slot / 8) new within) in
          let old : get_elem? bits (i / 8) ≡ some byte = rw (← here) found in
          let test : (slot % 8 == i % 8) ≡ (slot == i) = ground arith in
          has_bit-some (set bits (slot / 8) new) i new at
          ∙ bit_and-bit_or byte (slot % 8) (i % 8) small (omega arith) (omega arith)
          ∙ rw test (rw (has_bit-some bits i byte old) refl)
      | inr e ↦
          let apart : slot / 8 ≢ i / 8 = λ q. ground arith in
          let test : (slot == i) ≡ false = ground arith in
          has_bit-other (set bits (slot / 8) new) bits i
            (get_elem?-set_ne bits (slot / 8) (i / 8) new apart)
          ∙ rw test refl
    ]

-- A bitmap of bytes that is wide enough for the slots below a total.
abbrev Wide : ℕ → List ℕ → Type 0
Wide total bits = All IsByte bits × (length bits ≡ (total + 7) / 8)

set_bit_lem :
    (total : ℕ) (bits : List ℕ) (slot : ℕ)
    → slot < total
    → Wide total bits
    → Wide total (set_bit bits slot)
      × ((i : ℕ) → has_bit (set_bit bits slot) i ≡ (if slot == i then true else has_bit bits i))
unfolding set_bit
set_bit_lem total bits slot below wide =
    let (byte, found) = lt-get_elem? bits (slot / 8) (omega (arith, wide.1)) in
    let small = All-get_elem? IsByte bits (slot / 8) byte wide.0 found in
    let new = bit_or byte (2 ^ (slot % 8)) in
    rw (found, set_bit)
      (
        (
          All-set IsByte bits (slot / 8) new wide.0
              (bit_or-IsByte byte (slot % 8) small (omega arith)),
          length-set bits (slot / 8) new ∙ wide.1,
        ),
        λ i. has_bit-set bits slot i byte small found,
      )

set_bits_lem :
    (total : ℕ) (slots bits : List ℕ)
    → Wide total bits
    → Wide total (set_bits total slots bits)
      × ((i : ℕ)
          → has_bit (set_bits total slots bits) i
            ≡ (if ltb i total && mem i slots then true else has_bit bits i))
unfolding set_bits
set_bits_lem total [] bits wide = (wide, λ i. none_set (ltb i total) (has_bit bits i))
  where
    none_set : (a b : Bool) → b ≡ (if a && false then true else b)
    none_set true b = refl
    none_set false b = refl
set_bits_lem total (slot ∷ slots) bits wide = elim (Bool-cases (leb total slot)) [
  | inl beyond ↦
      let (wide', bit) = set_bits_lem total slots bits wide in
      rw beyond (wide', λ i. bit i ∙ ground arith)
  | inr below ↦
      let (wide1, bit1) = set_bit_lem total bits slot (ground arith) wide in
      let (wide', bit) = set_bits_lem total slots (set_bit bits slot) wide1 in
      rw below (wide', λ i. bit i ∙ rw (bit1 i) (ground arith))
]

no_bits_lem :
    (total : ℕ) → Wide total (no_bits total) × ((i : ℕ) → has_bit (no_bits total) i ≡ false)
unfolding no_bits
no_bits_lem total = (
  (All-replicate IsByte ((total + 7) / 8) 0 (omega arith), length-replicate ((total + 7) / 8) 0),
  λ i. zero i ((total + 7) / 8),
)
  where
    zero_at :
        (i n : ℕ)
        → (get_elem? {A = ℕ} (replicate n 0) i ≡ none)
          ⊎ (get_elem? {A = ℕ} (replicate n 0) i ≡ some 0)
    zero_at i zero = inl refl
    zero_at zero (suc n) = inr refl
    zero_at (suc i) (suc n) = zero_at i n

    zero : (i n : ℕ) → has_bit (replicate n 0) i ≡ false
    zero i n = elim (zero_at (i / 8) n) [
      | inl e ↦ has_bit-none (replicate n 0) i e
      | inr e ↦ has_bit-some (replicate n 0) i 0 e ∙ zero-bit_and-bit (2 ^ (i % 8))
    ]

-- The slots whose bits are set.
read_bits_lem :
    (bits : List ℕ) (slot left : ℕ)
    → slot + left ≤ 2 ^ 32
    → IsFrom slot (read_bits bits slot left)
      × ((i : ℕ)
          → mem i (read_bits bits slot left)
            ≡ (if leb slot i && ltb i (slot + left) then has_bit bits i else false))
unfolding read_bits
read_bits_lem bits slot zero h = (tt, λ i. ground arith)
read_bits_lem bits slot (suc left) h =
    let (from, member) = read_bits_lem bits (slot + 1) left (omega arith) in
    let rest = read_bits bits (slot + 1) left in
    let fits : ltb slot (2 ^ 32) ≡ true = ground arith in
    rw fits (elim (Bool-cases (has_bit bits slot)) [
      | inl e ↦ rw e (
        (omega arith, from),
        λ i. elim (Bool-cases (slot == i)) [
          | inl here ↦
              let at : slot ≡ i = (==_iff _ _).0 here in
              let found : has_bit bits i ≡ true = rw (← at) e in ground arith
          | inr there ↦ ground (arith, member i)
        ],
      )
      | inr e ↦ rw e (
        IsFrom-weaken slot (slot + 1) rest (omega arith) from,
        λ i. elim (Bool-cases (slot == i)) [
          | inl here ↦
              let at : slot ≡ i = (==_iff _ _).0 here in
              let found : has_bit bits i ≡ false = rw (← at) e in ground (arith, member i)
          | inr there ↦ ground (arith, member i)
        ],
      )
    ])

-- What is read from the bitmap of a list, for any number of slots to read.
pub bitmap_read :
    (total total' : ℕ) (slots : List ℕ)
    → total' ≤ 2 ^ 32
    → IsFrom 0 (read_bits (set_bits total slots (no_bits total)) 0 total')
      × ((i : ℕ)
          → mem i (read_bits (set_bits total slots (no_bits total)) 0 total')
            ≡ (ltb i total' && (ltb i total && mem i slots)))
bitmap_read total total' slots h =
    let (wide, none_set) = no_bits_lem total in
    let (wide', bit) = set_bits_lem total slots (no_bits total) wide in
    let bits = set_bits total slots (no_bits total) in
    let (from, member) = read_bits_lem bits 0 total' (omega arith) in
    (from, λ i. ground (arith, member i, bit i, none_set i))

pub bitmap-IsByte : (total : ℕ) (slots : List ℕ) → All IsByte (set_bits total slots (no_bits total))
bitmap-IsByte total slots = (set_bits_lem total slots (no_bits total) (no_bits_lem total).0).0.0
