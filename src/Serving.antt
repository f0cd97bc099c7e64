-- ===== src/Serving.antt =====
-- crates/agent-share-proto/src/serving.rs: which slots a peer can serve, as a field of its card. A
-- text is its characters; a published field is ASCII, so its length in bytes is its length.
use Prim.Native.Nat.{bit_and, bit_or}
use agent_share.Prelude.{
  ℕ, zero, suc, ◌+◌, ◌-◌, ◌*◌, ◌/◌, ◌%◌, ◌^◌, List, [], ◌∷◌, ◌++◌, Bool, true, false, not, Option,
  none, some, length, get_elem?, set, replicate, ltb, leb, ◌==◌, ◌&&◌, bytes_eq, if◌then◌else◌,
}
use agent_share.Sorting.{sort, dedup, count_from}
use agent_share.Text.{is_empty, trim, split, split_once, strip_prefix, parse_u32, decimal}
use Base64.{to_base64, from_base64}
pub mod Base64
pub mod Bitmap
pub mod Runs
pub mod Published
pub mod RoundTrip

-- `MAX_SERVING_CHARS`
abbrev pub max_serving_chars : ℕ
max_serving_chars = 512

-- `SERVING_ALL`
abbrev pub serving_all : List ℕ
serving_all = b'*' ∷ []

-- `SERVING_BITMAP`
abbrev pub serving_bitmap : ℕ
serving_bitmap = b'~'

-- `MAX_BITMAP_SLOTS`
abbrev pub max_bitmap_slots : ℕ
max_bitmap_slots = (max_serving_chars - 1) / 4 * 3 * 8

-- One run behind what is written already.
unfoldable pub write_run : List ℕ → ℕ → ℕ → List ℕ
write_run out start end =
    (if is_empty out then [] else out ++ (b',' ∷ []))
    ++ (if start == end then decimal start else decimal start ++ (b'-' ∷ decimal end))

-- The scan for runs. The open run is `start` to `end`: the inner loop extends it by the number that
-- follows, and otherwise it is written and the next one is opened. `none` is `overflowed`.
unfoldable pub write_runs : List ℕ → ℕ → ℕ → List ℕ → Option (List ℕ)
unfolding write_run
write_runs out start end [] =
    let out' = write_run out start end in
    if ltb max_serving_chars (length out') then none else some out'
write_runs out start end (next ∷ rest) =
    let longer = write_runs out start next rest in
    let out' = write_run out start end in
    let after = write_runs out' next next rest in
    if next == (end + 1) % 2 ^ 32
    then longer
    else if ltb max_serving_chars (length out')
    then none
    else after

-- `vec![0u8; total.div_ceil(8)]`
unfoldable pub no_bits : ℕ → List ℕ
no_bits total = replicate ((total + 7) / 8) 0

-- `if let Some(byte) = bits.get_mut(slot / 8) { *byte |= 1 << (slot % 8) }`
unfoldable pub set_bit : List ℕ → ℕ → List ℕ
set_bit bits slot = elim (get_elem? bits (slot / 8)) [
  | none ↦ bits
  | some byte ↦ set bits (slot / 8) (bit_or byte (2 ^ (slot % 8)))
]

unfoldable pub set_bits : ℕ → List ℕ → List ℕ → List ℕ
unfolding set_bit
set_bits total [] bits = bits
set_bits total (slot ∷ slots) bits =
    set_bits total slots (if leb total slot then bits else set_bit bits slot)

unfoldable pub encode_bitmap : List ℕ → ℕ → Option (List ℕ)
unfolding no_bits set_bits to_base64
encode_bitmap sorted total =
    if total == 0
    then none
    else if ltb max_bitmap_slots total
    then none
    else (let out = serving_bitmap ∷ to_base64 (set_bits total sorted (no_bits total)) in
        if leb (length out) max_serving_chars then some out else none)

unfoldable pub encode_sorted : List ℕ → ℕ → Option (List ℕ)
unfolding write_runs encode_bitmap
encode_sorted [] total = none
encode_sorted (start ∷ rest) total =
    if ltb 0 total && length (start ∷ rest) == total
    then some serving_all
    else elim (write_runs [] start start rest) [
      | some out ↦ some out
      | none ↦ encode_bitmap (start ∷ rest) total
    ]

unfoldable pub encode_serving : List ℕ → ℕ → Option (List ℕ)
unfolding encode_sorted
encode_serving held total = if is_empty held then none else encode_sorted (dedup (sort held)) total

unfoldable pub has_bit : List ℕ → ℕ → Bool
has_bit bits slot = elim (get_elem? bits (slot / 8)) [
  | none ↦ false
  | some byte ↦ not (bit_and byte (2 ^ (slot % 8)) == 0)
]

-- `for slot in 0..total`, from a slot on.
unfoldable pub read_bits : List ℕ → ℕ → ℕ → List ℕ
unfolding has_bit
read_bits bits slot zero = []
read_bits bits slot (suc left) =
    let rest = read_bits bits (slot + 1) left in
    if has_bit bits slot && ltb slot (2 ^ 32) then slot ∷ rest else rest

-- The numbers of one run; a run that cannot be read has none.
unfoldable pub read_run : List ℕ → List ℕ
read_run run = if is_empty run then [] else elim (split_once b'-' run) [
  | some (first, last) ↦ elim (parse_u32 first) [
    | none ↦ []
    | some start ↦ elim (parse_u32 last) [
      | none ↦ []
      | some end ↦ if ltb end start then [] else count_from start (end + 1 - start)
    ]
  ]
  | none ↦ elim (parse_u32 run) [ none ↦ [] | some index ↦ index ∷ [] ]
]

-- `for run in encoded.split(',')`
unfoldable pub read_runs : List (List ℕ) → List ℕ
unfolding read_run trim
read_runs [] = []
read_runs (run ∷ runs) = read_run (trim run) ++ read_runs runs

-- `u32::try_from(total).unwrap_or(u32::MAX)`
abbrev pub to_u32_or_max : ℕ → ℕ
to_u32_or_max total = if ltb total (2 ^ 32) then total else 2 ^ 32 - 1

unfoldable pub decode_trimmed : List ℕ → ℕ → List ℕ
unfolding from_base64 read_bits read_runs split strip_prefix
decode_trimmed encoded total =
    if bytes_eq encoded serving_all
    then count_from 0 (to_u32_or_max total)
    else elim (strip_prefix serving_bitmap encoded) [
      | some body ↦ read_bits (from_base64 body) 0 total
      | none ↦ dedup (sort (read_runs (split b',' encoded)))
    ]

unfoldable pub decode_serving : List ℕ → ℕ → List ℕ
unfolding decode_trimmed trim
decode_serving encoded total = decode_trimmed (trim encoded) total
