-- ===== src/Framing/Answers/RoundTrip.antt =====
-- Answers are read back as they were written.
use mathlib.Core.Path.{subst}
use agent_share.Prelude.{
  ℕ, suc, ◌+◌, ◌-◌, ◌*◌, ◌^◌, ◌≡◌, refl, ◌∙◌, List, [], ◌∷◌, ◌++◌, arith, Result, length,
  length-append, take, drop, take-length_append, drop-length_append, All, ltb, le→ltb_false, lt→ltb,
  true, false,
}
use agent_share.Wire.Words.{
  le_bytes, from_le, length-le_bytes, from_le-le_bytes, u32-Fits, u64-Fits, IsU32, IsU64,
}
use agent_share.Wire.Codec.{IsArray}
use agent_share.Framing.Answers.{
  encode_chunk_map, decode_chunk_map, cut_addresses, concat_all, encode_have, decode_have,
  bitmap_len,
}

-- What `take` and `drop` see of a field of known width.
pub take-field : (n : ℕ) (xs ys : List ℕ) → length xs ≡ n → take n (xs ++ ys) ≡ xs
take-field n xs ys e = subst (λ k. take k (xs ++ ys) ≡ xs) e (take-length_append xs ys)

pub drop-field : (n : ℕ) (xs ys : List ℕ) → length xs ≡ n → drop n (xs ++ ys) ≡ ys
drop-field n xs ys e = subst (λ k. drop k (xs ++ ys) ≡ ys) e (drop-length_append xs ys)

drop-length_add : (xs ys : List ℕ) (m : ℕ) → drop (length xs + m) (xs ++ ys) ≡ drop m ys
drop-length_add [] ys m = let e : 0 + m ≡ m = omega arith in rw e refl
drop-length_add (x ∷ xs) ys m =
    let e : suc (length xs) + m ≡ suc (length xs + m) = omega arith in
    rw e (drop-length_add xs ys m)

-- Past one field and into the next.
pub drop-past : (n m : ℕ) (xs ys : List ℕ) → length xs ≡ n → drop (n + m) (xs ++ ys) ≡ drop m ys
drop-past n m xs ys e = subst (λ k. drop (k + m) (xs ++ ys) ≡ drop m ys) e (drop-length_add xs ys m)

cut_addresses-concat_all :
    (addresses : List (List ℕ))
    → All (IsArray 32) addresses
    → cut_addresses (length addresses) (concat_all addresses) ≡ addresses
unfolding cut_addresses concat_all
cut_addresses-concat_all [] h = refl
cut_addresses-concat_all (a ∷ rest) h =
    let first = take-field 32 a (concat_all rest) h.0.1 in
    let after = drop-field 32 a (concat_all rest) h.0.1 in
    rw first (rw after (rw (cut_addresses-concat_all rest h.1)))

length-concat_all :
    (addresses : List (List ℕ))
    → All (IsArray 32) addresses
    → length (concat_all addresses) ≡ length addresses * 32
unfolding concat_all
length-concat_all [] h = omega arith
length-concat_all (a ∷ rest) h =
    let both = length-append a (concat_all rest) in
    let ih = length-concat_all rest h.1 in let w = h.0.1 in omega arith

pub decode_chunk_map-encode_chunk_map :
    (root : List ℕ) (size : ℕ) (addresses : List (List ℕ))
    → IsArray 32 root
    → IsU64 size
    → All (IsArray 32) addresses
    → IsU32 (length addresses)
    → decode_chunk_map (encode_chunk_map root size addresses) ≡ Result.ok (root, size, addresses)
unfolding decode_chunk_map encode_chunk_map
decode_chunk_map-encode_chunk_map root size addresses hr hs ha hn =
    let count : List ℕ = le_bytes 4 (length addresses) in
    let row : List ℕ = concat_all addresses in
    let tail : List ℕ = count ++ row in
    let whole : List ℕ = root ++ (le_bytes 8 size ++ tail) in
    let small : ltb (length addresses) (2 ^ 32) ≡ true = lt→ltb _ _ hn in
    let ls = length-le_bytes 8 size in
    let lc = length-le_bytes 4 (length addresses) in
    let at_size = drop-field 32 root (le_bytes 8 size ++ tail) hr.1 in
    let at_count : drop 40 whole ≡ tail =
      drop-past 32 8 root (le_bytes 8 size ++ tail) hr.1 ∙ drop-field 8 (le_bytes 8 size) tail ls in
    let at_row : drop 44 whole ≡ row =
      drop-past 32 12 root (le_bytes 8 size ++ tail) hr.1
      ∙ drop-past 8 4 (le_bytes 8 size) tail ls
      ∙ drop-field 4 count row lc in
    let read_count : from_le (take 4 (drop 40 whole)) ≡ length addresses =
      rw at_count (rw (take-field 4 count row lc) (from_le-le_bytes 4 _ (u32-Fits _ hn))) in
    let read_size : from_le (take 8 (drop 32 whole)) ≡ size =
      rw at_size
        (rw (take-field 8 (le_bytes 8 size) tail ls) (from_le-le_bytes 8 _ (u64-Fits _ hs))) in
    let total : length whole ≡ 44 + length addresses * 32 =
      let a = length-append root (le_bytes 8 size ++ tail) in
      let b = length-append (le_bytes 8 size) tail in
      let c = length-append count row in
      let d = length-concat_all addresses ha in let r = hr.1 in omega arith in
    let long : ltb (length whole) 44 ≡ false = le→ltb_false _ _ (omega arith) in
    let full : ltb (length whole) (44 + length addresses * 32) ≡ false =
      le→ltb_false _ _ (omega arith) in
    rw small (
      rw read_count (
        rw long (
          rw full (
            rw (take-field 32 root (le_bytes 8 size ++ tail) hr.1)
              (rw read_size (rw at_row (rw (cut_addresses-concat_all addresses ha))))))))

pub decode_have-encode_have :
    (chunks : ℕ) (bitmap : List ℕ)
    → IsU32 chunks
    → length bitmap ≡ bitmap_len chunks
    → decode_have (encode_have chunks bitmap) ≡ Result.ok (chunks, bitmap)
unfolding decode_have encode_have
decode_have-encode_have chunks bitmap hc hb =
    let whole : List ℕ = le_bytes 4 chunks ++ bitmap in
    let lc = length-le_bytes 4 chunks in
    let total = length-append (le_bytes 4 chunks) bitmap in
    let read : from_le (take 4 whole) ≡ chunks =
      rw (take-field 4 (le_bytes 4 chunks) bitmap lc) (from_le-le_bytes 4 _ (u32-Fits _ hc)) in
    let long : ltb (length whole) 4 ≡ false = le→ltb_false _ _ (omega arith) in
    let full : ltb (length whole - 4) (bitmap_len chunks) ≡ false =
      le→ltb_false _ _ (omega arith) in
    let bits : take (bitmap_len chunks) bitmap ≡ bitmap =
      subst (λ n. take n bitmap ≡ bitmap) hb (take_all bitmap) in
    rw read (rw long (rw full (rw (drop-field 4 (le_bytes 4 chunks) bitmap lc) (rw bits))))
  where
    take_all : (xs : List ℕ) → take (length xs) xs ≡ xs
    take_all [] = refl
    take_all (x ∷ xs) = rw (take_all xs)

-- A row of 32-byte addresses, with a 32-byte root and a `u64` size, is read back by the consumer, and
-- so is any bitmap that covers its `u32` count of chunks.
pub answers_read_back :
    (root : List ℕ) (size : ℕ) (addresses : List (List ℕ)) (chunks : ℕ) (bitmap : List ℕ)
    → IsArray 32 root
    → IsU64 size
    → All (IsArray 32) addresses
    → IsU32 (length addresses)
    → IsU32 chunks
    → length bitmap ≡ bitmap_len chunks
    → (decode_chunk_map (encode_chunk_map root size addresses) ≡ Result.ok (root, size, addresses))
      × (decode_have (encode_have chunks bitmap) ≡ Result.ok (chunks, bitmap))
answers_read_back root size addresses chunks bitmap hr hs ha hn hc hb = (
  decode_chunk_map-encode_chunk_map root size addresses hr hs ha hn,
  decode_have-encode_have chunks bitmap hc hb,
)
