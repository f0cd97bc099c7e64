-- ===== src/Serving/RoundTrip.antt =====
-- What a peer publishes is what the others read.
use mathlib.Core.Path.{subst}
use agent_share.Prelude.{
  ℕ, ◌+◌, ◌-◌, ◌^◌, ◌<◌, ◌≡◌, ◌≢◌, ◌⊎◌, refl, ap, sym, ◌∙◌, List, [], ◌∷◌, ◌++◌, true, false, ◌&&◌,
  Option, none, some, arith, length, ltb, ◌==◌, All, bytes_eq, Bool-cases, Option-cases, inl, inr,
}
use agent_share.Sorting.{
  mem, sort, dedup, IsAscending, sort-IsSorted, sort-IsFrom, dedup-IsFrom, dedup-IsAscending,
  mem-sort, mem-dedup, count_from, count_from-IsFrom, mem-count_from, All-mem, mem-All,
  count_from-length,
}
use agent_share.Wire.Words.{IsByte, IsU32}
use agent_share.Text.{is_whitespace, trim, strip_prefix}
use agent_share.Text.Pieces.{trim-HasNoSpace}
use agent_share.Serving.{
  serving_all, serving_bitmap, write_runs, encode_bitmap, encode_sorted, encode_serving, no_bits,
  set_bits, read_bits, decode_trimmed, decode_serving,
}
use agent_share.Serving.Base64.{to_base64}
use agent_share.Serving.Base64.RoundTrip.{from_base64-to_base64, to_base64-HasNoSpace}
use agent_share.Serving.Bitmap.{bitmap_read, bitmap-IsByte}
use agent_share.Serving.Published.{runs, write_runs-overflows}
use agent_share.Serving.Runs.{IsPlain, Lists, nothing-Lists, trim-IsPlain, write_runs_lem}

-- The slots that a text is read as, when it lists the slots of `sorted` out of `total`, for a reader
-- that counts `total'` slots: one case for each form.
abbrev pub ReadsAs : List ℕ → ℕ → ℕ → List ℕ → Type 0
ReadsAs sorted total total' read =
    ((length sorted ≡ total) × ((i : ℕ) → mem i read ≡ ltb i total'))
    ⊎ ((i : ℕ) → mem i read ≡ mem i sorted)
    ⊎ ((i : ℕ) → mem i read ≡ (ltb i total' && (ltb i total && mem i sorted)))

decode-all :
    (total' : ℕ) → total' < 2 ^ 32 → decode_serving serving_all total' ≡ count_from 0 total'
unfolding decode_serving decode_trimmed trim bytes_eq
decode-all total' h = let small : ltb total' (2 ^ 32) ≡ true = ground arith in rw small refl

plain-not-all : (text : List ℕ) → All IsPlain text → bytes_eq text serving_all ≡ false
unfolding bytes_eq
plain-not-all [] h = refl
plain-not-all (c ∷ cs) h = let other : (c == b'*') ≡ false = h.0.1 in rw other refl

plain-no-prefix : (text : List ℕ) → All IsPlain text → strip_prefix serving_bitmap text ≡ none
unfolding strip_prefix
plain-no-prefix [] h = refl
plain-no-prefix (c ∷ cs) h = let other : (c == b'~') ≡ false = h.0.2 in rw other refl

decode-trim :
    (text : List ℕ) (total' : ℕ)
    → trim text ≡ text
    → decode_serving text total' ≡ decode_trimmed text total'
unfolding decode_serving
decode-trim text total' h = ap (λ t. decode_trimmed t total') h

decode-runs :
    (text sorted : List ℕ) (total' : ℕ)
    → IsAscending sorted
    → Lists text sorted
    → decode_serving text total' ≡ sorted
unfolding decode_trimmed
decode-runs text sorted total' h lists =
    decode-trim text total' (trim-IsPlain text lists.plain)
    ∙ rw (plain-not-all text lists.plain, decode_trimmed)
        (rw (plain-no-prefix text lists.plain, decode_trimmed)
          (rw lists.listed (rw (sort-IsFrom 0 sorted h) (dedup-IsFrom 0 sorted h))))

tilde-no-space : is_whitespace serving_bitmap ≡ false
unfolding is_whitespace
tilde-no-space = refl

decode-bitmap :
    (bits : List ℕ) (total' : ℕ)
    → All IsByte bits
    → decode_serving (serving_bitmap ∷ to_base64 bits) total' ≡ read_bits bits 0 total'
unfolding decode_trimmed bytes_eq strip_prefix
decode-bitmap bits total' h =
    decode-trim (serving_bitmap ∷ to_base64 bits) total' (
      trim-HasNoSpace (serving_bitmap ∷ to_base64 bits) (tilde-no-space, to_base64-HasNoSpace bits))
    ∙ ap (λ b. read_bits b 0 total') (from_base64-to_base64 bits h)

-- A text that is published, and the ascending list of slots behind it.
encode_bitmap-made :
    (sorted text : List ℕ) (total : ℕ)
    → encode_bitmap sorted total ≡ some text
    → text ≡ serving_bitmap ∷ to_base64 (set_bits total sorted (no_bits total))
unfolding encode_bitmap
encode_bitmap-made sorted text total made = ground arith

encode_sorted_lem :
    (sorted text : List ℕ) (total total' : ℕ)
    → IsAscending sorted
    → All IsU32 sorted
    → total' < 2 ^ 32
    → encode_sorted sorted total ≡ some text
    → IsAscending (decode_serving text total')
      × ReadsAs sorted total total' (decode_serving text total')
unfolding encode_sorted count_from
encode_sorted_lem [] text total total' from words h made = cc
encode_sorted_lem (start ∷ rest) text total total' from words h made =
    elim (Bool-cases (ltb 0 total && length (start ∷ rest) == total)) [
      | inl whole ↦
          let this : ◌≡◌ {A = Option (List ℕ)} (some serving_all) (some text) = rw whole at made in
          let same : serving_all ≡ text = cc in
          let count : length (start ∷ rest) ≡ total = ground arith in
          rw (← same) (
            rw (decode-all total' h) (
              count_from-IsFrom 0 total',
              inl (count, λ i. mem-count_from i 0 total' ∙ ground arith),
            ))
      | inr part ↦ elim (Option-cases (write_runs [] start start rest)) [
        | inl long ↦
            let bitmap : encode_bitmap (start ∷ rest) total ≡ some text =
              rw (long, encode_sorted) at (rw (part, encode_sorted) at made) in
            let same = encode_bitmap-made (start ∷ rest) text total bitmap in
            let (from', member) = bitmap_read total total' (start ∷ rest) (omega arith) in
            rw same (
              rw
                (decode-bitmap (set_bits total (start ∷ rest) (no_bits total)) total'
                  (bitmap-IsByte total (start ∷ rest)))
                (from', inr (inr member)))
        | inr (out, short) ↦
            let this : ◌≡◌ {A = Option (List ℕ)} (some out) (some text) =
              rw (short, encode_sorted) at (rw (part, encode_sorted) at made) in
            let same : out ≡ text = cc in
            let one : start + 1 - start ≡ 1 = omega arith in
            let (lists, some_text) =
              write_runs_lem [] [] start start rest out (omega arith) words.0 from.1 words.1
                nothing-Lists short in
            let whole : count_from start (start + 1 - start) ≡ start ∷ [] = rw one refl in
            let listed : Lists out (start ∷ rest) =
              subst (λ t. Lists out (t ++ rest)) whole lists in
            rw (← same)
              (rw (decode-runs out (start ∷ rest) total' from listed) (from, inr (inl (λ i. refl))))
      ]
    ]

ascending : (held : List ℕ) → IsAscending (dedup (sort held))
ascending held = dedup-IsAscending (sort held) (sort-IsSorted held)

mem-ascending : (i : ℕ) (held : List ℕ) → mem i (dedup (sort held)) ≡ mem i held
mem-ascending i held = mem-dedup i (sort held) ∙ mem-sort i held

All-ascending : (P : ℕ → Type 0) (held : List ℕ) → All P held → All P (dedup (sort held))
All-ascending P held h =
    All-mem P (dedup (sort held)) (λ i m. mem-All P held i h (sym (mem-ascending i held) ∙ m))

encode_serving-sorted :
    (held text : List ℕ) (total : ℕ)
    → encode_serving held total ≡ some text
    → encode_sorted (dedup (sort held)) total ≡ some text
unfolding encode_serving
encode_serving-sorted [] text total made = cc
encode_serving-sorted (n ∷ held) text total made = made

-- What a reader makes of a published field, in each of its three forms.
pub decode-encode_forms :
    (held text : List ℕ) (total total' : ℕ)
    → All IsU32 held
    → total' < 2 ^ 32
    → encode_serving held total ≡ some text
    → IsAscending (decode_serving text total')
      × ReadsAs (dedup (sort held)) total total' (decode_serving text total')
decode-encode_forms held text total total' words h made =
    encode_sorted_lem (dedup (sort held)) text total total' (ascending held)
      (All-ascending IsU32 held words) h (encode_serving-sorted held text total made)

mem-whole :
    (total i : ℕ) (ns : List ℕ)
    → IsAscending ns
    → All (λ n. n < total) ns
    → length ns ≡ total
    → mem i ns ≡ ltb i total
mem-whole total i ns h below count =
    ap (λ t. mem i t) (count_from-length 0 total ns h below (omega arith))
    ∙ mem-count_from i 0 (length ns)
    ∙ rw count (ground arith)

below-mem :
    (total i : ℕ) (ns : List ℕ)
    → All (λ n. n < total) ns
    → (ltb i total && (ltb i total && mem i ns)) ≡ mem i ns
below-mem total i ns below = elim (Bool-cases (mem i ns)) [
  | inl e ↦ let less : i < total = mem-All (λ n. n < total) ns i below e in ground arith
  | inr e ↦ ground arith
]

-- The slots that a peer publishes, out of a number of slots that fits a `u32`, are what a reader with
-- the same number of slots makes of the field: ascending, and exactly the slots that are held.
pub decode_serving-encode_serving :
    (held text : List ℕ) (total : ℕ)
    → All (λ n. n < total) held
    → total < 2 ^ 32
    → encode_serving held total ≡ some text
    → IsAscending (decode_serving text total)
      × ((i : ℕ) → mem i (decode_serving text total) ≡ mem i held)
decode_serving-encode_serving held text total below h made =
    let words = All-mem IsU32 held (λ i m. lt-trans (mem-All (λ n. n < total) held i below m)) in
    let (from, forms) = decode-encode_forms held text total total words h made in
    let all_below = All-ascending (λ n. n < total) held below in
    (
      from,
      λ i.
          let sorted_member : mem i (decode_serving text total) ≡ mem i (dedup (sort held)) =
            elim forms [
              | inl (count, member) ↦
                  member i
                  ∙ sym (mem-whole total i (dedup (sort held)) (ascending held) all_below count)
              | inr other ↦ elim other [
                | inl member ↦ member i
                | inr member ↦ member i ∙ below-mem total i (dedup (sort held)) all_below
              ]
            ] in
          sorted_member ∙ mem-ascending i held,
    )
  where
    lt-trans : {i : ℕ} → i < total → i < 2 ^ 32
    lt-trans less = omega arith

encode_sorted-bitmap :
    (sorted : List ℕ) (total : ℕ)
    → 256 < runs sorted
    → length sorted ≢ total
    → encode_sorted sorted total ≡ encode_bitmap sorted total
unfolding encode_sorted
encode_sorted-bitmap [] total many part = absurd (omega arith)
encode_sorted-bitmap (start ∷ rest) total many part =
    let not_all : (ltb 0 total && length (start ∷ rest) == total) ≡ false = ground arith in
    rw not_all (rw (write_runs-overflows start rest many, encode_sorted) refl)

-- A field of over 256 runs is read as the held slots below both totals.
pub scattered_read_back :
    (held text : List ℕ) (total total' : ℕ)
    → 256 < runs (dedup (sort held))
    → length (dedup (sort held)) ≢ total
    → total' < 2 ^ 32
    → encode_serving held total ≡ some text
    → (i : ℕ) → mem i (decode_serving text total') ≡ (ltb i total' && (ltb i total && mem i held))
scattered_read_back held text total total' many part h made i =
    let sorted = dedup (sort held) in
    let bitmap =
      sym (encode_sorted-bitmap sorted total many part)
      ∙ encode_serving-sorted held text total made in
    let same = encode_bitmap-made sorted text total bitmap in
    let bits = set_bits total sorted (no_bits total) in
    ap (λ t. mem i (decode_serving t total')) same
    ∙ ap (mem i) (decode-bitmap bits total' (bitmap-IsByte total sorted))
    ∙ (bitmap_read total total' sorted (omega arith)).1 i
    ∙ ap (λ b. ltb i total' && (ltb i total && b)) (mem-ascending i held)
