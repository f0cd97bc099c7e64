-- ===== src/Serving/Published.antt =====
-- What fits a frame: the bound on a published field, and when a field is published.
use agent_share.Prelude.{
  ℕ, ◌+◌, ◌*◌, ◌/◌, ◌%◌, ◌^◌, ◌<◌, ◌≤◌, ◌≡◌, refl, ◌∙◌, List, [], ◌∷◌, ◌++◌, false, ◌&&◌, Option,
  none, some, arith, length, leb→le, ltb, leb, ◌==◌, get_elem?, length-set, length-append,
  length-replicate, if◌then◌else◌, Bool-cases, Option-cases, inl, inr,
}
use agent_share.Sorting.{mem, sort, dedup, mem-sort, mem-dedup}
use agent_share.Text.{is_empty}
use agent_share.Serving.{
  serving_all, serving_bitmap, max_bitmap_slots, max_serving_chars, write_run, write_runs,
  encode_bitmap, encode_sorted, encode_serving, no_bits, set_bit, set_bits,
}
use agent_share.Serving.Base64.{to_base64}
use agent_share.Serving.Runs.{piece, piece-ne-nil, write_run-ne-nil}

length-to_base64 : (bits : List ℕ) → 3 * length (to_base64 bits) ≤ 4 * length bits + 2
unfolding to_base64
length-to_base64 [] = omega arith
length-to_base64 (a ∷ []) = omega arith
length-to_base64 (a ∷ b ∷ []) = omega arith
length-to_base64 (a ∷ b ∷ c ∷ rest) = omega (arith, length-to_base64 rest)

length-set_bit : (bits : List ℕ) (slot : ℕ) → length (set_bit bits slot) ≡ length bits
unfolding set_bit
length-set_bit bits slot = elim (Option-cases (get_elem? bits (slot / 8))) [
  | inl e ↦ rw (e, set_bit) refl
  | inr (byte, e) ↦ rw (e, set_bit) (length-set bits (slot / 8) _)
]

length-set_bits :
    (total : ℕ) (slots bits : List ℕ) → length (set_bits total slots bits) ≡ length bits
unfolding set_bits
length-set_bits total [] bits = refl
length-set_bits total (slot ∷ slots) bits = elim (Bool-cases (leb total slot)) [
  | inl e ↦ rw e (length-set_bits total slots bits)
  | inr e ↦ rw e (length-set_bits total slots (set_bit bits slot) ∙ length-set_bit bits slot)
]

length-bitmap :
    (total : ℕ) (slots : List ℕ) → length (set_bits total slots (no_bits total)) ≡ (total + 7) / 8
unfolding no_bits
length-bitmap total slots = length-set_bits total slots _ ∙ length-replicate ((total + 7) / 8) 0

-- One bit for each slot fits, up to the largest tree that a bitmap describes.
encode_bitmap-fits :
    (sorted : List ℕ) (total : ℕ)
    → 0 < total
    → total ≤ max_bitmap_slots
    → (text : List ℕ) × (encode_bitmap sorted total ≡ some text)
unfolding encode_bitmap
encode_bitmap-fits sorted total some_slots few =
    let bits = set_bits total sorted (no_bits total) in
    let text = serving_bitmap ∷ to_base64 bits in
    let short : length text ≤ max_serving_chars =
      omega (arith, length-to_base64 bits, length-bitmap total sorted) in
    (text, ground arith)

encode_bitmap-length :
    (sorted text : List ℕ) (total : ℕ)
    → encode_bitmap sorted total ≡ some text
    → length text ≤ max_serving_chars
unfolding encode_bitmap
encode_bitmap-length sorted text total made =
    let out = serving_bitmap ∷ to_base64 (set_bits total sorted (no_bits total)) in
    elim (Bool-cases (total == 0)) [
      | inl nothing ↦
          let this : ◌≡◌ {A = Option (List ℕ)} none (some text) = rw nothing at made in cc
      | inr e ↦ elim (Bool-cases (ltb max_bitmap_slots total)) [
        | inl large ↦
            let this : ◌≡◌ {A = Option (List ℕ)} none (some text) = rw large at (rw e at made) in cc
        | inr few ↦ elim (Bool-cases (leb (length out) max_serving_chars)) [
          | inl fits ↦
              let this : ◌≡◌ {A = Option (List ℕ)} (some out) (some text) =
                rw fits at (rw few at (rw e at made)) in
              let same : out ≡ text = cc in rw (← same) (leb→le (length out) max_serving_chars fits)
          | inr long ↦
              let this : ◌≡◌ {A = Option (List ℕ)} none (some text) =
                rw long at (rw few at (rw e at made)) in
              cc
        ]
      ]
    ]

write_runs-length :
    (out : List ℕ) (start end : ℕ) (rest text : List ℕ)
    → write_runs out start end rest ≡ some text
    → length text ≤ max_serving_chars
unfolding write_runs
write_runs-length out start end [] text made = ground arith
write_runs-length out start end (next ∷ rest) text made = ground (
  arith,
  write_runs-length out start next rest text,
  write_runs-length (write_run out start end) next next rest text,
)

encode_sorted-length :
    (sorted text : List ℕ) (total : ℕ)
    → encode_sorted sorted total ≡ some text
    → length text ≤ max_serving_chars
unfolding encode_sorted
encode_sorted-length [] text total made = cc
encode_sorted-length (start ∷ rest) text total made =
    elim (Bool-cases (ltb 0 total && length (start ∷ rest) == total)) [
      | inl whole ↦
          let this : ◌≡◌ {A = Option (List ℕ)} (some serving_all) (some text) = rw whole at made in
          let same : serving_all ≡ text = cc in rw (← same) (omega arith)
      | inr part ↦ elim (Option-cases (write_runs [] start start rest)) [
        | inl long ↦
            encode_bitmap-length (start ∷ rest) text total
              (rw (long, encode_sorted) at (rw (part, encode_sorted) at made))
        | inr (out, short) ↦
            let this : ◌≡◌ {A = Option (List ℕ)} (some out) (some text) =
              rw (short, encode_sorted) at (rw (part, encode_sorted) at made) in
            let same : out ≡ text = cc in
            rw (← same) (write_runs-length [] start start rest out short)
      ]
    ]

encode_sorted-fits :
    (sorted : List ℕ) (total : ℕ)
    → is_empty sorted ≡ false
    → 0 < total
    → total ≤ max_bitmap_slots
    → (text : List ℕ) × (encode_sorted sorted total ≡ some text)
unfolding encode_sorted
encode_sorted-fits [] total h some_slots few = cc
encode_sorted-fits (start ∷ rest) total h some_slots few =
    elim (Bool-cases (ltb 0 total && length (start ∷ rest) == total)) [
      | inl whole ↦ (serving_all, rw whole refl)
      | inr part ↦ elim (Option-cases (write_runs [] start start rest)) [
        | inl long ↦
            let (text, made) = encode_bitmap-fits (start ∷ rest) total some_slots few in
            (text, rw (part, encode_sorted) (rw (long, encode_sorted) made))
        | inr (out, short) ↦ (out, rw (part, encode_sorted) (rw (short, encode_sorted) refl))
      ]
    ]

sorted-ne-nil : (held : List ℕ) → is_empty held ≡ false → is_empty (dedup (sort held)) ≡ false
sorted-ne-nil [] h = cc
sorted-ne-nil (n ∷ held) h =
    go (dedup (sort (n ∷ held))) (mem-dedup n (sort (n ∷ held)) ∙ mem-sort n (n ∷ held))
  where
    go : (ns : List ℕ) → mem n ns ≡ mem n (n ∷ held) → is_empty ns ≡ false
    go [] e = absurd (ground arith)
    go (m ∷ ms) e = refl

-- A peer that holds a slot of a share whose slots fit a bitmap always publishes a field, however
-- scattered its slots are, and the field is within the cap.
pub encode_serving_published :
    (held : List ℕ) (total : ℕ)
    → is_empty held ≡ false
    → 0 < total
    → total ≤ max_bitmap_slots
    → (text : List ℕ) × (encode_serving held total ≡ some text) × (length text ≤ max_serving_chars)
unfolding encode_serving
encode_serving_published held total h some_slots few =
    let (text, made) =
      encode_sorted-fits (dedup (sort held)) total (sorted-ne-nil held h) some_slots few in
    (text, rw h made, encode_sorted-length (dedup (sort held)) text total made)

-- The runs of an ascending list, the open one included.
unfoldable pub count_runs : ℕ → List ℕ → ℕ
count_runs end [] = 1
count_runs end (next ∷ rest) =
    if next == (end + 1) % 2 ^ 32 then count_runs next rest else 1 + count_runs next rest

abbrev pub runs : List ℕ → ℕ
runs [] = 0
runs (start ∷ rest) = count_runs start rest

-- The place of a run and of the comma before it.
abbrev room : List ℕ → ℕ
room [] = 1
room (c ∷ cs) = 2

length-ne-nil : (xs : List ℕ) → is_empty xs ≡ false → 0 < length xs
length-ne-nil [] h = cc
length-ne-nil (x ∷ xs) h = omega arith

length-piece : (start end : ℕ) → 0 < length (piece start end)
length-piece start end = length-ne-nil (piece start end) (piece-ne-nil start end)

length-write_run :
    (out : List ℕ) (start end : ℕ) → length out + room out ≤ length (write_run out start end)
unfolding write_run
length-write_run [] start end = omega (arith, length-piece start end)
length-write_run (c ∷ cs) start end = omega (
  arith,
  length-append ((c ∷ cs) ++ (b',' ∷ [])) (piece start end),
  length-append (c ∷ cs) (b',' ∷ []),
  length-piece start end,
)

room-write_run : (out : List ℕ) (start end : ℕ) → room (write_run out start end) ≡ 2
room-write_run out start end = ne_nil (write_run out start end) (write_run-ne-nil out start end)
  where
    ne_nil : (xs : List ℕ) → is_empty xs ≡ false → room xs ≡ 2
    ne_nil [] h = cc
    ne_nil (x ∷ xs) h = refl

write_runs-room :
    (out : List ℕ) (start end : ℕ) (rest text : List ℕ)
    → write_runs out start end rest ≡ some text
    → length out + room out + 2 * count_runs end rest ≤ length text + 2
unfolding write_runs count_runs
write_runs-room out start end [] text made = ground (arith, length-write_run out start end)
write_runs-room out start end (next ∷ rest) text made = ground (
  arith,
  write_runs-room out start next rest text,
  write_runs-room (write_run out start end) next next rest text,
  length-write_run out start end,
  room-write_run out start end,
)

-- Over 256 runs do not fit the cap.
pub write_runs-overflows :
    (start : ℕ) (rest : List ℕ) → 256 < runs (start ∷ rest) → write_runs [] start start rest ≡ none
write_runs-overflows start rest many = elim (Option-cases (write_runs [] start start rest)) [
  | inl long ↦ long
  | inr (text, short) ↦ absurd (
      omega (
        arith,
        write_runs-room [] start start rest text short,
        write_runs-length [] start start rest text short,
      ))
]
