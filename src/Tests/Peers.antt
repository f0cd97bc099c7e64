-- ===== src/Tests/Peers.antt =====
-- A seeder, and the streams that it answers.
use mathlib.Core.Path.{subst}
use agent_share.Prelude.{
  ℕ, zero, suc, ◌+◌, ◌*◌, ◌/◌, ◌^◌, ◌<◌, ◌≤◌, ◌≡◌, ◌⊎◌, refl, ap, sym, ◌∙◌, List, [], ◌∷◌, ◌++◌,
  Bool, true, false, Option, none, some, Result, ok, err, arith, length, get_elem?, take, drop,
  replicate, ltb, bytes_eq, ◌==◌, if◌then◌else◌, Bool-cases, inl, inr, map, All-replicate,
}
use agent_share.Wire.Words.{le_bytes, IsByte}
use agent_share.Wire.Codec.{IsArray}
use agent_share.Sorting.{mem}
use agent_share.Manifest.Apply.{contains}
use agent_share.Framing.Since
use agent_share.Framing.Since.{ManifestSince}
use agent_share.Framing.Since.RoundTrip.{SinceFits}
use agent_share.Framing.Requests.{
  encode_read_request, encode_have_request, encode_manifest_since_request,
}
use agent_share.Framing.Answers.{ReadStatus, bitmap_len, decode_response_header}
use agent_share.Chunks.{ChunkLibrary, TokenLibrary}
use agent_share.Auth.{ShareAuth, from_token}
use agent_share.Serve.{ServeSource, Outcome, answered, serve_stream}
use agent_share.Serve.Wire.{
  declared, unauthorized_learns_nothing, read_over_the_wire, since_over_the_wire,
}
use agent_share.Serve.Consumer.{
  ChunkFits, RowFits, CoverageFits, CarriesCoverage, connected, consumer_gets_the_answer,
}
use agent_share.Remote.{fetch_chunk, fetch_chunk_map}
use agent_share.Seed.{
  answer_chunk_map, answer_have, manifest_envelope, Seeder, State, new, update, row_of, get_slot,
  answer_read, answer_chunk, report_hole, seeder_source, adopt,
}
use agent_share.Sorting.{IsSorted}
use agent_share.Seed.Holds.{complete_slots, holds, IsMap, complete_slots_exact}
use agent_share.Seed.Read.{RowOf, IsComplete, answer_read_exact}
use agent_share.Seed.Rows.{adopt_exact}
use agent_share.Seed.Scope.{Served, covers, answer_chunk_scoped}
use agent_share.Tests.Data.{value_or, toy_sign-IsArray, all_bytes-All}

-- Chunks of two bytes that are their own addresses; a row is the file.
abbrev part_at : List ℕ → ℕ → List ℕ
part_at row i = take 2 (drop (2 * i) row)

abbrev leaf_at : List ℕ → ℕ → Option (List ℕ)
leaf_at row i = if ltb (2 * i) (length row) then some (part_at row i) else none

abbrev parts : ℕ → List ℕ → List (List ℕ)
parts zero row = []
parts (suc n) row = take 2 row ∷ parts n (drop 2 row)

abbrev find : List (List ℕ) → List ℕ → Option (List ℕ)
find store address = if contains store address then some address else none

abbrev pub pairs : ChunkLibrary
pairs = record {
  ChunkMap = List ℕ;
  from_leaves = λ leaves size. none;
  root = λ row. replicate 32 (length row);
  size = λ row. length row;
  row_len = λ row. (length row + 1) / 2;
  leaves = λ row. parts ((length row + 1) / 2) row;
  index_at = λ row cursor. cursor / 2;
  leaf = leaf_at;
  range_start = λ row i. 2 * i;
  Store = List (List ℕ);
  chunk_hash = λ chunk. chunk;
  put = λ store address chunk. chunk ∷ store;
  put_map = λ store row. store;
  get = find;
  Coverage = ℕ;
  coverage = λ store root. some (length store);
  coverage_of = λ store roots. some (map (λ root. length store) roots);
  len = λ n. n;
  count = λ n. n;
  as_bits = λ n. replicate ((n + 7) / 8) 255;
}

abbrev pub content : List ℕ
content = 10 ∷ 20 ∷ 30 ∷ []

-- The store also has a chunk of another share.
abbrev store : List (List ℕ)
store = (10 ∷ 20 ∷ []) ∷ (30 ∷ []) ∷ (99 ∷ []) ∷ []

abbrev rows : List (ℕ × List ℕ)
rows = (0, content) ∷ []

seeder : Seeder pairs
unfolding update
seeder = update pairs (new pairs) (1 ∷ 2 ∷ []) rows store

state : State pairs
state = record {
  envelope = 1 ∷ 2 ∷ [];
  rows = rows;
  slot_of_root = (replicate 32 3, 0) ∷ [];
  in_scope = (10 ∷ 20 ∷ []) ∷ (30 ∷ []) ∷ [];
  store = store;
}

take-length-take : (n : ℕ) (xs : List ℕ) → take n xs ≡ take (length (take n xs)) xs
take-length-take zero xs = refl
take-length-take (suc n) [] = refl
take-length-take (suc n) (x ∷ xs) = ap (λ t. x ∷ t) (take-length-take n xs)

leaf-part :
    (cursor : ℕ) (address : List ℕ)
    → leaf_at content (cursor / 2) ≡ some address
    → part_at content (cursor / 2) ≡ address
leaf-part cursor address h = elim (Bool-cases (ltb (2 * (cursor / 2)) (length content))) [
  | inl e ↦
      let k : ◌≡◌ {A = Option (List ℕ)} (some (part_at content (cursor / 2))) (some address) =
        rw e at h in
      cc
  | inr e ↦ let k : ◌≡◌ {A = Option (List ℕ)} none (some address) = rw e at h in cc
]

pub find-address :
    (store : List (List ℕ)) (address chunk : List ℕ)
    → find store address ≡ some chunk
    → address ≡ chunk
find-address store address chunk h = elim (Bool-cases (contains store address)) [
  | inl e ↦ let k : ◌≡◌ {A = Option (List ℕ)} (some address) (some chunk) = rw e at h in cc
  | inr e ↦ let k : ◌≡◌ {A = Option (List ℕ)} none (some chunk) = rw e at h in cc
]

pub part_lem :
    (cursor : ℕ) (address chunk : List ℕ)
    → leaf_at content (cursor / 2) ≡ some address
    → address ≡ chunk
    → chunk ≡ take (length chunk) (drop (2 * (cursor / 2)) content)
part_lem cursor address chunk l same =
    subst (λ c. c ≡ take (length c) (drop (2 * (cursor / 2)) content))
      (leaf-part cursor address l ∙ same) (take-length-take 2 (drop (2 * (cursor / 2)) content))

content-RowOf : RowOf pairs content state.store content
unfolding state
content-RowOf = record {
  whole = refl;
  bound = omega arith;
  starts = λ cursor h. omega arith;
  part = λ cursor address chunk h l g.
      part_lem cursor address chunk l (find-address state.store address chunk g);
}

row_found : row_of pairs seeder 0 ≡ some (state, content)
unfolding seeder state row_of agent_share.Seed.get_slot agent_share.Prelude.Assoc.insert
row_found = refl

answer_read_exact_example :
    (answer_read pairs seeder 0 1 9 ≡ (seeder, ReadStatus.ok, take 9 (drop 1 content)))
    ⊎ ((answer_read pairs seeder 0 1 9 ≡ (report_hole pairs seeder 0, ReadStatus.bad_index, []))
        × (IsComplete pairs content state.store → ⊥))
answer_read_exact_example =
    answer_read_exact pairs seeder state content content 0 1 9 row_found content-RowOf (omega arith)

-- The rest of the file, from the second byte.
read_rest : answer_read pairs seeder 0 1 9 ≡ (seeder, ReadStatus.ok, 20 ∷ 30 ∷ [])
unfolding seeder answer_read agent_share.Seed.get_slot contains bytes_eq
read_rest = refl

armed : seeder.state ≡ some state
unfolding seeder state agent_share.Prelude.Assoc.insert
armed = refl

answer_chunk_scoped_example :
    answer_chunk pairs seeder (99 ∷ [])
    ≡ (if covers pairs (content ∷ []) (99 ∷ []) then find store (99 ∷ []) else none)
unfolding seeder state
answer_chunk_scoped_example =
    answer_chunk_scoped pairs seeder (content ∷ []) state (99 ∷ [])
      (Served.updated Served.fresh (1 ∷ 2 ∷ []) rows store) armed

same_bytes-IsArray : (b : ℕ) → b < 256 → IsArray 32 (replicate 32 b)
same_bytes-IsArray b h = (All-replicate IsByte 32 b h, refl)

abbrev tokens : TokenLibrary
tokens = record { derive = λ secret password label. secret; ct_eq = bytes_eq }

abbrev auth : ShareAuth
auth = from_token (replicate 32 5) false

unauthorized_learns_nothing_example :
    (answer : Outcome) × ((S : Type 0) (ops : ServeSource pairs S) (source : S)
        (frames : List (List ℕ))
      → serve_stream pairs ops tokens auth source (replicate 40 6) frames ≡ (source, answer))
unfolding bytes_eq
unauthorized_learns_nothing_example =
    unauthorized_learns_nothing pairs tokens auth (replicate 40 6) refl

own : tokens.ct_eq auth.token auth.token ≡ true
unfolding bytes_eq
own = refl

-- Chunks of 32 bytes that are their own addresses; a row is its addresses and its size.
abbrev blocks : ChunkLibrary
blocks = record {
  ChunkMap = List (List ℕ) × ℕ;
  from_leaves = λ leaves size. some (leaves, size);
  root = λ row. replicate 32 9;
  size = λ row. row.1;
  row_len = λ row. length row.0;
  leaves = λ row. row.0;
  index_at = λ row cursor. cursor / 32;
  leaf = λ row i. get_elem? row.0 i;
  range_start = λ row i. 32 * i;
  Store = List (List ℕ);
  chunk_hash = λ chunk. chunk;
  put = λ store address chunk. chunk ∷ store;
  put_map = λ store row. store;
  get = find;
  Coverage = ℕ;
  coverage = λ store root. some (length store);
  coverage_of = λ store roots. some (map (λ root. length store) roots);
  len = λ n. n;
  count = λ n. n;
  as_bits = λ n. replicate (bitmap_len n) 255;
}

abbrev block : List ℕ
block = replicate 32 7

abbrev one_block : Seeder blocks
one_block = record {
  state = some (record {
    envelope = 1 ∷ [];
    rows = (0, (block ∷ [], 32)) ∷ [];
    slot_of_root = (replicate 32 9, 0) ∷ [];
    in_scope = block ∷ [];
    store = block ∷ [];
  });
  watchers = [];
  holes = none;
}

block-ChunkFits : ChunkFits blocks block (answer_chunk blocks one_block block)
unfolding answer_chunk contains bytes_eq
block-ChunkFits = (refl, omega arith)

row-RowFits : RowFits blocks (answer_chunk_map blocks one_block 0)
unfolding answer_chunk_map get_slot agent_share.Framing.Answers.encode_chunk_map le_bytes
row-RowFits = record {
  root_bytes = same_bytes-IsArray 9 (omega arith);
  sized = omega arith;
  addresses = (same_bytes-IsArray 7 (omega arith), tt);
  count = omega arith;
  cap = omega arith;
  rebuilt = refl;
}

have-CoverageFits : CoverageFits blocks (answer_have blocks one_block (replicate 32 9))
unfolding answer_have agent_share.Prelude.Assoc.get bytes_eq agent_share.Framing.Answers.encode_have
    le_bytes
have-CoverageFits = (omega arith, refl, omega arith)

consumer_gets_the_answer_example :
    (fetch_chunk blocks
        (connected blocks tokens auth (seeder_source blocks) one_block [])
        auth.token
        block
      ≡ ok (answer_chunk blocks one_block block))
    × (fetch_chunk_map blocks
          (connected blocks tokens auth (seeder_source blocks) one_block [])
          auth.token
          0
        ≡ ok (answer_chunk_map blocks one_block 0))
    × CarriesCoverage blocks
        (answer_have blocks one_block (replicate 32 9))
        (serve_stream blocks
          (seeder_source blocks)
          tokens
          auth
          one_block
          (encode_have_request auth.token (replicate 32 9))
          []).1
consumer_gets_the_answer_example =
    consumer_gets_the_answer blocks tokens auth (seeder_source blocks)
      (same_bytes-IsArray 5 (omega arith)) own one_block [] 0 block (replicate 32 9) (omega arith)
      (same_bytes-IsArray 7 (omega arith)) (same_bytes-IsArray 9 (omega arith)) block-ChunkFits
      row-RowFits have-CoverageFits

-- The chunk and the row are there to be had.
block_served :
    (answer_chunk blocks one_block block ≡ some block)
    × (answer_chunk_map blocks one_block 0 ≡ some (block ∷ [], 32))
    × (answer_have blocks one_block (replicate 32 9) ≡ some 1)
unfolding answer_chunk answer_chunk_map get_slot answer_have agent_share.Prelude.Assoc.get contains
    bytes_eq
block_served = (refl, refl, refl)

read_over_the_wire_example :
    (bytes : List ℕ) × (serve_stream pairs
        (seeder_source pairs)
        tokens
        auth
        seeder
        (encode_read_request auth.token 0 1 9)
        []
      ≡ (seeder, answered bytes))
    × (decode_response_header (take 5 bytes) 9 ≡ declared ReadStatus.ok 2)
    × (drop 5 bytes ≡ 20 ∷ 30 ∷ [])
read_over_the_wire_example =
    read_over_the_wire pairs tokens auth (seeder_source pairs) (same_bytes-IsArray 5 (omega arith))
      own seeder seeder ReadStatus.ok (20 ∷ 30 ∷ []) 0 1 9 [] (omega arith) (omega arith)
      (omega arith) read_rest (omega arith)

abbrev since : ManifestSince
since = record { target_version = 2; signature = replicate 64 1; deltas = (7 ∷ []) ∷ [] }

-- The same peer with a history.
abbrev with_history : ServeSource pairs (Seeder pairs)
with_history = record (seeder_source pairs) { answer_manifest_since = λ s version. some since }

abbrev since_bytes : List ℕ
unfolding Since.encode
since_bytes = value_or [] (Since.encode since)

since_wrote : Since.encode since ≡ ok since_bytes
unfolding since_bytes agent_share.Wire.Writer.write_list agent_share.Wire.Writer.write_many
    Since.write_blob
since_wrote = refl

since-SinceFits : SinceFits since
unfolding bytes_eq
since-SinceFits = record {
  target = omega arith;
  signature = toy_sign-IsArray (9 ∷ []) 0 (9 ∷ []);
  deltas = ((all_bytes-All (7 ∷ []) refl, omega arith), tt);
}

since_small : length since_bytes < 2 ^ 32
unfolding since_bytes agent_share.Wire.Writer.write_list agent_share.Wire.Writer.write_many
    Since.write_blob le_bytes
since_small = omega arith

since_over_the_wire_example :
    (bytes : List ℕ) × (serve_stream pairs with_history tokens auth seeder
        (encode_manifest_since_request auth.token 1)
        []
      ≡ (seeder, answered bytes))
    × (Since.decode (drop 5 bytes) ≡ ok since)
since_over_the_wire_example =
    since_over_the_wire pairs tokens auth with_history (same_bytes-IsArray 5 (omega arith)) own
      seeder since since_bytes 1 [] (omega arith) refl since-SinceFits since_wrote since_small

-- Of the two rows only the one of five bytes has as many chunks as the store holds.
abbrev pub two_rows : List (ℕ × List ℕ)
two_rows = (4, 1 ∷ 2 ∷ 3 ∷ 4 ∷ 5 ∷ []) ∷ (1, content) ∷ []

unfoldable pub two_state : State pairs
two_state = record {
  envelope = 1 ∷ 2 ∷ [];
  rows = two_rows;
  slot_of_root = (replicate 32 3, 1) ∷ (replicate 32 5, 4) ∷ [];
  in_scope = [];
  store = store;
}

unfoldable pub two_files : Seeder pairs
two_files = record { state = some two_state; watchers = []; holes = none }

complete_slots_exact_example :
    IsSorted (complete_slots pairs two_files)
    × ((i : ℕ) → mem i (complete_slots pairs two_files) ≡ holds pairs two_files i)
unfolding two_files two_state get_slot agent_share.Seed.Holds.roots
complete_slots_exact_example =
    complete_slots_exact pairs two_files two_state (3 ∷ 3 ∷ []) refl (refl, (refl, tt)) refl
      (refl, (refl, tt))

pub complete_slots_run : complete_slots pairs two_files ≡ 4 ∷ []
unfolding two_files two_state complete_slots agent_share.Seed.Holds.complete_of
complete_slots_run = refl

-- Slot 4 has a row already.
adopt_exact_example :
    let after = adopt pairs two_files 4 content in
    ((i : ℕ)
      → answer_chunk_map pairs after i
        ≡ (if 4 == i then some content else answer_chunk_map pairs two_files i))
    × ((a : List ℕ)
        → answer_chunk pairs after a ≡ (
            if contains ((10 ∷ 20 ∷ []) ∷ (30 ∷ []) ∷ []) a
            then find store a
            else answer_chunk pairs two_files a))
    × ((r : List ℕ)
        → answer_have pairs after r
          ≡ (if bytes_eq (replicate 32 3) r then some 3 else answer_have pairs two_files r))
    × (manifest_envelope pairs after ≡ manifest_envelope pairs two_files)
    × (after.watchers ≡ two_files.watchers)
    × (after.holes ≡ two_files.holes)
unfolding two_files two_state
adopt_exact_example = adopt_exact pairs two_files two_state 4 content refl
