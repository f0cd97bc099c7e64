-- ===== src/Tests/Codecs.antt =====
-- The formats at concrete values.
use agent_share.Prelude.{
  ℕ, ◌+◌, ◌^◌, ◌≡◌, ◌≤◌, ◌↔◌, refl, List, [], ◌∷◌, ◌++◌, Bool, true, false, Option, none, some,
  Result, ok, err, replicate, bytes_eq, arith, length, get_elem?, if◌then◌else◌, All, Bool-cases,
  bytes_eq→eq, inl, inr,
}
use agent_share.Wire.Words.{pos, IsByte}
use agent_share.Manifest
use agent_share.Manifest.{DirEntry, FileEntry, MountManifest, tombstone}
use agent_share.Manifest.RoundTrip.{ManifestFits, decode-encode, encode-decode}
use agent_share.Manifest.Delta
use agent_share.Manifest.Delta.{ManifestDelta}
use agent_share.Manifest.Delta.RoundTrip.{DeltaFits, decode_delta-encode_delta}
use agent_share.Manifest.Apply.{apply, apply_dirs, contains}
use agent_share.Manifest.Apply.Dirs.{find_dir, or_else, find_dir-apply_dirs}
use agent_share.Manifest.Apply.Slots.{
  tombstone_if, upserted_at, padding, reaches_over, get_elem?-apply,
}
use agent_share.Sorting.{mem}
use agent_share.Framing.Since
use agent_share.Framing.Since.{ManifestSince}
use agent_share.Framing.Since.RoundTrip.{
  SinceFits, decode_since-encode_since, encode_since-decode_since,
}
use agent_share.Framing.Answers.{encode_chunk_map, decode_chunk_map, encode_have, decode_have}
use agent_share.Framing.Answers.RoundTrip.{answers_read_back}
use agent_share.Authorship
use agent_share.Watch.{apply_since}
use agent_share.Watch.Chain.{apply_since-append}
use agent_share.Authorship.{SignedManifest, sealed, seal, codes, signed_payload, accept}
use agent_share.Authorship.Envelope.{EnvelopeFits, IsSealedBy, decode-seal}
use agent_share.Authorship.Binding.{signed_payload-injective, accept_binds}
use agent_share.Tests.Data.{
  value_or, is_ok, value_or-ok, toy, toy_sign, toy_sign-IsArray, before, before-ManifestFits,
  dir_at, file_at, dir_at-DirFits, file_at-FileFits, text, all_bytes, all_bytes-All,
}

abbrev before_bytes : List ℕ
unfolding Manifest.encode
before_bytes = value_or [] (Manifest.encode before)

before_wrote : Manifest.encode before ≡ ok before_bytes
unfolding before_bytes agent_share.Wire.Writer.write_list agent_share.Wire.Writer.write_many
    Manifest.write_dir agent_share.Wire.Writer.write_path Manifest.write_file
before_wrote = refl

decode-encode_example : Manifest.decode before_bytes ≡ ok before
decode-encode_example = decode-encode before before_bytes before-ManifestFits before_wrote

before_read : Manifest.decode before_bytes ≡ ok before
before_read = decode-encode before before_bytes before-ManifestFits before_wrote

before_all : all_bytes before_bytes ≡ true
unfolding before_bytes agent_share.Wire.Writer.write_list agent_share.Wire.Writer.write_many
    Manifest.write_dir agent_share.Wire.Writer.write_path Manifest.write_file
    agent_share.Wire.Words.le_bytes agent_share.Wire.Words.to_bits
before_all = refl

encode-decode_example : (Manifest.encode before ≡ ok before_bytes) × ManifestFits before
encode-decode_example =
    encode-decode before_bytes before (all_bytes-All before_bytes before_all) before_read

abbrev change : ManifestDelta
change = record {
  dirs_upserted = dir_at (codes "d") ∷ [];
  dirs_removed = codes "a" ∷ [];
  files_upserted = (2, file_at (codes "d/y") 1) ∷ [];
  files_removed = 0 ∷ [];
}

abbrev change_bytes : List ℕ
unfolding Delta.encode
change_bytes = value_or [] (Delta.encode change)

change-DeltaFits : DeltaFits change
unfolding agent_share.Wire.Utf8.is_utf8
change-DeltaFits = record {
  dirs_upserted = (dir_at-DirFits _ (text (codes "d") refl refl), tt);
  dirs_removed = (text (codes "a") refl refl, tt);
  files_upserted =
      ((omega arith, file_at-FileFits _ 1 (text (codes "d/y") refl refl) (omega arith)), tt);
  files_removed = (omega arith, tt);
}

change_wrote : Delta.encode change ≡ ok change_bytes
unfolding change_bytes agent_share.Wire.Writer.write_list agent_share.Wire.Writer.write_many
    Manifest.write_dir agent_share.Wire.Writer.write_path Delta.write_slot Manifest.write_file
change_wrote = refl

change_read : Delta.decode change_bytes ≡ ok change
change_read = decode_delta-encode_delta change change_bytes change-DeltaFits change_wrote

change_all : all_bytes change_bytes ≡ true
unfolding change_bytes agent_share.Wire.Writer.write_list agent_share.Wire.Writer.write_many
    Manifest.write_dir agent_share.Wire.Writer.write_path Delta.write_slot Manifest.write_file
    agent_share.Wire.Words.le_bytes agent_share.Wire.Words.to_bits
change_all = refl

-- The two directories become the kept one and the new one; slot 0 is a tombstone, slot 1 padding.
change_applied : apply before change ≡ record {
  dirs = dir_at (codes "c") ∷ dir_at (codes "d") ∷ [];
  files = tombstone ∷ tombstone ∷ file_at (codes "d/y") 1 ∷ [];
}
unfolding apply agent_share.Prelude.Assoc.get contains bytes_eq agent_share.Prelude.Assoc.insert
change_applied = refl

find_dir-apply_dirs_example :
    find_dir (apply_dirs change before.dirs) (codes "a")
    ≡ or_else (find_dir change.dirs_upserted (codes "a")) (
        if contains change.dirs_removed (codes "a") then none else find_dir before.dirs (codes "a"))
unfolding contains bytes_eq
find_dir-apply_dirs_example =
    find_dir-apply_dirs change before.dirs (codes "a") (refl, (refl, tt)) (refl, tt)

-- The removed slot has a tombstone for the file that it had.
get_elem?-apply_example :
    get_elem? (apply before change).files 0
    ≡ tombstone_if (mem 0 change.files_removed) (
        or_else
          (upserted_at change.files_upserted 0)
          (or_else (get_elem? before.files 0) (padding (reaches_over change.files_upserted 0))))
get_elem?-apply_example = get_elem?-apply before change 0

abbrev more : ManifestDelta
more = record {
  dirs_upserted = dir_at (codes "a") ∷ [];
  dirs_removed = [];
  files_upserted = (0, file_at (codes "a/x") 6) ∷ [];
  files_removed = [];
}

abbrev more_bytes : List ℕ
unfolding Delta.encode
more_bytes = value_or [] (Delta.encode more)

abbrev zeros : List ℕ
zeros = replicate 64 0

abbrev held : SignedManifest
held = record { version = 1; signature = zeros; manifest = before_bytes }

abbrev answer : ℕ → List (List ℕ) → ManifestSince
answer version deltas = record { target_version = version; signature = zeros; deltas = deltas }

mid : SignedManifest
mid = value_or held (apply_since (toy []) held (answer 2 (change_bytes ∷ [])) (some 7))

last : SignedManifest
last = value_or held (apply_since (toy []) mid (answer 5 (more_bytes ∷ [])) (some 7))

mid_reached : is_ok (apply_since (toy []) held (answer 2 (change_bytes ∷ [])) (some 7)) ≡ true
unfolding Manifest.encode Delta.encode Delta.is_empty Manifest.write_dir Manifest.write_file
    Delta.write_slot agent_share.Wire.Writer.write_list agent_share.Wire.Writer.write_many
    agent_share.Wire.Writer.write_path agent_share.Wire.Words.le_bytes
    agent_share.Wire.Words.to_bits agent_share.Wire.Utf8.is_utf8 agent_share.Prelude.Assoc.get
    agent_share.Prelude.Assoc.insert bytes_eq contains Authorship.encode Authorship.sealed
    Authorship.sign_manifest Authorship.signature_of Authorship.signed_payload
    agent_share.Framing.Since.encode agent_share.Framing.Since.write_blob apply_since
    agent_share.Watch.apply_chain agent_share.Watch.accept_by Authorship.accept
    Authorship.verify_manifest Manifest.decode Manifest.take_manifest Manifest.take_dir
    Manifest.take_file agent_share.Wire.Cursor.take_list agent_share.Wire.Cursor.take_many
    agent_share.Wire.Cursor.take_u32 agent_share.Wire.Cursor.take_u16
    agent_share.Wire.Cursor.take_u64 agent_share.Wire.Cursor.take_i64
    agent_share.Wire.Cursor.take_bytes agent_share.Wire.Cursor.take_path
    agent_share.Wire.Cursor.from_utf8 agent_share.Wire.Words.from_le agent_share.Wire.Words.of_bits
    Delta.decode Delta.take_delta Delta.take_slot apply
mid_reached = refl

last_reached : is_ok (apply_since (toy []) mid (answer 5 (more_bytes ∷ [])) (some 7)) ≡ true
unfolding Manifest.encode Delta.encode Delta.is_empty Manifest.write_dir Manifest.write_file
    Delta.write_slot agent_share.Wire.Writer.write_list agent_share.Wire.Writer.write_many
    agent_share.Wire.Writer.write_path agent_share.Wire.Words.le_bytes
    agent_share.Wire.Words.to_bits agent_share.Wire.Utf8.is_utf8 agent_share.Prelude.Assoc.get
    agent_share.Prelude.Assoc.insert bytes_eq contains Authorship.encode Authorship.sealed
    Authorship.sign_manifest Authorship.signature_of Authorship.signed_payload
    agent_share.Framing.Since.encode agent_share.Framing.Since.write_blob apply_since
    agent_share.Watch.apply_chain agent_share.Watch.accept_by Authorship.accept
    Authorship.verify_manifest Manifest.decode Manifest.take_manifest Manifest.take_dir
    Manifest.take_file agent_share.Wire.Cursor.take_list agent_share.Wire.Cursor.take_many
    agent_share.Wire.Cursor.take_u32 agent_share.Wire.Cursor.take_u16
    agent_share.Wire.Cursor.take_u64 agent_share.Wire.Cursor.take_i64
    agent_share.Wire.Cursor.take_bytes agent_share.Wire.Cursor.take_path
    agent_share.Wire.Cursor.from_utf8 agent_share.Wire.Words.from_le agent_share.Wire.Words.of_bits
    mid Delta.decode Delta.take_delta Delta.take_slot apply
last_reached = refl

apply_since-append_example :
    apply_since (toy []) held (answer 5 (change_bytes ∷ more_bytes ∷ [])) (some 7) ≡ ok last
unfolding last mid apply_since
apply_since-append_example =
    apply_since-append (toy []) held mid last 2 5 zeros zeros (change_bytes ∷ []) (more_bytes ∷ [])
      (some 7) (all_bytes-All before_bytes before_all) (all_bytes-All change_bytes change_all, tt)
      (value_or-ok held (apply_since (toy []) held (answer 2 (change_bytes ∷ [])) (some 7))
        mid_reached)
      (value_or-ok held (apply_since (toy []) mid (answer 5 (more_bytes ∷ [])) (some 7))
        last_reached)

abbrev since : ManifestSince
since = record {
  target_version = 2;
  signature = replicate 64 1;
  deltas = (1 ∷ 2 ∷ 3 ∷ []) ∷ [] ∷ [];
}

abbrev since_bytes : List ℕ
unfolding Since.encode
since_bytes = value_or [] (Since.encode since)

since-SinceFits : SinceFits since
unfolding bytes_eq
since-SinceFits = record {
  target = omega arith;
  signature = toy_sign-IsArray [] 0 [];
  deltas = ((all_bytes-All (1 ∷ 2 ∷ 3 ∷ []) refl, omega arith), ((tt, omega arith), tt));
}

since_wrote : Since.encode since ≡ ok since_bytes
unfolding since_bytes agent_share.Wire.Writer.write_list agent_share.Wire.Writer.write_many
    Since.write_blob
since_wrote = refl

since_read : Since.decode since_bytes ≡ ok since
since_read = decode_since-encode_since since since_bytes since-SinceFits since_wrote

since_all : all_bytes since_bytes ≡ true
unfolding since_bytes agent_share.Wire.Writer.write_list agent_share.Wire.Writer.write_many
    Since.write_blob agent_share.Wire.Words.le_bytes
since_all = refl

encode_since-decode_since_example : (Since.encode since ≡ ok since_bytes) × SinceFits since
encode_since-decode_since_example =
    encode_since-decode_since since_bytes since (all_bytes-All since_bytes since_all) since_read

answers_read_back_example :
    (decode_chunk_map (encode_chunk_map (replicate 32 1) 9 (replicate 32 2 ∷ []))
      ≡ ok (replicate 32 1, 9, replicate 32 2 ∷ []))
    × (decode_have (encode_have 9 (255 ∷ 1 ∷ [])) ≡ ok (9, 255 ∷ 1 ∷ []))
answers_read_back_example =
    answers_read_back (replicate 32 1) 9 (replicate 32 2 ∷ []) 9 (255 ∷ 1 ∷ [])
      (all_bytes-All (replicate 32 1) refl, refl) (omega arith)
      ((all_bytes-All (replicate 32 2) refl, refl), tt) (omega arith) (omega arith) refl

abbrev offered : SignedManifest
offered = record { version = 3; signature = replicate 64 0; manifest = 9 ∷ 8 ∷ [] }

abbrev offered_bytes : List ℕ
unfolding Authorship.encode
offered_bytes = Authorship.encode offered

offered-EnvelopeFits : EnvelopeFits offered
unfolding bytes_eq
offered-EnvelopeFits = record {
  version = omega arith;
  signature = toy_sign-IsArray (1 ∷ []) 0 [];
  manifest = all_bytes-All (9 ∷ 8 ∷ []) refl;
}

offered_read : Authorship.decode offered_bytes ≡ ok offered
unfolding offered_bytes Authorship.decode agent_share.Wire.Words.le_bytes
    agent_share.Wire.Words.from_le
offered_read = refl

offered_all : all_bytes offered_bytes ≡ true
unfolding offered_bytes agent_share.Wire.Words.le_bytes
offered_all = refl

decode-seal_example :
    (s : SignedManifest) × (Authorship.decode (seal (toy []) (some 7) 3 (9 ∷ 8 ∷ [])) ≡ ok s)
    × (s.version ≡ 3)
    × (s.manifest ≡ 9 ∷ 8 ∷ [])
    × IsSealedBy (toy []) (some 7) s
decode-seal_example =
    decode-seal (toy []) (some 7) 3 (9 ∷ 8 ∷ []) (omega arith) (all_bytes-All (9 ∷ 8 ∷ []) refl)

signed_payload-injective_example : (◌≡◌ {A = ℕ} 3 3) × (◌≡◌ {A = List ℕ} (9 ∷ []) (9 ∷ []))
signed_payload-injective_example =
    signed_payload-injective 3 3 (9 ∷ []) (9 ∷ []) (omega arith) (omega arith) refl

-- The one payload that is signed with ones.
abbrev nine : List ℕ
unfolding signed_payload
nine = signed_payload 3 (9 ∷ 8 ∷ [])

ones-special :
    (special message : List ℕ)
    → bytes_eq (replicate 64 1) (toy_sign special 7 message) ≡ true
    → message ≡ special
unfolding bytes_eq
ones-special special message h = elim (Bool-cases (bytes_eq message special)) [
  | inl same ↦ bytes_eq→eq message special same
  | inr other ↦ let k : ◌≡◌ {A = Bool} false true = rw other at h in cc
]

only_nine :
    (message : List ℕ)
    → (toy nine).verify 7 message (sealed (toy nine) (some 7) 3 (9 ∷ 8 ∷ [])).signature ≡ true
    → message ≡ signed_payload 3 (9 ∷ 8 ∷ [])
unfolding sealed signed_payload bytes_eq agent_share.Wire.Words.le_bytes
only_nine message h = ones-special nine message h

accept_binds_example :
    (accept
        (toy nine)
        (record {
          version = 4;
          signature = (sealed (toy nine) (some 7) 3 (9 ∷ 8 ∷ [])).signature;
          manifest = 9 ∷ 8 ∷ [];
        })
        7
        2
      ≡ ok tt)
    ↔ ((2 ≤ 4) × (◌≡◌ {A = ℕ} 4 3) × (◌≡◌ {A = List ℕ} (9 ∷ 8 ∷ []) (9 ∷ 8 ∷ [])))
accept_binds_example =
    accept_binds (toy nine) 7 3 4 2 (9 ∷ 8 ∷ []) (9 ∷ 8 ∷ []) (omega arith) (omega arith) only_nine
