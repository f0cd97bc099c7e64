-- ===== src/Framing/Since/RoundTrip.antt =====
-- A catch-up answer: it is read back, and what is read has every delta within the cap.
use mathlib.Core.Path.{subst}
use mathlib.Core.List.{append-nil, append_assoc}
use agent_share.Prelude.{
  ℕ, ◌+◌, ◌^◌, false, length-append, ◌<◌, ◌≤◌, ◌≡◌, refl, ap, sym, ◌∙◌, List, [], ◌∷◌, ◌++◌, arith,
  Result, ok, err, panicked, length, All, All-append, ltb, leb, if◌then◌else◌, Bool-cases, inl, inr,
  >>=-eq-ok,
}
use agent_share.Prelude
use agent_share.Wire.Words.{IsByte, le_bytes, le_bytes-IsByte, length-le_bytes, IsU64}
use agent_share.Wire.Cursor.{take_bytes, take_u32, take_u64, take_list}
use agent_share.Wire.Writer.{write_list}
use agent_share.Wire.Codec.{
  Came, Codec, IsArray, IsArray-Codec, bind-eq-ok, bind-reads, IsU32-Codec, IsU64-Codec, list-Codec,
  finish-eq-ok, pure-eq-ok, join, write_list-eq-ok,
}
use agent_share.Framing.Since.{
  max_delta_bytes, ManifestSince, write_blob, encode, check_cap, take_blob, take_since, decode,
}

-- A delta within the cap.
abbrev pub BlobFits : List ℕ → Type 0
BlobFits d = All IsByte d × (length d ≤ max_delta_bytes)

pub record SinceFits (s : ManifestSince) : Type 0 where
  pub target : IsU64 s.target_version
  pub signature : IsArray 64 s.signature
  pub deltas : All BlobFits s.deltas

write_blob-eq-ok :
    (d w : List ℕ) → write_blob d ≡ ok w → (length d < 2 ^ 32) × (le_bytes 4 (length d) ++ d ≡ w)
unfolding write_blob
write_blob-eq-ok d w e = elim (Bool-cases (ltb (length d) (2 ^ 32))) [
  | inl fits ↦
      let k : ◌≡◌ {A = Result (List ℕ)} (ok (le_bytes 4 (length d) ++ d)) (ok w) = rw fits at e in
      (Prelude.ltb→lt _ _ fits, cc)
  | inr long ↦ let k : ◌≡◌ {A = Result (List ℕ)} (err Prelude.panicked) (ok w) = rw long at e in cc
]

check_cap-eq-ok :
    (len : ℕ) (b d rest : List ℕ)
    → check_cap len b ≡ ok (d, rest)
    → (len ≤ max_delta_bytes) × (take_bytes len b ≡ ok (d, rest))
unfolding check_cap
check_cap-eq-ok len b d rest h = ground arith

check_cap-fits : (len : ℕ) (b : List ℕ) → len ≤ max_delta_bytes → check_cap len b ≡ take_bytes len b
unfolding check_cap
check_cap-fits len b h = ground arith

blob-Codec : Codec take_blob write_blob BlobFits
unfolding take_blob
blob-Codec = record {
  reads = λ d w rest good e.
      let (short, same) = write_blob-eq-ok d w e in
      subst (λ x. take_blob (x ++ rest) ≡ ok (d, rest)) same
        (rw (append_assoc (le_bytes 4 (length d)) d rest) (
          bind-reads take_u32 _ _ (length d) _
            (IsU32-Codec.reads (length d) _ (d ++ rest) short refl)
          ∙ check_cap-fits (length d) (d ++ rest) good.1
          ∙ (IsArray-Codec (length d)).reads d d rest (good.0, refl) refl));
  writes = λ b d rest hb e.
      let (len, r, one, more) = bind-eq-ok take_u32 _ b e in
      let k = IsU32-Codec.writes b len r hb one in
      let (capped, two) = check_cap-eq-ok len r d rest more in
      let k1 = (IsArray-Codec len).writes r d rest k.bytes two in
      let short : length d < 2 ^ 32 = omega (arith, k1.good.1, k.good) in
      record {
        wire = le_bytes 4 (length d) ++ d;
        wrote = unfold write_blob in rw (Prelude.lt→ltb _ _ short);
        split = join {r = r} _ d rest (cc (k.split, k.wrote, k1.good.1)) (cc (k1.split, k1.wrote));
        good = (k1.good.0, omega (arith, capped, k1.good.1));
        bytes = k1.bytes;
      };
  bytes = λ d w good e.
      let (short, same) = write_blob-eq-ok d w e in
      subst (All IsByte) same
        (All-append IsByte (le_bytes 4 (length d)) d (le_bytes-IsByte 4 (length d)) good.0);
}

abbrev blobs-Codec : Codec (take_list take_blob) (write_list write_blob) (All BlobFits)
blobs-Codec = list-Codec blob-Codec

since-Codec : Codec take_since encode SinceFits
unfolding take_since encode
since-Codec = record {
  reads = λ s w rest good e.
      let (ds, one, more) = >>=-eq-ok (write_list write_blob s.deltas) _ e in
      let head : List ℕ = le_bytes 8 s.target_version in
      let shape : w ++ rest ≡ head ++ (s.signature ++ (ds ++ rest)) =
        cc (more, append_assoc head (s.signature ++ ds) rest, append_assoc s.signature ds rest) in
      subst (λ x. take_since x ≡ ok (s, rest)) (sym shape)
        (bind-reads take_u64 _ _ s.target_version _
            (IsU64-Codec.reads s.target_version head (s.signature ++ (ds ++ rest)) good.target refl)
          ∙ bind-reads (take_bytes 64) _ _ s.signature _
              ((IsArray-Codec 64).reads s.signature s.signature (ds ++ rest) good.signature refl)
          ∙ bind-reads (take_list take_blob) _ _ s.deltas _
              (blobs-Codec.reads s.deltas ds rest good.deltas one));
  writes = λ b s rest hb e.
      let (target, r1, one, e1) = bind-eq-ok take_u64 _ b e in
      let k1 = IsU64-Codec.writes b target r1 hb one in
      let (sig, r2, two, e2) = bind-eq-ok (take_bytes 64) _ r1 e1 in
      let k2 = (IsArray-Codec 64).writes r1 sig r2 k1.bytes two in
      let (ds, r3, three, e3) = bind-eq-ok (take_list take_blob) _ r2 e2 in
      let k3 = blobs-Codec.writes r2 ds r3 k2.bytes three in
      let (whole, left) = pure-eq-ok r3 e3 in
      subst (λ x. Came encode SinceFits b x rest) whole
        (record {
          wire = le_bytes 8 target ++ (sig ++ k3.wire);
          wrote = rw k3.wrote;
          split = join {r = r1} (le_bytes 8 target) _ rest (cc (k1.split, k1.wrote)) (
              join {r = r2} sig _ rest (cc (k2.split, k2.wrote))
                (subst (λ x. r2 ≡ k3.wire ++ x) left k3.split));
          good = record { target = k1.good; signature = k2.good; deltas = k3.good };
          bytes = subst (All IsByte) left k3.bytes;
        });
  bytes = λ s w good e.
      let (ds, one, same) = >>=-eq-ok (write_list write_blob s.deltas) _ e in
      let u : le_bytes 8 s.target_version ++ (s.signature ++ ds) ≡ w = cc in
      subst (All IsByte) u (
        All-append IsByte (le_bytes 8 s.target_version) _ (le_bytes-IsByte 8 s.target_version) (
          All-append IsByte s.signature ds good.signature.0
            (blobs-Codec.bytes s.deltas ds good.deltas one)));
}

encode_since-long :
    (s : ManifestSince) (b : List ℕ) → SinceFits s → encode s ≡ ok b → 8 + 64 + 4 ≤ length b
unfolding encode
encode_since-long s b good e =
    let (ds, one, same) = >>=-eq-ok (write_list write_blob s.deltas) _ e in
    let (ws, short, many, wire) = write_list-eq-ok write_blob s.deltas ds one in
    let u : le_bytes 8 s.target_version ++ (s.signature ++ ds) ≡ b = cc in
    omega (
      arith,
      ap (length {0} {A = ℕ}) u,
      ap (length {0} {A = ℕ}) wire,
      length-append (le_bytes 8 s.target_version) (s.signature ++ ds),
      length-append s.signature ds,
      length-append (le_bytes 4 (length s.deltas)) ws,
      length-le_bytes 8 s.target_version,
      length-le_bytes 4 (length s.deltas),
      good.signature.1,
    )

-- A catch-up answer with a 64-byte signature and every delta within the cap is read back.
pub decode_since-encode_since :
    (s : ManifestSince) (b : List ℕ) → SinceFits s → encode s ≡ ok b → decode b ≡ ok s
unfolding decode
decode_since-encode_since s b good e =
    let r : take_since b ≡ ok (s, []) =
      subst (λ x. take_since x ≡ ok (s, [])) (append-nil b) (since-Codec.reads s b [] good e) in
    let short : ltb (length b) (8 + 64 + 4) ≡ false =
      ground (arith, encode_since-long s b good e) in
    rw short (rw r)

-- On bytes, whatever decodes as a catch-up answer is the encoding of that answer, and every delta
-- in it is within the cap.
pub encode_since-decode_since :
    (b : List ℕ) (s : ManifestSince)
    → All IsByte b
    → decode b ≡ ok s
    → (encode s ≡ ok b) × SinceFits s
unfolding decode
encode_since-decode_since b s hb e = elim (Bool-cases (ltb (length b) (8 + 64 + 4))) [
  | inl short ↦
      let k : ◌≡◌ {A = Result ManifestSince} (err Prelude.too_short) (ok s) = rw short at e in cc
  | inr long ↦
      let whole = finish-eq-ok (take_since b) s (rw long at e) in
      let k = since-Codec.writes b s [] hb whole in
      (k.wrote ∙ ap ok (sym (k.split ∙ append-nil k.wire)), k.good)
]
