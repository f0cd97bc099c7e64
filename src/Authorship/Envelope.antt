-- ===== src/Authorship/Envelope.antt =====
-- The envelope `version ‖ signature ‖ manifest`.
use mathlib.Core.Path.{subst, ap₂}
use agent_share.Prelude.{
  ℕ, zero, suc, ◌+◌, ◌≤◌, ◌≡◌, ◌↔◌, refl, ap, sym, ◌∙◌, List, [], ◌∷◌, ◌++◌, arith, true, false,
  Option, none, some, Result, ok, err, length, take, drop, All, All-append, All-take, All-drop,
  replicate, All-replicate, length-append, length-take_le, length-drop, length-replicate,
  take-append-drop, take-length_append, drop-length_append, ltb, Bool-cases, inl, inr,
}
use agent_share.Prelude
use agent_share.Wire.Words.{
  IsByte, IsU64, le_bytes, from_le, length-le_bytes, le_bytes-from_le, from_le-le_bytes,
  from_le-Fits, Fits, u64-Fits, Fits-IsU64,
}
use agent_share.Wire.Codec.{IsArray}
use agent_share.Authorship.{Scheme, SignedManifest, encode, decode, sealed, seal, accept}
use agent_share.Authorship.Binding.{accept_exact, accept-sealed}

pub record EnvelopeFits (s : SignedManifest) : Type 0 where
  pub version : IsU64 s.version
  pub signature : IsArray 64 s.signature
  pub manifest : All IsByte s.manifest

drop-nil : (n : ℕ) → drop {A = ℕ} n [] ≡ []
drop-nil zero = refl
drop-nil (suc n) = refl

drop-drop : (m n : ℕ) (xs : List ℕ) → drop m (drop n xs) ≡ drop (n + m) xs
drop-drop m zero xs = let e : zero + m ≡ m = omega arith in rw e
drop-drop m (suc n) [] = drop-nil m ∙ sym (drop-nil (suc n + m))
drop-drop m (suc n) (x ∷ xs) =
    let e : suc n + m ≡ suc (n + m) = omega arith in rw e (drop-drop m n xs)

-- An envelope with a `u64` version and a 64-byte signature is read back.
pub decode_envelope-encode_envelope :
    (s : SignedManifest) → EnvelopeFits s → decode (encode s) ≡ ok s
unfolding decode encode
decode_envelope-encode_envelope s good =
    let head : List ℕ = le_bytes 8 s.version in
    let whole : List ℕ = head ++ (s.signature ++ s.manifest) in
    let head_len = length-le_bytes 8 s.version in
    let front : take 8 whole ≡ head =
      subst (λ n. take n whole ≡ head) head_len
        (take-length_append head (s.signature ++ s.manifest)) in
    let back : drop 8 whole ≡ s.signature ++ s.manifest =
      subst (λ n. drop n whole ≡ s.signature ++ s.manifest) head_len
        (drop-length_append head (s.signature ++ s.manifest)) in
    let middle : take 64 (s.signature ++ s.manifest) ≡ s.signature =
      subst (λ n. take n (s.signature ++ s.manifest) ≡ s.signature) good.signature.1
        (take-length_append s.signature s.manifest) in
    let last : drop 64 (s.signature ++ s.manifest) ≡ s.manifest =
      subst (λ n. drop n (s.signature ++ s.manifest) ≡ s.manifest) good.signature.1
        (drop-length_append s.signature s.manifest) in
    let tail : drop 72 whole ≡ s.manifest = sym (drop-drop 64 8 whole) ∙ ap (drop 64) back ∙ last in
    let long : ltb (length whole) 72 ≡ false = Prelude.le→ltb_false (length whole) 72 (
      omega (
        arith,
        length-append head (s.signature ++ s.manifest),
        length-append s.signature s.manifest,
        head_len,
        good.signature.1,
      )) in
    rw long
      (rw (front, back, middle, tail) (rw (from_le-le_bytes 8 s.version (u64-Fits _ good.version))))

abbrev cut : List ℕ → SignedManifest
cut b = record {
  version = from_le (take 8 b);
  signature = take 64 (drop 8 b);
  manifest = drop 72 b;
}

cut_whole :
    (b : List ℕ) → All IsByte b → 72 ≤ length b → (encode (cut b) ≡ b) × EnvelopeFits (cut b)
unfolding encode
cut_whole b hb long =
    let len : length (take 8 b) ≡ 8 = length-take_le 8 b (omega arith) in
    let head = All-take IsByte 8 b hb in
    let word : le_bytes 8 (from_le (take 8 b)) ≡ take 8 b =
      subst (λ n. le_bytes n (from_le (take 8 b)) ≡ take 8 b) len
        (le_bytes-from_le (take 8 b) head) in
    let len' : length (take 64 (drop 8 b)) ≡ 64 =
      length-take_le 64 (drop 8 b) (omega (arith, length-drop 8 b)) in
    (
      ap₂ (λ x y. x ++ y) word
            (ap (λ x. take 64 (drop 8 b) ++ x) (sym (drop-drop 64 8 b))
              ∙ take-append-drop 64 (drop 8 b))
          ∙ take-append-drop 8 b,
      record {
        version =
            Fits-IsU64 _
              (subst (λ n. Fits n (from_le (take 8 b))) len (from_le-Fits (take 8 b) head));
        signature = (All-take IsByte 64 (drop 8 b) (All-drop IsByte 8 b hb), len');
        manifest = All-drop IsByte 72 b hb;
      },
    )

-- On bytes, whatever decodes as an envelope is the encoding of that envelope, and the two
-- fixed-width fields fit.
pub encode_envelope-decode_envelope :
    (b : List ℕ) (s : SignedManifest)
    → All IsByte b
    → decode b ≡ ok s
    → (encode s ≡ b) × EnvelopeFits s
unfolding decode
encode_envelope-decode_envelope b s hb e = elim (Bool-cases (ltb (length b) 72)) [
  | inl short ↦
      let k : ◌≡◌ {A = Result SignedManifest} (err Prelude.too_short) (ok s) = rw short at e in cc
  | inr long ↦
      let k : ◌≡◌ {A = Result SignedManifest} (ok (cut b)) (ok s) = rw long at e in
      let same : cut b ≡ s = cc in
      subst (λ x. (encode x ≡ b) × EnvelopeFits x) same
        (cut_whole b hb (Prelude.ltb_false→le (length b) 72 long))
]

pub sealed-EnvelopeFits :
    (scheme : Scheme) (author : Option scheme.SecretKey) (version : ℕ) (manifest : List ℕ)
    → IsU64 version
    → All IsByte manifest
    → EnvelopeFits (sealed scheme author version manifest)
unfolding sealed
sealed-EnvelopeFits scheme none version manifest hv hm = record {
  version = hv;
  signature = (All-replicate IsByte 64 0 (omega arith), refl);
  manifest = hm;
}
sealed-EnvelopeFits scheme (some key) version manifest hv hm = record {
  version = hv;
  signature = scheme.sign-IsArray key _;
  manifest = hm;
}

-- Who may have sealed an envelope: nobody, with zeros for a signature; or the holder of a key, and then
-- everyone who has seen no later version accepts it under the public key, and nobody else does.
abbrev pub IsSealedBy : (scheme : Scheme) → Option scheme.SecretKey → SignedManifest → Type 0
IsSealedBy scheme none s = s.signature ≡ replicate 64 0
IsSealedBy scheme (some key) s =
    (seen : ℕ) → (accept scheme s (scheme.public key) seen ≡ ok tt) ↔ (seen ≤ s.version)

sealed-IsSealedBy :
    (scheme : Scheme) (author : Option scheme.SecretKey) (version : ℕ) (manifest : List ℕ)
    → IsSealedBy scheme author (sealed scheme author version manifest)
unfolding sealed
sealed-IsSealedBy scheme none version manifest = refl
sealed-IsSealedBy scheme (some key) version manifest = λ seen. (
  λ h.
      ((accept_exact scheme (sealed scheme (some key) version manifest) (scheme.public key) seen).0
        h).0,
  λ late. accept-sealed scheme key version seen manifest late,
)

-- What a producer seals is read back by every consumer, with the version and the manifest that were
-- sealed. On an unsigned share the signature is zeros; on a signed one the envelope passes `accept`
-- under the creator's key exactly for those who have seen no later version. The version is a `u64`, and
-- the manifest is bytes.
pub decode-seal :
    (scheme : Scheme) (author : Option scheme.SecretKey) (version : ℕ) (manifest : List ℕ)
    → IsU64 version
    → All IsByte manifest
    → (s : SignedManifest) × (decode (seal scheme author version manifest) ≡ ok s)
      × (s.version ≡ version)
      × (s.manifest ≡ manifest)
      × IsSealedBy scheme author s
unfolding seal
decode-seal scheme author version manifest hv hm = (
  sealed scheme author version manifest,
  decode_envelope-encode_envelope (sealed scheme author version manifest)
      (sealed-EnvelopeFits scheme author version manifest hv hm),
  unfold sealed in refl,
  unfold sealed in refl,
  sealed-IsSealedBy scheme author version manifest,
)
