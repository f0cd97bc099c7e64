-- ===== src/Authorship.antt =====
-- crates/agent-share-proto/src/authorship.rs: signed manifests. The ed25519 keys of iroh are a
-- parameter, `Scheme`.
pub mod Envelope
pub mod Binding
use Prim.Native.Char.{code}
use Prim.Native.String.{String}
use agent_share.Prelude.{
  ℕ, ◌+◌, ◌≡◌, List, [], ◌∷◌, ◌++◌, Bool, true, Option, none, some, Result, ok, err, too_short,
  rollback, not_signed, length, take, drop, replicate, ltb, if◌then◌else◌, ◌>>◌,
}
use agent_share.Wire.Words.{le_bytes, from_le}
use agent_share.Wire.Codec.{IsArray}

-- The keypair halves of iroh_base. A signature is 64 bytes, and a key accepts what its holder signed.
pub record Scheme : Type 1 where
  pub SecretKey : Type 0
  pub PublicKey : Type 0
  pub public : SecretKey → PublicKey
  pub sign : SecretKey → List ℕ → List ℕ
  pub verify : PublicKey → List ℕ → List ℕ → Bool
  pub sign-IsArray : (k : SecretKey) (message : List ℕ) → IsArray 64 (sign k message)
  pub verify-sign :
      (k : SecretKey) (message : List ℕ) → verify (public k) message (sign k message) ≡ true

-- The bytes of an ASCII literal, `b"…"`.
abbrev pub codes : String → List ℕ
codes String.[] = []
codes (String.◌∷◌ c s) = code c ∷ codes s

-- `CONTEXT`
abbrev pub context : List ℕ
context = codes "agent-share/manifest/v1"

unfoldable pub signed_payload : ℕ → List ℕ → List ℕ
signed_payload version manifest = context ++ (le_bytes 8 version ++ manifest)

pub record SignedManifest : Type 0 where
  pub version : ℕ
  pub signature : List ℕ
  pub manifest : List ℕ

-- `SignedManifest::encode`
unfoldable pub encode : SignedManifest → List ℕ
encode s = le_bytes 8 s.version ++ (s.signature ++ s.manifest)

-- `SignedManifest::decode`, with `&body[a..b]` as `take` and `drop`.
unfoldable pub decode : List ℕ → Result SignedManifest
decode body =
    if ltb (length body) (8 + 64)
    then err too_short
    else ok (record {
      version = from_le (take 8 body);
      signature = take 64 (drop 8 body);
      manifest = drop (8 + 64) body;
    })

module _ (scheme : Scheme) where
  open scheme use {SecretKey, PublicKey, sign, verify}

  unfoldable pub sign_manifest : SecretKey → ℕ → List ℕ → List ℕ
  unfolding signed_payload
  sign_manifest author version manifest = sign author (signed_payload version manifest)

  -- An unsigned share sends a zero signature.
  unfoldable pub signature_of : Option SecretKey → ℕ → List ℕ → List ℕ
  unfolding sign_manifest
  signature_of none version manifest = replicate 64 0
  signature_of (some key) version manifest = sign_manifest key version manifest

  unfoldable pub sealed : Option SecretKey → ℕ → List ℕ → SignedManifest
  unfolding signature_of
  sealed author version manifest = record {
    version = version;
    signature = signature_of author version manifest;
    manifest = manifest;
  }

  unfoldable pub seal : Option SecretKey → ℕ → List ℕ → List ℕ
  unfolding sealed encode
  seal author version manifest = encode (sealed author version manifest)

  unfoldable pub verify_manifest : PublicKey → ℕ → List ℕ → List ℕ → Result (Unit {0})
  verify_manifest author version manifest signature =
      if verify author (signed_payload version manifest) signature then ok tt else err not_signed

  -- `SignedManifest::accept`
  unfoldable pub accept : SignedManifest → PublicKey → ℕ → Result (Unit {0})
  unfolding verify_manifest
  accept s author seen =
      if ltb s.version seen
      then err rollback
      else verify_manifest author s.version s.manifest s.signature
