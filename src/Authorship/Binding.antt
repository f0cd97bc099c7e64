-- ===== src/Authorship/Binding.antt =====
-- What a signature covers.
use mathlib.Core.Path.{subst}
use agent_share.Prelude.{
  ℕ, ◌≡◌, ◌↔◌, arith, refl, ap, sym, ◌∙◌, List, [], ◌∷◌, ◌++◌, true, false, Result, ok, err, length,
  take, drop, take-length_append, drop-length_append, ltb, leb, if◌then◌else◌, ◌≤◌,
}
use agent_share.Prelude
use agent_share.Wire.Words.{IsU64, le_bytes, from_le, length-le_bytes, from_le-le_bytes, u64-Fits}
use agent_share.Authorship.{Scheme, SignedManifest, context, signed_payload, sealed, accept}
use mathlib.Core.Option.{some}

-- The payload names its version and its manifest: two that agree are of the same version and bytes,
-- so a signature over one is a signature over no other.
pub signed_payload-injective :
    (v w : ℕ) (m n : List ℕ)
    → IsU64 v
    → IsU64 w
    → signed_payload v m ≡ signed_payload w n
    → (v ≡ w) × (m ≡ n)
unfolding signed_payload
signed_payload-injective v w m n hv hw e =
    let body : le_bytes 8 v ++ m ≡ le_bytes 8 w ++ n =
      sym (drop-length_append context (le_bytes 8 v ++ m))
      ∙ ap (drop (length context)) e
      ∙ drop-length_append context (le_bytes 8 w ++ n) in
    let lv = length-le_bytes 8 v in
    let lw = length-le_bytes 8 w in
    let heads : le_bytes 8 v ≡ le_bytes 8 w =
      sym (
        subst (λ k. take k (le_bytes 8 v ++ m) ≡ le_bytes 8 v) lv
          (take-length_append (le_bytes 8 v) m))
      ∙ ap (take 8) body
      ∙ subst (λ k. take k (le_bytes 8 w ++ n) ≡ le_bytes 8 w) lw
          (take-length_append (le_bytes 8 w) n) in
    let tails : m ≡ n =
      sym (subst (λ k. drop k (le_bytes 8 v ++ m) ≡ m) lv (drop-length_append (le_bytes 8 v) m))
      ∙ ap (drop 8) body
      ∙ subst (λ k. drop k (le_bytes 8 w ++ n) ≡ n) lw (drop-length_append (le_bytes 8 w) n) in
    (
      sym (from_le-le_bytes 8 v (u64-Fits v hv))
          ∙ ap from_le heads
          ∙ from_le-le_bytes 8 w (u64-Fits w hw),
      tails,
    )

module _ (scheme : Scheme) where
  open scheme use {SecretKey, PublicKey, public, sign, verify, verify-sign}

  pub accept_exact :
      (s : SignedManifest) (author : PublicKey) (seen : ℕ)
      → (accept scheme s author seen ≡ ok tt) ↔ (
          (seen ≤ s.version)
          × (verify author (signed_payload s.version s.manifest) s.signature ≡ true))
  unfolding accept
  accept_exact s author seen = (λ h. ground arith, λ h. ground arith)

  -- What the creator seals is accepted under the creator's public key by everyone who has seen no
  -- later version.
  pub accept-sealed :
      (key : SecretKey) (version seen : ℕ) (manifest : List ℕ)
      → seen ≤ version
      → accept scheme (sealed scheme (some key) version manifest) (public key) seen ≡ ok tt
  unfolding sealed accept
  accept-sealed key version seen manifest h =
      rw (Prelude.le→ltb_false version seen h)
        (rw (verify-sign key (signed_payload version manifest)))

  sealed-verifies :
      (key : SecretKey) (version : ℕ) (manifest : List ℕ) (other : ℕ) (bytes : List ℕ)
      → other ≡ version
      → bytes ≡ manifest
      → verify
          (public key)
          (signed_payload other bytes)
          (sealed scheme (some key) version manifest).signature
        ≡ true
  unfolding sealed
  sealed-verifies key version manifest other bytes v m =
      subst
        (λ x.
          verify (public key) (signed_payload x bytes) (sign key (signed_payload version manifest))
          ≡ true)
        (sym v)
        (subst
          (λ x.
            verify (public key) (signed_payload version x)
              (sign key (signed_payload version manifest))
            ≡ true)
          (sym m) (verify-sign key (signed_payload version manifest)))

  -- The signature of what a creator seals is accepted under the creator's key with that version and that
  -- manifest and no others, and only by those who have seen no later version. The versions are `u64`s,
  -- and the key verifies the signature for no other payload.
  pub accept_binds :
      (key : SecretKey) (version other seen : ℕ) (manifest bytes : List ℕ)
      → IsU64 version
      → IsU64 other
      → ((message : List ℕ)
          → verify (public key) message (sealed scheme (some key) version manifest).signature ≡ true
          → message ≡ signed_payload version manifest)
      → (accept scheme
            (record {
              version = other;
              signature = (sealed scheme (some key) version manifest).signature;
              manifest = bytes;
            })
            (public key)
            seen
          ≡ ok tt)
        ↔ ((seen ≤ other) × (other ≡ version) × (bytes ≡ manifest))
  accept_binds key version other seen manifest bytes hv ho only =
      let s : SignedManifest = record {
        version = other;
        signature = (sealed scheme (some key) version manifest).signature;
        manifest = bytes;
      } in
      let exact = accept_exact s (public key) seen in
      (
        λ h.
            let (late, verified) = exact.0 h in
            let same = only (signed_payload other bytes) verified in
            let (v, m) = signed_payload-injective other version bytes manifest ho hv same in
            (late, v, m),
        λ (late, v, m). exact.1 (late, sealed-verifies key version manifest other bytes v m),
      )
