-- ===== src/Watch/Chain.antt =====
-- Catching up in one step or in several (`apply_since` of crates/agent-share-proto/src/manifest.rs).
use mathlib.Core.Path.{subst}
use agent_share.Prelude.{
  ℕ, ◌≤◌, ◌≡◌, refl, ap, sym, ◌∙◌, List, [], ◌∷◌, ◌++◌, arith, false, Option, none, some, Result,
  Error, ok, err, ltb, le→ltb_false, All,
}
use agent_share.Wire.Words.{IsByte}
use agent_share.Manifest
use agent_share.Manifest.{MountManifest}
use agent_share.Manifest.RoundTrip.{ManifestFits, decode-encode, encode-decode}
use agent_share.Manifest.Delta
use agent_share.Manifest.Delta.{ManifestDelta}
use agent_share.Manifest.Delta.RoundTrip.{encode_delta-decode_delta}
use agent_share.Manifest.Apply.{apply}
use agent_share.Manifest.Apply.Files.{apply-ManifestFits}
use agent_share.Authorship.{Scheme, SignedManifest}
use agent_share.Authorship.Binding.{accept_exact}
use agent_share.Watch.{apply_chain, accept_by, apply_since}
use agent_share.Watch.Safety.{IsTrusted, apply_since_sound}

apply_chain-refused :
    (m : MountManifest) (d : List ℕ) (ds : List (List ℕ)) (e : Error)
    → Delta.decode d ≡ err e
    → apply_chain m (d ∷ ds) ≡ err e
unfolding apply_chain
apply_chain-refused m d ds e k = rw (k, apply_chain) refl

apply_chain-applied :
    (m : MountManifest) (d : List ℕ) (ds : List (List ℕ)) (delta : ManifestDelta)
    → Delta.decode d ≡ ok delta
    → apply_chain m (d ∷ ds) ≡ apply_chain (apply m delta) ds
unfolding apply_chain
apply_chain-applied m d ds delta k = rw (k, apply_chain) refl

apply_chain-append :
    (m : MountManifest) (ds es : List (List ℕ)) (after : MountManifest)
    → apply_chain m ds ≡ ok after
    → apply_chain m (ds ++ es) ≡ apply_chain after es
unfolding apply_chain
apply_chain-append m [] es after h = let same : m ≡ after = cc in ap (λ x. apply_chain x es) same
apply_chain-append m (d ∷ ds) es after h =
    go (Delta.decode d) refl (λ delta. apply_chain-append (apply m delta) ds es after)
  where
    go :
        (r : Result ManifestDelta)
        → Delta.decode d ≡ r
        → ((delta : ManifestDelta)
            → apply_chain (apply m delta) ds ≡ ok after
            → apply_chain (apply m delta) (ds ++ es) ≡ apply_chain after es)
        → apply_chain m ((d ∷ ds) ++ es) ≡ apply_chain after es
    go (err e) k ih =
        let f : ◌≡◌ {A = Result MountManifest} (err e) (ok after) =
          sym (apply_chain-refused m d ds e k) ∙ h in
        cc
    go (ok delta) k ih =
        apply_chain-applied m d (ds ++ es) delta k
        ∙ ih delta (sym (apply_chain-applied m d ds delta k) ∙ h)

apply_chain-ManifestFits :
    (m : MountManifest) (ds : List (List ℕ)) (after : MountManifest)
    → All (All IsByte) ds
    → ManifestFits m
    → apply_chain m ds ≡ ok after
    → ManifestFits after
unfolding apply_chain
apply_chain-ManifestFits m [] after bytes fits h =
    let same : m ≡ after = cc in subst ManifestFits same fits
apply_chain-ManifestFits m (d ∷ ds) after bytes fits h =
    go (Delta.decode d) refl (λ delta. apply_chain-ManifestFits (apply m delta) ds after bytes.1)
  where
    go :
        (r : Result ManifestDelta)
        → Delta.decode d ≡ r
        → ((delta : ManifestDelta)
            → ManifestFits (apply m delta)
            → apply_chain (apply m delta) ds ≡ ok after
            → ManifestFits after)
        → ManifestFits after
    go (err e) k ih =
        let f : ◌≡◌ {A = Result MountManifest} (err e) (ok after) =
          sym (apply_chain-refused m d ds e k) ∙ h in
        cc
    go (ok delta) k ih =
        let good = (encode_delta-decode_delta d delta bytes.0 k).1 in
        ih delta (apply-ManifestFits m delta fits good)
          (sym (apply_chain-applied m d ds delta k) ∙ h)

module _ (scheme : Scheme) where
  open scheme use {PublicKey}

  IsTrusted-accept_by :
      (held next : SignedManifest) (author : Option PublicKey) (seen : ℕ)
      → seen ≤ next.version
      → IsTrusted scheme held author next
      → accept_by scheme author next seen ≡ ok tt
  unfolding accept_by
  IsTrusted-accept_by held next none seen late trusted = refl
  IsTrusted-accept_by held next (some key) seen late trusted =
      (accept_exact scheme next key seen).1 (late, trusted.signed key refl)

  -- A consumer that catches up by one chain of deltas and then by another, whatever the chains are,
  -- comes to the same version, signature and manifest bytes as by one answer with the two chains in a
  -- row and the second answer's version and signature. What is held and the deltas are bytes.
  pub apply_since-append :
      (held mid next : SignedManifest) (version target : ℕ) (signature sealed_ : List ℕ)
      (ds es : List (List ℕ)) (author : Option PublicKey)
      → All IsByte held.manifest
      → All (All IsByte) ds
      → apply_since scheme held
          (record { target_version = version; signature = signature; deltas = ds })
          author
        ≡ ok mid
      → apply_since scheme mid
          (record { target_version = target; signature = sealed_; deltas = es })
          author
        ≡ ok next
      → apply_since scheme held
          (record { target_version = target; signature = sealed_; deltas = ds ++ es })
          author
        ≡ ok next
  unfolding apply_since
  apply_since-append held mid next version target signature sealed_ ds es author bytes chunks one
        two =
      let (c, t) =
        apply_since_sound scheme held
          (record { target_version = version; signature = signature; deltas = ds }) author mid
          one in
      let (d, u) =
        apply_since_sound scheme mid
          (record { target_version = target; signature = sealed_; deltas = es }) author next two in
      let fits : ManifestFits c.after =
        apply_chain-ManifestFits c.before ds c.after chunks
          (encode-decode held.manifest c.before bytes c.decoded).1 c.chained in
      let reread : Manifest.decode mid.manifest ≡ ok c.after =
        decode-encode c.after mid.manifest fits c.encoded in
      let before = d.decoded in
      let same : c.after ≡ d.before = cc in
      let chained : apply_chain c.before (ds ++ es) ≡ ok d.after =
        apply_chain-append c.before ds es c.after c.chained
        ∙ ap (λ x. apply_chain x es) same
        ∙ d.chained in
      let first = c.forward in
      let middle = c.version in
      let second = d.forward in
      let last = d.version in
      let late : held.version ≤ target = ground arith in
      let guard : ltb target held.version ≡ false = le→ltb_false target held.version late in
      let fresh : held.version ≤ next.version = ground arith in
      let accepted = IsTrusted-accept_by mid next author held.version fresh u in
      let signed = d.signature in
      let whole : next
          ≡ record { version = target; signature = sealed_; manifest = next.manifest } =
        cc in
      let accepted_whole =
        subst (λ x. accept_by scheme author x held.version ≡ ok tt) whole accepted in
      rw guard (rw c.decoded (rw chained (rw d.encoded (rw accepted_whole (ap ok (sym whole))))))
