-- ===== src/Watch/Safety.antt =====
-- What a consumer may rely on after a watch frame, whoever relayed it.
use mathlib.Core.Path.{subst}
use agent_share.Prelude.{
  ℕ, ◌≤◌, ◌≡◌, ◌⊎◌, inl, inr, refl, List, arith, true, Option, none, some, Result, Error, ok, err,
  rollback, unknown_kind, ltb, ◌==◌, Bool-cases, >>=-eq-ok, ltb_false→le,
}
use agent_share.Manifest
use agent_share.Manifest.{MountManifest}
use agent_share.Framing.Since
use agent_share.Framing.Since.{ManifestSince}
use agent_share.Authorship
use agent_share.Authorship.{Scheme, SignedManifest, accept, signed_payload}
use agent_share.Authorship.Binding.{accept_exact}
use agent_share.Watch.{
  apply_chain, accept_by, apply_since, offered_by, next_manifest, adopt, apply_watch_frame,
  watch_frame_manifest, watch_frame_delta,
}

-- A catch-up that succeeded, taken apart.
pub record CaughtUp (held : SignedManifest) (answer : ManifestSince) (next : SignedManifest)
    : Type 0 where
  pub version : next.version ≡ answer.target_version
  pub signature : next.signature ≡ answer.signature
  pub forward : held.version ≤ answer.target_version
  pub before : MountManifest
  pub after : MountManifest
  pub decoded : Manifest.decode held.manifest ≡ ok before
  pub chained : apply_chain before answer.deltas ≡ ok after
  pub encoded : Manifest.encode after ≡ ok next.manifest

module _ (scheme : Scheme) where
  open scheme use {PublicKey, verify}

  -- Not behind `held`, and signed if the share has an author.
  pub record IsTrusted (held : SignedManifest) (author : Option PublicKey) (next : SignedManifest)
      : Type 0 where
    pub monotone : held.version ≤ next.version
    pub signed :
        (key : PublicKey)
        → author ≡ some key
        → verify key (signed_payload next.version next.manifest) next.signature ≡ true

  accept_by-IsTrusted :
      (held next : SignedManifest) (author : Option PublicKey)
      → held.version ≤ next.version
      → accept_by scheme author next held.version ≡ ok tt
      → IsTrusted held author next
  unfolding accept_by
  accept_by-IsTrusted held next none h e = record { monotone = h; signed = λ key k. cc }
  accept_by-IsTrusted held next (some author) h e = record {
    monotone = h;
    signed = λ key k.
        let same : author ≡ key = cc in
        subst (λ x. verify x (signed_payload next.version next.manifest) next.signature ≡ true) same
          ((accept_exact scheme next author held.version).0 e).1;
  }

  -- A catch-up that succeeds rebuilds its manifest by the deltas from the one that is held, takes the
  -- version and the signature from the answer, and is trusted.
  pub apply_since_sound :
      (held : SignedManifest) (answer : ManifestSince) (author : Option PublicKey)
      (next : SignedManifest)
      → apply_since scheme held answer author ≡ ok next
      → CaughtUp held answer next × IsTrusted held author next
  unfolding apply_since
  apply_since_sound held answer author next e =
      elim (Bool-cases (ltb answer.target_version held.version)) [
        | inl back ↦
            let k : ◌≡◌ {A = Result SignedManifest} (err rollback) (ok next) = rw back at e in cc
        | inr forth ↦
            let (before, decoded, e1) =
              >>=-eq-ok (Manifest.decode held.manifest) _ (rw forth at e) in
            let (after, chained, e2) = >>=-eq-ok (apply_chain before answer.deltas) _ e1 in
            let (rebuilt, encoded, e3) = >>=-eq-ok (Manifest.encode after) _ e2 in
            let signed : SignedManifest = record {
              version = answer.target_version;
              signature = answer.signature;
              manifest = rebuilt;
            } in
            let (unit, accepted, e4) =
              >>=-eq-ok (accept_by scheme author signed held.version) _ e3 in
            let same : signed ≡ next = cc in
            let forward = ltb_false→le answer.target_version held.version forth in
            subst (λ x. CaughtUp held answer x × IsTrusted held author x) same
              (
                record {
                  version = refl;
                  signature = refl;
                  forward = forward;
                  before = before;
                  after = after;
                  decoded = decoded;
                  chained = chained;
                  encoded = encoded;
                },
                accept_by-IsTrusted held signed author forward accepted,
              )
      ]

  offered_by-IsTrusted :
      (held offered : SignedManifest) (author : Option PublicKey) (next : SignedManifest)
      → offered_by scheme author offered held.version ≡ ok next
      → IsTrusted held author next
  unfolding offered_by
  offered_by-IsTrusted held offered none next e = record {
    monotone = ground arith;
    signed = λ key k. cc;
  }
  offered_by-IsTrusted held offered (some author) next e =
      let (unit, accepted, e1) = >>=-eq-ok (accept scheme offered author held.version) _ e in
      let same : offered ≡ next = cc in
      let (monotone, signed) = (accept_exact scheme offered author held.version).0 accepted in
      subst (IsTrusted held (some author)) same
        (accept_by-IsTrusted held offered (some author) monotone (unfold accept_by in accepted))

  next_manifest-IsTrusted :
      (held : SignedManifest) (kind : ℕ) (payload : List ℕ) (author : Option PublicKey)
      (next : SignedManifest)
      → next_manifest scheme held kind payload author ≡ ok next
      → IsTrusted held author next
  unfolding next_manifest
  next_manifest-IsTrusted held kind payload author next e =
      elim (Bool-cases (kind == watch_frame_manifest)) [
        | inl whole ↦
            let (offered, decoded, e1) = >>=-eq-ok (Authorship.decode payload) _ (rw whole at e) in
            offered_by-IsTrusted held offered author next e1
        | inr other ↦ elim (Bool-cases (kind == watch_frame_delta)) [
          | inl delta ↦
              let (answer, decoded, e1) =
                >>=-eq-ok (Since.decode payload) _ (rw delta at (rw other at e)) in
              (apply_since_sound held answer author next e1).1
          | inr unknown ↦
              let k : ◌≡◌ {A = Result SignedManifest} (err unknown_kind) (ok next) =
                rw unknown at (rw other at e) in
              cc
        ]
      ]

  -- A watch frame of any kind and content is either refused, and then the consumer still holds what it
  -- held; or it is believed, and then what is held decodes to the manifest that is returned, is not
  -- behind what was held, and carries the author's signature if the share has an author.
  pub apply_watch_frame_safe :
      (held : SignedManifest) (kind : ℕ) (payload : List ℕ) (author : Option PublicKey)
      → ((e : Error) × (apply_watch_frame scheme held kind payload author ≡ (held, err e)))
        ⊎ ((m : MountManifest) × (next : SignedManifest) × (apply_watch_frame scheme held kind
                payload author
              ≡ (next, ok m))
            × (Manifest.decode next.manifest ≡ ok m)
            × IsTrusted held author next)
  unfolding apply_watch_frame
  apply_watch_frame_safe held kind payload author =
      go (next_manifest scheme held kind payload author) refl
    where
      believed :
          (next : SignedManifest) (r : Result MountManifest)
          → next_manifest scheme held kind payload author ≡ ok next
          → Manifest.decode next.manifest ≡ r
          → ((e : Error) × (adopt scheme held (ok next) ≡ (held, err e)))
            ⊎ ((m : MountManifest) × (next' : SignedManifest) × (adopt scheme held (ok next)
                  ≡ (next', ok m))
                × (Manifest.decode next'.manifest ≡ ok m)
                × IsTrusted held author next')
      believed next (err e) h d = inl (e, rw (d, adopt))
      believed next (ok m) h d =
          inr (m, next, rw (d, adopt), d, next_manifest-IsTrusted held kind payload author next h)

      go :
          (r : Result SignedManifest)
          → next_manifest scheme held kind payload author ≡ r
          → ((e : Error) × (adopt scheme held r ≡ (held, err e)))
            ⊎ ((m : MountManifest) × (next' : SignedManifest) × (adopt scheme held r
                  ≡ (next', ok m))
                × (Manifest.decode next'.manifest ≡ ok m)
                × IsTrusted held author next')
      go (err e) h = inl (e, refl)
      go (ok next) h = believed next (Manifest.decode next.manifest) h refl
