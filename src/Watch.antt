-- ===== src/Watch.antt =====
-- `apply_since` and `apply_watch_frame` of crates/agent-share-proto/src/manifest.rs: how a consumer
-- comes to believe a new version of the tree. `held` is behind `&mut`, so it comes back with the
-- result.
pub mod Chain
pub mod Safety
use agent_share.Prelude.{
  ℕ, List, [], ◌∷◌, Bool, Option, none, some, Result, ok, err, rollback, unknown_kind, ltb,
  if◌then◌else◌, ◌>>=◌, ◌>>◌, ◌==◌,
}
use agent_share.Manifest
use agent_share.Manifest.{MountManifest}
use agent_share.Manifest.Delta
use agent_share.Manifest.Apply.{apply}
use agent_share.Framing.Since
use agent_share.Framing.Since.{ManifestSince}
use agent_share.Authorship
use agent_share.Authorship.{Scheme, SignedManifest, accept}

-- `WATCH_FRAME_MANIFEST` and `WATCH_FRAME_DELTA`
abbrev pub watch_frame_manifest : ℕ
watch_frame_manifest = 0

abbrev pub watch_frame_delta : ℕ
watch_frame_delta = 1

-- `for delta in &answer.deltas { manifest.apply(&ManifestDelta::decode(delta)?); }`
unfoldable pub apply_chain : MountManifest → List (List ℕ) → Result MountManifest
apply_chain manifest [] = ok manifest
apply_chain manifest (bytes ∷ rest) = elim (Delta.decode bytes) [
  | err e ↦ err e
  | ok delta ↦ apply_chain (apply manifest delta) rest
]

module _ (scheme : Scheme) where
  open scheme use {PublicKey}

  -- `if let Some(author) = author { signed.accept(author, held.version)?; }`
  unfoldable pub accept_by : Option PublicKey → SignedManifest → ℕ → Result (Unit {0})
  accept_by none signed seen = ok tt
  accept_by (some author) signed seen = accept scheme signed author seen

  unfoldable pub apply_since :
      SignedManifest → ManifestSince → Option PublicKey → Result SignedManifest
  unfolding accept_by
  apply_since held answer author =
      if ltb answer.target_version held.version then err rollback else do
        manifest ← Manifest.decode held.manifest
        caught_up ← apply_chain manifest answer.deltas
        rebuilt ← Manifest.encode caught_up
        let signed : SignedManifest = record {
          version = answer.target_version;
          signature = answer.signature;
          manifest = rebuilt;
        }
        accept_by author signed held.version
        ok signed

  -- The whole-manifest frame: checked under the author's key, or for the version alone.
  unfoldable pub offered_by : Option PublicKey → SignedManifest → ℕ → Result SignedManifest
  offered_by (some author) offered seen = do accept scheme offered author seen; ok offered
  offered_by none offered seen = if ltb offered.version seen then err rollback else ok offered

  -- The `match kind`.
  unfoldable pub next_manifest :
      SignedManifest → ℕ → List ℕ → Option PublicKey → Result SignedManifest
  unfolding offered_by
  next_manifest held kind payload author =
      if kind == watch_frame_manifest
      then (do offered ← Authorship.decode payload; offered_by author offered held.version)
      else if kind == watch_frame_delta
      then (do answer ← Since.decode payload; apply_since held answer author)
      else err unknown_kind

  -- `*held = next` only once the manifest inside has been decoded.
  unfoldable pub adopt :
      SignedManifest → Result SignedManifest → SignedManifest × Result MountManifest
  adopt held (err e) = (held, err e)
  adopt held (ok next) = elim (Manifest.decode next.manifest) [
    | err e ↦ (held, err e)
    | ok manifest ↦ (next, ok manifest)
  ]

  unfoldable pub apply_watch_frame :
      SignedManifest → ℕ → List ℕ → Option PublicKey → SignedManifest × Result MountManifest
  unfolding next_manifest adopt
  apply_watch_frame held kind payload author = adopt held (next_manifest held kind payload author)
