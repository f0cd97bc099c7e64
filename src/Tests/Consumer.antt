-- ===== src/Tests/Consumer.antt =====
-- A consumer that is sent a frame.
use agent_share.Prelude.{◌≡◌, ◌⊎◌, [], ◌∷◌, some, Error, ok, err}
use agent_share.Manifest
use agent_share.Manifest.{MountManifest}
use agent_share.Authorship.{SignedManifest}
use agent_share.Watch.{apply_watch_frame, watch_frame_delta}
use agent_share.Watch.Safety.{IsTrusted, apply_watch_frame_safe}
use agent_share.Tests.Data.{toy, tree}

abbrev held : SignedManifest
held = record {
  version = (tree []).state.version;
  signature = (tree []).state.signature;
  manifest = (tree []).state.encoded;
}

apply_watch_frame_safe_example :
    ((e : Error) × (apply_watch_frame (toy []) held watch_frame_delta (1 ∷ 2 ∷ []) (some 7)
        ≡ (held, err e)))
    ⊎ ((m : MountManifest) × (after : SignedManifest) × (apply_watch_frame
            (toy [])
            held
            watch_frame_delta
            (1 ∷ 2 ∷ [])
            (some 7)
          ≡ (after, ok m))
        × (Manifest.decode after.manifest ≡ ok m)
        × IsTrusted (toy []) held (some 7) after)
apply_watch_frame_safe_example =
    apply_watch_frame_safe (toy []) held watch_frame_delta (1 ∷ 2 ∷ []) (some 7)
