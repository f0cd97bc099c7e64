-- ===== src/Tests/Frames.antt =====
-- Two frames of a producer: a consumer believes the one and refuses the other.
use mathlib.Core.Path.{subst}
use agent_share.Prelude.{
  ℕ, ◌+◌, ◌^◌, ◌≡◌, ◌≢◌, ◌≤◌, ◌<◌, refl, ap, sym, ◌∙◌, List, [], ◌∷◌, ◌++◌, Bool, true, false,
  Option, none, some, Result, Error, ok, err, arith, length, replicate, bytes_eq, bytes_eq→eq,
  Bool-cases, inl, inr, if◌then◌else◌, ◌==◌,
}
use agent_share.Manifest
use agent_share.Manifest.{MountManifest}
use agent_share.Manifest.Apply.{contains}
use agent_share.Manifest.Apply.Dirs.{paths, added}
use agent_share.Manifest.Apply
use agent_share.Manifest.RoundTrip.{decode-encode}
use agent_share.Authorship.{SignedManifest, codes, signed_payload}
use agent_share.Authorship.Binding.{signed_payload-injective}
use agent_share.Watch.{apply_watch_frame, watch_frame_delta}
use agent_share.Live
use agent_share.Live.{TreeState, LiveTree, fold_rescan}
use agent_share.Live.Rescan.{scan_files}
use agent_share.Live.Sync.Order.{consumer_order}
use agent_share.Live.Sync.Frames.{
  tree_of, IsSound, Follows, current, delta_frame_accepted, delta_frame_refused,
}
use agent_share.Tests.Data.{
  value_or, is_ok, value_or-ok, toy, tree, rescanned, before, grown, inserted, one_path, two_paths,
  before-ManifestFits, grown-ManifestFits, inserted-ManifestFits,
}
use agent_share.Tests.Producer.{tree-TreeFits, tree-Distinct, grown-Distinct, inserted-Distinct}

tree-IsSound : (special : List ℕ) → IsSound (tree special).state
unfolding Manifest.encode agent_share.Manifest.Delta.encode agent_share.Manifest.Delta.is_empty
    Manifest.write_dir Manifest.write_file agent_share.Manifest.Delta.write_slot
    agent_share.Wire.Writer.write_list agent_share.Wire.Writer.write_many
    agent_share.Wire.Writer.write_path agent_share.Wire.Words.le_bytes
    agent_share.Wire.Words.to_bits agent_share.Wire.Utf8.is_utf8 agent_share.Prelude.Assoc.get
    agent_share.Prelude.Assoc.insert bytes_eq contains agent_share.Authorship.encode
    agent_share.Authorship.sealed agent_share.Authorship.sign_manifest
    agent_share.Authorship.signature_of signed_payload agent_share.Framing.Since.encode
    agent_share.Framing.Since.write_blob fold_rescan scan_files agent_share.Live.Rescan.append_slot
    agent_share.Live.Rescan.reuse_slot agent_share.Live.Rescan.scan_file
    agent_share.Live.Rescan.scan_slot agent_share.Live.Rescan.tombstone_files
    agent_share.Live.Rescan.tombstone_served agent_share.Live.Rescan.unchanged
    agent_share.Live.Rescan.vanished agent_share.Live.Rescan.changed_dirs
    agent_share.Live.Rescan.previous_dirs agent_share.Live.Rescan.removed_dirs Live.apply
    Live.authored Live.delta_frame Live.fold_scan Live.forget_history Live.index_files
    Live.manifest_frame Live.publish Live.remember Live.reseal Live.trim tree rescanned
tree-IsSound special = record {
  slots = tree-TreeFits special;
  distinct = tree-Distinct special;
  dirs = before-ManifestFits.dirs;
  files = before-ManifestFits.files;
  size = omega arith;
  version = omega arith;
}

abbrev held : (special : List ℕ) → SignedManifest
held special = record {
  version = (tree special).state.version;
  signature = (tree special).state.signature;
  manifest = (tree special).state.encoded;
}

held-Follows : (special : List ℕ) → Follows (held special) (tree special).state
unfolding Manifest.encode agent_share.Manifest.Delta.encode agent_share.Manifest.Delta.is_empty
    Manifest.write_dir Manifest.write_file agent_share.Manifest.Delta.write_slot
    agent_share.Wire.Writer.write_list agent_share.Wire.Writer.write_many
    agent_share.Wire.Writer.write_path agent_share.Wire.Words.le_bytes
    agent_share.Wire.Words.to_bits agent_share.Wire.Utf8.is_utf8 agent_share.Prelude.Assoc.get
    agent_share.Prelude.Assoc.insert bytes_eq contains agent_share.Authorship.encode
    agent_share.Authorship.sealed agent_share.Authorship.sign_manifest
    agent_share.Authorship.signature_of signed_payload agent_share.Framing.Since.encode
    agent_share.Framing.Since.write_blob fold_rescan scan_files agent_share.Live.Rescan.append_slot
    agent_share.Live.Rescan.reuse_slot agent_share.Live.Rescan.scan_file
    agent_share.Live.Rescan.scan_slot agent_share.Live.Rescan.tombstone_files
    agent_share.Live.Rescan.tombstone_served agent_share.Live.Rescan.unchanged
    agent_share.Live.Rescan.vanished agent_share.Live.Rescan.changed_dirs
    agent_share.Live.Rescan.previous_dirs agent_share.Live.Rescan.removed_dirs Live.apply
    Live.authored Live.delta_frame Live.fold_scan Live.forget_history Live.index_files
    Live.manifest_frame Live.publish Live.remember Live.reseal Live.trim tree rescanned
held-Follows special = record {
  version = refl;
  tree = decode-encode before (tree special).state.encoded before-ManifestFits refl;
}

-- The payload of a delta frame.
abbrev payload : Option (List ℕ) → List ℕ
payload none = []
payload (some []) = []
payload (some (kind ∷ rest)) = rest

abbrev is_delta : Option (List ℕ) → Bool
is_delta none = false
is_delta (some []) = false
is_delta (some (kind ∷ rest)) = kind == watch_frame_delta

payload_lem : (o : Option (List ℕ)) → is_delta o ≡ true → o ≡ some (watch_frame_delta ∷ payload o)
payload_lem none h = cc
payload_lem (some []) h = cc
payload_lem (some (kind ∷ rest)) h = let same : kind ≡ 1 = ground arith in rw same refl

sent :
    (special : List ℕ) (manifest : MountManifest) (abs : List (List ℕ))
    → is_ok (Live.apply (toy special) (tree special) manifest abs) ≡ true
    → is_delta (rescanned special manifest abs).1 ≡ true
    → Live.apply (toy special) (tree special) manifest abs
      ≡ ok (
        (rescanned special manifest abs).0,
        some (watch_frame_delta ∷ payload (rescanned special manifest abs).1),
      )
unfolding rescanned
sent special manifest abs good delta =
    value_or-ok (tree special, none) (Live.apply (toy special) (tree special) manifest abs) good
    ∙ ap (λ o. ok ((rescanned special manifest abs).0, o))
        (payload_lem (rescanned special manifest abs).1 delta)

grown_sent :
    Live.apply (toy []) (tree []) grown two_paths
    ≡ ok (
      (rescanned [] grown two_paths).0,
      some (watch_frame_delta ∷ payload (rescanned [] grown two_paths).1),
    )
unfolding Manifest.encode agent_share.Manifest.Delta.encode agent_share.Manifest.Delta.is_empty
    Manifest.write_dir Manifest.write_file agent_share.Manifest.Delta.write_slot
    agent_share.Wire.Writer.write_list agent_share.Wire.Writer.write_many
    agent_share.Wire.Writer.write_path agent_share.Wire.Words.le_bytes
    agent_share.Wire.Words.to_bits agent_share.Wire.Utf8.is_utf8 agent_share.Prelude.Assoc.get
    agent_share.Prelude.Assoc.insert bytes_eq contains agent_share.Authorship.encode
    agent_share.Authorship.sealed agent_share.Authorship.sign_manifest
    agent_share.Authorship.signature_of signed_payload agent_share.Framing.Since.encode
    agent_share.Framing.Since.write_blob fold_rescan scan_files agent_share.Live.Rescan.append_slot
    agent_share.Live.Rescan.reuse_slot agent_share.Live.Rescan.scan_file
    agent_share.Live.Rescan.scan_slot agent_share.Live.Rescan.tombstone_files
    agent_share.Live.Rescan.tombstone_served agent_share.Live.Rescan.unchanged
    agent_share.Live.Rescan.vanished agent_share.Live.Rescan.changed_dirs
    agent_share.Live.Rescan.previous_dirs agent_share.Live.Rescan.removed_dirs Live.apply
    Live.authored Live.delta_frame Live.fold_scan Live.forget_history Live.index_files
    Live.manifest_frame Live.publish Live.remember Live.reseal Live.trim tree rescanned
grown_sent = sent [] grown two_paths refl refl

grown_order : paths grown.dirs ≡ consumer_order (tree []).state.dirs grown.dirs
unfolding Manifest.encode agent_share.Manifest.Delta.encode agent_share.Manifest.Delta.is_empty
    Manifest.write_dir Manifest.write_file agent_share.Manifest.Delta.write_slot
    agent_share.Wire.Writer.write_list agent_share.Wire.Writer.write_many
    agent_share.Wire.Writer.write_path agent_share.Wire.Words.le_bytes
    agent_share.Wire.Words.to_bits agent_share.Wire.Utf8.is_utf8 agent_share.Prelude.Assoc.get
    agent_share.Prelude.Assoc.insert bytes_eq contains agent_share.Authorship.encode
    agent_share.Authorship.sealed agent_share.Authorship.sign_manifest
    agent_share.Authorship.signature_of signed_payload agent_share.Framing.Since.encode
    agent_share.Framing.Since.write_blob fold_rescan scan_files agent_share.Live.Rescan.append_slot
    agent_share.Live.Rescan.reuse_slot agent_share.Live.Rescan.scan_file
    agent_share.Live.Rescan.scan_slot agent_share.Live.Rescan.tombstone_files
    agent_share.Live.Rescan.tombstone_served agent_share.Live.Rescan.unchanged
    agent_share.Live.Rescan.vanished agent_share.Live.Rescan.changed_dirs
    agent_share.Live.Rescan.previous_dirs agent_share.Live.Rescan.removed_dirs Live.apply
    Live.authored Live.delta_frame Live.fold_scan Live.forget_history Live.index_files
    Live.manifest_frame Live.publish Live.remember Live.reseal Live.trim tree rescanned
    agent_share.Manifest.Apply.retain_dirs added
grown_order = refl

delta_frame_accepted_example :
    (apply_watch_frame
        (toy [])
        (held [])
        watch_frame_delta
        (payload (rescanned [] grown two_paths).1)
        (some 7)
      ≡ (
        current (toy []) 7 (rescanned [] grown two_paths).0.state,
        ok (tree_of (rescanned [] grown two_paths).0.state),
      ))
    × Follows
        (current (toy []) 7 (rescanned [] grown two_paths).0.state)
        (rescanned [] grown two_paths).0.state
unfolding tree Manifest.encode agent_share.Wire.Writer.write_list agent_share.Wire.Writer.write_many
    Manifest.write_dir agent_share.Wire.Writer.write_path Manifest.write_file
delta_frame_accepted_example =
    delta_frame_accepted (toy []) 7 (tree []) (rescanned [] grown two_paths).0 grown two_paths
      (payload (rescanned [] grown two_paths).1) (held []) refl (tree-IsSound [])
      (record { distinct = grown-Distinct; fits = grown-ManifestFits }) (held-Follows []) grown_sent
      grown_order

-- The payload that the frame of the other rescan is signed for.
abbrev inserted_bytes : List ℕ
unfolding Manifest.encode
inserted_bytes = value_or [] (Manifest.encode inserted)

abbrev pinned : List ℕ
unfolding signed_payload inserted_bytes
pinned = signed_payload 2 inserted_bytes

inserted_sent :
    Live.apply (toy pinned) (tree pinned) inserted one_path
    ≡ ok (
      (rescanned pinned inserted one_path).0,
      some (watch_frame_delta ∷ payload (rescanned pinned inserted one_path).1),
    )
unfolding inserted_bytes pinned Manifest.encode agent_share.Manifest.Delta.encode
    agent_share.Manifest.Delta.is_empty Manifest.write_dir Manifest.write_file
    agent_share.Manifest.Delta.write_slot agent_share.Wire.Writer.write_list
    agent_share.Wire.Writer.write_many agent_share.Wire.Writer.write_path
    agent_share.Wire.Words.le_bytes agent_share.Wire.Words.to_bits agent_share.Wire.Utf8.is_utf8
    agent_share.Prelude.Assoc.get agent_share.Prelude.Assoc.insert bytes_eq contains
    agent_share.Authorship.encode agent_share.Authorship.sealed agent_share.Authorship.sign_manifest
    agent_share.Authorship.signature_of signed_payload agent_share.Framing.Since.encode
    agent_share.Framing.Since.write_blob fold_rescan scan_files agent_share.Live.Rescan.append_slot
    agent_share.Live.Rescan.reuse_slot agent_share.Live.Rescan.scan_file
    agent_share.Live.Rescan.scan_slot agent_share.Live.Rescan.tombstone_files
    agent_share.Live.Rescan.tombstone_served agent_share.Live.Rescan.unchanged
    agent_share.Live.Rescan.vanished agent_share.Live.Rescan.changed_dirs
    agent_share.Live.Rescan.previous_dirs agent_share.Live.Rescan.removed_dirs Live.apply
    Live.authored Live.delta_frame Live.fold_scan Live.forget_history Live.index_files
    Live.manifest_frame Live.publish Live.remember Live.reseal Live.trim tree rescanned
inserted_sent = sent pinned inserted one_path refl refl

disorder : paths inserted.dirs ≢ consumer_order (tree pinned).state.dirs inserted.dirs
unfolding inserted_bytes pinned agent_share.Manifest.Apply.retain_dirs added Manifest.encode
    agent_share.Manifest.Delta.encode agent_share.Manifest.Delta.is_empty Manifest.write_dir
    Manifest.write_file agent_share.Manifest.Delta.write_slot agent_share.Wire.Writer.write_list
    agent_share.Wire.Writer.write_many agent_share.Wire.Writer.write_path
    agent_share.Wire.Words.le_bytes agent_share.Wire.Words.to_bits agent_share.Wire.Utf8.is_utf8
    agent_share.Prelude.Assoc.get agent_share.Prelude.Assoc.insert bytes_eq contains
    agent_share.Authorship.encode agent_share.Authorship.sealed agent_share.Authorship.sign_manifest
    agent_share.Authorship.signature_of signed_payload agent_share.Framing.Since.encode
    agent_share.Framing.Since.write_blob fold_rescan scan_files agent_share.Live.Rescan.append_slot
    agent_share.Live.Rescan.reuse_slot agent_share.Live.Rescan.scan_file
    agent_share.Live.Rescan.scan_slot agent_share.Live.Rescan.tombstone_files
    agent_share.Live.Rescan.tombstone_served agent_share.Live.Rescan.unchanged
    agent_share.Live.Rescan.vanished agent_share.Live.Rescan.changed_dirs
    agent_share.Live.Rescan.previous_dirs agent_share.Live.Rescan.removed_dirs Live.apply
    Live.authored Live.delta_frame Live.fold_scan Live.forget_history Live.index_files
    Live.manifest_frame Live.publish Live.remember Live.reseal Live.trim tree rescanned
disorder h = let k : ◌≡◌ {A = ℕ} 98 99 = cc in omega arith

state_after : (rescanned pinned inserted one_path).0.state.version ≡ 2
unfolding inserted_bytes pinned Manifest.encode agent_share.Manifest.Delta.encode
    agent_share.Manifest.Delta.is_empty Manifest.write_dir Manifest.write_file
    agent_share.Manifest.Delta.write_slot agent_share.Wire.Writer.write_list
    agent_share.Wire.Writer.write_many agent_share.Wire.Writer.write_path
    agent_share.Wire.Words.le_bytes agent_share.Wire.Words.to_bits agent_share.Wire.Utf8.is_utf8
    agent_share.Prelude.Assoc.get agent_share.Prelude.Assoc.insert bytes_eq contains
    agent_share.Authorship.encode agent_share.Authorship.sealed agent_share.Authorship.sign_manifest
    agent_share.Authorship.signature_of signed_payload agent_share.Framing.Since.encode
    agent_share.Framing.Since.write_blob fold_rescan scan_files agent_share.Live.Rescan.append_slot
    agent_share.Live.Rescan.reuse_slot agent_share.Live.Rescan.scan_file
    agent_share.Live.Rescan.scan_slot agent_share.Live.Rescan.tombstone_files
    agent_share.Live.Rescan.tombstone_served agent_share.Live.Rescan.unchanged
    agent_share.Live.Rescan.vanished agent_share.Live.Rescan.changed_dirs
    agent_share.Live.Rescan.previous_dirs agent_share.Live.Rescan.removed_dirs Live.apply
    Live.authored Live.delta_frame Live.fold_scan Live.forget_history Live.index_files
    Live.manifest_frame Live.publish Live.remember Live.reseal Live.trim tree rescanned
state_after = refl

signature_after : (rescanned pinned inserted one_path).0.state.signature ≡ replicate 64 1
unfolding inserted_bytes pinned Manifest.encode agent_share.Manifest.Delta.encode
    agent_share.Manifest.Delta.is_empty Manifest.write_dir Manifest.write_file
    agent_share.Manifest.Delta.write_slot agent_share.Wire.Writer.write_list
    agent_share.Wire.Writer.write_many agent_share.Wire.Writer.write_path
    agent_share.Wire.Words.le_bytes agent_share.Wire.Words.to_bits agent_share.Wire.Utf8.is_utf8
    agent_share.Prelude.Assoc.get agent_share.Prelude.Assoc.insert bytes_eq contains
    agent_share.Authorship.encode agent_share.Authorship.sealed agent_share.Authorship.sign_manifest
    agent_share.Authorship.signature_of signed_payload agent_share.Framing.Since.encode
    agent_share.Framing.Since.write_blob fold_rescan scan_files agent_share.Live.Rescan.append_slot
    agent_share.Live.Rescan.reuse_slot agent_share.Live.Rescan.scan_file
    agent_share.Live.Rescan.scan_slot agent_share.Live.Rescan.tombstone_files
    agent_share.Live.Rescan.tombstone_served agent_share.Live.Rescan.unchanged
    agent_share.Live.Rescan.vanished agent_share.Live.Rescan.changed_dirs
    agent_share.Live.Rescan.previous_dirs agent_share.Live.Rescan.removed_dirs Live.apply
    Live.authored Live.delta_frame Live.fold_scan Live.forget_history Live.index_files
    Live.manifest_frame Live.publish Live.remember Live.reseal Live.trim tree rescanned
signature_after = refl

encoded_after : (rescanned pinned inserted one_path).0.state.encoded ≡ inserted_bytes
unfolding inserted_bytes pinned Manifest.encode agent_share.Manifest.Delta.encode
    agent_share.Manifest.Delta.is_empty Manifest.write_dir Manifest.write_file
    agent_share.Manifest.Delta.write_slot agent_share.Wire.Writer.write_list
    agent_share.Wire.Writer.write_many agent_share.Wire.Writer.write_path
    agent_share.Wire.Words.le_bytes agent_share.Wire.Words.to_bits agent_share.Wire.Utf8.is_utf8
    agent_share.Prelude.Assoc.get agent_share.Prelude.Assoc.insert bytes_eq contains
    agent_share.Authorship.encode agent_share.Authorship.sealed agent_share.Authorship.sign_manifest
    agent_share.Authorship.signature_of signed_payload agent_share.Framing.Since.encode
    agent_share.Framing.Since.write_blob fold_rescan scan_files agent_share.Live.Rescan.append_slot
    agent_share.Live.Rescan.reuse_slot agent_share.Live.Rescan.scan_file
    agent_share.Live.Rescan.scan_slot agent_share.Live.Rescan.tombstone_files
    agent_share.Live.Rescan.tombstone_served agent_share.Live.Rescan.unchanged
    agent_share.Live.Rescan.vanished agent_share.Live.Rescan.changed_dirs
    agent_share.Live.Rescan.previous_dirs agent_share.Live.Rescan.removed_dirs Live.apply
    Live.authored Live.delta_frame Live.fold_scan Live.forget_history Live.index_files
    Live.manifest_frame Live.publish Live.remember Live.reseal Live.trim tree rescanned
encoded_after = refl

pins_two :
    (bytes : List ℕ)
    → bytes_eq
        (replicate 64 1)
        (if bytes_eq (signed_payload 2 bytes) pinned then replicate 64 1 else replicate 64 0)
      ≡ true
    → bytes ≡ inserted_bytes
unfolding pinned bytes_eq
pins_two bytes h = elim (Bool-cases (bytes_eq (signed_payload 2 bytes) pinned)) [
  | inl same ↦
      (signed_payload-injective 2 2 bytes inserted_bytes (omega arith) (omega arith)
        (bytes_eq→eq _ _ same)).1
  | inr other ↦ let k : false ≡ true = rw other at h in cc
]

-- Only the one manifest verifies under the signature.
pins :
    (bytes : List ℕ)
    → (toy pinned).verify 7
        (signed_payload (rescanned pinned inserted one_path).0.state.version bytes)
        (rescanned pinned inserted one_path).0.state.signature
      ≡ true
    → bytes ≡ (rescanned pinned inserted one_path).0.state.encoded
unfolding pinned
pins bytes h =
    subst (λ e. bytes ≡ e) (sym encoded_after)
      (pins_two bytes (rw signature_after at (rw state_after at h)))

author_lem : (tree pinned).author ≡ some 7
unfolding Manifest.encode agent_share.Manifest.Delta.encode agent_share.Manifest.Delta.is_empty
    Manifest.write_dir Manifest.write_file agent_share.Manifest.Delta.write_slot
    agent_share.Wire.Writer.write_list agent_share.Wire.Writer.write_many
    agent_share.Wire.Writer.write_path agent_share.Wire.Words.le_bytes
    agent_share.Wire.Words.to_bits agent_share.Wire.Utf8.is_utf8 agent_share.Prelude.Assoc.get
    agent_share.Prelude.Assoc.insert bytes_eq contains agent_share.Authorship.encode
    agent_share.Authorship.sealed agent_share.Authorship.sign_manifest
    agent_share.Authorship.signature_of signed_payload agent_share.Framing.Since.encode
    agent_share.Framing.Since.write_blob fold_rescan scan_files agent_share.Live.Rescan.append_slot
    agent_share.Live.Rescan.reuse_slot agent_share.Live.Rescan.scan_file
    agent_share.Live.Rescan.scan_slot agent_share.Live.Rescan.tombstone_files
    agent_share.Live.Rescan.tombstone_served agent_share.Live.Rescan.unchanged
    agent_share.Live.Rescan.vanished agent_share.Live.Rescan.changed_dirs
    agent_share.Live.Rescan.previous_dirs agent_share.Live.Rescan.removed_dirs Live.apply
    Live.authored Live.delta_frame Live.fold_scan Live.forget_history Live.index_files
    Live.manifest_frame Live.publish Live.remember Live.reseal Live.trim tree rescanned
    inserted_bytes pinned
author_lem = refl

delta_frame_refused_example :
    (e : Error) × (apply_watch_frame
        (toy pinned)
        (held pinned)
        watch_frame_delta
        (payload (rescanned pinned inserted one_path).1)
        (some 7)
      ≡ (held pinned, err e))
delta_frame_refused_example =
    delta_frame_refused (toy pinned) 7 (tree pinned) (rescanned pinned inserted one_path).0 inserted
      one_path (payload (rescanned pinned inserted one_path).1) (held pinned) author_lem
      (tree-IsSound pinned) (record { distinct = inserted-Distinct; fits = inserted-ManifestFits })
      (held-Follows pinned) inserted_sent disorder pins
