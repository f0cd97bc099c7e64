-- ===== src/Tests/Producer.antt =====
-- A producer's rescans, and the consumer that follows it.
use agent_share.Prelude.{
  ℕ, ◌+◌, ◌^◌, ◌≡◌, ◌≢◌, ◌≤◌, ◌↔◌, refl, ap, sym, ◌∙◌, List, [], ◌∷◌, ◌++◌, Bool, true, false,
  Option, none, some, Result, Error, ok, err, arith, length, replicate, bytes_eq, bytes_eq→eq,
  get_elem?, Bool-cases, inl, inr, if◌then◌else◌,
}
use agent_share.Manifest
use agent_share.Manifest.{DirEntry, FileEntry, MountManifest, is_tombstone}
use agent_share.Manifest.Delta.{ManifestDelta, empty_delta}
use agent_share.Manifest.Apply.{apply, contains}
use agent_share.Manifest.Apply.Dirs.{Distinct, paths, find_dir}
use agent_share.Authorship.{SignedManifest, codes, signed_payload}
use agent_share.Live
use agent_share.Live.{TreeState, LiveTree, Folded, fold_rescan}
use agent_share.Live.Rescan.{Scan, scan_files}
use agent_share.Live.Steps.{start, IsFolded, fold_rescan-eq-ok}
use agent_share.Live.Slots.Stable.{
  TreeFits, Rescans, index_never_changes_meaning, recreated_reclaims_index,
}
use agent_share.Live.Slots.Startup.{authored-Fits, file_paths}
use agent_share.Live.Sync.{apply-IsFolded}
use agent_share.Live.Sync.Order.{consumer_order, apply_exact}
use agent_share.Live.Sync.Frames.{tree_of}
use agent_share.Tests.Data.{
  value_or, is_ok, value_or-ok, toy, tree, tree-authored, rescanned, before, grown, inserted,
  emptied, one_path, two_paths, file_at,
}

before-Distinct : Distinct (file_paths before.files)
unfolding contains bytes_eq
before-Distinct = (refl, tt)

pub tree-TreeFits : (special : List ℕ) → TreeFits (tree special).state
tree-TreeFits special =
    authored-Fits (toy special) before one_path (some 7) (tree special) before-Distinct
      (tree-authored special)

-- The file vanishes and comes back.
without : LiveTree (toy [])
unfolding rescanned
without = (rescanned [] emptied []).0

with_again : LiveTree (toy []) × Option (List ℕ)
unfolding Live.apply without
with_again = value_or (without, none) (Live.apply (toy []) without before one_path)

away_ok : is_ok (Live.apply (toy []) (tree []) emptied []) ≡ true
unfolding Manifest.encode agent_share.Manifest.Delta.encode agent_share.Manifest.Delta.is_empty
    Manifest.write_dir Manifest.write_file agent_share.Manifest.Delta.write_slot
    agent_share.Wire.Writer.write_list agent_share.Wire.Writer.write_many
    agent_share.Wire.Writer.write_path agent_share.Wire.Words.le_bytes
    agent_share.Wire.Words.to_bits agent_share.Wire.Utf8.is_utf8 agent_share.Prelude.Assoc.get
    agent_share.Prelude.Assoc.insert bytes_eq contains agent_share.Authorship.encode
    agent_share.Authorship.sealed agent_share.Authorship.sign_manifest
    agent_share.Authorship.signature_of signed_payload agent_share.Framing.Since.encode
    agent_share.Framing.Since.write_blob fold_rescan scan_files agent_share.Live.Rescan.append_slot
    agent_share.Live.Rescan.reuse_slot agent_share.Live.Rescan.scan_file
    agent_share.Live.Rescan.scan_slot agent_share.Live.Rescan.tombstone_files
    agent_share.Live.Rescan.tombstone_served agent_share.Live.Rescan.unchanged
    agent_share.Live.Rescan.vanished agent_share.Live.Rescan.changed_dirs
    agent_share.Live.Rescan.previous_dirs agent_share.Live.Rescan.removed_dirs Live.apply
    Live.authored Live.delta_frame Live.fold_scan Live.forget_history Live.index_files
    Live.manifest_frame Live.publish Live.remember Live.reseal Live.trim tree rescanned
away_ok = refl

back_ok : is_ok (Live.apply (toy []) without before one_path) ≡ true
unfolding Manifest.encode agent_share.Manifest.Delta.encode agent_share.Manifest.Delta.is_empty
    Manifest.write_dir Manifest.write_file agent_share.Manifest.Delta.write_slot
    agent_share.Wire.Writer.write_list agent_share.Wire.Writer.write_many
    agent_share.Wire.Writer.write_path agent_share.Wire.Words.le_bytes
    agent_share.Wire.Words.to_bits agent_share.Wire.Utf8.is_utf8 agent_share.Prelude.Assoc.get
    agent_share.Prelude.Assoc.insert bytes_eq contains agent_share.Authorship.encode
    agent_share.Authorship.sealed agent_share.Authorship.sign_manifest
    agent_share.Authorship.signature_of signed_payload agent_share.Framing.Since.encode
    agent_share.Framing.Since.write_blob fold_rescan scan_files agent_share.Live.Rescan.append_slot
    agent_share.Live.Rescan.reuse_slot agent_share.Live.Rescan.scan_file
    agent_share.Live.Rescan.scan_slot agent_share.Live.Rescan.tombstone_files
    agent_share.Live.Rescan.tombstone_served agent_share.Live.Rescan.unchanged
    agent_share.Live.Rescan.vanished agent_share.Live.Rescan.changed_dirs
    agent_share.Live.Rescan.previous_dirs agent_share.Live.Rescan.removed_dirs Live.apply
    Live.authored Live.delta_frame Live.fold_scan Live.forget_history Live.index_files
    Live.manifest_frame Live.publish Live.remember Live.reseal Live.trim tree rescanned without
back_ok = refl

step_away : Live.apply (toy []) (tree []) emptied [] ≡ ok (rescanned [] emptied [])
unfolding rescanned
step_away = value_or-ok (tree [], none) (Live.apply (toy []) (tree []) emptied []) away_ok

step_back : Live.apply (toy []) without before one_path ≡ ok with_again
unfolding with_again
step_back = value_or-ok (without, none) (Live.apply (toy []) without before one_path) back_ok

there_and_back : Rescans (toy []) (tree []) with_again.0
unfolding rescanned without with_again
there_and_back =
    Rescans.next before one_path with_again.1
      (Rescans.next emptied [] (rescanned [] emptied []).1 Rescans.here step_away) step_back

first_slot : get_elem? (tree []).state.files 0 ≡ some (file_at (codes "a/x") 5)
unfolding tree Manifest.encode agent_share.Wire.Writer.write_list agent_share.Wire.Writer.write_many
    Manifest.write_dir agent_share.Wire.Writer.write_path Manifest.write_file
first_slot = refl

same_slot : get_elem? with_again.0.state.files 0 ≡ some (file_at (codes "a/x") 5)
unfolding Manifest.encode agent_share.Manifest.Delta.encode agent_share.Manifest.Delta.is_empty
    Manifest.write_dir Manifest.write_file agent_share.Manifest.Delta.write_slot
    agent_share.Wire.Writer.write_list agent_share.Wire.Writer.write_many
    agent_share.Wire.Writer.write_path agent_share.Wire.Words.le_bytes
    agent_share.Wire.Words.to_bits agent_share.Wire.Utf8.is_utf8 agent_share.Prelude.Assoc.get
    agent_share.Prelude.Assoc.insert bytes_eq contains agent_share.Authorship.encode
    agent_share.Authorship.sealed agent_share.Authorship.sign_manifest
    agent_share.Authorship.signature_of signed_payload agent_share.Framing.Since.encode
    agent_share.Framing.Since.write_blob fold_rescan scan_files agent_share.Live.Rescan.append_slot
    agent_share.Live.Rescan.reuse_slot agent_share.Live.Rescan.scan_file
    agent_share.Live.Rescan.scan_slot agent_share.Live.Rescan.tombstone_files
    agent_share.Live.Rescan.tombstone_served agent_share.Live.Rescan.unchanged
    agent_share.Live.Rescan.vanished agent_share.Live.Rescan.changed_dirs
    agent_share.Live.Rescan.previous_dirs agent_share.Live.Rescan.removed_dirs Live.apply
    Live.authored Live.delta_frame Live.fold_scan Live.forget_history Live.index_files
    Live.manifest_frame Live.publish Live.remember Live.reseal Live.trim tree rescanned without
    with_again
same_slot = refl

index_never_changes_meaning_example : codes "a/x" ≡ codes "a/x"
index_never_changes_meaning_example =
    index_never_changes_meaning (toy []) {tree = tree []} {after = with_again.0} 0
      (file_at (codes "a/x") 5) (file_at (codes "a/x") 5) (tree-TreeFits []) there_and_back
      first_slot refl same_slot refl

recreated_reclaims_index_example : ◌≡◌ {A = ℕ} 0 0
recreated_reclaims_index_example =
    recreated_reclaims_index (toy []) {tree = tree []} {after = with_again.0} 0 0
      (file_at (codes "a/x") 5) (file_at (codes "a/x") 5) (tree-TreeFits []) there_and_back
      first_slot refl same_slot refl refl

no_fold : Folded (toy [])
no_fold = record { state = (tree []).state; delta = empty_delta }

-- A rescan folded in, and the loop that found it.
folded : (manifest : MountManifest) (abs : List (List ℕ)) → Folded (toy [])
folded manifest abs = value_or no_fold (fold_rescan (toy []) (tree []).state manifest abs)

grown_folds : fold_rescan (toy []) (tree []).state grown two_paths ≡ ok (folded grown two_paths)
unfolding folded Manifest.encode agent_share.Manifest.Delta.encode
    agent_share.Manifest.Delta.is_empty Manifest.write_dir Manifest.write_file
    agent_share.Manifest.Delta.write_slot agent_share.Wire.Writer.write_list
    agent_share.Wire.Writer.write_many agent_share.Wire.Writer.write_path
    agent_share.Wire.Words.le_bytes agent_share.Wire.Words.to_bits agent_share.Wire.Utf8.is_utf8
    agent_share.Prelude.Assoc.get agent_share.Prelude.Assoc.insert bytes_eq contains
    agent_share.Authorship.encode agent_share.Authorship.sealed agent_share.Authorship.sign_manifest
    agent_share.Authorship.signature_of signed_payload agent_share.Framing.Since.encode
    agent_share.Framing.Since.write_blob fold_rescan scan_files agent_share.Live.Rescan.append_slot
    agent_share.Live.Rescan.reuse_slot agent_share.Live.Rescan.scan_file
    agent_share.Live.Rescan.scan_slot agent_share.Live.Rescan.tombstone_files
    agent_share.Live.Rescan.tombstone_served agent_share.Live.Rescan.unchanged
    agent_share.Live.Rescan.vanished agent_share.Live.Rescan.changed_dirs
    agent_share.Live.Rescan.previous_dirs agent_share.Live.Rescan.removed_dirs Live.apply
    Live.authored Live.delta_frame Live.fold_scan Live.forget_history Live.index_files
    Live.manifest_frame Live.publish Live.remember Live.reseal Live.trim tree rescanned
grown_folds = value_or-ok no_fold (fold_rescan (toy []) (tree []).state grown two_paths) refl

grown_scan :
    (scan : Scan) × (scan_files grown.files two_paths (start (tree []).state) ≡ ok scan)
    × IsFolded
        (tree []).state
        grown
        scan
        (folded grown two_paths).state
        (folded grown two_paths).delta
grown_scan =
    fold_rescan-eq-ok (toy []) (tree []).state grown two_paths (folded grown two_paths) grown_folds

pub tree-Distinct : (special : List ℕ) → Distinct (paths (tree special).state.dirs)
unfolding Manifest.encode agent_share.Manifest.Delta.encode agent_share.Manifest.Delta.is_empty
    Manifest.write_dir Manifest.write_file agent_share.Manifest.Delta.write_slot
    agent_share.Wire.Writer.write_list agent_share.Wire.Writer.write_many
    agent_share.Wire.Writer.write_path agent_share.Wire.Words.le_bytes
    agent_share.Wire.Words.to_bits agent_share.Wire.Utf8.is_utf8 agent_share.Prelude.Assoc.get
    agent_share.Prelude.Assoc.insert bytes_eq contains agent_share.Authorship.encode
    agent_share.Authorship.sealed agent_share.Authorship.sign_manifest
    agent_share.Authorship.signature_of signed_payload agent_share.Framing.Since.encode
    agent_share.Framing.Since.write_blob fold_rescan scan_files agent_share.Live.Rescan.append_slot
    agent_share.Live.Rescan.reuse_slot agent_share.Live.Rescan.scan_file
    agent_share.Live.Rescan.scan_slot agent_share.Live.Rescan.tombstone_files
    agent_share.Live.Rescan.tombstone_served agent_share.Live.Rescan.unchanged
    agent_share.Live.Rescan.vanished agent_share.Live.Rescan.changed_dirs
    agent_share.Live.Rescan.previous_dirs agent_share.Live.Rescan.removed_dirs Live.apply
    Live.authored Live.delta_frame Live.fold_scan Live.forget_history Live.index_files
    Live.manifest_frame Live.publish Live.remember Live.reseal Live.trim tree rescanned
tree-Distinct special = (refl, (refl, tt))

pub grown-Distinct : Distinct (paths grown.dirs)
unfolding contains bytes_eq
grown-Distinct = (refl, (refl, (refl, tt)))

apply-IsFolded_example :
    ((apply (tree_of (tree []).state) (folded grown two_paths).delta).files
      ≡ (folded grown two_paths).state.files)
    × ((q : List ℕ)
        → find_dir (apply (tree_of (tree []).state) (folded grown two_paths).delta).dirs q
          ≡ find_dir (folded grown two_paths).state.dirs q)
apply-IsFolded_example =
    apply-IsFolded (tree []).state (folded grown two_paths).state grown (tree_of (tree []).state)
      two_paths grown_scan.0 (folded grown two_paths).delta (tree-TreeFits []) (tree-Distinct [])
      grown-Distinct grown_scan.1 grown_scan.2 refl refl

inserted_folds :
    fold_rescan (toy []) (tree []).state inserted one_path ≡ ok (folded inserted one_path)
unfolding folded Manifest.encode agent_share.Manifest.Delta.encode
    agent_share.Manifest.Delta.is_empty Manifest.write_dir Manifest.write_file
    agent_share.Manifest.Delta.write_slot agent_share.Wire.Writer.write_list
    agent_share.Wire.Writer.write_many agent_share.Wire.Writer.write_path
    agent_share.Wire.Words.le_bytes agent_share.Wire.Words.to_bits agent_share.Wire.Utf8.is_utf8
    agent_share.Prelude.Assoc.get agent_share.Prelude.Assoc.insert bytes_eq contains
    agent_share.Authorship.encode agent_share.Authorship.sealed agent_share.Authorship.sign_manifest
    agent_share.Authorship.signature_of signed_payload agent_share.Framing.Since.encode
    agent_share.Framing.Since.write_blob fold_rescan scan_files agent_share.Live.Rescan.append_slot
    agent_share.Live.Rescan.reuse_slot agent_share.Live.Rescan.scan_file
    agent_share.Live.Rescan.scan_slot agent_share.Live.Rescan.tombstone_files
    agent_share.Live.Rescan.tombstone_served agent_share.Live.Rescan.unchanged
    agent_share.Live.Rescan.vanished agent_share.Live.Rescan.changed_dirs
    agent_share.Live.Rescan.previous_dirs agent_share.Live.Rescan.removed_dirs Live.apply
    Live.authored Live.delta_frame Live.fold_scan Live.forget_history Live.index_files
    Live.manifest_frame Live.publish Live.remember Live.reseal Live.trim tree rescanned
inserted_folds = value_or-ok no_fold (fold_rescan (toy []) (tree []).state inserted one_path) refl

inserted_scan :
    (scan : Scan) × (scan_files inserted.files one_path (start (tree []).state) ≡ ok scan)
    × IsFolded
        (tree []).state
        inserted
        scan
        (folded inserted one_path).state
        (folded inserted one_path).delta
inserted_scan =
    fold_rescan-eq-ok (toy []) (tree []).state inserted one_path (folded inserted one_path)
      inserted_folds

pub inserted-Distinct : Distinct (paths inserted.dirs)
unfolding contains bytes_eq
inserted-Distinct = (refl, (refl, (refl, tt)))

apply_exact_example :
    (apply
        (record { dirs = (tree []).state.dirs; files = (tree []).state.files })
        (folded inserted one_path).delta
      ≡ record {
        dirs = (folded inserted one_path).state.dirs;
        files = (folded inserted one_path).state.files;
      })
    ↔ (paths inserted.dirs ≡ consumer_order (tree []).state.dirs inserted.dirs)
apply_exact_example =
    apply_exact (tree []).state (folded inserted one_path).state inserted one_path inserted_scan.0
      (folded inserted one_path).delta (tree-TreeFits []) (tree-Distinct []) inserted-Distinct
      inserted_scan.1 inserted_scan.2
