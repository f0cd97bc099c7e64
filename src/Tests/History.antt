-- ===== src/Tests/History.antt =====
-- A producer's history after a rescan.
use agent_share.Prelude.{
  ℕ, ◌+◌, ◌-◌, ◌^◌, ◌<◌, ◌≡◌, refl, List, [], ◌∷◌, map, drop, true, Option, none, some, ok, arith,
  ltb, if◌then◌else◌,
}
use agent_share.Manifest
use agent_share.Live
use agent_share.Live.{deltas_since}
use agent_share.Live.History.{
  HasHistory, delta_of, deltas_since_exact, apply-HasHistory, authored-HasHistory,
}
use agent_share.Tests.Data.{
  is_ok, value_or-ok, toy, tree, tree-authored, rescanned, before, grown, one_path, two_paths,
}

at_start : HasHistory (tree []).state
at_start = authored-HasHistory (toy []) before one_path (some 7) (tree []) (tree-authored [])

grown_ok : is_ok (Live.apply (toy []) (tree []) grown two_paths) ≡ true
unfolding Manifest.encode agent_share.Manifest.Delta.encode agent_share.Manifest.Delta.is_empty
    Manifest.write_dir Manifest.write_file agent_share.Manifest.Delta.write_slot
    agent_share.Wire.Writer.write_list agent_share.Wire.Writer.write_many
    agent_share.Wire.Writer.write_path agent_share.Wire.Words.le_bytes
    agent_share.Wire.Words.to_bits agent_share.Wire.Utf8.is_utf8 agent_share.Prelude.Assoc.get
    agent_share.Prelude.Assoc.insert agent_share.Prelude.bytes_eq
    agent_share.Manifest.Apply.contains agent_share.Authorship.encode agent_share.Authorship.sealed
    agent_share.Authorship.sign_manifest agent_share.Authorship.signature_of
    agent_share.Authorship.signed_payload agent_share.Framing.Since.encode
    agent_share.Framing.Since.write_blob agent_share.Live.fold_rescan
    agent_share.Live.Rescan.scan_files agent_share.Live.Rescan.append_slot
    agent_share.Live.Rescan.reuse_slot agent_share.Live.Rescan.scan_file
    agent_share.Live.Rescan.scan_slot agent_share.Live.Rescan.tombstone_files
    agent_share.Live.Rescan.tombstone_served agent_share.Live.Rescan.unchanged
    agent_share.Live.Rescan.vanished agent_share.Live.Rescan.changed_dirs
    agent_share.Live.Rescan.previous_dirs agent_share.Live.Rescan.removed_dirs Live.apply
    Live.authored Live.delta_frame Live.fold_scan Live.forget_history Live.index_files
    Live.manifest_frame Live.publish Live.remember Live.reseal Live.trim tree rescanned
grown_ok = refl

grown_step : Live.apply (toy []) (tree []) grown two_paths ≡ ok (rescanned [] grown two_paths)
unfolding rescanned
grown_step = value_or-ok (tree [], none) (Live.apply (toy []) (tree []) grown two_paths) grown_ok

small : (tree []).state.version + 1 < 2 ^ 64
unfolding Manifest.encode agent_share.Manifest.Delta.encode agent_share.Manifest.Delta.is_empty
    Manifest.write_dir Manifest.write_file agent_share.Manifest.Delta.write_slot
    agent_share.Wire.Writer.write_list agent_share.Wire.Writer.write_many
    agent_share.Wire.Writer.write_path agent_share.Wire.Words.le_bytes
    agent_share.Wire.Words.to_bits agent_share.Wire.Utf8.is_utf8 agent_share.Prelude.Assoc.get
    agent_share.Prelude.Assoc.insert agent_share.Prelude.bytes_eq
    agent_share.Manifest.Apply.contains agent_share.Authorship.encode agent_share.Authorship.sealed
    agent_share.Authorship.sign_manifest agent_share.Authorship.signature_of
    agent_share.Authorship.signed_payload agent_share.Framing.Since.encode
    agent_share.Framing.Since.write_blob agent_share.Live.fold_rescan
    agent_share.Live.Rescan.scan_files agent_share.Live.Rescan.append_slot
    agent_share.Live.Rescan.reuse_slot agent_share.Live.Rescan.scan_file
    agent_share.Live.Rescan.scan_slot agent_share.Live.Rescan.tombstone_files
    agent_share.Live.Rescan.tombstone_served agent_share.Live.Rescan.unchanged
    agent_share.Live.Rescan.vanished agent_share.Live.Rescan.changed_dirs
    agent_share.Live.Rescan.previous_dirs agent_share.Live.Rescan.removed_dirs Live.apply
    Live.authored Live.delta_frame Live.fold_scan Live.forget_history Live.index_files
    Live.manifest_frame Live.publish Live.remember Live.reseal Live.trim tree rescanned
small = omega arith

apply-HasHistory_example : HasHistory (rescanned [] grown two_paths).0.state
apply-HasHistory_example =
    apply-HasHistory (toy []) (tree []) (rescanned [] grown two_paths).0 grown two_paths
      (rescanned [] grown two_paths).1 at_start small grown_step

after : HasHistory (rescanned [] grown two_paths).0.state
after =
    apply-HasHistory (toy []) (tree []) (rescanned [] grown two_paths).0 grown two_paths
      (rescanned [] grown two_paths).1 at_start small grown_step

deltas_since_exact_example : deltas_since (rescanned [] grown two_paths).0.state 1 ≡ (
    if ltb (rescanned [] grown two_paths).0.state.version 1
    then none
    else if ltb (1 + 1) after.first
    then none
    else some (
      (rescanned [] grown two_paths).0.state.version,
      (rescanned [] grown two_paths).0.state.signature,
      map delta_of (drop (1 + 1 - after.first) (rescanned [] grown two_paths).0.state.history),
    ))
deltas_since_exact_example = deltas_since_exact (rescanned [] grown two_paths).0.state after 1
