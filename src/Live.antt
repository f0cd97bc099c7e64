-- ===== src/Live.antt =====
-- `LiveTree` of crates/agent-share/src/mount/live.rs: the producer's view of the tree, and the
-- frame that each rescan publishes. A path on disk is its bytes. The lock is the state passing, and
-- the broadcast channel the frame that `apply` returns; `root` serves only the file system watcher.
pub mod Rescan
pub mod Steps
pub mod Slots
pub mod Sync
pub mod Mirror
pub mod History
pub mod Serving
use agent_share.Prelude.{
  ℕ, ◌+◌, ◌-◌, ◌*◌, ◌%◌, ◌^◌, List, [], ◌∷◌, ◌++◌, Bool, true, false, Option, none, some, Result,
  ok, err, length, get_elem?, map, ltb, leb, ◌==◌, if◌then◌else◌, ◌>>=◌,
}
use agent_share.Prelude.Assoc.{insert}
use agent_share.Wire.Writer.{Write}
use agent_share.Manifest
use agent_share.Manifest.{DirEntry, FileEntry, MountManifest, is_tombstone}
use agent_share.Manifest.Delta
use agent_share.Manifest.Delta.{ManifestDelta}
use agent_share.Framing.Since
use agent_share.Framing.Since.{ManifestSince, max_delta_bytes}
use agent_share.Authorship
use agent_share.Authorship.{Scheme, SignedManifest, sealed}
use Rescan.{
  Scan, scan_files, vanished, tombstone_files, tombstone_served, previous_dirs, changed_dirs,
  removed_dirs,
}
use agent_share.Watch.{watch_frame_manifest, watch_frame_delta}

-- `DELTA_HISTORY_BYTES`
abbrev pub delta_history_bytes : ℕ
delta_history_bytes = 4 * 1024 * 1024

pub record Published : Type 0 where
  pub version : ℕ
  pub delta : List ℕ

pub record TreeState : Type 0 where
  pub dirs : List DirEntry
  pub files : List FileEntry
  pub served : List (Option (List ℕ))
  pub index_of : List (List ℕ × ℕ)
  pub encoded : List ℕ
  pub version : ℕ
  pub envelope : List ℕ
  pub signature : List ℕ
  pub history : List Published
  pub history_bytes : ℕ

-- The positions of the startup manifest, as `index_of` collects them.
unfoldable pub index_files : ℕ → List FileEntry → List (List ℕ × ℕ) → List (List ℕ × ℕ)
index_files position [] m = m
index_files position (f ∷ fs) m = index_files (position + 1) fs (insert m f.rel_path position)

-- `while self.history_bytes > DELTA_HISTORY_BYTES { pop_front … }`, on the entries.
unfoldable pub trim : List Published → ℕ → List Published × ℕ
trim [] bytes = ([], bytes)
trim (oldest ∷ rest) bytes = elim (ltb delta_history_bytes bytes) [
  | true ↦ trim rest (bytes - length oldest.delta)
  | false ↦ (oldest ∷ rest, bytes)
]

-- `TreeState::remember`
unfoldable pub remember : List ℕ → TreeState → TreeState
unfolding trim
remember delta state =
    let published : Published = record { version = state.version; delta = delta } in
    let (history, bytes) =
      trim (state.history ++ (published ∷ [])) (state.history_bytes + length delta) in
    record state { history = history; history_bytes = bytes }

-- `TreeState::forget_history`
unfoldable pub forget_history : TreeState → TreeState
forget_history state = record state { history = []; history_bytes = 0 }

unfoldable pub manifest_frame : List ℕ → List ℕ
manifest_frame envelope = watch_frame_manifest ∷ envelope

module _ (scheme : Scheme) where
  open scheme use {SecretKey}

  pub record LiveTree : Type 0 where
    pub author : Option SecretKey
    pub state : TreeState

  -- `LiveTree::authored`: a `u32` position that overflows and an encoding that does not fit panic.
  unfoldable pub authored : MountManifest → List (List ℕ) → Option SecretKey → Result LiveTree
  authored manifest paths author = do
    encoded ← Manifest.encode manifest
    let signed = sealed scheme author 1 encoded
    ok (record {
      author = author;
      state = record {
        dirs = manifest.dirs;
        files = manifest.files;
        served = map some paths;
        index_of = index_files 0 manifest.files [];
        encoded = encoded;
        version = 1;
        envelope = Authorship.encode signed;
        signature = signed.signature;
        history = [];
        history_bytes = 0;
      };
    })

  -- The state with a rescan folded in, and the delta; nothing is published yet.
  pub record Folded : Type 0 where
    pub state : TreeState
    pub delta : ManifestDelta

  -- After the loop over the files: tombstone what vanished, take the directories as they are.
  unfoldable pub fold_scan : TreeState → MountManifest → Scan → Folded
  fold_scan state manifest scan =
      let gone = vanished 0 scan.files scan.live_slots in
      record {
        state = record state {
          dirs = manifest.dirs;
          files = tombstone_files gone scan.files;
          served = tombstone_served gone scan.served;
          index_of = scan.index_of;
        };
        delta = record {
          dirs_upserted = changed_dirs (previous_dirs state.dirs []) manifest.dirs;
          dirs_removed = removed_dirs (map (λ (d : DirEntry). d.rel_path) manifest.dirs) state.dirs;
          files_upserted = scan.upserted;
          files_removed = gone;
        };
      }

  unfoldable pub fold_rescan : TreeState → MountManifest → List (List ℕ) → Result Folded
  unfolding fold_scan
  fold_rescan state manifest paths = do
    scan ← scan_files manifest.files paths (record {
      files = state.files;
      served = state.served;
      index_of = state.index_of;
      live_slots = [];
      upserted = [];
    })
    ok (fold_scan state manifest scan)

  -- Re-encode, bump the version and sign. `+= 1` wraps in a release build.
  unfoldable pub reseal : Option SecretKey → TreeState → Result TreeState
  reseal author state = do
    refreshed ← Manifest.encode (record { dirs = state.dirs; files = state.files })
    let version = (state.version + 1) % 2 ^ 64
    let signed = sealed scheme author version refreshed
    ok (record state {
      encoded = refreshed;
      version = version;
      envelope = Authorship.encode signed;
      signature = signed.signature;
    })

  unfoldable pub delta_frame : TreeState → List ℕ → Result (TreeState × List ℕ)
  delta_frame state body = do
    since ←
        Since.encode (record {
          target_version = state.version;
          signature = state.signature;
          deltas = body ∷ [];
        })
    ok (remember body state, watch_frame_delta ∷ since)

  -- A change too large for a delta frame is sent as the whole manifest, and ends the history.
  unfoldable pub publish : Option SecretKey → Folded → Result (TreeState × List ℕ)
  publish author folded = do
    state ← reseal author folded.state
    body ← Delta.encode folded.delta
    if leb (length body) max_delta_bytes
        then delta_frame state body
        else ok (forget_history state, manifest_frame state.envelope)

  -- `LiveTree::apply`; `none` when nothing changed.
  unfoldable pub apply :
      LiveTree → MountManifest → List (List ℕ) → Result (LiveTree × Option (List ℕ))
  apply tree manifest paths = do
    folded ← fold_rescan tree.state manifest paths
    if Delta.is_empty folded.delta then ok (record tree { state = folded.state }, none) else (do
      (state, frame) ← publish tree.author folded
      ok (record tree { state = state }, some frame))

-- The walk over the history; a gap ends it with `none`.
unfoldable pub collect_chain : ℕ → List (List ℕ) → List Published → Option (ℕ × List (List ℕ))
collect_chain want chain [] = some (want, chain)
collect_chain want chain (entry ∷ rest) = elim (ltb entry.version want) [
  | true ↦ collect_chain want chain rest
  | false ↦ elim (entry.version == want) [
    | true ↦ collect_chain (want + 1) (chain ++ (entry.delta ∷ [])) rest
    | false ↦ none
  ]
]

reached : TreeState → Option (ℕ × List (List ℕ)) → Option (ℕ × List ℕ × List (List ℕ))
reached state none = none
reached state (some (want, chain)) =
    if ltb state.version want then some (state.version, state.signature, chain) else none

-- `LiveTree::deltas_since`
unfoldable pub deltas_since : TreeState → ℕ → Option (ℕ × List ℕ × List (List ℕ))
unfolding reached
deltas_since state since =
    if ltb state.version since
    then none
    else if since == state.version
    then some (state.version, state.signature, [])
    else reached state (collect_chain (since + 1) [] state.history)

-- `LiveTree::path_of`: `none` answers `BadIndex`.
unfoldable pub path_of : TreeState → ℕ → Option (List ℕ)
path_of state index = elim (get_elem? state.served index) [ none ↦ none | some slot ↦ slot ]
