-- ===== src/Manifest/Apply.antt =====
-- `MountManifest::apply` of crates/agent-share-proto/src/manifest.rs: fold a watch delta into a
-- manifest. `HashSet` membership is a search of the list that the set is made of.
pub mod Dirs
pub mod Files
pub mod Slots
use agent_share.Prelude.{
  ℕ, ◌+◌, ◌-◌, List, [], ◌∷◌, ◌++◌, Bool, true, false, ◌||◌, not, Option, none, some, length, set,
  replicate, ltb, leb, bytes_eq, if◌then◌else◌,
}
use agent_share.Prelude.Assoc.{get, insert}
use agent_share.Manifest.{DirEntry, FileEntry, MountManifest, tombstone}
use agent_share.Manifest.Delta.{ManifestDelta, is_nil}

-- `set.contains(path)`
unfoldable pub contains : List (List ℕ) → List ℕ → Bool
contains [] q = false
contains (p ∷ ps) q = bytes_eq p q || contains ps q

-- `self.dirs.retain(|dir| !removed.contains(…))`
unfoldable pub retain_dirs : List (List ℕ) → List DirEntry → List DirEntry
retain_dirs removed [] = []
retain_dirs removed (d ∷ ds) =
    if contains removed d.rel_path then retain_dirs removed ds else d ∷ retain_dirs removed ds

-- The map from a path to its position; `collect` inserts in order, so the last position stays.
unfoldable pub index_dirs : ℕ → List DirEntry → List (List ℕ × ℕ) → List (List ℕ × ℕ)
index_dirs position [] at = at
index_dirs position (d ∷ ds) at = index_dirs (position + 1) ds (insert at d.rel_path position)

-- `updates` and `appended`: decide first, mutate second.
pub record Upserts : Type 0 where
  pub updates : List (ℕ × DirEntry)
  pub appended : List DirEntry

unfoldable pub place : Option ℕ → DirEntry → Upserts → Upserts
place (some position) dir u = record u { updates = (position, dir) ∷ u.updates }
place none dir u = record u { appended = dir ∷ u.appended }

unfoldable pub split_upserts : List (List ℕ × ℕ) → List DirEntry → Upserts
unfolding place
split_upserts at [] = record { updates = []; appended = [] }
split_upserts at (dir ∷ dirs) = place (get at dir.rel_path) dir (split_upserts at dirs)

-- `for (position, dir) in updates { self.dirs[position] = dir; }`
unfoldable pub set_dirs : List (ℕ × DirEntry) → List DirEntry → List DirEntry
set_dirs [] dirs = dirs
set_dirs ((position, dir) ∷ updates) dirs = set_dirs updates (set dirs position dir)

unfoldable pub upsert_dirs : List DirEntry → List DirEntry → List DirEntry
unfolding index_dirs split_upserts set_dirs
upsert_dirs upserted dirs =
    let u = split_upserts (index_dirs 0 dirs []) upserted in set_dirs u.updates dirs ++ u.appended

unfoldable pub apply_dirs : ManifestDelta → List DirEntry → List DirEntry
unfolding retain_dirs upsert_dirs
apply_dirs delta dirs =
    let kept = if is_nil delta.dirs_removed then dirs else retain_dirs delta.dirs_removed dirs in
    if is_nil delta.dirs_upserted then kept else upsert_dirs delta.dirs_upserted kept

-- `if slot >= self.files.len() { self.files.resize(slot + 1, FileEntry::tombstone()); }`
unfoldable pub grow : ℕ → List FileEntry → List FileEntry
grow slot files =
    if leb (length files) slot
    then files ++ replicate (slot + 1 - length files) tombstone
    else files

unfoldable pub place_files : List (ℕ × FileEntry) → List FileEntry → List FileEntry
unfolding grow
place_files [] files = files
place_files ((index, file) ∷ rest) files = place_files rest (set (grow index files) index file)

-- `get_mut` finds nothing out of range, and then nothing is written.
unfoldable pub remove_files : List ℕ → List FileEntry → List FileEntry
remove_files [] files = files
remove_files (index ∷ rest) files = remove_files rest (set files index tombstone)

unfoldable pub apply : MountManifest → ManifestDelta → MountManifest
unfolding apply_dirs place_files remove_files
apply m delta = record {
  dirs = apply_dirs delta m.dirs;
  files = remove_files delta.files_removed (place_files delta.files_upserted m.files);
}
