-- ===== src/Live/Rescan.antt =====
-- The part of `LiveTree::apply` (crates/agent-share/src/mount/live.rs) that folds a rescan into the
-- state and collects the delta.
use agent_share.Sorting.{mem}
use agent_share.Prelude.{
  ℕ, ◌+◌, ◌^◌, List, [], ◌∷◌, ◌++◌, Bool, false, ◌&&◌, not, Option, none, some, Result, ok, err,
  panicked, length, get_elem?, set, ltb, ◌==◌, if◌then◌else◌,
}
use agent_share.Prelude.Assoc.{get, insert}
use agent_share.Wire.Words.{ℤ, pos, negsuc}
use agent_share.Manifest.{DirEntry, FileEntry, is_tombstone, tombstone}
use agent_share.Manifest.Apply.{contains}

-- The state of the loop over the scanned files: `state.files`, `state.served`, `state.index_of`,
-- `live_slots` and `delta.files_upserted`.
pub record Scan : Type 0 where
  pub files : List FileEntry
  pub served : List (Option (List ℕ))
  pub index_of : List (List ℕ × ℕ)
  pub live_slots : List ℕ
  pub upserted : List (ℕ × FileEntry)

-- `==` on `i64`
abbrev pub same_time : ℤ → ℤ → Bool
same_time (pos a) (pos b) = a == b
same_time (negsuc a) (negsuc b) = a == b
same_time (pos a) (negsuc b) = false
same_time (negsuc a) (pos b) = false

unfoldable pub unchanged : FileEntry → FileEntry → Bool
unchanged previous entry =
    (previous.size == entry.size)
    && (previous.mode == entry.mode)
    && same_time previous.mtime entry.mtime
    && not (is_tombstone previous)

-- The path already owns a slot. `state.files[slot]` and `state.served[slot]` panic out of range.
unfoldable pub reuse_slot : ℕ → FileEntry → List ℕ → Option FileEntry → Scan → Result Scan
unfolding unchanged
reuse_slot index entry abs none s = err panicked
reuse_slot index entry abs (some previous) s =
    if unchanged previous entry
    then ok (record s { live_slots = index ∷ s.live_slots })
    else if ltb index (length s.served)
    then ok (record s {
      served = set s.served index (some abs);
      files = set s.files index entry;
      live_slots = index ∷ s.live_slots;
      upserted = s.upserted ++ ((index, entry) ∷ []);
    })
    else err panicked

-- A fresh slot at the end; `u32::try_from(state.files.len()).expect(…)`.
unfoldable pub append_slot : FileEntry → List ℕ → Scan → Result Scan
append_slot entry abs s =
    let index = length s.files in
    if ltb index (2 ^ 32)
    then ok (record {
      files = s.files ++ (entry ∷ []);
      served = s.served ++ (some abs ∷ []);
      index_of = insert s.index_of entry.rel_path index;
      live_slots = index ∷ s.live_slots;
      upserted = s.upserted ++ ((index, entry) ∷ []);
    })
    else err panicked

unfoldable pub scan_slot : Option ℕ → FileEntry → List ℕ → Scan → Result Scan
unfolding reuse_slot append_slot
scan_slot (some index) entry abs s = reuse_slot index entry abs (get_elem? s.files index) s
scan_slot none entry abs s = append_slot entry abs s

unfoldable pub scan_file : FileEntry → List ℕ → Scan → Result Scan
unfolding scan_slot
scan_file entry abs s = scan_slot (get s.index_of entry.rel_path) entry abs s

-- `for (entry, abs) in manifest.files.into_iter().zip(paths)`
unfoldable pub scan_files : List FileEntry → List (List ℕ) → Scan → Result Scan
scan_files [] paths s = ok s
scan_files (entry ∷ files) [] s = ok s
scan_files (entry ∷ files) (abs ∷ paths) s = elim (scan_file entry abs s) [
  | err e ↦ err e
  | ok s' ↦ scan_files files paths s'
]

-- The slots that the scan did not account for, from a position on.
unfoldable pub vanished : ℕ → List FileEntry → List ℕ → List ℕ
vanished position [] live = []
vanished position (f ∷ fs) live =
    if not (is_tombstone f) && not (mem position live)
    then position ∷ vanished (position + 1) fs live
    else vanished (position + 1) fs live

-- `for index in &vanished { … }`
unfoldable pub tombstone_files : List ℕ → List FileEntry → List FileEntry
tombstone_files [] files = files
tombstone_files (index ∷ rest) files = tombstone_files rest (set files index tombstone)

unfoldable pub tombstone_served : List ℕ → List (Option (List ℕ)) → List (Option (List ℕ))
tombstone_served [] served = served
tombstone_served (index ∷ rest) served = tombstone_served rest (set served index none)

-- The directories by path, the last of a path counting, and those that are new or changed.
unfoldable pub previous_dirs : List DirEntry → List (List ℕ × DirEntry) → List (List ℕ × DirEntry)
previous_dirs [] m = m
previous_dirs (d ∷ ds) m = previous_dirs ds (insert m d.rel_path d)

abbrev pub same_attributes : Option DirEntry → DirEntry → Bool
same_attributes none dir = false
same_attributes (some d) dir = (d.mode == dir.mode) && same_time d.mtime dir.mtime

unfoldable pub changed_dirs : List (List ℕ × DirEntry) → List DirEntry → List DirEntry
changed_dirs previous [] = []
changed_dirs previous (dir ∷ dirs) =
    if same_attributes (get previous dir.rel_path) dir
    then changed_dirs previous dirs
    else dir ∷ changed_dirs previous dirs

unfoldable pub removed_dirs : List (List ℕ) → List DirEntry → List (List ℕ)
removed_dirs fresh [] = []
removed_dirs fresh (dir ∷ dirs) =
    if contains fresh dir.rel_path
    then removed_dirs fresh dirs
    else dir.rel_path ∷ removed_dirs fresh dirs
