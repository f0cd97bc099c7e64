-- ===== src/Live/Sync/Fits.antt =====
-- What a rescan puts into a delta and into the tree stays within the types of the fields.
use mathlib.Core.Path.{subst}
use agent_share.Prelude.{
  ℕ, ◌+◌, ◌^◌, ◌≤◌, ◌≡◌, List, [], ◌∷◌, not, ◌&&◌, ok, length, length-append, length-set, All,
  All-set, All-append, Bool-cases, inl, inr, arith, set,
}
use agent_share.Prelude.Assoc.{get}
use agent_share.Wire.Words.{IsU32}
use agent_share.Wire.Codec.{IsText}
use agent_share.Manifest.{DirEntry, FileEntry, MountManifest, is_tombstone, tombstone}
use agent_share.Manifest.Entries.{DirFits, FileFits}
use agent_share.Manifest.RoundTrip.{ManifestFits}
use agent_share.Manifest.Delta.{ManifestDelta}
use agent_share.Manifest.Delta.RoundTrip.{DeltaFits, SlotFits}
use agent_share.Manifest.Apply.{contains}
use agent_share.Manifest.Apply.Dirs.{paths}
use agent_share.Manifest.Apply.Files.{tombstone-FileFits}
use agent_share.Live.{TreeState}
use agent_share.Sorting.{mem}
use agent_share.Live.Rescan.{
  Scan, scan_files, tombstone_files, vanished, same_attributes, previous_dirs, changed_dirs,
  removed_dirs,
}
use agent_share.Live.Steps.{start, IsFolded}
use agent_share.Live.Slots.Stable.{Scanned, scan_files-cons, Scanned-Fits, ScanFits, TreeFits}

changed_dirs-Fits :
    (previous : List (List ℕ × DirEntry)) (fresh : List DirEntry)
    → All DirFits fresh
    → All DirFits (changed_dirs previous fresh)
unfolding changed_dirs
changed_dirs-Fits previous [] h = tt
changed_dirs-Fits previous (d ∷ ds) h =
    elim (Bool-cases (same_attributes (get previous d.rel_path) d)) [
      | inl kept ↦ rw kept (changed_dirs-Fits previous ds h.1)
      | inr new ↦ rw new (h.0, changed_dirs-Fits previous ds h.1)
    ]

removed_dirs-Fits :
    (fresh : List (List ℕ)) (ds : List DirEntry)
    → All DirFits ds
    → All IsText (removed_dirs fresh ds)
unfolding removed_dirs
removed_dirs-Fits fresh [] h = tt
removed_dirs-Fits fresh (d ∷ ds) h = elim (Bool-cases (contains fresh d.rel_path)) [
  | inl kept ↦ rw kept (removed_dirs-Fits fresh ds h.1)
  | inr gone ↦ rw gone (h.0.path, removed_dirs-Fits fresh ds h.1)
]

record ScanWire (s : Scan) : Type 0 where
  files : All FileFits s.files
  upserted : All SlotFits s.upserted
  size : length s.files ≤ 2 ^ 32

Scanned-Wire :
    {entry : FileEntry} {s s' : Scan}
    → Scanned entry s s'
    → FileFits entry
    → ScanFits s
    → ScanWire s
    → ScanWire s'
Scanned-Wire (Scanned.same f m u) good fit w = record {
  files = rw f w.files;
  upserted = rw u w.upserted;
  size = rw f w.size;
}
Scanned-Wire {entry} {s} (Scanned.wrote i own f m u) good fit w = record {
  files = rw f (All-set FileFits s.files i entry w.files good);
  upserted = rw u (
      All-append SlotFits s.upserted ((i, entry) ∷ []) w.upserted
        ((omega (arith, fit.in_range entry.rel_path i own, w.size), good), tt));
  size = rw f (omega (arith, length-set s.files i entry, w.size));
}
Scanned-Wire {entry} {s} (Scanned.fresh room new f m u) good fit w = record {
  files = rw f (All-append FileFits s.files (entry ∷ []) w.files (good, tt));
  upserted =
      rw u (
        All-append SlotFits s.upserted ((length s.files, entry) ∷ []) w.upserted
          ((room, good), tt));
  size = rw f (omega (arith, length-append s.files (entry ∷ []), room));
}

scan_files-Wire :
    (entries : List FileEntry) (abs : List (List ℕ)) (s t : Scan)
    → All FileFits entries
    → ScanFits s
    → ScanWire s
    → scan_files entries abs s ≡ ok t
    → ScanWire t
scan_files-Wire [] abs s t good fit w e =
    unfold scan_files in (let k : s ≡ t = cc in subst ScanWire k w)
scan_files-Wire (entry ∷ entries) [] s t good fit w e =
    unfold scan_files in (let k : s ≡ t = cc in subst ScanWire k w)
scan_files-Wire (entry ∷ entries) (a ∷ abs) s t good fit w e =
    let (s', one, more) = scan_files-cons entry entries a abs s t e in
    scan_files-Wire entries abs s' t good.1 (Scanned-Fits one fit).0 (Scanned-Wire one good.0 fit w)
      more

vanished-IsU32 :
    (position : ℕ) (files : List FileEntry) (live : List ℕ)
    → position + length files ≤ 2 ^ 32
    → All IsU32 (vanished position files live)
unfolding vanished
vanished-IsU32 position [] live h = tt
vanished-IsU32 position (f ∷ fs) live h =
    elim (Bool-cases (not (is_tombstone f) && not (mem position live))) [
      | inl gone ↦ rw gone (omega arith, vanished-IsU32 (position + 1) fs live (omega arith))
      | inr here ↦ rw here (vanished-IsU32 (position + 1) fs live (omega arith))
    ]

tombstone_files-FileFits :
    (gone : List ℕ) (files : List FileEntry)
    → All FileFits files
    → All FileFits (tombstone_files gone files)
unfolding tombstone_files
tombstone_files-FileFits [] files h = h
tombstone_files-FileFits (i ∷ gone) files h =
    tombstone_files-FileFits gone (set files i tombstone)
      (All-set FileFits files i tombstone h tombstone-FileFits)

-- From a tree and a listing within their types: so are the delta and the folded tree.
pub IsFolded-Fits :
    (state folded : TreeState) (manifest : MountManifest) (abs : List (List ℕ)) (scan : Scan)
    (delta : ManifestDelta)
    → TreeFits state
    → All DirFits state.dirs
    → All FileFits state.files
    → length state.files ≤ 2 ^ 32
    → ManifestFits manifest
    → scan_files manifest.files abs (start state) ≡ ok scan
    → IsFolded state manifest scan folded delta
    → DeltaFits delta × ManifestFits (record { dirs = folded.dirs; files = folded.files })
IsFolded-Fits state folded manifest abs scan delta fit dirs files size good loop is =
    let w =
      scan_files-Wire manifest.files abs (start state) scan good.files fit
        (record { files = files; upserted = tt; size = size }) loop in
    let gone = vanished 0 scan.files scan.live_slots in
    (
      record {
        dirs_upserted =
            rw is.upserted
              (changed_dirs-Fits (previous_dirs state.dirs []) manifest.dirs good.dirs);
        dirs_removed = rw is.removed (removed_dirs-Fits (paths manifest.dirs) state.dirs dirs);
        files_upserted = rw is.slots w.upserted;
        files_removed =
            rw is.gone (vanished-IsU32 0 scan.files scan.live_slots (omega (arith, w.size)));
      },
      record {
        dirs = rw is.dirs good.dirs;
        files = rw is.files (tombstone_files-FileFits gone scan.files w.files);
      },
    )
