-- ===== src/Manifest/Apply/Files.antt =====
-- `apply` keeps the fields of a manifest within their types.
use agent_share.Prelude.{
  ℕ, ◌+◌, ◌-◌, refl, List, [], ◌∷◌, Option, none, some, length, leb, All, All-set, All-append,
  All-replicate, Bool-cases, inl, inr, arith, set, replicate,
}
use agent_share.Prelude.Assoc.{get}
use agent_share.Wire.Utf8.{is_utf8}
use agent_share.Manifest.{DirEntry, FileEntry, MountManifest, tombstone}
use agent_share.Manifest.Entries.{DirFits, FileFits}
use agent_share.Manifest.RoundTrip.{ManifestFits}
use agent_share.Manifest.Delta.{ManifestDelta}
use agent_share.Manifest.Delta.RoundTrip.{DeltaFits, SlotFits}
use agent_share.Manifest.Apply.{
  contains, retain_dirs, index_dirs, Upserts, place, split_upserts, set_dirs, upsert_dirs,
  apply_dirs, grow, place_files, remove_files, apply,
}
use agent_share.Manifest.Apply.Dirs.{apply_dirs_lem}
use mathlib.Core.Path.{subst, sym}

pub tombstone-FileFits : FileFits tombstone
unfolding is_utf8
tombstone-FileFits = record {
  path = record { of_bytes = tt; utf8 = refl };
  size = omega arith;
  mode = omega arith;
  mtime = omega arith;
}

retain_dirs-Fits :
    (removed : List (List ℕ)) (ds : List DirEntry)
    → All DirFits ds
    → All DirFits (retain_dirs removed ds)
unfolding retain_dirs
retain_dirs-Fits removed [] h = tt
retain_dirs-Fits removed (d ∷ ds) h = elim (Bool-cases (contains removed d.rel_path)) [
  | inl gone ↦ rw gone (retain_dirs-Fits removed ds h.1)
  | inr kept ↦ rw kept (h.0, retain_dirs-Fits removed ds h.1)
]

abbrev UpsertsFit : Upserts → Type 0
UpsertsFit u = All (λ (x : ℕ × DirEntry). DirFits x.1) u.updates × All DirFits u.appended

place-Fits :
    (o : Option ℕ) (d : DirEntry) (u : Upserts)
    → DirFits d
    → UpsertsFit u
    → UpsertsFit (place o d u)
unfolding place
place-Fits none d u h k = (k.0, (h, k.1))
place-Fits (some p) d u h k = ((h, k.0), k.1)

split_upserts-Fits :
    (at : List (List ℕ × ℕ)) (ups : List DirEntry)
    → All DirFits ups
    → UpsertsFit (split_upserts at ups)
unfolding split_upserts
split_upserts-Fits at [] h = (tt, tt)
split_upserts-Fits at (u ∷ ups) h =
    place-Fits (get at u.rel_path) u (split_upserts at ups) h.0 (split_upserts-Fits at ups h.1)

set_dirs-Fits :
    (updates : List (ℕ × DirEntry)) (ds : List DirEntry)
    → All (λ (x : ℕ × DirEntry). DirFits x.1) updates
    → All DirFits ds
    → All DirFits (set_dirs updates ds)
unfolding set_dirs
set_dirs-Fits [] ds h k = k
set_dirs-Fits ((p, d) ∷ updates) ds h k =
    set_dirs-Fits updates (set ds p d) h.1 (All-set DirFits ds p d k h.0)

pub apply_dirs-Fits :
    (delta : ManifestDelta) (ds : List DirEntry)
    → All DirFits delta.dirs_upserted
    → All DirFits ds
    → All DirFits (apply_dirs delta ds)
apply_dirs-Fits delta ds h k =
    let kept = retain_dirs delta.dirs_removed ds in
    let at = index_dirs 0 kept [] in
    let u = split_upserts at delta.dirs_upserted in
    let fit = split_upserts-Fits at delta.dirs_upserted h in
    subst (All DirFits) (sym (apply_dirs_lem delta ds)) (
      unfold upsert_dirs in
      All-append DirFits (set_dirs u.updates kept) u.appended
        (set_dirs-Fits u.updates kept fit.0 (retain_dirs-Fits delta.dirs_removed ds k)) fit.1)

grow-Fits : (i : ℕ) (files : List FileEntry) → All FileFits files → All FileFits (grow i files)
unfolding grow
grow-Fits i files h = elim (Bool-cases (leb (length files) i)) [
  | inl short ↦ rw short (
      All-append FileFits files (replicate (i + 1 - length files) tombstone) h
        (All-replicate FileFits (i + 1 - length files) tombstone tombstone-FileFits))
  | inr long ↦ rw long h
]

place_files-Fits :
    (ups : List (ℕ × FileEntry)) (files : List FileEntry)
    → All SlotFits ups
    → All FileFits files
    → All FileFits (place_files ups files)
unfolding place_files
place_files-Fits [] files h k = k
place_files-Fits ((i, f) ∷ ups) files h k =
    place_files-Fits ups (set (grow i files) i f) h.1
      (All-set FileFits (grow i files) i f (grow-Fits i files k) h.0.1)

remove_files-Fits :
    (gone : List ℕ) (files : List FileEntry)
    → All FileFits files
    → All FileFits (remove_files gone files)
unfolding remove_files
remove_files-Fits [] files h = h
remove_files-Fits (i ∷ gone) files h =
    remove_files-Fits gone (set files i tombstone)
      (All-set FileFits files i tombstone h tombstone-FileFits)

-- A delta within its types, folded into a manifest within its types, leaves one within its types.
pub apply-ManifestFits :
    (m : MountManifest) (delta : ManifestDelta)
    → ManifestFits m
    → DeltaFits delta
    → ManifestFits (apply m delta)
unfolding apply
apply-ManifestFits m delta h k = record {
  dirs = apply_dirs-Fits delta m.dirs k.dirs_upserted h.dirs;
  files =
      remove_files-Fits delta.files_removed _
        (place_files-Fits delta.files_upserted m.files k.files_upserted h.files);
}
