-- ===== src/Live/Sync.antt =====
-- A consumer that applies the delta of a rescan to what it held: its files are the producer's, slot
-- for slot, and its directories are the producer's, path for path.
pub mod Order
pub mod Fits
pub mod Frames
use mathlib.Core.Path.{subst}
use mathlib.Core.List.{append_assoc}
use agent_share.Prelude.{
  ℕ, zero, suc, ◌+◌, ◌-◌, ◌<◌, ◌≡◌, refl, ap, sym, ◌∙◌, List, [], ◌∷◌, ◌++◌, map, arith, Bool, true,
  false, not, ◌&&◌, Option, none, some, Result, ok, length, get_elem?, set, replicate, leb, ◌==◌,
  bytes_eq, bytes_eq→eq, bytes_eq_refl, if◌then◌else◌, Bool-cases, inl, inr,
}
use agent_share.Prelude.Assoc.{get, insert, get-insert}
use agent_share.Wire.Words.{ℤ, pos, negsuc}
use agent_share.Manifest.{DirEntry, FileEntry, MountManifest, tombstone}
use agent_share.Manifest.Delta.{ManifestDelta}
use agent_share.Manifest.Apply.{contains, grow, place_files, remove_files, apply_dirs, apply}
use agent_share.Manifest.Apply.Dirs.{
  Distinct, paths, path_of, find_dir, find_dir-path, find_dir-apply_dirs, contains-find_dir,
  or_else,
}
use agent_share.Live.{TreeState}
use agent_share.Live.Rescan.{
  Scan, scan_files, tombstone_files, vanished, same_time, same_attributes, previous_dirs,
  changed_dirs, removed_dirs,
}
use agent_share.Live.Steps.{start, IsFolded}
use agent_share.Live.Slots.{SlotsFit}
use agent_share.Live.Slots.Stable.{Scanned, scan_files-cons, Scanned-Fits, TreeFits}

-- Files.
place_files-last :
    (ups : List (ℕ × FileEntry)) (i : ℕ) (f : FileEntry) (files : List FileEntry)
    → place_files (ups ++ ((i, f) ∷ [])) files ≡ set (grow i (place_files ups files)) i f
unfolding place_files
place_files-last [] i f files = refl
place_files-last ((j, g) ∷ ups) i f files = place_files-last ups i f (set (grow j files) j g)

grow-in_range : (i : ℕ) (files : List FileEntry) → i < length files → grow i files ≡ files
unfolding grow
grow-in_range i files h = ground arith

grow-end : (files : List FileEntry) → grow (length files) files ≡ files ++ (tombstone ∷ [])
unfolding grow
grow-end files =
    let full : leb (length files) (length files) ≡ true = ground arith in
    let one : length files + 1 - length files ≡ 1 = omega arith in rw full (rw one)

set-last :
    (files : List FileEntry) (f g : FileEntry)
    → set (files ++ (f ∷ [])) (length files) g ≡ files ++ (g ∷ [])
set-last [] f g = refl
set-last (x ∷ files) f g = ap (λ xs. x ∷ xs) (set-last files f g)

Scanned-place_files :
    {entry : FileEntry} {s s' : Scan} (files : List FileEntry)
    → Scanned entry s s'
    → SlotsFit s.files s.index_of
    → s.files ≡ place_files s.upserted files
    → s'.files ≡ place_files s'.upserted files
Scanned-place_files files (Scanned.same f m u) fit h = f ∙ h ∙ rw u
Scanned-place_files {entry} {s} files (Scanned.wrote i own f m u) fit h =
    f
    ∙ ap (λ x. set x i entry)
        (sym (grow-in_range i s.files (fit.in_range entry.rel_path i own)) ∙ ap (grow i) h)
    ∙ sym (rw u (place_files-last s.upserted i entry files))
Scanned-place_files {entry} {s} files (Scanned.fresh room new f m u) fit h =
    f
    ∙ sym (set-last s.files tombstone entry)
    ∙ ap (λ x. set x (length s.files) entry) (sym (grow-end s.files) ∙ ap (grow (length s.files)) h)
    ∙ sym (rw u (place_files-last s.upserted (length s.files) entry files))

scan_files-place_files :
    (entries : List FileEntry) (abs : List (List ℕ)) (s t : Scan) (files : List FileEntry)
    → SlotsFit s.files s.index_of
    → s.files ≡ place_files s.upserted files
    → scan_files entries abs s ≡ ok t
    → t.files ≡ place_files t.upserted files
scan_files-place_files [] abs s t files fit h e =
    unfold scan_files in
    (let k : s ≡ t = cc in subst (λ (x : Scan). x.files ≡ place_files x.upserted files) k h)
scan_files-place_files (entry ∷ entries) [] s t files fit h e =
    unfold scan_files in
    (let k : s ≡ t = cc in subst (λ (x : Scan). x.files ≡ place_files x.upserted files) k h)
scan_files-place_files (entry ∷ entries) (a ∷ abs) s t files fit h e =
    let (s', one, more) = scan_files-cons entry entries a abs s t e in
    scan_files-place_files entries abs s' t files (Scanned-Fits one fit).0
      (Scanned-place_files files one fit h) more

tombstone_files-eq-remove_files :
    (gone : List ℕ) (files : List FileEntry) → tombstone_files gone files ≡ remove_files gone files
unfolding tombstone_files remove_files
tombstone_files-eq-remove_files [] files = refl
tombstone_files-eq-remove_files (i ∷ gone) files =
    tombstone_files-eq-remove_files gone (set files i tombstone)

-- Directories.
same_time→eq : (a b : ℤ) → same_time a b ≡ true → a ≡ b
same_time→eq (pos a) (pos b) h = ap pos (ground arith)
same_time→eq (pos a) (negsuc b) h = cc
same_time→eq (negsuc a) (pos b) h = cc
same_time→eq (negsuc a) (negsuc b) h = ap negsuc (ground arith)

same_attributes→eq :
    (d e : DirEntry) → d.rel_path ≡ e.rel_path → same_attributes (some d) e ≡ true → d ≡ e
same_attributes→eq d e p h =
    let mode : d.mode ≡ e.mode = ground arith in
    let time : d.mtime ≡ e.mtime = same_time→eq d.mtime e.mtime (ground arith) in
    λ i. record { rel_path = p i; mode = mode i; mtime = time i }

get-previous_dirs :
    (ds : List DirEntry) (m : List (List ℕ × DirEntry)) (q : List ℕ)
    → Distinct (paths ds)
    → get (previous_dirs ds m) q ≡ or_else (find_dir ds q) (get m q)
unfolding previous_dirs find_dir
get-previous_dirs [] m q h = refl
get-previous_dirs (d ∷ ds) m q h =
    get-previous_dirs ds (insert m d.rel_path d) q h.1
    ∙ ap (or_else (find_dir ds q)) (get-insert m d.rel_path q d)
    ∙ ground (arith, contains-find_dir ds d.rel_path h.0, bytes_eq→eq d.rel_path q)

only_changed : List (List ℕ × DirEntry) → Option DirEntry → Option DirEntry
only_changed previous none = none
only_changed previous (some e) =
    if same_attributes (get previous e.rel_path) e then none else some e

find_dir-changed_dirs :
    (previous : List (List ℕ × DirEntry)) (fresh : List DirEntry) (q : List ℕ)
    → Distinct (paths fresh)
    → find_dir (changed_dirs previous fresh) q ≡ only_changed previous (find_dir fresh q)
unfolding changed_dirs find_dir only_changed
find_dir-changed_dirs previous [] q h = refl
find_dir-changed_dirs previous (d ∷ ds) q h = ground (
  arith,
  find_dir-changed_dirs previous ds q h.1,
  contains-find_dir ds d.rel_path h.0,
  bytes_eq→eq d.rel_path q,
)

contains-removed_dirs :
    (fresh : List (List ℕ)) (ds : List DirEntry) (q : List ℕ)
    → contains (removed_dirs fresh ds) q ≡ (contains (paths ds) q && not (contains fresh q))
unfolding removed_dirs contains
contains-removed_dirs fresh [] q = refl
contains-removed_dirs fresh (d ∷ ds) q =
    ground (arith, contains-removed_dirs fresh ds q, bytes_eq→eq d.rel_path q)

contains-of-find_dir :
    (ds : List DirEntry) (q : List ℕ) (d : DirEntry)
    → find_dir ds q ≡ some d
    → contains (paths ds) q ≡ true
unfolding find_dir contains
contains-of-find_dir [] q d h = cc
contains-of-find_dir (x ∷ ds) q d h = ground (arith, contains-of-find_dir ds q d)

absent-of-find_dir :
    (ds : List DirEntry) (q : List ℕ) → find_dir ds q ≡ none → contains (paths ds) q ≡ false
unfolding find_dir contains
absent-of-find_dir [] q h = refl
absent-of-find_dir (x ∷ ds) q h = ground (arith, absent-of-find_dir ds q)

contains-changed_dirs :
    (previous : List (List ℕ × DirEntry)) (fresh : List DirEntry) (p : List ℕ)
    → contains (paths fresh) p ≡ false
    → contains (paths (changed_dirs previous fresh)) p ≡ false
unfolding changed_dirs contains
contains-changed_dirs previous [] p h = refl
contains-changed_dirs previous (d ∷ ds) p h = ground (arith, contains-changed_dirs previous ds p)

changed_dirs-Distinct :
    (previous : List (List ℕ × DirEntry)) (fresh : List DirEntry)
    → Distinct (paths fresh)
    → Distinct (paths (changed_dirs previous fresh))
unfolding changed_dirs
changed_dirs-Distinct previous [] h = tt
changed_dirs-Distinct previous (d ∷ ds) h =
    elim (Bool-cases (same_attributes (get previous d.rel_path) d)) [
      | inl kept ↦ rw kept (changed_dirs-Distinct previous ds h.1)
      | inr new ↦
          rw new (
            contains-changed_dirs previous ds d.rel_path h.0,
            changed_dirs-Distinct previous ds h.1,
          )
    ]

module _ (old fresh : List DirEntry) (one : Distinct (paths old))
    (two : Distinct (paths fresh)) where
  merge_dirs :
      (q : List ℕ) (o n : Option DirEntry)
      → find_dir old q ≡ o
      → find_dir fresh q ≡ n
      → or_else
          (only_changed (previous_dirs old []) n)
          (if contains (removed_dirs (paths fresh) old) q then none else o)
        ≡ n
  unfolding only_changed
  merge_dirs q none none ho hn = ground arith
  merge_dirs q (some d) none ho hn =
      rw (contains-removed_dirs (paths fresh) old q)
        (rw (contains-of-find_dir old q d ho, absent-of-find_dir fresh q hn))
  merge_dirs q none (some e) ho hn =
      let here : e.rel_path ≡ q = find_dir-path fresh q hn in
      let before : get (previous_dirs old []) q ≡ none =
        get-previous_dirs old [] q one ∙ unfold get in rw ho in
      rw (here, before)
  merge_dirs q (some d) (some e) ho hn =
      let here : e.rel_path ≡ q = find_dir-path fresh q hn in
      let there : d.rel_path ≡ q = find_dir-path old q ho in
      let before : get (previous_dirs old []) q ≡ some d = get-previous_dirs old [] q one ∙ rw ho in
      let found : get (previous_dirs old []) e.rel_path ≡ some d =
        subst (λ x. get (previous_dirs old []) x ≡ some d) (sym here) before in
      elim (Bool-cases (same_attributes (some d) e)) [
        | inl kept ↦
            rw (found, kept)
              (rw (contains-removed_dirs (paths fresh) old q) (
                rw (contains-of-find_dir old q d ho, contains-of-find_dir fresh q e hn)
                  (ap some (same_attributes→eq d e (there ∙ sym here) kept))))
        | inr new ↦ rw (found, new)
      ]

  find_dir-apply_fresh :
      (delta : ManifestDelta) (q : List ℕ)
      → delta.dirs_upserted ≡ changed_dirs (previous_dirs old []) fresh
      → delta.dirs_removed ≡ removed_dirs (paths fresh) old
      → find_dir (apply_dirs delta old) q ≡ find_dir fresh q
  find_dir-apply_fresh delta q upserted removed =
      find_dir-apply_dirs delta old q one (
        subst (λ x. Distinct (paths x)) (sym upserted)
          (changed_dirs-Distinct (previous_dirs old []) fresh two))
      ∙ rw (upserted, removed)
          (rw (find_dir-changed_dirs (previous_dirs old []) fresh q two)
            (merge_dirs q (find_dir old q) (find_dir fresh q) refl refl))

-- A consumer that held the producer's tree and applies the delta of a rescan has, at every index, the
-- producer's file, and under every path the producer's directory. Paths occur once among the
-- directories before the rescan and among those that it found.
pub apply-IsFolded :
    (state folded : TreeState) (manifest held : MountManifest) (abs : List (List ℕ)) (scan : Scan)
    (delta : ManifestDelta)
    → TreeFits state
    → Distinct (paths state.dirs)
    → Distinct (paths manifest.dirs)
    → scan_files manifest.files abs (start state) ≡ ok scan
    → IsFolded state manifest scan folded delta
    → held.dirs ≡ state.dirs
    → held.files ≡ state.files
    → ((apply held delta).files ≡ folded.files)
      × ((q : List ℕ) → find_dir (apply held delta).dirs q ≡ find_dir folded.dirs q)
unfolding apply
apply-IsFolded state folded manifest held abs scan delta fit one two loop is dirs files = (
  rw (files, is.slots, is.gone)
      (sym (
        is.files
        ∙ tombstone_files-eq-remove_files (vanished 0 scan.files scan.live_slots) scan.files
        ∙ ap (remove_files (vanished 0 scan.files scan.live_slots)) (
            scan_files-place_files manifest.files abs (start state) scan state.files fit
              (unfold place_files in refl) loop))),
  λ q.
      rw (dirs, is.dirs)
        (find_dir-apply_fresh state.dirs manifest.dirs one two delta q is.upserted is.removed),
)
