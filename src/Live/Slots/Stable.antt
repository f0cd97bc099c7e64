-- ===== src/Live/Slots/Stable.antt =====
-- Rescans keep the slots' invariant, and with it the meaning of every index.
use mathlib.Core.Path.{subst}
use agent_share.Prelude.{
  ℕ, ◌≡◌, refl, sym, ◌∙◌, List, [], ◌∷◌, Bool, true, false, Option, none, some, Result, ok, err,
  panicked, length, get_elem?, set, ◌++◌, ◌^◌, ltb, ltb→lt, ◌<◌, if◌then◌else◌,
}
use agent_share.Prelude.Assoc.{get, insert}
use agent_share.Manifest.{FileEntry, MountManifest, is_tombstone, tombstone}
use agent_share.Manifest.Delta.{ManifestDelta}
use agent_share.Authorship.{Scheme}
use agent_share.Live.{TreeState, LiveTree, Folded, remember, forget_history, apply}
use agent_share.Live.Rescan.{
  Scan, unchanged, reuse_slot, append_slot, scan_slot, scan_file, scan_files, tombstone_files,
  vanished,
}
use agent_share.Live.Steps.{
  start, IsFolded, SameTree, IsPublished, Applied, apply-eq-ok, as_delta, as_manifest, quiet,
  changed,
}
use agent_share.Live.Slots.{SlotsFit, Keeps, set-SlotsFit, tombstone-SlotsFit, append-SlotsFit}

Keeps-refl : (m : List (List ℕ × ℕ)) → Keeps m m
Keeps-refl m = record { kept = λ p i h. h }

Keeps-trans : {a b c : List (List ℕ × ℕ)} → Keeps a b → Keeps b c → Keeps a c
Keeps-trans h k = record { kept = λ p i e. k.kept p i (h.kept p i e) }

abbrev pub ScanFits : Scan → Type 0
ScanFits s = SlotsFit s.files s.index_of

-- One scanned file: it was unchanged, or it was written over its slot, or it took a fresh slot.
pub data Scanned (entry : FileEntry) (s s' : Scan) : Type 0 where
  same :
      s'.files ≡ s.files → s'.index_of ≡ s.index_of → s'.upserted ≡ s.upserted → Scanned entry s s'
  wrote :
      (index : ℕ)
      → get s.index_of entry.rel_path ≡ some index
      → s'.files ≡ set s.files index entry
      → s'.index_of ≡ s.index_of
      → s'.upserted ≡ s.upserted ++ ((index, entry) ∷ [])
      → Scanned entry s s'
  fresh :
      length s.files < 2 ^ 32
      → get s.index_of entry.rel_path ≡ none
      → s'.files ≡ s.files ++ (entry ∷ [])
      → s'.index_of ≡ insert s.index_of entry.rel_path (length s.files)
      → s'.upserted ≡ s.upserted ++ ((length s.files, entry) ∷ [])
      → Scanned entry s s'

reuse_slot-Scanned :
    (index : ℕ) (entry : FileEntry) (abs : List ℕ) (previous : Option FileEntry) (s s' : Scan)
    → get s.index_of entry.rel_path ≡ some index
    → reuse_slot index entry abs previous s ≡ ok s'
    → Scanned entry s s'
unfolding reuse_slot
reuse_slot-Scanned index entry abs none s s' own e = cc
reuse_slot-Scanned index entry abs (some previous) s s' own e =
    go (unchanged previous entry) (ltb index (length s.served)) e
  where
    changed : Scan
    changed = record s {
      served = set s.served index (some abs);
      files = set s.files index entry;
      live_slots = index ∷ s.live_slots;
      upserted = s.upserted ++ ((index, entry) ∷ []);
    }

    go :
        (b c : Bool)
        → (if b
            then ok (record s { live_slots = index ∷ s.live_slots })
            else if c
            then ok changed
            else err panicked)
          ≡ ok s'
        → Scanned entry s s'
    go true c k =
        let whole : record s { live_slots = index ∷ s.live_slots } ≡ s' = cc in
        subst (Scanned entry s) whole (same refl refl refl)
    go false true k =
        let whole : changed ≡ s' = cc in
        subst (Scanned entry s) whole (wrote index own refl refl refl)
    go false false k = cc

append_slot-Scanned :
    (entry : FileEntry) (abs : List ℕ) (s s' : Scan)
    → get s.index_of entry.rel_path ≡ none
    → append_slot entry abs s ≡ ok s'
    → Scanned entry s s'
unfolding append_slot
append_slot-Scanned entry abs s s' new e = go (ltb (length s.files) (2 ^ 32)) refl e
  where
    grown : Scan
    grown = record {
      files = s.files ++ (entry ∷ []);
      served = s.served ++ (some abs ∷ []);
      index_of = insert s.index_of entry.rel_path (length s.files);
      live_slots = length s.files ∷ s.live_slots;
      upserted = s.upserted ++ ((length s.files, entry) ∷ []);
    }

    go :
        (b : Bool)
        → ltb (length s.files) (2 ^ 32) ≡ b
        → (if b then ok grown else err panicked) ≡ ok s'
        → Scanned entry s s'
    go true room k =
        let whole : grown ≡ s' = cc in
        subst (Scanned entry s) whole (fresh (ltb→lt _ _ room) new refl refl refl)
    go false room k = cc

pub scan_file-Scanned :
    (entry : FileEntry) (abs : List ℕ) (s s' : Scan)
    → scan_file entry abs s ≡ ok s'
    → Scanned entry s s'
unfolding scan_file
scan_file-Scanned entry abs s s' e = go (get s.index_of entry.rel_path) refl e
  where
    go :
        (o : Option ℕ)
        → get s.index_of entry.rel_path ≡ o
        → scan_slot o entry abs s ≡ ok s'
        → Scanned entry s s'
    go none new k = append_slot-Scanned entry abs s s' new k
    go (some index) own k = reuse_slot-Scanned index entry abs (get_elem? s.files index) s s' own k

-- A loop that succeeded: the first file, and then the rest.
pub scan_files-cons :
    (entry : FileEntry) (files : List FileEntry) (abs : List ℕ) (paths : List (List ℕ)) (s t : Scan)
    → scan_files (entry ∷ files) (abs ∷ paths) s ≡ ok t
    → (s' : Scan) × Scanned entry s s' × (scan_files files paths s' ≡ ok t)
unfolding scan_files
scan_files-cons entry files abs paths s t e = go (scan_file entry abs s) refl e
  where
    go :
        (r : Result Scan)
        → scan_file entry abs s ≡ r
        → (elim r [ err x ↦ err x | ok s' ↦ scan_files files paths s' ]) ≡ ok t
        → (s' : Scan) × Scanned entry s s' × (scan_files files paths s' ≡ ok t)
    go (ok s') h k = (s', scan_file-Scanned entry abs s s' h, k)
    go (err x) h k = cc

pub Scanned-Fits :
    {entry : FileEntry} {s s' : Scan}
    → Scanned entry s s'
    → ScanFits s
    → ScanFits s' × Keeps s.index_of s'.index_of
Scanned-Fits {s = s} (same f m u) fit = rw (f, m) (fit, Keeps-refl s.index_of)
Scanned-Fits {entry} {s} (wrote i own f m u) fit =
    rw (f, m) (set-SlotsFit s.files s.index_of i entry fit own, Keeps-refl s.index_of)
Scanned-Fits {entry} {s} (fresh room new f m u) fit =
    rw (f, m) (append-SlotsFit s.files s.index_of entry fit new)

scan_files-Fits :
    (files : List FileEntry) (paths : List (List ℕ)) (s t : Scan)
    → ScanFits s
    → scan_files files paths s ≡ ok t
    → ScanFits t × Keeps s.index_of t.index_of
scan_files-Fits [] paths s t fit e =
    unfold scan_files in
    (let k : s ≡ t = cc in
      subst (λ x. ScanFits x × Keeps s.index_of x.index_of) k (fit, Keeps-refl s.index_of))
scan_files-Fits (entry ∷ files) [] s t fit e =
    unfold scan_files in
    (let k : s ≡ t = cc in
      subst (λ x. ScanFits x × Keeps s.index_of x.index_of) k (fit, Keeps-refl s.index_of))
scan_files-Fits (entry ∷ files) (abs ∷ paths) s t fit e =
    let (s', one, more) = scan_files-cons entry files abs paths s t e in
    let (fit', kept) = Scanned-Fits one fit in
    let (fit'', kept') = scan_files-Fits files paths s' t fit' more in
    (fit'', Keeps-trans kept kept')

tombstone_files-Fits :
    (gone : List ℕ) (files : List FileEntry) (m : List (List ℕ × ℕ))
    → SlotsFit files m
    → SlotsFit (tombstone_files gone files) m
unfolding tombstone_files
tombstone_files-Fits [] files m fit = fit
tombstone_files-Fits (i ∷ gone) files m fit =
    tombstone_files-Fits gone (set files i tombstone) m (tombstone-SlotsFit files m i fit)

abbrev pub TreeFits : TreeState → Type 0
TreeFits state = SlotsFit state.files state.index_of

SameTree-remember : (body : List ℕ) (a : TreeState) → SameTree a (remember body a)
unfolding remember
SameTree-remember body a = record { dirs = refl; files = refl; index_of = refl }

SameTree-forget_history : (a : TreeState) → SameTree a (forget_history a)
unfolding forget_history
SameTree-forget_history a = record { dirs = refl; files = refl; index_of = refl }

pub SameTree-trans : {a b c : TreeState} → SameTree a b → SameTree b c → SameTree a c
SameTree-trans h k = record {
  dirs = k.dirs ∙ h.dirs;
  files = k.files ∙ h.files;
  index_of = k.index_of ∙ h.index_of;
}

module _ (scheme : Scheme) where
  pub IsPublished-SameTree :
      {delta : ManifestDelta} {b c : TreeState} {frame : List ℕ}
      → IsPublished scheme delta b c frame
      → SameTree b c
  IsPublished-SameTree {b = b} (as_delta body since d s small state f) =
      subst (SameTree b) (sym state) (SameTree-remember body b)
  IsPublished-SameTree {b = b} (as_manifest state f) =
      subst (SameTree b) (sym state) (SameTree-forget_history b)

  -- Whether a frame goes out or not, the tree is the folded one.
  pub Applied-SameTree :
      {tree after : LiveTree scheme} {manifest : MountManifest} {scan : Scan}
      {sent : Option (List ℕ)}
      → Applied scheme tree manifest scan after sent
      → (folded : Folded scheme) × IsFolded tree.state manifest scan folded.state folded.delta
        × SameTree folded.state after.state
  Applied-SameTree (quiet folded is empty e) =
      (folded, is, rw e (record { dirs = refl; files = refl; index_of = refl }))
  Applied-SameTree (changed folded b c frame is some_change resealed how e) =
      (folded, is, rw e (SameTree-trans resealed.tree (IsPublished-SameTree how)))

  pub apply-Fits :
      (tree after : LiveTree scheme) (manifest : MountManifest) (paths : List (List ℕ))
      (sent : Option (List ℕ))
      → TreeFits tree.state
      → apply scheme tree manifest paths ≡ ok (after, sent)
      → TreeFits after.state × Keeps tree.state.index_of after.state.index_of
  apply-Fits tree after manifest paths sent fit e =
      let (scan, loop, how) = apply-eq-ok scheme tree after manifest paths sent e in
      let (fit', kept) = scan_files-Fits manifest.files paths (start tree.state) scan fit loop in
      let (folded, is, kept_tree) = Applied-SameTree how in
      let files = kept_tree.files ∙ is.files in
      let index_of = kept_tree.index_of ∙ is.index_of in
      (
        subst (λ x. SlotsFit x after.state.index_of) (sym files)
            (subst (SlotsFit _) (sym index_of) (
              tombstone_files-Fits (vanished 0 scan.files scan.live_slots) scan.files scan.index_of
                fit')),
        subst (Keeps tree.state.index_of) (sym index_of) kept,
      )

  -- Any number of rescans, each with what the disk shows at the time.
  pub data Rescans (tree : LiveTree scheme) : LiveTree scheme → Type 0 where
    here : Rescans tree tree
    next :
        {middle after : LiveTree scheme} (manifest : MountManifest) (paths : List (List ℕ))
        (sent : Option (List ℕ))
        → Rescans tree middle
        → apply scheme middle manifest paths ≡ ok (after, sent)
        → Rescans tree after

  pub Rescans-Fits :
      {tree after : LiveTree scheme}
      → TreeFits tree.state
      → Rescans tree after
      → TreeFits after.state × Keeps tree.state.index_of after.state.index_of
  Rescans-Fits {tree} fit here = (fit, Keeps-refl tree.state.index_of)
  Rescans-Fits {tree} fit (next {middle} {after} manifest paths sent r e) =
      let (fit', kept) = Rescans-Fits fit r in
      let (fit'', kept') = apply-Fits middle after manifest paths sent fit' e in
      (fit'', Keeps-trans kept kept')

  -- After any number of rescans, a slot that held a live file and holds a live file again holds the
  -- file of the same path: a READ index never comes to mean another file.
  pub index_never_changes_meaning :
      {tree after : LiveTree scheme} (i : ℕ) (f g : FileEntry)
      → TreeFits tree.state
      → Rescans tree after
      → get_elem? tree.state.files i ≡ some f
      → is_tombstone f ≡ false
      → get_elem? after.state.files i ≡ some g
      → is_tombstone g ≡ false
      → f.rel_path ≡ g.rel_path
  index_never_changes_meaning i f g fit r at_start live at_end live' =
      let (fit', kept) = Rescans-Fits fit r in
      fit'.one_path f.rel_path g.rel_path i (kept.kept f.rel_path i (fit.owner i f at_start live))
        (fit'.owner i g at_end live')

  -- A path that ever had a live file at a slot has that slot after any number of rescans, whatever
  -- was removed in between: a file that comes back reclaims its index.
  pub recreated_reclaims_index :
      {tree after : LiveTree scheme} (i j : ℕ) (f g : FileEntry)
      → TreeFits tree.state
      → Rescans tree after
      → get_elem? tree.state.files i ≡ some f
      → is_tombstone f ≡ false
      → get_elem? after.state.files j ≡ some g
      → is_tombstone g ≡ false
      → f.rel_path ≡ g.rel_path
      → i ≡ j
  recreated_reclaims_index i j f g fit r at_start live at_end live' back =
      let (fit', kept) = Rescans-Fits fit r in
      let first = kept.kept f.rel_path i (fit.owner i f at_start live) in
      let last = fit'.owner j g at_end live' in
      let both : some i ≡ some j = cc (first, last, back) in cc
