-- ===== src/Live/Sync/Order.antt =====
-- When the consumer's manifest is the producer's, byte for byte: the order of the directories.
use mathlib.Core.Path.{subst, ap₂}
use agent_share.Prelude.{
  ℕ, ◌≡◌, ◌↔◌, refl, ap, sym, ◌∙◌, List, [], ◌∷◌, ◌++◌, arith, false, none, ok, bytes_eq,
  bytes_eq→eq, bytes_eq_refl, Bool-cases, inl, inr,
}
use agent_share.Manifest.{DirEntry, MountManifest}
use agent_share.Manifest.Delta.{ManifestDelta}
use agent_share.Manifest.Apply.{contains, retain_dirs, apply, apply_dirs}
use agent_share.Manifest.Apply.Dirs.{
  Distinct, paths, find_dir, contains-find_dir, added, paths-apply_dirs,
}
use agent_share.Live.{TreeState}
use agent_share.Live.Rescan.{Scan, scan_files, previous_dirs, changed_dirs, removed_dirs}
use agent_share.Live.Steps.{start, IsFolded}
use agent_share.Live.Slots.Stable.{TreeFits}
use agent_share.Live.Sync.{apply-IsFolded}

dirs_of_paths :
    (xs ys : List DirEntry)
    → Distinct (paths xs)
    → paths xs ≡ paths ys
    → ((q : List ℕ) → find_dir xs q ≡ find_dir ys q)
    → xs ≡ ys
unfolding find_dir
dirs_of_paths [] [] d p h = refl
dirs_of_paths [] (y ∷ ys) d p h = cc
dirs_of_paths (x ∷ xs) [] d p h = cc
dirs_of_paths (x ∷ xs) (y ∷ ys) d p h =
    let head : x.rel_path ≡ y.rel_path = cc in
    let tail : paths xs ≡ paths ys = cc in
    let first : x ≡ y =
      ground (arith, h x.rel_path, bytes_eq_refl x.rel_path, bytes_eq_refl y.rel_path) in
    ap₂ (λ z zs. z ∷ zs) first (dirs_of_paths xs ys d.1 tail (λ q. rest q head tail))
  where
    rest :
        (q : List ℕ) → x.rel_path ≡ y.rel_path → paths xs ≡ paths ys → find_dir xs q ≡ find_dir ys q
    rest q head tail = elim (Bool-cases (bytes_eq x.rel_path q)) [
      | inl same ↦
          let at : x.rel_path ≡ q = bytes_eq→eq x.rel_path q same in
          let left : find_dir xs q ≡ none =
            subst (λ r. find_dir xs r ≡ none) at (contains-find_dir xs x.rel_path d.0) in
          let right : find_dir ys q ≡ none =
            subst (λ r. find_dir ys r ≡ none) at
              (contains-find_dir ys x.rel_path
                (subst (λ ps. contains ps x.rel_path ≡ false) tail d.0)) in
          left ∙ sym right
      | inr other ↦ ground (arith, h q)
    ]

-- The order in which a consumer of the delta between two listings ends up with the directories: those
-- it keeps, then the new ones.
abbrev pub consumer_order : List DirEntry → List DirEntry → List (List ℕ)
consumer_order old fresh =
    let kept = paths (retain_dirs (removed_dirs (paths fresh) old) old) in
    kept ++ added kept (changed_dirs (previous_dirs old []) fresh)

-- The delta of a rescan rebuilds the producer's manifest exactly if the rescan lists the kept
-- directories in their old order and the new ones after them. Paths occur once among the directories
-- before the rescan and among those that it found.
pub apply_exact :
    (state folded : TreeState) (manifest : MountManifest) (abs : List (List ℕ)) (scan : Scan)
    (delta : ManifestDelta)
    → TreeFits state
    → Distinct (paths state.dirs)
    → Distinct (paths manifest.dirs)
    → scan_files manifest.files abs (start state) ≡ ok scan
    → IsFolded state manifest scan folded delta
    → (apply (record { dirs = state.dirs; files = state.files }) delta
        ≡ record { dirs = folded.dirs; files = folded.files })
      ↔ (paths manifest.dirs ≡ consumer_order state.dirs manifest.dirs)
unfolding apply
apply_exact state folded manifest abs scan delta fit one two loop is =
    let held : MountManifest = record { dirs = state.dirs; files = state.files } in
    let (files, dirs) =
      apply-IsFolded state folded manifest held abs scan delta fit one two loop is refl refl in
    let order : paths (apply_dirs delta state.dirs) ≡ consumer_order state.dirs manifest.dirs =
      paths-apply_dirs delta state.dirs ∙ rw (is.upserted, is.removed) in
    (
      λ whole.
          let same : apply_dirs delta state.dirs ≡ folded.dirs =
            ap (λ (m : MountManifest). m.dirs) whole in
          sym (ap paths (same ∙ is.dirs)) ∙ order,
      λ listed.
          let same : folded.dirs ≡ apply_dirs delta state.dirs =
            dirs_of_paths folded.dirs (apply_dirs delta state.dirs)
              (subst (λ ds. Distinct (paths ds)) (sym is.dirs) two)
              (ap paths is.dirs ∙ listed ∙ sym order) (λ q. sym (dirs q)) in
          λ i. record { dirs = sym same i; files = files i },
    )
