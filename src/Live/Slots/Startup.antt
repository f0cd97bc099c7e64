-- ===== src/Live/Slots/Startup.antt =====
-- The tree that `authored` seeds has its slots in order.
use mathlib.Core.Path.{subst}
use mathlib.Core.List.{append-nil, append_assoc}
use agent_share.Prelude.{
  ℕ, ◌+◌, ◌≡◌, refl, sym, ◌∙◌, List, [], ◌∷◌, ◌++◌, map, arith, false, Option, none, ok, length,
  length-append, bytes_eq, bytes_eq→eq, bytes_eq_refl, Bool-cases, inl, inr, >>=-eq-ok,
}
use agent_share.Prelude.Assoc.{get, insert, get-insert}
use agent_share.Manifest
use agent_share.Manifest.{FileEntry, MountManifest}
use agent_share.Manifest.Apply.{contains}
use agent_share.Manifest.Apply.Dirs.{Distinct}
use agent_share.Authorship.{Scheme}
use agent_share.Live.{LiveTree, index_files, authored}
use agent_share.Live.Slots.{SlotsFit, append-SlotsFit}
use agent_share.Live.Slots.Stable.{TreeFits}

abbrev pub file_paths : List FileEntry → List (List ℕ)
file_paths = map (λ (f : FileEntry). f.rel_path)

abbrev Unassigned : List (List ℕ × ℕ) → List FileEntry → Type 0
Unassigned m [] = Unit {0}
Unassigned m (f ∷ fs) = (get m f.rel_path ≡ none) × Unassigned m fs

Unassigned-nil : (fs : List FileEntry) → Unassigned [] fs
unfolding get
Unassigned-nil [] = tt
Unassigned-nil (f ∷ fs) = (refl, Unassigned-nil fs)

Unassigned-insert :
    (m : List (List ℕ × ℕ)) (p : List ℕ) (i : ℕ) (fs : List FileEntry)
    → contains (file_paths fs) p ≡ false
    → Unassigned m fs
    → Unassigned (insert m p i) fs
unfolding contains
Unassigned-insert m p i [] h u = tt
Unassigned-insert m p i (f ∷ fs) h u = elim (Bool-cases (bytes_eq p f.rel_path)) [
  | inl same ↦ absurd (ground (arith, bytes_eq→eq p f.rel_path same, bytes_eq_refl p))
  | inr other ↦
      (get-insert m p f.rel_path i ∙ rw other u.0, Unassigned-insert m p i fs (ground arith) u.1)
]

index_files-Fits :
    (done fs : List FileEntry) (m : List (List ℕ × ℕ)) (n : ℕ)
    → n ≡ length done
    → SlotsFit done m
    → Distinct (file_paths fs)
    → Unassigned m fs
    → SlotsFit (done ++ fs) (index_files n fs m)
unfolding index_files
index_files-Fits done [] m n e fit d u = rw (append-nil done) fit
index_files-Fits done (f ∷ fs) m n e fit d u =
    let (fit', kept) = append-SlotsFit done m f fit u.0 in
    subst (λ x. SlotsFit x (index_files (n + 1) fs (insert m f.rel_path n)))
      (append_assoc done (f ∷ []) fs)
      (index_files-Fits (done ++ (f ∷ [])) fs (insert m f.rel_path n) (n + 1)
        (omega (arith, e, length-append done (f ∷ [])))
        (subst (λ k. SlotsFit (done ++ (f ∷ [])) (insert m f.rel_path k)) (sym e) fit') d.1
        (Unassigned-insert m f.rel_path n fs d.0 u.1))

nil-Fits : SlotsFit [] []
unfolding get
nil-Fits = record { in_range = λ p i h. cc; owner = λ i f h live. cc; one_path = λ p q i h k. cc }

pub index_files-SlotsFit :
    (files : List FileEntry) → Distinct (file_paths files) → SlotsFit files (index_files 0 files [])
index_files-SlotsFit files d = index_files-Fits [] files [] 0 refl nil-Fits d (Unassigned-nil files)

-- A tree seeded from a startup scan without a repeated path satisfies the slots' invariant.
pub authored-Fits :
    (scheme : Scheme) (manifest : MountManifest) (paths : List (List ℕ))
    (author : Option scheme.SecretKey) (tree : LiveTree scheme)
    → Distinct (file_paths manifest.files)
    → authored scheme manifest paths author ≡ ok tree
    → TreeFits tree.state
unfolding authored
authored-Fits scheme manifest paths author tree d e =
    let (encoded, wrote, made) = >>=-eq-ok (Manifest.encode manifest) _ e in
    let fit =
      index_files-Fits [] manifest.files [] 0 refl nil-Fits d (Unassigned-nil manifest.files) in
    let k : (tree.state.files ≡ manifest.files)
        × (tree.state.index_of ≡ index_files 0 manifest.files []) =
      ground arith in
    rw (k.0, k.1) fit
