-- ===== src/Manifest/Apply/Dirs.antt =====
-- What `apply` does to the directories, as a lookup by path.
use mathlib.Core.Path.{subst, ap₂}
use mathlib.Core.List.{append-nil, map-append}
use agent_share.Prelude.{
  ℕ, zero, suc, ◌+◌, ◌≡◌, ◌⊎◌, refl, ap, sym, ◌∙◌, List, [], ◌∷◌, ◌++◌, map, arith, true, false,
  Option, none, some, set, get_elem?, bytes_eq, bytes_eq→eq, bytes_eq_refl, if◌then◌else◌,
  Bool-cases, inl, inr,
}
use agent_share.Prelude.Assoc.{get, insert, get-insert}
use agent_share.Manifest.{DirEntry}
use agent_share.Manifest.Delta.{ManifestDelta}
use agent_share.Manifest.Apply.{
  contains, retain_dirs, index_dirs, Upserts, place, split_upserts, set_dirs, upsert_dirs,
  apply_dirs,
}

abbrev pub path_of : DirEntry → List ℕ
path_of d = d.rel_path

abbrev pub paths : List DirEntry → List (List ℕ)
paths = map path_of

abbrev pub Distinct : List (List ℕ) → Type 0
Distinct [] = Unit {0}
Distinct (p ∷ ps) = (contains ps p ≡ false) × Distinct ps

-- The entry that a consumer finds at a path.
unfoldable pub find_dir : List DirEntry → List ℕ → Option DirEntry
find_dir [] q = none
find_dir (d ∷ ds) q = if bytes_eq d.rel_path q then some d else find_dir ds q

abbrev pub or_else {ℓ} : {A : Type ℓ} → Option A → Option A → Option A
or_else none o = o
or_else (some a) o = some a

pub find_dir-append :
    (xs ys : List DirEntry) (q : List ℕ)
    → find_dir (xs ++ ys) q ≡ or_else (find_dir xs q) (find_dir ys q)
unfolding find_dir
find_dir-append [] ys q = refl
find_dir-append (x ∷ xs) ys q = ground (arith, find_dir-append xs ys q)

pub find_dir-retain_dirs :
    (removed : List (List ℕ)) (ds : List DirEntry) (q : List ℕ)
    → find_dir (retain_dirs removed ds) q ≡ (if contains removed q then none else find_dir ds q)
unfolding find_dir retain_dirs
find_dir-retain_dirs removed [] q = ground arith
find_dir-retain_dirs removed (d ∷ ds) q =
    ground (arith, find_dir-retain_dirs removed ds q, bytes_eq→eq d.rel_path q)

pub contains-find_dir :
    (ds : List DirEntry) (q : List ℕ) → contains (paths ds) q ≡ false → find_dir ds q ≡ none
unfolding contains find_dir
contains-find_dir [] q h = refl
contains-find_dir (d ∷ ds) q h = ground (arith, contains-find_dir ds q)

pub find_dir-path :
    (ds : List DirEntry) (q : List ℕ) {d : DirEntry} → find_dir ds q ≡ some d → d.rel_path ≡ q
unfolding find_dir
find_dir-path [] q h = cc
find_dir-path (d ∷ ds) q {d = e} h =
    ground (arith, bytes_eq→eq d.rel_path q, find_dir-path ds q {d = e})

-- The index is right for a list of paths: a position holds its path, and a path without one is absent.
record IsIndex (at : List (List ℕ × ℕ)) (ps : List (List ℕ)) : Type 0 where
  hit : (q : List ℕ) (p : ℕ) → get at q ≡ some p → get_elem? ps p ≡ some q
  miss : (q : List ℕ) → get at q ≡ none → contains ps q ≡ false

index_dirs-hit :
    (n : ℕ) (ds : List DirEntry) (at : List (List ℕ × ℕ)) (q : List ℕ) (p : ℕ)
    → get (index_dirs n ds at) q ≡ some p
    → (get at q ≡ some p) ⊎ ((i : ℕ) × (p ≡ n + i) × (get_elem? (paths ds) i ≡ some q))
unfolding index_dirs
index_dirs-hit n [] at q p h = inl h
index_dirs-hit n (d ∷ ds) at q p h =
    elim (index_dirs-hit (n + 1) ds (insert at d.rel_path n) q p h) [
      | inr (i, e, f) ↦ inr (suc i, omega arith, f)
      | inl k ↦ elim (Bool-cases (bytes_eq d.rel_path q)) [
        | inl same ↦
            let one : some n ≡ some p = sym (rw same at (get-insert at d.rel_path q n)) ∙ k in
            inr (0, ground arith, ap some (bytes_eq→eq d.rel_path q same))
        | inr other ↦ inl (sym (rw other at (get-insert at d.rel_path q n)) ∙ k)
      ]
    ]

index_dirs-miss :
    (n : ℕ) (ds : List DirEntry) (at : List (List ℕ × ℕ)) (q : List ℕ)
    → get (index_dirs n ds at) q ≡ none
    → (get at q ≡ none) × (contains (paths ds) q ≡ false)
unfolding index_dirs contains
index_dirs-miss n [] at q h = (h, refl)
index_dirs-miss n (d ∷ ds) at q h =
    let k = index_dirs-miss (n + 1) ds (insert at d.rel_path n) q h in
    ground (arith, k, get-insert at d.rel_path q n)

index_dirs-IsIndex : (ds : List DirEntry) → IsIndex (index_dirs 0 ds []) (paths ds)
index_dirs-IsIndex ds = record {
  hit = λ q p h. elim (index_dirs-hit 0 ds [] q p h) [
    | inl k ↦ unfold get in cc
    | inr (i, e, f) ↦ let same : p ≡ i = omega arith in rw same f
  ];
  miss = λ q h. (index_dirs-miss 0 ds [] q h).1;
}

-- Writing an entry over one with its path leaves the list of paths alone.
paths-set :
    (ds : List DirEntry) (p : ℕ) (e : DirEntry)
    → get_elem? (paths ds) p ≡ some e.rel_path
    → paths (set ds p e) ≡ paths ds
paths-set [] p e h = refl
paths-set (d ∷ ds) zero e h = ground arith
paths-set (d ∷ ds) (suc p) e h = ap (λ x. d.rel_path ∷ x) (paths-set ds p e h)

contains-get_elem? :
    (ps : List (List ℕ)) (p : ℕ) (q : List ℕ) → get_elem? ps p ≡ some q → contains ps q ≡ true
unfolding contains
contains-get_elem? [] p q h = cc
contains-get_elem? (x ∷ ps) zero q h = let same : x ≡ q = cc in rw same (rw (bytes_eq_refl q))
contains-get_elem? (x ∷ ps) (suc p) q h = ground (arith, contains-get_elem? ps p q h)

find_dir-set :
    (ds : List DirEntry) (p : ℕ) (e : DirEntry) (q : List ℕ)
    → Distinct (paths ds)
    → get_elem? (paths ds) p ≡ some e.rel_path
    → find_dir (set ds p e) q ≡ (if bytes_eq e.rel_path q then some e else find_dir ds q)
unfolding find_dir
find_dir-set [] p e q u h = cc
find_dir-set (d ∷ ds) zero e q u h =
    let same : d.rel_path ≡ e.rel_path = cc in rw same (ground arith)
find_dir-set (d ∷ ds) (suc p) e q u h = ground (
  arith,
  find_dir-set ds p e q u.1 h,
  contains-get_elem? (paths ds) p e.rel_path h,
  bytes_eq→eq d.rel_path q,
  bytes_eq→eq e.rel_path q,
)

shadow :
    (ups : List DirEntry) (u : DirEntry) (q : List ℕ) (o : Option DirEntry)
    → find_dir ups u.rel_path ≡ none
    → or_else (find_dir ups q) (if bytes_eq u.rel_path q then some u else o)
      ≡ or_else (find_dir (u ∷ ups) q) o
unfolding find_dir
shadow ups u q o absent = elim (Bool-cases (bytes_eq u.rel_path q)) [
  | inl same ↦ rw same (rw (← bytes_eq→eq u.rel_path q same) (rw absent))
  | inr other ↦ rw other
]

append_upsert :
    (xs ys : List DirEntry) (u : DirEntry) (q : List ℕ) (o : Option DirEntry)
    → find_dir xs u.rel_path ≡ none
    → find_dir (xs ++ ys) q ≡ o
    → find_dir (xs ++ (u ∷ ys)) q ≡ (if bytes_eq u.rel_path q then some u else o)
append_upsert xs ys u q o absent h = elim (Bool-cases (bytes_eq u.rel_path q)) [
  | inl same ↦
      let none_here : find_dir xs q ≡ none = rw (← bytes_eq→eq u.rel_path q same) absent in
      find_dir-append xs (u ∷ ys) q ∙ rw none_here (unfold find_dir in rw same)
  | inr other ↦
      find_dir-append xs (u ∷ ys) q
      ∙ rw other (sym (find_dir-append xs ys q ∙ unfold find_dir in rw other) ∙ h)
]

-- One upsert more: the position is known, or the entry is appended.
module _ (at : List (List ℕ × ℕ)) where
  abbrev outcome : List DirEntry → List DirEntry → List DirEntry
  outcome ups ds = let u = split_upserts at ups in set_dirs u.updates ds ++ u.appended

  paths-set_dirs :
      (ups ds : List DirEntry)
      → IsIndex at (paths ds)
      → paths (set_dirs (split_upserts at ups).updates ds) ≡ paths ds
  unfolding split_upserts set_dirs
  paths-set_dirs [] ds ix = refl
  paths-set_dirs (u ∷ ups) ds ix =
      go (get at u.rel_path) refl
        (λ p e.
          paths-set_dirs ups (set ds p u)
            (subst (IsIndex at) (sym (paths-set ds p u (ix.hit u.rel_path p e))) ix))
        (paths-set_dirs ups ds ix)
    where
      go :
          (o : Option ℕ)
          → get at u.rel_path ≡ o
          → ((p : ℕ)
              → get at u.rel_path ≡ some p
              → paths (set_dirs (split_upserts at ups).updates (set ds p u)) ≡ paths (set ds p u))
          → paths (set_dirs (split_upserts at ups).updates ds) ≡ paths ds
          → paths (set_dirs (place o u (split_upserts at ups)).updates ds) ≡ paths ds
      go none e hit miss = miss
      go (some p) e hit miss = hit p e ∙ paths-set ds p u (ix.hit u.rel_path p e)

  find_dir-outcome :
      (ups ds : List DirEntry) (q : List ℕ)
      → IsIndex at (paths ds)
      → Distinct (paths ds)
      → Distinct (paths ups)
      → find_dir (outcome ups ds) q ≡ or_else (find_dir ups q) (find_dir ds q)
  unfolding split_upserts set_dirs
  find_dir-outcome [] ds q ix one two = find_dir-append ds [] q ∙ unfold find_dir in ground arith
  find_dir-outcome (u ∷ ups) ds q ix one two =
      go (get at u.rel_path) refl
        (λ p e.
          let same = paths-set ds p u (ix.hit u.rel_path p e) in
          find_dir-outcome ups (set ds p u) q (subst (IsIndex at) (sym same) ix)
            (subst Distinct (sym same) one) two.1)
        (find_dir-outcome ups ds q ix one two.1)
    where
      rest : Upserts
      rest = split_upserts at ups

      go :
          (o : Option ℕ)
          → get at u.rel_path ≡ o
          → ((p : ℕ)
              → get at u.rel_path ≡ some p
              → find_dir (outcome ups (set ds p u)) q
                ≡ or_else (find_dir ups q) (find_dir (set ds p u) q))
          → find_dir (outcome ups ds) q ≡ or_else (find_dir ups q) (find_dir ds q)
          → find_dir (set_dirs (place o u rest).updates ds ++ (place o u rest).appended) q
            ≡ or_else (find_dir (u ∷ ups) q) (find_dir ds q)
      go none e hit miss =
          let absent : contains (paths (set_dirs rest.updates ds)) u.rel_path ≡ false =
            rw (paths-set_dirs ups ds ix) (ix.miss u.rel_path e) in
          append_upsert (set_dirs rest.updates ds) rest.appended u q _
            (contains-find_dir _ u.rel_path absent) miss
          ∙ (unfold find_dir in ground arith)
      go (some p) e hit miss =
          hit p e
          ∙ ap (or_else (find_dir ups q)) (find_dir-set ds p u q one (ix.hit u.rel_path p e))
          ∙ shadow ups u q (find_dir ds q) (contains-find_dir ups u.rel_path two.0)

contains-retain_dirs :
    (removed : List (List ℕ)) (ds : List DirEntry) (q : List ℕ)
    → contains (paths ds) q ≡ false
    → contains (paths (retain_dirs removed ds)) q ≡ false
unfolding contains retain_dirs
contains-retain_dirs removed [] q h = h
contains-retain_dirs removed (d ∷ ds) q h = ground (arith, contains-retain_dirs removed ds q)

pub retain_dirs-Distinct :
    (removed : List (List ℕ)) (ds : List DirEntry)
    → Distinct (paths ds)
    → Distinct (paths (retain_dirs removed ds))
unfolding retain_dirs
retain_dirs-Distinct removed [] h = tt
retain_dirs-Distinct removed (d ∷ ds) h = elim (Bool-cases (contains removed d.rel_path)) [
  | inl gone ↦ rw gone (retain_dirs-Distinct removed ds h.1)
  | inr kept ↦
      rw kept (contains-retain_dirs removed ds d.rel_path h.0, retain_dirs-Distinct removed ds h.1)
]

pub retain_dirs-nil : (ds : List DirEntry) → retain_dirs [] ds ≡ ds
unfolding retain_dirs contains
retain_dirs-nil [] = refl
retain_dirs-nil (d ∷ ds) = ap (λ x. d ∷ x) (retain_dirs-nil ds)

pub upsert_dirs-nil : (ds : List DirEntry) → upsert_dirs [] ds ≡ ds
unfolding upsert_dirs
upsert_dirs-nil ds = append-nil ds

-- The two `is_empty` tests of `apply` only save work.
pub apply_dirs_lem :
    (delta : ManifestDelta) (ds : List DirEntry)
    → apply_dirs delta ds ≡ upsert_dirs delta.dirs_upserted (retain_dirs delta.dirs_removed ds)
apply_dirs_lem delta ds = go delta.dirs_removed delta.dirs_upserted delta refl refl
  where
    go :
        (removed : List (List ℕ)) (upserted : List DirEntry) (delta' : ManifestDelta)
        → delta'.dirs_removed ≡ removed
        → delta'.dirs_upserted ≡ upserted
        → apply_dirs delta' ds ≡ upsert_dirs upserted (retain_dirs removed ds)
    go [] [] d' e f = unfold apply_dirs in rw (e, f) (sym (upsert_dirs-nil _ ∙ retain_dirs-nil ds))
    go [] (u ∷ us) d' e f =
        unfold apply_dirs in rw (e, f) (ap (upsert_dirs (u ∷ us)) (sym (retain_dirs-nil ds)))
    go (r ∷ rs) [] d' e f = unfold apply_dirs in rw (e, f) (sym (upsert_dirs-nil _))
    go (r ∷ rs) (u ∷ us) d' e f = unfold apply_dirs in rw (e, f)

-- After `apply`, a path has the entry that the delta upserts there; else none if the delta removes
-- the path; else the entry from before. Paths occur once among the old directories and among the
-- upserted ones.
pub find_dir-apply_dirs :
    (delta : ManifestDelta) (ds : List DirEntry) (q : List ℕ)
    → Distinct (paths ds)
    → Distinct (paths delta.dirs_upserted)
    → find_dir (apply_dirs delta ds) q
      ≡ or_else
          (find_dir delta.dirs_upserted q)
          (if contains delta.dirs_removed q then none else find_dir ds q)
find_dir-apply_dirs delta ds q one two =
    let kept = retain_dirs delta.dirs_removed ds in
    ap (λ x. find_dir x q) (apply_dirs_lem delta ds)
    ∙ unfold upsert_dirs in
      find_dir-outcome (index_dirs 0 kept []) delta.dirs_upserted kept q (index_dirs-IsIndex kept)
        (retain_dirs-Distinct delta.dirs_removed ds one) two
      ∙ ap (or_else (find_dir delta.dirs_upserted q)) (find_dir-retain_dirs delta.dirs_removed ds q)

-- The upserted paths that are not there yet, in the delta's order.
unfoldable pub added : List (List ℕ) → List DirEntry → List (List ℕ)
added ps [] = []
added ps (u ∷ us) = if contains ps u.rel_path then added ps us else u.rel_path ∷ added ps us

paths-appended :
    (at : List (List ℕ × ℕ)) (ps : List (List ℕ)) (ups : List DirEntry)
    → IsIndex at ps
    → paths (split_upserts at ups).appended ≡ added ps ups
unfolding split_upserts added
paths-appended at ps [] ix = refl
paths-appended at ps (u ∷ ups) ix = go (get at u.rel_path) refl (paths-appended at ps ups ix)
  where
    go :
        (o : Option ℕ)
        → get at u.rel_path ≡ o
        → paths (split_upserts at ups).appended ≡ added ps ups
        → paths (place o u (split_upserts at ups)).appended
          ≡ (if contains ps u.rel_path then added ps ups else u.rel_path ∷ added ps ups)
    go none e ih = rw (ix.miss u.rel_path e) (ap (λ x. u.rel_path ∷ x) ih)
    go (some p) e ih = rw (contains-get_elem? ps p u.rel_path (ix.hit u.rel_path p e)) ih

-- The order that `apply` leaves: the kept directories as they were, and then the new ones.
pub paths-apply_dirs :
    (delta : ManifestDelta) (ds : List DirEntry)
    → paths (apply_dirs delta ds)
      ≡ paths (retain_dirs delta.dirs_removed ds)
        ++ added (paths (retain_dirs delta.dirs_removed ds)) delta.dirs_upserted
paths-apply_dirs delta ds =
    let kept = retain_dirs delta.dirs_removed ds in
    let at = index_dirs 0 kept [] in
    let u = split_upserts at delta.dirs_upserted in
    ap paths (apply_dirs_lem delta ds)
    ∙ unfold upsert_dirs in
      map-append path_of (set_dirs u.updates kept) u.appended
      ∙ ap₂ (λ x y. x ++ y) (paths-set_dirs at delta.dirs_upserted kept (index_dirs-IsIndex kept))
          (paths-appended at (paths kept) delta.dirs_upserted (index_dirs-IsIndex kept))
