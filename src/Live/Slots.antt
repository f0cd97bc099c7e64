-- ===== src/Live/Slots.antt =====
-- The slots of the live tree: an index is a READ address, and never changes meaning.
pub mod Stable
pub mod Startup
use mathlib.Core.Path.{subst}
use agent_share.Prelude.{
  ℕ, zero, suc, ◌+◌, ◌<◌, ◌≤◌, ◌≡◌, ◌≢◌, ◌⊎◌, inl, inr, refl, ap, sym, ◌∙◌, List, [], ◌∷◌, ◌++◌,
  arith, Bool, true, false, Option, none, some, Result, ok, err, panicked, length, length-append,
  length-set, get_elem?, get_elem?-set_self, get_elem?-set_ne, set, ltb, bytes_eq, bytes_eq→eq,
  bytes_eq_refl, if◌then◌else◌, Bool-cases, ==_iff, ◌==◌,
}
use agent_share.Prelude.Assoc.{get, insert, get-insert}
use agent_share.Manifest.{FileEntry, is_tombstone, tombstone}
use agent_share.Live.Rescan.{
  Scan, unchanged, reuse_slot, append_slot, scan_slot, scan_file, scan_files, tombstone_files,
}

-- The invariant of `files` and `index_of`: every assigned index is a slot, a live slot is the one
-- assigned to its path, and no two paths are assigned one slot.
pub record SlotsFit (files : List FileEntry) (index_of : List (List ℕ × ℕ)) : Type 0 where
  pub in_range : (p : List ℕ) (i : ℕ) → get index_of p ≡ some i → i < length files
  pub owner :
      (i : ℕ) (f : FileEntry)
      → get_elem? files i ≡ some f
      → is_tombstone f ≡ false
      → get index_of f.rel_path ≡ some i
  pub one_path : (p q : List ℕ) (i : ℕ) → get index_of p ≡ some i → get index_of q ≡ some i → p ≡ q

-- An assignment is never taken back.
pub record Keeps (before after : List (List ℕ × ℕ)) : Type 0 where
  pub kept : (p : List ℕ) (i : ℕ) → get before p ≡ some i → get after p ≡ some i

get_elem?-some-lt :
    {A : Type 0} (xs : List A) (i : ℕ) {a : A} → get_elem? xs i ≡ some a → i < length xs
get_elem?-some-lt [] i h = cc
get_elem?-some-lt (x ∷ xs) zero h = omega arith
get_elem?-some-lt (x ∷ xs) (suc i) h = omega (arith, get_elem?-some-lt xs i h)

get_elem?-append_last :
    {A : Type 0} (xs : List A) (a : A) (i : ℕ) {b : A}
    → get_elem? (xs ++ (a ∷ [])) i ≡ some b
    → (get_elem? xs i ≡ some b) ⊎ ((i ≡ length xs) × (a ≡ b))
get_elem?-append_last [] a zero h = inr (refl, cc)
get_elem?-append_last [] a (suc i) h = cc
get_elem?-append_last (x ∷ xs) a zero h = inl h
get_elem?-append_last (x ∷ xs) a (suc i) h = elim (get_elem?-append_last xs a i h) [
  | inl k ↦ inl k
  | inr (e, k) ↦ inr (ap suc e, k)
]

-- What `get_elem?` finds after a write.
get_elem?-set :
    {A : Type 0} (xs : List A) (i j : ℕ) (v : A) {b : A}
    → get_elem? (set xs i v) j ≡ some b
    → ((j ≡ i) × (v ≡ b)) ⊎ (get_elem? xs j ≡ some b)
get_elem?-set [] i j v h = inr h
get_elem?-set (x ∷ xs) zero zero v h = inl (refl, cc)
get_elem?-set (x ∷ xs) zero (suc j) v h = inr h
get_elem?-set (x ∷ xs) (suc i) zero v h = inr h
get_elem?-set (x ∷ xs) (suc i) (suc j) v h = elim (get_elem?-set xs i j v h) [
  | inl (e, k) ↦ inl (ap suc e, k)
  | inr k ↦ inr k
]

-- Writing the entry of the path that owns the slot.
set-SlotsFit :
    (files : List FileEntry) (index_of : List (List ℕ × ℕ)) (i : ℕ) (entry : FileEntry)
    → SlotsFit files index_of
    → get index_of entry.rel_path ≡ some i
    → SlotsFit (set files i entry) index_of
set-SlotsFit files index_of i entry fit own = record {
  in_range = λ p j h. omega (arith, fit.in_range p j h, length-set files i entry);
  owner = λ j f h live. elim (get_elem?-set files i j entry h) [
    | inl (e, k) ↦ subst (λ x. get index_of x.rel_path ≡ some j) k (own ∙ ap some (sym e))
    | inr k ↦ fit.owner j f k live
  ];
  one_path = fit.one_path;
}

tombstone-SlotsFit :
    (files : List FileEntry) (index_of : List (List ℕ × ℕ)) (i : ℕ)
    → SlotsFit files index_of
    → SlotsFit (set files i tombstone) index_of
tombstone-SlotsFit files index_of i fit = record {
  in_range = λ p j h. omega (arith, fit.in_range p j h, length-set files i tombstone);
  owner = λ j f h live. elim (get_elem?-set files i j tombstone h) [
    | inl (e, k) ↦ let gone : true ≡ false = subst (λ x. is_tombstone x ≡ false) (sym k) live in cc
    | inr k ↦ fit.owner j f k live
  ];
  one_path = fit.one_path;
}

append-SlotsFit :
    (files : List FileEntry) (index_of : List (List ℕ × ℕ)) (entry : FileEntry)
    → SlotsFit files index_of
    → get index_of entry.rel_path ≡ none
    → SlotsFit (files ++ (entry ∷ [])) (insert index_of entry.rel_path (length files))
      × Keeps index_of (insert index_of entry.rel_path (length files))
append-SlotsFit files index_of entry fit fresh = (
  record {
    in_range = λ p i h. elim (found p i h) [
      | inl (e, k) ↦ omega (arith, k, length-append files (entry ∷ []))
      | inr k ↦ omega (arith, fit.in_range p i k, length-append files (entry ∷ []))
    ];
    owner = λ i f h live. elim (get_elem?-append_last files entry i h) [
      | inl k ↦ old f.rel_path i (fit.owner i f k live)
      | inr (e, k) ↦
          subst (λ x. get (insert index_of entry.rel_path (length files)) x.rel_path ≡ some i) k
            (get-insert index_of entry.rel_path entry.rel_path (length files)
              ∙ rw (bytes_eq_refl entry.rel_path) (ap some (sym e)))
    ];
    one_path = λ p q i h k. elim (found p i h) [
      | inl (e, n) ↦ elim (found q i k) [
        | inl (e', n') ↦ sym e ∙ e'
        | inr k' ↦ absurd (omega (arith, n, fit.in_range q i k'))
      ]
      | inr h' ↦ elim (found q i k) [
        | inl (e', n') ↦ absurd (omega (arith, n', fit.in_range p i h'))
        | inr k' ↦ fit.one_path p q i h' k'
      ]
    ];
  },
  record { kept = old },
)
  where
    found :
        (p : List ℕ) (i : ℕ)
        → get (insert index_of entry.rel_path (length files)) p ≡ some i
        → ((entry.rel_path ≡ p) × (i ≡ length files)) ⊎ (get index_of p ≡ some i)
    found p i h = elim (Bool-cases (bytes_eq entry.rel_path p)) [
      | inl same ↦
          let k : some (length files) ≡ some i =
            sym (rw same at (get-insert index_of entry.rel_path p (length files))) ∙ h in
          inl (bytes_eq→eq entry.rel_path p same, cc)
      | inr other ↦
          inr (sym (rw other at (get-insert index_of entry.rel_path p (length files))) ∙ h)
    ]

    old :
        (p : List ℕ) (i : ℕ)
        → get index_of p ≡ some i
        → get (insert index_of entry.rel_path (length files)) p ≡ some i
    old p i h = elim (Bool-cases (bytes_eq entry.rel_path p)) [
      | inl same ↦
          let k : get index_of entry.rel_path ≡ some i =
            subst (λ x. get index_of x ≡ some i) (sym (bytes_eq→eq entry.rel_path p same)) h in
          cc
      | inr other ↦ get-insert index_of entry.rel_path p (length files) ∙ rw other h
    ]
