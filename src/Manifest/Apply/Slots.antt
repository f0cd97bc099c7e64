-- ===== src/Manifest/Apply/Slots.antt =====
-- What `apply` does to the file slots, as a lookup by index.
use agent_share.Prelude.{
  ℕ, zero, suc, ◌+◌, ◌-◌, ◌<◌, ◌≤◌, ◌≡◌, ◌≢◌, refl, ap, sym, ◌∙◌, List, [], ◌∷◌, ◌++◌, Bool, true,
  false, ◌||◌, Option, none, some, length, length-append, length-replicate, set, get_elem?,
  get_elem?-set_self, get_elem?-set_ne, replicate, ltb, leb, ltb→lt, leb→le, ◌==◌, ==_iff,
  if◌then◌else◌, arith, Bool-cases, inl, inr,
}
use agent_share.Sorting.{mem}
use agent_share.Manifest.{FileEntry, MountManifest, tombstone}
use agent_share.Manifest.Delta.{ManifestDelta}
use agent_share.Manifest.Apply.{grow, place_files, remove_files, apply}
use agent_share.Manifest.Apply.Dirs.{or_else}

-- The last entry that the delta has for a slot.
abbrev pub upserted_at : List (ℕ × FileEntry) → ℕ → Option FileEntry
upserted_at [] i = none
upserted_at ((index, file) ∷ rest) i =
    or_else (upserted_at rest i) (if index == i then some file else none)

-- Whether the delta has an entry for a slot after this one.
abbrev pub reaches_over : List (ℕ × FileEntry) → ℕ → Bool
reaches_over [] i = false
reaches_over ((index, file) ∷ rest) i = ltb i index || reaches_over rest i

abbrev pub tombstone_if : Bool → Option FileEntry → Option FileEntry
tombstone_if gone none = none
tombstone_if gone (some file) = some (if gone then tombstone else file)

abbrev pub padding : Bool → Option FileEntry
padding over = if over then some tombstone else none

get_elem?-replicate : (n i : ℕ) → get_elem? (replicate n tombstone) i ≡ padding (ltb i n)
get_elem?-replicate zero i = ground arith
get_elem?-replicate (suc n) zero =
    let e : ltb zero (suc n) ≡ true = ground arith in ap padding (sym e)
get_elem?-replicate (suc n) (suc i) = get_elem?-replicate n i ∙ ap padding (ground arith)

get_elem?-padded :
    (files : List FileEntry) (n i : ℕ)
    → get_elem? (files ++ replicate n tombstone) i
      ≡ or_else (get_elem? files i) (padding (ltb i (length files + n)))
get_elem?-padded [] n i = get_elem?-replicate n i ∙ ap (λ k. padding (ltb i k)) (omega arith)
get_elem?-padded (f ∷ files) n zero = refl
get_elem?-padded (f ∷ files) n (suc i) =
    get_elem?-padded files n i ∙ ap (λ b. or_else (get_elem? files i) (padding b)) (ground arith)

or_else-in_range :
    (files : List FileEntry) (i : ℕ) (o : Option FileEntry)
    → i < length files
    → or_else (get_elem? files i) o ≡ get_elem? files i
or_else-in_range [] i o h = absurd (omega arith)
or_else-in_range (f ∷ files) zero o h = refl
or_else-in_range (f ∷ files) (suc i) o h = or_else-in_range files i o (omega arith)

or_else-none : (o : Option FileEntry) → or_else o none ≡ o
or_else-none none = refl
or_else-none (some f) = refl

get_elem?-grow :
    (index i : ℕ) (files : List FileEntry)
    → index ≢ i
    → get_elem? (grow index files) i ≡ or_else (get_elem? files i) (padding (ltb i index))
unfolding grow
get_elem?-grow index i files ne = elim (Bool-cases (leb (length files) index)) [
  | inl short ↦ rw short (
      get_elem?-padded files (index + 1 - length files) i
      ∙ ap (λ b. or_else (get_elem? files i) (padding b)) (within (leb→le _ _ short)))
  | inr long ↦
      let room : index < length files = ground arith in
      rw long (elim (Bool-cases (ltb i index)) [
        | inl e ↦ rw e (
            let before : i < index = ltb→lt i index e in
            sym (or_else-in_range files i (some tombstone) (omega arith)))
        | inr e ↦ rw e (sym (or_else-none (get_elem? files i)))
      ])
]
  where
    within : length files ≤ index → ltb i (length files + (index + 1 - length files)) ≡ ltb i index
    within h = ground arith

length-grow : (index : ℕ) (files : List FileEntry) → index < length (grow index files)
unfolding grow
length-grow index files = elim (Bool-cases (leb (length files) index)) [
  | inl short ↦
      let h : length files ≤ index = leb→le _ _ short in
      rw short (
        rw (length-append files (replicate (index + 1 - length files) tombstone))
          (rw (length-replicate (index + 1 - length files) tombstone) (omega arith)))
  | inr long ↦ let room : index < length files = ground arith in rw long room
]

get_elem?-placed :
    (index : ℕ) (file : FileEntry) (files : List FileEntry) (i : ℕ)
    → get_elem? (set (grow index files) index file) i
      ≡ or_else
          (if index == i then some file else none)
          (or_else (get_elem? files i) (padding (ltb i index)))
get_elem?-placed index file files i = elim (Bool-cases (index == i)) [
  | inl e ↦
      ap (get_elem? (set (grow index files) index file)) (sym ((==_iff index i).0 e))
      ∙ get_elem?-set_self (grow index files) index file (length-grow index files)
      ∙ rw e refl
  | inr e ↦
      let ne : index ≢ i = λ same. absurd (ground arith) in
      rw e (get_elem?-set_ne (grow index files) index i file ne ∙ get_elem?-grow index i files ne)
]

or_else_assoc : (a b c : Option FileEntry) → or_else (or_else a b) c ≡ or_else a (or_else b c)
or_else_assoc none b c = refl
or_else_assoc (some a) b c = refl

padding_or : (a b : Bool) → or_else (padding a) (padding b) ≡ padding (a || b)
padding_or true b = refl
padding_or false b = refl

get_elem?-place_files :
    (ups : List (ℕ × FileEntry)) (files : List FileEntry) (i : ℕ)
    → get_elem? (place_files ups files) i
      ≡ or_else (upserted_at ups i) (or_else (get_elem? files i) (padding (reaches_over ups i)))
unfolding place_files
get_elem?-place_files [] files i = sym (or_else-none (get_elem? files i))
get_elem?-place_files ((index, file) ∷ ups) files i =
    let late = upserted_at ups i in
    let here : Option FileEntry = if index == i then some file else none in
    let old = get_elem? files i in
    let p = padding (ltb i index) in
    let q = padding (reaches_over ups i) in
    get_elem?-place_files ups (set (grow index files) index file) i
    ∙ ap (λ x. or_else late (or_else x q)) (get_elem?-placed index file files i)
    ∙ ap (or_else late)
        (or_else_assoc here (or_else old p) q ∙ ap (or_else here) (or_else_assoc old p q))
    ∙ ap (λ x. or_else late (or_else here (or_else old x)))
        (padding_or (ltb i index) (reaches_over ups i))
    ∙ sym (or_else_assoc late here (or_else old (padding (ltb i index || reaches_over ups i))))

tombstone_if-twice :
    (a b : Bool) (o : Option FileEntry)
    → tombstone_if a (tombstone_if b o) ≡ tombstone_if (if b then true else a) o
tombstone_if-twice a b none = refl
tombstone_if-twice true true (some f) = refl
tombstone_if-twice false true (some f) = refl
tombstone_if-twice true false (some f) = refl
tombstone_if-twice false false (some f) = refl

kept : (o : Option FileEntry) → o ≡ tombstone_if false o
kept none = refl
kept (some g) = refl

get_elem?-tombstoned :
    (files : List FileEntry) (index i : ℕ)
    → get_elem? (set files index tombstone) i ≡ tombstone_if (index == i) (get_elem? files i)
get_elem?-tombstoned [] index i = refl
get_elem?-tombstoned (f ∷ files) zero zero =
    let e : (zero == zero) ≡ true = ground arith in ap (λ b. tombstone_if b (some f)) (sym e)
get_elem?-tombstoned (f ∷ files) zero (suc i) =
    let e : (zero == suc i) ≡ false = ground arith in
    kept (get_elem? files i) ∙ ap (λ b. tombstone_if b (get_elem? files i)) (sym e)
get_elem?-tombstoned (f ∷ files) (suc index) zero =
    let e : (suc index == zero) ≡ false = ground arith in ap (λ b. tombstone_if b (some f)) (sym e)
get_elem?-tombstoned (f ∷ files) (suc index) (suc i) =
    let e : (index == i) ≡ (suc index == suc i) = ground arith in
    get_elem?-tombstoned files index i ∙ ap (λ b. tombstone_if b (get_elem? files i)) e

get_elem?-remove_files :
    (gone : List ℕ) (files : List FileEntry) (i : ℕ)
    → get_elem? (remove_files gone files) i ≡ tombstone_if (mem i gone) (get_elem? files i)
unfolding remove_files
get_elem?-remove_files [] files i = kept (get_elem? files i)
get_elem?-remove_files (index ∷ gone) files i =
    get_elem?-remove_files gone (set files index tombstone) i
    ∙ ap (tombstone_if (mem i gone)) (get_elem?-tombstoned files index i)
    ∙ tombstone_if-twice (mem i gone) (index == i) (get_elem? files i)

-- After `apply`, a slot has the last entry that the delta upserts there; else the entry from before;
-- else, below an upserted slot, a tombstone as padding; and beyond these there is no slot. A slot that
-- the delta removes has a tombstone in place of any of these, and one that is not there is not made.
pub get_elem?-apply :
    (m : MountManifest) (delta : ManifestDelta) (i : ℕ)
    → get_elem? (apply m delta).files i
      ≡ tombstone_if (mem i delta.files_removed) (
          or_else
            (upserted_at delta.files_upserted i)
            (or_else (get_elem? m.files i) (padding (reaches_over delta.files_upserted i))))
unfolding apply
get_elem?-apply m delta i =
    get_elem?-remove_files delta.files_removed (place_files delta.files_upserted m.files) i
    ∙ ap (tombstone_if (mem i delta.files_removed))
        (get_elem?-place_files delta.files_upserted m.files i)
