-- ===== src/Live/Serving.antt =====
-- `LiveTree::serving` of crates/agent-share/src/mount/live.rs: the slots that a tree has a path for, as
-- the field of its peer card. The field counts live slots, and its readers count all slots.
use agent_share.Prelude.{
  ℕ, zero, suc, ◌+◌, ◌^◌, ◌<◌, ◌≤◌, ◌≡◌, ◌≢◌, refl, ap, sym, ◌∙◌, List, [], ◌∷◌, map, true, false,
  Option, none, some, ok, arith, length, get_elem?, ltb, ◌==◌, All, length-map, >>=-eq-ok,
  if◌then◌else◌, Bool-cases, inl, inr,
}
use mathlib.Core.Path.{subst}
use agent_share.Sorting.{
  mem, mem-IsFrom, sort, dedup, IsFrom, IsFrom-weaken, sort-IsFrom, dedup-IsFrom,
}
use agent_share.Wire.Words.{IsU32}
use agent_share.Manifest
use agent_share.Manifest.{FileEntry, MountManifest, is_tombstone}
use agent_share.Authorship
use agent_share.Authorship.{Scheme, SignedManifest}
use agent_share.Serving.{encode_serving, decode_serving}
use agent_share.Serving.Published.{runs}
use agent_share.Serving.RoundTrip.{decode-encode_forms, scattered_read_back}
use agent_share.Live.{TreeState, LiveTree, path_of}
use agent_share.Live.Mirror.{
  count_live, count_served, copy_of, mirror_of, mirrored, copy_of-whole,
  mirrored_serves_whole_files,
}

-- `enumerate` and `filter_map`, from a slot on.
unfoldable pub held_from : ℕ → List (Option (List ℕ)) → List ℕ
held_from slot [] = []
held_from slot (none ∷ served) = held_from (slot + 1) served
held_from slot (some path ∷ served) =
    let rest = held_from (slot + 1) served in if ltb slot (2 ^ 32) then slot ∷ rest else rest

unfoldable pub serving : TreeState → Option (List ℕ)
unfolding held_from count_live
serving state = encode_serving (held_from 0 state.served) (count_live state.files)

-- A path only at a live slot, and a place for every slot.
abbrev pub Backed : List FileEntry → List (Option (List ℕ)) → Type 0
Backed [] [] = Unit {0}
Backed [] (slot ∷ served) = ⊥
Backed (f ∷ files) [] = ⊥
Backed (f ∷ files) (none ∷ served) = Backed files served
Backed (f ∷ files) (some path ∷ served) = (is_tombstone f ≡ false) × Backed files served

count_served-le :
    (files : List FileEntry) (served : List (Option (List ℕ)))
    → Backed files served
    → count_served served ≤ count_live files
unfolding count_served count_live
count_served-le [] [] h = omega arith
count_served-le [] (slot ∷ served) h = elim h [ ]
count_served-le (f ∷ files) [] h = elim h [ ]
count_served-le (f ∷ files) (none ∷ served) h = ground (arith, count_served-le files served h)
count_served-le (f ∷ files) (some path ∷ served) h =
    rw h.0 (omega (arith, count_served-le files served h.1))

-- Where as many slots have a path as are live, every live slot has one.
all_live :
    (files : List FileEntry) (served : List (Option (List ℕ))) (i : ℕ) (f : FileEntry)
    → Backed files served
    → count_served served ≡ count_live files
    → get_elem? files i ≡ some f
    → is_tombstone f ≡ false
    → (p : List ℕ) × (get_elem? served i ≡ some (some p))
unfolding count_served count_live
all_live [] served i f h e at live = cc
all_live (g ∷ files) [] i f h e at live = elim h [ ]
all_live (g ∷ files) (some path ∷ served) zero f h e at live = (path, refl)
all_live (g ∷ files) (some path ∷ served) (suc i) f h e at live =
    all_live files served i f h.1 (ground (arith, h.0)) at live
all_live (g ∷ files) (none ∷ served) zero f h e at live =
    let same : g ≡ f = cc in
    let here : is_tombstone g ≡ false = rw same live in
    absurd (ground (arith, count_served-le files served h))
all_live (g ∷ files) (none ∷ served) (suc i) f h e at live = elim (Bool-cases (is_tombstone g)) [
  | inl dead ↦ all_live files served i f h (rw dead at e) at live
  | inr alive ↦ absurd (ground (arith, count_served-le files served h))
]

held_from-IsFrom :
    (slot : ℕ) (served : List (Option (List ℕ))) → IsFrom slot (held_from slot served)
unfolding held_from
held_from-IsFrom slot [] = tt
held_from-IsFrom slot (none ∷ served) =
    IsFrom-weaken slot (slot + 1) (held_from (slot + 1) served) (omega arith)
      (held_from-IsFrom (slot + 1) served)
held_from-IsFrom slot (some path ∷ served) = elim (Bool-cases (ltb slot (2 ^ 32))) [
  | inl fits ↦ rw fits (omega arith, held_from-IsFrom (slot + 1) served)
  | inr large ↦ rw large (
      IsFrom-weaken slot (slot + 1) (held_from (slot + 1) served) (omega arith)
        (held_from-IsFrom (slot + 1) served))
]

held_from-IsU32 : (slot : ℕ) (served : List (Option (List ℕ))) → All IsU32 (held_from slot served)
unfolding held_from
held_from-IsU32 slot [] = tt
held_from-IsU32 slot (none ∷ served) = held_from-IsU32 (slot + 1) served
held_from-IsU32 slot (some path ∷ served) = elim (Bool-cases (ltb slot (2 ^ 32))) [
  | inl fits ↦ rw fits (ground arith, held_from-IsU32 (slot + 1) served)
  | inr large ↦ rw large (held_from-IsU32 (slot + 1) served)
]

length-held_from :
    (slot : ℕ) (served : List (Option (List ℕ)))
    → slot + length served ≤ 2 ^ 32
    → length (held_from slot served) ≡ count_served served
unfolding held_from count_served
length-held_from slot [] h = refl
length-held_from slot (none ∷ served) h = length-held_from (slot + 1) served (omega arith)
length-held_from slot (some path ∷ served) h =
    let fits : ltb slot (2 ^ 32) ≡ true = ground arith in
    rw fits (omega (arith, length-held_from (slot + 1) served (omega arith)))

mem-held_from :
    (slot i : ℕ) (served : List (Option (List ℕ)))
    → mem (slot + i) (held_from slot served) ≡ true
    → (p : List ℕ) × (get_elem? served i ≡ some (some p))
unfolding held_from
mem-held_from slot i [] m = cc
mem-held_from slot zero (some path ∷ served) m = (path, refl)
mem-held_from slot (suc i) (some path ∷ served) m =
    let next : slot + suc i ≡ slot + 1 + i = omega arith in
    let other : (slot == slot + 1 + i) ≡ false = ground arith in
    let m' : mem (slot + 1 + i) (held_from slot (some path ∷ served)) ≡ true =
      ap (λ k. mem k (held_from slot (some path ∷ served))) (sym next) ∙ m in
    elim (Bool-cases (ltb slot (2 ^ 32))) [
      | inl fits ↦ mem-held_from (slot + 1) i served (rw other at (rw fits at m'))
      | inr large ↦ mem-held_from (slot + 1) i served (rw large at m')
    ]
mem-held_from slot zero (none ∷ served) m =
    let gone : mem (slot + 0) (held_from (slot + 1) served) ≡ false =
      mem-IsFrom (slot + 1) (slot + 0) (held_from (slot + 1) served)
        (held_from-IsFrom (slot + 1) served) (omega arith) in
    absurd (ground arith)
mem-held_from slot (suc i) (none ∷ served) m =
    let next : slot + suc i ≡ slot + 1 + i = omega arith in
    mem-held_from (slot + 1) i served (ap (λ k. mem k (held_from (slot + 1) served)) (sym next) ∙ m)

held-ascending :
    (served : List (Option (List ℕ))) → dedup (sort (held_from 0 served)) ≡ held_from 0 served
held-ascending served =
    ap dedup (sort-IsFrom 0 (held_from 0 served) (held_from-IsFrom 0 served))
    ∙ dedup-IsFrom 0 (held_from 0 served) (held_from-IsFrom 0 served)

-- A live slot that the field lists, for a reader that counts all slots, has a path.
serving_sound :
    (state : TreeState) (text : List ℕ) (i : ℕ) (f : FileEntry)
    → Backed state.files state.served
    → length state.files < 2 ^ 32
    → length state.served ≤ 2 ^ 32
    → serving state ≡ some text
    → get_elem? state.files i ≡ some f
    → is_tombstone f ≡ false
    → mem i (decode_serving text (length state.files)) ≡ true
    → (p : List ℕ) × (get_elem? state.served i ≡ some (some p))
unfolding serving
serving_sound state text i f backed small room made at live listed =
    let held = held_from 0 state.served in
    let start : 0 + i ≡ i = omega arith in
    let found : mem i held ≡ true → (p : List ℕ) × (get_elem? state.served i ≡ some (some p)) =
      λ m. mem-held_from 0 i state.served (ap (λ k. mem k held) start ∙ m) in
    elim (decode-encode_forms held text (count_live state.files) (length state.files)
      (held_from-IsU32 0 state.served) small made).1 [
        | inl (count, member) ↦
            all_live state.files state.served i f backed
              (sym (length-held_from 0 state.served (omega arith))
                ∙ ap length (sym (held-ascending state.served))
                ∙ count)
              at live
        | inr other ↦ elim other [
          | inl member ↦
              found (ap (mem i) (sym (held-ascending state.served)) ∙ sym (member i) ∙ listed)
          | inr member ↦ found (ground (arith, ap (mem i) (held-ascending state.served), member i))
        ]
      ]

module _ (scheme : Scheme) (metadata : List ℕ → Option ℕ) (root : List ℕ) where
  mirror-Backed : (files : List FileEntry) → Backed files (map (copy_of metadata root) files)
  mirror-Backed [] = tt
  mirror-Backed (f ∷ files) = slot (copy_of metadata root f) refl (mirror-Backed files)
    where
      slot :
          (o : Option (List ℕ))
          → copy_of metadata root f ≡ o
          → Backed files (map (copy_of metadata root) files)
          → Backed (f ∷ files) (o ∷ map (copy_of metadata root) files)
      slot none e rest = rest
      slot (some p) e rest = ((copy_of-whole scheme metadata root f p e).0, rest)

  mirrored-Backed :
      (envelope : List ℕ) (tree : LiveTree scheme)
      → mirrored metadata root scheme envelope ≡ ok tree
      → Backed tree.state.files tree.state.served
        × (length tree.state.served ≡ length tree.state.files)
  unfolding mirrored
  mirrored-Backed envelope tree h =
      let (origin, e1, h1) = >>=-eq-ok (Authorship.decode envelope) _ h in
      let (manifest, e2, h2) = >>=-eq-ok (Manifest.decode origin.manifest) _ h1 in
      let same : mirror_of metadata root scheme envelope origin manifest ≡ tree = cc in
      subst
        (λ (t : LiveTree scheme).
          Backed t.state.files t.state.served × (length t.state.served ≡ length t.state.files))
        same (mirror-Backed manifest.files, length-map (copy_of metadata root) manifest.files)

  -- A live slot that a reader takes from a mirror's field, counting all slots of the manifest, is one
  -- that the mirror has a path for, and the copy there has the size that the origin published.
  pub mirrored_advertises_what_it_serves :
      (envelope text : List ℕ) (tree : LiveTree scheme) (i : ℕ) (f : FileEntry)
      → mirrored metadata root scheme envelope ≡ ok tree
      → length tree.state.files < 2 ^ 32
      → serving tree.state ≡ some text
      → get_elem? tree.state.files i ≡ some f
      → is_tombstone f ≡ false
      → mem i (decode_serving text (length tree.state.files)) ≡ true
      → (p : List ℕ) × (path_of tree.state i ≡ some p) × (metadata p ≡ some f.size)
  unfolding path_of
  mirrored_advertises_what_it_serves envelope text tree i f h small made at live listed =
      let (backed, count) = mirrored-Backed envelope tree h in
      let (p, slot) =
        serving_sound tree.state text i f backed small (omega (arith, count)) made at live listed in
      let path : path_of tree.state i ≡ some p = rw (slot, path_of) refl in
      let (g, at', live', where_, size) =
        mirrored_serves_whole_files scheme metadata root envelope p tree i h path in
      let same : g ≡ f = cc in (p, path, rw same at size)

-- Where a tree has a path for some slots in over 256 runs, and not for all live ones, a slot from the
-- number of live slots on is not read from its field, also one that the tree serves.
pub scattered_serving_stops :
    (state : TreeState) (text : List ℕ) (total' i : ℕ)
    → 256 < runs (held_from 0 state.served)
    → length (held_from 0 state.served) ≢ count_live state.files
    → serving state ≡ some text
    → total' < 2 ^ 32
    → count_live state.files ≤ i
    → mem i (decode_serving text total') ≡ false
unfolding serving
scattered_serving_stops state text total' i many part made small beyond =
    let same = sym (held-ascending state.served) in
    scattered_read_back (held_from 0 state.served) text (count_live state.files) total'
      (subst (λ ns. 256 < runs ns) same many)
      (subst (λ ns. length ns ≢ count_live state.files) same part) small made i
    ∙ ground arith
