-- ===== src/Seed/Holds.antt =====
-- `Seeder::complete_slots` and `Seeder::holds`: which files this peer has whole.
use mathlib.Core.Path.{subst}
use agent_share.Prelude.{
  ℕ, ◌≡◌, refl, ap, sym, ◌∙◌, List, [], ◌∷◌, Bool, false, Option, none, some, ◌==◌, ==_iff,
  if◌then◌else◌, Bool-cases, Option-cases, inl, inr,
}
use agent_share.Sorting.{mem, sort, mem-sort, IsSorted, sort-IsSorted}
use agent_share.Chunks.{ChunkLibrary}
use agent_share.Seed.{Seeder, State, get_slot, row_of}

module _ (library : ChunkLibrary) where
  open library use {ChunkMap, Coverage, Store, root, row_len, count, coverage_of}

  -- `complete`
  unfoldable pub complete : Store → List ℕ → ℕ → Bool
  complete store root chunks = elim (library.coverage store root) [
    | none ↦ false
    | some coverage ↦ count coverage == chunks
  ]

  unfoldable pub holds : Seeder library → ℕ → Bool
  unfolding complete
  holds s index = elim (row_of library s index) [
    | none ↦ false
    | some (state, row) ↦ complete state.store (root row) (row_len row)
  ]

  unfoldable pub roots : List (ℕ × ChunkMap) → List (List ℕ)
  roots [] = []
  roots ((index, row) ∷ rows) = root row ∷ roots rows

  -- The zip with the coverages, and the filter.
  unfoldable pub complete_of : List (ℕ × ChunkMap) → List Coverage → List ℕ
  complete_of [] coverages = []
  complete_of ((index, row) ∷ rows) [] = []
  complete_of ((index, row) ∷ rows) (coverage ∷ coverages) =
      if count coverage == row_len row
      then index ∷ complete_of rows coverages
      else complete_of rows coverages

  unfoldable pub complete_slots : Seeder library → List ℕ
  unfolding sort roots complete_of
  complete_slots s = elim s.state [
    | none ↦ []
    | some state ↦ elim (coverage_of state.store (roots state.rows)) [
      | none ↦ []
      | some coverages ↦ sort (complete_of state.rows coverages)
    ]
  ]

module _ (library : ChunkLibrary) where
  open library use {ChunkMap, Coverage, Store, root, row_len, count, coverage_of}

  -- The batch answers what the single question answers for each row.
  abbrev pub Agrees : Store → List (ℕ × ChunkMap) → List Coverage → Type 0
  Agrees store [] [] = Unit {0}
  Agrees store [] (c ∷ cs) = ⊥
  Agrees store ((index, row) ∷ rows) [] = ⊥
  Agrees store ((index, row) ∷ rows) (c ∷ cs) =
      (library.coverage store (root row) ≡ some c) × Agrees store rows cs

  -- No slot twice.
  abbrev pub IsMap : List (ℕ × ChunkMap) → Type 0
  IsMap [] = Unit {0}
  IsMap ((index, row) ∷ rows) = (get_slot rows index ≡ none) × IsMap rows

  abbrev held_row : Store → Option ChunkMap → Bool
  held_row store none = false
  held_row store (some row) = complete library store (root row) (row_len row)

  mem-complete_of :
      (store : Store) (rows : List (ℕ × ChunkMap)) (cs : List Coverage) (i : ℕ)
      → IsMap rows
      → Agrees store rows cs
      → mem i (complete_of library rows cs) ≡ held_row store (get_slot rows i)
  unfolding complete_of get_slot complete
  mem-complete_of store [] [] i m a = refl
  mem-complete_of store [] (c ∷ cs) i m a = elim a [ ]
  mem-complete_of store ((index, row) ∷ rows) [] i m a = elim a [ ]
  mem-complete_of store ((index, row) ∷ rows) (c ∷ cs) i m a =
      let ih = mem-complete_of store rows cs i m.1 a.1 in
      let (c_now, rest) = a in
      elim (Bool-cases (index == i)) [
        | inl same ↦
            let e : index ≡ i = (==_iff index i).0 same in
            let gone : get_slot rows i ≡ none = subst (λ k. get_slot rows k ≡ none) e m.0 in
            let absent : mem i (complete_of library rows cs) ≡ false =
              ih ∙ ap (held_row store) gone in
            elim (Bool-cases (count c == row_len row)) [
              | inl whole ↦ rw whole (rw same (rw (c_now, complete) (rw whole refl)))
              | inr part ↦ rw part (rw same (rw (c_now, complete) (rw part absent)))
            ]
        | inr other ↦ elim (Bool-cases (count c == row_len row)) [
          | inl whole ↦ rw whole (rw other ih)
          | inr part ↦ rw part (rw other ih)
        ]
      ]

  complete_slots-batch :
      (s : Seeder library) (state : State library) (coverages : List Coverage)
      → s.state ≡ some state
      → coverage_of state.store (roots library state.rows) ≡ some coverages
      → complete_slots library s ≡ sort (complete_of library state.rows coverages)
  unfolding complete_slots
  complete_slots-batch s state coverages h batch =
      rw (h, complete_slots) (rw (batch, complete_slots) refl)

  holds-held_row :
      (s : Seeder library) (state : State library) (i : ℕ)
      → s.state ≡ some state
      → holds library s i ≡ held_row state.store (get_slot state.rows i)
  unfolding holds row_of
  holds-held_row s state i h = elim (Option-cases (get_slot state.rows i)) [
    | inl gone ↦ rw (h, holds) (rw gone refl)
    | inr (row, found) ↦ rw (h, holds) (rw found refl)
  ]

  -- Where the store's batch of coverages answers for each row what its single answer does, and no
  -- slot has two rows, the complete slots are sorted, and a slot is among them exactly if the seeder
  -- holds it.
  pub complete_slots_exact :
      (s : Seeder library) (state : State library) (coverages : List Coverage)
      → s.state ≡ some state
      → IsMap state.rows
      → coverage_of state.store (roots library state.rows) ≡ some coverages
      → Agrees state.store state.rows coverages
      → IsSorted (complete_slots library s)
        × ((i : ℕ) → mem i (complete_slots library s) ≡ holds library s i)
  complete_slots_exact s state coverages h m batch agrees =
      let listed = complete_slots-batch s state coverages h batch in
      let whole = complete_of library state.rows coverages in
      (
        subst (λ ns. IsSorted ns) (sym listed) (sort-IsSorted whole),
        λ i.
            ap (λ ns. mem i ns) listed
            ∙ mem-sort i whole
            ∙ mem-complete_of state.store state.rows coverages i m agrees
            ∙ sym (holds-held_row s state i h),
      )
