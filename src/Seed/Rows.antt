-- ===== src/Seed/Rows.antt =====
-- `Seeder::adopt`: what a seeder answers once it has adopted a row.
use agent_share.Prelude.{
  ℕ, ◌≡◌, refl, ap, sym, ◌∙◌, List, [], ◌∷◌, false, none, some, ◌==◌, ==_iff, arith, if◌then◌else◌,
  Option, bytes_eq, Bool-cases, Option-cases, inl, inr,
}
use agent_share.Prelude.Assoc.{get, get-insert}
use agent_share.Manifest.Apply.{contains}
use agent_share.Chunks.{ChunkLibrary}
use agent_share.Seed.{
  Seeder, State, get_slot, without_slot, adopt, adopt_row, row_of, answer_chunk_map, answer_chunk,
  answer_have, manifest_envelope,
}
use agent_share.Seed.Scope.{contains-append, adopt-state}

get_slot-without_slot :
    {V : Type 0} (m : List (ℕ × V)) (index i : ℕ)
    → get_slot (without_slot m index) i ≡ (if index == i then none else get_slot m i)
unfolding get_slot without_slot
get_slot-without_slot [] index i = elim (Bool-cases (index == i)) [
  | inl e ↦ rw e refl
  | inr e ↦ rw e refl
]
get_slot-without_slot ((slot, v) ∷ m) index i =
    let ih = get_slot-without_slot m index i in
    elim (Bool-cases (slot == index)) [
      | inl same ↦
          let e : slot ≡ index = (==_iff slot index).0 same in
          elim (Bool-cases (index == i)) [
            | inl hit ↦ rw same (ih ∙ rw hit refl)
            | inr miss ↦ let skip : (slot == i) ≡ false = rw e miss in rw same (rw skip ih)
          ]
      | inr differ ↦ elim (Bool-cases (slot == i)) [
        | inl hit ↦
            let e : slot ≡ i = (==_iff slot i).0 hit in
            let miss : (index == i) ≡ false = ground arith in rw differ (rw hit (rw miss refl))
        | inr skip ↦ rw differ (rw skip ih)
      ]
    ]

module _ (library : ChunkLibrary) where
  open library use {ChunkMap, Coverage, root, leaves}

  answer_chunk_map-get_slot :
      (s : Seeder library) (state : State library) (i : ℕ)
      → s.state ≡ some state
      → answer_chunk_map library s i ≡ get_slot state.rows i
  unfolding answer_chunk_map row_of
  answer_chunk_map-get_slot s state i h = elim (Option-cases (get_slot state.rows i)) [
    | inl e ↦ rw h (rw (e, answer_chunk_map, row_of) refl)
    | inr (row, e) ↦ rw h (rw (e, answer_chunk_map, row_of) refl)
  ]

  answer_chunk-scope :
      (s : Seeder library) (state : State library) (a : List ℕ)
      → s.state ≡ some state
      → answer_chunk library s a
        ≡ (if contains state.in_scope a then library.get state.store a else none)
  unfolding answer_chunk
  answer_chunk-scope s state a h = rw h refl

  abbrev covered : State library → List ℕ → Option ℕ → Option Coverage
  covered state r none = none
  covered state r (some index) = library.coverage state.store r

  answer_have-root :
      (s : Seeder library) (state : State library) (r : List ℕ)
      → s.state ≡ some state
      → answer_have library s r ≡ covered state r (get state.slot_of_root r)
  unfolding answer_have
  answer_have-root s state r h = elim (Option-cases (get state.slot_of_root r)) [
    | inl e ↦ rw h (rw (e, answer_have) refl)
    | inr (index, e) ↦ rw h (rw (e, answer_have) refl)
  ]

  get_slot-adopt_row :
      (state : State library) (index : ℕ) (row : ChunkMap) (i : ℕ)
      → get_slot (adopt_row library state index row).rows i
        ≡ (if index == i then some row else get_slot state.rows i)
  unfolding get_slot adopt_row
  get_slot-adopt_row state index row i = elim (Bool-cases (index == i)) [
    | inl e ↦ rw e refl
    | inr e ↦ rw e (get_slot-without_slot state.rows index i ∙ rw e refl)
  ]

  -- A seeder that is up and adopts a row answers for its slot with the row, for a chunk at an address of
  -- the row by what the store has there, and for a coverage of the row's root by the store's; for every
  -- other slot, address and root, and for the envelope, it answers as before. Its watchers are sent
  -- nothing and its reported holes stay.
  pub adopt_exact :
      (s : Seeder library) (state : State library) (index : ℕ) (row : ChunkMap)
      → s.state ≡ some state
      → let after = adopt library s index row in
        ((i : ℕ)
          → answer_chunk_map library after i
            ≡ (if index == i then some row else answer_chunk_map library s i))
        × ((a : List ℕ)
            → answer_chunk library after a ≡ (
                if contains (leaves row) a
                then library.get state.store a
                else answer_chunk library s a))
        × ((r : List ℕ)
            → answer_have library after r ≡ (
                if bytes_eq (root row) r
                then library.coverage state.store r
                else answer_have library s r))
        × (manifest_envelope library after ≡ manifest_envelope library s)
        × (after.watchers ≡ s.watchers)
        × (after.holes ≡ s.holes)
  unfolding adopt_row adopt manifest_envelope
  adopt_exact s state index row h =
      let up = adopt-state library s state index row h in
      (
        λ i.
            answer_chunk_map-get_slot _ _ i up
            ∙ get_slot-adopt_row state index row i
            ∙ ap (λ o. if index == i then some row else o)
                (sym (answer_chunk_map-get_slot s state i h)),
        λ a.
            answer_chunk-scope _ _ a up
            ∙ scoped a
            ∙ ap (λ o. if contains (leaves row) a then library.get state.store a else o)
                (sym (answer_chunk-scope s state a h)),
        λ r.
            answer_have-root _ _ r up
            ∙ rooted r
            ∙ ap (λ o. if bytes_eq (root row) r then library.coverage state.store r else o)
                (sym (answer_have-root s state r h)),
        rw (h, adopt, manifest_envelope) refl,
        rw (h, adopt) refl,
        rw (h, adopt) refl,
      )
    where
      scoped :
          (a : List ℕ)
          → (if contains (adopt_row library state index row).in_scope a
              then library.get state.store a
              else none)
            ≡ (if contains (leaves row) a
                then library.get state.store a
                else (if contains state.in_scope a then library.get state.store a else none))
      scoped a =
          unfold adopt_row in rw (contains-append state.in_scope (leaves row) a) (ground arith)

      rooted :
          (r : List ℕ)
          → covered
              (adopt_row library state index row)
              r
              (get (adopt_row library state index row).slot_of_root r)
            ≡ (if bytes_eq (root row) r
                then library.coverage state.store r
                else covered state r (get state.slot_of_root r))
      rooted r =
          unfold adopt_row in
          rw (get-insert state.slot_of_root (root row) r index)
            (elim (Bool-cases (bytes_eq (root row) r)) [
              | inl e ↦ rw e refl
              | inr e ↦ rw e (moved (get state.slot_of_root r))
            ])
        where
          moved :
              (o : Option ℕ) → covered (adopt_row library state index row) r o ≡ covered state r o
          moved none = refl
          moved (some i) = unfold adopt_row in refl
