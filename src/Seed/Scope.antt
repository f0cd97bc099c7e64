-- ===== src/Seed/Scope.antt =====
-- Which chunks a seeder gives out: those of the rows of its share, and no others of its store.
use mathlib.Core.Path.{subst}
use agent_share.Prelude.{
  ℕ, ◌≡◌, refl, ap, sym, ◌∙◌, List, [], ◌∷◌, ◌++◌, Bool, true, false, ◌||◌, Option, none, some, map,
  bytes_eq, if◌then◌else◌, Bool-cases, Option-cases, inl, inr,
}
use agent_share.Manifest.Apply.{contains}
use agent_share.Live.{manifest_frame}
use agent_share.Chunks.{ChunkLibrary}
use agent_share.Seed.{
  Seeder, State, new, scope_of, update, adopt, adopt_row, report_hole, take_holes, subscribe,
  answer_chunk,
}

pub contains-append :
    (xs ys : List (List ℕ)) (a : List ℕ) → contains (xs ++ ys) a ≡ contains xs a || contains ys a
unfolding contains
contains-append [] ys a = refl
contains-append (x ∷ xs) ys a = elim (Bool-cases (bytes_eq x a)) [
  | inl e ↦ rw e refl
  | inr e ↦ rw e (contains-append xs ys a)
]

or_assoc : (a b c : Bool) → ((a || b) || c) ≡ (a || (b || c))
or_assoc true b c = refl
or_assoc false b c = refl

or_comm : (a b : Bool) → (a || b) ≡ (b || a)
or_comm true true = refl
or_comm true false = refl
or_comm false true = refl
or_comm false false = refl

module _ (library : ChunkLibrary) where
  open library use {ChunkMap, Store, leaves}

  abbrev pub row_at : ℕ × ChunkMap → ChunkMap
  row_at (index, row) = row

  -- Whether one of the rows has the address.
  abbrev pub covers : List ChunkMap → List ℕ → Bool
  covers [] a = false
  covers (row ∷ rows) a = contains (leaves row) a || covers rows a

  -- The seeders that a run reaches, with the rows given since the last update.
  pub data Served : Seeder library → List ChunkMap → Type 0 where
    fresh : Served (new library) []
    updated :
        {s : Seeder library} {given : List ChunkMap}
        → Served s given
        → (envelope : List ℕ) (rows : List (ℕ × ChunkMap)) (store : Store)
        → Served (update library s envelope rows store) (map row_at rows)
    adopted :
        {s : Seeder library} {given : List ChunkMap}
        → Served s given
        → (state : State library) → s.state ≡ some state
        → (index : ℕ) (row : ChunkMap) → Served (adopt library s index row) (row ∷ given)
    ignored :
        {s : Seeder library} {given : List ChunkMap}
        → Served s given
        → s.state ≡ none
        → (index : ℕ) (row : ChunkMap) → Served (adopt library s index row) given
    reported :
        {s : Seeder library} {given : List ChunkMap}
        → Served s given
        → (index : ℕ) → Served (report_hole library s index) given
    listened :
        {s : Seeder library} {given : List ChunkMap}
        → Served s given
        → Served (take_holes library s) given
    subscribed :
        {s after : Seeder library} {given : List ChunkMap} {frame : List ℕ}
        → Served s given
        → subscribe library s ≡ some (frame, after)
        → Served after given

  abbrev Scoped : Seeder library → List ChunkMap → Type 0
  Scoped s given =
      (state : State library)
      → s.state ≡ some state
      → (a : List ℕ) → contains state.in_scope a ≡ covers given a

  contains-scope_of :
      (rows : List (ℕ × ChunkMap)) (scope : List (List ℕ)) (a : List ℕ)
      → contains (scope_of library rows scope) a ≡ (contains scope a || covers (map row_at rows) a)
  unfolding scope_of
  contains-scope_of [] scope a = or_comm false (contains scope a)
  contains-scope_of ((index, row) ∷ rows) scope a =
      contains-scope_of rows (scope ++ leaves row) a
      ∙ ap (λ b. b || covers (map row_at rows) a) (contains-append scope (leaves row) a)
      ∙ or_assoc (contains scope a) (contains (leaves row) a) (covers (map row_at rows) a)

  report_hole-state :
      (s : Seeder library) (index : ℕ) → (report_hole library s index).state ≡ s.state
  unfolding report_hole
  report_hole-state s index = elim (Option-cases s.holes) [
    | inl e ↦ rw e refl
    | inr (queue, e) ↦ rw e refl
  ]

  subscribe-state :
      (s after : Seeder library) (frame : List ℕ)
      → subscribe library s ≡ some (frame, after)
      → after.state ≡ s.state
  unfolding subscribe
  subscribe-state s after frame h = elim (Option-cases s.state) [
    | inl e ↦
        let k : ◌≡◌ {A = Option (List ℕ × Seeder library)} none (some (frame, after)) = rw e at h in
        cc
    | inr (state, e) ↦
        let k : ◌≡◌ {A = Option (List ℕ × Seeder library)}
            (some (
              manifest_frame state.envelope,
              record s {
                state = some state;
                watchers = s.watchers ++ (record { open_ = true; sent = [] } ∷ []);
              },
            ))
            (some (frame, after)) =
          rw e at h in
        let same : record s {
          state = some state;
          watchers = s.watchers ++ (record { open_ = true; sent = [] } ∷ []);
        }
            ≡ after =
          cc in
        ap (λ (x : Seeder library). x.state) (sym same) ∙ sym e
  ]

  pub adopt-state :
      (s : Seeder library) (state : State library) (index : ℕ) (row : ChunkMap)
      → s.state ≡ some state
      → (adopt library s index row).state ≡ some (adopt_row library state index row)
  unfolding adopt
  adopt-state s state index row h = rw h refl

  adopt-early :
      (s : Seeder library) (index : ℕ) (row : ChunkMap)
      → s.state ≡ none
      → adopt library s index row ≡ s
  unfolding adopt
  adopt-early s index row h = rw h refl

  Served-Scoped : {s : Seeder library} {given : List ChunkMap} → Served s given → Scoped s given
  unfolding update adopt_row take_holes contains
  Served-Scoped fresh state e a = cc
  Served-Scoped (updated r envelope rows store) state e a =
      let same : scope_of library rows [] ≡ state.in_scope = cc in
      subst (λ scope. contains scope a ≡ covers (map row_at rows) a) same
        (contains-scope_of rows [] a)
  Served-Scoped {given = given} (adopted r before h index row) state e a =
      let k = sym (adopt-state _ before index row h) ∙ e in
      let same : before.in_scope ++ leaves row ≡ state.in_scope = cc in
      let ih = Served-Scoped r before h a in
      ap (λ scope. contains scope a) (sym same)
      ∙ contains-append before.in_scope (leaves row) a
      ∙ or_comm (contains before.in_scope a) (contains (leaves row) a)
      ∙ ap (λ b. contains (leaves row) a || b) ih
  Served-Scoped (ignored r h index row) state e a =
      Served-Scoped r state
        (ap (λ (x : Seeder library). x.state) (sym (adopt-early _ index row h)) ∙ e) a
  Served-Scoped (reported r index) state e a =
      Served-Scoped r state (sym (report_hole-state _ index) ∙ e) a
  Served-Scoped (listened r) state e a = Served-Scoped r state e a
  Served-Scoped (subscribed r h) state e a =
      Served-Scoped r state (sym (subscribe-state _ _ _ h) ∙ e) a

  -- However a seeder came to its state, it gives out the chunk at an address exactly if one of the
  -- rows that it was given since its last update has the address, whatever else its store has.
  pub answer_chunk_scoped :
      (s : Seeder library) (given : List ChunkMap) (state : State library) (address : List ℕ)
      → Served s given
      → s.state ≡ some state
      → answer_chunk library s address
        ≡ (if covers given address then library.get state.store address else none)
  unfolding answer_chunk
  answer_chunk_scoped s given state address r h =
      let scoped = Served-Scoped r state h address in rw h (rw scoped refl)
