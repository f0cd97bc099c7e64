-- ===== src/Seed.antt =====
-- `Seeder` of crates/agent-share-mount/src/seed.rs: a peer that serves what it holds of a share. The
-- lock is the state passing. A channel is what was sent into it and whether its reader is there.
pub mod Scope
pub mod Read
pub mod Holds
pub mod Slices
pub mod Rows
use agent_share.Prelude.{
  ℕ, zero, suc, ◌+◌, ◌-◌, ◌%◌, ◌^◌, List, [], ◌∷◌, ◌++◌, Bool, true, false, not, ◌||◌, Option, none,
  some, take, drop, length, map, ltb, leb, bytes_eq, if◌then◌else◌, ◌==◌,
}
use agent_share.Prelude.Assoc.{get, insert}
use agent_share.Framing.{max_read_len}
use agent_share.Framing.Since.{ManifestSince}
use agent_share.Framing.Answers.{ReadStatus}
use agent_share.Manifest.Apply.{contains}
use agent_share.Watch.{watch_frame_manifest}
use agent_share.Live.{manifest_frame}
use agent_share.Chunks
use agent_share.Chunks.{ChunkLibrary}
use agent_share.Serve.{ServeSource}

-- `HashMap<u32, V>`: a list without a repeated key.
unfoldable pub get_slot : {V : Type 0} → List (ℕ × V) → ℕ → Option V
get_slot [] index = none
get_slot ((slot, v) ∷ m) index = if slot == index then some v else get_slot m index

unfoldable pub without_slot : {V : Type 0} → List (ℕ × V) → ℕ → List (ℕ × V)
without_slot [] index = []
without_slot ((slot, v) ∷ m) index =
    if slot == index then without_slot m index else (slot, v) ∷ without_slot m index

pub record Feed : Type 0 where
  pub open_ : Bool
  pub sent : List (List ℕ)

-- `watchers.retain(|tx| tx.unbounded_send(frame).is_ok())`
unfoldable pub send_all : List ℕ → List Feed → List Feed
send_all frame [] = []
send_all frame (feed ∷ feeds) =
    if feed.open_
    then record feed { sent = feed.sent ++ (frame ∷ []) } ∷ send_all frame feeds
    else send_all frame feeds

abbrev pub saturating_add : ℕ → ℕ → ℕ
saturating_add a b = if ltb (a + b) (2 ^ 64) then a + b else 2 ^ 64 - 1

abbrev pub min : ℕ → ℕ → ℕ
min a b = if leb a b then a else b

-- How the loop of a read ends. `spent` is never reached: the fuel is the length of the read.
pub data Progress : Type 0 where
  done : List ℕ → Progress
  hole spent : Progress

module _ (library : ChunkLibrary) where
  open library use {ChunkMap, Store, Coverage, root, size, leaves, index_at, leaf, range_start}

  pub record State : Type 0 where
    pub envelope : List ℕ
    pub rows : List (ℕ × ChunkMap)
    pub slot_of_root : List (List ℕ × ℕ)
    pub in_scope : List (List ℕ)
    pub store : Store

  -- `Inner`: `holes` is the slots reported, once somebody takes the receiving end.
  pub record Seeder : Type 0 where
    pub state : Option State
    pub watchers : List Feed
    pub holes : Option (List ℕ)

  -- `Seeder::new`
  abbrev pub new : Seeder
  new = record { state = none; watchers = []; holes = none }

  -- `for (index, row) in &rows`, in the order of the list; that of the map is not fixed.
  unfoldable pub roots_of : List (ℕ × ChunkMap) → List (List ℕ × ℕ) → List (List ℕ × ℕ)
  roots_of [] m = m
  roots_of ((index, row) ∷ rows) m = roots_of rows (insert m (root row) index)

  unfoldable pub scope_of : List (ℕ × ChunkMap) → List (List ℕ) → List (List ℕ)
  scope_of [] scope = scope
  scope_of ((index, row) ∷ rows) scope = scope_of rows (scope ++ leaves row)

  -- `is_none_or(|state| *state.envelope != *envelope)`
  unfoldable pub changed : Option State → List ℕ → Bool
  changed none envelope = true
  changed (some state) envelope = not (bytes_eq state.envelope envelope)

  -- `Seeder::update`
  unfoldable pub update : Seeder → List ℕ → List (ℕ × ChunkMap) → Store → Seeder
  unfolding roots_of scope_of changed send_all
  update s envelope rows store = record s {
    state = some (record {
      envelope = envelope;
      rows = rows;
      slot_of_root = roots_of rows [];
      in_scope = scope_of rows [];
      store = store;
    });
    watchers =
        if changed s.state envelope
        then send_all (manifest_frame envelope) s.watchers
        else s.watchers;
  }

  unfoldable pub adopt_row : State → ℕ → ChunkMap → State
  adopt_row state index row = record state {
    slot_of_root = insert state.slot_of_root (root row) index;
    in_scope = state.in_scope ++ leaves row;
    rows = (index, row) ∷ without_slot state.rows index;
  }

  -- `Seeder::adopt`
  unfoldable pub adopt : Seeder → ℕ → ChunkMap → Seeder
  unfolding adopt_row
  adopt s index row = elim s.state [
    | none ↦ s
    | some state ↦ record s { state = some (adopt_row state index row) }
  ]

  -- `Seeder::holes`: the receiving end, empty at first.
  unfoldable pub take_holes : Seeder → Seeder
  take_holes s = record s { holes = some [] }

  unfoldable pub report_hole : Seeder → ℕ → Seeder
  report_hole s index = elim s.holes [
    | none ↦ s
    | some reported ↦ record s { holes = some (reported ++ (index ∷ [])) }
  ]

  unfoldable pub manifest_envelope : Seeder → Option (List ℕ)
  manifest_envelope s = elim s.state [ none ↦ none | some state ↦ some state.envelope ]

  unfoldable pub subscribe : Seeder → Option (List ℕ × Seeder)
  subscribe s = elim s.state [
    | none ↦ none
    | some state ↦
        let feed : Feed = record { open_ = true; sent = [] } in
        some (manifest_frame state.envelope, record s { watchers = s.watchers ++ (feed ∷ []) })
  ]

  -- `while cursor < end`. The `u64` subtraction wraps.
  unfoldable pub read_loop : ℕ → Store → ChunkMap → ℕ → ℕ → List ℕ → Progress
  read_loop zero store row end cursor out = if ltb cursor end then spent else done out
  read_loop (suc fuel) store row end cursor out = elim (ltb cursor end) [
    | false ↦ done out
    | true ↦ elim (leaf row (index_at row cursor)) [
      | none ↦ hole
      | some address ↦ elim (library.get store address) [
        | none ↦ hole
        | some chunk ↦
            let within = (cursor + 2 ^ 64 - range_start row (index_at row cursor)) % 2 ^ 64 in
            let taken = min (end - cursor) (length chunk - within) in
            elim (taken == 0) [
              | true ↦ hole
              | false ↦
                  read_loop fuel store row end (cursor + taken)
                    (out ++ take taken (drop within chunk))
            ]
      ]
    ]
  ]

  abbrev pub settled : Seeder → ℕ → Progress → Seeder × ReadStatus × List ℕ
  settled s index (done out) = (s, ReadStatus.ok, out)
  settled s index hole = (report_hole s index, ReadStatus.bad_index, [])
  settled s index spent = (s, ReadStatus.io, [])

  -- The read of a row that this peer has.
  unfoldable pub read_row : Seeder → State → ChunkMap → ℕ → ℕ → ℕ → Seeder × ReadStatus × List ℕ
  unfolding read_loop report_hole
  read_row s state row index offset len =
      let end = min (saturating_add offset len) (size row) in
      if leb (size row) offset || (len == 0)
      then (s, ReadStatus.ok, [])
      else settled s index (read_loop (end - offset) state.store row end offset [])

  unfoldable pub row_of : Seeder → ℕ → Option (State × ChunkMap)
  row_of s index = elim s.state [
    | none ↦ none
    | some state ↦ elim (get_slot state.rows index) [ none ↦ none | some row ↦ some (state, row) ]
  ]

  unfoldable pub answer_read : Seeder → ℕ → ℕ → ℕ → Seeder × ReadStatus × List ℕ
  unfolding read_row row_of
  answer_read s index offset len =
      if ltb max_read_len len then (s, ReadStatus.len_over_cap, []) else elim (row_of s index) [
        | none ↦ (s, ReadStatus.bad_index, [])
        | some (state, row) ↦ read_row s state row index offset len
      ]

  unfoldable pub answer_chunk_map : Seeder → ℕ → Option ChunkMap
  unfolding row_of
  answer_chunk_map s index = elim (row_of s index) [ none ↦ none | some (state, row) ↦ some row ]

  unfoldable pub answer_chunk : Seeder → List ℕ → Option (List ℕ)
  answer_chunk s address = elim s.state [
    | none ↦ none
    | some state ↦ if contains state.in_scope address then library.get state.store address else none
  ]

  unfoldable pub answer_have : Seeder → List ℕ → Option Coverage
  answer_have s root = elim s.state [
    | none ↦ none
    | some state ↦ elim (get state.slot_of_root root) [
      | none ↦ none
      | some index ↦ library.coverage state.store root
    ]
  ]

  -- `Seeder` as a source. It keeps no history, so it has no deltas to give.
  abbrev pub seeder_source : ServeSource library Seeder
  seeder_source = record {
    manifest_envelope = manifest_envelope;
    answer_manifest_since = λ s since. none;
    subscribe = subscribe;
    answer_read = answer_read;
    answer_chunk_map = λ s index. (s, answer_chunk_map s index);
    answer_chunk = λ s address. (s, answer_chunk s address);
    answer_have = λ s root. (s, answer_have s root);
  }
