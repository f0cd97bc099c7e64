-- ===== src/Sources/Reads.antt =====
-- What a read by chunks leaves alone in a `SourceSet` of crates/agent-share/src/mount/sources.rs.
use agent_share.Prelude.{
  ℕ, zero, suc, ◌+◌, ◌-◌, ◌%◌, ◌^◌, ◌<◌, ◌≡◌, ◌≢◌, ◌⊎◌, refl, ap, sym, ◌∙◌, List, [], ◌∷◌, ◌++◌,
  arith, Bool, true, false, ◌||◌, Option, none, some, Result, err, length, take, drop, ltb, leb,
  ◌==◌, bytes_eq, if◌then◌else◌, Bool-cases, Option-cases, inl, inr,
}
use agent_share.Prelude
use agent_share.Chunks.{ChunkLibrary}
use agent_share.Remote.{fetch_chunk, fetch_chunk_map}
use agent_share.Seed.{Seeder, min, saturating_add, get_slot, without_slot, adopt, update}
use agent_share.Sources.{Network, SourceSet, is_armed}
use agent_share.Sources.Reading.{
  chunk, chunk_from_peers, read_turns, read_row, read_chunks, adopt_into_seeder, learn, row_for,
  with_row, kept, stored, or_else, answered, with_map, with_chunk,
}

module _ (library : ChunkLibrary) (net : Network) where
  open library use {ChunkMap, Store, size, index_at, leaf, range_start, chunk_hash}

  -- What decides who is asked.
  pub record IsSameView (s s' : SourceSet library) : Type 0 where
    pub token : s.token ≡ s'.token
    pub tree : s.tree ≡ s'.tree
    pub total_slots : s.total_slots ≡ s'.total_slots
    pub cards : s.cards ≡ s'.cards
    pub local_endpoint : s.local_endpoint ≡ s'.local_endpoint
    pub strikes : s.strikes ≡ s'.strikes
    pub active : s.active ≡ s'.active

  same_but_data :
      (s : SourceSet library) (store : Option Store) (seeder : Seeder library)
      (rows : List (ℕ × ChunkMap))
      → IsSameView s (record s { store = store; seeder = seeder; rows = rows })
  same_but_data s store seeder rows = record {
    token = refl;
    tree = refl;
    total_slots = refl;
    cards = refl;
    local_endpoint = refl;
    strikes = refl;
    active = refl;
  }

  same_view : (s : SourceSet library) → IsSameView s s
  same_view s = same_but_data s s.store s.seeder s.rows

  IsSameView-trans : (s t u : SourceSet library) → IsSameView s t → IsSameView t u → IsSameView s u
  IsSameView-trans s t u h k = record {
    token = h.token ∙ k.token;
    tree = h.tree ∙ k.tree;
    total_slots = h.total_slots ∙ k.total_slots;
    cards = h.cards ∙ k.cards;
    local_endpoint = h.local_endpoint ∙ k.local_endpoint;
    strikes = h.strikes ∙ k.strikes;
    active = h.active ∙ k.active;
  }

  chunk-same :
      (s : SourceSet library) (index : ℕ) (address : List ℕ)
      → IsSameView s (chunk library net s index address).0
  unfolding chunk
  chunk-same s index address = elim (Option-cases (stored library s.store address)) [
    | inr (bytes, e) ↦ rw (e, chunk) (same_view s)
    | inl e ↦
        elim (Option-cases (
          or_else (answered (fetch_chunk library net.origin_at s.token address))
            (chunk_from_peers library net s index address))) [
              | inl n ↦ rw (e, chunk) (rw (n, chunk) (same_view s))
              | inr (fetched, f) ↦ elim (Bool-cases (bytes_eq (chunk_hash fetched) address)) [
                | inl good ↦
                    rw (e, chunk)
                      (rw (f, chunk)
                        (rw (good, chunk)
                          (same_but_data s (with_chunk library s.store address fetched) s.seeder
                            s.rows)))
                | inr bad ↦ rw (e, chunk) (rw (f, chunk) (rw (bad, chunk) (same_view s)))
              ]
            ]
  ]

  read_turns-same :
      (fuel : ℕ) (s : SourceSet library) (index : ℕ) (row : ChunkMap) (end cursor : ℕ)
      (out : List ℕ) (fetched : Bool)
      → IsSameView s (read_turns library fuel net s index row end cursor out fetched).0
  unfolding read_turns
  read_turns-same zero s index row end cursor out fetched = same_view s
  read_turns-same (suc fuel) s index row end cursor out fetched =
      elim (Bool-cases (ltb cursor end)) [
        | inr over ↦ rw (over, read_turns) (same_view s)
        | inl below ↦ elim (Option-cases (leaf row (index_at row cursor))) [
          | inl n ↦ rw (below, read_turns) (rw (n, read_turns) (same_view s))
          | inr (address, l) ↦
              let s' = (chunk library net s index address).0 in
              let one = chunk-same s index address in
              rw (below, read_turns)
                (rw (l, read_turns)
                  (elim (Option-cases (chunk library net s index address).1) [
                    | inl n ↦ rw (n, read_turns) one
                    | inr ((bytes, now), c) ↦
                        let within =
                          (cursor + 2 ^ 64 - range_start row (index_at row cursor)) % 2 ^ 64 in
                        let taken = min (end - cursor) (length bytes - within) in
                        rw (c, read_turns)
                          (elim (Bool-cases (taken == 0)) [
                            | inl stop ↦ rw (stop, read_turns) one
                            | inr some_ ↦
                                let rest =
                                  read_turns-same fuel s' index row end (cursor + taken)
                                    (out ++ take taken (drop within bytes)) (fetched || now) in
                                rw (some_, read_turns) (IsSameView-trans s s' _ one rest)
                          ])
                  ]))
        ]
      ]

  adopt_into_seeder-same :
      (s : SourceSet library) (index : ℕ) (row : ChunkMap)
      → IsSameView s (adopt_into_seeder library s index row)
  unfolding adopt_into_seeder
  adopt_into_seeder-same s index row =
      elim s.store
        as (λ o. IsSameView s (elim o [
          | none ↦ s
          | some store ↦
              if is_armed library s.seeder
              then record s { seeder = adopt library s.seeder index row }
              else record s { seeder = update library s.seeder s.envelope s.rows store }
        ])) [
          | none ↦ same_view s
          | some store ↦ elim (Bool-cases (is_armed library s.seeder)) [
            | inl armed ↦
                rw armed (same_but_data s s.store (adopt library s.seeder index row) s.rows)
            | inr unarmed ↦
                rw unarmed
                  (same_but_data s s.store (update library s.seeder s.envelope s.rows store) s.rows)
          ]
        ]

  kept-same :
      (s : SourceSet library) (index : ℕ) (row : ChunkMap)
      (p : SourceSet library × Option (List ℕ × Bool))
      → IsSameView s p.0
      → IsSameView s (kept library index row p).0
  kept-same s index row (s', none) h = h
  kept-same s index row (s', some (out, true)) h =
      IsSameView-trans s s' (adopt_into_seeder library s' index row) h
        (adopt_into_seeder-same s' index row)
  kept-same s index row (s', some (out, false)) h = h

  read_row-same :
      (s : SourceSet library) (index : ℕ) (row : ChunkMap) (offset len : ℕ)
      → IsSameView s (read_row library net s index row offset len).0
  unfolding read_row
  read_row-same s index row offset len = elim (Bool-cases (leb (size row) offset || (len == 0))) [
    | inl nothing ↦ rw nothing (same_view s)
    | inr something ↦
        let end = min (saturating_add offset len) (size row) in
        rw something (
          kept-same s index row
            (read_turns library (end - offset) net s index row end offset [] false)
            (read_turns-same (end - offset) s index row end offset [] false))
  ]

  learn-same :
      (s : SourceSet library) (index : ℕ) (r : Result (Option ChunkMap))
      → IsSameView s (learn library s index r).0
  learn-same s index (err e) = same_view s
  learn-same s index (Prelude.ok none) = same_view s
  learn-same s index (Prelude.ok (some row)) =
      same_but_data s (with_map library s.store row) s.seeder
        ((index, row) ∷ without_slot s.rows index)

  row_for-same : (s : SourceSet library) (index : ℕ) → IsSameView s (row_for library net s index).0
  unfolding row_for
  row_for-same s index = elim (Option-cases (get_slot s.rows index)) [
    | inr (row, e) ↦ rw (e, row_for) (same_view s)
    | inl e ↦
        rw (e, row_for) (learn-same s index (fetch_chunk_map library net.origin_at s.token index))
  ]

  with_row-same :
      (s : SourceSet library) (index offset len : ℕ) (p : SourceSet library × Option ChunkMap)
      → IsSameView s p.0
      → IsSameView s (with_row library net index offset len p).0
  with_row-same s index offset len (s', none) h = h
  with_row-same s index offset len (s', some row) h =
      IsSameView-trans s s' (read_row library net s' index row offset len).0 h
        (read_row-same s' index row offset len)

  -- The chunk path changes nothing of what decides who is asked.
  pub read_chunks-same :
      (s : SourceSet library) (index offset len : ℕ)
      → IsSameView s (read_chunks library net s index offset len).0
  unfolding read_chunks
  read_chunks-same s index offset len =
      with_row-same s index offset len (row_for library net s index) (row_for-same s index)
