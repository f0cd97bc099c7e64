-- ===== src/Sources/Reading.antt =====
-- The reads of a `SourceSet` (crates/agent-share/src/mount/sources.rs): by chunks, and by ranges of a peer.
use agent_share.Prelude.{
  ℕ, zero, suc, ◌+◌, ◌-◌, ◌%◌, ◌^◌, List, [], ◌∷◌, ◌++◌, Bool, true, false, ◌&&◌, ◌||◌, not, Option,
  none, some, Result, err, disconnected, length, take, drop, ltb, leb, ◌==◌, bytes_eq,
  if◌then◌else◌,
}
use agent_share.Prelude
use agent_share.Client.{PeerCard}
use agent_share.Chunks.{ChunkLibrary}
use agent_share.Remote.{read_range, fetch_chunk, fetch_chunk_map}
use agent_share.Seed.{get_slot, without_slot, update, adopt, saturating_add, min}
use agent_share.Sources.{Active, origin, peer, Network, SourceSet, candidates, strike, is_armed}

abbrev pub answered : Result (Option (List ℕ)) → Option (List ℕ)
answered (err e) = none
answered (Prelude.ok bytes) = bytes

abbrev pub or_else : {A : Type 0} → Option A → Option A → Option A
or_else (some a) b = some a
or_else none b = b

module _ (library : ChunkLibrary) where
  open library use {ChunkMap, Store, size, index_at, leaf, range_start, chunk_hash, put, put_map}

  unfoldable pub adopt_into_seeder : SourceSet library → ℕ → ChunkMap → SourceSet library
  unfolding is_armed
  adopt_into_seeder s index row = elim s.store [
    | none ↦ s
    | some store ↦
        if is_armed library s.seeder
        then record s { seeder = adopt library s.seeder index row }
        else record s { seeder = update library s.seeder s.envelope s.rows store }
  ]

  abbrev pub with_map : Option Store → ChunkMap → Option Store
  with_map none row = none
  with_map (some store) row = some (put_map store row)

  abbrev pub learn :
      SourceSet library → ℕ → Result (Option ChunkMap) → SourceSet library × Option ChunkMap
  learn s index (err e) = (s, none)
  learn s index (Prelude.ok none) = (s, none)
  learn s index (Prelude.ok (some row)) = (
    record s { store = with_map s.store row; rows = (index, row) ∷ without_slot s.rows index },
    some row,
  )

  unfoldable pub row_for : Network → SourceSet library → ℕ → SourceSet library × Option ChunkMap
  row_for net s index = elim (get_slot s.rows index) [
    | some row ↦ (s, some row)
    | none ↦ learn s index (fetch_chunk_map library net.origin_at s.token index)
  ]

  -- One peer asked for a chunk.
  unfoldable pub chunk_from : Network → SourceSet library → List ℕ → PeerCard → Option (List ℕ)
  chunk_from net s address card = elim (net.peer_at card.endpoint) [
    | none ↦ none
    | some connection ↦ answered (fetch_chunk library connection s.token address)
  ]

  unfoldable pub ask_for_chunk :
      Network → SourceSet library → List ℕ → List PeerCard → Option (List ℕ)
  unfolding chunk_from
  ask_for_chunk net s address [] = none
  ask_for_chunk net s address (card ∷ cards) =
      or_else (chunk_from net s address card) (ask_for_chunk net s address cards)

  unfoldable pub chunk_from_peers : Network → SourceSet library → ℕ → List ℕ → Option (List ℕ)
  unfolding ask_for_chunk
  chunk_from_peers net s index address = ask_for_chunk net s address (candidates library s index)

  abbrev pub stored : Option Store → List ℕ → Option (List ℕ)
  stored none address = none
  stored (some store) address = library.get store address

  abbrev pub with_chunk : Option Store → List ℕ → List ℕ → Option Store
  with_chunk none address bytes = none
  with_chunk (some store) address bytes = some (put store address bytes)

  -- The chunk at an address, and whether it was fetched now.
  unfoldable pub chunk :
      Network → SourceSet library → ℕ → List ℕ → SourceSet library × Option (List ℕ × Bool)
  unfolding chunk_from_peers
  chunk net s index address = elim (stored s.store address) [
    | some bytes ↦ (s, some (bytes, false))
    | none ↦
        elim (or_else (answered (fetch_chunk library net.origin_at s.token address))
          (chunk_from_peers net s index address)) [
            | none ↦ (s, none)
            | some fetched ↦
                if bytes_eq (chunk_hash fetched) address
                then (record s { store = with_chunk s.store address fetched }, some (fetched, true))
                else (s, none)
          ]
  ]

  -- `while cursor < end`, on fuel. The `u64` subtraction wraps.
  unfoldable pub read_turns :
      ℕ
      → Network
      → SourceSet library
      → ℕ
      → ChunkMap
      → ℕ
      → ℕ
      → List ℕ
      → Bool
      → SourceSet library × Option (List ℕ × Bool)
  read_turns zero net s index row end cursor out fetched =
      (s, if ltb cursor end then none else some (out, fetched))
  read_turns (suc fuel) net s index row end cursor out fetched = elim (ltb cursor end) [
    | false ↦ (s, some (out, fetched))
    | true ↦ elim (leaf row (index_at row cursor)) [
      | none ↦ (s, none)
      | some address ↦
          let (s', answer) = chunk net s index address in
          elim answer [
            | none ↦ (s', none)
            | some (bytes, stored_now) ↦
                let within = (cursor + 2 ^ 64 - range_start row (index_at row cursor)) % 2 ^ 64 in
                let taken = min (end - cursor) (length bytes - within) in
                elim (taken == 0) [
                  | true ↦ (s', none)
                  | false ↦
                      read_turns fuel net s' index row end (cursor + taken)
                        (out ++ take taken (drop within bytes)) (fetched || stored_now)
                ]
          ]
    ]
  ]

  abbrev pub kept :
      ℕ
      → ChunkMap
      → SourceSet library × Option (List ℕ × Bool)
      → SourceSet library × Option (List ℕ)
  kept index row (s, none) = (s, none)
  kept index row (s, some (out, fetched)) =
      (if fetched then adopt_into_seeder s index row else s, some out)

  unfoldable pub read_row :
      Network → SourceSet library → ℕ → ChunkMap → ℕ → ℕ → SourceSet library × Option (List ℕ)
  unfolding read_turns adopt_into_seeder
  read_row net s index row offset len =
      let end = min (saturating_add offset len) (size row) in
      if leb (size row) offset || (len == 0)
      then (s, some [])
      else kept index row (read_turns (end - offset) net s index row end offset [] false)

  abbrev pub with_row :
      Network
      → ℕ
      → ℕ
      → ℕ
      → SourceSet library × Option ChunkMap
      → SourceSet library × Option (List ℕ)
  with_row net index offset len (s, none) = (s, none)
  with_row net index offset len (s, some row) = read_row net s index row offset len

  unfoldable pub read_chunks :
      Network → SourceSet library → ℕ → ℕ → ℕ → SourceSet library × Option (List ℕ)
  unfolding row_for read_row
  read_chunks net s index offset len = with_row net index offset len (row_for net s index)

  -- Every candidate in turn, with a strike for each that fails.
  unfoldable pub ask_for_range :
      Network
      → SourceSet library
      → ℕ
      → ℕ
      → ℕ
      → List PeerCard
      → SourceSet library × Option (List ℕ × List ℕ)
  unfolding strike
  ask_for_range net s index offset len [] = (s, none)
  ask_for_range net s index offset len (card ∷ cards) = elim (net.peer_at card.endpoint) [
    | none ↦ ask_for_range net s index offset len cards
    | some connection ↦ elim (read_range connection s.token index offset len) [
      | Prelude.ok bytes ↦ (s, some (card.endpoint, bytes))
      | err e ↦ ask_for_range net (strike library s card.endpoint) index offset len cards
    ]
  ]

  unfoldable pub read_from_peers :
      Network → SourceSet library → ℕ → ℕ → ℕ → SourceSet library × Option (List ℕ × List ℕ)
  unfolding ask_for_range
  read_from_peers net s index offset len =
      ask_for_range net s index offset len (candidates library s index)

  -- The peer that answered becomes the active one; otherwise the first error stands.
  abbrev pub settle :
      Prelude.Error
      → SourceSet library × Option (List ℕ × List ℕ)
      → SourceSet library × Result (List ℕ)
  settle e (s, none) = (s, err e)
  settle e (s, some (endpoint, bytes)) = (record s { active = peer endpoint }, Prelude.ok bytes)

  -- `active_client.read_range(…)`, with the client that was made for the endpoint.
  unfoldable pub read_active : Network → SourceSet library → List ℕ → ℕ → ℕ → ℕ → Result (List ℕ)
  read_active net s endpoint index offset len = elim (net.peer_at endpoint) [
    | none ↦ err disconnected
    | some connection ↦ read_range connection s.token index offset len
  ]

  unfoldable pub read_ranged :
      Network → SourceSet library → Active → ℕ → ℕ → ℕ → SourceSet library × Result (List ℕ)
  unfolding read_from_peers read_active
  read_ranged net s origin index offset len =
      elim (read_range net.origin_at s.token index offset len) [
        | Prelude.ok bytes ↦ (s, Prelude.ok bytes)
        | err e ↦ settle e (read_from_peers net s index offset len)
      ]
  read_ranged net s (peer endpoint) index offset len =
      elim (read_active net s endpoint index offset len) [
        | Prelude.ok bytes ↦ (s, Prelude.ok bytes)
        | err e ↦ elim (read_range net.origin_at s.token index offset len) [
          | Prelude.ok bytes ↦
              (record (strike library s endpoint) { active = origin }, Prelude.ok bytes)
          | err e' ↦ settle e (read_from_peers net (strike library s endpoint) index offset len)
        ]
      ]

  abbrev pub or_ranged :
      Network
      → Active
      → ℕ
      → ℕ
      → ℕ
      → SourceSet library × Option (List ℕ)
      → SourceSet library × Result (List ℕ)
  or_ranged net first index offset len (s, some bytes) = (s, Prelude.ok bytes)
  or_ranged net first index offset len (s, none) = read_ranged net s first index offset len

  -- `ByteSource::read`: who answers first is taken before the chunks are tried.
  unfoldable pub read :
      Network → SourceSet library → ℕ → ℕ → ℕ → SourceSet library × Result (List ℕ)
  unfolding read_chunks read_ranged
  read net s index offset len =
      or_ranged net s.active index offset len (read_chunks net s index offset len)
