-- ===== src/Sources/Chunks.antt =====
-- The chunk path of a read: whatever the origin and the peers answer, the bytes are those of the file.
use mathlib.Core.Path.{subst}
use agent_share.Prelude.{
  ℕ, zero, suc, ◌+◌, ◌-◌, ◌%◌, ◌^◌, ◌<◌, ◌≤◌, ◌≡◌, ◌⊎◌, inl, inr, refl, ap, sym, ◌∙◌, List, [], ◌∷◌,
  ◌++◌, arith, Bool, true, false, ◌||◌, Option, none, some, length, take, drop, ltb, leb, ltb→lt,
  le→ltb_false, ltb_false→le, ◌==◌, bytes_eq, bytes_eq→eq, if◌then◌else◌, Bool-cases, Option-cases,
  Result, err,
}
use agent_share.Prelude
use agent_share.Chunks.{ChunkLibrary}
use agent_share.Remote.{fetch_chunk, fetch_chunk_map}
use agent_share.Seed.{saturating_add, min, get_slot}
use agent_share.Seed.Slices.{Ranges, IsAt, advance, first-IsAt, empty, cut}
use agent_share.Seed.Read.{RowOf, IsComplete}
use agent_share.Sources.Local.{read_row-stored}
use agent_share.Sources.{Network, SourceSet}
use agent_share.Sources.Reading.{
  row_for, chunk, chunk_from_peers, read_turns, read_row, read_chunks, stored, with_chunk, or_else,
  answered, kept, learn, with_map, with_row,
}

module _ (library : ChunkLibrary) where
  open library use {ChunkMap, Store, size, index_at, leaf, range_start, chunk_hash, put, put_map}

  -- A store gives a chunk out under its hash only.
  pub record IsHonest (store : Store) : Type 0 where
    pub hashed :
        (address bytes : List ℕ)
        → library.get store address ≡ some bytes
        → chunk_hash bytes ≡ address

  abbrev pub AllHonest : Option Store → Type 0
  AllHonest none = Unit {0}
  AllHonest (some store) = IsHonest store

  -- A store stays so when a chunk is put under its hash, and when a row is put.
  pub record PutsHonest : Type 0 where
    pub keeps :
        (store : Store) (bytes : List ℕ)
        → IsHonest store
        → IsHonest (put store (chunk_hash bytes) bytes)
    pub keeps_map : (store : Store) (row : ChunkMap) → IsHonest store → IsHonest (put_map store row)

  -- A row of the file `content`: no other bytes than a part of the file have the hash that the row
  -- has there.
  pub record IsRowOf (row : ChunkMap) (content : List ℕ) : Type 0 where
    pub ranges : Ranges library row content
    pub part :
        (cursor : ℕ) (address bytes : List ℕ)
        → cursor < size row
        → leaf row (index_at row cursor) ≡ some address
        → chunk_hash bytes ≡ address
        → bytes ≡ take (length bytes) (drop (range_start row (index_at row cursor)) content)

  -- A row of the file, and a store that has every chunk of the row.
  abbrev pub HasFile : SourceSet library × Option ChunkMap → Type 0
  HasFile p =
      (row : ChunkMap) × (store : Store) × (p.1 ≡ some row)
      × (p.0.store ≡ some store)
      × IsComplete library row store

  module _ (puts : PutsHonest) (net : Network) where
    abbrev Hashed : List ℕ → Option (List ℕ × Bool) → Type 0
    Hashed address none = Unit {0}
    Hashed address (some (bytes, now)) = chunk_hash bytes ≡ address

    with_chunk-AllHonest :
        (store : Option Store) (address bytes : List ℕ)
        → AllHonest store
        → chunk_hash bytes ≡ address
        → AllHonest (with_chunk library store address bytes)
    with_chunk-AllHonest none address bytes h e = tt
    with_chunk-AllHonest (some store) address bytes h e =
        subst (λ a. IsHonest (put store a bytes)) e (puts.keeps store bytes h)

    stored-hashed :
        (store : Option Store) (address bytes : List ℕ)
        → AllHonest store
        → stored library store address ≡ some bytes
        → chunk_hash bytes ≡ address
    stored-hashed none address bytes h e = cc
    stored-hashed (some store) address bytes h e = h.hashed address bytes e

    -- A chunk is believed only under its hash, whoever gave it.
    chunk-Hashed :
        (s : SourceSet library) (index : ℕ) (address : List ℕ)
        → AllHonest s.store
        → AllHonest (chunk library net s index address).0.store
          × Hashed address (chunk library net s index address).1
    unfolding chunk
    chunk-Hashed s index address h = elim (Option-cases (stored library s.store address)) [
      | inr (bytes, e) ↦ rw (e, chunk) (h, stored-hashed s.store address bytes h e)
      | inl e ↦
          elim (Option-cases (
            or_else (answered (fetch_chunk library net.origin_at s.token address))
              (chunk_from_peers library net s index address))) [
                | inl n ↦ rw (e, chunk) (rw (n, chunk) (h, tt))
                | inr (fetched, f) ↦ elim (Bool-cases (bytes_eq (chunk_hash fetched) address)) [
                  | inl good ↦
                      let same = bytes_eq→eq (chunk_hash fetched) address good in
                      rw (e, chunk)
                        (rw (f, chunk)
                          (rw (good, chunk)
                            (with_chunk-AllHonest s.store address fetched h same, same)))
                  | inr bad ↦ rw (e, chunk) (rw (f, chunk) (rw (bad, chunk) (h, tt)))
                ]
              ]
    ]

    with_map-AllHonest :
        (store : Option Store) (row : ChunkMap)
        → AllHonest store
        → AllHonest (with_map library store row)
    with_map-AllHonest none row h = tt
    with_map-AllHonest (some store) row h = puts.keeps_map store row h

    -- A loop that gives up, or reads the whole range.
    abbrev IsPart : List ℕ → ℕ → ℕ → Option (List ℕ × Bool) → Type 0
    IsPart content offset end none = Unit {0}
    IsPart content offset end (some (out, fetched)) =
        out ≡ take (end - offset) (drop offset content)

    -- Nothing, or the slice that was asked for.
    abbrev IsSlice : List ℕ → ℕ → ℕ → Option (List ℕ) → Type 0
    IsSlice content offset len none = Unit {0}
    IsSlice content offset len (some bytes) = bytes ≡ take len (drop offset content)

    slice_or_none :
        (content : List ℕ) (offset len : ℕ) (o : Option (List ℕ))
        → IsSlice content offset len o
        → (o ≡ none) ⊎ (o ≡ some (take len (drop offset content)))
    slice_or_none content offset len none h = inl refl
    slice_or_none content offset len (some bytes) h = inr (ap some h)

    kept-IsSlice :
        (content : List ℕ) (offset len end index : ℕ) (row : ChunkMap)
        → take (end - offset) (drop offset content) ≡ take len (drop offset content)
        → (p : SourceSet library × Option (List ℕ × Bool)) → IsPart content offset end p.1
        → IsSlice content offset len (kept library index row p).1
    kept-IsSlice content offset len end index row e (s, none) h = tt
    kept-IsSlice content offset len end index row e (s, some (out, fetched)) h = h ∙ e

    learn-AllHonest :
        (s : SourceSet library) (index : ℕ) (r : Result (Option ChunkMap))
        → AllHonest s.store
        → AllHonest (learn library s index r).0.store
    learn-AllHonest s index (err e) h = h
    learn-AllHonest s index (Prelude.ok none) h = h
    learn-AllHonest s index (Prelude.ok (some row)) h = with_map-AllHonest s.store row h

    module _ (index : ℕ) (row : ChunkMap) (content : List ℕ) (h : IsRowOf row content)
        (offset end : ℕ) (inside : end ≤ size row) where
      abbrev At : ℕ → List ℕ → Type 0
      At = IsAt library row content h.ranges offset end inside

      read_turns_lem :
          (fuel : ℕ) (s : SourceSet library) (cursor : ℕ) (out : List ℕ) (fetched : Bool)
          → end - cursor ≤ fuel
          → AllHonest s.store
          → At cursor out
          → IsPart content offset end
              (read_turns library fuel net s index row end cursor out fetched).1
      unfolding read_turns
      read_turns_lem zero s cursor out fetched enough honest at =
          let u = at.upto in
          let f = at.from in
          let over : ltb cursor end ≡ false = le→ltb_false _ _ (omega arith) in
          let same : cursor ≡ end = omega arith in
          rw over (at.read ∙ ap (λ k. take (k - offset) (drop offset content)) same)
      read_turns_lem (suc fuel) s cursor out fetched enough honest at =
          elim (Bool-cases (ltb cursor end)) [
            | inr over ↦
                let u = at.upto in
                let p = ltb_false→le _ _ over in
                let same : cursor ≡ end = omega arith in
                rw (over, read_turns)
                  (at.read ∙ ap (λ k. take (k - offset) (drop offset content)) same)
            | inl below ↦ elim (Option-cases (leaf row (index_at row cursor))) [
              | inl n ↦ rw (below, read_turns) (rw (n, read_turns) tt)
              | inr (address, l) ↦
                  let (honest', hashed) = chunk-Hashed s index address honest in
                  rw (below, read_turns)
                    (rw (l, read_turns)
                      (elim (Option-cases (chunk library net s index address).1) [
                        | inl n ↦ rw (n, read_turns) tt
                        | inr ((bytes, now), c) ↦
                            let within =
                              (cursor + 2 ^ 64 - range_start row (index_at row cursor)) % 2 ^ 64 in
                            let taken = min (end - cursor) (length bytes - within) in
                            let hash : chunk_hash bytes ≡ address =
                              subst (Hashed address) c hashed in
                            let part =
                              h.part cursor address bytes (omega (arith, inside, ltb→lt _ _ below))
                                l hash in
                            rw (c, read_turns)
                              (elim (Bool-cases (taken == 0)) [
                                | inl stop ↦ rw (stop, read_turns) tt
                                | inr some_ ↦
                                    let next =
                                      advance library row content h.ranges offset end inside cursor
                                        within taken out bytes at (ltb→lt _ _ below) part refl refl
                                        some_ in
                                    rw (some_, read_turns)
                                      (read_turns_lem fuel (chunk library net s index address).0
                                        (cursor + taken) (out ++ take taken (drop within bytes))
                                        (fetched || now) (ground (arith, enough)) honest' next)
                              ])
                      ]))
            ]
          ]

    read_row_exact :
        (s : SourceSet library) (index : ℕ) (row : ChunkMap) (content : List ℕ) (offset len : ℕ)
        → AllHonest s.store
        → IsRowOf row content
        → IsSlice content offset len (read_row library net s index row offset len).1
    unfolding read_row
    read_row_exact s index row content offset len honest h =
        elim (Bool-cases (leb (size row) offset || (len == 0))) [
          | inl nothing ↦ rw nothing (sym (empty library row content h.ranges offset len nothing))
          | inr something ↦
              let past : offset < size row = ground arith in
              let b = h.ranges.bound in
              let z = h.ranges.whole in
              let end = min (saturating_add offset len) (size row) in
              let inside : end ≤ size row = ground arith in
              let after : offset ≤ end = ground arith in
              let at = first-IsAt library row content h.ranges offset end inside after in
              rw something (
                kept-IsSlice content offset len end index row
                  (cut library row content h.ranges offset len past)
                  (read_turns library (end - offset) net s index row end offset [] false)
                  (read_turns_lem index row content h offset end inside (end - offset) s offset []
                    false (omega arith) honest at))
        ]

    row_for-AllHonest :
        (s : SourceSet library) (index : ℕ)
        → AllHonest s.store
        → AllHonest (row_for library net s index).0.store
    unfolding row_for
    row_for-AllHonest s index honest = elim (Option-cases (get_slot s.rows index)) [
      | inr (row, e) ↦ rw (e, row_for) honest
      | inl e ↦
          rw (e, row_for)
            (learn-AllHonest s index (fetch_chunk_map library net.origin_at s.token index) honest)
    ]

    with_row-IsSlice :
        (content : List ℕ) (index offset len : ℕ) (p : SourceSet library × Option ChunkMap)
        → AllHonest p.0.store
        → ((row : ChunkMap) → p.1 ≡ some row → IsRowOf row content)
        → IsSlice content offset len (with_row library net index offset len p).1
    with_row-IsSlice content index offset len (s, none) honest rows = tt
    with_row-IsSlice content index offset len (s, some row) honest rows =
        read_row_exact s index row content offset len honest (rows row refl)

    RowOf-store :
        (row : ChunkMap) (store : Store) (content : List ℕ)
        → IsRowOf row content
        → IsHonest store
        → RowOf library row store content
    RowOf-store row store content h honest = record {
      whole = h.ranges.whole;
      bound = h.ranges.bound;
      starts = h.ranges.starts;
      part = λ cursor address bytes lt l g.
          h.part cursor address bytes lt l (honest.hashed address bytes g);
    }

    with_row-HasFile :
        (content : List ℕ) (index offset len : ℕ) (p : SourceSet library × Option ChunkMap)
        → AllHonest p.0.store
        → ((row : ChunkMap) → p.1 ≡ some row → IsRowOf row content)
        → HasFile p
        → (with_row library net index offset len p).1 ≡ some (take len (drop offset content))
    with_row-HasFile content index offset len (s, none) honest rows (row, store, e, f, complete) =
        cc
    with_row-HasFile content index offset len (s, some row') honest rows
          (row, store, e, f, complete) =
        let same : row ≡ row' = cc in
        let trusted : IsHonest store = subst AllHonest f honest in
        ap (λ p. p.1)
          (read_row-stored library net s index row' store content offset len
            (RowOf-store row' store content (rows row' refl) trusted)
            (subst (λ r. IsComplete library r store) same complete) f)

    -- Whatever the origin and the peers answer, a read by chunks gives exactly the bytes of the file in the
    -- range that was asked for, fewer only at the end of the file; or it gives up, and then the mount has
    -- no row for the file, or a store without some chunk of it. The row is the file's, and the store gives
    -- a chunk out under its hash only.
    pub read_chunks_exact :
        (s : SourceSet library) (index : ℕ) (content : List ℕ) (offset len : ℕ)
        → AllHonest s.store
        → ((row : ChunkMap) → (row_for library net s index).1 ≡ some row → IsRowOf row content)
        → (((read_chunks library net s index offset len).1 ≡ none)
            × (HasFile (row_for library net s index) → ⊥))
          ⊎ ((read_chunks library net s index offset len).1 ≡ some (take len (drop offset content)))
    unfolding read_chunks
    read_chunks_exact s index content offset len honest rows =
        let p = row_for library net s index in
        let honest' = row_for-AllHonest s index honest in
        elim (slice_or_none content offset len _
          (with_row-IsSlice content index offset len p honest' rows)) [
            | inr e ↦ inr e
            | inl n ↦ inl (
              n,
              λ has. let e = with_row-HasFile content index offset len p honest' rows has in cc,
            )
          ]
