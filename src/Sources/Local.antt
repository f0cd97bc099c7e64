-- ===== src/Sources/Local.antt =====
-- How long a read by chunks takes, and one that the mount's own store serves (`read_chunks` of
-- crates/agent-share/src/mount/sources.rs).
use agent_share.Prelude.{
  ℕ, zero, suc, ◌+◌, ◌-◌, ◌%◌, ◌^◌, ◌<◌, ◌≤◌, ◌≡◌, refl, ap, sym, ◌∙◌, List, [], ◌++◌, arith, false,
  ◌||◌, some, length, take, drop, ltb, leb, ltb→lt, le→ltb_false, ltb_false→le, ◌==◌, Bool-cases,
  Option-cases, Bool, inl, inr,
}
use agent_share.Chunks.{ChunkLibrary}
use agent_share.Seed.{saturating_add, min}
use agent_share.Seed.Slices.{IsAt, advance, first-IsAt, empty, cut}
use agent_share.Seed.Read.{RowOf, IsComplete, ranges_of, nothing_taken}
use agent_share.Sources.{Network, SourceSet}
use agent_share.Sources.Reading.{chunk, stored, read_turns, read_row, kept}

module _ (library : ChunkLibrary) (net : Network) where
  open library use {ChunkMap, Store, size, index_at, leaf, range_start}

  chunk-stored :
      (s : SourceSet library) (store : Store) (index : ℕ) (address bytes : List ℕ)
      → s.store ≡ some store
      → library.get store address ≡ some bytes
      → chunk library net s index address ≡ (s, some (bytes, false))
  unfolding chunk
  chunk-stored s store index address bytes e g =
      let here : stored library s.store address ≡ some bytes =
        ap (λ o. stored library o address) e ∙ g in
      rw (here, chunk) refl

  module _ (index : ℕ) (row : ChunkMap) (store : Store) (content : List ℕ)
      (h : RowOf library row store content) (complete : IsComplete library row store)
      (offset end : ℕ) (inside : end ≤ size row) where
    abbrev At : ℕ → List ℕ → Type 0
    At = IsAt library row content (ranges_of library h) offset end inside

    read_turns-stored :
        (fuel : ℕ) (s : SourceSet library) (cursor : ℕ) (out : List ℕ)
        → s.store ≡ some store
        → end - cursor ≤ fuel
        → At cursor out
        → read_turns library fuel net s index row end cursor out false
          ≡ (s, some (take (end - offset) (drop offset content), false))
    unfolding read_turns
    read_turns-stored zero s cursor out e enough at =
        let u = at.upto in
        let f = at.from in
        let over : ltb cursor end ≡ false = le→ltb_false _ _ (omega arith) in
        let same : cursor ≡ end = omega arith in
        rw over (
          ap (λ o. (s, some (o, false)))
            (at.read ∙ ap (λ k. take (k - offset) (drop offset content)) same))
    read_turns-stored (suc fuel) s cursor out e enough at = elim (Bool-cases (ltb cursor end)) [
      | inr over ↦
          let u = at.upto in
          let p = ltb_false→le _ _ over in
          let same : cursor ≡ end = omega arith in
          rw (over, read_turns)
            (ap (λ o. (s, some (o, false)))
              (at.read ∙ ap (λ k. take (k - offset) (drop offset content)) same))
      | inl below ↦
          let lt = ltb→lt _ _ below in
          let (address, bytes, l, g, more) = complete.held cursor (omega (arith, inside)) in
          let within = (cursor + 2 ^ 64 - range_start row (index_at row cursor)) % 2 ^ 64 in
          let taken = min (end - cursor) (length bytes - within) in
          elim (Bool-cases (taken == 0)) [
            | inl stop ↦ absurd (
                nothing_taken library row store content h offset end inside cursor bytes address lt
                  l g stop complete)
            | inr some_ ↦
                let next =
                  advance library row content (ranges_of library h) offset end inside cursor within
                    taken out bytes at lt (h.part cursor address bytes (omega (arith, inside)) l g)
                    refl refl some_ in
                let known = chunk-stored s store index address bytes e g in
                let now = ap (λ p. p.1) known in
                let same = ap (λ p. p.0) known in
                rw (below, read_turns)
                  (rw (l, read_turns)
                    (rw (now, read_turns)
                      (rw (some_, read_turns)
                        (rw same (
                          read_turns-stored fuel s (cursor + taken)
                            (out ++ take taken (drop within bytes)) e (ground (arith, enough))
                            next)))))
          ]
    ]

  -- A mount whose store has the chunks of a file reads it without the network, and stays as it was.
  pub read_row-stored :
      (s : SourceSet library) (index : ℕ) (row : ChunkMap) (store : Store) (content : List ℕ)
      (offset len : ℕ)
      → RowOf library row store content
      → IsComplete library row store
      → s.store ≡ some store
      → read_row library net s index row offset len ≡ (s, some (take len (drop offset content)))
  unfolding read_row
  read_row-stored s index row store content offset len h complete e =
      let ranges = ranges_of library h in
      elim (Bool-cases (leb (size row) offset || (len == 0))) [
        | inl nothing ↦
            rw nothing
              (ap (λ o. (s, some o)) (sym (empty library row content ranges offset len nothing)))
        | inr something ↦
            let past : offset < size row = ground arith in
            let b = h.bound in
            let z = h.whole in
            let end = min (saturating_add offset len) (size row) in
            let inside : end ≤ size row = ground arith in
            let after : offset ≤ end = ground arith in
            let at = first-IsAt library row content ranges offset end inside after in
            rw something (
              ap (kept library index row) (
                read_turns-stored index row store content h complete offset end inside
                  (end - offset) s offset [] e (omega arith) at)
              ∙ ap (λ o. (s, some o)) (cut library row content ranges offset len past))
      ]

  -- More turns than the range has bytes change nothing: whatever the network answers, a turn takes a
  -- byte or ends the read.
  pub read_turns_enough :
      (fuel : ℕ) (s : SourceSet library) (index : ℕ) (row : ChunkMap) (end cursor : ℕ)
      (out : List ℕ) (fetched : Bool)
      → end - cursor ≤ fuel
      → read_turns library (suc fuel) net s index row end cursor out fetched
        ≡ read_turns library fuel net s index row end cursor out fetched
  unfolding read_turns
  read_turns_enough zero s index row end cursor out fetched enough =
      let over : ltb cursor end ≡ false = le→ltb_false _ _ (omega arith) in
      rw (over, read_turns) refl
  read_turns_enough (suc fuel) s index row end cursor out fetched enough =
      elim (Bool-cases (ltb cursor end)) [
        | inr over ↦ rw (over, read_turns) refl
        | inl below ↦ elim (Option-cases (leaf row (index_at row cursor))) [
          | inl n ↦ rw (below, read_turns) (rw (n, read_turns) refl)
          | inr (address, l) ↦
              let s' = (chunk library net s index address).0 in
              rw (below, read_turns)
                (rw (l, read_turns)
                  (elim (Option-cases (chunk library net s index address).1) [
                    | inl n ↦ rw (n, read_turns) refl
                    | inr ((bytes, now), c) ↦
                        let within =
                          (cursor + 2 ^ 64 - range_start row (index_at row cursor)) % 2 ^ 64 in
                        let taken = min (end - cursor) (length bytes - within) in
                        rw (c, read_turns)
                          (elim (Bool-cases (taken == 0)) [
                            | inl stop ↦ rw (stop, read_turns) refl
                            | inr some_ ↦
                                rw (some_, read_turns)
                                  (read_turns_enough fuel s' index row end (cursor + taken)
                                    (out ++ take taken (drop within bytes)) (fetched || now)
                                    (ground (arith, enough)))
                          ])
                  ]))
        ]
      ]
