-- ===== src/Seed/Read.antt =====
-- What a seeder's read gives: exactly the bytes of the file, or a refusal.
use mathlib.Core.Path.{subst}
use agent_share.Prelude.{
  ℕ, zero, suc, ◌+◌, ◌-◌, ◌%◌, ◌^◌, ◌<◌, ◌≤◌, ◌≡◌, ◌⊎◌, inl, inr, refl, ap, sym, ◌∙◌, List, [],
  ◌++◌, arith, true, false, ◌||◌, none, some, length, take, drop, ltb, leb, ltb→lt, le→ltb_false,
  ltb_false→le, ◌==◌, Bool-cases, Option-cases,
}
use agent_share.Framing.{max_read_len}
use agent_share.Framing.Answers.{ReadStatus}
use agent_share.Chunks.{ChunkLibrary}
use agent_share.Seed.Slices.{Ranges, IsAt, advance, first-IsAt, empty, cut}
use agent_share.Seed.{
  Seeder, State, done, hole, read_loop, read_row, row_of, answer_read, report_hole, saturating_add,
  min, settled,
}

module _ (library : ChunkLibrary) where
  open library use {ChunkMap, Store, size, index_at, leaf, range_start}

  -- A row of the file `content`, and a store whose chunks under the row's addresses are parts of the
  -- file at the row's ranges: addresses are hashes of the content.
  pub record RowOf (row : ChunkMap) (store : Store) (content : List ℕ) : Type 0 where
    pub whole : size row ≡ length content
    pub bound : length content < 2 ^ 64
    pub starts : (cursor : ℕ) → cursor < size row → range_start row (index_at row cursor) ≤ cursor
    pub part :
        (cursor : ℕ) (address chunk : List ℕ)
        → cursor < size row
        → leaf row (index_at row cursor) ≡ some address
        → library.get store address ≡ some chunk
        → chunk ≡ take (length chunk) (drop (range_start row (index_at row cursor)) content)

  -- Every position of the file is in a chunk that the store has.
  pub record IsComplete (row : ChunkMap) (store : Store) : Type 0 where
    pub held :
        (cursor : ℕ)
        → cursor < size row
        → (address : List ℕ) × (chunk : List ℕ) × (leaf row (index_at row cursor) ≡ some address)
          × (library.get store address ≡ some chunk)
          × (cursor < range_start row (index_at row cursor) + length chunk)

  abbrev pub ranges_of :
      {row : ChunkMap} {store : Store} {content : List ℕ}
      → RowOf row store content
      → Ranges library row content
  ranges_of h = record { whole = h.whole; bound = h.bound; starts = h.starts }

  module _ (row : ChunkMap) (store : Store) (content : List ℕ) (h : RowOf row store content)
      (offset end : ℕ) (inside : end ≤ size row) where
    abbrev At : ℕ → List ℕ → Type 0
    At = IsAt library row content (ranges_of h) offset end inside

    pub nothing_taken :
        (cursor : ℕ) (chunk address : List ℕ)
        → cursor < end
        → leaf row (index_at row cursor) ≡ some address
        → library.get store address ≡ some chunk
        → (min
              (end - cursor)
              (length chunk - (cursor + 2 ^ 64 - range_start row (index_at row cursor)) % 2 ^ 64)
            == 0)
          ≡ true
        → IsComplete row store
        → ⊥
    nothing_taken cursor chunk address lt l g none_ complete =
        let (address', chunk', l', g', b) = complete.held cursor (omega (arith, inside)) in
        let one : some address' ≡ some address = sym l' ∙ l in
        let same : chunk' ≡ chunk = cc in
        let start = range_start row (index_at row cursor) in
        let s = h.starts cursor (omega (arith, inside)) in
        let bound = h.bound in
        let z = h.whole in
        let w : (cursor + 2 ^ 64 - start) % 2 ^ 64 ≡ cursor - start = omega (arith, inside) in
        let b' : cursor < start + length chunk = subst (λ c. cursor < start + length c) same b in
        ground arith

    read_loop_lem :
        (fuel cursor : ℕ) (out : List ℕ)
        → end - cursor ≤ fuel
        → At cursor out
        → ((read_loop library fuel store row end cursor out ≡ hole) × (IsComplete row store → ⊥))
          ⊎ (read_loop library fuel store row end cursor out
              ≡ done (take (end - offset) (drop offset content)))
    unfolding read_loop
    read_loop_lem zero cursor out enough at =
        let u = at.upto in
        let f = at.from in
        let over : ltb cursor end ≡ false = le→ltb_false _ _ (omega arith) in
        let same : cursor ≡ end = omega arith in
        inr (
          rw over (ap done at.read ∙ ap (λ k. done (take (k - offset) (drop offset content))) same))
    read_loop_lem (suc fuel) cursor out enough at = elim (Bool-cases (ltb cursor end)) [
      | inr over ↦
          let u = at.upto in
          let p = ltb_false→le _ _ over in
          let same : cursor ≡ end = omega arith in
          inr (
            rw (over, read_loop)
              (ap done at.read ∙ ap (λ k. done (take (k - offset) (drop offset content))) same))
      | inl below ↦
          found (ltb→lt _ _ below) below (Option-cases (leaf row (index_at row cursor)))
            (λ c o n k. read_loop_lem fuel c o n k)
    ]
      where
        Answer : Type 0
        Answer =
            ((read_loop library (suc fuel) store row end cursor out ≡ hole)
              × (IsComplete row store → ⊥))
            ⊎ (read_loop library (suc fuel) store row end cursor out
                ≡ done (take (end - offset) (drop offset content)))

        Rest : Type 0
        Rest =
            (c : ℕ) (o : List ℕ)
            → end - c ≤ fuel
            → At c o
            → ((read_loop library fuel store row end c o ≡ hole) × (IsComplete row store → ⊥))
              ⊎ (read_loop library fuel store row end c o
                  ≡ done (take (end - offset) (drop offset content)))

        within : ℕ
        within = (cursor + 2 ^ 64 - range_start row (index_at row cursor)) % 2 ^ 64

        turned :
            (address chunk : List ℕ)
            → cursor < end
            → ltb cursor end ≡ true
            → leaf row (index_at row cursor) ≡ some address
            → library.get store address ≡ some chunk
            → Rest
            → Answer
        turned address chunk lt below l g rest =
            let taken = min (end - cursor) (length chunk - within) in
            elim (Bool-cases (taken == 0)) [
              | inl none_ ↦ inl (
                rw (below, read_loop) (rw l (rw g (rw none_ refl))),
                λ complete. nothing_taken cursor chunk address lt l g none_ complete,
              )
              | inr some_ ↦
                  let next =
                    advance library row content (ranges_of h) offset end inside cursor within taken
                      out chunk at lt (h.part cursor address chunk (omega (arith, inside)) l g) refl
                      refl some_ in
                  let more : 0 < taken = ground arith in
                  let e : read_loop library (suc fuel) store row end cursor out
                      ≡ read_loop library fuel store row end (cursor + taken)
                          (out ++ take taken (drop within chunk)) =
                    rw (below, read_loop) (rw l (rw g (rw some_ refl))) in
                  elim (rest (cursor + taken) (out ++ take taken (drop within chunk)) (omega arith)
                    next) [ inl (k, missing) ↦ inl (e ∙ k, missing) | inr k ↦ inr (e ∙ k) ]
            ]

        found :
            cursor < end
            → ltb cursor end ≡ true
            → (leaf row (index_at row cursor) ≡ none)
              ⊎ ((address : List ℕ) × (leaf row (index_at row cursor) ≡ some address))
            → Rest
            → Answer
        found lt below (inl l) rest = inl (
          rw (below, read_loop) (rw l refl),
          λ complete.
              let (address, chunk, l', g', b) = complete.held cursor (omega (arith, inside)) in cc,
        )
        found lt below (inr (address, l)) rest = elim (Option-cases (library.get store address)) [
          | inl g ↦ inl (
            rw (below, read_loop) (rw l (rw g refl)),
            λ complete.
                let (address', chunk, l', g', b) = complete.held cursor (omega (arith, inside)) in
                let same : some address' ≡ some address = sym l' ∙ l in cc,
          )
          | inr (chunk, g) ↦ turned address chunk lt below l g rest
        ]

  read_row_lem :
      (s : Seeder library) (state : State library) (row : ChunkMap) (content : List ℕ)
      (index offset len : ℕ)
      → RowOf row state.store content
      → (read_row library s state row index offset len
          ≡ (s, ReadStatus.ok, take len (drop offset content)))
        ⊎ ((read_row library s state row index offset len
              ≡ (report_hole library s index, ReadStatus.bad_index, []))
            × (IsComplete row state.store → ⊥))
  unfolding read_row
  read_row_lem s state row content index offset len h =
      elim (Bool-cases (leb (size row) offset || (len == 0))) [
        | inl nothing ↦ inl (
            rw nothing (
              ap (λ d. (s, ReadStatus.ok, d))
                (sym (empty library row content (ranges_of h) offset len nothing))))
        | inr something ↦
            let past : offset < size row = ground arith in
            let b = h.bound in
            let z = h.whole in
            let end = min (saturating_add offset len) (size row) in
            let inside : end ≤ size row = ground arith in
            let after : offset ≤ end = ground arith in
            let at = first-IsAt library row content (ranges_of h) offset end inside after in
            elim (read_loop_lem row state.store content h offset end inside (end - offset) offset []
              (omega arith) at) [
                | inl (e, missing) ↦ inr (rw something (ap (settled library s index) e), missing)
                | inr e ↦ inl (
                    rw something (
                      ap (settled library s index) e
                      ∙ ap (λ d. (s, ReadStatus.ok, d))
                          (cut library row content (ranges_of h) offset len past)))
              ]
      ]

  -- A read of a row within the cap is answered with exactly the bytes of the file in the range that
  -- was asked for, fewer only at the end of the file; or it is refused, and then the store lacks a
  -- chunk of the file.
  pub answer_read_exact :
      (s : Seeder library) (state : State library) (row : ChunkMap) (content : List ℕ)
      (index offset len : ℕ)
      → row_of library s index ≡ some (state, row)
      → RowOf row state.store content
      → len ≤ max_read_len
      → (answer_read library s index offset len
          ≡ (s, ReadStatus.ok, take len (drop offset content)))
        ⊎ ((answer_read library s index offset len
              ≡ (report_hole library s index, ReadStatus.bad_index, []))
            × (IsComplete row state.store → ⊥))
  unfolding answer_read
  answer_read_exact s state row content index offset len e h cap =
      let within : ltb max_read_len len ≡ false = le→ltb_false _ _ cap in
      let reads : answer_read library s index offset len
          ≡ read_row library s state row index offset len =
        rw (within, answer_read) (rw (e, answer_read) refl) in
      subst
        (λ r.
          (r ≡ (s, ReadStatus.ok, take len (drop offset content)))
          ⊎ ((r ≡ (report_hole library s index, ReadStatus.bad_index, []))
              × (IsComplete row state.store → ⊥)))
        (sym reads) (read_row_lem s state row content index offset len h)
