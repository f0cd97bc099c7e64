-- ===== src/Sources/Availability.antt =====
-- A read that chunks do not serve: the origin and every candidate are asked before it fails.
use mathlib.Core.Path.{subst}
use mathlib.Core.List.{Memᴰ}
use agent_share.Prelude.{
  ℕ, ◌<◌, ◌≡◌, ◌≢◌, ◌⊎◌, refl, ap, sym, ◌∙◌, List, [], ◌∷◌, arith, true, false, Option, none, some,
  Result, err, bytes_eq, bytes_eq→eq, if◌then◌else◌, Bool-cases, Option-cases, inl, inr,
}
use agent_share.Prelude
use agent_share.Prelude.Assoc.{get, insert}
use agent_share.Client.{PeerCard}
use agent_share.Chunks.{ChunkLibrary}
use agent_share.Remote.{Connection, read_range}
use agent_share.Sources.{
  Network, SourceSet, Active, origin, peer, candidates, vouches, strikes_of, strike,
}
use agent_share.Sources.Reading.{
  read_chunks, ask_for_range, read_from_peers, read_active, read_ranged, read, or_ranged, settle,
}
use agent_share.Sources.Candidates.{cards_of, candidates_exact}
use agent_share.Sources.Reads.{IsSameView, read_chunks-same}

-- An answer with bytes.
abbrev pub IsAnswer : Result (List ℕ) → Type 0
IsAnswer (err e) = ⊥
IsAnswer (Prelude.ok bytes) = Unit {0}

Result-cases :
    (r : Result (List ℕ))
    → ((e : Prelude.Error) × (r ≡ err e)) ⊎ ((bytes : List ℕ) × (r ≡ Prelude.ok bytes))
Result-cases (err e) = inl (e, refl)
Result-cases (Prelude.ok bytes) = inr (bytes, refl)

module _ (net : Network) where
  -- The peer of a card answers the read.
  abbrev pub Answers : List ℕ → ℕ → ℕ → ℕ → PeerCard → Type 0
  Answers token index offset len card =
      (connection : Connection) × (net.peer_at card.endpoint ≡ some connection)
      × IsAnswer (read_range connection token index offset len)

  module _ (library : ChunkLibrary) where
    -- The origin answers the read, or the peer of a candidate does.
    abbrev pub IsAvailable : SourceSet library → ℕ → ℕ → ℕ → Type 0
    IsAvailable s index offset len =
        IsAnswer (read_range net.origin_at s.token index offset len)
        ⊎ ((card : PeerCard) × Memᴰ card (candidates library s index)
            × Answers s.token index offset len card)

    ask_for_range-Answers :
        (s : SourceSet library) (index offset len : ℕ) (cards : List PeerCard) (card : PeerCard)
        → Memᴰ card cards
        → Answers s.token index offset len card
        → (answer : List ℕ × List ℕ) × ((ask_for_range library net s index offset len cards).1
            ≡ some answer)
    unfolding ask_for_range
    ask_for_range-Answers s index offset len [] card m h = elim m [ ]
    ask_for_range-Answers s index offset len (c ∷ cards) card m (connection, at, answer) =
        elim (Option-cases (net.peer_at c.endpoint)) [
          | inl n ↦ elim m [
            | Memᴰ.head same ↦
                let e : net.peer_at c.endpoint ≡ some connection =
                  subst (λ d. net.peer_at d.endpoint ≡ some connection) same at in
                cc
            | Memᴰ.tail k ↦
                rw (n, ask_for_range)
                  (ask_for_range-Answers s index offset len cards card k (connection, at, answer))
          ]
          | inr (connection', n) ↦
              elim (Result-cases (read_range connection' s.token index offset len)) [
                | inr (bytes, r) ↦
                    rw (n, ask_for_range) (rw (r, ask_for_range) ((c.endpoint, bytes), refl))
                | inl (e, r) ↦ elim m [
                  | Memᴰ.head same ↦
                      let e1 : net.peer_at c.endpoint ≡ some connection =
                        subst (λ d. net.peer_at d.endpoint ≡ some connection) same at in
                      let e2 : connection ≡ connection' = cc in
                      elim (subst IsAnswer (ap (λ k. read_range k s.token index offset len) e2 ∙ r)
                        answer) [ ]
                  | Memᴰ.tail k ↦
                      rw (n, ask_for_range)
                        (rw (r, ask_for_range)
                          (ask_for_range-Answers (strike library s c.endpoint) index offset len
                            cards card k (connection, at, answer)))
                ]
              ]
        ]

    settle-answers :
        (e : Prelude.Error) (p : SourceSet library × Option (List ℕ × List ℕ))
        (answer : List ℕ × List ℕ)
        → p.1 ≡ some answer
        → IsAnswer (settle library e p).1
    settle-answers e (s, none) answer h = cc
    settle-answers e (s, some (endpoint, bytes)) answer h = tt

    -- A strike sets no other peer aside.
    strike-candidates :
        (s : SourceSet library) (endpoint : List ℕ) (index : ℕ) (card : PeerCard)
        → card.endpoint ≢ endpoint
        → Memᴰ card (candidates library s index)
        → Memᴰ card (candidates library (strike library s endpoint) index)
    unfolding strike strikes_of get insert
    strike-candidates s endpoint index card other m =
        let (published, (remote, few, good)) = ((candidates_exact library s index).1 card).0 m in
        let apart : bytes_eq endpoint card.endpoint ≡ false =
          elim (Bool-cases (bytes_eq endpoint card.endpoint)) [
            | inl e ↦ absurd (other (sym (bytes_eq→eq endpoint card.endpoint e)))
            | inr e ↦ e
          ] in
        let same : strikes_of (strike library s endpoint).strikes card.endpoint
            ≡ strikes_of s.strikes card.endpoint =
          rw apart refl in
        ((candidates_exact library (strike library s endpoint) index).1 card).1
          (published, (remote, subst (λ n. n < 3) (sym same) few, good))

    origin-answers :
        (s : SourceSet library) (index offset len : ℕ)
        → IsAvailable s index offset len
        → IsAnswer (read_ranged library net s origin index offset len).1
    unfolding read_ranged read_from_peers
    origin-answers s index offset len h =
        elim (Result-cases (read_range net.origin_at s.token index offset len)) [
          | inr (bytes, r) ↦ rw (r, read_ranged) tt
          | inl (e, r) ↦ elim h [
            | inl a ↦ elim (subst IsAnswer r a) [ ]
            | inr (card, m, a) ↦
                let (answer, found) =
                  ask_for_range-Answers s index offset len (candidates library s index) card m a in
                rw (r, read_ranged)
                  (settle-answers e (read_from_peers library net s index offset len) answer found)
          ]
        ]

    peer-answers :
        (s : SourceSet library) (endpoint : List ℕ) (index offset len : ℕ)
        → IsAvailable s index offset len
        → IsAnswer (read_ranged library net s (peer endpoint) index offset len).1
    unfolding read_ranged read_from_peers read_active
    peer-answers s endpoint index offset len h =
        elim (Result-cases (read_active library net s endpoint index offset len)) [
          | inr (bytes, r) ↦ rw (r, read_ranged) tt
          | inl (e, r) ↦ elim (Result-cases (read_range net.origin_at s.token index offset len)) [
            | inr (bytes, o) ↦ rw (r, read_ranged) (rw (o, read_ranged) tt)
            | inl (e', o) ↦ elim h [
              | inl a ↦ elim (subst IsAnswer o a) [ ]
              | inr (card, m, (connection, at, answers)) ↦
                  let apart : card.endpoint ≢ endpoint = λ same.
                    let at' : net.peer_at endpoint ≡ some connection =
                      subst (λ k. net.peer_at k ≡ some connection) same at in
                    let direct : read_active library net s endpoint index offset len
                        ≡ read_range connection s.token index offset len =
                      rw (at', read_active) refl in
                    elim (subst IsAnswer (sym direct ∙ r) answers) [ ] in
                  let s' = strike library s endpoint in
                  let (answer, found) =
                    ask_for_range-Answers s' index offset len (candidates library s' index) card
                      (strike-candidates s endpoint index card apart m) (connection, at, answers) in
                  rw (r, read_ranged)
                    (rw (o, read_ranged)
                      (settle-answers e (read_from_peers library net s' index offset len) answer
                        found))
            ]
          ]
        ]

    ranged-answers :
        (s : SourceSet library) (first : Active) (index offset len : ℕ)
        → IsAvailable s index offset len
        → IsAnswer (read_ranged library net s first index offset len).1
    ranged-answers s origin index offset len h = origin-answers s index offset len h
    ranged-answers s (peer endpoint) index offset len h = peer-answers s endpoint index offset len h

    same_candidates :
        (s s' : SourceSet library) (index : ℕ) (card : PeerCard)
        → IsSameView library net s s'
        → Memᴰ card (candidates library s index)
        → Memᴰ card (candidates library s' index)
    same_candidates s s' index card same m =
        let (published, (remote, few, good)) = ((candidates_exact library s index).1 card).0 m in
        ((candidates_exact library s' index).1 card).1 (
          subst (λ o. Memᴰ card (cards_of library o)) same.cards published,
          (
            subst (λ e. card.endpoint ≢ e) same.local_endpoint remote,
            subst (λ t. strikes_of t card.endpoint < 3) same.strikes few,
            subst (λ t. vouches card s'.tree index t ≡ true) same.total_slots
                (subst (λ t. vouches card t index s.total_slots ≡ true) same.tree good),
          ),
        )

    same-IsAvailable :
        (s s' : SourceSet library) (index offset len : ℕ)
        → IsSameView library net s s'
        → IsAvailable s index offset len
        → IsAvailable s' index offset len
    same-IsAvailable s s' index offset len same h = elim h [
      | inl a ↦
          inl (subst (λ t. IsAnswer (read_range net.origin_at t index offset len)) same.token a)
      | inr (card, m, a) ↦ inr (
        card,
        same_candidates s s' index card same m,
        subst (λ t. Answers t index offset len card) same.token a,
      )
    ]

    or_ranged-answers :
        (first : Active) (index offset len : ℕ) (p : SourceSet library × Option (List ℕ))
        → IsAvailable p.0 index offset len
        → IsAnswer (or_ranged library net first index offset len p).1
    or_ranged-answers first index offset len (s, some bytes) h = tt
    or_ranged-answers first index offset len (s, none) h = ranged-answers s first index offset len h

    -- A read succeeds where the origin answers it, or any peer that is a candidate for the slot, whoever
    -- was the active one and whatever came of the chunks.
    pub read_available :
        (s : SourceSet library) (index offset len : ℕ)
        → IsAvailable s index offset len
        → IsAnswer (read library net s index offset len).1
    unfolding read
    read_available s index offset len h =
        or_ranged-answers s.active index offset len (read_chunks library net s index offset len) (
          same-IsAvailable s (read_chunks library net s index offset len).0 index offset len
            (read_chunks-same library net s index offset len) h)
