-- ===== src/Sources/Strikes.antt =====
-- The strikes of the active peer, over reads that nobody answers.
use mathlib.Core.Path.{subst}
use mathlib.Core.List.{Memᴰ}
use agent_share.Prelude.{
  ℕ, zero, suc, ◌+◌, ◌%◌, ◌<◌, ◌≤◌, ◌≡◌, ◌≢◌, refl, ap, sym, ◌∙◌, List, [], ◌∷◌, arith, true,
  Option, none, some, bytes_eq, bytes_eq→eq, bytes_eq_refl, Error, disconnected, Bool-cases, inl,
  inr,
}
use agent_share.Prelude.Assoc.{get, insert}
use agent_share.Client.{PeerCard}
use agent_share.Chunks.{ChunkLibrary}
use agent_share.Remote.{read_range, fetch_chunk_map}
use agent_share.Seed.{get_slot}
use agent_share.Sources.{Network, SourceSet, peer, candidates, strikes_of, strike, vouches}
use agent_share.Sources.Reading.{
  row_for, read_chunks, ask_for_range, read_from_peers, read_active, read_ranged, read, settle,
  or_ranged, with_row,
}
use agent_share.Sources.Candidates.{cards_of, candidates_exact}

-- Every peer can be dialled, and no stream opens.
abbrev pub silent : Network
silent = record { origin_at = λ request. none; peer_at = λ endpoint. some (λ request. none) }

module _ (library : ChunkLibrary) (index offset len : ℕ) where
  -- Reads of one range, one after the other.
  unfoldable pub silent_reads : ℕ → SourceSet library → SourceSet library
  silent_reads zero s = s
  silent_reads (suc n) s = silent_reads n (read library silent s index offset len).0

  module _ (endpoint : List ℕ) where
    strikes-strike :
        (s : SourceSet library)
        → strikes_of (strike library s endpoint).strikes endpoint
          ≡ (strikes_of s.strikes endpoint + 1) % 256
    unfolding strike strikes_of get insert
    strikes-strike s = rw (bytes_eq_refl endpoint) refl

    strikes-strike_other :
        (s : SourceSet library) (other : List ℕ)
        → other ≢ endpoint
        → strikes_of (strike library s other).strikes endpoint ≡ strikes_of s.strikes endpoint
    unfolding strike strikes_of get insert
    strikes-strike_other s other h = elim (Bool-cases (bytes_eq other endpoint)) [
      | inl e ↦ absurd (h (bytes_eq→eq other endpoint e))
      | inr e ↦ rw e refl
    ]

    -- What a read that nobody answers leaves as it was, but for the strikes.
    record IsLeft (s s' : SourceSet library) : Type 0 where
      tree : s.tree ≡ s'.tree
      total_slots : s.total_slots ≡ s'.total_slots
      cards : s.cards ≡ s'.cards
      local_endpoint : s.local_endpoint ≡ s'.local_endpoint
      rows : get_slot s.rows index ≡ get_slot s'.rows index
      active : s.active ≡ s'.active

    IsLeft-trans : (s t u : SourceSet library) → IsLeft s t → IsLeft t u → IsLeft s u
    IsLeft-trans s t u h k = record {
      tree = h.tree ∙ k.tree;
      total_slots = h.total_slots ∙ k.total_slots;
      cards = h.cards ∙ k.cards;
      local_endpoint = h.local_endpoint ∙ k.local_endpoint;
      rows = h.rows ∙ k.rows;
      active = h.active ∙ k.active;
    }

    IsLeft-by_strike : (s : SourceSet library) (other : List ℕ) → IsLeft s (strike library s other)
    unfolding strike
    IsLeft-by_strike s other = record {
      tree = refl;
      total_slots = refl;
      cards = refl;
      local_endpoint = refl;
      rows = refl;
      active = refl;
    }

    IsLeft-alone : (s : SourceSet library) → IsLeft s s
    IsLeft-alone s = record {
      tree = refl;
      total_slots = refl;
      cards = refl;
      local_endpoint = refl;
      rows = refl;
      active = refl;
    }

    -- Every card's peer is struck, and none answers.
    ask_for_range-silent :
        (s : SourceSet library) (cards : List PeerCard)
        → ((card : PeerCard) → Memᴰ card cards → card.endpoint ≢ endpoint)
        → ((ask_for_range library silent s index offset len cards).1 ≡ none)
          × (strikes_of (ask_for_range library silent s index offset len cards).0.strikes endpoint
              ≡ strikes_of s.strikes endpoint)
          × IsLeft s (ask_for_range library silent s index offset len cards).0
    unfolding ask_for_range read_range
    ask_for_range-silent s [] h = (refl, refl, IsLeft-alone s)
    ask_for_range-silent s (c ∷ cards) h =
        let (none_, same, left) =
          ask_for_range-silent (strike library s c.endpoint) cards
            (λ card m. h card (Memᴰ.tail m)) in
        (
          none_,
          same ∙ strikes-strike_other s c.endpoint (h c (Memᴰ.head refl)),
          IsLeft-trans s (strike library s c.endpoint) _ (IsLeft-by_strike s c.endpoint) left,
        )

    -- A peer with three strikes is not a candidate.
    struck_out :
        (s : SourceSet library)
        → 3 ≤ strikes_of s.strikes endpoint
        → (card : PeerCard) → Memᴰ card (candidates library s index)
        → card.endpoint ≢ endpoint
    struck_out s h card m e =
        let (published, (remote, few, good)) = ((candidates_exact library s index).1 card).0 m in
        let same = ap (strikes_of s.strikes) e in omega arith

    no_row :
        (s : SourceSet library)
        → get_slot s.rows index ≡ none
        → row_for library silent s index ≡ (s, none)
    unfolding row_for fetch_chunk_map
    no_row s row = rw (row, row_for) refl

    peer_silent :
        (s : SourceSet library)
        → read_ranged library silent s (peer endpoint) index offset len
          ≡ settle library disconnected
              (read_from_peers library silent (strike library s endpoint) index offset len)
    unfolding read_ranged read_active read_range
    peer_silent s = refl

    -- The chunks need a row, the active peer is silent, and so is the origin.
    read-silent_lem :
        (s : SourceSet library)
        → s.active ≡ peer endpoint
        → get_slot s.rows index ≡ none
        → read library silent s index offset len
          ≡ settle library disconnected (
              ask_for_range library silent
                (strike library s endpoint)
                index
                offset
                len
                (candidates library (strike library s endpoint) index))
    unfolding read read_chunks read_from_peers
    read-silent_lem s a row =
        ap
          (λ p.
            or_ranged library silent s.active index offset len
              (with_row library silent index offset len p))
          (no_row s row)
        ∙ ap (λ active. (read_ranged library silent s active index offset len)) a
        ∙ peer_silent s

    settle-none :
        (e : Error) (p : SourceSet library × Option (List ℕ × List ℕ))
        → p.1 ≡ none
        → (settle library e p).0 ≡ p.0
    settle-none e (s, none) h = refl
    settle-none e (s, some answer) h = cc

    -- One read that nobody answers, by a mount whose active peer has three strikes.
    read-silent :
        (s : SourceSet library)
        → s.active ≡ peer endpoint
        → get_slot s.rows index ≡ none
        → 3 ≤ strikes_of s.strikes endpoint
        → strikes_of s.strikes endpoint < 255
        → (strikes_of (read library silent s index offset len).0.strikes endpoint
            ≡ strikes_of s.strikes endpoint + 1)
          × IsLeft s (read library silent s index offset len).0
    read-silent s a row many few =
        let s' = strike library s endpoint in
        let up : strikes_of s'.strikes endpoint ≡ strikes_of s.strikes endpoint + 1 =
          omega (arith, strikes-strike s) in
        let (none_, same, left) =
          ask_for_range-silent s' (candidates library s' index) (struck_out s' (omega arith)) in
        let end =
          ap (λ p. p.0) (read-silent_lem s a row)
          ∙ settle-none disconnected
              (ask_for_range library silent s' index offset len (candidates library s' index))
              none_ in
        subst
          (λ t. (strikes_of t.strikes endpoint ≡ strikes_of s.strikes endpoint + 1) × IsLeft s t)
          (sym end) (same ∙ up, IsLeft-trans s s' _ (IsLeft-by_strike s endpoint) left)

    silent_reads_lem :
        (n : ℕ) (s : SourceSet library)
        → s.active ≡ peer endpoint
        → get_slot s.rows index ≡ none
        → 3 ≤ strikes_of s.strikes endpoint
        → strikes_of s.strikes endpoint + n ≤ 255
        → (strikes_of (silent_reads n s).strikes endpoint ≡ strikes_of s.strikes endpoint + n)
          × IsLeft s (silent_reads n s)
    unfolding silent_reads
    silent_reads_lem zero s a row many few = (omega arith, IsLeft-alone s)
    silent_reads_lem (suc n) s a row many few =
        let s' = (read library silent s index offset len).0 in
        let (up, left) = read-silent s a row many (omega arith) in
        let (more, left') =
          silent_reads_lem n s' (sym left.active ∙ a) (sym left.rows ∙ row) (omega arith)
            (omega arith) in
        (omega arith, IsLeft-trans s s' (silent_reads n s') left left')

    -- An active peer with three strikes or more is not a candidate. When reads that nobody answers have
    -- brought its count to 255, the next strike wraps the count, a `u8`, and the peer is a candidate
    -- again. The mount has no row for the slot, and the peer's card vouches for it.
    pub struck_out_peer_returns :
        (s : SourceSet library) (card : PeerCard) (n : ℕ)
        → s.active ≡ peer endpoint
        → get_slot s.rows index ≡ none
        → 3 ≤ strikes_of s.strikes endpoint
        → strikes_of s.strikes endpoint + n ≡ 255
        → card.endpoint ≡ endpoint
        → Memᴰ card (cards_of library s.cards)
        → endpoint ≢ s.local_endpoint
        → vouches card s.tree index s.total_slots ≡ true
        → (Memᴰ card (candidates library s index) → ⊥)
          × Memᴰ card (candidates library (strike library (silent_reads n s) endpoint) index)
    struck_out_peer_returns s card n a row many last e published remote good =
        let (count, left) = silent_reads_lem n s a row many (omega arith) in
        let t = strike library (silent_reads n s) endpoint in
        let left' =
          IsLeft-trans s (silent_reads n s) t left (IsLeft-by_strike (silent_reads n s) endpoint) in
        let wrapped : strikes_of t.strikes endpoint ≡ 0 =
          omega (arith, strikes-strike (silent_reads n s)) in
        (
          λ m. struck_out s many card m e,
          ((candidates_exact library t index).1 card).1 (
            subst (λ o. Memᴰ card (cards_of library o)) left'.cards published,
            (
              λ same. remote (sym e ∙ same ∙ sym left'.local_endpoint),
              subst (λ k. strikes_of t.strikes k < 3) (sym e) (omega arith),
              subst (λ k. vouches card t.tree index k ≡ true) left'.total_slots
                  (subst (λ k. vouches card k index s.total_slots ≡ true) left'.tree good),
            ),
          ),
        )
