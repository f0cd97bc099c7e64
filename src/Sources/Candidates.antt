-- ===== src/Sources/Candidates.antt =====
-- `candidates` of crates/agent-share/src/mount/sources.rs: who may be asked for a slot, and in which order.
use mathlib.Core.Path.{subst}
use mathlib.Core.List.{Memᴰ}
use agent_share.Prelude.{
  ℕ, ◌<◌, ◌≡◌, ◌≢◌, ◌↔◌, ◌⊎◌, ap, sym, List, [], ◌∷◌, arith, true, false, Option, none, some,
  bytes_eq, bytes_eq→eq, bytes_eq_refl, All, Bool-cases, inl, inr,
}
use agent_share.Authorship.{codes}
use agent_share.Text.{bytes_le}
use agent_share.Text.Order.{bytes_le-total, bytes_le_trans}
use agent_share.Client.{PeerCard}
use agent_share.Chunks.{ChunkLibrary}
use agent_share.Sources.{
  SourceSet, is_native, strikes_of, vouches, card_le, insert_card, sort_cards, is_candidate,
  filter_cards, candidates,
}

card_le-total : (a b : PeerCard) → card_le a b ≡ false → card_le b a ≡ true
unfolding card_le
card_le-total a b h = ground (arith, bytes_le-total a.endpoint b.endpoint)

card_le_trans : (a b c : PeerCard) → card_le a b ≡ true → card_le b c ≡ true → card_le a c ≡ true
unfolding card_le
card_le_trans a b c h k = ground (arith, bytes_le_trans a.endpoint b.endpoint c.endpoint)

-- A native peer is one on the transport `unicast`.
abbrev pub IsNative : PeerCard → Type 0
IsNative card = card.transport ≡ codes "unicast"

-- A native peer before one that is not, and two of a kind in the order of their endpoint ids.
abbrev pub Precedes : PeerCard → PeerCard → Type 0
Precedes a b =
    (IsNative a × (IsNative b → ⊥))
    ⊎ ((IsNative a ↔ IsNative b) × (bytes_le a.endpoint b.endpoint ≡ true))

IsNative-cases :
    (a : PeerCard)
    → ((is_native a ≡ true) × IsNative a) ⊎ ((is_native a ≡ false) × (IsNative a → ⊥))
unfolding is_native
IsNative-cases a = elim (Bool-cases (is_native a)) [
  | inl e ↦ inl (e, bytes_eq→eq a.transport (codes "unicast") e)
  | inr e ↦ inr (
    e,
    λ n.
        let t : bytes_eq a.transport (codes "unicast") ≡ true =
          rw n (bytes_eq_refl (codes "unicast")) in
        absurd (ground arith),
  )
]

card_le-Precedes : (a b : PeerCard) → card_le a b ≡ true → Precedes a b
unfolding card_le
card_le-Precedes a b h = elim (IsNative-cases a) [
  | inl (ea, na) ↦ elim (IsNative-cases b) [
    | inl (eb, nb) ↦ inr ((λ n. nb, λ n. na), ground arith)
    | inr (eb, nb) ↦ inl (na, nb)
  ]
  | inr (ea, na) ↦ elim (IsNative-cases b) [
    | inl (eb, nb) ↦ absurd (ground arith)
    | inr (eb, nb) ↦ inr ((λ n. absurd (na n), λ n. absurd (nb n)), ground arith)
  ]
]

-- Every card precedes each one after it.
abbrev pub IsOrdered : List PeerCard → Type 0
IsOrdered [] = Unit {0}
IsOrdered (card ∷ cards) = All (Precedes card) cards × IsOrdered cards

All-Precedes :
    (a : PeerCard) (cards : List PeerCard)
    → All (λ c. card_le a c ≡ true) cards
    → All (Precedes a) cards
All-Precedes a [] all = tt
All-Precedes a (c ∷ cards) all = (card_le-Precedes a c all.0, All-Precedes a cards all.1)

-- The same by the comparator of the sort.
abbrev IsSortedCards : List PeerCard → Type 0
IsSortedCards [] = Unit {0}
IsSortedCards (card ∷ cards) = All (λ c. card_le card c ≡ true) cards × IsSortedCards cards

All-card_le :
    (a b : PeerCard) (cards : List PeerCard)
    → card_le a b ≡ true
    → All (λ c. card_le b c ≡ true) cards
    → All (λ c. card_le a c ≡ true) cards
All-card_le a b [] h all = tt
All-card_le a b (c ∷ cards) h all = (card_le_trans a b c h all.0, All-card_le a b cards h all.1)

All-insert_card :
    (a b : PeerCard) (cards : List PeerCard)
    → card_le a b ≡ true
    → All (λ c. card_le a c ≡ true) cards
    → All (λ c. card_le a c ≡ true) (insert_card b cards)
unfolding insert_card
All-insert_card a b [] h all = (h, tt)
All-insert_card a b (c ∷ cards) h all = elim (Bool-cases (card_le b c)) [
  | inl e ↦ rw e (h, all)
  | inr e ↦ rw e (all.0, All-insert_card a b cards h all.1)
]

insert_card-IsSortedCards :
    (card : PeerCard) (cards : List PeerCard)
    → IsSortedCards cards
    → IsSortedCards (insert_card card cards)
unfolding insert_card
insert_card-IsSortedCards card [] h = (tt, tt)
insert_card-IsSortedCards card (c ∷ cards) h = elim (Bool-cases (card_le card c)) [
  | inl e ↦ rw e ((e, All-card_le card c cards e h.0), h)
  | inr e ↦ rw e (
    All-insert_card c card cards (card_le-total card c e) h.0,
    insert_card-IsSortedCards card cards h.1,
  )
]

sort_cards-IsSortedCards : (cards : List PeerCard) → IsSortedCards (sort_cards cards)
unfolding sort_cards
sort_cards-IsSortedCards [] = tt
sort_cards-IsSortedCards (card ∷ cards) =
    insert_card-IsSortedCards card (sort_cards cards) (sort_cards-IsSortedCards cards)

IsSortedCards-IsOrdered : (cards : List PeerCard) → IsSortedCards cards → IsOrdered cards
IsSortedCards-IsOrdered [] h = tt
IsSortedCards-IsOrdered (card ∷ cards) h =
    (All-Precedes card cards h.0, IsSortedCards-IsOrdered cards h.1)

sort_cards-IsOrdered : (cards : List PeerCard) → IsOrdered (sort_cards cards)
sort_cards-IsOrdered cards =
    IsSortedCards-IsOrdered (sort_cards cards) (sort_cards-IsSortedCards cards)

insert_card-mem :
    (card c : PeerCard) (cards : List PeerCard)
    → Memᴰ c (insert_card card cards) ↔ Memᴰ c (card ∷ cards)
unfolding insert_card
insert_card-mem card c [] = (λ m. m, λ m. m)
insert_card-mem card c (d ∷ cards) = elim (Bool-cases (card_le card d)) [
  | inl e ↦ rw e (λ m. m, λ m. m)
  | inr e ↦
      let rest = insert_card-mem card c cards in
      rw e (
        λ m. elim m [
          | Memᴰ.head same ↦ Memᴰ.tail (Memᴰ.head same)
          | Memᴰ.tail n ↦ elim (rest.0 n) [
            | Memᴰ.head same ↦ Memᴰ.head same
            | Memᴰ.tail k ↦ Memᴰ.tail (Memᴰ.tail k)
          ]
        ],
        λ m. elim m [
          | Memᴰ.head same ↦ Memᴰ.tail (rest.1 (Memᴰ.head same))
          | Memᴰ.tail n ↦ elim n [
            | Memᴰ.head same ↦ Memᴰ.head same
            | Memᴰ.tail k ↦ Memᴰ.tail (rest.1 (Memᴰ.tail k))
          ]
        ],
      )
]

sort_cards-mem : (c : PeerCard) (cards : List PeerCard) → Memᴰ c (sort_cards cards) ↔ Memᴰ c cards
unfolding sort_cards
sort_cards-mem c [] = (λ m. m, λ m. m)
sort_cards-mem c (card ∷ cards) =
    let inserted = insert_card-mem card c (sort_cards cards) in
    let rest = sort_cards-mem c cards in
    (
      λ m. elim (inserted.0 m) [
        | Memᴰ.head same ↦ Memᴰ.head same
        | Memᴰ.tail n ↦ Memᴰ.tail (rest.0 n)
      ],
      λ m.
          inserted.1
            (elim m [ Memᴰ.head same ↦ Memᴰ.head same | Memᴰ.tail n ↦ Memᴰ.tail (rest.1 n) ]),
    )

module _ (library : ChunkLibrary) where
  abbrev pub cards_of : Option (List PeerCard) → List PeerCard
  cards_of none = []
  cards_of (some cards) = cards

  -- What a candidate must be.
  abbrev pub IsChosen : SourceSet library → ℕ → PeerCard → Type 0
  IsChosen s index card =
      (card.endpoint ≢ s.local_endpoint)
      × (strikes_of s.strikes card.endpoint < 3)
      × (vouches card s.tree index s.total_slots ≡ true)

  is_candidate_iff :
      (s : SourceSet library) (index : ℕ) (card : PeerCard)
      → (is_candidate library s index card ≡ true) ↔ IsChosen s index card
  unfolding is_candidate
  is_candidate_iff s index card = (
    λ h.
        let other : bytes_eq card.endpoint s.local_endpoint ≡ false = ground arith in
        (
          λ e. absurd (
              let t = ap (bytes_eq card.endpoint) e in
              let r = bytes_eq_refl card.endpoint in ground arith),
          ground arith,
          ground arith,
        ),
    λ (n, few, v). elim (Bool-cases (bytes_eq card.endpoint s.local_endpoint)) [
      | inl same ↦ absurd (n (bytes_eq→eq card.endpoint s.local_endpoint same))
      | inr other ↦ ground arith
    ],
  )

  filter_cards-mem :
      (s : SourceSet library) (index : ℕ) (card : PeerCard) (cards : List PeerCard)
      → Memᴰ card (filter_cards library s index cards) ↔ (Memᴰ card cards × IsChosen s index card)
  unfolding filter_cards
  filter_cards-mem s index card [] = (λ m. elim m [ ], λ (m, c). elim m [ ])
  filter_cards-mem s index card (d ∷ cards) =
      let rest = filter_cards-mem s index card cards in
      elim (Bool-cases (is_candidate library s index d)) [
        | inl e ↦ rw e (
          λ m. elim m [
            | Memᴰ.head same ↦ (
              Memᴰ.head same,
              subst (IsChosen s index) (sym same) ((is_candidate_iff s index d).0 e),
            )
            | Memᴰ.tail n ↦ let (k, c) = rest.0 n in (Memᴰ.tail k, c)
          ],
          λ (m, c). elim m [
            | Memᴰ.head same ↦ Memᴰ.head same
            | Memᴰ.tail n ↦ Memᴰ.tail (rest.1 (n, c))
          ],
        )
        | inr e ↦ rw e (
          λ m. let (k, c) = rest.0 m in (Memᴰ.tail k, c),
          λ (m, c). elim m [
            | Memᴰ.head same ↦ absurd (
                let yes_ = (is_candidate_iff s index d).1 (subst (IsChosen s index) same c) in
                ground arith)
            | Memᴰ.tail n ↦ rest.1 (n, c)
          ],
        )
      ]

  -- The candidates for a slot are exactly the peers of the mesh's cards that are not this one, that
  -- have fewer than three strikes and that vouch for the slot; the native ones come first, and within
  -- a kind they are in the order of their endpoint ids.
  pub candidates_exact :
      (s : SourceSet library) (index : ℕ)
      → IsOrdered (candidates library s index)
        × ((card : PeerCard)
            → Memᴰ card (candidates library s index)
              ↔ (Memᴰ card (cards_of s.cards) × IsChosen s index card))
  unfolding candidates
  candidates_exact s index =
      elim s.cards
        as (λ o.
          IsOrdered
            (elim o [ none ↦ [] | some cards ↦ sort_cards (filter_cards library s index cards) ])
          × ((card : PeerCard)
              → Memᴰ card (elim o [
                | none ↦ []
                | some cards ↦ sort_cards (filter_cards library s index cards)
              ])
                ↔ (Memᴰ card (cards_of o) × IsChosen s index card))) [
                  | none ↦ (tt, λ card. (λ m. elim m [ ], λ (m, c). elim m [ ]))
                  | some cards ↦ (
                    sort_cards-IsOrdered (filter_cards library s index cards),
                    λ card.
                        let sorted = sort_cards-mem card (filter_cards library s index cards) in
                        let kept = filter_cards-mem s index card cards in
                        (λ m. kept.0 (sorted.0 m), λ c. sorted.1 (kept.1 c)),
                  )
                ]
