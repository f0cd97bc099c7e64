-- ===== src/Roster/Live.antt =====
-- Who `live_cards` of crates/agent-share-proto/src/roster.rs lists.
use mathlib.Core.Path.{subst}
use mathlib.Core.List.{Memᴰ}
use agent_share.Prelude.{
  ℕ, ◌≡◌, ◌⊎◌, refl, ap, sym, ◌∙◌, List, [], ◌∷◌, map, true, arith, All, Bool-cases, inl, inr,
}
use agent_share.Manifest.Apply.{contains}
use agent_share.Text.{bytes_le}
use agent_share.Client.{PeerCard}
use agent_share.Roster.{MetaEntry, place, book_of, card_of, live_cards}
use agent_share.Roster.Book.{
  Before, IsBook, Covered, place-IsBook, place-from, place-Covered, Covered-place, IsBook-unique,
}

-- A card of a peer that is present.
abbrev pub IsLive : List (List ℕ) → MetaEntry → Type 0
IsLive live e = contains live e.nickname ≡ true

book_of-IsBook :
    (entries : List MetaEntry) (live : List (List ℕ)) (book : List MetaEntry)
    → IsBook book
    → IsBook (book_of entries live book)
unfolding book_of
book_of-IsBook [] live book h = h
book_of-IsBook (e ∷ entries) live book h = elim (Bool-cases (contains live e.nickname)) [
  | inl yes_ ↦ rw yes_ (book_of-IsBook entries live (place e book) (place-IsBook e book h))
  | inr no_ ↦ rw no_ (book_of-IsBook entries live book h)
]

book_of-from :
    (entries : List MetaEntry) (live : List (List ℕ)) (book : List MetaEntry) (x : MetaEntry)
    → Memᴰ x (book_of entries live book)
    → Memᴰ x book ⊎ (Memᴰ x entries × IsLive live x)
unfolding book_of
book_of-from [] live book x m = inl m
book_of-from (e ∷ entries) live book x m = elim (Bool-cases (contains live e.nickname)) [
  | inl yes_ ↦ elim (book_of-from entries live (place e book) x (rw yes_ at m)) [
    | inl n ↦ elim (place-from x e book n) [
      | inl same ↦ inr (Memᴰ.head same, subst (IsLive live) (sym same) yes_)
      | inr k ↦ inl k
    ]
    | inr (n, l) ↦ inr (Memᴰ.tail n, l)
  ]
  | inr no_ ↦ elim (book_of-from entries live book x (rw no_ at m)) [
    | inl n ↦ inl n
    | inr (n, l) ↦ inr (Memᴰ.tail n, l)
  ]
]

book_of-Covered :
    (entries : List MetaEntry) (live : List (List ℕ)) (book : List MetaEntry) (x : MetaEntry)
    → Covered x book ⊎ (Memᴰ x entries × IsLive live x)
    → Covered x (book_of entries live book)
unfolding book_of
book_of-Covered [] live book x (inl h) = h
book_of-Covered [] live book x (inr (m, l)) = elim m [ ]
book_of-Covered (e ∷ entries) live book x h = elim (Bool-cases (contains live e.nickname)) [
  | inl yes_ ↦ rw yes_ (
      book_of-Covered entries live (place e book) x (elim h [
        | inl c ↦ inl (Covered-place x e book c)
        | inr (m, l) ↦ elim m [
          | Memᴰ.head same ↦ inl (place-Covered x e book (inl same))
          | Memᴰ.tail n ↦ inr (n, l)
        ]
      ]))
  | inr no_ ↦ rw no_ (
      book_of-Covered entries live book x (elim h [
        | inl c ↦ inl c
        | inr (m, l) ↦ elim m [
          | Memᴰ.head same ↦
              absurd (let l' : IsLive live e = subst (IsLive live) same l in ground arith)
          | Memᴰ.tail n ↦ inr (n, l)
        ]
      ]))
]

-- Ascending in the endpoints, so one card to an endpoint.
abbrev pub IsAscending : List PeerCard → Type 0
IsAscending [] = Unit {0}
IsAscending (card ∷ cards) = All (λ c. Before card.endpoint c.endpoint) cards × IsAscending cards

cards-IsAscending : (book : List MetaEntry) → IsBook book → IsAscending (map card_of book)
cards-IsAscending [] h = tt
cards-IsAscending (held ∷ book) h = (cards-All book h.0, cards-IsAscending book h.1)
  where
    cards-All :
        (rest : List MetaEntry)
        → All (λ d. Before held.card.endpoint d.card.endpoint) rest
        → All (λ c. Before held.card.endpoint c.endpoint) (map card_of rest)
    cards-All [] all = tt
    cards-All (d ∷ rest) all = (all.0, cards-All rest all.1)

map-mem : (e : MetaEntry) (book : List MetaEntry) → Memᴰ e book → Memᴰ e.card (map card_of book)
map-mem e [] m = elim m [ ]
map-mem e (d ∷ book) m = elim m [
  | Memᴰ.head same ↦ Memᴰ.head (ap card_of same)
  | Memᴰ.tail n ↦ Memᴰ.tail (map-mem e book n)
]

mem-map :
    (card : PeerCard) (book : List MetaEntry)
    → Memᴰ card (map card_of book)
    → (e : MetaEntry) × Memᴰ e book × (e.card ≡ card)
mem-map card [] m = elim m [ ]
mem-map card (d ∷ book) m = elim m [
  | Memᴰ.head same ↦ (d, Memᴰ.head refl, sym same)
  | Memᴰ.tail n ↦ let (e, k, same) = mem-map card book n in (e, Memᴰ.tail k, same)
]

-- The entry whose card stands for an endpoint: it is live, and no live one of that endpoint has a
-- smaller nickname.
abbrev pub IsChosen : List MetaEntry → List (List ℕ) → PeerCard → MetaEntry → Type 0
IsChosen entries live card e =
    Memᴰ e entries
    × IsLive live e
    × (e.card ≡ card)
    × ((other : MetaEntry)
        → Memᴰ other entries
        → IsLive live other
        → other.card.endpoint ≡ card.endpoint
        → bytes_le e.nickname other.nickname ≡ true)

-- The cards of the peers that are present are in the order of their endpoints, one to an endpoint;
-- each is the card of a live entry with the smallest nickname of that endpoint; and every live entry
-- has a card of its endpoint among them.
pub live_cards_exact :
    (entries : List MetaEntry) (live : List (List ℕ))
    → IsAscending (live_cards entries live)
      × ((card : PeerCard)
          → Memᴰ card (live_cards entries live)
          → (e : MetaEntry) × IsChosen entries live card e)
      × ((e : MetaEntry)
          → Memᴰ e entries
          → IsLive live e
          → (card : PeerCard) × Memᴰ card (live_cards entries live)
            × (card.endpoint ≡ e.card.endpoint))
unfolding live_cards
live_cards_exact entries live =
    let book = book_of entries live [] in
    let one : IsBook book = book_of-IsBook entries live [] tt in
    (
      cards-IsAscending book one,
      λ card m.
          let (e, n, same) = mem-map card book m in
          elim (book_of-from entries live [] e n) [
            | inl k ↦ elim k [ ]
            | inr (k, l) ↦ (
              e,
              (
                k,
                l,
                same,
                λ other o alive end.
                    let (y, at, end', le) =
                      book_of-Covered entries live [] other (inr (o, alive)) in
                    let e_y =
                      IsBook-unique book y e one at n
                        (end' ∙ end ∙ sym (ap (λ c. c.endpoint) same)) in
                    subst (λ z. bytes_le z.nickname other.nickname ≡ true) e_y le,
              ),
            )
          ],
      λ e m alive.
          let (y, at, end, le) = book_of-Covered entries live [] e (inr (m, alive)) in
          (y.card, map-mem y book at, end),
    )
