-- ===== src/Roster.antt =====
-- crates/agent-share-proto/src/roster.rs: the cards of the peers on a share's mesh. A `BTreeSet` is a
-- list of its members, and a `BTreeMap` is a list of its values in the order of their keys.
pub mod Book
pub mod Live
use agent_share.Prelude.{
  ℕ, List, [], ◌∷◌, map, Bool, true, false, not, Option, none, some, bytes_eq, if◌then◌else◌,
}
use agent_share.Manifest.Apply.{contains}
use agent_share.Text.{bytes_le}
use agent_share.Authorship.{codes}
use agent_share.Json.{JsonLibrary}
use agent_share.Client.{PeerCard, from_card_value}

pub record MetaEntry : Type 0 where
  pub nickname : List ℕ
  pub card : PeerCard

module _ (json : JsonLibrary) where
  open json use {Value, get, as_object}

  abbrev card_at : Value → Option PeerCard
  card_at peer = elim (get peer (codes "card")) [
    | none ↦ none
    | some value ↦ from_card_value json value
  ]

  -- The entries with a card that can be read.
  unfoldable pub read_entries : List (List ℕ × Value) → List MetaEntry
  read_entries [] = []
  read_entries ((nickname, peer) ∷ peers) = elim (card_at peer) [
    | none ↦ read_entries peers
    | some card ↦ record { nickname = nickname; card = card } ∷ read_entries peers
  ]

  unfoldable pub entries_from_meta : Value → List MetaEntry
  unfolding read_entries
  entries_from_meta doc = elim (get doc (codes "peers")) [
    | none ↦ []
    | some peers ↦ elim (as_object peers) [ none ↦ [] | some peers ↦ read_entries peers ]
  ]

-- `and_modify` and `or_insert`: the entry with the smaller nickname stays.
unfoldable pub hold : MetaEntry → MetaEntry → MetaEntry
unfolding bytes_le
hold entry held = if not (bytes_le held.nickname entry.nickname) then entry else held

unfoldable pub place : MetaEntry → List MetaEntry → List MetaEntry
unfolding hold
place entry [] = entry ∷ []
place entry (held ∷ book) =
    if bytes_eq entry.card.endpoint held.card.endpoint
    then hold entry held ∷ book
    else if bytes_le entry.card.endpoint held.card.endpoint
    then entry ∷ held ∷ book
    else held ∷ place entry book

-- `by_endpoint`, from the entries that are live.
unfoldable pub book_of : List MetaEntry → List (List ℕ) → List MetaEntry → List MetaEntry
unfolding place
book_of [] live book = book
book_of (entry ∷ entries) live book =
    book_of entries live (if contains live entry.nickname then place entry book else book)

abbrev pub card_of : MetaEntry → PeerCard
card_of entry = entry.card

unfoldable pub live_cards : List MetaEntry → List (List ℕ) → List PeerCard
unfolding book_of
live_cards entries live = map card_of (book_of entries live [])

pub record Roster : Type 0 where
  pub entries : List MetaEntry
  pub present : List (List ℕ)

-- `Roster::present`
abbrev pub present_cards : Roster → List PeerCard
present_cards roster = live_cards roster.entries roster.present

-- `Roster::all`
abbrev pub all : Roster → List PeerCard
all roster = map card_of roster.entries
