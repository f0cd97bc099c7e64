-- ===== src/Sources.antt =====
-- `SourceSet` of crates/agent-share/src/mount/sources.rs: who a mount reads from. Reads are taken one
-- at a time. The network is what each peer answers while a read runs; the clients that a set keeps are
-- the connections to the endpoints that it names.
pub mod Advertised
pub mod Availability
pub mod Candidates
pub mod Chunks
pub mod Local
pub mod Reading
pub mod Reads
pub mod Strikes
pub mod Vouching
use agent_share.Prelude.{
  ℕ, zero, suc, ◌+◌, ◌-◌, ◌%◌, ◌^◌, List, [], ◌∷◌, ◌++◌, Bool, true, false, ◌&&◌, ◌||◌, not, Option,
  none, some, Result, err, disconnected, length, take, drop, ltb, leb, ◌==◌, bytes_eq,
  if◌then◌else◌,
}
use agent_share.Prelude
use agent_share.Prelude.Assoc.{get, insert}
use agent_share.Sorting.{mem}
use agent_share.Authorship.{codes}
use agent_share.Manifest.Apply.{contains}
use agent_share.Text.{bytes_le}
use agent_share.Client.{PeerCard}
use agent_share.Serving.{encode_serving, decode_serving}
use agent_share.Seed.Holds.{complete_slots}
use agent_share.Chunks.{ChunkLibrary}
use agent_share.Remote.{Connection, read_range, fetch_chunk, fetch_chunk_map}
use agent_share.Seed.{Seeder, get_slot, without_slot, update, adopt, saturating_add, min}

-- `MAX_STRIKES`
abbrev pub max_strikes : ℕ
max_strikes = 3

pub data Active : Type 0 where
  origin : Active
  peer : (endpoint : List ℕ) → Active

-- `peer_at` is `none` for an endpoint id that does not parse.
pub record Network : Type 0 where
  pub origin_at : Connection
  pub peer_at : List ℕ → Option Connection

-- `card.tree.as_deref() != Some(tree)`
abbrev pub is_tree : Option (List ℕ) → List ℕ → Bool
is_tree none tree = false
is_tree (some t) tree = bytes_eq t tree

abbrev lists : Option (List ℕ) → ℕ → ℕ → Bool
lists none index total_slots = false
lists (some serving) index total_slots = mem index (decode_serving serving total_slots)

-- A binary search of the ascending list finds its members.
unfoldable pub vouches : PeerCard → List ℕ → ℕ → ℕ → Bool
vouches card tree index total_slots = is_tree card.tree tree && lists card.serving index total_slots

-- `sort_by_key`: a native peer before a browser, then by endpoint id.
unfoldable pub is_native : PeerCard → Bool
is_native card = bytes_eq card.transport (codes "unicast")

unfoldable pub card_le : PeerCard → PeerCard → Bool
unfolding bytes_le is_native
card_le a b =
    if is_native a
    then if is_native b then bytes_le a.endpoint b.endpoint else true
    else not (is_native b) && bytes_le a.endpoint b.endpoint

-- A stable sort: a card goes before the first that is not before it.
unfoldable pub insert_card : PeerCard → List PeerCard → List PeerCard
unfolding card_le
insert_card card [] = card ∷ []
insert_card card (c ∷ cards) =
    if card_le card c then card ∷ c ∷ cards else c ∷ insert_card card cards

unfoldable pub sort_cards : List PeerCard → List PeerCard
unfolding insert_card
sort_cards [] = []
sort_cards (card ∷ cards) = insert_card card (sort_cards cards)

-- The endpoints with `MAX_STRIKES` strikes.
abbrev or_zero : Option ℕ → ℕ
or_zero none = 0
or_zero (some n) = n

unfoldable pub strikes_of : List (List ℕ × ℕ) → List ℕ → ℕ
strikes_of strikes endpoint = or_zero (get strikes endpoint)

module _ (library : ChunkLibrary) where
  open library use {ChunkMap, Store, size, index_at, leaf, range_start, chunk_hash, put, put_map}

  pub record SourceSet : Type 0 where
    pub token : List ℕ
    pub tree : List ℕ
    pub total_slots : ℕ
    pub cards : Option (List PeerCard)
    pub local_endpoint : List ℕ
    pub active : Active
    pub strikes : List (List ℕ × ℕ)
    pub store : Option Store
    pub seeder : Seeder library
    pub rows : List (ℕ × ChunkMap)
    pub envelope : List ℕ

  -- `SourceSet::new`: reads go to the origin first.
  unfoldable pub new :
      List ℕ
      → List ℕ
      → ℕ
      → Option (List PeerCard)
      → List ℕ
      → Option Store
      → Seeder library
      → List ℕ
      → SourceSet
  new token tree total_slots cards local_endpoint store seeder envelope = record {
    token = token;
    tree = tree;
    total_slots = total_slots;
    cards = cards;
    local_endpoint = local_endpoint;
    active = origin;
    strikes = [];
    store = store;
    seeder = seeder;
    rows = [];
    envelope = envelope;
  }

  -- `Seeder::is_armed`
  unfoldable pub is_armed : Seeder library → Bool
  is_armed seeder = elim seeder.state [ none ↦ false | some state ↦ true ]

  -- `SourceSet::holding`
  abbrev pub holding : SourceSet → Bool
  holding s = is_armed s.seeder

  -- `SourceSet::serving`
  unfoldable pub serving : SourceSet → Option (List ℕ)
  serving s = encode_serving (complete_slots library s.seeder) s.total_slots

  unfoldable pub is_candidate : SourceSet → ℕ → PeerCard → Bool
  unfolding vouches strikes_of
  is_candidate s index card =
      not (bytes_eq card.endpoint s.local_endpoint)
      && not (leb max_strikes (strikes_of s.strikes card.endpoint))
      && vouches card s.tree index s.total_slots

  unfoldable pub filter_cards : SourceSet → ℕ → List PeerCard → List PeerCard
  unfolding is_candidate
  filter_cards s index [] = []
  filter_cards s index (card ∷ cards) =
      if is_candidate s index card
      then card ∷ filter_cards s index cards
      else filter_cards s index cards

  unfoldable pub candidates : SourceSet → ℕ → List PeerCard
  unfolding filter_cards sort_cards
  candidates s index = elim s.cards [
    | none ↦ []
    | some cards ↦ sort_cards (filter_cards s index cards)
  ]

  -- The count is a `u8`, and `+= 1` wraps in a release build.
  unfoldable pub strike : SourceSet → List ℕ → SourceSet
  unfolding strikes_of
  strike s endpoint = record s {
    strikes = insert s.strikes endpoint ((strikes_of s.strikes endpoint + 1) % 256);
  }

  -- `SourceSet::set_cards`
  abbrev pub set_cards : SourceSet → List PeerCard → SourceSet
  set_cards s cards = record s { cards = some cards }
