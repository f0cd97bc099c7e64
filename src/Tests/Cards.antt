-- ===== src/Tests/Cards.antt =====
-- A card through JSON, and the cards of a mesh.
use mathlib.Core.List.{Memᴰ}
use agent_share.Prelude.{
  ◌≢◌, ◌⊎◌, ℕ, ◌≡◌, refl, List, [], ◌∷◌, Bool, false, Option, none, some, bytes_eq, if◌then◌else◌,
}
use agent_share.Authorship.{codes}
use agent_share.Json.{JsonLibrary, JsonLaws}
use agent_share.Client.{PeerCard, with_tree, with_holding, from_card_value, to_card_value}
use agent_share.Client
use agent_share.Client.RoundTrip.{IsMadeLabel, from_card_value-to_card_value}
use agent_share.Roster.{MetaEntry, live_cards, entries_from_meta}
use agent_share.Roster.Live.{IsLive, IsAscending, IsChosen, live_cards_exact}

mutual
  data Value : Type 0 where
    text : (t : List ℕ) → Value
    flag : (b : Bool) → Value
    object : (entries : Entries) → Value

  data Entries : Type 0 where
    nothing : Entries
    entry : (key : List ℕ) (value : Value) (rest : Entries) → Entries

abbrev find : Entries → List ℕ → Option Value
find nothing key = none
find (entry other value rest) key = if bytes_eq other key then some value else find rest key

abbrev get : Value → List ℕ → Option Value
get (text t) key = none
get (flag b) key = none
get (object entries) key = find entries key

abbrev as_str : Value → Option (List ℕ)
as_str (text t) = some t
as_str (flag b) = none
as_str (object entries) = none

abbrev as_bool : Value → Option Bool
as_bool (text t) = none
as_bool (flag b) = some b
as_bool (object entries) = none

abbrev list_of : Entries → List (List ℕ × Value)
list_of nothing = []
list_of (entry key value rest) = (key, value) ∷ list_of rest

abbrev as_object : Value → Option (List (List ℕ × Value))
as_object (text t) = none
as_object (flag b) = none
as_object (object entries) = some (list_of entries)

abbrev json : JsonLibrary
json = record {
  Value = Value;
  Map = Entries;
  new_map = nothing;
  insert = λ map key value. entry key value map;
  object = object;
  string = text;
  boolean = flag;
  get = get;
  as_str = as_str;
  as_bool = as_bool;
  as_object = as_object;
}

laws : JsonLaws json
laws = record {
  get_new = λ key. refl;
  get_insert = λ map key other value. refl;
  as_str_string = λ t. refl;
  as_str_boolean = λ b. refl;
  as_bool_boolean = λ b. refl;
  as_bool_string = λ t. refl;
}

abbrev card : List ℕ → PeerCard
card endpoint =
    with_holding
      (with_tree (Client.new endpoint (codes "1") (codes "rust") (codes "unicast") none)
        (some (codes "t")))
      (some false)

from_card_value-to_card_value_example :
    (((card (codes "a")).client ≢ [])
      × (from_card_value json (to_card_value json (card (codes "a"))) ≡ some (card (codes "a"))))
    ⊎ (((card (codes "a")).client ≡ [])
        × (label : List ℕ) × IsMadeLabel (card (codes "a")) label
        × (from_card_value json (to_card_value json (card (codes "a")))
            ≡ some (record (card (codes "a")) { client = label })))
from_card_value-to_card_value_example = from_card_value-to_card_value json laws (card (codes "a"))

-- The peer `a` has two nicknames, and `x` has left.
abbrev entries : List MetaEntry
entries =
    record { nickname = codes "n2"; card = card (codes "a") }
    ∷ record { nickname = codes "n4"; card = card (codes "x") }
    ∷ record { nickname = codes "n3"; card = card (codes "b") }
    ∷ record { nickname = codes "n1"; card = card (codes "a") }
    ∷ []

abbrev live : List (List ℕ)
live = codes "n1" ∷ codes "n2" ∷ codes "n3" ∷ []

live_cards_exact_example :
    IsAscending (live_cards entries live)
    × ((c : PeerCard)
        → Memᴰ c (live_cards entries live)
        → (e : MetaEntry) × IsChosen entries live c e)
    × ((e : MetaEntry)
        → Memᴰ e entries
        → IsLive live e
        → (c : PeerCard) × Memᴰ c (live_cards entries live) × (c.endpoint ≡ e.card.endpoint))
live_cards_exact_example = live_cards_exact entries live

two_present : live_cards entries live ≡ card (codes "a") ∷ card (codes "b") ∷ []
unfolding live_cards bytes_eq agent_share.Manifest.Apply.contains Client.new
two_present = refl

-- A peer that took its card back costs only itself.
abbrev meta : Value
meta = object (
    entry (codes "peers")
      (object (
        entry (codes "n1")
          (object (entry (codes "card") (to_card_value json (card (codes "a"))) nothing))
          (entry (codes "n2") (object (entry (codes "card") (flag false) nothing)) nothing)))
      nothing)

one_entry :
    entries_from_meta json meta ≡ record { nickname = codes "n1"; card = card (codes "a") } ∷ []
unfolding entries_from_meta to_card_value from_card_value Client.new bytes_eq
one_entry = refl
