-- ===== src/Client.antt =====
-- `PeerCard` of crates/agent-share-proto/src/client.rs: what a peer publishes of itself on the mesh.
pub mod RoundTrip
use agent_share.Prelude.{
  ℕ, List, [], ◌++◌, Bool, true, false, ◌||◌, Option, none, some, if◌then◌else◌,
}
use agent_share.Json.{JsonLibrary}
use agent_share.Text.{is_empty}
use agent_share.Authorship.{codes}

-- `PRODUCT`
abbrev pub product : List ℕ
product = codes "agent-share"

pub record PeerCard : Type 0 where
  pub endpoint : List ℕ
  pub app : List ℕ
  pub version : List ℕ
  pub runtime : List ℕ
  pub transport : List ℕ
  pub client : List ℕ
  pub role : Option (List ℕ)
  pub tree : Option (List ℕ)
  pub serving : Option (List ℕ)
  pub holding : Option Bool

unfoldable pub format_label : List ℕ → List ℕ → List ℕ → List ℕ
format_label version runtime transport =
    product
    ++ (codes " v"
        ++ (version ++ (codes " (" ++ (runtime ++ (codes ", " ++ (transport ++ codes ")"))))))

-- `PeerCard::new`
unfoldable pub new : List ℕ → List ℕ → List ℕ → List ℕ → Option (List ℕ) → PeerCard
unfolding format_label
new endpoint version runtime transport role = record {
  endpoint = endpoint;
  app = product;
  version = version;
  runtime = runtime;
  transport = transport;
  client = format_label version runtime transport;
  role = role;
  tree = none;
  serving = none;
  holding = none;
}

abbrev pub with_tree : PeerCard → Option (List ℕ) → PeerCard
with_tree card tree = record card { tree = tree }

abbrev pub with_serving : PeerCard → Option (List ℕ) → PeerCard
with_serving card serving = record card { serving = serving }

abbrev pub with_holding : PeerCard → Option Bool → PeerCard
with_holding card holding = record card { holding = holding }

abbrev is_some : Option (List ℕ) → Bool
is_some none = false
is_some (some text) = true

unfoldable pub holds_something : PeerCard → Bool
holds_something card = elim card.holding [ none ↦ is_some card.serving | some held ↦ held ]

-- The keys of a card.
abbrev pub card_client : List ℕ
card_client = codes "client"

abbrev pub card_endpoint : List ℕ
card_endpoint = codes "endpoint"

abbrev pub card_app : List ℕ
card_app = codes "app"

abbrev pub card_version : List ℕ
card_version = codes "version"

abbrev pub card_runtime : List ℕ
card_runtime = codes "runtime"

abbrev pub card_transport : List ℕ
card_transport = codes "transport"

abbrev pub card_role : List ℕ
card_role = codes "role"

abbrev pub card_tree : List ℕ
card_tree = codes "tree"

abbrev pub card_serving : List ℕ
card_serving = codes "serving"

abbrev pub card_holding : List ℕ
card_holding = codes "holding"

abbrev pub or_text : Option (List ℕ) → List ℕ → List ℕ
or_text none text = text
or_text (some t) text = t

-- `unwrap_or_else`, where a card has no label.
unfoldable pub rebuilt_label : List ℕ → List ℕ → List ℕ → List ℕ
unfolding format_label
rebuilt_label version runtime transport =
    if is_empty version || is_empty runtime || is_empty transport
    then codes "unknown"
    else format_label version runtime transport

-- `filter(|client| !client.is_empty())`
unfoldable pub label_or : Option (List ℕ) → List ℕ → List ℕ
label_or none label = label
label_or (some client) label = if is_empty client then label else client

module _ (json : JsonLibrary) where
  open json use {Value, Map, new_map, insert, object, string, boolean, get, as_str, as_bool}

  abbrev pub insert_text : Map → List ℕ → Option (List ℕ) → Map
  insert_text map key none = map
  insert_text map key (some text) = insert map key (string text)

  abbrev pub insert_flag : Map → List ℕ → Option Bool → Map
  insert_flag map key none = map
  insert_flag map key (some flag) = insert map key (boolean flag)

  -- `PeerCard::to_card_value`
  unfoldable pub to_card_value : PeerCard → Value
  to_card_value card =
      let m1 = insert new_map card_endpoint (string card.endpoint) in
      let m2 = insert m1 card_app (string card.app) in
      let m3 = insert m2 card_version (string card.version) in
      let m4 = insert m3 card_runtime (string card.runtime) in
      let m5 = insert m4 card_transport (string card.transport) in
      let m6 = insert m5 card_client (string card.client) in
      let m7 = insert_text m6 card_role card.role in
      let m8 = insert_text m7 card_tree card.tree in
      let m9 = insert_text m8 card_serving card.serving in
      object (insert_flag m9 card_holding card.holding)

  abbrev and_str : Option Value → Option (List ℕ)
  and_str none = none
  and_str (some value) = as_str value

  abbrev and_bool : Option Value → Option Bool
  and_bool none = none
  and_bool (some value) = as_bool value

  -- `value.get(key).and_then(Value::as_str)`
  unfoldable pub text_at : Value → List ℕ → Option (List ℕ)
  text_at value key = and_str (get value key)

  unfoldable pub flag_at : Value → List ℕ → Option Bool
  flag_at value key = and_bool (get value key)

  -- `PeerCard::from_card_value`
  unfoldable pub from_card_value : Value → Option PeerCard
  unfolding text_at flag_at rebuilt_label label_or
  from_card_value value = elim (text_at value card_endpoint) [
    | none ↦ none
    | some endpoint ↦
        let version = or_text (text_at value card_version) [] in
        let runtime = or_text (text_at value card_runtime) [] in
        let transport = or_text (text_at value card_transport) [] in
        some record {
          endpoint = endpoint;
          app = or_text (text_at value card_app) product;
          version = version;
          runtime = runtime;
          transport = transport;
          client = label_or (text_at value card_client) (rebuilt_label version runtime transport);
          role = text_at value card_role;
          tree = text_at value card_tree;
          serving = text_at value card_serving;
          holding = flag_at value card_holding;
        }
  ]
