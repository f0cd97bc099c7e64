-- ===== src/Client/RoundTrip.antt =====
-- A card through its JSON form (crates/agent-share-proto/src/client.rs).
use mathlib.Core.Path.{fun_ext}
use agent_share.Prelude.{
  ◌≢◌, ◌⊎◌, ◌++◌, sym, ℕ, ◌≡◌, refl, ap, ◌∙◌, List, [], ◌∷◌, Bool, Option, none, some, bytes_eq,
  if◌then◌else◌, Bool-cases, inl, inr,
}
use agent_share.Authorship.{codes}
use agent_share.Json.{JsonLibrary, JsonLaws}
use agent_share.Client.{
  format_label, PeerCard, product, card_client, card_endpoint, card_app, card_version, card_runtime,
  card_transport, card_role, card_tree, card_serving, card_holding, or_text, rebuilt_label,
  label_or, insert_text, insert_flag, to_card_value, from_card_value, text_at, flag_at,
}

data Field : Type 0 where
  text : (t : List ℕ) → Field
  flag : (b : Bool) → Field

abbrev text_of : Option Field → Option (List ℕ)
text_of none = none
text_of (some (text t)) = some t
text_of (some (flag b)) = none

abbrev flag_of : Option Field → Option Bool
flag_of none = none
flag_of (some (text t)) = none
flag_of (some (flag b)) = some b

abbrev as_text : Option (List ℕ) → Option Field
as_text none = none
as_text (some t) = some (text t)

abbrev as_flag : Option Bool → Option Field
as_flag none = none
as_flag (some b) = some (flag b)

abbrev over : Option Field → Option Field → Option Field
over none d = d
over (some f) d = some f

-- The last field under a key.
abbrev lookup : List (List ℕ × Option Field) → List ℕ → Option Field → Option Field
lookup [] key d = d
lookup ((other, field) ∷ fields) key d =
    lookup fields key (if bytes_eq other key then over field d else d)

abbrev fields_of : PeerCard → List (List ℕ × Option Field)
fields_of card =
    (card_endpoint, some (text card.endpoint))
    ∷ (card_app, some (text card.app))
    ∷ (card_version, some (text card.version))
    ∷ (card_runtime, some (text card.runtime))
    ∷ (card_transport, some (text card.transport))
    ∷ (card_client, some (text card.client))
    ∷ (card_role, as_text card.role)
    ∷ (card_tree, as_text card.tree)
    ∷ (card_serving, as_text card.serving)
    ∷ (card_holding, as_flag card.holding)
    ∷ []

text_of-as_text : (o : Option (List ℕ)) → text_of (over (as_text o) none) ≡ o
text_of-as_text none = refl
text_of-as_text (some t) = refl

flag_of-as_flag : (o : Option Bool) → flag_of (over (as_flag o) none) ≡ o
flag_of-as_flag none = refl
flag_of-as_flag (some b) = refl

-- The card that is made of what is read at the keys.
abbrev build : (List ℕ → Option (List ℕ)) → Option Bool → Option PeerCard
build read held = elim (read card_endpoint) [
  | none ↦ none
  | some endpoint ↦
      let version = or_text (read card_version) [] in
      let runtime = or_text (read card_runtime) [] in
      let transport = or_text (read card_transport) [] in
      some record {
        endpoint = endpoint;
        app = or_text (read card_app) product;
        version = version;
        runtime = runtime;
        transport = transport;
        client = label_or (read card_client) (rebuilt_label version runtime transport);
        role = read card_role;
        tree = read card_tree;
        serving = read card_serving;
        holding = held;
      }
]

-- The label of a card without one: of its three parts, or `unknown` where one of them is missing.
abbrev pub IsMadeLabel : PeerCard → List ℕ → Type 0
IsMadeLabel card label =
    (((card.version ≢ []) × (card.runtime ≢ []) × (card.transport ≢ []))
      × (label
          ≡ codes "agent-share v"
            ++ (card.version
                ++ (codes " ("
                    ++ (card.runtime ++ (codes ", " ++ (card.transport ++ codes ")")))))))
    ⊎ (((card.version ≡ []) ⊎ (card.runtime ≡ []) ⊎ (card.transport ≡ []))
        × (label ≡ codes "unknown"))

cons-nonempty : (x : ℕ) (xs : List ℕ) → x ∷ xs ≢ []
cons-nonempty x xs e = cc

rebuilt_label-IsMadeLabel :
    (card : PeerCard) → IsMadeLabel card (rebuilt_label card.version card.runtime card.transport)
unfolding rebuilt_label format_label
rebuilt_label-IsMadeLabel card = by_parts card.version refl card.runtime refl card.transport refl
  where
    by_parts :
        (v : List ℕ)
        → card.version ≡ v
        → (r : List ℕ) → card.runtime ≡ r
        → (t : List ℕ) → card.transport ≡ t
        → IsMadeLabel card (rebuilt_label card.version card.runtime card.transport)
    by_parts [] ev r er t et = inr (inl ev, rw ev refl)
    by_parts (v ∷ vs) ev [] er t et = inr (inr (inl er), rw ev (rw er refl))
    by_parts (v ∷ vs) ev (r ∷ rs) er [] et = inr (inr (inr et), rw ev (rw er (rw et refl)))
    by_parts (v ∷ vs) ev (r ∷ rs) er (t ∷ ts) et =
        let whole : rebuilt_label card.version card.runtime card.transport
            ≡ format_label card.version card.runtime card.transport =
          rw ev (rw er (rw et refl)) in
        inl (
          (
            λ e. cons-nonempty v vs (sym ev ∙ e),
            λ e. cons-nonempty r rs (sym er ∙ e),
            λ e. cons-nonempty t ts (sym et ∙ e),
          ),
          whole,
        )

abbrev relabelled : PeerCard → PeerCard
relabelled card = record card {
  client = label_or (some card.client) (rebuilt_label card.version card.runtime card.transport);
}

build-fields :
    (card : PeerCard)
    → build
        (λ key. text_of (lookup (fields_of card) key none))
        (flag_of (lookup (fields_of card) card_holding none))
      ≡ some (relabelled card)
unfolding bytes_eq
build-fields card = rw (text_of-as_text card.role) (
    rw (text_of-as_text card.tree)
      (rw (text_of-as_text card.serving) (rw (flag_of-as_flag card.holding) refl)))

module _ (json : JsonLibrary) (laws : JsonLaws json) where
  open json use {Value, Map, new_map, insert, object, string, boolean, get, as_str, as_bool}

  abbrev value_of : Field → Value
  value_of (text t) = string t
  value_of (flag b) = boolean b

  abbrev valued : Option Field → Option Value
  valued none = none
  valued (some f) = some (value_of f)

  abbrev put : Map → List ℕ × Option Field → Map
  put map (key, none) = map
  put map (key, some f) = insert map key (value_of f)

  abbrev put_all : Map → List (List ℕ × Option Field) → Map
  put_all map [] = map
  put_all map (f ∷ fs) = put_all (put map f) fs

  get-put :
      (map : Map) (other : List ℕ) (field : Option Field) (key : List ℕ) (d : Option Field)
      → get (object map) key ≡ valued d
      → get (object (put map (other, field))) key
        ≡ valued (if bytes_eq other key then over field d else d)
  get-put map other none key d h = elim (Bool-cases (bytes_eq other key)) [
    | inl e ↦ rw e h
    | inr e ↦ rw e h
  ]
  get-put map other (some f) key d h =
      laws.get_insert map other key (value_of f)
      ∙ elim (Bool-cases (bytes_eq other key)) [ inl e ↦ rw e refl | inr e ↦ rw e h ]

  get-put_all :
      (map : Map) (fields : List (List ℕ × Option Field)) (key : List ℕ) (d : Option Field)
      → get (object map) key ≡ valued d
      → get (object (put_all map fields)) key ≡ valued (lookup fields key d)
  get-put_all map [] key d h = h
  get-put_all map ((other, field) ∷ fields) key d h =
      get-put_all (put map (other, field)) fields key
        (if bytes_eq other key then over field d else d) (get-put map other field key d h)

  insert_text-put :
      (map : Map) (key : List ℕ) (o : Option (List ℕ))
      → insert_text json map key o ≡ put map (key, as_text o)
  insert_text-put map key none = refl
  insert_text-put map key (some t) = refl

  insert_flag-put :
      (map : Map) (key : List ℕ) (o : Option Bool)
      → insert_flag json map key o ≡ put map (key, as_flag o)
  insert_flag-put map key none = refl
  insert_flag-put map key (some b) = refl

  to_card_value-put_all :
      (card : PeerCard) → to_card_value json card ≡ object (put_all new_map (fields_of card))
  unfolding to_card_value
  to_card_value-put_all card =
      let m6 = put_all new_map (
        (card_endpoint, some (text card.endpoint))
        ∷ (card_app, some (text card.app))
        ∷ (card_version, some (text card.version))
        ∷ (card_runtime, some (text card.runtime))
        ∷ (card_transport, some (text card.transport))
        ∷ (card_client, some (text card.client))
        ∷ []) in
      let m7 = put m6 (card_role, as_text card.role) in
      let m8 = put m7 (card_tree, as_text card.tree) in
      let m9 = put m8 (card_serving, as_text card.serving) in
      ap
        (λ m. object (
          insert_flag json
            (insert_text json (insert_text json m card_tree card.tree) card_serving card.serving)
            card_holding card.holding))
        (insert_text-put m6 card_role card.role)
      ∙ ap
          (λ m. object (
            insert_flag json (insert_text json m card_serving card.serving) card_holding
              card.holding))
          (insert_text-put m7 card_tree card.tree)
      ∙ ap (λ m. object (insert_flag json m card_holding card.holding))
          (insert_text-put m8 card_serving card.serving)
      ∙ ap object (insert_flag-put m9 card_holding card.holding)

  get-to_card_value :
      (card : PeerCard) (key : List ℕ)
      → get (to_card_value json card) key ≡ valued (lookup (fields_of card) key none)
  get-to_card_value card key =
      ap (λ v. get v key) (to_card_value-put_all card)
      ∙ get-put_all new_map (fields_of card) key none (laws.get_new key)

  text_at-valued :
      (value : Value) (key : List ℕ) (o : Option Field)
      → get value key ≡ valued o
      → text_at json value key ≡ text_of o
  unfolding text_at
  text_at-valued value key none e = rw e refl
  text_at-valued value key (some (text t)) e = rw e (laws.as_str_string t)
  text_at-valued value key (some (flag b)) e = rw e (laws.as_str_boolean b)

  flag_at-valued :
      (value : Value) (key : List ℕ) (o : Option Field)
      → get value key ≡ valued o
      → flag_at json value key ≡ flag_of o
  unfolding flag_at
  flag_at-valued value key none e = rw e refl
  flag_at-valued value key (some (text t)) e = rw e (laws.as_bool_string t)
  flag_at-valued value key (some (flag b)) e = rw e (laws.as_bool_boolean b)

  from_card_value-build :
      (value : Value)
      → from_card_value json value ≡ build (text_at json value) (flag_at json value card_holding)
  unfolding from_card_value
  from_card_value-build value = refl

  card_relabelled :
      (card : PeerCard) → from_card_value json (to_card_value json card) ≡ some (relabelled card)
  card_relabelled card =
      let value = to_card_value json card in
      let texts : text_at json value ≡ (λ key. text_of (lookup (fields_of card) key none)) =
        fun_ext (λ key.
          text_at-valued value key (lookup (fields_of card) key none)
            (get-to_card_value card key)) in
      let held =
        flag_at-valued value card_holding (lookup (fields_of card) card_holding none)
          (get-to_card_value card card_holding) in
      from_card_value-build value
      ∙ ap (λ read. build read (flag_at json value card_holding)) texts
      ∙ ap (build (λ key. text_of (lookup (fields_of card) key none))) held
      ∙ build-fields card

  -- A card is read back from what is published of it, every field, present or not, where its label is
  -- not empty. An empty label comes back as the product with the version, the runtime and the transport,
  -- or as `unknown` where one of them is empty, and every other field as it was.
  pub from_card_value-to_card_value :
      (card : PeerCard)
      → ((card.client ≢ []) × (from_card_value json (to_card_value json card) ≡ some card))
        ⊎ ((card.client ≡ [])
            × (label : List ℕ) × IsMadeLabel card label
            × (from_card_value json (to_card_value json card)
                ≡ some (record card { client = label })))
  unfolding label_or
  from_card_value-to_card_value card = by_label card.client refl
    where
      by_label :
          (c : List ℕ)
          → card.client ≡ c
          → ((card.client ≢ []) × (from_card_value json (to_card_value json card) ≡ some card))
            ⊎ ((card.client ≡ [])
                × (label : List ℕ) × IsMadeLabel card label
                × (from_card_value json (to_card_value json card)
                    ≡ some (record card { client = label })))
      by_label [] e = inr (
        e,
        rebuilt_label card.version card.runtime card.transport,
        rebuilt_label-IsMadeLabel card,
        card_relabelled card
            ∙ ap
                (λ c. some (record card {
                  client =
                      label_or (some c) (rebuilt_label card.version card.runtime card.transport);
                }))
                e,
      )
      by_label (b ∷ bs) e =
          let same : label_or (some card.client)
                (rebuilt_label card.version card.runtime card.transport)
              ≡ card.client =
            rw e refl in
          inl (
            λ n. cons-nonempty b bs (sym e ∙ n),
            card_relabelled card ∙ ap (λ c. some (record card { client = c })) same,
          )
