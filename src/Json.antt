-- ===== src/Json.antt =====
-- What the protocol crate uses of serde_json.
use agent_share.Prelude.{ℕ, ◌≡◌, List, Bool, Option, none, some, bytes_eq, if◌then◌else◌}

pub record JsonLibrary : Type 1 where
  pub Value : Type 0
  pub Map : Type 0
  pub new_map : Map
  pub insert : Map → List ℕ → Value → Map
  pub object : Map → Value
  pub string : List ℕ → Value
  pub boolean : Bool → Value
  pub get : Value → List ℕ → Option Value
  pub as_str : Value → Option (List ℕ)
  pub as_bool : Value → Option Bool
  pub as_object : Value → Option (List (List ℕ × Value))

-- What its documentation says of them: the last value under a key is read back, and a value is of one
-- kind.
pub record JsonLaws (json : JsonLibrary) : Type 0 where
  pub get_new : (key : List ℕ) → json.get (json.object json.new_map) key ≡ none
  pub get_insert :
      (map : json.Map) (key other : List ℕ) (value : json.Value)
      → json.get (json.object (json.insert map key value)) other
        ≡ (if bytes_eq key other then some value else json.get (json.object map) other)
  pub as_str_string : (text : List ℕ) → json.as_str (json.string text) ≡ some text
  pub as_str_boolean : (b : Bool) → json.as_str (json.boolean b) ≡ none
  pub as_bool_boolean : (b : Bool) → json.as_bool (json.boolean b) ≡ some b
  pub as_bool_string : (text : List ℕ) → json.as_bool (json.string text) ≡ none
