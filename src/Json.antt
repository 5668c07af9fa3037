-- ===== src/Json.antt =====
-- `nlohmann::json`, a parameter of the model: the members that the source calls, with what their
-- documentation says of them. And `Codec`, the three functions of an OpenAPI model class.
pub mod Members
pub mod Objects
use oai_cn5g_sepp.Base.{
  ℕ, ◌≡◌, Bool, true, ◌||◌, Option, none, some, List, [], ◌∷◌, Bytes, ◌==◌, if◌then◌else◌,
}

pub record JsonLib : Type 1 where
  pub Json : Type 0
  pub null : Json
  pub string : Bytes → Json
  pub bool : Bool → Json
  pub number : ℕ → Json
  pub array : List Json → Json
  pub object : List (Bytes × Json) → Json
  -- `j[key] = value`, which makes an object of null
  pub insert : Json → Bytes → Json → Json
  pub is_null : Json → Bool
  pub is_object : Json → Bool
  pub is_array : Json → Bool
  pub is_string : Json → Bool
  pub empty : Json → Bool
  -- `j.find(key)`; `contains` and the constant `j[key]` go by it
  pub find : Json → Bytes → Option Json
  -- `j.get<std::string>()` and `j.get<bool>()`, `none` for a `type_error`
  pub get_string : Json → Option Bytes
  pub get_bool : Json → Option Bool
  -- a signed number of 32 bits, by its bit pattern, and `j.get<int>()`
  pub int32 : ℕ → Json
  pub get_int : Json → Option ℕ
  -- the range `for (auto& x : j)` of an array, and `j.items()` of an object
  pub elements : Json → List Json
  pub items : Json → List (Bytes × Json)
  -- `none` for a `parse_error`
  pub parse : Bytes → Option Json
  pub dump : Json → Bytes

-- `operator[]` takes a null or an object, and throws for anything else; the source never gives it
-- anything else.
abbrev pub CanHold : (J : JsonLib) → J.Json → Type 0
CanHold J j = (J.is_null j || J.is_object j) ≡ true

-- What the documentation says of the members.
pub record IsJson (J : JsonLib) : Type 0 where
  pub find-insert :
      (j v : J.Json) (k k' : Bytes)
      → CanHold J j
      → J.find (J.insert j k v) k' ≡ (if k == k' then some v else J.find j k')
  pub CanHold-insert : (j v : J.Json) (k : Bytes) → CanHold J j → CanHold J (J.insert j k v)
  pub is_string-string : (s : Bytes) → J.is_string (J.string s) ≡ true
  pub get_string-string : (s : Bytes) → J.get_string (J.string s) ≡ some s

-- A class of the OpenAPI models: `from_json`, `none` where it throws, `to_json`, `validate`.
pub record Codec (Json A : Type 0) : Type 0 where
  pub from_json : Json → Option A
  pub to_json : A → Json
  pub validate : A → Bool

module _ (J : JsonLib) where
  open J use {Json, is_object, is_string, find, get_string}

  -- `auto it = j.find(key); it != j.end() && it->is_string()`, then `it->get<std::string>()`
  unfoldable pub find_string : Json → Bytes → Option Bytes
  find_string j key = elim (find j key) [
    | none ↦ none
    | some v ↦ if is_string v then get_string v else none
  ]

  -- `get<std::vector<std::string>>()`
  unfoldable pub get_strings : List Json → Option (List Bytes)
  get_strings [] = some []
  get_strings (j ∷ js) = elim (get_string j) [
    | none ↦ none
    | some s ↦ elim (get_strings js) [ none ↦ none | some ss ↦ some (s ∷ ss) ]
  ]

  -- `j.value(key, "")`, which throws where `j` is no object or holds no string there
  unfoldable pub value : Json → Bytes → Option Bytes
  value j key =
      if is_object j then elim (find j key) [ none ↦ some [] | some v ↦ get_string v ] else none

module _ {J : JsonLib} (L : IsJson J) where
  -- A string that stands under a key is found there.
  pub find_string_of_find :
      (j : J.Json) (k s : Bytes) → J.find j k ≡ some (J.string s) → find_string J j k ≡ some s
  unfolding find_string
  find_string_of_find j k s e = rw (e, find_string, L.is_string-string, L.get_string-string)
