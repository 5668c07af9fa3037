-- ===== src/Json/Objects.antt =====
-- Objects that the source writes down member by member, and the walk over the members of an object.
use oai_cn5g_sepp.Base.{
  ◌≡◌, refl, true, false, Bool-cases, inl, inr, Option, none, some, List, [], ◌∷◌, map, Bytes, ◌==◌,
  if◌then◌else◌, arith,
}
use oai_cn5g_sepp.Dict.{Headers}
use oai_cn5g_sepp.Json.{JsonLib, IsJson}
use oai_cn5g_sepp.Json.Members.{IsJsonValue, last_of, set_all, find-set_all}

-- The value that stands first under a key.
unfoldable pub first_of : {A : Type 0} → List (Bytes × A) → Bytes → Option A
first_of [] k = none
first_of ((key, value) ∷ rest) k = if key == k then some value else first_of rest k

-- What the documentation says of an object that an initializer list makes, whose first member of a
-- name counts, and of `items()`, which yields each member of an object once.
pub record IsJsonObject (J : JsonLib) : Type 0 where
  pub is_null-object : (members : List (Bytes × J.Json)) → J.is_null (J.object members) ≡ false
  pub is_object-object : (members : List (Bytes × J.Json)) → J.is_object (J.object members) ≡ true
  pub find-object :
      (members : List (Bytes × J.Json)) (k : Bytes)
      → J.find (J.object members) k ≡ first_of members k
  pub last_of-items :
      (j : J.Json) (k : Bytes) → J.is_object j ≡ true → last_of (J.items j) k none ≡ J.find j k

-- A member whose value is mapped, `o'` being what `o` is mapped to.
last_of-map :
    {A B : Type 0} (f : A → B) (members : List (Bytes × A)) (k : Bytes) (v : A) (o : Option A)
    (o' : Option B)
    → (o ≡ some v → o' ≡ some (f v))
    → last_of members k o ≡ some v
    → last_of (map (λ (key, value). (key, f value)) members) k o' ≡ some (f v)
unfolding last_of
last_of-map f [] k v o o' related found = related found
last_of-map f ((key, value) ∷ rest) k v o o' related found = elim (Bool-cases (key == k)) [
  | inl e ↦
      rw (last_of, e)
        (last_of-map f rest k v (some value) (some (f value)) (λ same. cc)
          (rw (← found, last_of, e) refl))
  | inr e ↦ rw (last_of, e) (last_of-map f rest k v o o' related (rw (← found, last_of, e) refl))
]

module _ {J : JsonLib} (V : IsJsonValue J) where
  pub is_object-set_all :
      (j : J.Json) (members : List (Bytes × J.Json))
      → J.is_object j ≡ true
      → J.is_object (set_all J j members) ≡ true
  unfolding set_all
  is_object-set_all j [] h = h
  is_object-set_all j ((key, value) ∷ rest) h =
      is_object-set_all (J.insert j key value) rest
        (V.is_object-insert j value key (ground (arith, h)))

module _ {J : JsonLib} (L : IsJson J) (O : IsJsonObject J) where
  -- `data[key] = text` for each pair in turn, on an empty object: what is found under a key.
  pub find-strings :
      (texts : Headers) (k v : Bytes)
      → last_of texts k none ≡ some v
      → J.find (set_all J (J.object []) (map (λ (key, text). (key, J.string text)) texts)) k
        ≡ some (J.string v)
  unfolding first_of
  find-strings texts k v found =
      rw
        (
          find-set_all L (J.object []) (map (λ (key, text). (key, J.string text)) texts) k
              (rw (O.is_null-object [], O.is_object-object []) refl),
          O.find-object [] k,
        )
        (last_of-map J.string texts k v none none (λ absent. cc) found)
