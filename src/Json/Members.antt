-- ===== src/Json/Members.antt =====
-- Objects that the source builds member by member, and what becomes of a member.
use oai_cn5g_sepp.Base.{
  ℕ, ◌≡◌, true, false, Bool, none, ◌<◌, ◌%◌, ◌^◌, refl, true, Option, none, some, List, [], ◌∷◌,
  Bytes, ◌==◌, if◌then◌else◌,
}
use oai_cn5g_sepp.Json.{JsonLib, IsJson, CanHold}

-- What the documentation says of null, of what `operator[]` leaves, and of arrays,
-- truth values and numbers.
pub record IsJsonValue (J : JsonLib) : Type 0 where
  pub is_null-null : J.is_null J.null ≡ true
  pub find-null : (k : Bytes) → J.find J.null k ≡ none
  pub is_null-insert : (j v : J.Json) (k : Bytes) → CanHold J j → J.is_null (J.insert j k v) ≡ false
  pub is_object-insert :
      (j v : J.Json) (k : Bytes) → CanHold J j → J.is_object (J.insert j k v) ≡ true
  pub is_array-array : (js : List J.Json) → J.is_array (J.array js) ≡ true
  pub get_bool-bool : (b : Bool) → J.get_bool (J.bool b) ≡ some b
  pub elements-array : (js : List J.Json) → J.elements (J.array js) ≡ js
  pub get_int-int32 : (n : ℕ) → n < 2 ^ 32 → J.get_int (J.int32 n) ≡ some n
  pub get_int-number : (n : ℕ) → J.get_int (J.number n) ≡ some (n % 2 ^ 32)
  pub get_int-bound : (j : J.Json) (n : ℕ) → J.get_int j ≡ some n → n < 2 ^ 32

-- The value that stands last under a key, and else the default.
unfoldable pub last_of : {A : Type 0} → List (Bytes × A) → Bytes → Option A → Option A
last_of [] k o = o
last_of ((key, value) ∷ rest) k o = last_of rest k (if key == k then some value else o)

module _ (J : JsonLib) where
  -- `data[key] = value` for each pair in turn
  unfoldable pub set_all : J.Json → List (Bytes × J.Json) → J.Json
  set_all j [] = j
  set_all j ((key, value) ∷ rest) = set_all (J.insert j key value) rest

module _ {J : JsonLib} (L : IsJson J) where
  -- After a sequence of assignments a key holds what was assigned to it last.
  pub find-set_all :
      (j : J.Json) (members : List (Bytes × J.Json)) (k : Bytes)
      → CanHold J j
      → J.find (set_all J j members) k ≡ last_of members k (J.find j k)
  unfolding set_all last_of
  find-set_all j [] k h = refl
  find-set_all j ((key, value) ∷ rest) k h =
      rw
        (
          find-set_all (J.insert j key value) rest k (L.CanHold-insert j value key h),
          L.find-insert j value key k h,
        )
        refl

  pub CanHold-set_all :
      (j : J.Json) (members : List (Bytes × J.Json)) → CanHold J j → CanHold J (set_all J j members)
  unfolding set_all
  CanHold-set_all j [] h = h
  CanHold-set_all j ((key, value) ∷ rest) h =
      CanHold-set_all (J.insert j key value) rest (L.CanHold-insert j value key h)
