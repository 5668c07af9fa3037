-- ===== src/Examples/Json.antt =====
-- A JSON library and model classes to run the code with.
use mathlib.Core.List.{append_assoc, append-nil}
use oai_cn5g_sepp.Base.{
  zero, suc, ◌+◌, ◌%◌, ◌^◌, ◌≤◌, ◌++◌, length, take, drop, length-append, take-append, drop-append,
  ◌=?◌, arith, ℕ, ◌≡◌, refl, Bool, true, false, ◌||◌, Option, none, some, List, [], ◌∷◌, Bytes,
  codes, ◌==◌, if◌then◌else◌,
}
use oai_cn5g_sepp.Json.{JsonLib, IsJson}

-- An array and an object end in their own constructor.
pub data Json : Type 0 where
  null : Json
  string : Bytes → Json
  bool : Bool → Json
  number : ℕ → Json
  end_array : Json
  item : Json → Json → Json
  end_object : Json
  member : Bytes → Json → Json → Json

unfoldable pub array : List Json → Json
array [] = end_array
array (j ∷ js) = item j (array js)

unfoldable pub object : List (Bytes × Json) → Json
object [] = end_object
object ((k, j) ∷ m) = member k j (object m)

-- The newest member shadows an older one of its name.
unfoldable pub insert : Json → Bytes → Json → Json
insert (member k j m) key value = member key value (member k j m)
insert j key value = member key value end_object

unfoldable pub find : Json → Bytes → Option Json
find (member k j m) key = let rest = find m key in if k == key then some j else rest
find j key = none

unfoldable pub is_object : Json → Bool
is_object end_object = true
is_object (member k j m) = true
is_object j = false

unfoldable pub is_array : Json → Bool
is_array end_array = true
is_array (item j js) = true
is_array j = false

unfoldable pub is_null : Json → Bool
is_null null = true
is_null j = false

unfoldable pub get_string : Json → Option Bytes
get_string (string s) = some s
get_string j = none

unfoldable pub get_bool : Json → Option Bool
get_bool (bool b) = some b
get_bool j = none

unfoldable pub get_int : Json → Option ℕ
get_int (number n) = some (n % 2 ^ 32)
get_int j = none

unfoldable pub elements : Json → List Json
elements (item j js) = j ∷ elements js
elements j = []

unfoldable pub items : Json → List (Bytes × Json)
items (member k j m) = items m ++ ((k, j) ∷ [])
items j = []

-- A value begins with the number of its constructor; a text begins with its length.
unfoldable pub dump : Json → Bytes
dump null = 0 ∷ []
dump (string s) = 1 ∷ length s ∷ s
dump (bool b) = 2 ∷ (if b then 1 else 0) ∷ []
dump (number n) = 3 ∷ n ∷ []
dump end_array = 4 ∷ []
dump (item j js) = 5 ∷ (dump j ++ dump js)
dump end_object = 6 ∷ []
dump (member k j m) = 7 ∷ length k ∷ (k ++ (dump j ++ dump m))

-- The value that a text begins with, and the rest; the fuel is the depth.
unfoldable pub decode : ℕ → Bytes → Option (Json × Bytes)
decode zero t = none
decode (suc n) [] = none
decode (suc n) (zero ∷ t) = some (null, t)
decode (suc n) (suc zero ∷ []) = none
decode (suc n) (suc zero ∷ k ∷ t) = some (string (take k t), drop k t)
decode (suc n) (suc (suc zero) ∷ []) = none
decode (suc n) (suc (suc zero) ∷ b ∷ t) = some (bool (b =? 1), t)
decode (suc n) (suc (suc (suc zero)) ∷ []) = none
decode (suc n) (suc (suc (suc zero)) ∷ k ∷ t) = some (number k, t)
decode (suc n) (suc (suc (suc (suc zero))) ∷ t) = some (end_array, t)
decode (suc n) (suc (suc (suc (suc (suc zero)))) ∷ t) = elim (decode n t) [
  | none ↦ none
  | some (j, u) ↦ elim (decode n u) [ none ↦ none | some (js, v) ↦ some (item j js, v) ]
]
decode (suc n) (suc (suc (suc (suc (suc (suc zero))))) ∷ t) = some (end_object, t)
decode (suc n) (suc (suc (suc (suc (suc (suc (suc zero)))))) ∷ []) = none
decode (suc n) (suc (suc (suc (suc (suc (suc (suc zero)))))) ∷ k ∷ t) = elim (decode n (drop k t)) [
  | none ↦ none
  | some (j, u) ↦ elim (decode n u) [ none ↦ none | some (m, v) ↦ some (member (take k t) j m, v) ]
]
-- Any other text is an object that holds it as a context.
decode (suc n) (suc (suc (suc (suc (suc (suc (suc (suc c))))))) ∷ t) = some (
  member (codes "n32fContextId") (string (suc (suc (suc (suc (suc (suc (suc (suc c))))))) ∷ t))
      end_object,
  [],
)

unfoldable pub parse : Bytes → Option Json
parse t = elim (decode (length t) t) [ none ↦ none | some (j, rest) ↦ some j ]

depth : Json → ℕ
depth (item j js) = suc (depth j + depth js)
depth (member k j m) = suc (depth j + depth m)
depth j = 1

depth-le-length : (j : Json) → depth j ≤ length (dump j)
unfolding depth dump
depth-le-length (item j js) =
    omega (arith, length-append (dump j) (dump js), depth-le-length j, depth-le-length js)
depth-le-length (member k j m) = omega (
  arith,
  length-append k (dump j ++ dump m),
  length-append (dump j) (dump m),
  depth-le-length j,
  depth-le-length m,
)
depth-le-length null = omega arith
depth-le-length (string s) = omega arith
depth-le-length (bool b) = omega arith
depth-le-length (number n) = omega arith
depth-le-length end_array = omega arith
depth-le-length end_object = omega arith

decode-append :
    (n : ℕ) (j : Json) (rest : Bytes) → depth j ≤ n → decode n (dump j ++ rest) ≡ some (j, rest)
unfolding decode dump depth
decode-append zero null rest h = absurd (omega arith)
decode-append zero (string s) rest h = absurd (omega arith)
decode-append zero (bool s) rest h = absurd (omega arith)
decode-append zero (number s) rest h = absurd (omega arith)
decode-append zero end_array rest h = absurd (omega arith)
decode-append zero (item j js) rest h = absurd (omega arith)
decode-append zero end_object rest h = absurd (omega arith)
decode-append zero (member k j m) rest h = absurd (omega arith)
decode-append (suc n) null rest h = refl
decode-append (suc n) (string s) rest h = rw (take-append s rest, drop-append s rest)
decode-append (suc n) (bool true) rest h = refl
decode-append (suc n) (bool false) rest h = refl
decode-append (suc n) (number k) rest h = refl
decode-append (suc n) end_array rest h = refl
decode-append (suc n) end_object rest h = refl
decode-append (suc n) (item j js) rest h = rw (
  append_assoc (dump j) (dump js) rest,
  decode-append n j (dump js ++ rest) (omega arith),
  decode-append n js rest (omega arith),
)
decode-append (suc n) (member k j m) rest h = rw (
  append_assoc k (dump j ++ dump m) rest,
  drop-append k ((dump j ++ dump m) ++ rest),
  append_assoc (dump j) (dump m) rest,
  decode-append n j (dump m ++ rest) (omega arith),
  decode-append n m rest (omega arith),
  append_assoc k (dump j ++ dump m) rest,
  take-append k ((dump j ++ dump m) ++ rest),
)

pub parse-dump : (j : Json) → parse (dump j) ≡ some j
unfolding parse
parse-dump j =
    let decoded : decode (length (dump j)) (dump j) ≡ some (j, []) =
      rw (append-nil (dump j)) at (decode-append (length (dump j)) j [] (depth-le-length j)) in
    rw (decoded, parse)

abbrev pub json : JsonLib
json = record {
  Json = Json;
  null = null;
  string = string;
  bool = bool;
  number = number;
  array = array;
  object = object;
  insert = insert;
  is_null = is_null;
  is_object = is_object;
  is_array = is_array;
  is_string = λ j. elim (get_string j) [ none ↦ false | some s ↦ true ];
  empty = λ j. is_null j;
  find = find;
  get_string = get_string;
  get_bool = get_bool;
  int32 = number;
  get_int = get_int;
  elements = elements;
  items = items;
  parse = parse;
  dump = dump;
}

json_find-insert :
    (j v : Json) (k k' : Bytes)
    → (is_null j || is_object j) ≡ true
    → find (insert j k v) k' ≡ (if k == k' then some v else find j k')
unfolding insert find is_object is_null
json_find-insert null v k k' h = refl
json_find-insert (string s) v k k' h = refl
json_find-insert (bool b) v k k' h = refl
json_find-insert (number n) v k k' h = refl
json_find-insert end_array v k k' h = refl
json_find-insert (item i is) v k k' h = refl
json_find-insert end_object v k k' h = refl
json_find-insert (member i j m) v k k' h = refl

json_CanHold-insert :
    (j v : Json) (k : Bytes)
    → (is_null j || is_object j) ≡ true
    → (is_null (insert j k v) || is_object (insert j k v)) ≡ true
unfolding insert is_object is_null
json_CanHold-insert null v k h = refl
json_CanHold-insert (string s) v k h = refl
json_CanHold-insert (bool b) v k h = refl
json_CanHold-insert (number n) v k h = refl
json_CanHold-insert end_array v k h = refl
json_CanHold-insert (item i is) v k h = refl
json_CanHold-insert end_object v k h = refl
json_CanHold-insert (member i j m) v k h = refl

pub json-IsJson : IsJson json
unfolding insert find is_object is_null get_string
json-IsJson = record {
  find-insert = json_find-insert;
  CanHold-insert = json_CanHold-insert;
  is_string-string = λ s. refl;
  get_string-string = λ s. refl;
}
