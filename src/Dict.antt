-- ===== src/Dict.antt =====
-- `std::unordered_map<std::string, std::string>`, as an association list of distinct keys; its
-- order stands for the order in which the map is walked.
use oai_cn5g_sepp.Base.{Option, none, some, List, [], ◌∷◌, Bytes, ◌==◌, if◌then◌else◌}

abbrev pub Headers : Type 0
Headers = List (Bytes × Bytes)

-- `m.find(key)`
unfoldable pub lookup : Bytes → Headers → Option Bytes
lookup key [] = none
lookup key ((name, text) ∷ rest) = if name == key then some text else lookup key rest

-- `m[key] = value`
unfoldable pub insert : Bytes → Bytes → Headers → Headers
insert key value [] = (key, value) ∷ []
insert key value ((name, text) ∷ rest) =
    if name == key then (key, value) ∷ rest else (name, text) ∷ insert key value rest
