-- ===== src/Forward/Walk.antt =====
-- The headers that reach the forwarding with TLS as members of a JSON object.
use oai_cn5g_sepp.Base.{
  ◌≡◌, refl, true, Bool-cases, inl, inr, ==_refl, ==_iff, Option, none, some, List, [], ◌∷◌, Bytes,
  ◌==◌, codes, map, ◌∙◌, if◌then◌else◌,
}
use oai_cn5g_sepp.Dict.{Headers, lookup, insert}
use oai_cn5g_sepp.Json.{JsonLib, IsJson}
use oai_cn5g_sepp.Json.Members.{IsJsonValue, last_of, set_all}
use oai_cn5g_sepp.Json.Objects.{IsJsonObject, find-strings, is_object-set_all}
use oai_cn5g_sepp.Forward.Direct.{string_items, forward_headers}
use oai_cn5g_sepp.Forward.Requests.{lookup-insert_other}

pub lookup-insert :
    (key value : Bytes) (headers : Headers) → lookup key (insert key value headers) ≡ some value
unfolding lookup insert
lookup-insert key value [] = rw (lookup, ==_refl key) refl
lookup-insert key value ((n, text) ∷ rest) = elim (Bool-cases (n == key)) [
  | inl e ↦ rw (insert, e, lookup, ==_refl key) refl
  | inr e ↦ rw (insert, e, lookup, e) (lookup-insert key value rest)
]

module _ {J : JsonLib} (L : IsJson J) where
  -- One member of the walk: where it is a text under the name, that text is held from then on.
  held-item :
      (key k v : Bytes) (j : J.Json) (o : Option J.Json) (out : Headers)
      → (o ≡ some (J.string v) → lookup k out ≡ some v)
      → (if key == k then some j else o) ≡ some (J.string v)
      → lookup k (
          if J.is_string j
          then elim (J.get_string j) [ none ↦ out | some s ↦ insert key s out ]
          else out)
        ≡ some v
  held-item key k v j o out held found = elim (Bool-cases (key == k)) [
    | inl e ↦
        let as_found : some j ≡ some (J.string v) = rw (← found, e) refl in
        let same : j ≡ J.string v = cc in
        let named : key ≡ k = (==_iff key k).0 e in
        rw (same, L.is_string-string, L.get_string-string, named) (lookup-insert k v out)
    | inr e ↦
        let before = held (rw (← found, e) refl) in
        elim (Bool-cases (J.is_string j)) [
          | inl text ↦
              rw text
                (elim (J.get_string j)
                  as (λ x. lookup k (elim x [ none ↦ out | some s ↦ insert key s out ]) ≡ some v) [
                    | none ↦ before
                    | some s ↦ lookup-insert_other key s k out e ∙ before
                  ])
          | inr other ↦ rw other before
        ]
  ]

  -- A text that stands last under a name is what the walk leaves there.
  lookup-string_items :
      (items : List (Bytes × J.Json)) (k v : Bytes) (o : Option J.Json) (out : Headers)
      → (o ≡ some (J.string v) → lookup k out ≡ some v)
      → last_of items k o ≡ some (J.string v)
      → lookup k (string_items J items out) ≡ some v
  unfolding string_items last_of
  lookup-string_items [] k v o out held found = held found
  lookup-string_items ((key, j) ∷ items) k v o out held found =
      lookup-string_items items k v _ _ (held-item key k v j o out held) found

  -- What a request's object holds under `headers`, an object made of texts.
  pub lookup-forward_headers :
      (V : IsJsonValue J) (O : IsJsonObject J) (req_data : J.Json) (texts : Headers) (k v : Bytes)
      → J.find req_data (codes "headers")
        ≡ some (set_all J (J.object []) (map (λ (key, text). (key, J.string text)) texts))
      → last_of texts k none ≡ some v
      → lookup k (forward_headers J req_data) ≡ some v
  unfolding forward_headers
  lookup-forward_headers V O req_data texts k v there found =
      let made = set_all J (J.object []) (map (λ (key, text). (key, J.string text)) texts) in
      let an_object : J.is_object made ≡ true =
        is_object-set_all V (J.object []) _ (O.is_object-object []) in
      rw (forward_headers, there, an_object)
        (lookup-string_items (J.items made) k v none [] (λ absent. cc)
          (O.last_of-items made k an_object ∙ find-strings L O texts k v found))
