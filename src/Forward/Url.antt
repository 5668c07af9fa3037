-- ===== src/Forward/Url.antt =====
-- `url_decode` and `extract_plmn_from_path`.
pub mod Pieces
pub mod Decode
pub mod Query
use mathlib.Core.Option
use oai_cn5g_sepp.Base.{
  ℕ, ◌+◌, ◌-◌, ◌*◌, ◌&&◌, ◌||◌, Option, none, some, List, [], ◌∷◌, ◌++◌, Bytes, codes, ◌==◌, find,
  take, drop, is_empty, leb, ◌=?◌, if◌then◌else◌,
}
use oai_cn5g_sepp.Json.{JsonLib, value}

-- `hex_to_int`, `none` for -1
unfoldable pub hex_to_int : ℕ → Option ℕ
hex_to_int c =
    if leb b'0' c && leb c b'9'
    then some (c - b'0')
    else if leb b'a' c && leb c b'f'
    then some (c - b'a' + 10)
    else if leb b'A' c && leb c b'F'
    then some (c - b'A' + 10)
    else none

-- The byte of two hexadecimal digits, `(hi << 4) | lo` for digits below 16.
unfoldable pub hex_byte : ℕ → ℕ → Option ℕ
unfolding hex_to_int
hex_byte a b = elim (hex_to_int a) [
  | none ↦ none
  | some hi ↦ elim (hex_to_int b) [ none ↦ none | some lo ↦ some (hi * 16 + lo) ]
]

abbrev pub plus_to_space : ℕ → ℕ
plus_to_space c = if c =? b'+' then b' ' else c

unfoldable pub url_decode : Bytes → Bytes
unfolding hex_byte
url_decode [] = []
url_decode (c ∷ []) = plus_to_space c ∷ []
url_decode (c ∷ a ∷ []) = plus_to_space c ∷ plus_to_space a ∷ []
url_decode (c ∷ a ∷ b ∷ s) =
    let decoded = url_decode s in
    let kept = url_decode (a ∷ b ∷ s) in
    elim (if c =? b'%' then hex_byte a b else none) [
      | none ↦ plus_to_space c ∷ kept
      | some byte ↦ byte ∷ decoded
    ]

-- The text before the first byte `b` and the text behind it; `none` where there is none. It is
-- `s.find(b)` with the two `substr`.
unfoldable pub cut : ℕ → Bytes → Option (Bytes × Bytes)
cut b [] = none
cut b (c ∷ s) =
    let later = Option.map (λ (l, r). (c ∷ l, r)) (cut b s) in
    if c =? b then some ([], s) else later

-- The pieces between the bytes `b`; an empty last piece is none. It is the text that `std::getline`
-- yields call after call, and what the loop of `extract_plmn_from_path` walks for '&'.
unfoldable pub pieces_from : ℕ → Bytes → Bytes → List Bytes
pieces_from b cur [] = if is_empty cur then [] else cur ∷ []
pieces_from b cur (c ∷ s) =
    let ended = pieces_from b [] s in
    let longer = pieces_from b (cur ++ c ∷ []) s in if c =? b then cur ∷ ended else longer

abbrev pub pieces : ℕ → Bytes → List Bytes
pieces b s = pieces_from b [] s

abbrev found_or {ℓ} : {A : Type ℓ} → A → Option A → A
found_or default none = default
found_or default (some a) = a

module _ (J : JsonLib) where
  -- The `catch` branch: three bytes behind `"mcc":"`, and what stands behind `"mnc":"` up to the
  -- next quote.
  unfoldable pub plmn_by_text : Bytes → Bytes × Bytes → Bytes × Bytes
  unfolding find cut
  plmn_by_text decoded (mcc, mnc) = (
    elim (find decoded (codes "\"mcc\":\"")) [
      | none ↦ mcc
      | some pos ↦ take 3 (drop (pos + 7) decoded)
    ],
    elim (find decoded (codes "\"mnc\":\"")) [
      | none ↦ mnc
      | some pos ↦ elim (cut b'"' (drop (pos + 7) decoded)) [ none ↦ mnc | some (v, rest) ↦ v ]
    ],
  )

  -- The value of `plmn-id`, decoded: as JSON, or by its text where that throws.
  unfoldable pub plmn_of_value : Bytes → Bytes × Bytes → Bytes × Bytes
  unfolding plmn_by_text value
  plmn_of_value decoded (mcc, mnc) = elim (J.parse decoded) [
    | none ↦ plmn_by_text decoded (mcc, mnc)
    | some plmn_json ↦ elim (value J plmn_json (codes "mcc")) [
      | none ↦ plmn_by_text decoded (mcc, mnc)
      | some mcc' ↦ elim (value J plmn_json (codes "mnc")) [
        | none ↦ plmn_by_text decoded (mcc', mnc)
        | some mnc' ↦ (mcc', mnc')
      ]
    ]
  ]

  -- The loop over the parameters of the query, up to the first one with a PLMN.
  unfoldable pub plmn_of_params : List Bytes → Bytes × Bytes → Bytes × Bytes
  unfolding plmn_of_value url_decode cut ◌==◌
  plmn_of_params [] plmn = plmn
  plmn_of_params (param ∷ params) plmn =
      let rest = plmn_of_params params plmn in
      elim (cut b'=' param) [
        | none ↦ rest
        | some (key, val) ↦
            if key == codes "plmn-id" || key == codes "target-plmn-id"
            then plmn_of_value (url_decode val) plmn
            else rest
      ]

  unfoldable pub extract_plmn_from_path : Bytes → Bytes × Bytes → Bytes × Bytes
  unfolding plmn_of_params pieces_from
  extract_plmn_from_path path plmn = elim (cut b'?' path) [
    | none ↦ plmn
    | some (before, query_str) ↦ plmn_of_params (pieces b'&' query_str) plmn
  ]
