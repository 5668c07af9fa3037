-- ===== src/Forward/Url/Query.antt =====
-- Where `extract_plmn_from_path` finds a PLMN: behind the first '?', in the first parameter that
-- names one.
use oai_cn5g_sepp.Base.{
  ◌≡◌, ◌≢◌, ◌⊎◌, inl, inr, refl, ap, ◌∙◌, arith, some, List, [], ◌∷◌, ◌++◌, Bytes, codes, ◌==◌,
  ==-false, ==-true, is_empty, All, Bool, true, false, ◌||◌,
}
use mathlib.Core.List.{append_assoc, append-nil}
use oai_cn5g_sepp.Search.{Lacks, Lacks-append}
use oai_cn5g_sepp.Json.{JsonLib, value}
use oai_cn5g_sepp.Forward.Url.{pieces, plmn_of_value, plmn_of_params, extract_plmn_from_path}
use oai_cn5g_sepp.Forward.Url.Pieces.{cut-append, cut-Lacks, pieces_from-append, pieces_from-end}
use oai_cn5g_sepp.Forward.Url.Decode.{Encodes, url_decode-Encodes}

-- The parameters of a query, each with the '&' behind it.
abbrev pub joined : List Bytes → Bytes
joined [] = []
joined (p ∷ ps) = p ++ b'&' ∷ joined ps

-- A parameter that names no PLMN: it has no '=', or another key before it.
abbrev Other : Bytes → Type 0
Other param =
    Lacks b'=' param
    ⊎ ((key : Bytes) × (val : Bytes) × (param ≡ key ++ b'=' ∷ val)
        × Lacks b'=' key
        × (key ≢ codes "plmn-id")
        × (key ≢ codes "target-plmn-id"))

pieces-joined :
    (before : List Bytes) (rest : Bytes)
    → All (Lacks b'&') before
    → pieces b'&' (joined before ++ rest) ≡ before ++ pieces b'&' rest
pieces-joined [] rest h = refl
pieces-joined (p ∷ ps) rest (h, hs) =
    rw (append_assoc)
      (pieces_from-append b'&' [] p (joined ps ++ rest) h ∙ ap (◌∷◌ p) (pieces-joined ps rest hs))

-- The end of a query, or the next parameter.
abbrev Follows : Bytes → Type 0
Follows rest = (rest ≡ []) ⊎ ((more : Bytes) × (rest ≡ b'&' ∷ more))

first_piece :
    (p rest : Bytes)
    → Lacks b'&' p
    → is_empty p ≡ false
    → Follows rest
    → (ps : List Bytes) × (pieces b'&' (p ++ rest) ≡ p ∷ ps)
first_piece p rest h full (inl e) =
    ([], rw (e, append-nil) (pieces_from-end b'&' [] p h ∙ (rw full refl)))
first_piece p rest h full (inr (more, e)) =
    (pieces b'&' more, rw e (pieces_from-append b'&' [] p more h))

-- The two keys of a PLMN.
abbrev NamesPlmn : Bytes → Type 0
NamesPlmn key = (key ≡ codes "plmn-id") ⊎ (key ≡ codes "target-plmn-id")

NamesPlmn-Lacks : (key : Bytes) → NamesPlmn key → Lacks b'=' key
NamesPlmn-Lacks key (inl e) = rw e (omega arith)
NamesPlmn-Lacks key (inr e) = rw e (omega arith)

plmn_param-Lacks :
    (key val : Bytes) → NamesPlmn key → Lacks b'&' val → Lacks b'&' (key ++ b'=' ∷ val)
plmn_param-Lacks key val (inl e) h =
    rw e (Lacks-append b'&' (codes "plmn-id") (b'=' ∷ val) (omega arith) (omega arith, h))
plmn_param-Lacks key val (inr e) h =
    rw e (Lacks-append b'&' (codes "target-plmn-id") (b'=' ∷ val) (omega arith) (omega arith, h))

plmn_param-full : (key val : Bytes) → NamesPlmn key → is_empty (key ++ b'=' ∷ val) ≡ false
plmn_param-full key val (inl e) = rw e refl
plmn_param-full key val (inr e) = rw e refl

or_true : (b : Bool) → (b || true) ≡ true
or_true true = refl
or_true false = refl

named_plmn :
    (key : Bytes) → NamesPlmn key → (key == codes "plmn-id" || key == codes "target-plmn-id") ≡ true
named_plmn key (inl e) = rw (==-true e) refl
named_plmn key (inr e) = rw (==-true e) (or_true (key == codes "plmn-id"))

module _ (J : JsonLib) where
  plmn_of_params-Other :
      (param : Bytes) (params : List Bytes) (plmn : Bytes × Bytes)
      → Other param
      → plmn_of_params J (param ∷ params) plmn ≡ plmn_of_params J params plmn
  unfolding plmn_of_params
  plmn_of_params-Other param params plmn (inl h) = rw (plmn_of_params, cut-Lacks b'=' param h) refl
  plmn_of_params-Other param params plmn (inr (key, val, e, h, ne, ne')) =
      rw (e, plmn_of_params, cut-append b'=' key val h, ==-false ne, ==-false ne') refl

  plmn_of_params-All :
      (before params : List Bytes) (plmn : Bytes × Bytes)
      → All Other before
      → plmn_of_params J (before ++ params) plmn ≡ plmn_of_params J params plmn
  plmn_of_params-All [] params plmn h = refl
  plmn_of_params-All (p ∷ ps) params plmn (h, hs) =
      plmn_of_params-Other p (ps ++ params) plmn h ∙ plmn_of_params-All ps params plmn hs

  -- A parameter that carries a JSON object with the two members.
  plmn_of_params-plmn :
      (key val text mcc mnc : Bytes) (params : List Bytes) (plmn : Bytes × Bytes) (j : J.Json)
      → NamesPlmn key
      → Encodes val text
      → J.parse text ≡ some j
      → value J j (codes "mcc") ≡ some mcc
      → value J j (codes "mnc") ≡ some mnc
      → plmn_of_params J ((key ++ b'=' ∷ val) ∷ params) plmn ≡ (mcc, mnc)
  unfolding plmn_of_params
  plmn_of_params-plmn key val text mcc mnc params plmn j is encoded parsed p q =
      rw
        (
          plmn_of_params,
          cut-append b'=' key val (NamesPlmn-Lacks key is),
          (named_plmn key is),
          url_decode-Encodes encoded,
          plmn_of_value,
          parsed,
          p,
          q,
        )
        refl

  -- The PLMN is found in a query as its network function wrote it: behind the first '?' of the path,
  -- in the parameter plmn-id or target-plmn-id, behind any parameters with another key, if its value
  -- encodes the text of a JSON object that holds the MCC and the MNC. How the value is encoded and
  -- what follows it make no difference.
  pub extract_plmn_from_path-Encodes :
      (path : Bytes) (before : List Bytes) (key val rest text mcc mnc : Bytes)
      (plmn : Bytes × Bytes) (j : J.Json)
      → Lacks b'?' path
      → All (Lacks b'&') before
      → All Other before
      → NamesPlmn key
      → Lacks b'&' val
      → Follows rest
      → Encodes val text
      → J.parse text ≡ some j
      → value J j (codes "mcc") ≡ some mcc
      → value J j (codes "mnc") ≡ some mnc
      → extract_plmn_from_path J
          (path ++ b'?' ∷ (joined before ++ ((key ++ b'=' ∷ val) ++ rest)))
          plmn
        ≡ (mcc, mnc)
  unfolding extract_plmn_from_path
  extract_plmn_from_path-Encodes path before key val rest text mcc mnc plmn j no_query apart others
        is single follows encoded parsed p q =
      let (ps, found) =
        first_piece (key ++ b'=' ∷ val) rest (plmn_param-Lacks key val is single)
          (plmn_param-full key val is) follows in
      rw
        (
          extract_plmn_from_path,
          cut-append b'?' path _ no_query,
          pieces-joined before _ apart,
          found,
          plmn_of_params-All before _ plmn others,
        )
        (plmn_of_params-plmn key val text mcc mnc ps plmn j is encoded parsed p q)
