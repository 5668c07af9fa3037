-- ===== src/Examples/Query.antt =====
-- A discovery request whose query names the PLMN behind another parameter, its value partly escaped.
use oai_cn5g_sepp.Base.{
  ◌≡◌, ◌≢◌, refl, sym, ap, ◌∙◌, some, [], ◌∷◌, ◌++◌, Bytes, codes, ◌==◌, ==-true, clash, All, arith,
  inr,
}
use oai_cn5g_sepp.Json.{value}
use oai_cn5g_sepp.Forward.Url.{extract_plmn_from_path}
use oai_cn5g_sepp.Forward.Url.Decode.{HexDigit, Encodes}
use oai_cn5g_sepp.Forward.Url.Query.{joined, extract_plmn_from_path-Encodes}
use oai_cn5g_sepp.Examples.Json as ExampleJson
use oai_cn5g_sepp.Examples.Json.{Json, string, end_object, member, json, parse-dump}

abbrev plmn : Json
plmn =
    member (codes "mcc") (string (codes "208"))
      (member (codes "mnc") (string (codes "95")) end_object)

-- Its text behind the first byte.
abbrev rest_text : Bytes
rest_text =
    3
    ∷ (codes "mcc"
        ++ (1 ∷ 3 ∷ (codes "208" ++ (7 ∷ 3 ∷ (codes "mnc" ++ (1 ∷ 2 ∷ (codes "95" ++ (6 ∷ []))))))))

dump-plmn : ExampleJson.dump plmn ≡ 7 ∷ rest_text
unfolding ExampleJson.dump
dump-plmn = refl

abbrev path : Bytes
path = codes "/nnrf-disc/v1/nf-instances"

as_is : (s : Bytes) → All (λ c. (c ≢ b'%') × (c ≢ b'+')) s → Encodes s s
as_is [] h = Encodes.ended
as_is (c ∷ s) ((p, q), h) = Encodes.kept c p q (as_is s h)

-- `%07` for the first byte, the others as they are.
encoded : Encodes (b'%' ∷ b'0' ∷ b'7' ∷ rest_text) (7 ∷ rest_text)
encoded =
    Encodes.escaped b'%' b'0' b'7' 0 7 7 refl (HexDigit.decimal (omega arith) refl)
      (HexDigit.decimal (omega arith) refl) refl (as_is rest_text (omega arith))

member_is :
    (value json plmn (codes "mcc") ≡ some (codes "208"))
    × (value json plmn (codes "mnc") ≡ some (codes "95"))
unfolding value ExampleJson.is_object ExampleJson.find ExampleJson.get_string ◌==◌
member_is = (refl, refl)

no_plmn : codes "target-nf-type" ≢ codes "plmn-id"
no_plmn e = cc

no_target : codes "target-nf-type" ≢ codes "target-plmn-id"
unfolding ◌==◌
no_target e = clash (==-true e) refl

extract_plmn_from_path-Encodes_example :
    extract_plmn_from_path json
      (path
        ++ b'?'
          ∷ (joined (codes "target-nf-type=UDM" ∷ [])
              ++ ((codes "target-plmn-id" ++ b'=' ∷ b'%' ∷ b'0' ∷ b'7' ∷ rest_text)
                  ++ codes "&limit=1")))
      ([], [])
    ≡ (codes "208", codes "95")
extract_plmn_from_path-Encodes_example =
    extract_plmn_from_path-Encodes json path (codes "target-nf-type=UDM" ∷ [])
      (codes "target-plmn-id") (b'%' ∷ b'0' ∷ b'7' ∷ rest_text) (codes "&limit=1") (7 ∷ rest_text)
      (codes "208") (codes "95") ([], []) plmn (omega arith) (omega arith)
      (inr (codes "target-nf-type", codes "UDM", refl, omega arith, no_plmn, no_target), tt)
      (inr refl) (omega arith) (inr (codes "limit=1", refl)) encoded
      (ap json.parse (sym dump-plmn) ∙ parse-dump plmn) member_is.0 member_is.1
