-- ===== src/Examples/Forward.antt =====
-- A service request and its response, encrypted, between two SEPPs with the same key.
use oai_cn5g_sepp.Base.{◌≡◌, refl, ap, some, [], ◌∷◌, Bytes, codes, length, replicate, ◌==◌, arith}
use oai_cn5g_sepp.Dict.{Headers}
use oai_cn5g_sepp.Http.{force_http}
use oai_cn5g_sepp.Result.{Result, ok, fail, thrown}
use oai_cn5g_sepp.Models.{FlatJweJson}
use oai_cn5g_sepp.Jose.{gcm_encrypt, apply_jwe_encryption}
use oai_cn5g_sepp.Forward.{Forward, initial}
use oai_cn5g_sepp.Forward.Url.{extract_plmn_from_path}
use oai_cn5g_sepp.Forward.Aad.{build_aad, parse_aad, no_aad, is_space}
use oai_cn5g_sepp.Forward.Aad.RoundTrip.{received, addressed, parse_aad-build_aad}
use oai_cn5g_sepp.Forward.Reformat.{
  with_body, build_reformatted_data, context_or_dummy, create_n32f_process_request,
}
use oai_cn5g_sepp.Forward.Process.{context_of, unwrap_request}
use oai_cn5g_sepp.Forward.Transparency.{unwrap_request-create}
use oai_cn5g_sepp.Decimal.{to_string}
use oai_cn5g_sepp.App.Service.{unwrap_response}
use oai_cn5g_sepp.App.Responses.{unwrap_response-build}
use oai_cn5g_sepp.Examples.Json.{Json, null, json}
use oai_cn5g_sepp.Examples.Models.{models, flat_jwe-IsCodec, context_info-IsCodec}
use oai_cn5g_sepp.Examples.Crypto.{bio, bio-IsBase64, evp, evp-IsGcm}

abbrev pub key : Bytes
key = replicate 16 b'k'

abbrev pub iv : Bytes
iv = replicate 12 7

abbrev pub with_key : Forward
with_key = record initial { enc_key = key; n32f_context_id = codes "1f" }

abbrev pub path : Bytes
path = codes "/nudm-sdm/v2"

abbrev pub authority : Bytes
authority = codes "udm:8080"

abbrev headers : Headers
headers = (codes "server", codes "udm") ∷ []

abbrev result_or {ℓ} : {A : Type ℓ} → A → Result A → A
result_or a (ok b) = b
result_or a fail = a
result_or a thrown = a

parse_aad-build_aad_example :
    parse_aad (build_aad (codes "GET") path authority headers) no_aad
    ≡ some (
        received headers
          (addressed authority (record no_aad { method = codes "GET"; path = path })))
unfolding is_space
parse_aad-build_aad_example =
    parse_aad-build_aad (codes "GET") path authority headers (refl, (refl, (refl, tt)))
      (
        refl,
        (refl, (refl, (refl, (refl, (refl, (refl, (refl, (refl, (refl, (refl, (refl, tt))))))))))),
      )
      (λ e. cc) (λ e. cc) (omega arith) (omega arith)

abbrev pub created : Json
created = result_or null (
    create_n32f_process_request models evp bio with_key (some iv) authority path (codes "POST")
      (codes "{}"))

created_ok :
    create_n32f_process_request models evp bio with_key
      (some iv)
      authority
      path
      (codes "POST")
      (codes "{}")
    ≡ ok created
unfolding create_n32f_process_request build_reformatted_data with_body apply_jwe_encryption
    gcm_encrypt ◌==◌
created_ok = refl

unwrap_request-create_example :
    (message : FlatJweJson Json) × (models.reformatted_req.from_json created ≡ some message)
    × (context_of models created message ≡ ok (context_or_dummy (codes "1f")))
    × (unwrap_request models evp bio (record initial { enc_key = key }) message
        ≡ ok (record {
          method = codes "POST";
          path = path;
          authority = authority;
          headers =
              (codes "authority", authority)
              ∷ (codes "3gpp-sbi-target-apiroot", force_http authority)
              ∷ [];
          body = codes "{}";
          mcc = (extract_plmn_from_path json path ([], [])).0;
          mnc = (extract_plmn_from_path json path ([], [])).1;
        }))
unfolding is_space
unwrap_request-create_example =
    unwrap_request-create models evp-IsGcm bio-IsBase64 flat_jwe-IsCodec context_info-IsCodec
      with_key (record initial { enc_key = key }) iv (codes "POST") path authority (codes "{}")
      (λ e. omega (arith, ap length e)) refl refl (refl, (refl, (refl, (refl, tt))))
      (
        refl,
        (refl, (refl, (refl, (refl, (refl, (refl, (refl, (refl, (refl, (refl, (refl, tt))))))))))),
      )
      (λ e. cc) (λ e. cc) (λ e. cc) (omega arith) created_ok

abbrev no_message : FlatJweJson Json
no_message = record {
  r_protected = [];
  aad = [];
  unprotected = null;
  ciphertext = [];
  iv = [];
  tag = [];
}

abbrev response : FlatJweJson Json
response = result_or no_message (
    build_reformatted_data models evp bio with_key (some iv) (to_string 201) path authority
      (codes "{}") (codes "1f") headers)

response_ok :
    build_reformatted_data models evp bio with_key
      (some iv)
      (to_string 201)
      path
      authority
      (codes "{}")
      (codes "1f")
      headers
    ≡ ok response
unfolding build_reformatted_data with_body apply_jwe_encryption gcm_encrypt
response_ok = refl

unwrap_response-build_example :
    unwrap_response models evp bio key response
    ≡ ok (record {
      status_code = 201;
      body = codes "{}";
      headers = (received headers (addressed authority no_aad)).headers;
    })
unfolding is_space
unwrap_response-build_example =
    unwrap_response-build models evp-IsGcm bio-IsBase64 with_key iv path authority (codes "{}")
      (codes "1f") 201 headers refl (omega arith) (omega arith)
      (
        refl,
        (refl, (refl, (refl, (refl, (refl, (refl, (refl, (refl, (refl, (refl, (refl, tt))))))))))),
      )
      (λ e. cc) (omega arith) (omega arith) response_ok
