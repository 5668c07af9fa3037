-- ===== src/Examples/Forwarding.antt =====
-- The two forwarding endpoints of a SEPP, and a local network that answers every request.
use oai_cn5g_sepp.Base.{◌≡◌, refl, true, none, some, [], ◌∷◌, Bytes, codes, replicate, ◌==◌}
use oai_cn5g_sepp.Handler.{returned}
use oai_cn5g_sepp.Http.{Method, get, HttpRequest, HttpResponse, Client}
use oai_cn5g_sepp.Forward.{Forward, initial}
use oai_cn5g_sepp.Forward.Process.{handle_n32f_process_post}
use oai_cn5g_sepp.Forward.Direct.{handle_n32f_forward}
use oai_cn5g_sepp.Forward.Gates.{Processed, handle_n32f_process_post-Processed}
use oai_cn5g_sepp.Forward.GetOnly.{elsewhere, handle_n32f_forward-elsewhere}
use oai_cn5g_sepp.Examples.Json.{Json, null, json, object, string}
use oai_cn5g_sepp.Examples.Models.{models}
use oai_cn5g_sepp.Examples.Crypto.{bio, evp}
use oai_cn5g_sepp.Examples.Forward.{with_key, iv, created}
use oai_cn5g_sepp.Forward.Reformat.{
  create_n32f_process_request, build_reformatted_data, with_body, read_body,
}
use oai_cn5g_sepp.Jose.{
  apply_jwe_encryption, gcm_encrypt, base64url_decode, base64url_encode, decrypt_jwe_payload,
  from_url, gcm_decrypt, pad, to_url,
}
use oai_cn5g_sepp.Examples.Models.{flat_jwe, context_info}
use oai_cn5g_sepp.Forward.Process.{process_message, context_of, named_context, unwrap_request}
use oai_cn5g_sepp.Forward.Aad.{
  parse_aad, build_aad, header_lines, is_space, parse_aad_lines, parse_header_line,
  parse_header_lines, parse_request_line, read_word, skip_space, span_word, strip_cr,
}
use oai_cn5g_sepp.Examples.Crypto.{ungroup, groups}
use oai_cn5g_sepp.Base.{starts_with}
use oai_cn5g_sepp.Decimal.{to_string, to_string_from}
use oai_cn5g_sepp.Dict.{lookup}
use oai_cn5g_sepp.Forward.Target.{
  copy_headers, keep_headers, response_json, send_http_request_to_target, target_answer,
  target_endpoint, target_request,
}
use oai_cn5g_sepp.Forward.Url.{
  cut, extract_plmn_from_path, hex_byte, hex_to_int, pieces_from, plmn_by_text, plmn_of_params,
  plmn_of_value, url_decode,
}
use oai_cn5g_sepp.Http.{force_http, method_of}
use oai_cn5g_sepp.Json.{value}
use oai_cn5g_sepp.Base
use oai_cn5g_sepp.Dict
use oai_cn5g_sepp.Examples.Json as ExampleJson
use oai_cn5g_sepp.Forward.Requests.{IsHttp, target_request-IsHttp}
use oai_cn5g_sepp.Forward.Target.{apiroot_header}
use oai_cn5g_sepp.Dict.{Headers}

abbrev answer_ok : Method → HttpRequest → HttpResponse
answer_ok m r = record { status_code = 200; body = r.uri; headers = [] }

abbrev client : Client json
client = record {
  prepare_json_request = λ uri body. record { uri = uri; headers = []; body = body };
  send = answer_ok;
  get_json = λ r. none;
}

abbrev nrf : Bytes
nrf = codes "nrf"

created_is_processed :
    (handle_n32f_process_post models evp bio client nrf with_key (some iv) created null []).outcome
    ≡ returned true
unfolding handle_n32f_process_post ExampleJson.is_null create_n32f_process_request ◌==◌
    build_reformatted_data with_body apply_jwe_encryption gcm_encrypt flat_jwe ExampleJson.is_object
    process_message context_of named_context context_info unwrap_request parse_aad base64url_decode
    ungroup Base.find starts_with to_string to_string_from Dict.insert lookup ExampleJson.find
    object build_aad header_lines is_space parse_aad_lines parse_header_line parse_header_lines
    parse_request_line read_word skip_space span_word strip_cr read_body copy_headers keep_headers
    response_json send_http_request_to_target target_answer target_endpoint target_request cut
    extract_plmn_from_path hex_byte hex_to_int pieces_from plmn_by_text plmn_of_params plmn_of_value
    url_decode force_http method_of base64url_encode decrypt_jwe_payload from_url gcm_decrypt pad
    to_url value groups
created_is_processed = refl

handle_n32f_process_post-Processed_example : Processed models evp bio client nrf with_key created
handle_n32f_process_post-Processed_example =
    handle_n32f_process_post-Processed models evp bio client nrf with_key (some iv) created null []
      created_is_processed

-- Only GET reaches this network.
abbrev answer_get : Method → HttpRequest → HttpResponse
answer_get get r = answer_ok get r
answer_get _ r = record { status_code = 0; body = []; headers = [] }

abbrev with_tls : Forward
with_tls = record initial { security_capability = codes "TLS" }

abbrev service_request : Json
service_request = object (
    (codes "authority", string (codes "udm:8080"))
    ∷ (codes "path", string (codes "/nudm-sdm/v2"))
    ∷ (codes "query", string [])
    ∷ [])

handle_n32f_forward-elsewhere_example :
    handle_n32f_forward (elsewhere client answer_get nrf) nrf with_tls service_request null []
    ≡ handle_n32f_forward client nrf with_tls service_request null []
handle_n32f_forward-elsewhere_example =
    handle_n32f_forward-elsewhere client answer_get nrf (λ r. refl) with_tls service_request null []

abbrev request_headers : Headers
request_headers =
    (codes "authority", codes "udm:8080")
    ∷ (apiroot_header, codes "https://udm:8080")
    ∷ (codes "accept", codes "application/json")
    ∷ []

target_request-IsHttp_example :
    let req =
      target_request client nrf (codes "udm:8080") (codes "/nudm-sdm/v2") [] request_headers in
    IsHttp req.uri
    × (lookup (codes "authority") req.headers ≡ none)
    × (lookup apiroot_header req.headers ≡ none)
target_request-IsHttp_example =
    target_request-IsHttp client nrf (codes "udm:8080") (codes "/nudm-sdm/v2") request_headers
