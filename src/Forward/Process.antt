-- ===== src/Forward/Process.antt =====
-- POST and OPTIONS /n32f-forward/v1/n32f-process: `handle_n32f_process_post` unwraps a message,
-- sends the request to the local network function and wraps its response.
use oai_cn5g_sepp.Base.{
  true, false, not, Option, none, some, [], ◌∷◌, Bytes, codes, ◌==◌, is_empty, if◌then◌else◌,
}
use oai_cn5g_sepp.Decimal.{to_string}
use oai_cn5g_sepp.Dict.{Headers, insert}
use oai_cn5g_sepp.Json.{JsonLib, value}
use oai_cn5g_sepp.Models.{Models, FlatJweJson}
use oai_cn5g_sepp.Handler.{returned, thrown, Handled}
use oai_cn5g_sepp.Http.{Client}
use oai_cn5g_sepp.Result.{
  Result, ok, fail, thrown as thrown_result, ◌>>=◌, ◌>>◌, require, or_fail, or_throw,
}
use oai_cn5g_sepp.Jose.{Bio, Evp, base64url_decode}
use oai_cn5g_sepp.Forward.{Forward, NfHttpRequest, validate_n32f_message}
use oai_cn5g_sepp.Forward.Url.{extract_plmn_from_path}
use oai_cn5g_sepp.Forward.Aad.{no_aad, parse_aad}
use oai_cn5g_sepp.Forward.Target.{send_http_request_to_target}
use oai_cn5g_sepp.Forward.Reformat.{build_reformatted_data, read_body}

-- The problem details of an endpoint that the configured capability does not serve.
abbrev pub invalid_endpoint : (J : JsonLib) → Bytes → J.Json
invalid_endpoint J detail = J.object (
    (codes "status", J.number 400)
    ∷ (codes "title", J.string (codes "Bad Request"))
    ∷ (codes "cause", J.string (codes "INVALID_CAPABILITY_ENDPOINT"))
    ∷ (codes "detail", J.string detail)
    ∷ [])

module _ {J : JsonLib} (M : Models J) where
  -- The context that a message names, from its unprotected part and then from the request itself,
  -- empty where there is none; `value` may throw.
  unfoldable pub named_context : J.Json → FlatJweJson J.Json → Result Bytes
  unfolding value
  named_context req_data message = do
    unprotected ←
        (if J.is_object message.unprotected
          then elim (M.context_info.from_json message.unprotected) [
            | none ↦ or_throw (value J message.unprotected (codes "n32fContextId"))
            | some ctx_info ↦ ok ctx_info.n32f_context_id
          ]
          else ok [])
    (if is_empty unprotected
        then elim (J.find req_data (codes "n32fContextId")) [
          | none ↦ ok []
          | some v ↦ or_throw (value J req_data (codes "n32fContextId"))
        ]
        else ok unprotected)

  -- An empty one is refused.
  unfoldable pub context_of : J.Json → FlatJweJson J.Json → Result Bytes
  context_of req_data message = do
    context_id ← named_context req_data message
    require (not (is_empty context_id))
    ok context_id

  abbrev pub process_reply :
      Forward → J.Json → Headers → Result (FlatJweJson J.Json) → Handled J Forward
  process_reply s resp_data resp_headers (ok resp_reformatted) = record {
    state = s;
    resp_data = M.reformatted_rsp.to_json resp_reformatted;
    resp_headers = insert (codes "content-type") (codes "application/json") resp_headers;
    outcome = returned true;
  }
  process_reply s resp_data resp_headers fail = record {
    state = s;
    resp_data = resp_data;
    resp_headers = resp_headers;
    outcome = returned false;
  }
  process_reply s resp_data resp_headers thrown_result = record {
    state = s;
    resp_data = resp_data;
    resp_headers = resp_headers;
    outcome = thrown;
  }

  module _ (evp : Evp) (bio : Bio) where
    -- The request to the local network function that a message holds.
    unfoldable pub unwrap_request : Forward → FlatJweJson J.Json → Result NfHttpRequest
    unwrap_request s message = do
      parsed ← or_fail (parse_aad (base64url_decode bio message.aad) no_aad)
      let plmn = extract_plmn_from_path J parsed.path ([], [])
      body ← read_body M evp bio s.enc_key message
      ok (record {
        method = parsed.method;
        path = parsed.path;
        authority = parsed.authority;
        headers = parsed.headers;
        body = body;
        mcc = plmn.0;
        mnc = plmn.1;
      })

  module _ (evp : Evp) (bio : Bio) (client : Client J) (nrf_url : Bytes) where
    -- The message that answers a message, `random` being the IV of the answer.
    unfoldable pub process_message :
        Forward → Option Bytes → J.Json → FlatJweJson J.Json → Result (FlatJweJson J.Json)
    process_message s random req_data message = do
      context_id ← context_of req_data message
      target_req ← unwrap_request evp bio s message
      (nf_resp_json, producer_response) ← or_fail (
          send_http_request_to_target client nrf_url target_req.authority target_req.path
            target_req.method target_req.body target_req.headers)
      build_reformatted_data M evp bio s random (to_string producer_response.status_code)
          target_req.path target_req.authority producer_response.body context_id
          producer_response.headers

    unfoldable pub handle_n32f_process_post :
        Forward → Option Bytes → J.Json → J.Json → Headers → Handled J Forward
    handle_n32f_process_post s random req_data resp_data resp_headers =
        if not (validate_n32f_message J req_data)
        then process_reply s resp_data resp_headers fail
        else if not (s.security_capability == codes "PRINS")
        then process_reply s
            (invalid_endpoint J (codes "Endpoint /n32f-process requires PRINS capability"))
            (insert (codes "content-type") (codes "application/problem+json") resp_headers) fail
        else elim (M.reformatted_req.from_json req_data) [
          | none ↦ process_reply s resp_data resp_headers fail
          | some message ↦
              process_reply s resp_data resp_headers (process_message s random req_data message)
        ]

module _ (J : JsonLib) where
  unfoldable pub handle_n32f_process_options : J.Json → J.Json
  handle_n32f_process_options resp_data =
      let features = J.insert resp_data (codes "supportedFeatures") (J.string (codes "1")) in
      let algorithms =
        J.insert features (codes "supportedEncAlgs")
          (J.array (J.string (codes "A128GCM") ∷ J.string (codes "A256GCM") ∷ [])) in
      J.insert algorithms (codes "supportedIpxs") (J.array [])
