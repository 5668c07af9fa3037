-- ===== src/Forward/Direct.antt =====
-- `handle_n32f_forward`, the forwarding with TLS: the request arrives as a JSON object with the
-- members that the NBI server puts there or, for POST, that the body itself holds.
use oai_cn5g_sepp.Base.{
  Bool, true, false, not, ◌&&◌, none, some, List, [], ◌∷◌, ◌++◌, Bytes, codes, ◌==◌, ◌=?◌,
  if◌then◌else◌,
}
use oai_cn5g_sepp.Dict.{Headers, insert}
use oai_cn5g_sepp.Json.{JsonLib, value}
use oai_cn5g_sepp.Handler.{returned, thrown, Handled}
use oai_cn5g_sepp.Http.{Client}
use oai_cn5g_sepp.Result.{Result, ok, fail, thrown as thrown_result, ◌>>=◌, or_fail, or_throw}
use oai_cn5g_sepp.Forward.{Forward, validate_n32f_message}
use oai_cn5g_sepp.Forward.Target.{send_http_request_to_target}
use oai_cn5g_sepp.Forward.Process.{invalid_endpoint}

module _ (J : JsonLib) where
  -- The members that are strings.
  unfoldable pub string_items : List (Bytes × J.Json) → Headers → Headers
  string_items [] out = out
  string_items ((k, v) ∷ items) out = string_items items (
      if J.is_string v then elim (J.get_string v) [ none ↦ out | some s ↦ insert k s out ] else out)

  unfoldable pub forward_headers : J.Json → Headers
  unfolding string_items
  forward_headers req_data = elim (J.find req_data (codes "headers")) [
    | none ↦ []
    | some h ↦ if J.is_object h then string_items (J.items h) [] else []
  ]

  -- `if (resp_data.empty() && status_code == 200) resp_data = {{"status", "OK"}};`
  abbrev pub ok_if_empty : J.Json → Bool → J.Json
  ok_if_empty resp_data is_200 =
      if J.empty resp_data && is_200
      then J.object ((codes "status", J.string (codes "OK")) ∷ [])
      else resp_data

module _ {J : JsonLib} (client : Client J) (nrf_url : Bytes) where
  -- The reading of the request and the call of the local network function, always a GET.
  unfoldable pub forward_get : J.Json → Result J.Json
  forward_get req_data = do
    authority ← or_throw (value J req_data (codes "authority"))
    path ← or_throw (value J req_data (codes "path"))
    query ← or_throw (value J req_data (codes "query"))
    (json, response) ← or_fail (
        send_http_request_to_target client nrf_url authority (path ++ (codes "?" ++ query))
          (codes "GET") [] (forward_headers J req_data))
    ok (ok_if_empty J json (response.status_code =? 200))

  abbrev forward_reply : Forward → J.Json → Headers → Result J.Json → Handled J Forward
  forward_reply s resp_data resp_headers (ok json) = record {
    state = s;
    resp_data = json;
    resp_headers = insert (codes "content-type") (codes "application/json") resp_headers;
    outcome = returned true;
  }
  forward_reply s resp_data resp_headers fail = record {
    state = s;
    resp_data = resp_data;
    resp_headers = resp_headers;
    outcome = returned false;
  }
  forward_reply s resp_data resp_headers thrown_result = record {
    state = s;
    resp_data = resp_data;
    resp_headers = resp_headers;
    outcome = thrown;
  }

  unfoldable pub handle_n32f_forward : Forward → J.Json → J.Json → Headers → Handled J Forward
  handle_n32f_forward s req_data resp_data resp_headers =
      if not (validate_n32f_message J req_data)
      then forward_reply s resp_data resp_headers fail
      else if not (s.security_capability == codes "TLS")
      then forward_reply s (invalid_endpoint J (codes "Endpoint requires TLS capability"))
          (insert (codes "content-type") (codes "application/problem+json") resp_headers) fail
      else forward_reply s resp_data resp_headers (forward_get req_data)
