-- ===== src/Forward/Target.antt =====
-- `send_http_request_to_target`: the request to the local network function, and what becomes of
-- its response.
use oai_cn5g_sepp.Base.{
  not, ◌&&◌, ◌||◌, Option, none, some, [], ◌∷◌, ◌++◌, Bytes, codes, ◌==◌, is_empty, ◌=?◌,
  if◌then◌else◌,
}
use oai_cn5g_sepp.Dict.{Headers, insert, lookup}
use oai_cn5g_sepp.Json.{JsonLib}
use oai_cn5g_sepp.Http.{HttpRequest, HttpResponse, Client, method_of, force_http}
use oai_cn5g_sepp.Forward.{NfHttpResponse}

abbrev pub apiroot_header : Bytes
apiroot_header = codes "3gpp-sbi-target-apiroot"

abbrev non_empty_or : Option Bytes → Bytes → Bytes
non_empty_or none default = default
non_empty_or (some s) default = if is_empty s then default else s

-- The target of a request: its API root, else its authority, else the NRF; always plain HTTP.
unfoldable pub target_endpoint : Bytes → Bytes → Headers → Bytes
unfolding lookup force_http
target_endpoint nrf_url authority headers = force_http (
    non_empty_or (lookup apiroot_header headers)
      (if not (is_empty authority) then authority else nrf_url))

-- The loop over the headers of the request.
unfoldable pub copy_headers : Headers → Headers → Headers
unfolding ◌==◌ insert
copy_headers [] out = out
copy_headers ((name, val) ∷ headers) out = copy_headers headers (
    if not (name == codes "authority") && not (name == apiroot_header)
    then insert name val out
    else out)

-- The loop over the headers of the response.
unfoldable pub keep_headers : Headers → Headers → Headers
unfolding ◌==◌ insert
keep_headers [] out = out
keep_headers ((key, val) ∷ headers) out = keep_headers headers (
    if key == codes "location" || key == codes "content-type" || key == codes "retry-after"
    then insert key val out
    else out)

module _ {J : JsonLib} (client : Client J) (nrf_url : Bytes) where
  -- The request before it is sent.
  unfoldable pub target_request : Bytes → Bytes → Bytes → Headers → HttpRequest
  unfolding target_endpoint copy_headers
  target_request authority path payload headers =
      let uri = target_endpoint nrf_url authority headers ++ path in
      let bare : HttpRequest = record { uri = uri; headers = []; body = [] } in
      let req = if is_empty payload then bare else client.prepare_json_request uri payload in
      record req { headers = copy_headers headers req.headers }

  -- `response_json`
  unfoldable pub response_json : HttpResponse → J.Json
  response_json response =
      if is_empty response.body then J.object [] else elim (client.get_json response) [
        | none ↦ J.object ((codes "body", J.string response.body) ∷ [])
        | some j ↦ j
      ]

  -- The JSON of the response and its status, and `raw_response`; `none` is false.
  unfoldable pub target_answer : HttpResponse → Option (J.Json × NfHttpResponse)
  unfolding response_json keep_headers
  target_answer response =
      if response.status_code =? 0
      then none
      else some (
        response_json response,
        record {
          status_code = response.status_code;
          body = response.body;
          headers = keep_headers response.headers [];
        },
      )

  unfoldable pub send_http_request_to_target :
      Bytes → Bytes → Bytes → Bytes → Headers → Option (J.Json × NfHttpResponse)
  unfolding target_request target_answer method_of
  send_http_request_to_target authority path method_str payload headers =
      target_answer
        (client.send (method_of method_str) (target_request authority path payload headers))
