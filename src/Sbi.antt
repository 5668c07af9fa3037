-- ===== src/Sbi.antt =====
-- `sepp_http2_sbi_server`, the server for the local network functions (src/api-server/
-- sepp-http2-sbi-server.cpp): the telescopic mapping and the generic service handler.
pub mod Mapping
pub mod EndToEnd
pub mod Routes
pub mod Request
pub mod FirstRequest
pub mod Direct
use oai_cn5g_sepp.Base.{
  ℕ, Bool, true, false, not, ◌&&◌, ◌||◌, Option, none, some, List, [], ◌∷◌, ◌++◌, Bytes, codes,
  ◌==◌, is_empty, drop, starts_with, ◌=?◌, if◌then◌else◌,
}
use oai_cn5g_sepp.Dict.{Headers, lookup}
use oai_cn5g_sepp.Json.{JsonLib}
use oai_cn5g_sepp.Models.{Models}
use oai_cn5g_sepp.Http.{Client}
use oai_cn5g_sepp.Jose.{Bio, Evp}
use oai_cn5g_sepp.Result.{Result, ok, fail, thrown, ◌>>=◌}
use oai_cn5g_sepp.Telescopic.{TelescopicMapping, no_mapping}
use oai_cn5g_sepp.Server.{
  ServerRequest, ServerResponse, json_headers, receive, send_problem_details,
}
use oai_cn5g_sepp.App.{Config, App}
use oai_cn5g_sepp.App.Handlers.{get_telescopic_mapping_text}
use oai_cn5g_sepp.App.Service.{handle_nf_service_request}

-- The member of that name: the mapping that the application finds, a text, only decides whether
-- there is one; the model that is returned holds the two values of the query.
module _ (J : JsonLib) (mapping_to_json : TelescopicMapping → J.Json) where
  abbrev pub mapping_text : TelescopicMapping → Bytes
  mapping_text m = J.dump (mapping_to_json m)

  unfoldable pub handle_telescopic_mapping :
      Option App → Bytes → Bytes → TelescopicMapping → Result TelescopicMapping
  handle_telescopic_mapping none foreign_fqdn telescopic_label mapping = fail
  handle_telescopic_mapping (some a) foreign_fqdn telescopic_label mapping = do
    text ← get_telescopic_mapping_text mapping_text a foreign_fqdn telescopic_label
    ok (record mapping {
      telescopic_label = some telescopic_label;
      foreign_fqdn = some foreign_fqdn;
    })

module _ (J : JsonLib) (mapping_to_json : TelescopicMapping → J.Json)
    (get_query_param : Bytes → Bytes → Bytes) (what : Bytes) where
  -- The response to what the member of that name yields.
  unfoldable pub mapping_response : Result TelescopicMapping → ServerResponse
  unfolding send_problem_details
  mapping_response (ok mapping) = record {
    status = 200;
    headers = json_headers;
    body = J.dump (mapping_to_json mapping);
  }
  mapping_response fail =
      send_problem_details J 404 (codes "404: Not Found") (codes "MAPPING_NOT_FOUND")
        (codes "Telescopic Mapping NOT found")
  mapping_response thrown =
      send_problem_details J 500 (codes "500: Internal Server Error")
        (codes "UNEXPECTED_SYSTEM_ERROR") what

  -- GET /nsepp-telescopic/v1/mapping, from the two values of the query on.
  unfoldable pub answer_mapping : Option App → Bytes → Bytes → ServerResponse
  unfolding handle_telescopic_mapping mapping_response send_problem_details
  answer_mapping inst foreign_fqdn telescopic_label =
      if not (is_empty foreign_fqdn) && not (is_empty telescopic_label)
      then send_problem_details J 400 (codes "400: Bad Request") (codes "INVALID_QUERY_PARAM")
          (codes "foreign-fqdn and telescopic-label shall not be supplied together")
      else if is_empty foreign_fqdn && is_empty telescopic_label
      then send_problem_details J 400 (codes "400: Bad Request") (codes "MISSING_QUERY_PARAM")
          (codes "Either foreign-fqdn or telescopic-label shall be supplied")
      else elim inst [
        | none ↦
            send_problem_details J 503 (codes "503: Service Unavailable")
              (codes "SYSTEM_UNAVAILABLE") (codes "SEPP Application instance is not available")
        | some a ↦ mapping_response (
            handle_telescopic_mapping J mapping_to_json (some a) foreign_fqdn telescopic_label
              no_mapping)
      ]

  unfoldable pub handle_mapping : ServerRequest → Option App → ServerResponse
  unfolding answer_mapping
  handle_mapping request inst =
      if not (request.method == codes "GET")
      then send_problem_details J 405 (codes "Method Not Allowed") (codes "ONLY_GET_SUPPORTED")
          (codes "Only HTTP GET method is supported for this endpoint")
      else answer_mapping inst (get_query_param request.raw_query (codes "foreign-fqdn"))
          (get_query_param request.raw_query (codes "telescopic-label"))

-- The authority that the target API root names, without its scheme.
abbrev root_authority : Option Bytes → Bytes
root_authority none = []
root_authority (some api_root) =
    if starts_with api_root (codes "http://")
    then drop 7 api_root
    else if starts_with api_root (codes "https://")
    then drop 8 api_root
    else api_root

-- The authority of a service request: the target API root, else the authority, else the host.
unfoldable pub service_authority : Headers → Bytes
unfolding lookup starts_with
service_authority headers =
    let authority = root_authority (lookup (codes "3gpp-sbi-target-apiroot") headers) in
    if is_empty authority
    then elim (lookup (codes "authority") headers) [
      | some a ↦ a
      | none ↦ elim (lookup (codes "host") headers) [ none ↦ [] | some host ↦ host ]
    ]
    else authority

-- The path, and the query if there is one.
abbrev full_path : ServerRequest → Bytes
full_path req =
    if is_empty req.raw_query then req.path else req.path ++ (codes "?" ++ req.raw_query)

-- The loop over the headers of the response.
unfoldable pub response_headers : Headers → Headers
unfolding ◌==◌
response_headers [] = []
response_headers ((key, value) ∷ headers) =
    let rest = response_headers headers in
    if key == codes "content-type" || key == codes "location" || key == codes "retry-after"
    then (key, value) ∷ rest
    else rest

module _ {J : JsonLib} (M : Models J) (evp : Evp) (bio : Bio) (client : Client J)
    (cfg : Config) where
  -- The generic handler. It does not test whether there is an application, so it takes one. What it
  -- calls lets no exception through, so the last case is there for the type only.
  unfoldable pub handle_service : Option Bytes → ServerRequest → App → ServerResponse
  unfolding service_authority response_headers receive
  handle_service random req a =
      if is_empty (service_authority req.headers)
      then record { status = 400; headers = []; body = codes "Missing authority header" }
      else elim (handle_nf_service_request M evp bio client cfg a random
          (service_authority req.headers) (full_path req) req.method (receive req.chunks [])) [
            | ok resp_data ↦ record {
              status = resp_data.status_code;
              headers = response_headers resp_data.headers;
              body = if resp_data.status_code =? 204 then [] else resp_data.body;
            }
            | fail ↦ record {
              status = 502;
              headers = [];
              body = codes "NF service forwarding failed";
            }
            | thrown ↦ record {
              status = 502;
              headers = [];
              body = codes "NF service forwarding failed";
            }
          ]
