-- ===== src/Examples/Servers.antt =====
-- The two servers of an application that knows one partner.
use oai_cn5g_sepp.Base.{
  ◌≡◌, ◌≢◌, ◌<◌, refl, Option, true, false, not, none, some, [], ◌∷◌, Bytes, codes, ◌==◌, find,
  starts_with, is_empty, arith, if◌then◌else◌,
}
use oai_cn5g_sepp.Result.{ok}
use oai_cn5g_sepp.Telescopic
use oai_cn5g_sepp.Telescopic.{
  no_mapping, Plmn, TelescopicMapping, is_allowed, is_roaming_partner, parse_plmn, parse_fqdn,
  fqdn_to_mapping,
}
use oai_cn5g_sepp.Handshake as H
use oai_cn5g_sepp.Handshake.Messages.{n32f_error, handle_request}
use oai_cn5g_sepp.Handshake.Termination.{handle_n32f_error}
use oai_cn5g_sepp.App.{Config, App}
use oai_cn5g_sepp.App.Handlers.{handle_n32c, get_telescopic_mapping, get_telescopic_mapping_text}
use oai_cn5g_sepp.Server.{ServerRequest, ServerResponse, receive, send_problem_details}
use oai_cn5g_sepp.Nbi.{AppHandler, answer_post, process_post_request}
use oai_cn5g_sepp.Nbi.Statuses.{
  Accepted, process_post_request-Accepted, process_post_request-unchanged,
}
use oai_cn5g_sepp.Sbi.{handle_telescopic_mapping, mapping_response, answer_mapping, handle_mapping}
use oai_cn5g_sepp.Sbi.Mapping.{handle_mapping-ok}
use oai_cn5g_sepp.Examples.Json as ExampleJson
use oai_cn5g_sepp.Examples.Json.{Json, null, string, object, json}
use oai_cn5g_sepp.Examples.Models.{models}

abbrev app : App
app = record {
  handshake = some H.initial;
  forward = none;
  remote_sepp_url = none;
  telescopic_mapping = some (record { mcc = codes "208"; mnc = codes "95" } ∷ []);
}

abbrev pub cfg : Config
cfg = record {
  register_nrf = true;
  roaming_partners = [];
  security = codes "PRINS";
  is_c_sepp = false;
  tls_enabled = false;
  nbi_port = 8080;
  nbi_url = codes "http://10.0.0.1:8080";
  nrf_url = codes "http://10.0.0.2:80";
}

abbrev fqdn : Bytes
fqdn = codes "amf.5gc.mnc95.mcc208.3gppnetwork.org"

abbrev text_of : Option Bytes → Json
text_of none = null
text_of (some s) = string s

abbrev mapping_to_json : TelescopicMapping → Json
mapping_to_json m = object (
    (codes "telescopicLabel", text_of m.telescopic_label)
    ∷ (codes "foreignFqdn", text_of m.foreign_fqdn)
    ∷ [])

-- A query that is nothing but the FQDN.
abbrev query_param : Bytes → Bytes → Bytes
query_param query key = if key == codes "foreign-fqdn" then query else []

abbrev query : ServerRequest
query = record {
  method = codes "GET";
  path = codes "/nsepp-telescopic/v1/mapping";
  raw_query = fqdn;
  headers = [];
  chunks = [];
}

query_is_answered :
    (handle_mapping json mapping_to_json query_param (codes "error") query (some app)).status ≡ 200
unfolding handle_mapping answer_mapping mapping_response handle_telescopic_mapping
    get_telescopic_mapping get_telescopic_mapping_text Telescopic.get_telescopic_mapping
    Telescopic.get_telescopic_mapping_text fqdn_to_mapping parse_fqdn parse_plmn is_allowed
    is_roaming_partner ◌==◌ find starts_with
query_is_answered = refl

handle_mapping-ok_example :
    (codes "GET" ≡ codes "GET")
    × (is_empty (query_param fqdn (codes "foreign-fqdn"))
        ≡ not (is_empty (query_param fqdn (codes "telescopic-label"))))
    × (a : App) × (some app ≡ some a)
    × (found : TelescopicMapping) × (get_telescopic_mapping a fqdn [] no_mapping ≡ ok found)
    × (label : Bytes) × (found.telescopic_label ≡ some label)
    × (label ≢ [])
    × ((handle_mapping json mapping_to_json query_param (codes "error") query (some app)).body
        ≡ json.dump (
            object
              ((codes "telescopicLabel", string []) ∷ (codes "foreignFqdn", string fqdn) ∷ [])))
unfolding ◌==◌
handle_mapping-ok_example =
    handle_mapping-ok json mapping_to_json query_param (codes "error") query (some app)
      query_is_answered

abbrev error_report : ServerRequest
error_report = record {
  method = codes "POST";
  path = codes "/n32c-handshake/v1/n32f-error";
  raw_query = [];
  headers = [];
  chunks = codes "{" ∷ codes "}" ∷ [];
}

abbrev handler : AppHandler json
handler = handle_n32c models cfg n32f_error (codes "1f")

abbrev post : ServerRequest → Option App → ServerResponse × Option App
post =
    process_post_request json (codes "error") handler (codes "ERROR_PROCESSING_FAILED")
      (codes "N32-F error processing failed") true

error_report_is_accepted : (post error_report (some app)).0.status < 400
unfolding process_post_request answer_post receive handle_n32c handle_request handle_n32f_error
    ExampleJson.parse ExampleJson.decode ExampleJson.is_null ExampleJson.is_object
    ExampleJson.insert ◌==◌
error_report_is_accepted = omega arith

process_post_request-Accepted_example :
    Accepted json
      (codes "error")
      (codes "ERROR_PROCESSING_FAILED")
      (codes "N32-F error processing failed")
      true
      handler
      error_report
      (some app)
      (post error_report (some app)).1
process_post_request-Accepted_example =
    process_post_request-Accepted json (codes "error") (codes "ERROR_PROCESSING_FAILED")
      (codes "N32-F error processing failed") true handler error_report (some app)
      error_report_is_accepted

query_is_refused : 400 < (post query (some app)).0.status
unfolding process_post_request send_problem_details ◌==◌
query_is_refused = omega arith

process_post_request-unchanged_example : (post query (some app)).1 ≡ some app
process_post_request-unchanged_example =
    process_post_request-unchanged json (codes "error") (codes "ERROR_PROCESSING_FAILED")
      (codes "N32-F error processing failed") true handler query (some app) query_is_refused
