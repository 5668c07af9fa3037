-- ===== src/Examples/Startup.antt =====
-- A consumer's SEPP that starts against a producer's, and the first request that it then serves.
use oai_cn5g_sepp.Base.{
  ◌≡◌, ◌≢◌, refl, true, Option, none, some, [], ◌∷◌, ◌++◌, Bytes, codes, ◌==◌, inr, ==_refl, arith,
  if◌then◌else◌,
}
use oai_cn5g_sepp.Decimal.{to_string}
use oai_cn5g_sepp.Result.{ok}
use oai_cn5g_sepp.Http.{Client, post}
use oai_cn5g_sepp.Telescopic.{Plmn, TelescopicMapping}
use oai_cn5g_sepp.Handshake as H
use oai_cn5g_sepp.Handshake.{Handshake}
use oai_cn5g_sepp.Handshake.Messages.{Request, exchange_capability, exchange_params}
use oai_cn5g_sepp.Handshake.Capability.{capability_response}
use oai_cn5g_sepp.Handshake.Parameters.{create_exchange_params_req}
use oai_cn5g_sepp.Handshake.Negotiation.{informed}
use oai_cn5g_sepp.Handshake.Offer.{ReadsCapabilities, capability_request}
use oai_cn5g_sepp.Handshake.Agreement.{Agreed}
use oai_cn5g_sepp.Forward as F
use oai_cn5g_sepp.Server.{ServerResponse}
use oai_cn5g_sepp.Server.Routes.{is_clean}
use oai_cn5g_sepp.Forward.Url.{pieces_from}
use oai_cn5g_sepp.Nbi.Routes.{n32c_path, serve}
use oai_cn5g_sepp.App.{Config, App, remote_url}
use oai_cn5g_sepp.App.Procedures.{start}
use oai_cn5g_sepp.App.Producer.{received_response}
use oai_cn5g_sepp.App.Connection.{delivered}
use oai_cn5g_sepp.App.Startup.{configured, consumer, IsConsumer, start-Agreed}
use oai_cn5g_sepp.Examples.Json as ExampleJson
use oai_cn5g_sepp.Examples.Json.{json, json-IsJson, parse-dump}
use oai_cn5g_sepp.Examples.Models.{
  models, sec_negotiate_req, sec_param_exch_req-IsCodec, sec_param_exch_rsp-IsCodec,
}
use oai_cn5g_sepp.Examples.Profile.{json-IsJsonValue}
use oai_cn5g_sepp.Examples.Crypto.{bio, evp}
use oai_cn5g_sepp.Examples.Servers.{cfg}
use oai_cn5g_sepp.Examples.Routes.{mux, mux-IsServeMux, producer}
use oai_cn5g_sepp.Examples.EndToEnd.{
  local, iv, answered, service, service-Addresses, target-NoSpace, lawful_client,
}
use oai_cn5g_sepp.App.Answered.{Responds}
use oai_cn5g_sepp.App.FirstRequest.{process_path}
use oai_cn5g_sepp.Sbi.Routes as Sbi
use oai_cn5g_sepp.Sbi.FirstRequest.{start-serve}

abbrev reads : ReadsCapabilities models
unfolding ExampleJson.is_object ExampleJson.is_null sec_negotiate_req capability_response
    ExampleJson.insert ExampleJson.object ExampleJson.find ◌==◌
reads = record {
  purpose = codes "ROAMING";
  purpose-read = refl;
  request-CanHold = refl;
  request-read = (_, refl, refl);
  response-read = λ nbi_url capability known. (_, refl);
}

abbrev plmn : Plmn
plmn = record { mcc = codes "208"; mnc = codes "95" }

abbrev consumer_cfg : Config
consumer_cfg = record cfg { is_c_sepp = true; roaming_partners = plmn ∷ [] }

abbrev url : Bytes
url = remote_url consumer_cfg plmn

abbrev inst : Option App
inst = some (record producer { handshake = some H.initial })

-- What the producer's server makes of a body, its client being that of the examples.
abbrev at : Request → Bytes → Option App → ServerResponse × Option App
at q body =
    serve models cfg evp bio local (codes "error") mux (codes "3d") none
      (delivered (n32c_path q) (record { uri = url ++ n32c_path q; headers = []; body = body }))

abbrev offered : Bytes
offered =
    json.dump
      (capability_request json-IsJson json-IsJsonValue models reads (configured consumer_cfg))

abbrev wanted : Bytes
wanted =
    json.dump
      (create_exchange_params_req json models (codes "2e")
        (informed cfg.nbi_url (configured consumer_cfg))).1

-- What it makes of a message of N32-f after the handshake.
abbrev at_process : Bytes → ServerResponse × Option App
at_process body =
    serve models cfg evp bio local (codes "error") mux (codes "4c") (some iv)
      (delivered process_path (record { uri = url ++ process_path; headers = []; body = body }))
      (at exchange_params wanted (at exchange_capability offered inst).1).1

-- The producer, which answers the parameter exchange after the capability exchange.
abbrev remote : Client json
remote = record {
  prepare_json_request = λ uri body. record { uri = uri; headers = []; body = body };
  send = λ m r. received_response (
      if r.uri == url ++ n32c_path exchange_params
      then (at exchange_params r.body (at exchange_capability offered inst).1).0
      else if r.uri == url ++ process_path
      then (at_process r.body).0
      else (at exchange_capability r.body inst).0);
  get_json = λ r. none;
}

is_consumer : IsConsumer consumer_cfg plmn
is_consumer = record {
  registers = refl;
  is_consumer = refl;
  others = [];
  partners = refl;
  prins = refl;
}

drawn : codes "2e" ≢ []
drawn e = cc

to_capability :
    (body : Bytes)
    → remote.send post (remote.prepare_json_request (url ++ n32c_path exchange_capability) body)
      ≡ received_response (at exchange_capability body inst).0
unfolding remote_url to_string ◌==◌
to_capability body = refl

to_params :
    (body : Bytes)
    → remote.send post (remote.prepare_json_request (url ++ n32c_path exchange_params) body)
      ≡ received_response (at exchange_params body (at exchange_capability offered inst).1).0
to_params body = rw (==_refl (url ++ n32c_path exchange_params)) refl

to_process :
    (body : Bytes)
    → remote.send post (remote.prepare_json_request (url ++ process_path) body)
      ≡ received_response (at_process body).0
unfolding remote_url to_string ◌==◌
to_process body = refl

start-Agreed_example :
    (i : Handshake) × (j : Handshake) × (start models remote consumer_cfg (codes "2e")
      ≡ ok (record (consumer consumer_cfg plmn) {
        handshake = some i;
        forward = some (record F.initial {
          security_capability = consumer_cfg.security;
          n32f_context_id = i.n32c_context_id;
        });
      }))
    × ((at exchange_params wanted (at exchange_capability offered inst).1).1
        ≡ some (record producer { handshake = some j }))
    × Agreed i j
    × (i.selected_sec_capability ≡ consumer_cfg.security)
start-Agreed_example =
    start-Agreed json-IsJson json-IsJsonValue models sec_param_exch_req-IsCodec
      sec_param_exch_rsp-IsCodec reads evp bio remote local cfg (codes "error") mux-IsServeMux
      parse-dump (λ uri body. refl) consumer_cfg plmn (codes "2e") (codes "3d") producer H.initial
      is_consumer drawn (inr refl) (to_capability, to_params)

service_clean : is_clean service.path ≡ true
unfolding is_clean pieces_from
service_clean = refl

abbrev to_json : TelescopicMapping → json.Json
to_json m = json.null

abbrev query_param : Bytes → Bytes → Bytes
query_param query key = query

start-serve_example :
    (a : App) × (start models remote consumer_cfg (codes "2e") ≡ ok a)
    × Responds answered (
        Sbi.serve models evp bio remote consumer_cfg to_json query_param
          (codes "error")
          mux
          (some iv)
          service
          a)
unfolding ◌==◌
start-serve_example =
    start-serve json-IsJson json-IsJsonValue models sec_param_exch_req-IsCodec
      sec_param_exch_rsp-IsCodec reads evp bio remote local cfg (codes "error") mux-IsServeMux
      to_json query_param mux-IsServeMux (lawful_client remote (λ url body. refl)) consumer_cfg plmn
      (codes "2e") (codes "3d") (codes "4c") iv iv service post (codes "udm:8080") producer
      H.initial F.initial is_consumer drawn (inr refl) refl refl refl refl refl service-Addresses
      target-NoSpace service_clean (λ e. cc) (λ e. cc) (λ e. cc) (omega arith) (omega arith)
      (to_capability, to_params) to_process (omega arith) (omega arith)
