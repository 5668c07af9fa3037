-- ===== src/Examples/Direct.antt =====
-- A GET over TLS, to a network function that answers with the status 201.
use oai_cn5g_sepp.Base.{
  length, drop, Bool, ◌&&◌, true, false, none, some, [], ◌∷◌, Bytes, codes, ◌==◌, if◌then◌else◌,
}
use oai_cn5g_sepp.Http.{Method, get, HttpRequest, HttpResponse, Client}
use oai_cn5g_sepp.Handshake as H
use oai_cn5g_sepp.Forward as F
use oai_cn5g_sepp.Server.{ServerRequest}
use oai_cn5g_sepp.Forward.Url.{cut}
use oai_cn5g_sepp.Nbi.Routes.{serve}
use oai_cn5g_sepp.Handshake.Messages.{Request}
use oai_cn5g_sepp.App.{App}
use oai_cn5g_sepp.App.Asked.{name_of}
use oai_cn5g_sepp.App.Arrival.{lowered}
use oai_cn5g_sepp.App.Producer.{received_response}
use oai_cn5g_sepp.Telescopic.{TelescopicMapping}
use oai_cn5g_sepp.Sbi.Routes as Sbi
use oai_cn5g_sepp.Examples.Json as ExampleJson
use oai_cn5g_sepp.Examples.Json.{Json, null, string, json, object}
use oai_cn5g_sepp.Examples.Models.{models}
use oai_cn5g_sepp.Examples.Crypto.{bio, evp}
use oai_cn5g_sepp.Examples.Servers.{cfg}
use oai_cn5g_sepp.Examples.EndToEnd.{prepared}
use oai_cn5g_sepp.Examples.Routes.{mux}

abbrev sent : ServerRequest
sent = record {
  method = codes "GET";
  path = codes "/sdm";
  raw_query = codes "a=1";
  headers = (codes "host", codes "udm:8080") ∷ [];
  chunks = [];
}

abbrev url : Bytes
url = codes "https://peer"

-- Where a request behind the origin goes, and its query.
abbrev path_of : Bytes → Bytes
path_of target = elim (cut b'?' target) [ none ↦ target | some (path, query) ↦ path ]

abbrev query_of : Bytes → Bytes
query_of target = elim (cut b'?' target) [ none ↦ [] | some (path, query) ↦ query ]

abbrev arrive : Method → HttpRequest → ServerRequest
arrive m r = record {
  method = name_of m;
  path = path_of (drop (length url) r.uri);
  raw_query = query_of (drop (length url) r.uri);
  headers = lowered r.headers;
  chunks = r.body ∷ [];
}

abbrev with_tls : App
with_tls = record {
  handshake = some (record H.initial { selected_sec_capability = codes "TLS" });
  forward = some (record F.initial { security_capability = codes "TLS" });
  remote_sepp_url = some url;
  telescopic_mapping = some [];
}

-- The JSON that the network function answers with.
abbrev found : Json
found = object ((codes "supi", string (codes "1")) ∷ [])

-- A network function that knows one GET.
abbrev is_get : Method → Bool
is_get get = true
is_get _ = false

abbrev answer_to : Method → HttpRequest → HttpResponse
answer_to m r =
    if is_get m && (r.uri == codes "http://udm:8080/sdm?a=1" && r.body == [])
    then record { status_code = 201; body = codes "{}"; headers = [] }
    else record { status_code = 404; body = []; headers = [] }

abbrev udm : Client json
udm = record { prepare_json_request = prepared; send = answer_to; get_json = λ r. some found }

abbrev remote : Client json
remote = record {
  prepare_json_request = prepared;
  send = λ m r.
      received_response
        (serve models cfg evp bio udm (codes "error") mux (codes "5a") none (arrive m r)
          (some with_tls)).0;
  get_json = λ r. none;
}

abbrev to_json : TelescopicMapping → Json
to_json m = null

abbrev query_param : Bytes → Bytes → Bytes
query_param query key = query
