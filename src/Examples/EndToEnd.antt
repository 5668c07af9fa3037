-- ===== src/Examples/EndToEnd.antt =====
-- Two SEPPs with the same key, and a network function that answers with the status 201.
use oai_cn5g_sepp.Base.{
  ◌≡◌, Bool, true, false, ◌&&◌, if◌then◌else◌, refl, inr, none, some, [], ◌∷◌, Bytes, codes, ◌==◌,
  replicate, arith,
}
use oai_cn5g_sepp.Http.{Method, post, HttpRequest, HttpResponse, Client}
use oai_cn5g_sepp.Forward.Aad.Lines.{NoSpace}
use oai_cn5g_sepp.App.Answered.{Passes, Responds}
use oai_cn5g_sepp.Sbi.Request.{Addresses, http_root}
use oai_cn5g_sepp.Handshake as H
use oai_cn5g_sepp.Forward.{Forward, initial}
use oai_cn5g_sepp.Forward.Aad.{is_space}
use oai_cn5g_sepp.Nbi.{handle_n32f_process}
use oai_cn5g_sepp.App.{App}
use oai_cn5g_sepp.App.Service.{handle_nf_service_request}
use oai_cn5g_sepp.Dict.{lookup}
use oai_cn5g_sepp.Server.{ServerRequest}
use oai_cn5g_sepp.Sbi.{handle_service}
use oai_cn5g_sepp.Sbi.EndToEnd.{handle_service-prins}
use oai_cn5g_sepp.App.EndToEnd.{IsLawful, handle_nf_service_request-prins}
use oai_cn5g_sepp.App.Producer.{received_request, received_response}
use oai_cn5g_sepp.Examples.Json.{json, parse-dump}
use oai_cn5g_sepp.Examples.Models.{models, flat_jwe, flat_jwe-IsCodec, context_info-IsCodec}
use oai_cn5g_sepp.Examples.Crypto.{bio, bio-IsBase64, evp, evp-IsGcm, evp-IsWorking}
use oai_cn5g_sepp.Examples.Servers.{cfg}

abbrev pub prepared : Bytes → Bytes → HttpRequest
prepared uri body = record { uri = uri; headers = []; body = body }

abbrev is_post : Method → Bool
is_post post = true
is_post _ = false

-- The answer of the network function to the one request that it knows.
abbrev pub answered : HttpResponse
answered = record {
  status_code = 201;
  body = codes "{}";
  headers = (codes "location", codes "/1") ∷ (codes "server", codes "udm") ∷ [];
}

abbrev pub answer_to : Method → HttpRequest → HttpResponse
answer_to m r =
    if is_post m && (r.uri == codes "http://udm:8080/sdm?a=1" && r.body == codes "{}")
    then answered
    else record { status_code = 404; body = []; headers = [] }

abbrev pub local : Client json
local = record { prepare_json_request = prepared; send = answer_to; get_json = λ r. none }

abbrev pub iv : Bytes
iv = replicate 12 7

abbrev forward : Forward
forward = record initial { enc_key = replicate 16 b'k'; n32f_context_id = codes "1f" }

abbrev app : App
app = record {
  handshake = some H.initial;
  forward = some forward;
  remote_sepp_url = some (codes "http://peer");
  telescopic_mapping = some [];
}

-- The remote SEPP, through its NBI server.
abbrev remote : Client json
remote = record {
  prepare_json_request = prepared;
  send = λ m r.
      received_response
        (handle_n32f_process models cfg evp bio local (codes "error") (some iv) (received_request r)
          (some app)).0;
  get_json = λ r. none;
}

pub lawful_client :
    (client : Client json)
    → ((url body : Bytes) → (client.prepare_json_request url body).body ≡ body)
    → IsLawful models evp bio client
unfolding flat_jwe
lawful_client client prepared_body = record {
  gcm = evp-IsGcm;
  working = evp-IsWorking;
  base64 = bio-IsBase64;
  request_codec = flat_jwe-IsCodec;
  response_codec = flat_jwe-IsCodec;
  context_codec = context_info-IsCodec;
  request-valid = λ m. refl;
  parse-dump = parse-dump;
  body-prepare = prepared_body;
}

lawful : IsLawful models evp bio remote
lawful = lawful_client remote (λ url body. refl)

pub target-NoSpace : NoSpace (codes "/sdm?a=1")
unfolding is_space
target-NoSpace = (refl, (refl, (refl, (refl, (refl, (refl, (refl, (refl, tt))))))))

handle_nf_service_request-prins_example : Passes answered (codes "udm:8080") (
    handle_nf_service_request models evp bio remote cfg app
      (some iv)
      (codes "udm:8080")
      (codes "/sdm?a=1")
      (codes "POST")
      (codes "{}"))
unfolding ◌==◌
handle_nf_service_request-prins_example =
    handle_nf_service_request-prins models evp bio remote local cfg cfg (codes "error") lawful app
      app H.initial forward forward (codes "http://peer") iv iv post (codes "/sdm?a=1")
      (codes "udm:8080") (codes "{}") refl refl refl refl (inr refl) refl refl target-NoSpace
      (λ e. cc) (λ e. cc) (omega arith) (omega arith) (λ r. refl) (omega arith) (omega arith)

-- A request of a network function that names its peer by an API root, not by the host.
abbrev pub service : ServerRequest
service = record {
  method = codes "POST";
  path = codes "/sdm";
  raw_query = codes "a=1";
  headers =
      (codes "host", codes "sepp")
      ∷ (codes "3gpp-sbi-target-apiroot", codes "http://udm:8080")
      ∷ [];
  chunks = codes "{" ∷ codes "}" ∷ [];
}

pub service-Addresses : Addresses service.headers (codes "udm:8080")
unfolding lookup ◌==◌
service-Addresses = http_root refl

handle_service-prins_example :
    Responds answered (handle_service models evp bio remote cfg (some iv) service app)
unfolding ◌==◌
handle_service-prins_example =
    handle_service-prins models evp bio remote local cfg cfg (codes "error") lawful service app app
      H.initial forward forward (codes "http://peer") iv iv post (codes "udm:8080") refl refl refl
      refl (inr refl) refl refl refl service-Addresses target-NoSpace (λ e. cc) (λ e. cc)
      (omega arith) (omega arith) (λ r. refl) (omega arith) (omega arith)
