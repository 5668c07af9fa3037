-- ===== src/Sbi/Routes.antt =====
-- The routes of the SBI server (`start` in src/api-server/sepp-http2-sbi-server.cpp), and which
-- handler a request reaches.
use oai_cn5g_sepp.Base.{
  ◌≡◌, ◌≢◌, inl, inr, Bool-cases, refl, sym, Option, none, some, [], ◌∷◌, Bytes, codes, ◌==◌,
  ==-false, true, ◌=?◌, is_empty-false, if◌then◌else◌,
}
use oai_cn5g_sepp.Json.{JsonLib}
use oai_cn5g_sepp.Models.{Models}
use oai_cn5g_sepp.Http.{Client}
use oai_cn5g_sepp.Jose.{Bio, Evp}
use oai_cn5g_sepp.Telescopic.{TelescopicMapping}
use oai_cn5g_sepp.Server.{ServerRequest, ServerResponse, receive}
use oai_cn5g_sepp.Server.Routes.{Routes, find_route, is_clean, has_only_root, ServeMux, IsServeMux}
use oai_cn5g_sepp.App.{Config, App}
use oai_cn5g_sepp.Result.{ok}
use oai_cn5g_sepp.Forward.{NfHttpResponse}
use oai_cn5g_sepp.App.Service.{handle_nf_service_request}
use oai_cn5g_sepp.Sbi.{
  service_authority, full_path, response_headers, handle_mapping, handle_service,
}

-- The callbacks that `start` registers.
pub data SbiHandler : Type 0 where
  mapping service : SbiHandler

abbrev pub mapping_path : Bytes
mapping_path = codes "/nsepp-telescopic/v1/mapping"

abbrev pub routes : Routes SbiHandler
routes = (mapping_path, mapping) ∷ (codes "/", service) ∷ []

module _ {J : JsonLib} (M : Models J) (evp : Evp) (bio : Bio) (client : Client J) (cfg : Config)
    (mapping_to_json : TelescopicMapping → J.Json) (get_query_param : Bytes → Bytes → Bytes)
    (what : Bytes) where
  -- The server of an application: the response of the handler that the path selects.
  unfoldable pub serve : ServeMux SbiHandler → Option Bytes → ServerRequest → App → ServerResponse
  serve mux random req a = elim (mux.select routes req.path) [
    | none ↦ mux.not_found
    | some mapping ↦ handle_mapping J mapping_to_json get_query_param what req (some a)
    | some service ↦ handle_service M evp bio client cfg random req a
  ]

module _ {J : JsonLib} (M : Models J) (evp : Evp) (bio : Bio) (client : Client J)
    (cfg : Config) where
  -- The generic handler passes on what the application returns.
  pub handle_service-ok :
      (random : Option Bytes) (req : ServerRequest) (a : App) {answer : NfHttpResponse}
      → service_authority req.headers ≢ []
      → handle_nf_service_request M evp bio client cfg a random
          (service_authority req.headers)
          (full_path req)
          req.method
          (receive req.chunks [])
        ≡ ok answer
      → handle_service M evp bio client cfg random req a ≡ record {
        status = answer.status_code;
        headers = response_headers answer.headers;
        body = if answer.status_code =? 204 then [] else answer.body;
      }
  unfolding handle_service
  handle_service-ok random req a ne answered =
      rw (answered, is_empty-false (service_authority req.headers) ne) refl

has_only_root-routes : has_only_root routes ≡ true
unfolding has_only_root
has_only_root-routes = refl

find_route-root : find_route (codes "/") routes ≡ some service
unfolding find_route
find_route-root = refl

-- Any clean path but that of the mapping selects the generic handler.
select-service :
    {mux : ServeMux SbiHandler}
    → IsServeMux mux
    → (path : Bytes) → is_clean path ≡ true
    → path ≢ mapping_path
    → mux.select routes path ≡ some service
unfolding find_route
select-service law path clean other =
    let unmapped = ==-false (λ e. other (sym e)) in
    elim (Bool-cases (codes "/" == path)) [
      | inl e ↦ law.select-fixed routes path service clean (rw (find_route, unmapped, e) refl)
      | inr e ↦
          law.select-root routes path service clean has_only_root-routes
            (rw (find_route, unmapped, e) refl) find_route-root
    ]

module _ {J : JsonLib} (M : Models J) (evp : Evp) (bio : Bio) (client : Client J) (cfg : Config)
    (mapping_to_json : TelescopicMapping → J.Json) (get_query_param : Bytes → Bytes → Bytes)
    (what : Bytes) {mux : ServeMux SbiHandler} (law : IsServeMux mux) where
  pub serve-service :
      (random : Option Bytes) (req : ServerRequest) (a : App)
      → is_clean req.path ≡ true
      → req.path ≢ mapping_path
      → serve M evp bio client cfg mapping_to_json get_query_param what mux random req a
        ≡ handle_service M evp bio client cfg random req a
  unfolding serve
  serve-service random req a clean other = rw (serve, select-service law req.path clean other) refl
