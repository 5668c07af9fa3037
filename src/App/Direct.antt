-- ===== src/App/Direct.antt =====
-- A service request with TLS: from the SEPP of the consumer, through the NBI server of the
-- producer's SEPP, to the network function there, and back.
use oai_cn5g_sepp.Base.{
  not, ◌&&◌, ◌≡◌, ◌≢◌, refl, true, false, none, some, List, [], ◌++◌, Bytes, codes, ==-true, ◌=?◌,
  is_empty-false,
}
use oai_cn5g_sepp.Dict.{insert}
use oai_cn5g_sepp.Json.{JsonLib, IsJson, value}
use oai_cn5g_sepp.Json.Members.{IsJsonValue, last_of}
use oai_cn5g_sepp.Json.Objects.{IsJsonObject, first_of}
use oai_cn5g_sepp.Models.{Models}
use oai_cn5g_sepp.Handler.{returned}
use oai_cn5g_sepp.Result.{ok}
use oai_cn5g_sepp.Jose.{Bio, Evp}
use oai_cn5g_sepp.Http.{Client, HttpRequest, get, method_of, force_http}
use oai_cn5g_sepp.Forward.{Forward}
use oai_cn5g_sepp.Forward.Target.{
  apiroot_header, target_request, target_endpoint, response_json, target_answer,
  send_http_request_to_target,
}
use oai_cn5g_sepp.Forward.Direct.{
  forward_headers, forward_get, ok_if_empty, handle_n32f_forward as forward_direct,
}
use oai_cn5g_sepp.Forward.Walk.{lookup-forward_headers}
use oai_cn5g_sepp.Server.{ServerRequest, json_headers}
use oai_cn5g_sepp.Nbi.{get_authority, forward_json, handle_n32f_forward}
use oai_cn5g_sepp.App.{Config, App}
use oai_cn5g_sepp.App.Handlers

module _ {J : JsonLib} (L : IsJson J) (V : IsJsonValue J) (O : IsJsonObject J) (M : Models J)
    (peer : Config) (evp : Evp) (bio : Bio) (local : Client J) (what : Bytes) where
  value-object :
      (members : List (Bytes × J.Json)) (k s : Bytes)
      → first_of members k ≡ some (J.string s)
      → value J (J.object members) k ≡ some s
  unfolding value
  value-object members k s e =
      rw (value, O.is_object-object, O.find-object, e, L.get_string-string) refl

  -- The request that the producer's SEPP makes of a GET.
  abbrev pub asked : ServerRequest → HttpRequest
  asked req =
      target_request local peer.nrf_url (get_authority M peer evp bio local what req.headers)
        (req.path ++ (codes "?" ++ req.raw_query)) []
        (forward_headers J (forward_json M peer evp bio local what req))

  pub asked-uri :
      (req : ServerRequest) (root : Bytes)
      → last_of req.headers apiroot_header none ≡ some root
      → root ≢ []
      → (asked req).uri ≡ force_http root ++ (req.path ++ (codes "?" ++ req.raw_query))
  unfolding forward_json target_request target_endpoint first_of
  asked-uri req root found ne =
      let held =
        lookup-forward_headers L V O (forward_json M peer evp bio local what req) req.headers
          apiroot_header root (O.find-object _ (codes "headers")) found in
      rw (target_request, target_endpoint, held) (rw (is_empty-false root ne) refl)

  forward_get-ok :
      (req : ServerRequest)
      → let response = local.send get (asked req) in
        (response.status_code =? 0) ≡ false
        → forward_get local peer.nrf_url (forward_json M peer evp bio local what req)
          ≡ ok (
              ok_if_empty J
                (response_json local peer.nrf_url response)
                (response.status_code =? 200))
  unfolding forward_get forward_json first_of send_http_request_to_target target_answer method_of
  forward_get-ok req answered =
      rw
        (
          value-object _ (codes "authority") _ refl,
          value-object _ (codes "path") _ refl,
          value-object _ (codes "query") _ refl,
          answered,
        )
        refl

  forward_json-object :
      (req : ServerRequest)
      → let j = forward_json M peer evp bio local what req in
        (not (J.is_null j) && J.is_object j) ≡ true
  unfolding forward_json
  forward_json-object req = rw (O.is_null-object, O.is_object-object) refl

  forward_direct-ok :
      (g : Forward) (req : ServerRequest)
      → g.security_capability ≡ codes "TLS"
      → let response = local.send get (asked req) in
        (response.status_code =? 0) ≡ false
        → forward_direct local peer.nrf_url g (forward_json M peer evp bio local what req) J.null []
          ≡ record {
            state = g;
            resp_data =
                ok_if_empty J
                  (response_json local peer.nrf_url response)
                  (response.status_code =? 200);
            resp_headers = json_headers;
            outcome = returned true;
          }
  unfolding forward_direct insert
  forward_direct-ok g req tls answered =
      let object_given : (not (J.is_null (forward_json M peer evp bio local what req))
            && J.is_object (forward_json M peer evp bio local what req))
          ≡ true =
        forward_json-object req in
      rw (forward_direct, object_given, ==-true tls, forward_get-ok req answered) refl

  Handlers-ok :
      (b : App) (g : Forward) (req : ServerRequest)
      → g.security_capability ≡ codes "TLS"
      → let response = local.send get (asked req) in
        (response.status_code =? 0) ≡ false
        → Handlers.handle_n32f_forward M peer evp bio local
            (record b { forward = some g })
            (forward_json M peer evp bio local what req)
          ≡ record {
            state = record b { forward = some g };
            resp_data =
                ok_if_empty J
                  (response_json local peer.nrf_url response)
                  (response.status_code =? 200);
            resp_headers = json_headers;
            outcome = returned true;
          }
  unfolding Handlers.handle_n32f_forward
  Handlers-ok b g req tls answered = rw (forward_direct-ok g req tls answered) refl

  -- Its NBI server answers the GET with what the network function says.
  pub handle_n32f_forward-ok :
      (b : App) (g : Forward) (req : ServerRequest)
      → req.method ≡ codes "GET"
      → g.security_capability ≡ codes "TLS"
      → let response = local.send get (asked req) in
        (response.status_code =? 0) ≡ false
        → (handle_n32f_forward M peer evp bio local what req
            (some (record b { forward = some g }))).0
          ≡ record {
            status = 200;
            headers = json_headers ++ json_headers;
            body = J.dump (
                ok_if_empty J
                  (response_json local peer.nrf_url response)
                  (response.status_code =? 200));
          }
  unfolding handle_n32f_forward
  handle_n32f_forward-ok b g req is_get tls answered =
      let done = Handlers-ok b g req tls answered in rw (==-true is_get, done, done) refl
