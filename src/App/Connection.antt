-- ===== src/App/Connection.antt =====
-- The whole N32-c handshake: the constructor of the initiator's application (sepp_app.cpp) against
-- the NBI server of the responder, each request by its path.
use oai_cn5g_sepp.Base.{
  ◌≡◌, ◌≢◌, refl, sym, ap, ◌∙◌, true, Option, none, some, [], ◌++◌, Bytes, codes, ==-true,
}
use oai_cn5g_sepp.Json.{JsonLib, IsJson}
use oai_cn5g_sepp.Json.Members.{IsJsonValue}
use oai_cn5g_sepp.Models.{Models, IsCodec}
use oai_cn5g_sepp.Handler.{returned}
use oai_cn5g_sepp.Result.{ok}
use oai_cn5g_sepp.Jose.{Bio, Evp}
use oai_cn5g_sepp.Http.{Client, HttpRequest, post}
use oai_cn5g_sepp.Handshake.{Handshake}
use oai_cn5g_sepp.Handshake.Messages.{
  Request, exchange_capability, exchange_params, n32f_terminate, n32f_error, handle_request,
}
use oai_cn5g_sepp.Handshake.Capability.{
  capability_response, handle_exchange_capability_request, handle_exchange_capability_response,
}
use oai_cn5g_sepp.Handshake.Negotiation.{informed, accepted-response, exchange_capability-informed}
use oai_cn5g_sepp.Handshake.Offer.{
  ReadsCapabilities, Offers, IsCapability, capability_request, create_exchange_capability_req-ok,
  accepts,
}
use oai_cn5g_sepp.Handshake.Agreement.{Agreed}
use oai_cn5g_sepp.Handshake.Parameters.{create_exchange_params_req}
use oai_cn5g_sepp.App.Procedures.{
  post_json, create_exchange_params, finish_exchange_capability, create_exchange_capability,
  set_context,
}
use oai_cn5g_sepp.App.Exchange
use oai_cn5g_sepp.Server.{ServerRequest, ServerResponse}
use oai_cn5g_sepp.Server.Routes.{ServeMux, IsServeMux}
use oai_cn5g_sepp.Nbi.{handle_n32c_request}
use oai_cn5g_sepp.Nbi.Routes.{NbiHandler, n32c_path, serve, select-n32c_path}
use oai_cn5g_sepp.App.{Config, App}
use oai_cn5g_sepp.App.Accepted.{handle_n32c_request-ok}
use oai_cn5g_sepp.App.Producer.{received_request, received_response}

-- A request of the client, as it arrives under a path of the other side.
abbrev pub delivered : Bytes → HttpRequest → ServerRequest
delivered path r = record (received_request r) { path = path }

module _ {J : JsonLib} (M : Models J) (cfg : Config) (evp : Evp) (bio : Bio) (local : Client J)
    (what : Bytes) where
  -- The path of a request of N32-c leads to its handler, which does not read the path.
  serve-n32c :
      {mux : ServeMux NbiHandler} (law : IsServeMux mux) (q : Request) (uuid : Bytes)
      (random : Option Bytes) (r : HttpRequest) (inst : Option App)
      → serve M cfg evp bio local what mux uuid random (delivered (n32c_path q) r) inst
        ≡ handle_n32c_request M cfg evp bio local what q uuid (received_request r) inst
  unfolding serve handle_n32c_request
  serve-n32c law exchange_capability uuid random r inst =
      rw (serve, select-n32c_path law exchange_capability) refl
  serve-n32c law exchange_params uuid random r inst =
      rw (serve, select-n32c_path law exchange_params) refl
  serve-n32c law n32f_terminate uuid random r inst =
      rw (serve, select-n32c_path law n32f_terminate) refl
  serve-n32c law n32f_error uuid random r inst = rw (serve, select-n32c_path law n32f_error) refl

module _ {J : JsonLib} (L : IsJson J) (V : IsJsonValue J) (M : Models J)
    (reads : ReadsCapabilities M) (client : Client J) where
  -- The initiator goes on to the parameter exchange where a response to its offer of PRINS comes
  -- with the status 200.
  create_exchange_capability-ok :
      (uuid url nbi_url capability : Bytes) (a : App) (s : Handshake)
      → Offers M s
      → IsCapability M capability
      → let rsp_data = capability_response J M nbi_url capability J.null in
        let response =
          post_json M client url
            (codes "/n32c-handshake/v1/exchange-capability")
            (capability_request L V M reads s) in
        response.status_code ≡ 200
        → J.parse response.body ≡ some rsp_data
        → handle_exchange_capability_response J s rsp_data ≡ (informed nbi_url s, returned true)
        → create_exchange_capability M client uuid
            (record a { handshake = some s; remote_sepp_url = some url })
          ≡ ok (
              create_exchange_params M client uuid
                (record a { handshake = some (informed nbi_url s); remote_sepp_url = some url }))
  unfolding create_exchange_capability finish_exchange_capability
  create_exchange_capability-ok uuid url nbi_url capability a s o known status parsed handled =
      let (rsp_obj, read) = reads.response-read nbi_url capability known in
      rw
        (
          create_exchange_capability,
          create_exchange_capability_req-ok L V M reads s,
          finish_exchange_capability,
          status,
          parsed,
          read,
          handled,
          ==-true o.prins,
        )
        refl

-- Two SEPPs: the initiator with its client, the responder with its configuration, its multiplexer
-- and its own client.
module _ {J : JsonLib} (L : IsJson J) (V : IsJsonValue J) (M : Models J)
    (req : IsCodec J M.sec_param_exch_req) (rsp : IsCodec J M.sec_param_exch_rsp)
    (reads : ReadsCapabilities M) (evp : Evp) (bio : Bio) (client local : Client J) (peer : Config)
    (what : Bytes) {mux : ServeMux NbiHandler} (law : IsServeMux mux) where
  -- What the responder's server makes of a body that the initiator posts to a path of N32-c.
  abbrev pub at_peer : Bytes → Bytes → Request → Bytes → Option App → ServerResponse × Option App
  at_peer url uuid q body =
      serve M peer evp bio local what mux uuid none
        (delivered (n32c_path q) (client.prepare_json_request (url ++ n32c_path q) body))

  -- The client reaches the responder's server with both requests, one after the other.
  abbrev pub Reaches : Bytes → Bytes → Option App → Bytes → Type 0
  Reaches url uuid inst first =
      ((body : Bytes)
        → client.send post (client.prepare_json_request (url ++ n32c_path exchange_capability) body)
          ≡ received_response (at_peer url uuid exchange_capability body inst).0)
      × ((body : Bytes)
          → client.send post (client.prepare_json_request (url ++ n32c_path exchange_params) body)
            ≡ received_response
                (at_peer url uuid exchange_params body
                  (at_peer url uuid exchange_capability first inst).1).0)

  -- The responder answers the offer with its own capability, and keeps what it learnt.
  offered-ok :
      ((j : J.Json) → J.parse (J.dump j) ≡ some j)
      → ((url body : Bytes) → (client.prepare_json_request url body).body ≡ body)
      → (uuid' url : Bytes) (b : App) (s t : Handshake) → Offers M s
      → let req_data = capability_request L V M reads s in
        let answered =
          at_peer url uuid' exchange_capability
            (J.dump req_data)
            (some (record b { handshake = some t })) in
        (answered.0.status ≡ 200)
        × (J.parse answered.0.body
            ≡ some (capability_response J M peer.nbi_url t.selected_sec_capability J.null))
        × (answered.1
            ≡ some (record b {
              handshake =
                  some
                    (handle_exchange_capability_request J M peer.nbi_url t req_data J.null
                      []).state;
            }))
  unfolding handle_request
  offered-ok parse-dump body-prepare uuid' url b s t o =
      let req_data = capability_request L V M reads s in
      let r =
        client.prepare_json_request (url ++ n32c_path exchange_capability) (J.dump req_data) in
      let accepted = accepts L V M reads peer.nbi_url s t o in
      let h = handle_exchange_capability_request J M peer.nbi_url t req_data J.null [] in
      let (status, body, kept) =
        handle_n32c_request-ok M peer evp bio local what exchange_capability uuid' r b t req_data h
          (ap J.parse (body-prepare _ _) ∙ parse-dump req_data) tt refl accepted in
      let routed =
        serve-n32c M peer evp bio local what law exchange_capability uuid' none r
          (some (record b { handshake = some t })) in
      (
        ap (λ x. x.0.status) routed ∙ status,
        ap (λ x. J.parse x.0.body) routed
            ∙ (ap J.parse body
                ∙ (parse-dump h.resp_data
                    ∙ ap some (accepted-response L V M peer.nbi_url t req_data accepted).0)),
        ap (λ x. x.1) routed ∙ kept,
      )

  pub create_exchange_capability-Agreed :
      ((j : J.Json) → J.parse (J.dump j) ≡ some j)
      → ((url body : Bytes) → (client.prepare_json_request url body).body ≡ body)
      → (uuid uuid' url : Bytes) (a b : App) (s t : Handshake) → uuid ≢ []
      → Offers M s
      → IsCapability M t.selected_sec_capability
      → let offered = J.dump (capability_request L V M reads s) in
        let wanted = J.dump (create_exchange_params_req J M uuid (informed peer.nbi_url s)).1 in
        let inst = some (record b { handshake = some t }) in
        Reaches url uuid' inst offered
        → (i : Handshake) × (j : Handshake) × (create_exchange_capability M client uuid
              (record a { handshake = some s; remote_sepp_url = some url })
            ≡ ok (record a {
              handshake = some i;
              remote_sepp_url = some url;
              forward = set_context i.n32c_context_id a.forward;
            }))
          × ((at_peer url uuid' exchange_params wanted
                (at_peer url uuid' exchange_capability offered inst).1).1
              ≡ some (record b { handshake = some j }))
          × Agreed i j
          × (i.selected_sec_capability ≡ s.selected_sec_capability)
  create_exchange_capability-Agreed parse-dump body-prepare uuid uuid' url a b s t ne o known
        reaches =
      let req_data = capability_request L V M reads s in
      let wanted = J.dump (create_exchange_params_req J M uuid (informed peer.nbi_url s)).1 in
      let accepted = accepts L V M reads peer.nbi_url s t o in
      let t' = (handle_exchange_capability_request J M peer.nbi_url t req_data J.null []).state in
      let (status, parsed, kept) = offered-ok parse-dump body-prepare uuid' url b s t o in
      let handled = (exchange_capability-informed L V M peer.nbi_url s t req_data accepted).0 in
      let created =
        create_exchange_capability-ok L V M reads client uuid url peer.nbi_url
          t.selected_sec_capability a s o known
          (ap (λ r. r.status_code) (reaches.0 (J.dump req_data)) ∙ status)
          (ap (λ r. J.parse r.body) (reaches.0 (J.dump req_data)) ∙ parsed)
          (ap (handle_exchange_capability_response J s)
              (sym (accepted-response L V M peer.nbi_url t req_data accepted).0)
            ∙ handled) in
      let routed =
        ap (at_peer url uuid' exchange_params wanted) kept
        ∙ serve-n32c M peer evp bio local what law exchange_params uuid' none
            (client.prepare_json_request (url ++ n32c_path exchange_params) wanted)
            (some (record b { handshake = some t' })) in
      let (i, j, done, held, agreed, same) =
        Exchange.create_exchange_params-Agreed_at M evp bio client local peer what req rsp
          parse-dump body-prepare uuid uuid' url a b (informed peer.nbi_url s) t' ne
          (reaches.1 wanted ∙ ap (λ x. received_response x.0) routed) in
      (i, j, created ∙ ap ok done, ap (λ x. x.1) routed ∙ held, agreed, same)
