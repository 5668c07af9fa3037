-- ===== src/App/Exchange.antt =====
-- The parameter exchange of two SEPPs over N32-c: the initiator's application, the responder's
-- server and application.
use oai_cn5g_sepp.Base.{◌≡◌, ◌≢◌, refl, ap, ◌∙◌, true, Option, some, [], ◌++◌, Bytes, codes}
use oai_cn5g_sepp.Json.{JsonLib}
use oai_cn5g_sepp.Models.{Models, IsCodec, SecParamExchReqData, SecParamExchRspData}
use oai_cn5g_sepp.Jose.{Bio, Evp}
use oai_cn5g_sepp.Http.{Client, HttpRequest, post}
use oai_cn5g_sepp.Handshake.{Handshake}
use oai_cn5g_sepp.Handshake.Messages.{
  exchange_params, handle_request, step, create_params, params_response,
}
use oai_cn5g_sepp.Handshake.Security.{step-SameConfig}
use oai_cn5g_sepp.Handshake.Parameters.{
  create_exchange_params_req, handle_exchange_params, handle_exchange_params_response,
}
use oai_cn5g_sepp.Handshake.Agreement.{Agreed, exchange_params-Agreed}
use oai_cn5g_sepp.Server.{ServerResponse}
use oai_cn5g_sepp.Nbi.{handle_n32c_request}
use oai_cn5g_sepp.App.{Config, App}
use oai_cn5g_sepp.App.Accepted.{handle_n32c_request-ok}
use oai_cn5g_sepp.App.Procedures.{
  set_context, post_json, create_exchange_params, finish_exchange_params,
}
use oai_cn5g_sepp.App.Producer.{received_request, received_response}

module _ {J : JsonLib} (M : Models J) (client : Client J) where
  -- The initiator takes over what a response with the status 200 establishes.
  create_exchange_params-ok :
      (uuid url : Bytes) (a : App) (s : Handshake) (resp_data : J.Json)
      (rsp_obj : SecParamExchRspData M.ProtectionPolicy)
      → let (s', req_data) = create_exchange_params_req J M uuid s in
        let response =
          post_json M client url (codes "/n32c-handshake/v1/exchange-params") req_data in
        response.status_code ≡ 200
        → J.parse response.body ≡ some resp_data
        → M.sec_param_exch_rsp.from_json resp_data ≡ some rsp_obj
        → (handle_exchange_params_response J M s' resp_data).1 ≡ true
        → let i = (handle_exchange_params_response J M s' resp_data).0 in
          create_exchange_params M client uuid
            (record a { handshake = some s; remote_sepp_url = some url })
          ≡ record a {
            handshake = some i;
            remote_sepp_url = some url;
            forward = set_context i.n32c_context_id a.forward;
          }
  unfolding create_exchange_params finish_exchange_params
  create_exchange_params-ok uuid url a s resp_data rsp_obj status parsed read established =
      rw (status, parsed, read, established) refl

module _ {J : JsonLib} (M : Models J) (evp : Evp) (bio : Bio) (local : Client J) (cfg : Config)
    (what : Bytes) where
  -- What the server of the responder `b` makes of a request.
  abbrev pub respond : Bytes → App → HttpRequest → ServerResponse × Option App
  respond uuid b r =
      handle_n32c_request M cfg evp bio local what exchange_params uuid (received_request r)
        (some b)

module _ {J : JsonLib} (M : Models J) (evp : Evp) (bio : Bio) (client local : Client J)
    (cfg : Config) (what : Bytes) where
  response-read :
      (req : IsCodec J M.sec_param_exch_req) (rsp : IsCodec J M.sec_param_exch_rsp)
      (uuid uuid' : Bytes) (s t : Handshake)
      → let (s', req_data) = create_exchange_params_req J M uuid s in
        (req_obj : SecParamExchReqData M.ProtectionPolicy) × (rsp_obj : SecParamExchRspData
          M.ProtectionPolicy)
        × (M.sec_param_exch_req.from_json req_data ≡ some req_obj)
        × (M.sec_param_exch_rsp.from_json
              (handle_exchange_params J M cfg.nbi_url uuid' t req_data J.null []).resp_data
            ≡ some rsp_obj)
  unfolding create_exchange_params_req handle_exchange_params
  response-read req rsp uuid uuid' s t =
      rw (req.is_null-to_json, req.is_object-to_json, req.from_json-to_json)
        (_, _, refl, rsp.from_json-to_json _)

  -- The exchange, where the client reaches the responder with this one request.
  pub create_exchange_params-Agreed_at :
      IsCodec J M.sec_param_exch_req
      → IsCodec J M.sec_param_exch_rsp
      → ((j : J.Json) → J.parse (J.dump j) ≡ some j)
      → ((url body : Bytes) → (client.prepare_json_request url body).body ≡ body)
      → (uuid uuid' url : Bytes) (a b : App) (s t : Handshake) → uuid ≢ []
      → let request =
          client.prepare_json_request
            (url ++ codes "/n32c-handshake/v1/exchange-params")
            (J.dump (create_exchange_params_req J M uuid s).1) in
        client.send post request
          ≡ received_response
              (respond M evp bio local cfg what uuid' (record b { handshake = some t }) request).0
        → (i : Handshake) × (j : Handshake) × (create_exchange_params M client uuid
              (record a { handshake = some s; remote_sepp_url = some url })
            ≡ record a {
              handshake = some i;
              remote_sepp_url = some url;
              forward = set_context i.n32c_context_id a.forward;
            })
          × ((respond M evp bio local cfg what uuid' (record b { handshake = some t }) request).1
              ≡ some (record b { handshake = some j }))
          × Agreed i j
          × (i.selected_sec_capability ≡ s.selected_sec_capability)
  unfolding handle_request step
  create_exchange_params-Agreed_at req rsp parse-dump body-prepare uuid uuid' url a b s t ne
        connected =
      let req_data = (create_exchange_params_req J M uuid s).1 in
      let request =
        client.prepare_json_request (url ++ codes "/n32c-handshake/v1/exchange-params")
          (J.dump req_data) in
      let h = handle_exchange_params J M cfg.nbi_url uuid' t req_data J.null [] in
      let (accepted, established, agreed) =
        exchange_params-Agreed J M cfg.nbi_url req rsp uuid uuid' s t ne in
      let (req_obj, rsp_obj, read, read') = response-read req rsp uuid uuid' s t in
      let (status, body, kept) =
        handle_n32c_request-ok M cfg evp bio local what exchange_params uuid' request b t req_data h
          (ap J.parse (body-prepare _ _) ∙ parse-dump req_data) (req_obj, read) refl accepted in
      let done =
        create_exchange_params-ok M client uuid url a s h.resp_data rsp_obj
          (ap (λ r. r.status_code) connected ∙ status)
          (ap (λ r. J.parse r.body) connected ∙ (ap J.parse body ∙ parse-dump h.resp_data)) read'
          established in
      (
        _,
        h.state,
        done,
        kept,
        agreed,
        (step-SameConfig J M cfg.nbi_url (params_response h.resp_data)
              (create_exchange_params_req J M uuid s).0).0
            ∙ (step-SameConfig J M cfg.nbi_url (create_params uuid) s).0,
      )

  -- Let the two model classes read back what they write, JSON parse what it dumps, the client send
  -- bodies as they are and reach the responder's server, and let the initiator draw a UUID that is not
  -- empty. Then, whatever state the two handshakes are in, a parameter exchange of the initiator's
  -- application leaves both handshakes with one context, which is not empty, and the same ciphers, and
  -- the initiator's forwarding, if there is one, has that context too.
  pub create_exchange_params-Agreed :
      IsCodec J M.sec_param_exch_req
      → IsCodec J M.sec_param_exch_rsp
      → ((j : J.Json) → J.parse (J.dump j) ≡ some j)
      → ((url body : Bytes) → (client.prepare_json_request url body).body ≡ body)
      → (uuid uuid' url : Bytes) (a b : App) (s t : Handshake) → uuid ≢ []
      → ((r : HttpRequest)
          → client.send post r
            ≡ received_response
                (respond M evp bio local cfg what uuid' (record b { handshake = some t }) r).0)
      → let request =
          client.prepare_json_request
            (url ++ codes "/n32c-handshake/v1/exchange-params")
            (J.dump (create_exchange_params_req J M uuid s).1) in
        (i : Handshake) × (j : Handshake) × (create_exchange_params M client uuid
            (record a { handshake = some s; remote_sepp_url = some url })
          ≡ record a {
            handshake = some i;
            remote_sepp_url = some url;
            forward = set_context i.n32c_context_id a.forward;
          })
        × ((respond M evp bio local cfg what uuid' (record b { handshake = some t }) request).1
            ≡ some (record b { handshake = some j }))
        × Agreed i j
  create_exchange_params-Agreed req rsp parse-dump body-prepare uuid uuid' url a b s t ne
        connected =
      let (i, j, done, kept, agreed, same) =
        create_exchange_params-Agreed_at req rsp parse-dump body-prepare uuid uuid' url a b s t ne
          (connected _) in
      (i, j, done, kept, agreed)
