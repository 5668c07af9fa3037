-- ===== src/App/Procedures.antt =====
-- The procedures that this SEPP starts: the capability exchange, the parameter exchange, the
-- termination, and with them the start and the stop of the application. `client` is the client of
-- the NBI; `uuid` is what the random generator yields if it is asked. The registration at the NRF
-- changes nothing in the application's state.
use oai_cn5g_sepp.Base.{
  ℕ, Bool, true, false, not, ◌||◌, Option, none, some, [], ◌∷◌, ◌++◌, Bytes, codes, ◌==◌, is_empty,
  ◌=?◌, if◌then◌else◌,
}
use oai_cn5g_sepp.Json.{JsonLib}
use oai_cn5g_sepp.Models.{Models}
use oai_cn5g_sepp.Handler.{Outcome, returned, thrown}
use oai_cn5g_sepp.Result.{Result, ok, fail, thrown as thrown_result}
use oai_cn5g_sepp.Http.{Client, HttpResponse, post}
use oai_cn5g_sepp.Handshake
use oai_cn5g_sepp.Handshake.{Handshake}
use oai_cn5g_sepp.Handshake.Capability.{
  create_exchange_capability_req, handle_exchange_capability_response,
}
use oai_cn5g_sepp.Handshake.Parameters.{create_exchange_params_req, handle_exchange_params_response}
use oai_cn5g_sepp.Handshake.Termination.{create_n32f_terminate_req, handle_n32f_terminate_response}
use oai_cn5g_sepp.Forward
use oai_cn5g_sepp.Forward.{Forward}
use oai_cn5g_sepp.App.{Config, App, remote_url}

abbrev pub is_ok_or_created : ℕ → Bool
is_ok_or_created status = status =? 200 || status =? 201

-- `m_n32f_forward_inst->m_n32f_context_id = context_id`, if there is an instance
abbrev pub set_context : Bytes → Option Forward → Option Forward
set_context context_id none = none
set_context context_id (some f) = some (record f { n32f_context_id = context_id })

module _ {J : JsonLib} (M : Models J) (client : Client J) where
  -- `http_client_inst_nbi` posts a JSON body to an endpoint of the remote SEPP.
  abbrev pub post_json : Bytes → Bytes → J.Json → HttpResponse
  post_json url endpoint body =
      client.send post (client.prepare_json_request (url ++ endpoint) (J.dump body))

  -- The response to a parameter exchange, with the state after the request was created. Whatever
  -- is thrown is caught.
  unfoldable pub finish_exchange_params : App → Handshake → HttpResponse → App
  finish_exchange_params a s response =
      let requested = record a { handshake = some s } in
      if not (is_ok_or_created response.status_code)
      then requested
      else elim (J.parse response.body) [
        | none ↦ requested
        | some resp_body ↦ elim (M.sec_param_exch_rsp.from_json resp_body) [
          | none ↦ requested
          | some param_rsp ↦
              let (s', established) = handle_exchange_params_response J M s resp_body in
              if established
              then record a {
                handshake = some s';
                forward = set_context s'.n32c_context_id a.forward;
              }
              else record a { handshake = some s' }
        ]
      ]

  unfoldable pub create_exchange_params : Bytes → App → App
  unfolding finish_exchange_params
  create_exchange_params uuid a = elim a.handshake [
    | none ↦ a
    | some s ↦ elim a.remote_sepp_url [
      | none ↦ a
      | some url ↦
          let (s', req_body) = create_exchange_params_req J M uuid s in
          finish_exchange_params a s'
            (post_json url (codes "/n32c-handshake/v1/exchange-params") req_body)
    ]
  ]

  -- Behind the handling of the response: the parameter exchange, if PRINS is configured.
  abbrev after_capability : Bytes → App → Handshake × Outcome → App
  after_capability uuid a (s, returned true) =
      let negotiated = record a { handshake = some s } in
      let exchanged = create_exchange_params uuid negotiated in
      if s.selected_sec_capability == codes "PRINS" then exchanged else negotiated
  after_capability uuid a (s, returned false) = record a { handshake = some s }
  after_capability uuid a (s, thrown) = record a { handshake = some s }

  unfoldable pub finish_exchange_capability : Bytes → App → Handshake → HttpResponse → App
  unfolding create_exchange_params
  finish_exchange_capability uuid a s response =
      if not (is_ok_or_created response.status_code) then a else elim (J.parse response.body) [
        | none ↦ a
        | some resp_body ↦ elim (M.sec_negotiate_rsp.from_json resp_body) [
          | none ↦ a
          | some sec_rsp ↦
              after_capability uuid a (handle_exchange_capability_response J s resp_body)
        ]
      ]

  -- `thrown` where the model of the purpose cannot be read, which nothing catches.
  unfoldable pub create_exchange_capability : Bytes → App → Result App
  unfolding finish_exchange_capability
  create_exchange_capability uuid a = elim a.handshake [
    | none ↦ ok a
    | some s ↦ elim (create_exchange_capability_req J M s) [
      | thrown_result ↦ thrown_result
      | fail ↦ ok a
      | ok req_body ↦ elim a.remote_sepp_url [
        | none ↦ ok a
        | some url ↦ ok (
            finish_exchange_capability uuid a s
              (post_json url (codes "/n32c-handshake/v1/exchange-capability") req_body))
      ]
    ]
  ]

  -- The body of the response to a termination: null if it is empty, and an empty object if it
  -- does not parse.
  abbrev terminate_body : Bytes → J.Json
  terminate_body body =
      if is_empty body then J.null else elim (J.parse body) [ none ↦ J.object [] | some j ↦ j ]

  unfoldable pub send_n32f_terminate : App → App
  send_n32f_terminate a = elim a.handshake [
    | none ↦ a
    | some s ↦ elim a.remote_sepp_url [
      | none ↦ a
      | some url ↦ elim (create_n32f_terminate_req J M s) [
        | none ↦ a
        | some req_body ↦
            let response = post_json url (codes "/n32c-handshake/v1/n32f-terminate") req_body in
            if response.status_code =? 200 || response.status_code =? 204
            then record a {
              handshake =
                  some (handle_n32f_terminate_response J s (terminate_body response.body)).0;
            }
            else a
      ]
    ]
  ]

  -- The constructor up to the capability exchange.
  unfoldable pub instances : Config → App
  unfolding remote_url
  instances cfg =
      if cfg.register_nrf
      then record {
        handshake = some (record Handshake.initial { selected_sec_capability = cfg.security });
        forward = some (record Forward.initial { security_capability = cfg.security });
        remote_sepp_url =
            if cfg.is_c_sepp
            then elim cfg.roaming_partners [ [] ↦ none | plmn ∷ plmns ↦ some (remote_url cfg plmn) ]
            else none;
        telescopic_mapping = some cfg.roaming_partners;
      }
      else record {
        handshake = none;
        forward = none;
        remote_sepp_url = none;
        telescopic_mapping = none;
      }

  -- The constructor: the exchange is started where the URL was set.
  unfoldable pub start : Config → Bytes → Result App
  unfolding instances create_exchange_capability
  start cfg uuid =
      let a = instances cfg in
      elim a.remote_sepp_url [ none ↦ ok a | some url ↦ create_exchange_capability uuid a ]

  -- Without the deregistration at the NRF.
  unfoldable pub stop : Config → App → App
  unfolding send_n32f_terminate
  stop cfg a =
      if cfg.is_c_sepp
      then elim a.handshake [
        | none ↦ a
        | some s ↦ if not (is_empty s.n32c_context_id) then send_n32f_terminate a else a
      ]
      else a
