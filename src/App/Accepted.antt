-- ===== src/App/Accepted.antt =====
-- What the NBI server answers to a request of N32-c that the handshake accepts.
use oai_cn5g_sepp.Base.{◌≡◌, refl, true, some, Bytes, ◌==◌}
use oai_cn5g_sepp.Json.{JsonLib}
use oai_cn5g_sepp.Models.{Models, SecParamExchReqData, N32fContextInfo}
use oai_cn5g_sepp.Handler.{returned, Handled}
use oai_cn5g_sepp.Jose.{Bio, Evp}
use oai_cn5g_sepp.Http.{Client, HttpRequest}
use oai_cn5g_sepp.Handshake.{Handshake}
use oai_cn5g_sepp.Handshake.Messages.{
  Request, exchange_capability, exchange_params, n32f_terminate, n32f_error, handle_request,
}
use oai_cn5g_sepp.Server.{receive}
use oai_cn5g_sepp.Nbi.{process_post_request, answer_post, handle_n32c_request}
use oai_cn5g_sepp.App.{Config, App}
use oai_cn5g_sepp.App.Handlers.{handle_n32c}
use oai_cn5g_sepp.App.Producer.{received_request}

module _ {J : JsonLib} (M : Models J) where
  -- What the server asks of the JSON before the application gets it. An error report, which may be
  -- answered without a body, is left aside.
  abbrev pub Passes : Request → J.Json → Type 0
  Passes exchange_capability j = Unit
  Passes exchange_params j =
      (a : SecParamExchReqData M.ProtectionPolicy) × (M.sec_param_exch_req.from_json j ≡ some a)
  Passes n32f_terminate j =
      (a : N32fContextInfo) × (M.context_info.from_json j ≡ some a)
      × (M.context_info.validate a ≡ true)
  Passes n32f_error j = ⊥

module _ {J : JsonLib} (M : Models J) (cfg : Config) (evp : Evp) (bio : Bio) (client : Client J)
    (what : Bytes) where
  -- The answer is 200, with what the handshake wrote, and the handshake's new state is kept.
  pub handle_n32c_request-ok :
      (q : Request) (uuid : Bytes) (r : HttpRequest) (b : App) (t : Handshake) (req_data : J.Json)
      (h : Handled J Handshake)
      → J.parse r.body ≡ some req_data
      → Passes M q req_data
      → handle_request J M cfg.nbi_url q uuid t req_data ≡ h
      → h.outcome ≡ returned true
      → let answered =
          handle_n32c_request M cfg evp bio client what q uuid
            (received_request r)
            (some (record b { handshake = some t })) in
        (answered.0.status ≡ 200)
        × (answered.0.body ≡ J.dump h.resp_data)
        × (answered.1 ≡ some (record b { handshake = some h.state }))
  unfolding handle_n32c_request process_post_request answer_post receive handle_n32c ◌==◌
  handle_n32c_request-ok exchange_capability uuid r b t req_data h parsed passes handled accepted =
      rw (parsed, handled, accepted) (refl, refl, refl)
  handle_n32c_request-ok exchange_params uuid r b t req_data h parsed (a, read) handled accepted =
      rw (parsed, read, handled, accepted) (refl, refl, refl)
  handle_n32c_request-ok n32f_terminate uuid r b t req_data h parsed (a, read, valid) handled
        accepted =
      rw (parsed, read, valid, handled, accepted) (refl, refl, refl)
  handle_n32c_request-ok n32f_error uuid r b t req_data h parsed passes handled accepted =
      absurd passes
