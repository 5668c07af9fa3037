-- ===== src/Handshake/Messages.antt =====
-- What can reach the state of the handshake, one event at a time: the four requests of a peer, the
-- three responses to this SEPP's own requests, and the creation of a parameter request. The
-- handlers run one after another.
use oai_cn5g_sepp.Base.{Bytes, List, [], ◌∷◌}
use oai_cn5g_sepp.Json.{JsonLib}
use oai_cn5g_sepp.Models.{Models}
use oai_cn5g_sepp.Handler.{Handled}
use oai_cn5g_sepp.Handshake.{Handshake}
use oai_cn5g_sepp.Handshake.Capability.{
  handle_exchange_capability_request, handle_exchange_capability_response,
}
use oai_cn5g_sepp.Handshake.Parameters.{
  create_exchange_params_req, handle_exchange_params, handle_exchange_params_response,
}
use oai_cn5g_sepp.Handshake.Termination.{
  handle_n32f_terminate_req, handle_n32f_terminate_response, handle_n32f_error,
}

-- A request of the peer, for the handler that the NBI server calls.
pub data Request : Type 0 where
  exchange_capability exchange_params n32f_terminate n32f_error : Request

pub data Event (J : JsonLib) : Type 0 where
  request : Request → Bytes → J.Json → Event J
  create_params : Bytes → Event J
  capability_response : J.Json → Event J
  params_response : J.Json → Event J
  terminate_response : J.Json → Event J

module _ (J : JsonLib) (M : Models J) (nbi_url : Bytes) where
  -- The second argument is the UUID that the random generator would yield.
  unfoldable pub handle_request : Request → Bytes → Handshake → J.Json → Handled J Handshake
  unfolding handle_exchange_capability_request handle_exchange_params handle_n32f_terminate_req
      handle_n32f_error
  handle_request exchange_capability uuid s req_data =
      handle_exchange_capability_request J M nbi_url s req_data J.null []
  handle_request exchange_params uuid s req_data =
      handle_exchange_params J M nbi_url uuid s req_data J.null []
  handle_request n32f_terminate uuid s req_data = handle_n32f_terminate_req J M s req_data J.null []
  handle_request n32f_error uuid s req_data = handle_n32f_error J s req_data J.null []

  unfoldable pub step : Event J → Handshake → Handshake
  unfolding handle_request create_exchange_params_req handle_exchange_capability_response
      handle_exchange_params_response handle_n32f_terminate_response
  step (request r uuid req_data) s = (handle_request r uuid s req_data).state
  step (create_params uuid) s = (create_exchange_params_req J M uuid s).0
  step (capability_response resp_data) s = (handle_exchange_capability_response J s resp_data).0
  step (params_response resp_data) s = (handle_exchange_params_response J M s resp_data).0
  step (terminate_response resp_data) s = (handle_n32f_terminate_response J s resp_data).0

  unfoldable pub run : List (Event J) → Handshake → Handshake
  unfolding step
  run [] s = s
  run (e ∷ es) s = run es (step e s)
