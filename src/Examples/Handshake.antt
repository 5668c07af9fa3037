-- ===== src/Examples/Handshake.antt =====
-- The handshake between two SEPPs, over the model classes of the examples.
use oai_cn5g_sepp.Base.{
  ◌≡◌, refl, ap, length, true, false, some, List, [], ◌∷◌, Bytes, codes, ◌==◌, arith,
}
use oai_cn5g_sepp.Handler.{returned}
use oai_cn5g_sepp.Handshake.{Handshake, initial}
use oai_cn5g_sepp.Handshake.Capability.{
  handle_exchange_capability_request, handle_exchange_capability_response, handle_sec_negotiate_req,
  supported_capabilities,
}
use oai_cn5g_sepp.Handshake.Messages.{
  exchange_capability, n32f_terminate, Event, request, create_params, terminate_response,
  handle_request, run,
}
use oai_cn5g_sepp.Handshake.Termination.{create_n32f_terminate_req}
use oai_cn5g_sepp.Handshake.Security.{SameConfig, run-SameConfig, handle_request-false}
use oai_cn5g_sepp.Handshake.Agreement.{
  Agreed, exchange_params, exchange_params-Agreed, terminate, terminate-other,
}
use oai_cn5g_sepp.Handshake.Negotiation.{informed, exchange_capability-informed}
use oai_cn5g_sepp.Examples.Profile.{json-IsJsonValue}
use oai_cn5g_sepp.Examples.Json as ExampleJson
use oai_cn5g_sepp.Examples.Json.{Json, null, json, json-IsJson, object, array, string}
use oai_cn5g_sepp.Examples.Models.{
  models, sec_negotiate_req, context_info-IsCodec, sec_param_exch_req-IsCodec,
  sec_param_exch_rsp-IsCodec,
}

abbrev url : Bytes
url = codes "http://10.0.0.1:8080"

abbrev uuid : Bytes
uuid = codes "1f"

abbrev negotiation : Json
negotiation = object (
    (codes "sender", string (codes "peer"))
    ∷ (codes "supportedSecCapabilityList", array (string (codes "TLS") ∷ []))
    ∷ [])

abbrev with_context : Bytes → Handshake
with_context context_id = record initial { n32c_context_id = context_id }

abbrev history : List (Event json)
history =
    request exchange_capability uuid negotiation
    ∷ create_params uuid
    ∷ request n32f_terminate uuid null
    ∷ terminate_response null
    ∷ []

run-SameConfig_example : SameConfig initial (run json models url history initial)
run-SameConfig_example = run-SameConfig json models url history initial

null_is_refused :
    (handle_request json models url exchange_capability uuid initial null).outcome ≡ returned false
unfolding handle_request ExampleJson.is_null handle_exchange_capability_request
null_is_refused = refl

handle_request-false_example :
    let h = handle_request json models url exchange_capability uuid initial null in
    (h.state ≡ initial) × (h.resp_data ≡ null) × (h.resp_headers ≡ [])
handle_request-false_example =
    handle_request-false json models url exchange_capability uuid initial null null_is_refused

negotiation_is_accepted :
    (handle_exchange_capability_request json models url initial negotiation null []).outcome
    ≡ returned true
unfolding handle_exchange_capability_request handle_sec_negotiate_req supported_capabilities
    ExampleJson.is_null ExampleJson.is_object ExampleJson.find ExampleJson.object ExampleJson.array
    ExampleJson.is_array ExampleJson.elements ExampleJson.get_string sec_negotiate_req ◌==◌
negotiation_is_accepted = refl

exchange_params-Agreed_example :
    let r =
      exchange_params json models url uuid (codes "2e") initial (with_context (codes "old")) in
    (r.2 ≡ returned true) × (r.3 ≡ true) × Agreed r.0 r.1
exchange_params-Agreed_example =
    exchange_params-Agreed json models url sec_param_exch_req-IsCodec sec_param_exch_rsp-IsCodec
      uuid (codes "2e") initial (with_context (codes "old")) (λ e. cc)

terminate-other_example :
    (req : Json) × (create_n32f_terminate_req json models (with_context uuid) ≡ some req)
    × (terminate json models url req (with_context uuid) (with_context (codes "2e0"))
        ≡ (initial, with_context (codes "2e0"), returned true))
terminate-other_example =
    terminate-other json models url context_info-IsCodec (with_context uuid)
      (with_context (codes "2e0")) (λ e. cc) (λ e. cc) (λ e. omega (arith, ap length e))

-- The initiator has selected TLS, the responder PRINS.
abbrev other : Handshake
other = record initial { selected_sec_capability = codes "TLS" }

exchange_capability-informed_example :
    let h = handle_exchange_capability_request json models url initial negotiation null [] in
    (handle_exchange_capability_response json other h.resp_data
      ≡ (informed url other, returned true))
    × (h.state.selected_sec_capability ≡ initial.selected_sec_capability)
    × ((informed url other).selected_sec_capability ≡ other.selected_sec_capability)
exchange_capability-informed_example =
    exchange_capability-informed json-IsJson json-IsJsonValue models url other initial negotiation
      negotiation_is_accepted
