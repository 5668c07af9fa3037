-- ===== src/Handshake/Security.antt =====
-- What no message of the peer can change, and what a refused request leaves alone.
use oai_cn5g_sepp.Base.{◌≡◌, refl, ◌∙◌, ◌==◌, true, false, some, Bytes, List, [], ◌∷◌, codes, arith}
use oai_cn5g_sepp.Dict.{Headers}
use oai_cn5g_sepp.Json.{JsonLib, IsJson, CanHold, find_string, find_string_of_find}
use oai_cn5g_sepp.Models.{Models}
use oai_cn5g_sepp.Handler.{returned}
use oai_cn5g_sepp.Handshake.{Handshake}
use oai_cn5g_sepp.Handshake.Capability.{
  handle_exchange_capability_request, capability_response as response_data,
}
use oai_cn5g_sepp.Handshake.Messages.{
  Request, exchange_capability, exchange_params, n32f_terminate, n32f_error, Event, request,
  create_params, capability_response, params_response, terminate_response, handle_request, step,
  run,
}

-- The configured identity and capability.
abbrev pub SameConfig : Handshake → Handshake → Type 0
SameConfig s t =
    (t.selected_sec_capability ≡ s.selected_sec_capability) × (t.sender_fqdn ≡ s.sender_fqdn)

module _ (J : JsonLib) (M : Models J) (nbi_url : Bytes) where
  pub step-SameConfig : (e : Event J) (s : Handshake) → SameConfig s (step J M nbi_url e s)
  unfolding step
  step-SameConfig (request exchange_capability uuid req) s = ground arith
  step-SameConfig (request exchange_params uuid req) s = ground arith
  step-SameConfig (request n32f_terminate uuid req) s = ground arith
  step-SameConfig (request n32f_error uuid req) s = ground arith
  step-SameConfig (create_params uuid) s = ground arith
  step-SameConfig (capability_response resp) s = ground arith
  step-SameConfig (params_response resp) s = ground arith
  step-SameConfig (terminate_response resp) s = ground arith

  -- No sequence of requests and responses, whatever they hold, changes the configured security
  -- capability or the name under which this SEPP sends.
  pub run-SameConfig : (es : List (Event J)) (s : Handshake) → SameConfig s (run J M nbi_url es s)
  unfolding run
  run-SameConfig [] s = (refl, refl)
  run-SameConfig (e ∷ es) s =
      let (p, q) = run-SameConfig es (step J M nbi_url e s) in
      let (p', q') = step-SameConfig e s in (p ∙ p', q ∙ q')

  -- A request of the peer that is answered with false has changed nothing.
  pub handle_request-false :
      (r : Request) (uuid : Bytes) (s : Handshake) (req_data : J.Json)
      → (handle_request J M nbi_url r uuid s req_data).outcome ≡ returned false
      → let h = handle_request J M nbi_url r uuid s req_data in
        (h.state ≡ s) × (h.resp_data ≡ J.null) × (h.resp_headers ≡ [])
  unfolding handle_request
  handle_request-false exchange_capability uuid s req h = ground arith
  handle_request-false exchange_params uuid s req h = ground arith
  handle_request-false n32f_terminate uuid s req h = ground arith
  handle_request-false n32f_error uuid s req h = ground arith

module _ {J : JsonLib} (L : IsJson J) (M : Models J) (nbi_url : Bytes) where
  -- The four members of the response.
  pub find-capability_response :
      (capability : Bytes) (resp : J.Json)
      → CanHold J resp
      → let data' = response_data J M nbi_url capability resp in
        (find_string J data' (codes "selectedSecCapability") ≡ some capability)
        × (find_string J data' (codes "sender") ≡ some nbi_url)
        × (J.find data' (codes "3GppSbiTargetApiRootSupported") ≡ some (J.bool true))
        × (J.find data' (codes "allowedUsagePurpose")
            ≡ some (
                J.array (J.insert J.null (codes "usagePurpose") (J.string (codes "ROAMING")) ∷ [])))
  unfolding response_data ◌==◌
  find-capability_response capability resp w₀ =
      let w₁ = L.CanHold-insert _ _ (codes "sender") w₀ in
      let w₂ = L.CanHold-insert _ _ (codes "selectedSecCapability") w₁ in
      let w₃ = L.CanHold-insert _ _ (codes "3GppSbiTargetApiRootSupported") w₂ in
      (
        find_string_of_find L _ _ capability
            (L.find-insert _ _ _ _ w₃ ∙ (L.find-insert _ _ _ _ w₂ ∙ L.find-insert _ _ _ _ w₁)),
        find_string_of_find L _ _ nbi_url (
            L.find-insert _ _ _ _ w₃
            ∙ (L.find-insert _ _ _ _ w₂ ∙ (L.find-insert _ _ _ _ w₁ ∙ L.find-insert _ _ _ _ w₀))),
        L.find-insert _ _ _ _ w₃ ∙ L.find-insert _ _ _ _ w₂,
        L.find-insert _ _ _ _ w₃,
      )

  -- Over a lawful JSON library, whatever capabilities the peer lists: the response to an accepted
  -- request, written into a null or an object, names the capability that is configured here, and
  -- this SEPP as its sender.
  handle_exchange_capability_request-capability :
      (s : Handshake) (req_data resp_data : J.Json) (resp_headers : Headers)
      → CanHold J resp_data
      → (handle_exchange_capability_request J M nbi_url s req_data resp_data resp_headers).outcome
        ≡ returned true
      → let h = handle_exchange_capability_request J M nbi_url s req_data resp_data resp_headers in
        (find_string J h.resp_data (codes "selectedSecCapability") ≡ some s.selected_sec_capability)
        × (find_string J h.resp_data (codes "sender") ≡ some nbi_url)
  unfolding handle_exchange_capability_request
  handle_exchange_capability_request-capability s req resp headers w h =
      ground (arith, find-capability_response s.selected_sec_capability resp w)
