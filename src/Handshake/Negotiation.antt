-- ===== src/Handshake/Negotiation.antt =====
-- A capability exchange between two SEPPs, from the request on: what the initiator makes of the
-- response of the responder.
use oai_cn5g_sepp.Base.{◌≡◌, refl, ap, ◌∙◌, arith, true, false, some, [], ◌∷◌, Bytes, codes, ◌==◌}
use oai_cn5g_sepp.Json.{JsonLib, IsJson, CanHold, find_string, find_string_of_find}
use oai_cn5g_sepp.Json.Members.{IsJsonValue}
use oai_cn5g_sepp.Models.{Models}
use oai_cn5g_sepp.Handler.{returned}
use oai_cn5g_sepp.Handshake.{Handshake}
use oai_cn5g_sepp.Handshake.Capability
use oai_cn5g_sepp.Handshake.Capability.{
  usage_purposes, allowed_purposes, handle_exchange_capability_request, handle_sec_negotiate_req,
  handle_exchange_capability_response,
}
use oai_cn5g_sepp.Handshake.Security.{find-capability_response}

-- What the initiator takes over from a response.
abbrev pub informed : Bytes → Handshake → Handshake
informed nbi_url i = record i {
  peer_sepp_fqdn = nbi_url;
  peer_target_api_root_supported = true;
  allowed_n32_purposes = codes "ROAMING" ∷ [];
}

module _ {J : JsonLib} (L : IsJson J) (V : IsJsonValue J) (M : Models J) (nbi_url : Bytes) where
  abbrev pub response : Bytes → J.Json
  response capability = Capability.capability_response J M nbi_url capability J.null

  CanHold-null : CanHold J J.null
  CanHold-null = rw V.is_null-null refl

  abbrev purpose : J.Json
  purpose = J.insert J.null (codes "usagePurpose") (J.string (codes "ROAMING"))

  usage_purposes-purpose : usage_purposes J (purpose ∷ []) ≡ codes "ROAMING" ∷ []
  unfolding usage_purposes ◌==◌
  usage_purposes-purpose =
      rw
        (
          V.is_object-insert J.null (J.string (codes "ROAMING")) (codes "usagePurpose")
              CanHold-null,
          find_string_of_find L purpose (codes "usagePurpose") (codes "ROAMING")
              (L.find-insert _ _ _ _ CanHold-null),
        )
        refl

  allowed_purposes-purpose :
      (d : J.Json)
      → J.find d (codes "allowedUsagePurpose") ≡ some (J.array (purpose ∷ []))
      → allowed_purposes J d ≡ codes "ROAMING" ∷ []
  unfolding allowed_purposes
  allowed_purposes-purpose d e =
      rw (allowed_purposes, e, V.is_array-array, V.elements-array, usage_purposes-purpose) refl

  takes_over :
      (i : Handshake) (d : J.Json) (capability : Bytes)
      → J.is_null d ≡ false
      → J.is_object d ≡ true
      → find_string J d (codes "selectedSecCapability") ≡ some capability
      → find_string J d (codes "sender") ≡ some nbi_url
      → J.find d (codes "3GppSbiTargetApiRootSupported") ≡ some (J.bool true)
      → J.find d (codes "allowedUsagePurpose") ≡ some (J.array (purpose ∷ []))
      → handle_exchange_capability_response J i d ≡ (informed nbi_url i, returned true)
  unfolding handle_exchange_capability_response find_string
  takes_over i d capability n o selected sender root allowed =
      ground (arith, V.get_bool-bool true, allowed_purposes-purpose d allowed)

  is_json-response :
      (capability : Bytes)
      → (J.is_null (response capability) ≡ false) × (J.is_object (response capability) ≡ true)
  unfolding Capability.capability_response
  is_json-response capability =
      let w₁ = L.CanHold-insert _ _ (codes "sender") CanHold-null in
      let w₂ = L.CanHold-insert _ _ (codes "selectedSecCapability") w₁ in
      let w₃ = L.CanHold-insert _ _ (codes "3GppSbiTargetApiRootSupported") w₂ in
      (V.is_null-insert _ _ _ w₃, V.is_object-insert _ _ _ w₃)

  pub accepted-response :
      (r : Handshake) (req_data : J.Json)
      → (handle_exchange_capability_request J M nbi_url r req_data J.null []).outcome
        ≡ returned true
      → let h = handle_exchange_capability_request J M nbi_url r req_data J.null [] in
        (h.resp_data ≡ response r.selected_sec_capability)
        × (h.state.selected_sec_capability ≡ r.selected_sec_capability)
  unfolding handle_exchange_capability_request
  accepted-response r req_data h = ground arith

  -- Over a lawful JSON library, a responder that accepts a capability request, in any state, makes the
  -- initiator accept its response, in any state: the initiator then knows the responder's URL, that it
  -- supports the target API root, and ROAMING as its one purpose. Neither end changes the capability
  -- that it has selected, so the exchange succeeds also where the two are different.
  pub exchange_capability-informed :
      (i r : Handshake) (req_data : J.Json)
      → (handle_exchange_capability_request J M nbi_url r req_data J.null []).outcome
        ≡ returned true
      → let h = handle_exchange_capability_request J M nbi_url r req_data J.null [] in
        (handle_exchange_capability_response J i h.resp_data ≡ (informed nbi_url i, returned true))
        × (h.state.selected_sec_capability ≡ r.selected_sec_capability)
        × ((informed nbi_url i).selected_sec_capability ≡ i.selected_sec_capability)
  exchange_capability-informed i r req_data e =
      let (is, kept) = accepted-response r req_data e in
      let (n, o) = is_json-response r.selected_sec_capability in
      let (selected, sender, root, allowed) =
        find-capability_response L M nbi_url r.selected_sec_capability J.null CanHold-null in
      (
        ap (handle_exchange_capability_response J i) is
            ∙ takes_over i (response r.selected_sec_capability) r.selected_sec_capability n o
                selected sender root allowed,
        kept,
        refl,
      )
