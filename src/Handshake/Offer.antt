-- ===== src/Handshake/Offer.antt =====
-- The request of a capability exchange: what a SEPP offers, and that its peer accepts it.
use oai_cn5g_sepp.Handshake
use oai_cn5g_sepp.Base.{◌≡◌, ◌⊎◌, refl, true, some, [], ◌∷◌, Bytes, codes, ◌==◌}
use oai_cn5g_sepp.Json.{JsonLib, IsJson, CanHold, get_strings}
use oai_cn5g_sepp.Json.Members.{IsJsonValue}
use oai_cn5g_sepp.Models.{Models, SecNegotiateReqData}
use oai_cn5g_sepp.Handler.{returned}
use oai_cn5g_sepp.Result.{ok}
use oai_cn5g_sepp.Handshake.{Handshake}
use oai_cn5g_sepp.Handshake.Capability.{
  capability_response, create_exchange_capability_req, handle_exchange_capability_request,
  handle_sec_negotiate_req, supported_capabilities,
}

module _ {J : JsonLib} (M : Models J) where
  -- What the SEPP offers, as a model object.
  abbrev pub offer : Bytes → M.IntendedN32Purpose → SecNegotiateReqData M.IntendedN32Purpose
  offer sender purpose = record {
    sender = sender;
    target_api_root_supported = some true;
    intended_usage_purpose = purpose ∷ [];
  }

  -- The two capabilities that a SEPP may have.
  abbrev pub IsCapability : Bytes → Type 0
  IsCapability capability = (capability ≡ codes "TLS") ⊎ (capability ≡ codes "PRINS")

  -- The FQDN that every SEPP gives as the sender.
  abbrev own_fqdn : Bytes
  own_fqdn = (Handshake.initial).sender_fqdn

  -- The handshake of a SEPP with PRINS that says who it is.
  pub record Offers (s : Handshake) : Type 0 where
    pub sender : s.sender_fqdn ≡ own_fqdn
    pub prins : s.selected_sec_capability ≡ codes "PRINS"

  -- The model classes read what the two ends of a capability exchange write, and the request is valid.
  pub record ReadsCapabilities : Type 0 where
    pub purpose : M.IntendedN32Purpose
    pub purpose-read :
        M.purpose_from_json (J.object ((codes "usagePurpose", J.string (codes "ROAMING")) ∷ []))
        ≡ some purpose
    pub request-CanHold : CanHold J (M.sec_negotiate_req.to_json (offer own_fqdn purpose))
    pub request-read :
        (req_obj : SecNegotiateReqData M.IntendedN32Purpose) × (M.sec_negotiate_req.from_json (
            J.insert
              (M.sec_negotiate_req.to_json (offer own_fqdn purpose))
              (codes "supportedSecCapabilityList")
              (J.array (J.string (codes "PRINS") ∷ [])))
          ≡ some req_obj)
        × (M.sec_negotiate_req.validate req_obj ≡ true)
    pub response-read :
        (nbi_url capability : Bytes)
        → IsCapability capability
        → (rsp_obj : M.SecNegotiateRspData) × (M.sec_negotiate_rsp.from_json
              (capability_response J M nbi_url capability J.null)
            ≡ some rsp_obj)

module _ {J : JsonLib} (L : IsJson J) (V : IsJsonValue J) (M : Models J)
    (reads : ReadsCapabilities M) where
  abbrev pub capability_request : Handshake → J.Json
  capability_request s =
      J.insert (M.sec_negotiate_req.to_json (offer M s.sender_fqdn reads.purpose))
        (codes "supportedSecCapabilityList") (J.array (J.string s.selected_sec_capability ∷ []))

  pub create_exchange_capability_req-ok :
      (s : Handshake) → create_exchange_capability_req J M s ≡ ok (capability_request s)
  unfolding create_exchange_capability_req
  create_exchange_capability_req-ok s = rw reads.purpose-read refl

  CanHold-offer :
      (s : Handshake)
      → Offers M s
      → CanHold J (M.sec_negotiate_req.to_json (offer M s.sender_fqdn reads.purpose))
  CanHold-offer s o = rw (o.sender) reads.request-CanHold

  find-request :
      (s : Handshake)
      → Offers M s
      → J.find (capability_request s) (codes "supportedSecCapabilityList")
        ≡ some (J.array (J.string s.selected_sec_capability ∷ []))
  unfolding ◌==◌
  find-request s o = L.find-insert _ _ _ _ (CanHold-offer s o)

  supported_capabilities-request :
      (s : Handshake)
      → Offers M s
      → supported_capabilities J M (capability_request s) ≡ some (s.selected_sec_capability ∷ [])
  unfolding supported_capabilities
  supported_capabilities-request s o =
      rw
        (
          supported_capabilities,
          find-request s o,
          V.is_array-array,
          V.elements-array,
          get_strings,
          L.get_string-string,
        )
        refl

  -- Every SEPP accepts the request, in any state of its handshake.
  pub accepts :
      (nbi_url : Bytes) (s t : Handshake)
      → Offers M s
      → (handle_exchange_capability_request J M nbi_url t (capability_request s) J.null []).outcome
        ≡ returned true
  unfolding handle_exchange_capability_request
  accepts nbi_url s t o =
      let (req_obj, read, valid) = reads.request-read in
      let as_read : M.sec_negotiate_req.from_json (capability_request s) ≡ some req_obj =
        rw (o.sender, o.prins) read in
      rw
        (
          V.is_null-insert _ _ _ (CanHold-offer s o),
          V.is_object-insert _ _ _ (CanHold-offer s o),
          as_read,
          valid,
          handle_sec_negotiate_req,
          supported_capabilities-request s o,
        )
        refl
