-- ===== src/Handshake/Capability.antt =====
-- The capability exchange: the request that a SEPP creates, how its peer handles it, and how it
-- handles the response.
use oai_cn5g_sepp.Base.{
  Bool, true, false, not, Option, none, some, List, [], ◌∷◌, Bytes, codes, any, ◌==◌, if◌then◌else◌,
}
use oai_cn5g_sepp.Dict.{Headers, insert}
use oai_cn5g_sepp.Json.{JsonLib, find_string, get_strings}
use oai_cn5g_sepp.Models.{Models, SecNegotiateReqData}
use oai_cn5g_sepp.Handler.{Outcome, returned, thrown, Handled}
use oai_cn5g_sepp.Result.{Result, ok, ◌>>=◌, or_throw}
use oai_cn5g_sepp.Handshake.{
  Handshake, sbi_target_api_root_header, header_value_yes, cap_tls, cap_prins,
  validate_handshake_request, answer,
}

-- The capability that the responder would select from the peer's list; the source only logs it.
unfoldable select_capability : List Bytes → Bytes
select_capability [] = cap_prins
select_capability (cap ∷ caps) =
    if any (λ c. c == cap_tls) (cap ∷ caps)
    then cap_tls
    else if any (λ c. c == cap_prins) (cap ∷ caps)
    then cap_prins
    else cap

-- `if (isSet) m_peer_target_api_root_supported = value;`
abbrev note_api_root : Option Bool → Handshake → Handshake
note_api_root none s = s
note_api_root (some supported) s = record s { peer_target_api_root_supported = supported }

module _ (J : JsonLib) (M : Models J) where
  -- `resp_data` as a SecNegotiateRspData, from the URL of this SEPP and its capability.
  unfoldable pub capability_response : Bytes → Bytes → J.Json → J.Json
  capability_response nbi_url capability resp_data =
      let purpose = J.insert J.null (codes "usagePurpose") (J.string (codes "ROAMING")) in
      let with_sender = J.insert resp_data (codes "sender") (J.string nbi_url) in
      let with_capability =
        J.insert with_sender (codes "selectedSecCapability") (J.string capability) in
      let with_api_root =
        J.insert with_capability (codes "3GppSbiTargetApiRootSupported") (J.bool true) in
      J.insert with_api_root (codes "allowedUsagePurpose") (J.array (purpose ∷ []))

  -- `supported_caps`, `none` where the list holds something else than strings, which throws
  unfoldable pub supported_capabilities : J.Json → Option (List Bytes)
  unfolding get_strings
  supported_capabilities req_data = elim (J.find req_data (codes "supportedSecCapabilityList")) [
    | none ↦ some []
    | some l ↦ if J.is_array l then get_strings J (J.elements l) else some []
  ]

  -- The handler, once the request is parsed and valid.
  unfoldable pub handle_sec_negotiate_req :
      Bytes
      → Handshake
      → J.Json
      → SecNegotiateReqData M.IntendedN32Purpose
      → J.Json
      → Headers
      → Handled J Handshake
  handle_sec_negotiate_req nbi_url s req_data req_obj resp_data resp_headers =
      let s' = record (note_api_root req_obj.target_api_root_supported s) {
        peer_sepp_fqdn = req_obj.sender;
      } in
      let headers = insert sbi_target_api_root_header header_value_yes resp_headers in
      elim (supported_capabilities req_data) [
        | none ↦ record {
          state = s';
          resp_data = resp_data;
          resp_headers = headers;
          outcome = thrown;
        }
        | some caps ↦
            answer J s' (capability_response nbi_url s.selected_sec_capability resp_data) headers
              true
      ]

  unfoldable pub handle_exchange_capability_request :
      Bytes → Handshake → J.Json → J.Json → Headers → Handled J Handshake
  unfolding handle_sec_negotiate_req
  handle_exchange_capability_request nbi_url s req_data resp_data resp_headers =
      if not (validate_handshake_request J req_data)
      then answer J s resp_data resp_headers false
      else elim (M.sec_negotiate_req.from_json req_data) [
        | none ↦ answer J s resp_data resp_headers false
        | some req_obj ↦
            if not (M.sec_negotiate_req.validate req_obj)
            then answer J s resp_data resp_headers false
            else handle_sec_negotiate_req nbi_url s req_data req_obj resp_data resp_headers
      ]

  -- Both overloads: the request as a model object, then as JSON with the one capability that is
  -- configured.
  unfoldable pub create_exchange_capability_req : Handshake → Result J.Json
  create_exchange_capability_req s = do
    purpose ←
        or_throw
          (M.purpose_from_json (J.object ((codes "usagePurpose", J.string (codes "ROAMING")) ∷ [])))
    let req_obj : SecNegotiateReqData M.IntendedN32Purpose = record {
      sender = s.sender_fqdn;
      target_api_root_supported = some true;
      intended_usage_purpose = purpose ∷ [];
    }
    ok (
        J.insert (M.sec_negotiate_req.to_json req_obj) (codes "supportedSecCapabilityList")
          (J.array (J.string s.selected_sec_capability ∷ [])))

module _ (J : JsonLib) where
  -- The purposes of the objects in the array, in order; anything else in it is passed over.
  unfoldable pub usage_purposes : List J.Json → List Bytes
  unfolding find_string
  usage_purposes [] = []
  usage_purposes (item ∷ items) =
      let rest = usage_purposes items in
      if J.is_object item
      then elim (find_string J item (codes "usagePurpose")) [
        | none ↦ rest
        | some purpose ↦ purpose ∷ rest
      ]
      else rest

  unfoldable pub allowed_purposes : J.Json → List Bytes
  unfolding usage_purposes
  allowed_purposes resp_data = elim (J.find resp_data (codes "allowedUsagePurpose")) [
    | none ↦ []
    | some l ↦ if J.is_array l then usage_purposes (J.elements l) else []
  ]

  -- `if (sender is a string) m_peer_sepp_fqdn = sender;`
  abbrev note_sender : J.Json → Handshake → Handshake
  note_sender resp_data s = elim (find_string J resp_data (codes "sender")) [
    | none ↦ s
    | some sender ↦ record s { peer_sepp_fqdn = sender }
  ]

  -- The part behind the two optional members.
  abbrev finish_capability_response : Handshake → J.Json → Handshake × Outcome
  finish_capability_response s resp_data =
      elim (find_string J resp_data (codes "selectedSecCapability")) [
        | none ↦ (s, returned false)
        | some selected_cap ↦
            (record s { allowed_n32_purposes = allowed_purposes resp_data }, returned true)
      ]

  unfoldable pub handle_exchange_capability_response : Handshake → J.Json → Handshake × Outcome
  unfolding find_string allowed_purposes
  handle_exchange_capability_response s resp_data =
      if not (validate_handshake_request J resp_data)
      then (s, returned false)
      else let s' = note_sender resp_data s in
        elim (J.find resp_data (codes "3GppSbiTargetApiRootSupported")) [
          | none ↦ finish_capability_response s' resp_data
          | some v ↦ elim (J.get_bool v) [
            | none ↦ (s', thrown)
            | some supported ↦
                finish_capability_response
                  (record s' { peer_target_api_root_supported = supported }) resp_data
          ]
        ]
