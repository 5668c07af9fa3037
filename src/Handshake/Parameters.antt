-- ===== src/Handshake/Parameters.antt =====
-- The parameter exchange: the request that a SEPP creates, how its peer handles it, and how it
-- handles the response. `uuid` is what the random generator yields if it is asked.
use oai_cn5g_sepp.Base.{
  Bool, true, false, not, Option, none, some, List, [], ◌∷◌, Bytes, codes, is_empty, if◌then◌else◌,
}
use oai_cn5g_sepp.Dict.{Headers, insert}
use oai_cn5g_sepp.Json.{JsonLib}
use oai_cn5g_sepp.Models.{Models, SecParamExchReqData, SecParamExchRspData}
use oai_cn5g_sepp.Handler.{Handled}
use oai_cn5g_sepp.Handshake.{
  Handshake, sbi_target_api_root_header, header_value_yes, validate_handshake_request, answer,
}

-- The peer's first cipher suite, if it lists one.
unfoldable first_suite : Bytes → Option (List Bytes) → Bytes
first_suite default none = default
first_suite default (some []) = default
first_suite default (some (suite ∷ suites)) = suite

abbrev or_kept : Bytes → Option Bytes → Bytes
or_kept old none = old
or_kept old (some new) = new

abbrev policy_or {ℓ} : {A : Type ℓ} → A → Option A → A
policy_or default none = default
policy_or default (some policy) = policy

-- The context of a SEPP that has none yet is a new UUID.
abbrev pub context_or_new : Bytes → Bytes → Bytes
context_or_new uuid context_id = if is_empty context_id then uuid else context_id

module _ (J : JsonLib) (M : Models J) where
  -- Both overloads: the model object, then its JSON.
  unfoldable pub create_exchange_params_req : Bytes → Handshake → Handshake × J.Json
  create_exchange_params_req uuid s =
      let context_id = context_or_new uuid s.n32c_context_id in
      (
        record s { n32c_context_id = context_id },
        M.sec_param_exch_req.to_json (record {
          n32f_context_id = context_id;
          sender = s.sender_fqdn;
          jwe_cipher_suite_list = some (codes "A128GCM" ∷ codes "A256GCM" ∷ []);
          jws_cipher_suite_list = some (codes "ES256" ∷ codes "RS256" ∷ []);
          protection_policy_info = some M.policy_without_mappings;
        }),
      )

  -- The handler, once the request is parsed.
  unfoldable handle_sec_param_exch_req :
      Bytes
      → Bytes
      → Handshake
      → SecParamExchReqData M.ProtectionPolicy
      → Headers
      → Handled J Handshake
  unfolding first_suite
  handle_sec_param_exch_req nbi_url uuid s req_obj resp_headers =
      let context_id =
        if not (is_empty req_obj.n32f_context_id)
        then req_obj.n32f_context_id
        else context_or_new uuid s.n32c_context_id in
      let jwe = first_suite (codes "A128GCM") req_obj.jwe_cipher_suite_list in
      let jws = first_suite (codes "ES256") req_obj.jws_cipher_suite_list in
      answer J
        (record s {
          n32c_context_id = context_id;
          selected_jwe_cipher = jwe;
          selected_jws_cipher = jws;
        })
        (M.sec_param_exch_rsp.to_json (record {
          n32f_context_id = context_id;
          sender = nbi_url;
          selected_jwe_cipher_suite = some jwe;
          selected_jws_cipher_suite = some jws;
          sel_protection_policy_info =
              some (policy_or M.policy_without_mappings req_obj.protection_policy_info);
        }))
        (insert sbi_target_api_root_header header_value_yes resp_headers) true

  unfoldable pub handle_exchange_params :
      Bytes → Bytes → Handshake → J.Json → J.Json → Headers → Handled J Handshake
  unfolding handle_sec_param_exch_req
  handle_exchange_params nbi_url uuid s req_data resp_data resp_headers =
      if not (validate_handshake_request J req_data)
      then answer J s resp_data resp_headers false
      else elim (M.sec_param_exch_req.from_json req_data) [
        | none ↦ answer J s resp_data resp_headers false
        | some req_obj ↦ handle_sec_param_exch_req nbi_url uuid s req_obj resp_headers
      ]

  -- What an established response changes.
  abbrev establish : Handshake → SecParamExchRspData M.ProtectionPolicy → Handshake
  establish s rsp_obj = record s {
    n32c_context_id =
        if not (is_empty rsp_obj.n32f_context_id)
        then rsp_obj.n32f_context_id
        else s.n32c_context_id;
    selected_jwe_cipher = or_kept s.selected_jwe_cipher rsp_obj.selected_jwe_cipher_suite;
    selected_jws_cipher = or_kept s.selected_jws_cipher rsp_obj.selected_jws_cipher_suite;
  }

  unfoldable pub handle_exchange_params_response : Handshake → J.Json → Handshake × Bool
  handle_exchange_params_response s resp_data =
      if not (validate_handshake_request J resp_data)
      then (s, false)
      else elim (M.sec_param_exch_rsp.from_json resp_data) [
        | none ↦ (s, false)
        | some rsp_obj ↦ (establish s rsp_obj, true)
      ]
