-- ===== src/Handshake/Termination.antt =====
-- The termination of an N32-f context, and the error report.
use oai_cn5g_sepp.Base.{
  Bool, true, false, not, ◌||◌, Option, none, some, [], codes, is_empty, ◌==◌, if◌then◌else◌,
}
use oai_cn5g_sepp.Dict.{Headers, insert}
use oai_cn5g_sepp.Json.{JsonLib}
use oai_cn5g_sepp.Models.{Models, N32fContextInfo}
use oai_cn5g_sepp.Handler.{Handled}
use oai_cn5g_sepp.Handshake.{
  Handshake, sbi_target_api_root_header, header_value_yes, validate_handshake_request, answer,
}

module _ (J : JsonLib) (M : Models J) where
  -- Both overloads; `none` is false.
  unfoldable pub create_n32f_terminate_req : Handshake → Option J.Json
  create_n32f_terminate_req s =
      if is_empty s.n32c_context_id
      then none
      else some (M.context_info.to_json (record { n32f_context_id = s.n32c_context_id }))

  -- The handler, once the request is parsed.
  unfoldable handle_context_info : Handshake → N32fContextInfo → Headers → Handled J Handshake
  handle_context_info s term_req resp_headers =
      answer J
        (if s.n32c_context_id == term_req.n32f_context_id || is_empty s.n32c_context_id
          then record s { n32c_context_id = [] }
          else s)
        (M.context_info.to_json (record { n32f_context_id = term_req.n32f_context_id }))
        (insert sbi_target_api_root_header header_value_yes resp_headers) true

  unfoldable pub handle_n32f_terminate_req :
      Handshake → J.Json → J.Json → Headers → Handled J Handshake
  unfolding handle_context_info
  handle_n32f_terminate_req s req_data resp_data resp_headers =
      if not (validate_handshake_request J req_data)
      then answer J s resp_data resp_headers false
      else elim (M.context_info.from_json req_data) [
        | none ↦ answer J s resp_data resp_headers false
        | some term_req ↦ handle_context_info s term_req resp_headers
      ]

module _ (J : JsonLib) where
  -- An empty body, one that does not parse and one that does all clear the context.
  unfoldable pub handle_n32f_terminate_response : Handshake → J.Json → Handshake × Bool
  handle_n32f_terminate_response s resp_data =
      if J.is_null resp_data || J.empty resp_data
      then (record s { n32c_context_id = [] }, true)
      else (record s { n32c_context_id = [] }, true)

  unfoldable pub handle_n32f_error : Handshake → J.Json → J.Json → Headers → Handled J Handshake
  handle_n32f_error s req_data resp_data resp_headers =
      if not (validate_handshake_request J req_data)
      then answer J s resp_data resp_headers false
      else answer J s (J.insert resp_data (codes "acknowledged") (J.bool true))
          (insert sbi_target_api_root_header header_value_yes resp_headers) true
