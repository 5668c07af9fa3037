-- ===== src/Handshake/Agreement.antt =====
-- Two SEPPs that run the procedures with each other: what they agree on.
use oai_cn5g_sepp.Base.{ℕ, ◌≡◌, ◌≢◌, refl, Bool, true, some, Bytes, [], ◌∷◌, codes, arith, ==_iff}
use oai_cn5g_sepp.Json.{JsonLib}
use oai_cn5g_sepp.Models.{Models, IsCodec}
use oai_cn5g_sepp.Handler.{Outcome, returned}
use oai_cn5g_sepp.Handshake.{Handshake}
use oai_cn5g_sepp.Handshake.Parameters.{
  context_or_new, create_exchange_params_req, handle_exchange_params,
  handle_exchange_params_response,
}
use oai_cn5g_sepp.Handshake.Termination.{
  create_n32f_terminate_req, handle_n32f_terminate_req, handle_n32f_terminate_response,
}

-- What both ends hold after a parameter exchange.
pub record Agreed (initiator responder : Handshake) : Type 0 where
  pub context : initiator.n32c_context_id ≡ responder.n32c_context_id
  pub context-ne-nil : initiator.n32c_context_id ≢ []
  pub jwe : initiator.selected_jwe_cipher ≡ responder.selected_jwe_cipher
  pub jws : initiator.selected_jws_cipher ≡ responder.selected_jws_cipher
  jwe_is : responder.selected_jwe_cipher ≡ codes "A128GCM"
  jws_is : responder.selected_jws_cipher ≡ codes "ES256"

-- A SEPP that asks for a context has one: its own, or a new one.
context_or_new-cons :
    (uuid context_id : Bytes)
    → uuid ≢ []
    → (c : ℕ) × (cs : Bytes) × (context_or_new uuid context_id ≡ c ∷ cs)
context_or_new-cons [] [] ne = absurd (ne refl)
context_or_new-cons (u ∷ us) [] ne = (u, us, refl)
context_or_new-cons uuid (c ∷ cs) ne = (c, cs, refl)

module _ (J : JsonLib) (M : Models J) (nbi_url : Bytes) where
  -- A parameter exchange between an initiator that draws `uuid` if it has no context, and a
  -- responder: both states, and what the two handlers return.
  abbrev pub exchange_params :
      Bytes → Bytes → Handshake → Handshake → Handshake × Handshake × Outcome × Bool
  exchange_params uuid uuid' initiator responder =
      let (i, req) = create_exchange_params_req J M uuid initiator in
      let h = handle_exchange_params J M nbi_url uuid' responder req J.null [] in
      let (i', established) = handle_exchange_params_response J M i h.resp_data in
      (i', h.state, h.outcome, established)

  -- Where the two model classes read back what they write and the initiator draws a UUID that is
  -- not empty: a parameter exchange succeeds at both ends, whatever context, ciphers and identity
  -- they had before, and leaves both with the same context, which is not empty, and the same two
  -- ciphers, A128GCM and ES256.
  pub exchange_params-Agreed :
      IsCodec J M.sec_param_exch_req
      → IsCodec J M.sec_param_exch_rsp
      → (uuid uuid' : Bytes) (initiator responder : Handshake) → uuid ≢ []
      → let r = exchange_params uuid uuid' initiator responder in
        (r.2 ≡ returned true) × (r.3 ≡ true) × Agreed r.0 r.1
  unfolding create_exchange_params_req handle_exchange_params handle_exchange_params_response
  exchange_params-Agreed q r uuid uuid' initiator responder ne =
      let (c, cs, e) = context_or_new-cons uuid initiator.n32c_context_id ne in
      rw
        (
          e, q.is_null-to_json, q.is_object-to_json, q.from_json-to_json, r.is_null-to_json,
          r.is_object-to_json, r.from_json-to_json,
        )
        (
          refl,
          refl,
          record {
            context = refl;
            context-ne-nil = λ h. cc;
            jwe = refl;
            jws = refl;
            jwe_is = refl;
            jws_is = refl;
          },
        )

  -- A termination between an initiator with a context and its peer.
  abbrev pub terminate : J.Json → Handshake → Handshake → Handshake × Handshake × Outcome
  terminate req initiator responder =
      let h = handle_n32f_terminate_req J M responder req J.null [] in
      ((handle_n32f_terminate_response J initiator h.resp_data).0, h.state, h.outcome)

  -- Where the context class reads back what it writes, an initiator that holds a context asks for
  -- its termination and the responder holds the same one: the request is made and accepted, and
  -- afterwards neither holds a context.
  pub terminate-same :
      IsCodec J M.context_info
      → (initiator responder : Handshake) → initiator.n32c_context_id ≢ []
      → responder.n32c_context_id ≡ initiator.n32c_context_id
      → (req : J.Json) × (create_n32f_terminate_req J M initiator ≡ some req)
        × (terminate req initiator responder ≡ (
          record initiator { n32c_context_id = [] },
          record responder { n32c_context_id = [] },
          returned true,
        ))
  unfolding create_n32f_terminate_req handle_n32f_terminate_req handle_n32f_terminate_response
  terminate-same c initiator responder ne e =
      let req = M.context_info.to_json (record { n32f_context_id = initiator.n32c_context_id }) in
      (
        req,
        ground arith,
        rw (c.is_null-to_json, c.is_object-to_json, c.from_json-to_json)
            (ground (arith, ==_iff responder.n32c_context_id initiator.n32c_context_id)),
      )

  -- Where the context class reads back what it writes, and the initiator and the responder hold
  -- two different contexts: the request for termination is made and accepted all the same; the
  -- initiator holds no context afterwards, and the responder is unchanged.
  pub terminate-other :
      IsCodec J M.context_info
      → (initiator responder : Handshake) → initiator.n32c_context_id ≢ []
      → responder.n32c_context_id ≢ []
      → responder.n32c_context_id ≢ initiator.n32c_context_id
      → (req : J.Json) × (create_n32f_terminate_req J M initiator ≡ some req)
        × (terminate req initiator responder
            ≡ (record initiator { n32c_context_id = [] }, responder, returned true))
  unfolding create_n32f_terminate_req handle_n32f_terminate_req handle_n32f_terminate_response
  terminate-other c initiator responder ne k d =
      let req = M.context_info.to_json (record { n32f_context_id = initiator.n32c_context_id }) in
      (
        req,
        ground arith,
        rw (c.is_null-to_json, c.is_object-to_json, c.from_json-to_json)
            (ground (arith, ==_iff responder.n32c_context_id initiator.n32c_context_id)),
      )
