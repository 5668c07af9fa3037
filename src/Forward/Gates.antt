-- ===== src/Forward/Gates.antt =====
-- Which requests the two forwarding endpoints accept.
use mathlib.Core.Path.{subst}
use oai_cn5g_sepp.Base.{
  ◌≡◌, ◌≢◌, refl, true, not, none, some, Option, [], ◌∷◌, Bytes, codes, ◌==◌, ==_iff, is_empty,
  arith, Bool-cases, inl, inr,
}
use oai_cn5g_sepp.Dict.{Headers}
use oai_cn5g_sepp.Json.{JsonLib}
use oai_cn5g_sepp.Models.{Models, FlatJweJson}
use oai_cn5g_sepp.Handler.{returned, Handled}
use oai_cn5g_sepp.Http.{Client}
use oai_cn5g_sepp.Jose.{Bio, Evp}
use oai_cn5g_sepp.Result.{
  Result, ok, fail, thrown as thrown_result, >>=-eq-ok, require, require-eq-ok,
}
use oai_cn5g_sepp.Forward.{Forward, validate_n32f_message, NfHttpRequest}
use oai_cn5g_sepp.Forward.Process.{
  named_context, context_of, process_reply, unwrap_request, process_message,
  handle_n32f_process_post,
}

not-empty : (s : Bytes) → not (is_empty s) ≡ true → s ≢ []
not-empty [] h = absurd (ground (arith, h))
not-empty (c ∷ s) h = λ e. cc

ok-eq : {A : Type 0} {a b : A} → ◌≡◌ {A = Result A} (ok a) (ok b) → a ≡ b
ok-eq h = cc

module _ {J : JsonLib} (M : Models J) where
  context_of-ne-nil :
      (req_data : J.Json) (message : FlatJweJson J.Json) {context_id : Bytes}
      → context_of M req_data message ≡ ok context_id
      → context_id ≢ []
  unfolding context_of
  context_of-ne-nil req_data message h =
      let (c, _, h₁) = >>=-eq-ok (named_context M req_data message) _ h in
      let (_, full, h₂) = >>=-eq-ok (require (not (is_empty c))) _ h₁ in
      subst (λ i. i ≢ []) (ok-eq h₂) (not-empty c (require-eq-ok _ full))

  process_reply-true :
      (s : Forward) (resp_data : J.Json) (resp_headers : Headers) (r : Result (FlatJweJson J.Json))
      → (process_reply M s resp_data resp_headers r).outcome ≡ returned true
      → (message : FlatJweJson J.Json) × (r ≡ ok message)
  process_reply-true s resp_data resp_headers (ok message) h = (message, refl)
  process_reply-true s resp_data resp_headers fail h = absurd (ground (arith, h))
  process_reply-true s resp_data resp_headers thrown_result h = absurd (ground (arith, h))

  module _ (evp : Evp) (bio : Bio) (client : Client J) (nrf_url : Bytes) where
    -- What has to hold for a message to be processed.
    pub record Processed (s : Forward) (req_data : J.Json) : Type 0 where
      pub prins : s.security_capability ≡ codes "PRINS"
      pub message : FlatJweJson J.Json
      pub parsed : M.reformatted_req.from_json req_data ≡ some message
      pub context_id : Bytes
      pub context : context_of M req_data message ≡ ok context_id
      pub context-ne-nil : context_id ≢ []
      pub request : NfHttpRequest
      pub unwrapped : unwrap_request M evp bio s message ≡ ok request

    process_message-Processed :
        (s : Forward) (random : Option Bytes) (req_data : J.Json) (message : FlatJweJson J.Json)
        {reply : FlatJweJson J.Json}
        → s.security_capability ≡ codes "PRINS"
        → M.reformatted_req.from_json req_data ≡ some message
        → process_message M evp bio client nrf_url s random req_data message ≡ ok reply
        → Processed s req_data
    unfolding process_message
    process_message-Processed s random req_data message prins parsed h =
        let (context_id, context, h₁) = >>=-eq-ok (context_of M req_data message) _ h in
        let (request, unwrapped, _) = >>=-eq-ok (unwrap_request M evp bio s message) _ h₁ in
        record {
          prins = prins;
          message = message;
          parsed = parsed;
          context_id = context_id;
          context = context;
          context-ne-nil = context_of-ne-nil req_data message context;
          request = request;
          unwrapped = unwrapped;
        }

    -- A request to n32f-process is accepted only with the capability PRINS, and only if it parses
    -- as a message that names a context, which is not empty, and holds a request that can be read.
    pub handle_n32f_process_post-Processed :
        (s : Forward) (random : Option Bytes) (req_data resp_data : J.Json) (resp_headers : Headers)
        → (handle_n32f_process_post M evp bio client nrf_url s random req_data resp_data
            resp_headers).outcome
          ≡ returned true
        → Processed s req_data
    unfolding handle_n32f_process_post
    handle_n32f_process_post-Processed s random req_data resp_data resp_headers h =
        elim (Bool-cases (validate_n32f_message J req_data)) [
          | inr v ↦ absurd (ground (arith, rw v at h))
          | inl v ↦ elim (Bool-cases (s.security_capability == codes "PRINS")) [
            | inr e ↦ absurd (ground (arith, rw (v, e) at h))
            | inl e ↦
                go (M.reformatted_req.from_json req_data) refl
                  ((==_iff s.security_capability (codes "PRINS")).0 e) (rw (v, e) at h)
          ]
        ]
      where
        reply : Option (FlatJweJson J.Json) → Handled J Forward
        reply none = process_reply M s resp_data resp_headers fail
        reply (some message) =
            process_reply M s resp_data resp_headers
              (process_message M evp bio client nrf_url s random req_data message)

        go :
            (o : Option (FlatJweJson J.Json))
            → M.reformatted_req.from_json req_data ≡ o
            → s.security_capability ≡ codes "PRINS"
            → (reply o).outcome ≡ returned true
            → Processed s req_data
        go none p e k = absurd (ground (arith, k))
        go (some message) p e k =
            let (_, done) = process_reply-true s resp_data resp_headers _ k in
            process_message-Processed s random req_data message e p done
