-- ===== src/App/Consumer.antt =====
-- How the consumer's SEPP sends a service request over PRINS and takes the response out of the
-- reply (sepp_app.cpp).
use oai_cn5g_sepp.Base.{◌≡◌, ◌≢◌, refl, some, [], Bytes, codes, ==-true, ==-false}
use oai_cn5g_sepp.Json.{JsonLib}
use oai_cn5g_sepp.Models.{Models, FlatJweJson}
use oai_cn5g_sepp.Http.{Client}
use oai_cn5g_sepp.Handshake.{Handshake}
use oai_cn5g_sepp.Result.{ok}
use oai_cn5g_sepp.Jose.{Bio, Evp}
use oai_cn5g_sepp.Forward.{Forward, NfHttpResponse}
use oai_cn5g_sepp.Forward.Reformat.{
  build_reformatted_data, context_or_dummy, create_n32f_process_request,
}
use oai_cn5g_sepp.App.{Config, App}
use oai_cn5g_sepp.App.Procedures.{post_json}
use oai_cn5g_sepp.App.Service.{
  handle_nf_service_request, handle_nf_service_request_prins, read_prins_response, unwrap_response,
}

module _ {J : JsonLib} (M : Models J) (evp : Evp) (bio : Bio) (client : Client J)
    (cfg : Config) where
  pub create_n32f_process_request-eq-to_json :
      (f : Forward) (iv m p authority body : Bytes) {message : FlatJweJson J.Json}
      → f.security_capability ≢ codes "TLS"
      → build_reformatted_data M evp bio f
          (some iv)
          m
          p
          authority
          body
          (context_or_dummy f.n32f_context_id)
          []
        ≡ ok message
      → create_n32f_process_request M evp bio f (some iv) authority p m body
        ≡ ok (M.reformatted_req.to_json message)
  unfolding create_n32f_process_request
  create_n32f_process_request-eq-to_json f iv m p authority body ne built =
      rw (==-false ne, built) refl

  -- The application of the consumer's SEPP takes the response out of a reply with the status 200.
  pub handle_nf_service_request-ok :
      (a : App) (s : Handshake) (f : Forward) (url iv m p authority body : Bytes)
      (req_data : J.Json) (reply : FlatJweJson J.Json) (r : NfHttpResponse)
      → s.selected_sec_capability ≡ codes "PRINS"
      → create_n32f_process_request M evp bio f (some iv) authority p m body ≡ ok req_data
      → let response = post_json M client url (codes "/n32f-forward/v1/n32f-process") req_data in
        response.status_code ≡ 200
        → J.parse response.body ≡ some (M.reformatted_rsp.to_json reply)
        → M.reformatted_rsp.from_json (M.reformatted_rsp.to_json reply) ≡ some reply
        → unwrap_response M evp bio f.enc_key reply ≡ ok r
        → handle_nf_service_request M evp bio client cfg
            (record a { handshake = some s; forward = some f; remote_sepp_url = some url })
            (some iv)
            authority
            p
            m
            body
          ≡ ok r
  unfolding handle_nf_service_request handle_nf_service_request_prins read_prins_response
  handle_nf_service_request-ok a s f url iv m p authority body req_data reply r prins created status
        parsed read unwrapped =
      rw (==-true prins, created, status, parsed, read, unwrapped) refl
