-- ===== src/App/EndToEnd.antt =====
-- A service request all the way: from the SEPP of the consumer over N32-f to the SEPP of the
-- producer, to the network function there, and back.
use oai_cn5g_sepp.Base.{
  ◌≡◌, ◌≢◌, ◌≤◌, ◌<◌, sym, ap, ◌∙◌, true, some, [], ◌++◌, Bytes, codes, length, arith,
}
use oai_cn5g_sepp.Search.{Lacks}
use oai_cn5g_sepp.Json.{JsonLib}
use oai_cn5g_sepp.Models.{Models, FlatJweJson, IsCodec}
use oai_cn5g_sepp.Http.{Method, Client, HttpRequest, HttpResponse, post}
use oai_cn5g_sepp.App.Asked.{
  name_of, name_of-NoSpace, name_of-ne-nil, nf_answer, local_response-nf_answer,
}
use oai_cn5g_sepp.App.Answered.{Passes, lookup-addressed}
use oai_cn5g_sepp.Handshake.{Handshake}
use oai_cn5g_sepp.Result.{ok}
use oai_cn5g_sepp.Jose.{Bio, Evp}
use oai_cn5g_sepp.Jose.RoundTrip.{IsBase64, IsGcm}
use oai_cn5g_sepp.Forward.{Forward}
use oai_cn5g_sepp.Forward.Aad.{no_aad}
use oai_cn5g_sepp.Forward.Aad.Lines.{NoSpace}
use oai_cn5g_sepp.Forward.Aad.RoundTrip.{received, addressed}
use oai_cn5g_sepp.Forward.Target.{keep_headers}
use oai_cn5g_sepp.Forward.Reformat.{context_or_dummy}
use oai_cn5g_sepp.Forward.Success.{IsKey, IsWorking, build_reformatted_data-ok}
use oai_cn5g_sepp.Forward.Kept.{keep_headers-ProperNames}
use oai_cn5g_sepp.Forward.Transparency.{unwrap_request-create}
use oai_cn5g_sepp.Nbi.{handle_n32f_process}
use oai_cn5g_sepp.App.{Config, App}
use oai_cn5g_sepp.App.Responses.{unwrap_response-build}
use oai_cn5g_sepp.App.Service.{handle_nf_service_request}
use oai_cn5g_sepp.App.Producer.{
  received_request, received_response, local_response, process_message-ok, handle_n32f_process-ok,
}
use oai_cn5g_sepp.App.Consumer.{
  create_n32f_process_request-eq-to_json, handle_nf_service_request-ok,
}

-- What the libraries around a SEPP have to do.
pub record IsLawful {J : JsonLib} (M : Models J) (evp : Evp) (bio : Bio) (client : Client J)
    : Type 0 where
  pub gcm : IsGcm evp
  pub working : IsWorking evp
  pub base64 : IsBase64 bio
  pub request_codec : IsCodec J M.reformatted_req
  pub response_codec : IsCodec J M.reformatted_rsp
  pub context_codec : IsCodec J M.context_info
  pub request-valid : (m : FlatJweJson J.Json) → M.reformatted_req.validate m ≡ true
  pub parse-dump : (j : J.Json) → J.parse (J.dump j) ≡ some j
  pub body-prepare : (url body : Bytes) → (client.prepare_json_request url body).body ≡ body

module _ {J : JsonLib} (M : Models J) (evp : Evp) (bio : Bio) (client local : Client J)
    (cfg cfg' : Config) (what : Bytes) (lawful : IsLawful M evp bio client) where
  -- The client reaches the server of the producer's SEPP, whose application is `b`.
  abbrev pub Connected : Bytes → App → Type 0
  Connected iv b =
      (r : HttpRequest)
      → client.send post r
        ≡ received_response
            (handle_n32f_process M cfg' evp bio local what (some iv) (received_request r)
              (some b)).0

  -- The client reaches it with the requests to n32f-process under a URL.
  abbrev pub Reaches : Bytes → Bytes → App → Type 0
  Reaches url iv b =
      (body : Bytes)
      → let r = client.prepare_json_request (url ++ codes "/n32f-forward/v1/n32f-process") body in
        client.send post r
        ≡ received_response
            (handle_n32f_process M cfg' evp bio local what (some iv) (received_request r)
              (some b)).0

  handle_nf_service_request-prins_raw :
      (a b : App) (s : Handshake) (f g : Forward) (url iv iv' m p authority body : Bytes)
      → s.selected_sec_capability ≡ codes "PRINS"
      → f.security_capability ≡ codes "PRINS"
      → g.security_capability ≡ codes "PRINS"
      → g.enc_key ≡ f.enc_key
      → IsKey f.enc_key
      → length iv ≡ 12
      → length iv' ≡ 12
      → NoSpace m
      → NoSpace p
      → m ≢ []
      → p ≢ []
      → authority ≢ []
      → Lacks b'\n' authority
      → Reaches url iv' (record b { forward = some g })
      → let response = local_response local cfg'.nrf_url m p authority body in
        100 ≤ response.status_code
        → response.status_code < 600
        → handle_nf_service_request M evp bio client cfg
            (record a { handshake = some s; forward = some f; remote_sepp_url = some url })
            (some iv)
            authority
            p
            m
            body
          ≡ ok (record {
            status_code = response.status_code;
            body = response.body;
            headers =
                (received (keep_headers response.headers []) (addressed authority no_aad)).headers;
          })
  handle_nf_service_request-prins_raw a b s f g url iv iv' m p authority body prins prins' prins''
        key k n n' hm hp nm np na ha connected lo hi =
      let not_tls : f.security_capability ≢ codes "TLS" =
        λ e. omega (arith, ap length (sym prins' ∙ e)) in
      let (sent, built) =
        build_reformatted_data-ok M evp bio lawful.working f iv m p authority body
          (context_or_dummy f.n32f_context_id) [] k n in
      let created =
        create_n32f_process_request-eq-to_json M evp bio client cfg f iv m p authority body not_tls
          built in
      let (message, read, context, unwrapped) =
        unwrap_request-create M lawful.gcm lawful.base64 lawful.request_codec lawful.context_codec f
          g iv m p authority body not_tls key n hm hp nm np na ha created in
      let req_data = M.reformatted_req.to_json sent in
      let response = local_response local cfg'.nrf_url m p authority body in
      let (reply, replied, processed) =
        process_message-ok M bio lawful.working local cfg'.nrf_url g iv' m p authority body
          (context_or_dummy f.n32f_context_id) req_data message (rw key k) n' context unwrapped
          (ground (arith, lo)) in
      let request =
        client.prepare_json_request (url ++ codes "/n32f-forward/v1/n32f-process")
          (J.dump req_data) in
      let (status, text) =
        handle_n32f_process-ok M evp bio local cfg' what b g iv' request req_data message reply
          (ap J.parse (lawful.body-prepare _ _) ∙ lawful.parse-dump req_data)
          (lawful.request_codec.is_null-to_json sent) (lawful.request_codec.is_object-to_json sent)
          read (lawful.request-valid message) prins'' processed in
      handle_nf_service_request-ok M evp bio client cfg a s f url iv m p authority body req_data
        reply _ prins created (ap (λ r. r.status_code) (connected (J.dump req_data)) ∙ status)
        (ap (λ r. J.parse r.body) (connected (J.dump req_data))
          ∙ (ap J.parse text ∙ lawful.parse-dump _))
        (lawful.response_codec.from_json-to_json reply)
        (rw (← key) (
          unwrap_response-build M lawful.gcm lawful.base64 g iv' p authority response.body
            (context_or_dummy f.n32f_context_id) response.status_code
            (keep_headers response.headers []) n' lo hi hp np ha
            (keep_headers-ProperNames response.headers [] tt) replied))

  pub handle_nf_service_request-prins_at :
      (a b : App) (s : Handshake) (f g : Forward) (url iv iv' : Bytes) (m : Method)
      (p authority body : Bytes)
      → s.selected_sec_capability ≡ codes "PRINS"
      → f.security_capability ≡ codes "PRINS"
      → g.security_capability ≡ codes "PRINS"
      → g.enc_key ≡ f.enc_key
      → IsKey f.enc_key
      → length iv ≡ 12
      → length iv' ≡ 12
      → NoSpace p
      → p ≢ []
      → authority ≢ []
      → Lacks b'/' authority
      → Lacks b'\n' authority
      → Reaches url iv' (record b { forward = some g })
      → let answer = nf_answer local m authority p body in
        100 ≤ answer.status_code
        → answer.status_code < 600
        → Passes answer authority (
            handle_nf_service_request M evp bio client cfg
              (record a { handshake = some s; forward = some f; remote_sepp_url = some url })
              (some iv)
              authority
              p
              (name_of m)
              body)
  handle_nf_service_request-prins_at a b s f g url iv iv' m p authority body prins prins' prins''
        key k n n' hp np na slash ha connected lo hi =
      let asked = local_response-nf_answer local cfg'.nrf_url m authority p body slash in
      let answer = nf_answer local m authority p body in
      let raw =
        handle_nf_service_request-prins_raw a b s f g url iv iv' (name_of m) p authority body prins
          prins' prins'' key k n n' (name_of-NoSpace m) hp (name_of-ne-nil m) np na ha connected
          (rw asked lo) (rw asked hi) in
      (
        _,
        raw
            ∙ ap
                (λ (r : HttpResponse). ok (record {
                  status_code = r.status_code;
                  body = r.body;
                  headers =
                      (received (keep_headers r.headers []) (addressed authority no_aad)).headers;
                }))
                asked,
        λ k'. lookup-addressed answer.headers authority k' na slash,
      )

  -- A service request with PRINS is transparent. Let the two SEPPs hold one key, of sixteen bytes,
  -- or none, and both have PRINS selected, let the client of the first reach the n32f-process
  -- handler of the second, and let the libraries be lawful; let the method be GET, POST, PUT, DELETE
  -- or PATCH, the path free of blanks and not empty, the authority not empty and without a slash or
  -- a line break. Let the network function at the producer, asked with plain HTTP at this authority
  -- and path by this method and with this body, answer with a status from 100 to 599. Then the
  -- application of the first SEPP returns a response with the status and the body of that answer; of
  -- its headers, the response has content-type, location and retry-after as the answer has them,
  -- where they are of one line, besides those only the authority and the API root that names it.
  pub handle_nf_service_request-prins :
      (a b : App) (s : Handshake) (f g : Forward) (url iv iv' : Bytes) (m : Method)
      (p authority body : Bytes)
      → s.selected_sec_capability ≡ codes "PRINS"
      → f.security_capability ≡ codes "PRINS"
      → g.security_capability ≡ codes "PRINS"
      → g.enc_key ≡ f.enc_key
      → IsKey f.enc_key
      → length iv ≡ 12
      → length iv' ≡ 12
      → NoSpace p
      → p ≢ []
      → authority ≢ []
      → Lacks b'/' authority
      → Lacks b'\n' authority
      → Connected iv' (record b { forward = some g })
      → let answer = nf_answer local m authority p body in
        100 ≤ answer.status_code
        → answer.status_code < 600
        → Passes answer authority (
            handle_nf_service_request M evp bio client cfg
              (record a { handshake = some s; forward = some f; remote_sepp_url = some url })
              (some iv)
              authority
              p
              (name_of m)
              body)
  handle_nf_service_request-prins a b s f g url iv iv' m p authority body prins prins' prins'' key k
        n n' hp np na slash ha connected lo hi =
      handle_nf_service_request-prins_at a b s f g url iv iv' m p authority body prins prins'
        prins'' key k n n' hp np na slash ha (λ text. connected _) lo hi
