-- ===== src/App/Producer.antt =====
-- How the producer's SEPP answers a message that it can read, from its server down to the network
-- function (sepp_n32f_forward.cpp, sepp-http2-nbi-server.cpp).
use oai_cn5g_sepp.Base.{
  ◌≡◌, refl, true, false, some, [], ◌∷◌, Bytes, codes, ◌==◌, ==-true, length, ◌=?◌,
}
use oai_cn5g_sepp.Decimal.{to_string}
use oai_cn5g_sepp.Json.{JsonLib}
use oai_cn5g_sepp.Models.{Models, FlatJweJson}
use oai_cn5g_sepp.Http.{Client, HttpRequest, HttpResponse, method_of, force_http}
use oai_cn5g_sepp.Result.{ok}
use oai_cn5g_sepp.Jose.{Bio, Evp}
use oai_cn5g_sepp.Forward.{Forward, NfHttpRequest}
use oai_cn5g_sepp.Forward.Url.{extract_plmn_from_path}
use oai_cn5g_sepp.Forward.Target.{
  keep_headers, target_request, target_answer, send_http_request_to_target,
}
use oai_cn5g_sepp.Forward.Reformat.{build_reformatted_data}
use oai_cn5g_sepp.Forward.Process.{
  context_of, process_reply, unwrap_request, process_message, handle_n32f_process_post,
}
use oai_cn5g_sepp.Forward.Success.{IsKey, IsWorking, build_reformatted_data-ok}
use oai_cn5g_sepp.Nbi.{process_post_request, answer_post, handle_n32f_process}
use oai_cn5g_sepp.App.Handlers
use oai_cn5g_sepp.Server.{ServerRequest, ServerResponse, receive}
use oai_cn5g_sepp.App.{Config, App}

-- A request of the client, as the server of the other side receives it.
abbrev pub received_request : HttpRequest → ServerRequest
received_request r = record {
  method = codes "POST";
  path = [];
  raw_query = [];
  headers = [];
  chunks = r.body ∷ [];
}

-- A response of a server, as the client of the other side receives it.
abbrev pub received_response : ServerResponse → HttpResponse
received_response r = record { status_code = r.status; body = r.body; headers = r.headers }

-- The request that the producer's SEPP makes of a message.
abbrev pub relayed : JsonLib → Bytes → Bytes → Bytes → Bytes → NfHttpRequest
relayed J m p authority body = record {
  method = m;
  path = p;
  authority = authority;
  headers =
      (codes "authority", authority) ∷ (codes "3gpp-sbi-target-apiroot", force_http authority) ∷ [];
  body = body;
  mcc = (extract_plmn_from_path J p ([], [])).0;
  mnc = (extract_plmn_from_path J p ([], [])).1;
}

-- What the network function of the producer answers to a service request.
abbrev pub local_response :
    {J : JsonLib} → Client J → Bytes → Bytes → Bytes → Bytes → Bytes → HttpResponse
local_response {J} local nrf_url m p authority body =
    local.send (method_of m)
      (target_request local nrf_url authority p body (relayed J m p authority body).headers)

module _ {J : JsonLib} (M : Models J) {evp : Evp} (bio : Bio) (working : IsWorking evp)
    (local : Client J) (nrf_url : Bytes) where
  -- The reply of the producer's SEPP to a message that it can read.
  pub process_message-ok :
      (g : Forward) (iv m p authority body context_id : Bytes) (req_data : J.Json)
      (message : FlatJweJson J.Json)
      → IsKey g.enc_key
      → length iv ≡ 12
      → context_of M req_data message ≡ ok context_id
      → unwrap_request M evp bio g message ≡ ok (relayed J m p authority body)
      → let response = local_response local nrf_url m p authority body in
        (response.status_code =? 0) ≡ false
        → (reply : FlatJweJson J.Json) × (build_reformatted_data M evp bio g
              (some iv)
              (to_string response.status_code)
              p
              authority
              response.body
              context_id
              (keep_headers response.headers [])
            ≡ ok reply)
          × (process_message M evp bio local nrf_url g (some iv) req_data message ≡ ok reply)
  unfolding process_message send_http_request_to_target target_answer
  process_message-ok g iv m p authority body context_id req_data message k n c u z =
      let response = local_response local nrf_url m p authority body in
      let (reply, built) =
        build_reformatted_data-ok M evp bio working g iv (to_string response.status_code) p
          authority response.body context_id (keep_headers response.headers []) k n in
      (reply, built, rw (c, u, z) built)

module _ {J : JsonLib} (M : Models J) (evp : Evp) (bio : Bio) (local : Client J) (cfg : Config)
    (what : Bytes) where
  handle_n32f_process_post-ok :
      (g : Forward) (iv : Bytes) (req_data : J.Json) (message reply : FlatJweJson J.Json)
      → J.is_null req_data ≡ false
      → J.is_object req_data ≡ true
      → M.reformatted_req.from_json req_data ≡ some message
      → g.security_capability ≡ codes "PRINS"
      → process_message M evp bio local cfg.nrf_url g (some iv) req_data message ≡ ok reply
      → handle_n32f_process_post M evp bio local cfg.nrf_url g (some iv) req_data J.null []
        ≡ process_reply M g J.null [] (ok reply)
  unfolding handle_n32f_process_post
  handle_n32f_process_post-ok g iv req_data message reply n o read prins done =
      rw (n, o, ==-true prins, read, done) refl

  -- The server of the producer's SEPP passes on a reply to a message that it accepts.
  pub handle_n32f_process-ok :
      (b : App) (g : Forward) (iv : Bytes) (r : HttpRequest) (req_data : J.Json)
      (message reply : FlatJweJson J.Json)
      → J.parse r.body ≡ some req_data
      → J.is_null req_data ≡ false
      → J.is_object req_data ≡ true
      → M.reformatted_req.from_json req_data ≡ some message
      → M.reformatted_req.validate message ≡ true
      → g.security_capability ≡ codes "PRINS"
      → process_message M evp bio local cfg.nrf_url g (some iv) req_data message ≡ ok reply
      → let response =
          (handle_n32f_process M cfg evp bio local what
            (some iv)
            (received_request r)
            (some (record b { forward = some g }))).0 in
        (response.status ≡ 200) × (response.body ≡ J.dump (M.reformatted_rsp.to_json reply))
  unfolding handle_n32f_process process_post_request answer_post receive
      Handlers.handle_n32f_process ◌==◌
  handle_n32f_process-ok b g iv r req_data message reply parsed n o read valid prins done =
      rw
        (
          parsed,
          read,
          valid,
          handle_n32f_process_post-ok g iv req_data message reply n o read prins done,
        )
        (refl, refl)
