-- ===== src/Nbi.antt =====
-- `sepp_http2_nbi_server`, the server for the remote SEPP (src/api-server/
-- sepp-http2-nbi-server.cpp): its handlers, from a request and the application to a response and
-- the application. `what` stands for the text of an exception.
pub mod Routes
pub mod Isolation
pub mod Statuses
use oai_cn5g_sepp.Base.{
  ℕ, Bool, true, false, not, ◌&&◌, Option, none, some, List, [], ◌∷◌, ◌++◌, Bytes, codes, ◌==◌, map,
  if◌then◌else◌,
}
use oai_cn5g_sepp.Dict.{Headers, lookup}
use oai_cn5g_sepp.Json.{JsonLib, Codec}
use oai_cn5g_sepp.Json.Members.{set_all}
use oai_cn5g_sepp.Models.{Models}
use oai_cn5g_sepp.Handler.{Outcome, returned, thrown, Handled}
use oai_cn5g_sepp.Http.{Client}
use oai_cn5g_sepp.Jose.{Bio, Evp}
use oai_cn5g_sepp.Handshake.Messages.{
  Request, exchange_capability, exchange_params, n32f_terminate, n32f_error,
}
use oai_cn5g_sepp.Server.{
  ServerRequest, ServerResponse, json_headers, problem_headers, receive, send_problem_details,
}
use oai_cn5g_sepp.App.{Config, App}
use oai_cn5g_sepp.App.Handlers
use oai_cn5g_sepp.App.Handlers.{handle_n32c}

module _ (J : JsonLib) where
  -- `AppHandlerFunc`
  abbrev pub AppHandler : Type 0
  AppHandler = App → J.Json → Handled J App

  -- The application's answer as a response.
  unfoldable pub answer_post : Bytes → Bytes → Bytes → Bool → Handled J App → ServerResponse
  unfolding send_problem_details
  answer_post what failure_cause failure_detail allow_no_content h = elim h.outcome [
    | thrown ↦ send_problem_details J 400 (codes "400: Bad Request") (codes "MALFORMED_JSON") what
    | returned done ↦
        if done
        then (if allow_no_content && J.empty h.resp_data
            then record { status = 204; headers = json_headers; body = [] }
            else record {
              status = 200;
              headers = json_headers ++ h.resp_headers;
              body = J.dump h.resp_data;
            })
        else send_problem_details J 400 (codes "400: Bad Request") failure_cause failure_detail
  ]

  unfoldable pub process_post_request :
      Bytes
      → AppHandler
      → Bytes
      → Bytes
      → Bool
      → ServerRequest
      → Option App
      → ServerResponse × Option App
  unfolding answer_post receive
  process_post_request what app_handler failure_cause failure_detail allow_no_content req inst =
      if not (req.method == codes "POST")
      then (
        send_problem_details J 405 (codes "Method Not Allowed") (codes "ONLY_POST_SUPPORTED")
            (codes "Endpoint supports HTTP POST only"),
        inst,
      )
      else elim inst [
        | none ↦ (
          send_problem_details J 503 (codes "503: Service Unavailable") (codes "SYSTEM_UNAVAILABLE")
              (codes "SEPP instance uninitialized"),
          none,
        )
        | some a ↦ elim (J.parse (receive req.chunks [])) [
          | none ↦ (
            send_problem_details J 400 (codes "400: Bad Request") (codes "MALFORMED_JSON") what,
            some a,
          )
          | some req_json ↦
              let h = app_handler a req_json in
              (answer_post what failure_cause failure_detail allow_no_content h, some h.state)
        ]
      ]

  -- A check before the application: where it fails, false, with nothing written.
  abbrev pub checked : Bool → Handled J App → App → Handled J App
  checked passed h a =
      if passed
      then h
      else record { state = a; resp_data = J.null; resp_headers = []; outcome = returned false }

  -- It parses, and where `strict` it validates.
  abbrev passes {ℓ} : {A : Type ℓ} → Bool → (A → Bool) → Option A → Bool
  passes strict validate none = false
  passes strict validate (some a) = if strict then validate a else true

module _ {J : JsonLib} (M : Models J) (cfg : Config) (evp : Evp) (bio : Bio) (client : Client J)
    (what : Bytes) where
  -- The four handlers of N32-c. `uuid` is for the random generator, `random` for the IV.
  unfoldable pub handle_n32c_request :
      Request → Bytes → ServerRequest → Option App → ServerResponse × Option App
  unfolding process_post_request
  handle_n32c_request exchange_capability uuid =
      process_post_request J what (handle_n32c M cfg exchange_capability uuid)
        (codes "HANDSHAKE_FAILED") (codes "Capability exchange failed") false
  handle_n32c_request exchange_params uuid =
      process_post_request J what
        (λ a j.
          checked J
            (passes J false M.sec_param_exch_req.validate (M.sec_param_exch_req.from_json j))
            (handle_n32c M cfg exchange_params uuid a j) a)
        (codes "PARAMETER_EXCHANGE_FAILED") (codes "Parameter exchange failed") false
  handle_n32c_request n32f_terminate uuid =
      process_post_request J what
        (λ a j.
          checked J (passes J true M.context_info.validate (M.context_info.from_json j))
            (handle_n32c M cfg n32f_terminate uuid a j) a)
        (codes "TERMINATION_FAILED") (codes "N32-F termination processing failed") false
  handle_n32c_request n32f_error uuid =
      process_post_request J what (handle_n32c M cfg n32f_error uuid)
        (codes "ERROR_PROCESSING_FAILED") (codes "N32-F error processing failed") true

  unfoldable pub handle_n32f_process :
      Option Bytes → ServerRequest → Option App → ServerResponse × Option App
  unfolding process_post_request
  handle_n32f_process random =
      process_post_request J what
        (λ a j.
          checked J (passes J true M.reformatted_req.validate (M.reformatted_req.from_json j))
            (Handlers.handle_n32f_process M cfg evp bio client a random j) a)
        (codes "N32F_PROCESSING_FAILED") (codes "N32-F message processing failed") false

  -- The authority of a GET: the header of that name, else the host.
  abbrev pub get_authority : Headers → Bytes
  get_authority headers = elim (lookup (codes "authority") headers) [
    | some authority ↦ authority
    | none ↦ elim (lookup (codes "host") headers) [ none ↦ [] | some host ↦ host ]
  ]

  -- `req_json`
  unfoldable pub forward_json : ServerRequest → J.Json
  unfolding lookup set_all
  forward_json req = J.object (
      (codes "path", J.string req.path)
      ∷ (codes "query", J.string req.raw_query)
      ∷ (codes "authority", J.string (get_authority req.headers))
      ∷ (codes "headers", set_all J (J.object []) (map (λ (k, v). (k, J.string v)) req.headers))
      ∷ [])

  unfoldable pub handle_n32f_forward : ServerRequest → Option App → ServerResponse × Option App
  unfolding process_post_request forward_json
  handle_n32f_forward req inst =
      if req.method == codes "GET"
      then elim inst [
        | none ↦ (
          send_problem_details J 503 (codes "503: Service Unavailable") (codes "SYSTEM_UNAVAILABLE")
              (codes "SEPP instance uninitialized"),
          none,
        )
        | some a ↦
            let h = Handlers.handle_n32f_forward M cfg evp bio client a (forward_json req) in
            (
              elim h.outcome [
                | thrown ↦
                    send_problem_details J 400 (codes "400: Bad Request")
                      (codes "MALFORMED_REQUEST") what
                | returned done ↦
                    if done
                    then record {
                      status = 200;
                      headers = json_headers ++ h.resp_headers;
                      body = J.dump h.resp_data;
                    }
                    else send_problem_details J 400 (codes "400: Bad Request")
                        (codes "FORWARDING_FAILED") (codes "N32-F GET forwarding failed")
              ],
              some h.state,
            )
      ]
      else process_post_request J what (Handlers.handle_n32f_forward M cfg evp bio client)
          (codes "FORWARDING_FAILED") (codes "N32-F message forwarding failed") false req inst
