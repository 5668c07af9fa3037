-- ===== src/App/Service.antt =====
-- The service requests of local network functions: `handle_nf_service_request` sends them to the
-- remote SEPP, wrapped with PRINS and as they are otherwise.
use oai_cn5g_sepp.Base.{
  ℕ, Bool, true, false, not, ◌&&◌, Option, none, some, [], ◌∷◌, ◌++◌, Bytes, codes, ◌==◌, is_empty,
  ◌=?◌, leb, starts_with, if◌then◌else◌,
}
use oai_cn5g_sepp.Decimal.{stoi}
use oai_cn5g_sepp.Dict.{Headers, insert}
use oai_cn5g_sepp.Json.{JsonLib}
use oai_cn5g_sepp.Models.{Models, FlatJweJson}
use oai_cn5g_sepp.Result.{Result, ok, fail, thrown as thrown_result, ◌>>=◌, ◌>>◌, require, or_fail}
use oai_cn5g_sepp.Http.{Client, HttpRequest, HttpResponse, method_of}
use oai_cn5g_sepp.Jose.{Bio, Evp, base64url_decode}
use oai_cn5g_sepp.Handshake.{Handshake}
use oai_cn5g_sepp.Forward.{Forward, NfHttpResponse}
use oai_cn5g_sepp.Forward.Aad.{no_aad, parse_aad}
use oai_cn5g_sepp.Forward.Reformat.{create_n32f_process_request, read_body}
use oai_cn5g_sepp.App.{Config, App, scheme}
use oai_cn5g_sepp.App.Procedures.{is_ok_or_created, post_json}

-- `std::stoi` and the test that follows: a status from 100 to 599.
abbrev pub status_in_range : Option (Bool × ℕ) → Option ℕ
status_in_range none = none
status_in_range (some (true, n)) = none
status_in_range (some (false, n)) = if leb 100 n && leb n 599 then some n else none

-- The handshake exists and its capability is PRINS.
abbrev is_prins : Option Handshake → Bool
is_prins none = false
is_prins (some s) = s.selected_sec_capability == codes "PRINS"

-- A handler whose exceptions are caught.
abbrev caught {ℓ} : {A : Type ℓ} → Result A → Result A
caught (ok a) = ok a
caught fail = fail
caught thrown_result = fail

-- The loop that copies the headers of the response.
unfoldable pub copy_all : Headers → Headers → Headers
unfolding insert
copy_all [] out = out
copy_all ((key, val) ∷ headers) out = copy_all headers (insert key val out)

-- `3gpp-Sbi-Target-apiRoot`: the authority, with a scheme in front if it has none.
unfoldable pub target_api_root : Config → Bytes → Bytes
target_api_root cfg authority =
    if not (starts_with authority (codes "http://"))
      && not (starts_with authority (codes "https://"))
    then scheme cfg ++ authority
    else authority

module _ {J : JsonLib} (M : Models J) (evp : Evp) (bio : Bio) where
  -- The response that a reformatted message holds. Everything in the `try` block that does not
  -- succeed gives false.
  unfoldable pub unwrap_response : Bytes → FlatJweJson J.Json → Result NfHttpResponse
  unwrap_response enc_key message = do
    body ← read_body M evp bio enc_key message
    parsed ← or_fail (parse_aad (base64url_decode bio message.aad) no_aad)
    status ← or_fail (status_in_range (stoi parsed.method))
    ok (record { status_code = status; body = body; headers = parsed.headers })

  unfoldable pub read_prins_response : Bytes → HttpResponse → Result NfHttpResponse
  unfolding unwrap_response
  read_prins_response enc_key response = do
    require (is_ok_or_created response.status_code)
    http_resp_json ← or_fail (J.parse response.body)
    message ← or_fail (M.reformatted_rsp.from_json http_resp_json)
    unwrap_response enc_key message

  -- `random` is what `RAND_bytes` yields for the IV.
  unfoldable pub handle_nf_service_request_prins :
      Client J
      → Forward
      → Bytes
      → Option Bytes
      → Bytes
      → Bytes
      → Bytes
      → Bytes
      → Result NfHttpResponse
  unfolding read_prins_response
  handle_nf_service_request_prins client f url random authority path method body = do
    req_body ← create_n32f_process_request M evp bio f random authority path method body
    caught (
        read_prins_response f.enc_key
          (post_json M client url (codes "/n32f-forward/v1/n32f-process") req_body))

module _ {J : JsonLib} (client : Client J) (cfg : Config) where
  -- The request with its headers, before it is sent.
  unfoldable pub tls_request : Bytes → Bytes → Bytes → Bytes → HttpRequest
  unfolding target_api_root
  tls_request url authority path body =
      let target_uri = url ++ path in
      let bare : HttpRequest = record { uri = target_uri; headers = []; body = [] } in
      let req = if is_empty body then bare else client.prepare_json_request target_uri body in
      let typed =
        insert (codes "Accept") (codes "application/json")
          (insert (codes "Content-Type") (codes "application/json") req.headers) in
      record req {
        headers =
            if is_empty authority
            then typed
            else insert (codes "3gpp-Sbi-Target-apiRoot") (target_api_root cfg authority)
                (insert (codes "Authority") authority typed);
      }

  unfoldable pub handle_nf_service_request_tls :
      Bytes → Bytes → Bytes → Bytes → Bytes → Result NfHttpResponse
  unfolding tls_request copy_all method_of
  handle_nf_service_request_tls url authority path method body =
      let response = client.send (method_of method) (tls_request url authority path body) in
      if response.status_code =? 0
      then fail
      else ok (record {
        status_code = response.status_code;
        body = response.body;
        headers = copy_all response.headers [];
      })

module _ {J : JsonLib} (M : Models J) (evp : Evp) (bio : Bio) (client : Client J)
    (cfg : Config) where
  unfoldable pub handle_nf_service_request :
      App → Option Bytes → Bytes → Bytes → Bytes → Bytes → Result NfHttpResponse
  handle_nf_service_request a random authority path method body = do
    f ← or_fail a.forward
    url ← or_fail a.remote_sepp_url
    (if is_prins a.handshake
        then handle_nf_service_request_prins M evp bio client f url random authority path method
            body
        else handle_nf_service_request_tls client cfg url authority path method body)
