-- ===== src/Forward/GetOnly.antt =====
-- Which methods the forwarding with TLS uses towards the local network function.
use oai_cn5g_sepp.Base.{◌≡◌, refl, ap, [], ◌++◌, Bytes, codes, ◌==◌}
use oai_cn5g_sepp.Dict.{Headers}
use oai_cn5g_sepp.Json.{JsonLib, value}
use oai_cn5g_sepp.Http.{Method, get, HttpRequest, HttpResponse, Client, method_of}
use oai_cn5g_sepp.Result.{Result, ok, fail, thrown, ◌>>=◌, or_throw}
use oai_cn5g_sepp.Forward.{Forward}
use oai_cn5g_sepp.Forward.Target.{
  target_request, target_answer, response_json, send_http_request_to_target,
}
use oai_cn5g_sepp.Forward.Direct.{forward_headers, forward_get, handle_n32f_forward}

>>=-ext {ℓ κ} :
    {A : Type ℓ} {B : Type κ} (first : Result A) {f g : A → Result B}
    → ((a : A) → f a ≡ g a)
    → (first >>= f) ≡ (first >>= g)
>>=-ext (ok a) h = h a
>>=-ext fail h = refl
>>=-ext thrown h = refl

module _ {J : JsonLib} (client : Client J) (send' : Method → HttpRequest → HttpResponse)
    (nrf_url : Bytes) where
  -- The client of a network that answers GET as before, and the other methods in its own way.
  abbrev pub elsewhere : Client J
  elsewhere = record client { send = send' }

  target_request-elsewhere :
      (authority path payload : Bytes) (headers : Headers)
      → target_request elsewhere nrf_url authority path payload headers
        ≡ target_request client nrf_url authority path payload headers
  unfolding target_request
  target_request-elsewhere authority path payload headers = refl

  send-elsewhere :
      ((r : HttpRequest) → send' get r ≡ client.send get r)
      → (authority path : Bytes) (headers : Headers)
      → send_http_request_to_target elsewhere nrf_url authority path (codes "GET") [] headers
        ≡ send_http_request_to_target client nrf_url authority path (codes "GET") [] headers
  unfolding send_http_request_to_target method_of target_answer response_json target_request ◌==◌
  send-elsewhere same authority path headers =
      ap (target_answer client nrf_url)
        (same (target_request client nrf_url authority path [] headers))

  forward_get-elsewhere :
      ((r : HttpRequest) → send' get r ≡ client.send get r)
      → (req_data : J.Json)
      → forward_get elsewhere nrf_url req_data ≡ forward_get client nrf_url req_data
  unfolding forward_get
  forward_get-elsewhere same req_data =
      >>=-ext (or_throw (value J req_data (codes "authority"))) (λ authority.
        >>=-ext (or_throw (value J req_data (codes "path"))) (λ path.
          >>=-ext (or_throw (value J req_data (codes "query"))) (λ query. rw (
            send-elsewhere same authority (path ++ (codes "?" ++ query))
              (forward_headers J req_data)))))

  -- Two local networks that answer GET alike, whatever they answer to other methods, get the same
  -- answer out of every request that is forwarded with TLS.
  pub handle_n32f_forward-elsewhere :
      ((r : HttpRequest) → send' get r ≡ client.send get r)
      → (s : Forward) (req_data resp_data : J.Json) (resp_headers : Headers)
      → handle_n32f_forward elsewhere nrf_url s req_data resp_data resp_headers
        ≡ handle_n32f_forward client nrf_url s req_data resp_data resp_headers
  unfolding handle_n32f_forward
  handle_n32f_forward-elsewhere same s req_data resp_data resp_headers =
      rw (forward_get-elsewhere same req_data)
