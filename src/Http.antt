-- ===== src/Http.antt =====
-- The HTTP client of `oai::http`, a parameter of the model, and what the SEPP itself does with
-- methods and URLs.
use oai_cn5g_sepp.Base.{ℕ, Option, ◌++◌, Bytes, codes, ◌==◌, starts_with, drop, if◌then◌else◌}
use oai_cn5g_sepp.Dict.{Headers}
use oai_cn5g_sepp.Json.{JsonLib}

-- `method_e`, as far as the source uses it
pub data Method : Type 0 where
  get post put delete patch : Method

-- `oai::http::request`
pub record HttpRequest : Type 0 where
  pub uri : Bytes
  pub headers : Headers
  pub body : Bytes

-- `oai::http::response`; the status is 0 where no response came
pub record HttpResponse : Type 0 where
  pub status_code : ℕ
  pub body : Bytes
  pub headers : Headers

-- `oai::http::http_client`: `send` is the answer of the other side to each request.
pub record Client (J : JsonLib) : Type 0 where
  pub prepare_json_request : Bytes → Bytes → HttpRequest
  pub send : Method → HttpRequest → HttpResponse
  pub get_json : HttpResponse → Option J.Json

-- The ladder on the name of a method, in `send_http_request_to_target` and in
-- `handle_nf_service_request_tls`: any other name counts as GET.
unfoldable pub method_of : Bytes → Method
unfolding ◌==◌
method_of name =
    if name == codes "POST"
    then post
    else if name == codes "PUT"
    then put
    else if name == codes "DELETE"
    then delete
    else if name == codes "PATCH"
    then patch
    else get

-- `https://` becomes `http://`, and a URL with neither gets `http://` in front.
unfoldable pub force_http : Bytes → Bytes
force_http url =
    if starts_with url (codes "https://")
    then codes "http://" ++ drop 8 url
    else if starts_with url (codes "http://")
    then url
    else codes "http://" ++ url
