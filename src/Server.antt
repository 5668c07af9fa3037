-- ===== src/Server.antt =====
-- What the two HTTP/2 servers share: the request as nghttp2 hands it over, the response that is
-- written, and problem details (the anonymous namespaces of src/api-server/sepp-http2-nbi-server.cpp
-- and sepp-http2-sbi-server.cpp). A `header_map` may hold a name twice, so `emplace` appends.
pub mod Routes
pub mod Lifecycle
use oai_cn5g_sepp.Base.{ℕ, List, [], ◌∷◌, ◌++◌, Bytes, codes}
use oai_cn5g_sepp.Dict.{Headers}
use oai_cn5g_sepp.Json.{JsonLib}

-- The body comes in pieces; an empty piece ends it.
pub record ServerRequest : Type 0 where
  pub method : Bytes
  pub path : Bytes
  pub raw_query : Bytes
  pub headers : Headers
  pub chunks : List Bytes

pub record ServerResponse : Type 0 where
  pub status : ℕ
  pub headers : Headers
  pub body : Bytes

abbrev pub json_headers : Headers
json_headers = (codes "content-type", codes "application/json") ∷ []

abbrev pub problem_headers : Headers
problem_headers = (codes "content-type", codes "application/problem+json") ∷ []

-- `body->append(data, len)` for each piece.
unfoldable pub receive : List Bytes → Bytes → Bytes
receive [] body = body
receive (chunk ∷ chunks) body = receive chunks (body ++ chunk)

module _ (J : JsonLib) where
  unfoldable pub send_problem_details : ℕ → Bytes → Bytes → Bytes → ServerResponse
  send_problem_details status title cause detail = record {
    status = status;
    headers = problem_headers;
    body = J.dump (
        J.object (
          (codes "status", J.number status)
          ∷ (codes "title", J.string title)
          ∷ (codes "cause", J.string cause)
          ∷ (codes "detail", J.string detail)
          ∷ []));
  }
