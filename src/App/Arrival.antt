-- ===== src/App/Arrival.antt =====
-- How a request of the SEPP's client arrives at the server of another SEPP, as HTTP/2 has it, and
-- what the request of a GET with TLS is there.
use oai_cn5g_sepp.Base.{
  ◌≡◌, ◌≢◌, refl, Bool-cases, inl, inr, ◌+◌, none, some, [], ◌∷◌, ◌++◌, map, Bytes, codes, ◌==◌,
  ◌&&◌, leb, is_empty-false, if◌then◌else◌, starts_with,
}
use oai_cn5g_sepp.Search.{Lacks}
use oai_cn5g_sepp.Dict.{Headers, insert}
use oai_cn5g_sepp.Json.{JsonLib}
use oai_cn5g_sepp.Json.Members.{last_of}
use oai_cn5g_sepp.Http.{Method, HttpRequest, Client, force_http}
use oai_cn5g_sepp.Forward.Aad.{is_space}
use oai_cn5g_sepp.Forward.Aad.Lines.{NoSpace}
use oai_cn5g_sepp.Server.{ServerRequest}
use oai_cn5g_sepp.App.{Config, scheme}
use oai_cn5g_sepp.App.Asked.{name_of, bare_http, bare_https}
use oai_cn5g_sepp.App.Service.{target_api_root, tls_request}

-- The path, and behind a question mark the query, if there is one.
abbrev pub request_target : Bytes → Bytes → Bytes
request_target path [] = path
request_target path (c ∷ query) = path ++ (codes "?" ++ (c ∷ query))

-- Nothing in it ends the path or the query, and nothing is escaped.
pub record IsPlain (path query : Bytes) : Type 0 where
  pub no_query : Lacks b'?' path
  pub no_escape : Lacks b'%' path
  pub no_fragment : Lacks b'#' path
  pub no_fragment_behind : Lacks b'#' query

-- The names in lower case, as HTTP/2 sends them.
abbrev pub lowered : Headers → Headers
lowered =
    map (λ (name, value). (map (λ c. if leb b'A' c && leb c b'Z' then c + 32 else c) name, value))

-- What HTTP says of a request that arrives at the server of an origin: its method, its path and
-- query, and the header that names the target.
pub record Delivers (url : Bytes) (arrive : Method → HttpRequest → ServerRequest) : Type 0 where
  pub method-arrive : (m : Method) (r : HttpRequest) → (arrive m r).method ≡ name_of m
  pub target-arrive :
      (m : Method) (r : HttpRequest) (path query : Bytes)
      → IsPlain path query
      → r.uri ≡ url ++ request_target path query
      → ((arrive m r).path ≡ path) × ((arrive m r).raw_query ≡ query)
  pub root-arrive :
      (m : Method) (r : HttpRequest) (value : Bytes)
      → NoSpace value
      → last_of (lowered r.headers) (codes "3gpp-sbi-target-apiroot") none ≡ some value
      → last_of (arrive m r).headers (codes "3gpp-sbi-target-apiroot") none ≡ some value

NoSpace-append : (s t : Bytes) → NoSpace s → NoSpace t → NoSpace (s ++ t)
NoSpace-append [] t h k = k
NoSpace-append (c ∷ s) t (n, h) k = (n, NoSpace-append s t h k)

target_api_root-bare :
    (cfg : Config) (authority : Bytes)
    → Lacks b'/' authority
    → target_api_root cfg authority ≡ scheme cfg ++ authority
unfolding target_api_root
target_api_root-bare cfg authority l =
    rw (target_api_root, bare_http authority l, bare_https authority l) refl

pub NoSpace-root :
    (cfg : Config) (authority : Bytes) → NoSpace authority → NoSpace (scheme cfg ++ authority)
unfolding is_space
NoSpace-root cfg authority h = elim (Bool-cases cfg.tls_enabled) [
  | inl e ↦ rw e (
      NoSpace-append (codes "https://") authority
        (refl, (refl, (refl, (refl, (refl, (refl, (refl, (refl, tt)))))))) h)
  | inr e ↦ rw e (
      NoSpace-append (codes "http://") authority
        (refl, (refl, (refl, (refl, (refl, (refl, (refl, tt))))))) h)
]

pub force_http-root :
    (cfg : Config) (authority : Bytes)
    → force_http (scheme cfg ++ authority) ≡ codes "http://" ++ authority
unfolding force_http starts_with
force_http-root cfg authority = elim (Bool-cases cfg.tls_enabled) [
  | inl e ↦ rw e refl
  | inr e ↦ rw e refl
]

pub root-ne-nil : (cfg : Config) (authority : Bytes) → scheme cfg ++ authority ≢ []
root-ne-nil cfg authority = elim (Bool-cases cfg.tls_enabled) [
  | inl e ↦ rw e (λ same. cc)
  | inr e ↦ rw e (λ same. cc)
]

module _ {J : JsonLib} (client : Client J) (cfg : Config) where
  pub tls_request-uri :
      (url authority path : Bytes)
      → (tls_request client cfg url authority path []).uri ≡ url ++ path
  unfolding tls_request
  tls_request-uri url authority path = refl

  -- The header that names the target, where the request has no body.
  pub tls_request-root :
      (url authority path : Bytes)
      → authority ≢ []
      → Lacks b'/' authority
      → last_of
          (lowered (tls_request client cfg url authority path []).headers)
          (codes "3gpp-sbi-target-apiroot")
          none
        ≡ some (scheme cfg ++ authority)
  unfolding tls_request insert last_of ◌==◌
  tls_request-root url authority path ne l =
      rw (tls_request, is_empty-false authority ne, target_api_root-bare cfg authority l) refl
