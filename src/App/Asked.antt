-- ===== src/App/Asked.antt =====
-- What the network function of the producer is asked, as a description of its own: a method, an
-- URI and a body.
use oai_cn5g_sepp.Base.{
  ◌≡◌, ◌≢◌, refl, ap, ◌∙◌, Bool-cases, inl, inr, true, false, [], ◌∷◌, ◌++◌, Bytes, codes, ◌==◌,
  starts_with, arith,
}
use oai_cn5g_sepp.Search.{Lacks}
use oai_cn5g_sepp.Json.{JsonLib}
use oai_cn5g_sepp.Http.{
  Method, get, post, put, delete, patch, HttpRequest, HttpResponse, Client, method_of, force_http,
}
use oai_cn5g_sepp.Dict.{lookup}
use oai_cn5g_sepp.Forward.Aad.{is_space}
use oai_cn5g_sepp.Forward.Aad.Lines.{NoSpace}
use oai_cn5g_sepp.Forward.Target.{target_request, target_endpoint, copy_headers}
use oai_cn5g_sepp.App.Producer.{relayed, local_response}

-- The name of a method in HTTP.
abbrev pub name_of : Method → Bytes
name_of get = codes "GET"
name_of post = codes "POST"
name_of put = codes "PUT"
name_of delete = codes "DELETE"
name_of patch = codes "PATCH"

method_of-name_of : (m : Method) → method_of (name_of m) ≡ m
unfolding method_of ◌==◌
method_of-name_of get = refl
method_of-name_of post = refl
method_of-name_of put = refl
method_of-name_of delete = refl
method_of-name_of patch = refl

pub name_of-NoSpace : (m : Method) → NoSpace (name_of m)
unfolding is_space
name_of-NoSpace get = (refl, (refl, (refl, tt)))
name_of-NoSpace post = (refl, (refl, (refl, (refl, tt))))
name_of-NoSpace put = (refl, (refl, (refl, tt)))
name_of-NoSpace delete = (refl, (refl, (refl, (refl, (refl, (refl, tt))))))
name_of-NoSpace patch = (refl, (refl, (refl, (refl, (refl, tt)))))

pub name_of-ne-nil : (m : Method) → name_of m ≢ []
name_of-ne-nil get e = cc
name_of-ne-nil post e = cc
name_of-ne-nil put e = cc
name_of-ne-nil delete e = cc
name_of-ne-nil patch e = cc

starts_with-Lacks : (b : _) (s p : Bytes) → starts_with s p ≡ true → Lacks b s → Lacks b p
unfolding starts_with
starts_with-Lacks b s [] h l = tt
starts_with-Lacks b [] (q ∷ p) h l = absurd (ground (arith, h))
starts_with-Lacks b (c ∷ s) (q ∷ p) h (ne, l) =
    (ground (arith, h), starts_with-Lacks b s p (ground (arith, h)) l)

-- An authority has no slash, so it has no scheme.
pub bare_https :
    (authority : Bytes) → Lacks b'/' authority → starts_with authority (codes "https://") ≡ false
bare_https authority l = elim (Bool-cases (starts_with authority (codes "https://"))) [
  | inl e ↦ absurd ((starts_with-Lacks b'/' authority (codes "https://") e l).1.1.1.1.1.1.0 refl)
  | inr e ↦ e
]

pub bare_http :
    (authority : Bytes) → Lacks b'/' authority → starts_with authority (codes "http://") ≡ false
bare_http authority l = elim (Bool-cases (starts_with authority (codes "http://"))) [
  | inl e ↦ absurd ((starts_with-Lacks b'/' authority (codes "http://") e l).1.1.1.1.1.0 refl)
  | inr e ↦ e
]

pub no_scheme :
    (authority : Bytes) → Lacks b'/' authority → force_http authority ≡ codes "http://" ++ authority
unfolding force_http
no_scheme authority l = rw (force_http, bare_https authority l, bare_http authority l) refl

module _ {J : JsonLib} (local : Client J) where
  -- The request to an URI, with a body or without.
  abbrev nf_request : Bytes → Bytes → HttpRequest
  nf_request uri [] = record { uri = uri; headers = []; body = [] }
  nf_request uri (c ∷ body) = local.prepare_json_request uri (c ∷ body)

  -- What the network function at that authority answers to the method, on the path, with the body;
  -- it is asked with plain HTTP.
  abbrev pub nf_answer : Method → Bytes → Bytes → Bytes → HttpResponse
  nf_answer m authority path body =
      local.send m (nf_request (codes "http://" ++ (authority ++ path)) body)

  target_endpoint-relayed :
      (nrf_url m authority path body : Bytes)
      → Lacks b'/' authority
      → target_endpoint nrf_url authority (relayed J m path authority body).headers
        ≡ codes "http://" ++ authority
  unfolding target_endpoint lookup ◌==◌ force_http starts_with
  target_endpoint-relayed nrf_url m authority path body l =
      rw (target_endpoint, no_scheme authority l) refl

  target_request-relayed :
      (nrf_url m authority path body : Bytes)
      → Lacks b'/' authority
      → target_request local nrf_url authority path body (relayed J m path authority body).headers
        ≡ nf_request (codes "http://" ++ (authority ++ path)) body
  unfolding target_request copy_headers ◌==◌
  target_request-relayed nrf_url m authority path [] l =
      rw (target_request, target_endpoint-relayed nrf_url m authority path [] l) refl
  target_request-relayed nrf_url m authority path (c ∷ body) l =
      rw (target_request, target_endpoint-relayed nrf_url m authority path (c ∷ body) l) refl

  pub local_response-nf_answer :
      (nrf_url : Bytes) (m : Method) (authority path body : Bytes)
      → Lacks b'/' authority
      → local_response local nrf_url (name_of m) path authority body
        ≡ nf_answer m authority path body
  local_response-nf_answer nrf_url m authority path body l =
      ap
        (λ n. local.send n (
          target_request local nrf_url authority path body
            (relayed J (name_of m) path authority body).headers))
        (method_of-name_of m)
      ∙ ap (local.send m) (target_request-relayed nrf_url (name_of m) authority path body l)
