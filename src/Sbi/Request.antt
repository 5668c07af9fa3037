-- ===== src/Sbi/Request.antt =====
-- What a network function asks the SBI server for, as a description of its own, and how the server
-- responds to it.
use mathlib.Core.List.{append_assoc, append-nil}
use oai_cn5g_sepp.Base.{
  ◌≡◌, clash, ◌≢◌, refl, sym, ap, ◌∙◌, Bool, true, false, Bool-cases, inl, inr, Option, none, some,
  List, [], ◌∷◌, ◌++◌, Bytes, codes, ◌==◌, ==_iff, ◌||◌, is_empty, is_empty-false, starts_with,
  if◌then◌else◌,
}
use oai_cn5g_sepp.Search.{Lacks}
use oai_cn5g_sepp.Dict.{Headers, lookup}
use oai_cn5g_sepp.Json.{JsonLib}
use oai_cn5g_sepp.Models.{Models}
use oai_cn5g_sepp.Jose.{Bio, Evp}
use oai_cn5g_sepp.Http.{Method, Client, HttpResponse}
use oai_cn5g_sepp.Forward.Kept.{is_kept}
use oai_cn5g_sepp.Forward.Passed.{passed}
use oai_cn5g_sepp.Forward.Carried.{passed-eq}
use oai_cn5g_sepp.Server.{ServerRequest, receive}
use oai_cn5g_sepp.App.{Config, App}
use oai_cn5g_sepp.App.Asked.{name_of, bare_http, bare_https}
use oai_cn5g_sepp.App.Arrival.{request_target}
use oai_cn5g_sepp.App.Answered.{Passes, Responds, authority_headers}
use oai_cn5g_sepp.App.Service.{handle_nf_service_request}
use oai_cn5g_sepp.Sbi.{service_authority, full_path, response_headers, handle_service}
use oai_cn5g_sepp.Sbi.Routes.{handle_service-ok}

-- The authority that the headers of a request name: by an API root with a scheme or without one,
-- else by the authority, else by the host.
pub data Addresses (headers : Headers) (authority : Bytes) : Type 0 where
  http_root :
      lookup (codes "3gpp-sbi-target-apiroot") headers ≡ some (codes "http://" ++ authority)
      → Addresses headers authority
  https_root :
      lookup (codes "3gpp-sbi-target-apiroot") headers ≡ some (codes "https://" ++ authority)
      → Addresses headers authority
  bare_root :
      lookup (codes "3gpp-sbi-target-apiroot") headers ≡ some authority
      → Addresses headers authority
  by_authority :
      lookup (codes "3gpp-sbi-target-apiroot") headers ≡ none
      → lookup (codes "authority") headers ≡ some authority
      → Addresses headers authority
  by_host :
      lookup (codes "3gpp-sbi-target-apiroot") headers ≡ none
      → lookup (codes "authority") headers ≡ none
      → lookup (codes "host") headers ≡ some authority
      → Addresses headers authority

-- The pieces of a body, put together.
abbrev pub whole : List Bytes → Bytes
whole [] = []
whole (chunk ∷ chunks) = chunk ++ whole chunks

pub service_authority-Addresses :
    {headers : Headers} {authority : Bytes}
    → Addresses headers authority
    → authority ≢ []
    → Lacks b'/' authority
    → service_authority headers ≡ authority
unfolding service_authority starts_with
service_authority-Addresses {authority = a} (http_root e) ne l =
    rw (service_authority, e, is_empty-false a ne) refl
service_authority-Addresses {authority = a} (https_root e) ne l =
    rw (service_authority, e, is_empty-false a ne) refl
service_authority-Addresses {authority = a} (bare_root e) ne l =
    rw (service_authority, e, bare_http a l, bare_https a l, is_empty-false a ne) refl
service_authority-Addresses {authority = a} (by_authority e e') ne l =
    rw (service_authority, e, e') refl
service_authority-Addresses {authority = a} (by_host e e' e'') ne l =
    rw (service_authority, e, e', e'') refl

request_target-eq :
    (path query : Bytes)
    → (if is_empty query then path else path ++ (codes "?" ++ query)) ≡ request_target path query
request_target-eq path [] = refl
request_target-eq path (c ∷ query) = refl

pub full_path-request_target :
    (sent : ServerRequest) → full_path sent ≡ request_target sent.path sent.raw_query
full_path-request_target sent = request_target-eq sent.path sent.raw_query

pub receive-whole :
    (chunks : List Bytes) (body : Bytes) → receive chunks body ≡ body ++ whole chunks
unfolding receive
receive-whole [] body = sym (append-nil body)
receive-whole (chunk ∷ chunks) body = receive-whole chunks (body ++ chunk) ∙ simp append_assoc

-- One step of the loop over the headers.
response_headers-step :
    (key value k : Bytes) (headers : Headers) {b : Bool}
    → is_kept key ≡ b
    → lookup k (response_headers ((key, value) ∷ headers))
      ≡ lookup k (if b then (key, value) ∷ response_headers headers else response_headers headers)
unfolding response_headers
response_headers-step key value k headers {b} e =
    ap
      (λ c.
        lookup k (if c then (key, value) ∷ response_headers headers else response_headers headers))
      (or-swap (key == codes "content-type") (key == codes "location") (key == codes "retry-after")
        ∙ e)
  where
    or-swap : (x y z : Bool) → ((x || y) || z) ≡ ((y || x) || z)
    or-swap true true z = refl
    or-swap true false z = refl
    or-swap false true z = refl
    or-swap false false z = refl

-- Of the three names it keeps all, of the others none.
lookup-response_headers :
    (headers : Headers) (k : Bytes)
    → is_kept k ≡ true
    → lookup k (response_headers headers) ≡ lookup k headers
unfolding response_headers lookup
lookup-response_headers [] k kept = refl
lookup-response_headers ((key, value) ∷ headers) k kept = elim (Bool-cases (key == k)) [
  | inl e ↦
      response_headers-step key value k headers (ap is_kept ((==_iff key k).0 e) ∙ kept)
      ∙ rw (lookup, e) refl
  | inr e ↦
      let next = lookup-response_headers headers k kept in
      elim (Bool-cases (is_kept key)) [
        | inl it ↦ response_headers-step key value k headers it ∙ rw (lookup, e) next
        | inr not_it ↦ response_headers-step key value k headers not_it ∙ rw (lookup, e) next
      ]
]

lookup-response_headers_other :
    (headers : Headers) (k : Bytes) → is_kept k ≡ false → lookup k (response_headers headers) ≡ none
unfolding response_headers lookup
lookup-response_headers_other [] k other = refl
lookup-response_headers_other ((key, value) ∷ headers) k other =
    let next = lookup-response_headers_other headers k other in
    elim (Bool-cases (is_kept key)) [
      | inr not_it ↦ response_headers-step key value k headers not_it ∙ next
      | inl it ↦ elim (Bool-cases (key == k)) [
        | inl e ↦ absurd (clash it (ap is_kept ((==_iff key k).0 e) ∙ other))
        | inr e ↦ response_headers-step key value k headers it ∙ rw (lookup, e) next
      ]
    ]

lookup-responded :
    (from headers : Headers) (authority k : Bytes)
    → lookup k headers ≡ passed from (authority_headers authority) k
    → lookup k (response_headers headers) ≡ passed from [] k
unfolding lookup
lookup-responded from headers authority k carried = elim (Bool-cases (is_kept k)) [
  | inl kept ↦
      lookup-response_headers headers k kept
      ∙ (carried
          ∙ (passed-eq from (authority_headers authority) k kept ∙ sym (passed-eq from [] k kept)))
  | inr other ↦ lookup-response_headers_other headers k other ∙ sym (passed-eq from [] k other)
]

module _ {J : JsonLib} (M : Models J) (evp : Evp) (bio : Bio) (client : Client J)
    (cfg : Config) where
  pub handle_service-Responds :
      (random : Option Bytes) (sent : ServerRequest) (a : App) (m : Method) (authority : Bytes)
      (answer : HttpResponse)
      → sent.method ≡ name_of m
      → Addresses sent.headers authority
      → authority ≢ []
      → Lacks b'/' authority
      → Passes answer authority (
          handle_nf_service_request M evp bio client cfg a random authority
            (request_target sent.path sent.raw_query)
            (name_of m)
            (whole sent.chunks))
      → Responds answer (handle_service M evp bio client cfg random sent a)
  handle_service-Responds random sent a m authority answer named addresses ne l
        (headers, done, carried) =
      let same = service_authority-Addresses addresses ne l in
      let e =
        handle_service-ok M evp bio client cfg random sent a (rw same ne)
          (rw (same, full_path-request_target sent, named, receive-whole sent.chunks []) done) in
      (
        ap (λ r. r.status) e,
        ap (λ r. r.body) e,
        λ k.
            ap (λ r. lookup k r.headers) e
            ∙ lookup-responded answer.headers headers authority k (carried k),
      )
