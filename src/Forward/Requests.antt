-- ===== src/Forward/Requests.antt =====
-- What a request to the local network function looks like.
use oai_cn5g_sepp.Base.{
  ◌≡◌, refl, ◌⊎◌, inl, inr, true, false, not, ◌&&◌, none, [], ◌∷◌, ◌++◌, Bytes, codes, ◌==◌, ==_iff,
  starts_with, arith, Bool-cases,
}
use oai_cn5g_sepp.Dict.{Headers, lookup, insert}
use oai_cn5g_sepp.Json.{JsonLib}
use oai_cn5g_sepp.Http.{Client, force_http}
use oai_cn5g_sepp.Forward.Target.{apiroot_header, target_endpoint, copy_headers, target_request}

-- A URL of plain HTTP.
abbrev pub IsHttp : Bytes → Type 0
IsHttp url = starts_with url (codes "http://") ≡ true

force_http-IsHttp : (url : Bytes) → IsHttp (force_http url)
unfolding force_http starts_with
force_http-IsHttp url = elim (Bool-cases (starts_with url (codes "https://"))) [
  | inl e ↦ rw e refl
  | inr e ↦ elim (Bool-cases (starts_with url (codes "http://"))) [
    | inl p ↦ rw (e, p) p
    | inr p ↦ rw (e, p) refl
  ]
]

target_endpoint-IsHttp :
    (nrf_url authority : Bytes) (headers : Headers)
    → IsHttp (target_endpoint nrf_url authority headers)
unfolding target_endpoint
target_endpoint-IsHttp nrf_url authority headers = force_http-IsHttp _

starts_with-append : (s t p : Bytes) → starts_with s p ≡ true → starts_with (s ++ t) p ≡ true
unfolding starts_with
starts_with-append s t [] h = refl
starts_with-append [] t (q ∷ p) h = absurd (ground (arith, h))
starts_with-append (c ∷ s) t (q ∷ p) h = ground (arith, starts_with-append s t p)

-- Another name does not matter.
pub lookup-insert_other :
    (name value key : Bytes) (headers : Headers)
    → (name == key) ≡ false
    → lookup key (insert name value headers) ≡ lookup key headers
unfolding lookup insert
lookup-insert_other name value key [] h = rw h
lookup-insert_other name value key ((n, text) ∷ rest) h =
    ground
      (arith, ==_iff n name, ==_iff n key, ==_iff name key, lookup-insert_other name value key rest)

-- The two headers that are not copied.
abbrev IsRouting : Bytes → Type 0
IsRouting key = (key ≡ codes "authority") ⊎ (key ≡ apiroot_header)

other-IsRouting :
    (name key : Bytes)
    → IsRouting key
    → (not (name == codes "authority") && not (name == apiroot_header)) ≡ true
    → (name == key) ≡ false
other-IsRouting name key r h =
    ground (arith, ==_iff name (codes "authority"), ==_iff name apiroot_header, ==_iff name key)

lookup-copy_headers :
    (key : Bytes) (headers out : Headers)
    → IsRouting key
    → lookup key out ≡ none
    → lookup key (copy_headers headers out) ≡ none
unfolding copy_headers
lookup-copy_headers key [] out r h = h
lookup-copy_headers key ((name, val) ∷ headers) out r h =
    lookup-copy_headers key headers _ r
      (elim (Bool-cases (not (name == codes "authority") && not (name == apiroot_header))) [
        | inl e ↦ rw (e, lookup-insert_other name val key out (other-IsRouting name key r e)) h
        | inr e ↦ rw e h
      ])

module _ {J : JsonLib} (client : Client J) (nrf_url : Bytes) where
  -- A request without a body to the local network function goes to a URL of plain HTTP, whatever
  -- the message names as its target, and has neither of the two headers that named it.
  pub target_request-IsHttp :
      (authority path : Bytes) (headers : Headers)
      → let req = target_request client nrf_url authority path [] headers in
        IsHttp req.uri
        × (lookup (codes "authority") req.headers ≡ none)
        × (lookup apiroot_header req.headers ≡ none)
  unfolding target_request lookup
  target_request-IsHttp authority path headers = (
    starts_with-append (target_endpoint nrf_url authority headers) path (codes "http://")
        (target_endpoint-IsHttp nrf_url authority headers),
    lookup-copy_headers (codes "authority") headers [] (inl refl) refl,
    lookup-copy_headers apiroot_header headers [] (inr refl) refl,
  )
