-- ===== src/App/Answered.antt =====
-- What an answer of the network function is turned into: by the application of the consumer's SEPP,
-- and by its SBI server.
use oai_cn5g_sepp.Base.{
  ◌≡◌, ◌≢◌, refl, ap, ◌∙◌, [], ◌∷◌, ◌++◌, Bytes, codes, ◌==◌, ◌=?◌, is_empty-false, if◌then◌else◌,
}
use oai_cn5g_sepp.Search.{Lacks}
use oai_cn5g_sepp.Dict.{Headers, lookup, insert}
use oai_cn5g_sepp.Http.{HttpResponse}
use oai_cn5g_sepp.Result.{Result, ok}
use oai_cn5g_sepp.Forward.{NfHttpResponse}
use oai_cn5g_sepp.Forward.Aad.{no_aad}
use oai_cn5g_sepp.Forward.Aad.RoundTrip.{received, addressed}
use oai_cn5g_sepp.Forward.Target.{keep_headers}
use oai_cn5g_sepp.Forward.Passed.{passed}
use oai_cn5g_sepp.Forward.Carried.{lookup-carried}
use oai_cn5g_sepp.Server.{ServerResponse}
use oai_cn5g_sepp.App.Asked.{no_scheme}

-- The two headers that name the network function.
abbrev pub authority_headers : Bytes → Headers
authority_headers authority =
    (codes "authority", authority)
    ∷ (codes "3gpp-sbi-target-apiroot", codes "http://" ++ authority)
    ∷ []

-- The status and the body of the answer; of its headers content-type, location and retry-after,
-- where they are of one line, and the two headers with the authority, and no others.
abbrev pub Passes : HttpResponse → Bytes → Result NfHttpResponse → Type 0
Passes answer authority result =
    (headers : Headers) × (result
      ≡ ok (record { status_code = answer.status_code; body = answer.body; headers = headers }))
    × ((k : Bytes) → lookup k headers ≡ passed answer.headers (authority_headers authority) k)

-- The status of the answer, its body but for 204, and of its headers the same three, and no others.
abbrev pub Responds : HttpResponse → ServerResponse → Type 0
Responds answer response =
    (response.status ≡ answer.status_code)
    × (response.body ≡ (if answer.status_code =? 204 then [] else answer.body))
    × ((k : Bytes) → lookup k response.headers ≡ passed answer.headers [] k)

addressed-headers :
    (authority : Bytes)
    → authority ≢ []
    → Lacks b'/' authority
    → (addressed authority no_aad).headers ≡ authority_headers authority
unfolding insert ◌==◌
addressed-headers authority ne l = rw (is_empty-false authority ne, no_scheme authority l) refl

pub lookup-addressed :
    (headers : Headers) (authority k : Bytes)
    → authority ≢ []
    → Lacks b'/' authority
    → lookup k (received (keep_headers headers []) (addressed authority no_aad)).headers
      ≡ passed headers (authority_headers authority) k
unfolding lookup ◌==◌
lookup-addressed headers authority k ne l =
    let named = addressed-headers authority ne l in
    lookup-carried headers (addressed authority no_aad) k (ap (lookup (codes "location")) named)
      (ap (lookup (codes "content-type")) named) (ap (lookup (codes "retry-after")) named)
    ∙ ap (λ rest. passed headers rest k) named
