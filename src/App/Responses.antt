-- ===== src/App/Responses.antt =====
-- The answer to a service request over N32-f: what the remote SEPP wraps is what the network
-- function gets.
use oai_cn5g_sepp.Base.{
  ℕ, ◌≡◌, ◌≢◌, ◌≤◌, ◌<◌, refl, ap, ◌∙◌, Bool, true, false, not, ◌&&◌, some, [], ◌∷◌, Bytes, codes,
  is_empty, length, all, arith, if◌then◌else◌,
}
use oai_cn5g_sepp.Search.{Lacks}
use oai_cn5g_sepp.Decimal.{to_string, stoi, stoi-to_string, holds_below, holds_below-true}
use oai_cn5g_sepp.Dict.{Headers, insert}
use oai_cn5g_sepp.Http.{force_http}
use oai_cn5g_sepp.Json.{JsonLib}
use oai_cn5g_sepp.Models.{Models, FlatJweJson}
use oai_cn5g_sepp.Result.{ok}
use oai_cn5g_sepp.Jose.{Bio, Evp, base64url_decode}
use oai_cn5g_sepp.Jose.RoundTrip.{IsBase64, IsGcm}
use oai_cn5g_sepp.Forward.{Forward}
use oai_cn5g_sepp.Forward.Aad.{ParsedAad, no_aad, parse_aad, add_header, is_space, is_one_line}
use oai_cn5g_sepp.Forward.Aad.Lines.{NoSpace}
use oai_cn5g_sepp.Forward.Aad.RoundTrip.{received, ProperNames, addressed}
use oai_cn5g_sepp.Forward.Reformat.{build_reformatted_data, read_body}
use oai_cn5g_sepp.Forward.Transparency.{build_reformatted_data-read}
use oai_cn5g_sepp.App.Service.{status_in_range, unwrap_response}

abbrev is_word : Bytes → Bool
is_word s = not (is_empty s) && all (λ c. not (is_space c)) s

statuses_are_words : holds_below (λ n. is_word (to_string n)) 600 ≡ true
unfolding holds_below to_string is_space
statuses_are_words = refl

all-NoSpace : (s : Bytes) → all (λ c. not (is_space c)) s ≡ true → NoSpace s
all-NoSpace [] h = tt
all-NoSpace (c ∷ s) h = (ground arith, all-NoSpace s (ground arith))

word-parts : (s : Bytes) → is_word s ≡ true → NoSpace s × (s ≢ [])
word-parts [] h = cc
word-parts (c ∷ s) h = (all-NoSpace (c ∷ s) h, λ e. cc)

status_in_range_lem : (n : ℕ) → 100 ≤ n → n < 600 → status_in_range (stoi (to_string n)) ≡ some n
status_in_range_lem n lo hi = rw (stoi-to_string n (omega arith)) (ground arith)

received-method : (headers : Headers) (out : ParsedAad) → (received headers out).method ≡ out.method
received-method [] out = refl
received-method ((key, value) ∷ headers) out = received-method headers _ ∙ ground arith

kept-headers :
    (b : Bool) (key value : Bytes) (out out' : ParsedAad)
    → out.headers ≡ out'.headers
    → (if b then add_header key value out else out).headers
      ≡ (if b then add_header key value out' else out').headers
kept-headers true key value out out' e = ap (insert key value) e
kept-headers false key value out out' e = e

-- What the headers become does not turn on the rest of the message.
received-headers :
    (headers : Headers) (out out' : ParsedAad)
    → out.headers ≡ out'.headers
    → (received headers out).headers ≡ (received headers out').headers
received-headers [] out out' e = e
received-headers ((key, value) ∷ headers) out out' e =
    received-headers headers _ _
      (kept-headers (is_one_line key && is_one_line value) key value out out' e)

addressed-method :
    (authority : Bytes) (out : ParsedAad) → (addressed authority out).method ≡ out.method
addressed-method [] out = refl
addressed-method (a ∷ s) out = refl

addressed-headers :
    (authority : Bytes) (out out' : ParsedAad)
    → out.headers ≡ out'.headers
    → (addressed authority out).headers ≡ (addressed authority out').headers
addressed-headers [] out out' e = e
addressed-headers (a ∷ s) out out' e =
    ap
      (λ m.
        insert (codes "3gpp-sbi-target-apiroot") (force_http (a ∷ s))
          (insert (codes "authority") (a ∷ s) m))
      e

module _ {J : JsonLib} (M : Models J) {evp : Evp} {bio : Bio} (gcm : IsGcm evp)
    (base64 : IsBase64 bio) where
  unwrap_response_lem :
      (key : Bytes) (message : FlatJweJson J.Json) (parsed : ParsedAad) (status : ℕ) (body : Bytes)
      → 100 ≤ status
      → status < 600
      → parse_aad (base64url_decode bio message.aad) no_aad ≡ some parsed
      → parsed.method ≡ to_string status
      → read_body M evp bio key message ≡ ok body
      → unwrap_response M evp bio key message
        ≡ ok (record { status_code = status; body = body; headers = parsed.headers })
  unfolding unwrap_response
  unwrap_response_lem key message parsed status body lo hi e m b =
      rw (b, e, m, status_in_range_lem status lo hi)

  -- Over a lawful cipher and base64 filter, for a twelve byte IV, a status from 100 to 599, a path
  -- that is not empty and holds no space, an authority without a line end and headers whose names
  -- hold no colon: a response message that a SEPP builds, with or without a key, is read with the
  -- same key as that status and that body. Its headers are the authority, its API root and those
  -- given headers that are of one line.
  pub unwrap_response-build :
      (t : Forward) (iv path authority body context_id : Bytes) (status : ℕ) (headers : Headers)
      {message : FlatJweJson J.Json}
      → length iv ≡ 12
      → 100 ≤ status
      → status < 600
      → NoSpace path
      → path ≢ []
      → Lacks b'\n' authority
      → ProperNames headers
      → build_reformatted_data M evp bio t
          (some iv)
          (to_string status)
          path
          authority
          body
          context_id
          headers
        ≡ ok message
      → unwrap_response M evp bio t.enc_key message
        ≡ ok (record {
          status_code = status;
          body = body;
          headers = (received headers (addressed authority no_aad)).headers;
        })
  unwrap_response-build t iv path authority body context_id status headers twelve lo hi hp np ha hh
        h =
      let (word, ne) =
        word-parts (to_string status) (holds_below-true _ 600 status hi statuses_are_words) in
      let (parsed, read, _) =
        build_reformatted_data-read M gcm base64 t iv (to_string status) path authority body
          context_id headers twelve word hp ne np ha hh h in
      let out : ParsedAad = record no_aad { method = to_string status; path = path } in
      unwrap_response_lem t.enc_key _ _ status body lo hi parsed
        (received-method headers (addressed authority out) ∙ addressed-method authority out) read
      ∙ rw (
          received-headers headers (addressed authority out) (addressed authority no_aad)
            (addressed-headers authority out no_aad refl))
