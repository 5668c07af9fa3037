-- ===== src/Forward/Transparency.antt =====
-- What one SEPP wraps, its peer unwraps.
use mathlib.Core.Path.{subst}
use oai_cn5g_sepp.Base.{
  ◌≡◌, ◌≢◌, refl, ap, ◌∙◌, false, some, [], ◌∷◌, Bytes, codes, ◌==◌, ==-false, is_empty, length,
}
use oai_cn5g_sepp.Search.{Lacks}
use oai_cn5g_sepp.Dict.{Headers, insert}
use oai_cn5g_sepp.Json.{JsonLib}
use oai_cn5g_sepp.Models.{Models, FlatJweJson, IsCodec}
use oai_cn5g_sepp.Http.{force_http}
use oai_cn5g_sepp.Result.{Result, ok, >>=-eq-ok}
use oai_cn5g_sepp.Jose.{Bio, Evp, apply_jwe_encryption, base64url_encode, base64url_decode}
use oai_cn5g_sepp.Jose.RoundTrip.{
  IsBase64, IsGcm, base64url_decode-base64url_encode, is_empty-encode,
  decrypt_jwe_payload-apply_jwe_encryption, apply_jwe_encryption-ne-nil,
}
use oai_cn5g_sepp.Forward.{Forward}
use oai_cn5g_sepp.Forward.Url.{extract_plmn_from_path}
use oai_cn5g_sepp.Forward.Aad.{build_aad, parse_aad, no_aad, ParsedAad}
use oai_cn5g_sepp.Forward.Aad.Lines.{NoSpace}
use oai_cn5g_sepp.Forward.Aad.RoundTrip.{received, ProperNames, addressed, parse_aad-build_aad}
use oai_cn5g_sepp.Forward.Reformat.{
  bare_message, with_body, build_reformatted_data, context_or_dummy, create_n32f_process_request,
  read_body,
}
use oai_cn5g_sepp.Forward.Process.{named_context, context_of, unwrap_request}

pub ok-eq : {A : Type 0} {a b : A} → ◌≡◌ {A = Result A} (ok a) (ok b) → a ≡ b
ok-eq h = cc

module _ {J : JsonLib} (M : Models J) {evp : Evp} {bio : Bio} (gcm : IsGcm evp)
    (base64 : IsBase64 bio) where
  -- The body comes back, and the rest of the message is as it was.
  abbrev Carries : Bytes → Bytes → FlatJweJson J.Json → FlatJweJson J.Json → Type 0
  Carries key body message message' =
      (read_body M evp bio key message' ≡ ok body)
      × (message'.aad ≡ message.aad)
      × (message'.unprotected ≡ message.unprotected)

  with_body-Carries :
      (key iv body : Bytes) (message : FlatJweJson J.Json) {message' : FlatJweJson J.Json}
      → length iv ≡ 12
      → message.ciphertext ≡ []
      → with_body M evp bio key (some iv) body message ≡ ok message'
      → Carries key body message message'
  unfolding with_body read_body
  with_body-Carries key iv [] message twelve bare h =
      subst (Carries key [] message) (ok-eq h) (rw bare, refl, refl)
  with_body-Carries [] iv (c ∷ body) message twelve bare h =
      subst (Carries [] (c ∷ body) message) (ok-eq h) (
        rw (
          is_empty-encode base64 (c ∷ body) (λ e. cc),
          base64url_decode-base64url_encode base64 (c ∷ body),
        ),
        refl,
        refl,
      )
  with_body-Carries (k ∷ key) iv (c ∷ body) message {message'} twelve bare h =
      let ((iv_b64, ciphertext_b64, tag_b64), done, h') =
        >>=-eq-ok (apply_jwe_encryption evp bio (some iv) (c ∷ body) message.aad (k ∷ key)) _ h in
      let (_, decrypted) =
        decrypt_jwe_payload-apply_jwe_encryption gcm base64 iv (c ∷ body) message.aad (k ∷ key)
          twelve done in
      let (e₁, e₂, e₃) =
        apply_jwe_encryption-ne-nil gcm base64 iv (c ∷ body) message.aad (k ∷ key) twelve (λ e. cc)
          done in
      subst (Carries (k ∷ key) (c ∷ body) message) (ok-eq h')
        (rw (e₁, e₂, e₃) decrypted, refl, refl)

  -- A message built for a method or status, a path, an authority and a body, and read with the
  -- same key: its text parses back, its body comes back, and it names the context.
  pub build_reformatted_data-read :
      (s : Forward) (iv m p authority body context_id : Bytes) (headers : Headers)
      {message : FlatJweJson J.Json}
      → length iv ≡ 12
      → NoSpace m
      → NoSpace p
      → m ≢ []
      → p ≢ []
      → Lacks b'\n' authority
      → ProperNames headers
      → build_reformatted_data M evp bio s (some iv) m p authority body context_id headers
        ≡ ok message
      → (parse_aad (base64url_decode bio message.aad) no_aad
          ≡ some (received headers (addressed authority (record no_aad { method = m; path = p }))))
        × (read_body M evp bio s.enc_key message ≡ ok body)
        × (message.unprotected ≡ M.context_info.to_json (record { n32f_context_id = context_id }))
  unfolding build_reformatted_data
  build_reformatted_data-read s iv m p authority body context_id headers twelve hm hp nm np ha hh
        h =
      let (body', aad', unprotected') =
        with_body-Carries s.enc_key iv body
          (bare_message M evp bio s.enc_key (base64url_encode bio (build_aad m p authority headers))
            context_id)
          twelve refl h in
      (
        rw (aad', base64url_decode-base64url_encode base64)
            (parse_aad-build_aad m p authority headers hm hp nm np ha hh),
        body',
        unprotected',
      )

  context_of_lem :
      IsCodec J M.context_info
      → (req_data : J.Json) (message : FlatJweJson J.Json) (context_id : Bytes)
      → is_empty context_id ≡ false
      → message.unprotected ≡ M.context_info.to_json (record { n32f_context_id = context_id })
      → context_of M req_data message ≡ ok context_id
  unfolding context_of named_context
  context_of_lem c req_data message context_id ne e =
      rw (e, c.is_object-to_json, c.from_json-to_json, ne, ne)

  unwrap_request_lem :
      (t : Forward) (message : FlatJweJson J.Json) (parsed : ParsedAad) (body : Bytes)
      → parse_aad (base64url_decode bio message.aad) no_aad ≡ some parsed
      → read_body M evp bio t.enc_key message ≡ ok body
      → unwrap_request M evp bio t message
        ≡ ok (record {
          method = parsed.method;
          path = parsed.path;
          authority = parsed.authority;
          headers = parsed.headers;
          body = body;
          mcc = (extract_plmn_from_path J parsed.path ([], [])).0;
          mnc = (extract_plmn_from_path J parsed.path ([], [])).1;
        })
  unfolding unwrap_request
  unwrap_request_lem t message parsed body e b = rw (e, b)

  context_or_dummy-IsFull : (context_id : Bytes) → is_empty (context_or_dummy context_id) ≡ false
  context_or_dummy-IsFull [] = refl
  context_or_dummy-IsFull (c ∷ s) = refl

  -- The two headers that an authority which is not empty brings.
  received-addressed :
      (authority : Bytes) (out : ParsedAad)
      → authority ≢ []
      → out.headers ≡ []
      → received [] (addressed authority out) ≡ record out {
        authority = authority;
        headers =
            (codes "authority", authority)
            ∷ (codes "3gpp-sbi-target-apiroot", force_http authority)
            ∷ [];
      }
  unfolding insert ◌==◌
  received-addressed [] out ne e = absurd (ne refl)
  received-addressed (a ∷ s) out ne e = rw e

  -- Over a lawful cipher, base64 filter and model classes, for a capability other than TLS, the
  -- same key at both ends or none, a twelve byte IV, a method and a path that are not empty and
  -- hold no space, and an authority that is not empty and holds no line end: a request that a SEPP
  -- creates for these and a body is read by its peer as exactly that request, under the sender's
  -- context, with the authority and its API root as the only headers.
  pub unwrap_request-create :
      IsCodec J M.reformatted_req
      → IsCodec J M.context_info
      → (s t : Forward) (iv m p authority body : Bytes) {req_data : J.Json}
      → s.security_capability ≢ codes "TLS"
      → t.enc_key ≡ s.enc_key
      → length iv ≡ 12
      → NoSpace m
      → NoSpace p
      → m ≢ []
      → p ≢ []
      → authority ≢ []
      → Lacks b'\n' authority
      → create_n32f_process_request M evp bio s (some iv) authority p m body ≡ ok req_data
      → (message : FlatJweJson J.Json) × (M.reformatted_req.from_json req_data ≡ some message)
        × (context_of M req_data message ≡ ok (context_or_dummy s.n32f_context_id))
        × (unwrap_request M evp bio t message
            ≡ ok (record {
              method = m;
              path = p;
              authority = authority;
              headers =
                  (codes "authority", authority)
                  ∷ (codes "3gpp-sbi-target-apiroot", force_http authority)
                  ∷ [];
              body = body;
              mcc = (extract_plmn_from_path J p ([], [])).0;
              mnc = (extract_plmn_from_path J p ([], [])).1;
            }))
  unfolding create_n32f_process_request
  unwrap_request-create q c s t iv m p authority body {req_data} tls key twelve hm hp nm np na ha
        h =
      let (message, built, h') =
        >>=-eq-ok
          (build_reformatted_data M evp bio s (some iv) m p authority body
            (context_or_dummy s.n32f_context_id) [])
          _ (rw (==-false tls) at h) in
      let (parsed, read, unprotected) =
        build_reformatted_data-read s iv m p authority body (context_or_dummy s.n32f_context_id) []
          twelve hm hp nm np ha tt built in
      (
        message,
        rw (← ok-eq h') (q.from_json-to_json message),
        context_of_lem c req_data message (context_or_dummy s.n32f_context_id)
            (context_or_dummy-IsFull s.n32f_context_id) unprotected,
        unwrap_request_lem t message _ body
            (parsed
              ∙ ap some
                  (received-addressed authority (record no_aad { method = m; path = p }) na refl))
            (rw key read),
      )
