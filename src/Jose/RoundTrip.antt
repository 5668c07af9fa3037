-- ===== src/Jose/RoundTrip.antt =====
-- What is encoded is decoded, and what is encrypted is decrypted, over a base64 filter and a GCM
-- cipher that do what OpenSSL documents.
use oai_cn5g_sepp.Base.{
  ℕ, suc, ◌+◌, ◌%◌, ◌<◌, ◌≡◌, ◌≢◌, refl, sym, ap, ◌∙◌, is_empty, false, some, [], ◌∷◌, ◌++◌, Bytes,
  length, replicate, All, arith, ◌=?◌, =?-eq,
}
use oai_cn5g_sepp.Result.{Result, ok, require, >>=-eq-ok, require-eq-ok}
use oai_cn5g_sepp.Jose.{
  Bio, Evp, from_url, to_url, pad, pad_fuel, base64url_encode, base64url_decode, gcm_encrypt,
  gcm_decrypt, apply_jwe_encryption, decrypt_jwe_payload,
}
use oai_cn5g_sepp.Jose.Padding.{IsPlain, from_url-to_url, pad-eq}

-- RFC 4648, section 4: bytes of the alphabet, then at most two padding characters, four bytes in
-- each group; and the filter reads back what it wrote.
pub record IsBase64 (bio : Bio) : Type 0 where
  pub decode-encode : (s : Bytes) → bio.decode (bio.encode s) ≡ some s
  pub encode-nil : bio.encode [] ≡ []
  pub shape :
      (s : Bytes)
      → (body : Bytes) × (k : ℕ) × (bio.encode s ≡ body ++ replicate k b'=')
        × All IsPlain body
        × (k < 3)
        × ((length body + k) % 4 ≡ 0)

-- A GCM cipher decrypts, with the same key, IV and additional data, what it encrypted, and its
-- tag has the sixteen bytes that were asked for; the ciphertext is as long as the plaintext.
pub record IsGcm (evp : Evp) : Type 0 where
  pub gcm_decrypt-gcm_encrypt :
      (key iv aad plaintext ciphertext tag : Bytes)
      → length key ≡ 16
      → length iv ≡ 12
      → gcm_encrypt evp key iv aad plaintext ≡ ok (ciphertext, tag)
      → (length tag ≡ 16)
        × (length ciphertext ≡ length plaintext)
        × (gcm_decrypt evp key iv aad tag ciphertext ≡ ok plaintext)

-- Over a lawful base64 filter, base64url_decode gives back what base64url_encode was given.
pub base64url_decode-base64url_encode :
    {bio : Bio} → IsBase64 bio → (s : Bytes) → base64url_decode bio (base64url_encode bio s) ≡ s
unfolding base64url_decode base64url_encode
base64url_decode-base64url_encode {bio} base64 s =
    let (body, k, e, plain, few, groups) = base64.shape s in
    let translated : from_url (to_url (bio.encode s)) ≡ body =
      rw e (from_url-to_url body k plain) in
    let padded : pad pad_fuel body ≡ bio.encode s =
      rw e (pad-eq k pad_fuel body (omega arith) (omega arith) groups) in
    rw (translated, padded, base64.decode-encode s)

ok-triple :
    {A B C : Type 0} {a a' : A} {b b' : B} {c c' : C}
    → ◌≡◌ {A = Result (A × B × C)} (ok (a, b, c)) (ok (a', b', c'))
    → (a ≡ a') × (b ≡ b') × (c ≡ c')
ok-triple h = ground (arith, h)

decoded :
    {bio : Bio}
    → IsBase64 bio
    → (s : Bytes) {t : Bytes} → base64url_encode bio s ≡ t
    → base64url_decode bio t ≡ s
decoded base64 s e = rw e at (base64url_decode-base64url_encode base64 s)

decrypt_jwe_payload_of_parts :
    (evp : Evp) {bio : Bio}
    → IsBase64 bio
    → (iv plaintext aad key ciphertext tag : Bytes) {iv_b64 ciphertext_b64 tag_b64 : Bytes}
    → base64url_encode bio iv ≡ iv_b64
    → base64url_encode bio ciphertext ≡ ciphertext_b64
    → base64url_encode bio tag ≡ tag_b64
    → length key ≡ 16
    → length iv ≡ 12
    → length tag ≡ 16
    → gcm_decrypt evp key iv aad tag ciphertext ≡ ok plaintext
    → decrypt_jwe_payload evp bio ciphertext_b64 aad iv_b64 tag_b64 key ≡ ok plaintext
unfolding decrypt_jwe_payload
decrypt_jwe_payload_of_parts evp base64 iv plaintext aad key ciphertext tag e₁ e₂ e₃ k n t d =
    rw (decoded base64 iv e₁, decoded base64 ciphertext e₂, decoded base64 tag e₃, k, n, t) d

-- Over a lawful cipher and base64 filter: a payload that apply_jwe_encryption encrypted with a
-- twelve byte IV had a sixteen byte key, and decrypt_jwe_payload, given the same key and the same
-- additional data, gives the payload back.
pub decrypt_jwe_payload-apply_jwe_encryption :
    {evp : Evp} {bio : Bio}
    → IsGcm evp
    → IsBase64 bio
    → (iv plaintext aad_b64 key : Bytes) {iv_b64 ciphertext_b64 tag_b64 : Bytes} → length iv ≡ 12
    → apply_jwe_encryption evp bio (some iv) plaintext aad_b64 key
      ≡ ok (iv_b64, ciphertext_b64, tag_b64)
    → (length key ≡ 16)
      × (decrypt_jwe_payload evp bio ciphertext_b64 aad_b64 iv_b64 tag_b64 key ≡ ok plaintext)
unfolding apply_jwe_encryption
decrypt_jwe_payload-apply_jwe_encryption {evp} {bio} gcm base64 iv plaintext aad key twelve h =
    let (_, sized, h₁) = >>=-eq-ok (require (length key =? 16)) _ h in
    let ((ciphertext, tag), done, h₂) = >>=-eq-ok (gcm_encrypt evp key iv aad plaintext) _ h₁ in
    let key_size = =?-eq _ _ (require-eq-ok _ sized) in
    let (tag_size, _, decrypted) =
      gcm.gcm_decrypt-gcm_encrypt key iv aad plaintext ciphertext tag key_size twelve done in
    let (e₁, e₂, e₃) = ok-triple h₂ in
    (
      key_size,
      decrypt_jwe_payload_of_parts evp base64 iv plaintext aad key ciphertext tag e₁ e₂ e₃ key_size
          twelve tag_size decrypted,
    )

base64url_encode-nil : {bio : Bio} → IsBase64 bio → base64url_encode bio [] ≡ []
unfolding base64url_encode to_url
base64url_encode-nil base64 = rw base64.encode-nil

-- Only the empty text is encoded as the empty text.
base64url_encode-eq-nil :
    {bio : Bio} → IsBase64 bio → (s : Bytes) → base64url_encode bio s ≡ [] → s ≡ []
base64url_encode-eq-nil {bio} base64 s h =
    sym (base64url_decode-base64url_encode base64 s)
    ∙ (ap (base64url_decode bio) (h ∙ sym (base64url_encode-nil base64))
        ∙ base64url_decode-base64url_encode base64 [])

pub is_empty-encode :
    {bio : Bio} → IsBase64 bio → (s : Bytes) → s ≢ [] → is_empty (base64url_encode bio s) ≡ false
is_empty-encode {bio} base64 s ne = go (base64url_encode bio s) refl
  where
    go : (t : Bytes) → base64url_encode bio s ≡ t → is_empty t ≡ false
    go [] e = absurd (ne (base64url_encode-eq-nil base64 s e))
    go (c ∷ t) e = refl

ne-nil_of_length : (s : Bytes) (n : ℕ) → length s ≡ suc n → s ≢ []
ne-nil_of_length s n h e = absurd (omega (arith, ap length e))

-- What `apply_jwe_encryption` makes of a payload that is not empty is not empty in any part.
pub apply_jwe_encryption-ne-nil :
    {evp : Evp} {bio : Bio}
    → IsGcm evp
    → IsBase64 bio
    → (iv plaintext aad_b64 key : Bytes) {iv_b64 ciphertext_b64 tag_b64 : Bytes} → length iv ≡ 12
    → plaintext ≢ []
    → apply_jwe_encryption evp bio (some iv) plaintext aad_b64 key
      ≡ ok (iv_b64, ciphertext_b64, tag_b64)
    → (is_empty iv_b64 ≡ false) × (is_empty ciphertext_b64 ≡ false) × (is_empty tag_b64 ≡ false)
unfolding apply_jwe_encryption
apply_jwe_encryption-ne-nil {evp} {bio} gcm base64 iv plaintext aad key twelve ne h =
    let (_, sized, h₁) = >>=-eq-ok (require (length key =? 16)) _ h in
    let ((ciphertext, tag), done, h₂) = >>=-eq-ok (gcm_encrypt evp key iv aad plaintext) _ h₁ in
    let (tag_size, size, _) =
      gcm.gcm_decrypt-gcm_encrypt key iv aad plaintext ciphertext tag
        (=?-eq _ _ (require-eq-ok _ sized)) twelve done in
    let (e₁, e₂, e₃) = ok-triple h₂ in
    (
      rw e₁ at (is_empty-encode base64 iv (ne-nil_of_length iv 11 twelve)),
      rw e₂ at (
          is_empty-encode base64 ciphertext
            (λ e. ne (length-eq-zero plaintext (sym size ∙ ap length e)))),
      rw e₃ at (is_empty-encode base64 tag (ne-nil_of_length tag 15 tag_size)),
    )
  where
    length-eq-zero : (s : Bytes) → length s ≡ 0 → s ≡ []
    length-eq-zero [] e = refl
    length-eq-zero (c ∷ s) e = absurd (omega arith)
