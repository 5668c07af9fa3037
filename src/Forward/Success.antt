-- ===== src/Forward/Success.antt =====
-- When a message can be built: with no key, or with one that the cipher takes.
use oai_cn5g_sepp.Base.{◌≡◌, refl, ◌⊎◌, inl, inr, some, [], ◌∷◌, Bytes, length}
use oai_cn5g_sepp.Dict.{Headers}
use oai_cn5g_sepp.Json.{JsonLib}
use oai_cn5g_sepp.Models.{Models, FlatJweJson}
use oai_cn5g_sepp.Result.{ok}
use oai_cn5g_sepp.Jose.{Bio, Evp, gcm_encrypt, base64url_encode, apply_jwe_encryption}
use oai_cn5g_sepp.Forward.{Forward}
use oai_cn5g_sepp.Forward.Reformat.{with_body, build_reformatted_data}

-- No key, or one that AES-128 takes.
abbrev pub IsKey : Bytes → Type 0
IsKey key = (key ≡ []) ⊎ (length key ≡ 16)

-- Encryption does not fail on a key and an IV of the right sizes.
pub record IsWorking (evp : Evp) : Type 0 where
  pub gcm_encrypt-ok :
      (key iv aad plaintext : Bytes)
      → length key ≡ 16
      → length iv ≡ 12
      → (ciphertext : Bytes) × (tag : Bytes) × (gcm_encrypt evp key iv aad plaintext
          ≡ ok (ciphertext, tag))

module _ {J : JsonLib} (M : Models J) (evp : Evp) (bio : Bio) (working : IsWorking evp) where
  with_body-ok :
      (key iv body : Bytes) (message : FlatJweJson J.Json)
      → IsKey key
      → length iv ≡ 12
      → (message' : FlatJweJson J.Json) × (with_body M evp bio key (some iv) body message
          ≡ ok message')
  unfolding with_body apply_jwe_encryption
  with_body-ok key iv [] message k n = (message, refl)
  with_body-ok [] iv (c ∷ body) message k n = (_, refl)
  with_body-ok (b ∷ key) iv (c ∷ body) message (inl e) n = absurd (cc)
  with_body-ok (b ∷ key) iv (c ∷ body) message (inr e) n =
      let (ciphertext, tag, done) =
        working.gcm_encrypt-ok (b ∷ key) iv message.aad (c ∷ body) e n in
      (
        record message {
          iv = base64url_encode bio iv;
          ciphertext = base64url_encode bio ciphertext;
          tag = base64url_encode bio tag;
        },
        rw (e, done) refl,
      )

  pub build_reformatted_data-ok :
      (s : Forward) (iv m p authority body context_id : Bytes) (headers : Headers)
      → IsKey s.enc_key
      → length iv ≡ 12
      → (message : FlatJweJson J.Json) × (build_reformatted_data M evp bio s
            (some iv)
            m
            p
            authority
            body
            context_id
            headers
          ≡ ok message)
  unfolding build_reformatted_data
  build_reformatted_data-ok s iv m p authority body context_id headers k n =
      with_body-ok s.enc_key iv body _ k n
