-- ===== src/Jose.antt =====
-- The namespace `jose`: base64url and AES-128-GCM JWE (src/sepp_app/sepp_JOSE.cpp). OpenSSL is a
-- parameter: its base64 filter as `Bio`, its GCM calls, one by one, as `Evp`.
pub mod Padding
pub mod RoundTrip
use oai_cn5g_sepp.Base.{
  ℕ, zero, suc, ◌%◌, Bool, true, false, ◌&&◌, Option, none, some, [], ◌∷◌, ◌++◌, map, Bytes, length,
  ◌=?◌, if◌then◌else◌,
}
use oai_cn5g_sepp.Result.{Result, ok, fail, ◌>>=◌, ◌>>◌, require, or_fail}

-- `BIO_f_base64` with `BIO_FLAGS_BASE64_NO_NL`, written to and read from memory; `decode` is
-- `none` where `BIO_read` returns a negative size.
pub record Bio : Type 0 where
  pub encode : Bytes → Bytes
  pub decode : Bytes → Option Bytes

-- The loop of `base64url_encode` over the base64 text.
unfoldable pub to_url : Bytes → Bytes
to_url [] = []
to_url (c ∷ s) =
    let rest = to_url s in
    if c =? b'+'
    then b'-' ∷ rest
    else if c =? b'/'
    then b'_' ∷ rest
    else if c =? b'='
    then rest
    else c ∷ rest

-- The loop of `base64url_decode` over the characters.
unfoldable pub from_url : Bytes → Bytes
from_url [] = []
from_url (c ∷ s) = (if c =? b'-' then b'+' else if c =? b'_' then b'/' else c) ∷ from_url s

-- `while (b64.size() % 4 != 0) b64.push_back('=');`
unfoldable pub pad : ℕ → Bytes → Bytes
pad zero s = s
pad (suc fuel) s = let more = pad fuel (s ++ b'=' ∷ []) in if length s % 4 =? 0 then s else more

-- Three rounds at most.
abbrev pub pad_fuel : ℕ
pad_fuel = 3

unfoldable pub base64url_encode : Bio → Bytes → Bytes
base64url_encode bio input = to_url (bio.encode input)

abbrev or_empty : Option Bytes → Bytes
or_empty none = []
or_empty (some s) = s

unfoldable pub base64url_decode : Bio → Bytes → Bytes
base64url_decode bio input = or_empty (bio.decode (pad pad_fuel (from_url input)))

-- OpenSSL's EVP calls on a cipher context, for `EVP_aes_128_gcm()`. `none` is a result other
-- than 1; the result of the call that takes the additional data is not looked at by the source.
pub record Evp : Type 1 where
  pub Ctx : Type 0
  pub ctx_new : Option Ctx
  pub encrypt_init : Ctx → Option Ctx
  pub set_ivlen : Ctx → ℕ → Option Ctx
  pub encrypt_key_iv : Ctx → Bytes → Bytes → Option Ctx
  pub encrypt_aad : Ctx → Bytes → Ctx
  pub encrypt_update : Ctx → Bytes → Option (Bytes × Ctx)
  pub encrypt_final : Ctx → Option (Bytes × Ctx)
  pub get_tag : Ctx → ℕ → Option Bytes
  pub decrypt_init : Ctx → Option Ctx
  pub decrypt_key_iv : Ctx → Bytes → Bytes → Option Ctx
  pub decrypt_aad : Ctx → Bytes → Ctx
  pub decrypt_update : Ctx → Bytes → Option (Bytes × Ctx)
  pub set_tag : Ctx → Bytes → Option Ctx
  pub decrypt_final : Ctx → Option (Bytes × Ctx)

module _ (evp : Evp) where
  open evp use {
    ctx_new, encrypt_init, set_ivlen, encrypt_key_iv, encrypt_aad, encrypt_update, encrypt_final,
    get_tag, decrypt_init, decrypt_key_iv, decrypt_aad, decrypt_update, set_tag, decrypt_final,
  }

  -- The ciphertext and the tag.
  unfoldable pub gcm_encrypt : Bytes → Bytes → Bytes → Bytes → Result (Bytes × Bytes)
  gcm_encrypt key iv aad plaintext = do
    new ← or_fail ctx_new
    chosen ← or_fail (encrypt_init new)
    sized ← or_fail (set_ivlen chosen 12)
    keyed ← or_fail (encrypt_key_iv sized key iv)
    (ciphertext, updated) ← or_fail (encrypt_update (encrypt_aad keyed aad) plaintext)
    (last, finished) ← or_fail (encrypt_final updated)
    tag ← or_fail (get_tag finished 16)
    ok (ciphertext ++ last, tag)

  unfoldable pub gcm_decrypt : Bytes → Bytes → Bytes → Bytes → Bytes → Result Bytes
  gcm_decrypt key iv aad tag ciphertext = do
    new ← or_fail ctx_new
    chosen ← or_fail (decrypt_init new)
    sized ← or_fail (set_ivlen chosen (length iv))
    keyed ← or_fail (decrypt_key_iv sized key iv)
    (plaintext, updated) ← or_fail (decrypt_update (decrypt_aad keyed aad) ciphertext)
    tagged ← or_fail (set_tag updated tag)
    (last, finished) ← or_fail (decrypt_final tagged)
    ok (plaintext ++ last)

  module _ (bio : Bio) where
    -- `random` is what `RAND_bytes` puts into the IV, `none` where it fails. The result is the
    -- IV, the ciphertext and the tag, each in base64url.
    unfoldable pub apply_jwe_encryption :
        Option Bytes → Bytes → Bytes → Bytes → Result (Bytes × Bytes × Bytes)
    apply_jwe_encryption random plaintext aad_b64 key = do
      require (length key =? 16)
      iv ← or_fail random
      (ciphertext, tag) ← gcm_encrypt key iv aad_b64 plaintext
      ok (base64url_encode bio iv, base64url_encode bio ciphertext, base64url_encode bio tag)

    unfoldable pub decrypt_jwe_payload : Bytes → Bytes → Bytes → Bytes → Bytes → Result Bytes
    decrypt_jwe_payload ciphertext_b64 aad_b64 iv_b64 tag_b64 key = do
      let ciphertext_raw = base64url_decode bio ciphertext_b64
      let iv_raw = base64url_decode bio iv_b64
      let tag_raw = base64url_decode bio tag_b64
      require (length key =? 16 && (length iv_raw =? 12 && length tag_raw =? 16))
      gcm_decrypt key iv_raw aad_b64 tag_raw ciphertext_raw
