-- ===== src/Examples/Jose.antt =====
-- base64url and JWE at the filter and the cipher of the examples.
use oai_cn5g_sepp.Base.{
  ℕ, ◌%◌, ◌≤◌, ◌++◌, arith, ◌≡◌, refl, some, Bytes, codes, length, replicate, All,
}
use oai_cn5g_sepp.Result.{ok}
use oai_cn5g_sepp.Jose.{
  pad, pad_fuel, base64url_encode, base64url_decode, gcm_encrypt, apply_jwe_encryption,
  decrypt_jwe_payload,
}
use oai_cn5g_sepp.Jose.Padding.{IsUrlSafe, pad-pad_fuel, base64url_encode-IsUrlSafe}
use oai_cn5g_sepp.Jose.RoundTrip.{
  base64url_decode-base64url_encode, decrypt_jwe_payload-apply_jwe_encryption,
}
use oai_cn5g_sepp.Examples.Crypto.{bio, bio-IsBase64, evp, evp-IsGcm}

base64url_encode-IsUrlSafe_example : All IsUrlSafe (base64url_encode bio (codes "n32"))
base64url_encode-IsUrlSafe_example = base64url_encode-IsUrlSafe bio (codes "n32")

base64url_decode-base64url_encode_example :
    base64url_decode bio (base64url_encode bio (codes "n32")) ≡ codes "n32"
base64url_decode-base64url_encode_example =
    base64url_decode-base64url_encode bio-IsBase64 (codes "n32")

abbrev key : Bytes
key = replicate 16 b'k'

abbrev iv : Bytes
iv = replicate 12 7

-- The three parts of the encryption of "n32", in base64url.
abbrev iv_b64 : Bytes
iv_b64 = base64url_encode bio iv

abbrev ciphertext_b64 : Bytes
ciphertext_b64 = base64url_encode bio (codes "o43")

abbrev tag_b64 : Bytes
tag_b64 = base64url_encode bio (replicate 16 0)

encrypted :
    apply_jwe_encryption evp bio (some iv) (codes "n32") (codes "aad") key
    ≡ ok (iv_b64, ciphertext_b64, tag_b64)
unfolding apply_jwe_encryption gcm_encrypt
encrypted = refl

decrypt_jwe_payload-apply_jwe_encryption_example :
    (length key ≡ 16)
    × (decrypt_jwe_payload evp bio ciphertext_b64 (codes "aad") iv_b64 tag_b64 key
        ≡ ok (codes "n32"))
decrypt_jwe_payload-apply_jwe_encryption_example =
    decrypt_jwe_payload-apply_jwe_encryption evp-IsGcm bio-IsBase64 iv (codes "n32") (codes "aad")
      key refl encrypted

pad-pad_fuel_example :
    (pad 7 (codes "bjM") ≡ pad pad_fuel (codes "bjM"))
    × (length (pad pad_fuel (codes "bjM")) % 4 ≡ 0)
    × (k : ℕ) × (k ≤ 3)
    × (pad pad_fuel (codes "bjM") ≡ codes "bjM" ++ replicate k b'=')
pad-pad_fuel_example = pad-pad_fuel 7 (codes "bjM") (omega arith)
