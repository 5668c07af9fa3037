-- ===== src/Forward/Reformat.antt =====
-- The reformatted message: `build_reformatted_data`, and the request that
-- `create_n32f_process_request` makes of a service request.
use oai_cn5g_sepp.Base.{not, ◌&&◌, Option, [], ◌∷◌, Bytes, codes, ◌==◌, is_empty, if◌then◌else◌}
use oai_cn5g_sepp.Dict.{Headers}
use oai_cn5g_sepp.Json.{JsonLib}
use oai_cn5g_sepp.Models.{Models, FlatJweJson}
use oai_cn5g_sepp.Result.{Result, ok, ◌>>=◌}
use oai_cn5g_sepp.Jose.{
  Bio, Evp, base64url_encode, base64url_decode, apply_jwe_encryption, decrypt_jwe_payload,
}
use oai_cn5g_sepp.Forward.{Forward}
use oai_cn5g_sepp.Forward.Aad.{build_aad}

abbrev pub context_or_dummy : Bytes → Bytes
context_or_dummy context_id = if is_empty context_id then codes "dummy_context_id" else context_id

module _ {J : JsonLib} (M : Models J) (evp : Evp) (bio : Bio) where
  -- `protected_hdr`
  abbrev protected_header : Bytes → J.Json
  protected_header enc_key = J.object (
      (codes "alg", J.string (if is_empty enc_key then codes "dir" else codes "A128GCMKW"))
      ∷ (codes "enc", J.string (codes "A128GCM"))
      ∷ (codes "n32fMsgId", J.string (codes "1"))
      ∷ [])

  -- The message before its body.
  abbrev pub bare_message : Bytes → Bytes → Bytes → FlatJweJson J.Json
  bare_message enc_key aad_b64 context_id = record {
    r_protected = base64url_encode bio (J.dump (protected_header enc_key));
    aad = aad_b64;
    unprotected = M.context_info.to_json (record { n32f_context_id = context_id });
    ciphertext = [];
    iv = [];
    tag = [];
  }

  -- The body, encrypted if there is a key. `random` is what `RAND_bytes` yields for the IV.
  unfoldable pub with_body :
      Bytes → Option Bytes → Bytes → FlatJweJson J.Json → Result (FlatJweJson J.Json)
  with_body enc_key random [] message = ok message
  with_body [] random (c ∷ body) message =
      ok (record message { ciphertext = base64url_encode bio (c ∷ body) })
  with_body (k ∷ key) random (c ∷ body) message = do
    (iv_b64, ciphertext_b64, tag_b64) ←
        apply_jwe_encryption evp bio random (c ∷ body) message.aad (k ∷ key)
    ok (record message { iv = iv_b64; ciphertext = ciphertext_b64; tag = tag_b64 })

  unfoldable pub build_reformatted_data :
      Forward
      → Option Bytes
      → Bytes
      → Bytes
      → Bytes
      → Bytes
      → Bytes
      → Headers
      → Result (FlatJweJson J.Json)
  build_reformatted_data s random method_or_status path authority body context_id headers =
      with_body s.enc_key random body (
        bare_message s.enc_key
          (base64url_encode bio (build_aad method_or_status path authority headers)) context_id)

  -- With TLS the body is left as it is, which is null.
  unfoldable pub create_n32f_process_request :
      Forward → Option Bytes → Bytes → Bytes → Bytes → Bytes → Result J.Json
  create_n32f_process_request s random authority path method body =
      if s.security_capability == codes "TLS" then ok J.null else do
        reformatted_data ←
            build_reformatted_data s random method path authority body
              (context_or_dummy s.n32f_context_id) []
        ok (M.reformatted_req.to_json reformatted_data)

  -- The body of a message: decrypted where there are a key, an IV and a tag, else only decoded.
  unfoldable pub read_body : Bytes → FlatJweJson J.Json → Result Bytes
  read_body enc_key message =
      if is_empty message.ciphertext
      then ok []
      else if not (is_empty enc_key) && (not (is_empty message.iv) && not (is_empty message.tag))
      then decrypt_jwe_payload evp bio message.ciphertext message.aad message.iv message.tag enc_key
      else ok (base64url_decode bio message.ciphertext)
