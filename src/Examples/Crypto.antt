-- ===== src/Examples/Crypto.antt =====
-- A base64 filter and a cipher to run the code with.
use mathlib.Core.List.{append-nil}
use oai_cn5g_sepp.Base.{
  suc, ◌+◌, ◌-◌, ◌%◌, ◌≡◌, refl, ap, Option, none, some, [], ◌∷◌, ◌++◌, map, Bytes, length,
  replicate, All, arith,
}
use oai_cn5g_sepp.Result.{Result, ok}
use oai_cn5g_sepp.Jose.{Bio, Evp, gcm_encrypt, gcm_decrypt}
use oai_cn5g_sepp.Jose.Padding.{IsPlain}
use oai_cn5g_sepp.Jose.RoundTrip.{IsBase64, IsGcm}
use oai_cn5g_sepp.Forward.Success.{IsWorking}

-- Each byte as a group of four, so that nothing is left to pad.
unfoldable pub groups : Bytes → Bytes
groups [] = []
groups (c ∷ s) = (c + 128) ∷ b'A' ∷ b'A' ∷ b'A' ∷ groups s

unfoldable pub ungroup : Bytes → Option Bytes
ungroup (c ∷ a₁ ∷ a₂ ∷ a₃ ∷ s) = elim (ungroup s) [ none ↦ none | some t ↦ some ((c - 128) ∷ t) ]
ungroup [] = some []
ungroup s = none

abbrev pub bio : Bio
bio = record { encode = groups; decode = ungroup }

ungroup-groups : (s : Bytes) → ungroup (groups s) ≡ some s
unfolding groups ungroup
ungroup-groups [] = refl
ungroup-groups (c ∷ s) = rw (ungroup-groups s) (ap (λ b. some (b ∷ s)) (omega arith))

groups-IsPlain : (s : Bytes) → All IsPlain (groups s)
unfolding groups
groups-IsPlain [] = tt
groups-IsPlain (c ∷ s) = (
  (λ e. omega (arith, e), λ e. omega (arith, e), λ e. omega (arith, e)),
  (omega arith, (omega arith, (omega arith, groups-IsPlain s))),
)

length-groups : (s : Bytes) → length (groups s) % 4 ≡ 0
unfolding groups
length-groups [] = omega arith
length-groups (c ∷ s) = omega (arith, length-groups s)

pub bio-IsBase64 : IsBase64 bio
unfolding groups ungroup
bio-IsBase64 = record {
  decode-encode = ungroup-groups;
  encode-nil = refl;
  shape = λ s.
      (groups s, 0, sym_append s, groups-IsPlain s, omega arith, omega (arith, length-groups s));
}
  where
    sym_append : (s : Bytes) → groups s ≡ groups s ++ []
    sym_append s = rw (append-nil (groups s))

-- It adds one to each byte, and its tag is zero throughout.
abbrev pub evp : Evp
evp = record {
  Ctx = Unit;
  ctx_new = some tt;
  encrypt_init = λ c. some c;
  set_ivlen = λ c n. some c;
  encrypt_key_iv = λ c key iv. some c;
  encrypt_aad = λ c aad. c;
  encrypt_update = λ c s. some (map suc s, c);
  encrypt_final = λ c. some ([], c);
  get_tag = λ c n. some (replicate n 0);
  decrypt_init = λ c. some c;
  decrypt_key_iv = λ c key iv. some c;
  decrypt_aad = λ c aad. c;
  decrypt_update = λ c s. some (map (λ b. b - 1) s, c);
  set_tag = λ c tag. some c;
  decrypt_final = λ c. some ([], c);
}

ok-pair :
    {a b c d : Bytes} → ◌≡◌ {A = Result (Bytes × Bytes)} (ok (a, b)) (ok (c, d)) → (a ≡ c) × (b ≡ d)
ok-pair h = ground (arith, h)

length-map-suc : (s : Bytes) → length (map suc s ++ []) ≡ length s
length-map-suc [] = refl
length-map-suc (c ∷ s) = ap suc (length-map-suc s)

map_pred-map-suc : (s : Bytes) → map (λ b. b - 1) (map suc s ++ []) ++ [] ≡ s
map_pred-map-suc [] = refl
map_pred-map-suc (c ∷ s) = rw (map_pred-map-suc s) (ap (λ b. b ∷ s) (omega arith))

pub evp-IsGcm : IsGcm evp
unfolding gcm_encrypt gcm_decrypt
evp-IsGcm = record { gcm_decrypt-gcm_encrypt = reads }
  where
    reads :
        (key iv aad plaintext ciphertext tag : Bytes)
        → length key ≡ 16
        → length iv ≡ 12
        → gcm_encrypt evp key iv aad plaintext ≡ ok (ciphertext, tag)
        → (length tag ≡ 16)
          × (length ciphertext ≡ length plaintext)
          × (gcm_decrypt evp key iv aad tag ciphertext ≡ ok plaintext)
    reads key iv aad plaintext ciphertext tag k n h =
        let (e, e') = ok-pair h in
        (
          rw (← e') refl,
          rw (← e) (length-map-suc plaintext),
          rw (← e) (ap ok (map_pred-map-suc plaintext)),
        )

pub evp-IsWorking : IsWorking evp
unfolding gcm_encrypt
evp-IsWorking = record {
  gcm_encrypt-ok = λ key iv aad plaintext k n. (map suc plaintext ++ [], replicate 16 0, refl);
}
