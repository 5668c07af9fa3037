-- ===== src/Jose/Padding.antt =====
-- The padding loop, and the two translations of the alphabet.
use mathlib.Core.List.{append-nil, append_assoc}
use oai_cn5g_sepp.Base.{
  ℕ, zero, suc, ◌+◌, ◌-◌, ◌%◌, ◌<◌, ◌≤◌, ◌≡◌, ◌≢◌, refl, sym, ◌∙◌, length-replicate, [], ◌∷◌, ◌++◌,
  Bytes, length, length-append, replicate, All, arith,
}
use oai_cn5g_sepp.Jose.{to_url, from_url, pad, pad_fuel, Bio, base64url_encode}

-- A byte of the base64 alphabet, without the padding character and the two of base64url.
abbrev pub IsPlain : ℕ → Type 0
IsPlain c = (c ≢ b'=') × (c ≢ b'-') × (c ≢ b'_')

abbrev pub IsUrlSafe : ℕ → Type 0
IsUrlSafe c = (c ≢ b'+') × (c ≢ b'/') × (c ≢ b'=')

to_url-IsUrlSafe : (s : Bytes) → All IsUrlSafe (to_url s)
unfolding to_url
to_url-IsUrlSafe [] = tt
to_url-IsUrlSafe (c ∷ s) = ground (arith, to_url-IsUrlSafe s)

to_url-replicate : (k : ℕ) → to_url (replicate k b'=') ≡ []
unfolding to_url
to_url-replicate zero = refl
to_url-replicate (suc k) = to_url-replicate k

-- The padding is dropped, and the rest translated and translated back.
pub from_url-to_url :
    (s : Bytes) (k : ℕ) → All IsPlain s → from_url (to_url (s ++ replicate k b'=')) ≡ s
unfolding to_url from_url
from_url-to_url [] k h = rw (to_url-replicate k)
from_url-to_url (c ∷ s) k (h, hs) = ground (arith, from_url-to_url s k hs)

-- The loop puts back the padding that makes the length a multiple of four.
pub pad-eq :
    (k fuel : ℕ) (s : Bytes)
    → k ≤ fuel
    → k < 4
    → (length s + k) % 4 ≡ 0
    → pad fuel s ≡ s ++ replicate k b'='
unfolding pad
pad-eq zero zero s h lt e = sym (append-nil s)
pad-eq zero (suc fuel) s h lt e = rw (append-nil s) (ground arith)
pad-eq (suc k) zero s h lt e = elim h [ ]
pad-eq (suc k) (suc fuel) s h lt e = ground (
  arith,
  pad-eq k fuel (s ++ b'=' ∷ []),
  length-append s (b'=' ∷ []),
  append_assoc s (b'=' ∷ []) (replicate k b'='),
)

-- What base64url_encode returns holds no '+', no '/' and no '=', whatever the filter wrote.
pub base64url_encode-IsUrlSafe :
    (bio : Bio) (input : Bytes) → All IsUrlSafe (base64url_encode bio input)
unfolding base64url_encode
base64url_encode-IsUrlSafe bio input = to_url-IsUrlSafe (bio.encode input)

-- The bytes that are missing to a multiple of four.
abbrev missing : Bytes → ℕ
missing s = (4 - length s % 4) % 4

-- Three rounds end the padding loop on any text: with three rounds or more it returns the same, the
-- text with at most three '=' behind it, whose length is a multiple of four.
pub pad-pad_fuel :
    (fuel : ℕ) (s : Bytes)
    → pad_fuel ≤ fuel
    → (pad fuel s ≡ pad pad_fuel s)
      × (length (pad pad_fuel s) % 4 ≡ 0)
      × (k : ℕ) × (k ≤ 3)
      × (pad pad_fuel s ≡ s ++ replicate k b'=')
pad-pad_fuel fuel s h =
    let few : missing s ≤ 3 = omega arith in
    let whole : (length s + missing s) % 4 ≡ 0 = omega arith in
    let e = pad-eq (missing s) pad_fuel s few (omega (arith, few)) whole in
    let e' = pad-eq (missing s) fuel s (omega (arith, few, h)) (omega (arith, few)) whole in
    (
      e' ∙ sym e,
      rw
          (
            e,
            length-append s (replicate (missing s) b'='),
            length-replicate {A = ℕ} (missing s) b'=',
          )
          whole,
      missing s,
      few,
      e,
    )
