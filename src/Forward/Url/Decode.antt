-- ===== src/Forward/Url/Decode.antt =====
-- `url_decode` against the encodings of a text: a byte may stand for itself, for a blank as '+', or
-- be written as '%' and two hexadecimal digits, of either case.
use oai_cn5g_sepp.Base.{ℕ, ◌+◌, ◌*◌, ◌≤◌, ◌<◌, ◌≡◌, ◌≢◌, refl, ◌∙◌, arith, [], ◌∷◌, Bytes}
use oai_cn5g_sepp.Forward.Url.{plus_to_space, url_decode}

-- The byte `c` is the hexadecimal digit of `n`.
pub data HexDigit (c n : ℕ) : Type 0 where
  decimal : n < 10 → c ≡ b'0' + n → HexDigit c n
  lower : 10 ≤ n → n < 16 → c + 10 ≡ b'a' + n → HexDigit c n
  upper : 10 ≤ n → n < 16 → c + 10 ≡ b'A' + n → HexDigit c n

-- `Encodes e s`: the text `e` is an encoding of the bytes `s`.
pub data Encodes : Bytes → Bytes → Type 0 where
  ended : Encodes [] []
  kept : (c : ℕ) {e s : Bytes} → c ≢ b'%' → c ≢ b'+' → Encodes e s → Encodes (c ∷ e) (c ∷ s)
  blank : (c d : ℕ) {e s : Bytes} → c ≡ b'+' → d ≡ b' ' → Encodes e s → Encodes (c ∷ e) (d ∷ s)
  escaped :
      (c a b hi lo n : ℕ) {e s : Bytes}
      → c ≡ b'%'
      → HexDigit a hi
      → HexDigit b lo
      → n ≡ hi * 16 + lo
      → Encodes e s
      → Encodes (c ∷ a ∷ b ∷ e) (n ∷ s)

-- A byte other than '%' is decoded by itself.
url_decode-cons :
    (c : ℕ) (e : Bytes) → c ≢ b'%' → url_decode (c ∷ e) ≡ (plus_to_space c) ∷ url_decode e
unfolding url_decode
url_decode-cons c [] ne = refl
url_decode-cons c (a ∷ []) ne = refl
url_decode-cons c (a ∷ b ∷ e) ne = ground arith

-- `url_decode` yields the text, whichever encoding of it is given.
pub url_decode-Encodes : {e s : Bytes} → Encodes e s → url_decode e ≡ s
unfolding url_decode
url_decode-Encodes ended = refl
url_decode-Encodes (kept c p q h) = url_decode-cons c _ p ∙ ground (arith, url_decode-Encodes h)
url_decode-Encodes (blank c d p q h) = ground (arith, url_decode-Encodes h)
url_decode-Encodes (escaped c a b hi lo n p da db q h) = ground (arith, url_decode-Encodes h)
