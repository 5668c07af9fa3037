-- ===== src/Forward/Aad/Lines.antt =====
-- The pieces, words and lines that a written text falls into.
use oai_cn5g_sepp.Base.{◌≡◌, ◌≢◌, refl, ap, true, false, [], ◌∷◌, ◌++◌, Bytes, All, arith}
use oai_cn5g_sepp.Search.{Lacks}
use oai_cn5g_sepp.Forward.Aad.{
  is_one_line, ParsedAad, strip_cr, is_space, skip_space, span_word, read_word, parse_request_line,
}

pub strip_cr-append : (s : Bytes) → strip_cr (s ++ b'\r' ∷ []) ≡ s
unfolding strip_cr
strip_cr-append [] = refl
strip_cr-append (c ∷ []) = refl
strip_cr-append (c ∷ d ∷ s) = ap (◌∷◌ c) (strip_cr-append (d ∷ s))

-- A word that `>>` reads whole.
abbrev pub NoSpace : Bytes → Type 0
NoSpace s = All (λ c. is_space c ≡ false) s

span_word-append : (w rest : Bytes) → NoSpace w → span_word (w ++ b' ' ∷ rest) ≡ (w, b' ' ∷ rest)
unfolding span_word
span_word-append [] rest h = refl
span_word-append (c ∷ w) rest (n, h) = rw (span_word-append w rest h, n)

read_word-append :
    (old w rest : Bytes) → NoSpace w → w ≢ [] → read_word old (w ++ b' ' ∷ rest) ≡ (w, b' ' ∷ rest)
unfolding read_word
read_word-append old [] rest h ne = absurd (ne refl)
read_word-append old (c ∷ w) rest (n, h) ne =
    rw (n, skip_space) (rw (span_word-append (c ∷ w) rest (n, h)))

read_word-space : (old s : Bytes) → read_word old (b' ' ∷ s) ≡ read_word old s
unfolding read_word
read_word-space old s = refl

pub parse_request_line-append :
    (m p rest : Bytes) (out : ParsedAad)
    → NoSpace m
    → NoSpace p
    → m ≢ []
    → p ≢ []
    → parse_request_line (m ++ b' ' ∷ (p ++ b' ' ∷ rest)) out ≡ record out { method = m; path = p }
unfolding parse_request_line
parse_request_line-append m p rest out hm hp nm np =
    rw (read_word-append out.method m (p ++ b' ' ∷ rest) hm nm)
      (rw (read_word-space out.path (p ++ b' ' ∷ rest), read_word-append out.path p rest hp np))

pub NoSpace-Lacks : (s : Bytes) → NoSpace s → Lacks b'\n' s
unfolding is_space
NoSpace-Lacks [] h = tt
NoSpace-Lacks (c ∷ s) (n, h) = (ground arith, NoSpace-Lacks s h)

pub is_one_line-Lacks : (s : Bytes) → is_one_line s ≡ true → Lacks b'\n' s
is_one_line-Lacks [] h = tt
is_one_line-Lacks (c ∷ s) h = (ground arith, is_one_line-Lacks s (ground arith))
