-- ===== src/Forward/Url/Pieces.antt =====
-- Where `cut` and the pieces of a text end.
use mathlib.Core.List.{append_assoc, append-nil}
use oai_cn5g_sepp.Base.{
  ℕ, ◌≡◌, refl, none, some, [], ◌∷◌, ◌++◌, Bytes, is_empty, arith, if◌then◌else◌,
}
use oai_cn5g_sepp.Search.{Lacks}
use oai_cn5g_sepp.Forward.Url.{cut, pieces_from}

-- A piece ends at the first separator.
pub pieces_from-append :
    (b : ℕ) (cur s rest : Bytes)
    → Lacks b s
    → pieces_from b cur (s ++ b ∷ rest) ≡ (cur ++ s) ∷ pieces_from b [] rest
unfolding pieces_from
pieces_from-append b cur [] rest h = rw append-nil (ground arith)
pieces_from-append b cur (c ∷ s) rest (n, h) =
    ground (arith, pieces_from-append b (cur ++ c ∷ []) s rest h, append_assoc cur (c ∷ []) s)

pub cut-append : (b : ℕ) (s rest : Bytes) → Lacks b s → cut b (s ++ b ∷ rest) ≡ some (s, rest)
unfolding cut
cut-append b [] rest h = ground arith
cut-append b (c ∷ s) rest (n, h) = rw (cut-append b s rest h) (ground arith)

-- The last piece, none if it is empty.
pub pieces_from-end :
    (b : ℕ) (cur piece : Bytes)
    → Lacks b piece
    → pieces_from b cur piece ≡ (if is_empty (cur ++ piece) then [] else (cur ++ piece) ∷ [])
unfolding pieces_from
pieces_from-end b cur [] h = rw append-nil refl
pieces_from-end b cur (c ∷ piece) (ne, h) =
    rw (pieces_from-end b (cur ++ c ∷ []) piece h, append_assoc) (ground arith)

pub cut-Lacks : (b : ℕ) (s : Bytes) → Lacks b s → cut b s ≡ none
unfolding cut
cut-Lacks b [] h = refl
cut-Lacks b (c ∷ s) (ne, h) = rw (cut-Lacks b s h) (ground arith)
