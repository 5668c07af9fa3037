-- ===== src/Server/Routes.antt =====
-- The multiplexer of nghttp2, `server::handle` and the choice of a handler by the path, a parameter
-- of the model with what its documentation says. A pattern names a path, or with a slash at its
-- end a subtree; `/` is what no other pattern takes.
use oai_cn5g_sepp.Base.{
  ◌≡◌, Bool, true, false, not, ◌&&◌, ◌||◌, Option, none, some, List, [], ◌∷◌, Bytes, codes, ◌==◌,
  ◌=?◌, all, is_empty, if◌then◌else◌,
}
use oai_cn5g_sepp.Forward.Url.{pieces, pieces_from}
use oai_cn5g_sepp.Server.{ServerResponse}

-- Registrations, in the order of the calls of `handle`; a second one of a pattern fails.
abbrev pub Routes : Type 0 → Type 0
Routes H = List (Bytes × H)

unfoldable pub find_route : {H : Type 0} → Bytes → Routes H → Option H
unfolding ◌==◌
find_route path [] = none
find_route path ((pattern_text, h) ∷ rest) =
    if pattern_text == path then some h else find_route path rest

-- No element is empty, `.` or `..`: nghttp2 redirects any other path before a handler sees it.
unfoldable pub is_clean : Bytes → Bool
unfolding ◌==◌ pieces_from
is_clean [] = false
is_clean (c ∷ path) =
    c =? b'/' && all (λ e. not (is_empty e || e == codes "." || e == codes "..")) (pieces b'/' path)

unfoldable names_subtree : Bytes → Bool
names_subtree [] = false
names_subtree (c ∷ []) = c =? b'/'
names_subtree (c ∷ d ∷ s) = names_subtree (d ∷ s)

-- `/` is the only pattern that names a subtree.
unfoldable pub has_only_root : {H : Type 0} → Routes H → Bool
unfolding names_subtree ◌==◌
has_only_root [] = true
has_only_root ((pattern_text, h) ∷ rest) =
    (pattern_text == codes "/" || not (names_subtree pattern_text)) && has_only_root rest

-- `select` is the handler of a clean path, and `not_found` the answer where there is none.
pub record ServeMux (H : Type 0) : Type 0 where
  pub select : Routes H → Bytes → Option H
  pub not_found : ServerResponse

pub record IsServeMux {H : Type 0} (mux : ServeMux H) : Type 0 where
  pub select-fixed :
      (routes : Routes H) (path : Bytes) (h : H)
      → is_clean path ≡ true
      → find_route path routes ≡ some h
      → mux.select routes path ≡ some h
  pub select-root :
      (routes : Routes H) (path : Bytes) (h : H)
      → is_clean path ≡ true
      → has_only_root routes ≡ true
      → find_route path routes ≡ none
      → find_route (codes "/") routes ≡ some h
      → mux.select routes path ≡ some h
