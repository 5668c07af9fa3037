-- ===== src/Forward/Aad/RoundTrip.antt =====
-- What `build_aad` writes, `parse_aad` reads back.
use mathlib.Core.List.{append_assoc}
use oai_cn5g_sepp.Base.{
  ℕ, ◌≡◌, ◌≢◌, refl, ◌∙◌, ◌&&◌, some, List, [], ◌∷◌, ◌++◌, Bytes, codes, is_empty, zero, suc, drop,
  if◌then◌else◌, arith, Bool-cases, inl, inr,
}
use oai_cn5g_sepp.Search.{Lacks}
use oai_cn5g_sepp.Dict.{Headers}
use oai_cn5g_sepp.Http.{force_http}
use oai_cn5g_sepp.Forward.Url.{pieces, pieces_from}
use oai_cn5g_sepp.Forward.Aad.{
  header_line, is_one_line, header_lines, build_aad, ParsedAad, no_aad, strip_cr,
  parse_request_line, add_header, parse_header_line, parse_header_lines, parse_aad_lines, parse_aad,
}
use oai_cn5g_sepp.Forward.Aad.Lines.{
  strip_cr-append, NoSpace, parse_request_line-append, NoSpace-Lacks, is_one_line-Lacks,
}
use oai_cn5g_sepp.Search.{Lacks-append}
use oai_cn5g_sepp.Forward.Url.Pieces.{pieces_from-append, cut-append}

header_line_split :
    (name value rest : Bytes)
    → header_line name value ++ rest
      ≡ ((name ++ (codes ": " ++ value)) ++ b'\r' ∷ []) ++ b'\n' ∷ rest
header_line_split name value rest = simp append_assoc

parse_header_line-append :
    (name value : Bytes) (out : ParsedAad)
    → Lacks b':' name
    → parse_header_line (name ++ (codes ": " ++ value)) out ≡ add_header name value out
unfolding parse_header_line
parse_header_line-append name value out h =
    rw (cut-append b':' name (b' ' ∷ value) h, parse_header_line)

parse_header_lines-cons :
    (line : Bytes) (lines : List Bytes) (out : ParsedAad)
    → parse_header_lines (line ∷ lines) out
      ≡ parse_header_lines lines (parse_header_line (strip_cr line) out)
unfolding parse_header_lines
parse_header_lines-cons line lines out = refl

-- The loop takes a header line whole.
parse_header_lines-append :
    (name value rest : Bytes) (out : ParsedAad)
    → Lacks b':' name
    → Lacks b'\n' name
    → Lacks b'\n' value
    → parse_header_lines (pieces b'\n' (header_line name value ++ rest)) out
      ≡ parse_header_lines (pieces b'\n' rest) (add_header name value out)
parse_header_lines-append name value rest out colon n v =
    let line = name ++ (codes ": " ++ value) in
    let one : Lacks b'\n' (line ++ b'\r' ∷ []) =
      Lacks-append b'\n' line (b'\r' ∷ [])
        (Lacks-append b'\n' name (codes ": " ++ value) n (omega arith, (omega arith, v)))
        (omega arith) in
    rw (
      header_line_split name value rest,
      pieces_from-append b'\n' [] (line ++ b'\r' ∷ []) rest one,
      parse_header_lines-cons,
      strip_cr-append line,
      parse_header_line-append name value out colon,
    )

-- What a receiver makes of the headers: those of one line, in order.
abbrev pub received : Headers → ParsedAad → ParsedAad
received [] out = out
received ((key, value) ∷ headers) out =
    received headers
      (if is_one_line key && is_one_line value then add_header key value out else out)

-- No header's name holds a colon, as in HTTP.
abbrev pub ProperNames : Headers → Type 0
ProperNames [] = Unit
ProperNames ((key, value) ∷ headers) = Lacks b':' key × ProperNames headers

parse_header_lines-header_lines :
    (headers : Headers) (out : ParsedAad)
    → ProperNames headers
    → parse_header_lines (pieces b'\n' (header_lines headers)) out ≡ received headers out
unfolding header_lines
parse_header_lines-header_lines [] out h = unfold parse_header_lines pieces_from in refl
parse_header_lines-header_lines ((key, value) ∷ headers) out (colon, h) =
    elim (Bool-cases (is_one_line key && is_one_line value)) [
      | inl e ↦
          rw
            (
              e,
              parse_header_lines-append key value (header_lines headers) out colon
                  (is_one_line-Lacks key (ground arith)) (is_one_line-Lacks value (ground arith)),
            )
            (parse_header_lines-header_lines headers (add_header key value out) h)
      | inr e ↦ rw e (parse_header_lines-header_lines headers out h)
    ]

-- What a receiver reads of a message for this authority, before the headers of the response.
abbrev pub addressed : Bytes → ParsedAad → ParsedAad
addressed authority out =
    if is_empty authority
    then out
    else add_header (codes "3gpp-sbi-target-apiroot") (force_http authority)
        (add_header (codes "authority") authority out)

Lacks-drop : (b n : ℕ) (s : Bytes) → Lacks b s → Lacks b (drop n s)
Lacks-drop b zero s h = h
Lacks-drop b (suc n) [] h = tt
Lacks-drop b (suc n) (c ∷ s) (m, h) = Lacks-drop b n s h

force_http-Lacks : (s : Bytes) → Lacks b'\n' s → Lacks b'\n' (force_http s)
unfolding force_http
force_http-Lacks s h = ground (
  arith,
  Lacks-append b'\n' (codes "http://") (drop 8 s) (omega arith) (Lacks-drop b'\n' 8 s h),
  Lacks-append b'\n' (codes "http://") s (omega arith) h,
)

-- The lines of the authority and of the API root.
abbrev authority_lines : Bytes → Bytes
authority_lines authority =
    if is_empty authority
    then []
    else header_line (codes "authority") authority
      ++ header_line (codes "3gpp-sbi-target-apiroot") (force_http authority)

parse-authority_lines :
    (authority rest : Bytes) (out : ParsedAad)
    → Lacks b'\n' authority
    → parse_header_lines (pieces b'\n' (authority_lines authority ++ rest)) out
      ≡ parse_header_lines (pieces b'\n' rest) (addressed authority out)
parse-authority_lines [] rest out h = refl
parse-authority_lines (a ∷ s) rest out h =
    let authority = a ∷ s in
    let root = force_http authority in
    rw
      (append_assoc (header_line (codes "authority") authority)
        (header_line (codes "3gpp-sbi-target-apiroot") root) rest)
      (parse_header_lines-append (codes "authority") authority
          (header_line (codes "3gpp-sbi-target-apiroot") root ++ rest) out (omega arith)
          (omega arith) h
        ∙ parse_header_lines-append (codes "3gpp-sbi-target-apiroot") root rest
            (add_header (codes "authority") authority out) (omega arith) (omega arith)
            (force_http-Lacks authority h))

-- The request line without its line end.
abbrev request_line : Bytes → Bytes → Bytes
request_line m p = m ++ b' ' ∷ (p ++ codes " HTTP/2.0")

build_aad_split :
    (m p authority : Bytes) (headers : Headers)
    → build_aad m p authority headers
      ≡ (request_line m p ++ b'\r' ∷ [])
        ++ b'\n' ∷ (authority_lines authority ++ header_lines headers)
unfolding build_aad
build_aad_split m p authority headers = simp append_assoc

parse_aad-cons :
    (s line rest : Bytes) (out : ParsedAad)
    → s ≡ (line ++ b'\r' ∷ []) ++ b'\n' ∷ rest
    → Lacks b'\n' line
    → parse_aad s out ≡ some (parse_header_lines (pieces b'\n' rest) (parse_request_line line out))
unfolding parse_aad
parse_aad-cons s line rest out e h = rw (
  e,
  pieces_from-append b'\n' [] (line ++ b'\r' ∷ []) rest
      (Lacks-append b'\n' line (b'\r' ∷ []) h (omega arith)),
  parse_aad_lines,
  strip_cr-append line,
)

-- For a method or status and a path that are not empty and hold no space, an authority without a
-- line end and headers whose names hold no colon: of the text that build_aad writes, parse_aad
-- reads back the method or status, the path, the authority with the target API root made of it,
-- and every header of one line, in order.
pub parse_aad-build_aad :
    (m p authority : Bytes) (headers : Headers)
    → NoSpace m
    → NoSpace p
    → m ≢ []
    → p ≢ []
    → Lacks b'\n' authority
    → ProperNames headers
    → parse_aad (build_aad m p authority headers) no_aad
      ≡ some (received headers (addressed authority (record no_aad { method = m; path = p })))
parse_aad-build_aad m p authority headers hm hp nm np ha hh =
    let one : Lacks b'\n' (request_line m p) =
      Lacks-append b'\n' m (b' ' ∷ (p ++ codes " HTTP/2.0")) (NoSpace-Lacks m hm) (
        omega arith,
        Lacks-append b'\n' p (codes " HTTP/2.0") (NoSpace-Lacks p hp) (omega arith),
      ) in
    rw (
      parse_aad-cons _ (request_line m p) (authority_lines authority ++ header_lines headers) no_aad
          (build_aad_split m p authority headers) one,
      parse_request_line-append m p (codes "HTTP/2.0") no_aad hm hp nm np,
      parse-authority_lines authority (header_lines headers)
          (record no_aad { method = m; path = p }) ha,
      parse_header_lines-header_lines headers _ hh,
    )
