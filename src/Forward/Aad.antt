-- ===== src/Forward/Aad.antt =====
-- The additional authenticated data: the text that `build_reformatted_data` writes, and
-- `parse_aad`, which reads it.
pub mod Lines
pub mod RoundTrip
use oai_cn5g_sepp.Base.{
  ℕ, Bool, true, false, not, ◌&&◌, ◌||◌, Option, none, some, List, [], ◌∷◌, ◌++◌, Bytes, codes,
  ◌==◌, any, is_empty, ◌=?◌, if◌then◌else◌,
}
use oai_cn5g_sepp.Dict.{Headers, insert}
use oai_cn5g_sepp.Http.{force_http}
use oai_cn5g_sepp.Forward.Url.{cut, pieces, pieces_from}

abbrev crlf : Bytes
crlf = b'\r' ∷ b'\n' ∷ []

-- A line `name: value`.
abbrev pub header_line : Bytes → Bytes → Bytes
header_line name value = name ++ (codes ": " ++ (value ++ crlf))

-- `s.find_first_of("\r\n") == npos`
abbrev pub is_one_line : Bytes → Bool
is_one_line s = not (any (λ c. c =? b'\r' || c =? b'\n') s)

unfoldable pub header_lines : Headers → Bytes
header_lines [] = []
header_lines ((key, value) ∷ headers) =
    let rest = header_lines headers in
    if is_one_line key && is_one_line value then header_line key value ++ rest else rest

-- `aad_raw`
unfoldable pub build_aad : Bytes → Bytes → Bytes → Headers → Bytes
unfolding header_lines force_http
build_aad method_or_status path authority response_headers =
    (method_or_status ++ (codes " " ++ (path ++ (codes " HTTP/2.0" ++ crlf))))
    ++ ((if is_empty authority
          then []
          else header_line (codes "authority") authority
            ++ header_line (codes "3gpp-sbi-target-apiroot") (force_http authority))
        ++ header_lines response_headers)

-- The out parameters of `parse_aad`, with what they hold before.
pub record ParsedAad : Type 0 where
  pub method : Bytes
  pub path : Bytes
  pub authority : Bytes
  pub headers : Headers

abbrev pub no_aad : ParsedAad
no_aad = record { method = []; path = []; authority = []; headers = [] }

-- `if (!line.empty() && line.back() == '\r') line.pop_back();`
unfoldable pub strip_cr : Bytes → Bytes
strip_cr [] = []
strip_cr (c ∷ []) = if c =? b'\r' then [] else c ∷ []
strip_cr (c ∷ d ∷ s) = c ∷ strip_cr (d ∷ s)

-- `isspace` in the C locale
unfoldable pub is_space : ℕ → Bool
is_space c = c =? b' ' || c =? b'\t' || c =? b'\n' || c =? 11 || c =? 12 || c =? b'\r'

unfoldable pub skip_space : Bytes → Bytes
unfolding is_space
skip_space [] = []
skip_space (c ∷ s) = let rest = skip_space s in if is_space c then rest else c ∷ s

-- The text up to white space, and the rest.
unfoldable pub span_word : Bytes → Bytes × Bytes
unfolding is_space
span_word [] = ([], [])
span_word (c ∷ s) = let (w, rest) = span_word s in if is_space c then ([], c ∷ s) else (c ∷ w, rest)

-- `stream >> word`; where nothing is left to read, the word keeps its value.
unfoldable pub read_word : Bytes → Bytes → Bytes × Bytes
unfolding skip_space span_word
read_word old s =
    let (w, rest) = span_word (skip_space s) in if is_empty w then (old, rest) else (w, rest)

-- `line_stream >> method >> path`
unfoldable pub parse_request_line : Bytes → ParsedAad → ParsedAad
unfolding read_word
parse_request_line line out =
    let (m, rest) = read_word out.method line in
    let (p, rest') = read_word out.path rest in record out { method = m; path = p }

-- `if (!value.empty() && value.front() == ' ') value.erase(0, 1);`
abbrev strip_space : Bytes → Bytes
strip_space [] = []
strip_space (c ∷ s) = if c =? b' ' then s else c ∷ s

abbrev pub add_header : Bytes → Bytes → ParsedAad → ParsedAad
add_header name value out = record out {
  authority = if name == codes "authority" then value else out.authority;
  headers = insert name value out.headers;
}

unfoldable pub parse_header_line : Bytes → ParsedAad → ParsedAad
unfolding cut
parse_header_line line out = elim (cut b':' line) [
  | none ↦ out
  | some (name, rest) ↦ add_header name (strip_space rest) out
]

unfoldable pub parse_header_lines : List Bytes → ParsedAad → ParsedAad
unfolding parse_header_line strip_cr
parse_header_lines [] out = out
parse_header_lines (line ∷ lines) out =
    parse_header_lines lines (parse_header_line (strip_cr line) out)

-- `none` is false
unfoldable pub parse_aad_lines : List Bytes → ParsedAad → Option ParsedAad
unfolding parse_header_lines parse_request_line
parse_aad_lines [] out = none
parse_aad_lines (line ∷ lines) out =
    some (parse_header_lines lines (parse_request_line (strip_cr line) out))

unfoldable pub parse_aad : Bytes → ParsedAad → Option ParsedAad
unfolding parse_aad_lines pieces_from
parse_aad decoded_aad out = parse_aad_lines (pieces b'\n' decoded_aad) out
