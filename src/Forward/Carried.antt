-- ===== src/Forward/Carried.antt =====
-- The headers of a network function's response, through a message of N32-f.
use oai_cn5g_sepp.Base.{
  ◌≡◌, refl, sym, ap, ◌∙◌, Bool, true, false, ◌&&◌, Bool-cases, inl, inr, none, some, [], ◌∷◌,
  Bytes, codes, ◌==◌, ==_iff, if◌then◌else◌, arith,
}
use mathlib.Core.Path.{subst}
use oai_cn5g_sepp.Dict.{Headers, lookup, insert}
use oai_cn5g_sepp.Json.Members.{last_of}
use oai_cn5g_sepp.Forward.Target.{keep_headers}
use oai_cn5g_sepp.Forward.Aad.{is_one_line, add_header, ParsedAad}
use oai_cn5g_sepp.Forward.Aad.RoundTrip.{received}
use oai_cn5g_sepp.Forward.Kept.{is_kept}
use oai_cn5g_sepp.Forward.Requests.{lookup-insert_other}
use oai_cn5g_sepp.Forward.Walk.{lookup-insert}
use oai_cn5g_sepp.Forward.Passed.{
  one_line_only, passed, is_one_line-has_break, has_break, Distinct, keep_headers-Distinct,
  lookup-keep_headers, lookup-keep_headers_other,
}

-- One step of the reader, on a header that is of one line or not.
received-step :
    (headers : Headers) (key value k : Bytes) (out : ParsedAad) {b : Bool}
    → (is_one_line key && is_one_line value) ≡ b
    → lookup k (received ((key, value) ∷ headers) out).headers
      ≡ lookup k (received headers (if b then add_header key value out else out)).headers
received-step headers key value k out e =
    ap (λ c. lookup k (received headers (if c then add_header key value out else out)).headers) e

-- A name that no header has is not touched.
lookup-received_other :
    (headers : Headers) (out : ParsedAad) (k : Bytes)
    → lookup k headers ≡ none
    → lookup k (received headers out).headers ≡ lookup k out.headers
unfolding lookup
lookup-received_other [] out k absent = refl
lookup-received_other ((key, value) ∷ headers) out k absent = elim (Bool-cases (key == k)) [
  | inl e ↦ absurd (some-none (rw (lookup, e) at absent))
  | inr e ↦
      let absent' : lookup k headers ≡ none = rw (lookup, e) at absent in
      elim (Bool-cases (is_one_line key && is_one_line value)) [
        | inl line ↦
            received-step headers key value k out line
            ∙ (lookup-received_other headers (add_header key value out) k absent'
                ∙ lookup-insert_other key value k out.headers e)
        | inr cut_off ↦
            received-step headers key value k out cut_off
            ∙ lookup-received_other headers out k absent'
      ]
]
  where
    some-none : {v : Bytes} → some v ≡ none → ⊥
    some-none e = cc

lookup-received :
    (headers : Headers) (out : ParsedAad) (k : Bytes)
    → Distinct headers
    → is_one_line k ≡ true
    → lookup k out.headers ≡ none
    → lookup k (received headers out).headers ≡ one_line_only (lookup k headers)
unfolding lookup
lookup-received [] out k d one absent = absent
lookup-received ((key, value) ∷ headers) out k (once, d) one absent = elim (Bool-cases (key == k)) [
  | inl e ↦
      let same : key ≡ k = (==_iff key k).0 e in
      let once' : lookup k headers ≡ none = rw (← same) once in
      let named : is_one_line key ≡ true = rw (same) one in
      elim (Bool-cases (has_break value)) [
        | inl break ↦
            let line : (is_one_line key && is_one_line value) ≡ false =
              rw (named, is_one_line-has_break value, break) refl in
            received-step headers key value k out line
            ∙ (lookup-received_other headers out k once' ∙ (absent ∙ rw (lookup, e, break) refl))
        | inr whole ↦
            let line : (is_one_line key && is_one_line value) ≡ true =
              rw (named, is_one_line-has_break value, whole) refl in
            received-step headers key value k out line
            ∙ (lookup-received_other headers (add_header key value out) k once'
                ∙ (ap (λ n. lookup n (insert key value out.headers)) (sym same)
                    ∙ (lookup-insert key value out.headers ∙ rw (lookup, e, whole) refl)))
      ]
  | inr e ↦
      let found : lookup k ((key, value) ∷ headers) ≡ lookup k headers = rw (lookup, e) refl in
      elim (Bool-cases (is_one_line key && is_one_line value)) [
        | inl line ↦
            received-step headers key value k out line
            ∙ (lookup-received headers (add_header key value out) k d one
                  (lookup-insert_other key value k out.headers e ∙ absent)
                ∙ ap one_line_only (sym found))
        | inr cut_off ↦
            received-step headers key value k out cut_off
            ∙ (lookup-received headers out k d one absent ∙ ap one_line_only (sym found))
      ]
]

-- What holds of the three names holds of a name that is kept.
kept-cases :
    (P : Bytes → Type 0) (k : Bytes)
    → P (codes "location")
    → P (codes "content-type")
    → P (codes "retry-after")
    → is_kept k ≡ true
    → P k
kept-cases P k location type retry kept = elim (Bool-cases (k == codes "location")) [
  | inl e ↦ subst P (sym ((==_iff k _).0 e)) location
  | inr e ↦ elim (Bool-cases (k == codes "content-type")) [
    | inl e' ↦ subst P (sym ((==_iff k _).0 e')) type
    | inr e' ↦ subst P (sym ((==_iff k (codes "retry-after")).0 (ground arith))) retry
  ]
]

pub passed-eq :
    (headers rest : Headers) (k : Bytes) {b : Bool}
    → is_kept k ≡ b
    → passed headers rest k ≡ (if b then one_line_only (last_of headers k none) else lookup k rest)
passed-eq headers rest k e =
    ap (λ c. if c then one_line_only (last_of headers k none) else lookup k rest) e

-- The headers of a response, on top of others that are none of the three.
pub lookup-carried :
    (headers : Headers) (out : ParsedAad) (k : Bytes)
    → lookup (codes "location") out.headers ≡ none
    → lookup (codes "content-type") out.headers ≡ none
    → lookup (codes "retry-after") out.headers ≡ none
    → lookup k (received (keep_headers headers []) out).headers ≡ passed headers out.headers k
unfolding lookup
lookup-carried headers out k location type retry = elim (Bool-cases (is_kept k)) [
  | inl kept ↦
      lookup-received (keep_headers headers []) out k (keep_headers-Distinct headers [] tt)
        (kept-cases (λ n. is_one_line n ≡ true) k refl refl refl kept)
        (kept-cases (λ n. lookup n out.headers ≡ none) k location type retry kept)
      ∙ (ap one_line_only (lookup-keep_headers headers [] k kept)
          ∙ sym (passed-eq headers out.headers k kept))
  | inr other ↦
      lookup-received_other (keep_headers headers []) out k
        (lookup-keep_headers_other headers [] k other)
      ∙ sym (passed-eq headers out.headers k other)
]
