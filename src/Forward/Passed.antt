-- ===== src/Forward/Passed.antt =====
-- Which headers of a network function's response come through, as a description of its own.
use oai_cn5g_sepp.Base.{
  ◌≡◌, clash, refl, ap, ◌∙◌, Bool, true, false, not, ◌||◌, Bool-cases, inl, inr, Option, none, some,
  [], ◌∷◌, Bytes, ◌==◌, ==_iff, ◌=?◌, if◌then◌else◌, arith,
}
use oai_cn5g_sepp.Dict.{Headers, lookup, insert}
use oai_cn5g_sepp.Json.Members.{last_of}
use oai_cn5g_sepp.Forward.Target.{keep_headers}
use oai_cn5g_sepp.Forward.Aad.{is_one_line}
use oai_cn5g_sepp.Forward.Kept.{is_kept}
use oai_cn5g_sepp.Forward.Requests.{lookup-insert_other}
use oai_cn5g_sepp.Forward.Walk.{lookup-insert}

abbrev pub has_break : Bytes → Bool
has_break [] = false
has_break (c ∷ s) = c =? b'\r' || (c =? b'\n' || has_break s)

-- A value of one line.
abbrev pub one_line_only : Option Bytes → Option Bytes
one_line_only none = none
one_line_only (some v) = if has_break v then none else some v

-- What a name gets: for content-type, location and retry-after the last value of that name, if it is
-- of one line, and for the others what stands in `rest`.
abbrev pub passed : Headers → Headers → Bytes → Option Bytes
passed headers rest k = if is_kept k then one_line_only (last_of headers k none) else lookup k rest

pub is_one_line-has_break : (s : Bytes) → is_one_line s ≡ not (has_break s)
is_one_line-has_break [] = refl
is_one_line-has_break (c ∷ s) = ground (arith, is_one_line-has_break s)

-- No name stands twice.
abbrev pub Distinct : Headers → Type 0
Distinct [] = Unit
Distinct ((key, value) ∷ rest) = (lookup key rest ≡ none) × Distinct rest

insert-Distinct :
    (key value : Bytes) (headers : Headers) → Distinct headers → Distinct (insert key value headers)
unfolding insert lookup
insert-Distinct key value [] d = (refl, tt)
insert-Distinct key value ((name, text) ∷ rest) (absent, d) = elim (Bool-cases (name == key)) [
  | inl e ↦ let same : name ≡ key = (==_iff name key).0 e in rw (insert, e) (rw (← same) absent, d)
  | inr e ↦
      let other : (key == name) ≡ false = ground (arith, ==_iff name key, ==_iff key name) in
      rw (insert, e)
        (lookup-insert_other key value name rest other ∙ absent, insert-Distinct key value rest d)
]

pub keep_headers-Distinct :
    (headers out : Headers) → Distinct out → Distinct (keep_headers headers out)
unfolding keep_headers
keep_headers-Distinct [] out d = d
keep_headers-Distinct ((key, val) ∷ headers) out d =
    keep_headers-Distinct headers _ (elim (Bool-cases (is_kept key)) [
      | inl e ↦ rw e (insert-Distinct key val out d)
      | inr e ↦ rw e d
    ])

pub lookup-keep_headers :
    (headers out : Headers) (k : Bytes)
    → is_kept k ≡ true
    → lookup k (keep_headers headers out) ≡ last_of headers k (lookup k out)
unfolding keep_headers last_of
lookup-keep_headers [] out k kept = refl
lookup-keep_headers ((key, val) ∷ headers) out k kept = elim (Bool-cases (key == k)) [
  | inl e ↦
      let same : key ≡ k = (==_iff key k).0 e in
      rw (last_of, e, keep_headers, same, kept)
        (lookup-keep_headers headers (insert k val out) k kept
          ∙ ap (last_of headers k) (lookup-insert k val out))
  | inr e ↦ elim (Bool-cases (is_kept key)) [
    | inl take_it ↦
        rw (last_of, e, keep_headers, take_it)
          (lookup-keep_headers headers (insert key val out) k kept
            ∙ ap (last_of headers k) (lookup-insert_other key val k out e))
    | inr leave_it ↦
        rw (last_of, e, keep_headers, leave_it) (lookup-keep_headers headers out k kept)
  ]
]

pub lookup-keep_headers_other :
    (headers out : Headers) (k : Bytes)
    → is_kept k ≡ false
    → lookup k (keep_headers headers out) ≡ lookup k out
unfolding keep_headers
lookup-keep_headers_other [] out k other = refl
lookup-keep_headers_other ((key, val) ∷ headers) out k other = elim (Bool-cases (is_kept key)) [
  | inl take_it ↦
      let ne : (key == k) ≡ false = elim (Bool-cases (key == k)) [
        | inl e ↦ absurd (clash take_it (ap is_kept ((==_iff key k).0 e) ∙ other))
        | inr e ↦ e
      ] in
      rw (keep_headers, take_it)
        (lookup-keep_headers_other headers (insert key val out) k other
          ∙ lookup-insert_other key val k out ne)
  | inr leave_it ↦ rw (keep_headers, leave_it) (lookup-keep_headers_other headers out k other)
]
