-- ===== src/Forward/Kept.antt =====
-- The headers of a local response that go into a message.
use mathlib.Core.Path.{subst}
use oai_cn5g_sepp.Base.{
  ◌≡◌, sym, inl, inr, Bool, true, ◌||◌, [], ◌∷◌, Bytes, codes, ◌==◌, ==_iff, arith, Bool-cases,
}
use oai_cn5g_sepp.Search.{Lacks}
use oai_cn5g_sepp.Dict.{Headers, insert}
use oai_cn5g_sepp.Forward.Aad.RoundTrip.{ProperNames}
use oai_cn5g_sepp.Forward.Target.{keep_headers}

abbrev pub is_kept : Bytes → Bool
is_kept key = key == codes "location" || key == codes "content-type" || key == codes "retry-after"

kept-Lacks : (key : Bytes) → is_kept key ≡ true → Lacks b':' key
kept-Lacks key h = elim (Bool-cases (key == codes "location")) [
  | inl e ↦ subst (Lacks b':') (sym ((==_iff key _).0 e)) (omega arith)
  | inr e ↦ elim (Bool-cases (key == codes "content-type")) [
    | inl e' ↦ subst (Lacks b':') (sym ((==_iff key _).0 e')) (omega arith)
    | inr e' ↦
        subst (Lacks b':') (sym ((==_iff key (codes "retry-after")).0 (ground arith))) (omega arith)
  ]
]

insert-ProperNames :
    (key value : Bytes) (headers : Headers)
    → Lacks b':' key
    → ProperNames headers
    → ProperNames (insert key value headers)
unfolding insert
insert-ProperNames key value [] h k = (h, k)
insert-ProperNames key value ((name, text) ∷ rest) h (n, k) = elim (Bool-cases (name == key)) [
  | inl e ↦ rw e (h, k)
  | inr e ↦ rw e (n, insert-ProperNames key value rest h k)
]

-- No kept header has a colon in its name.
pub keep_headers-ProperNames :
    (headers out : Headers) → ProperNames out → ProperNames (keep_headers headers out)
unfolding keep_headers
keep_headers-ProperNames [] out h = h
keep_headers-ProperNames ((key, val) ∷ headers) out h =
    keep_headers-ProperNames headers _ (elim (Bool-cases (is_kept key)) [
      | inl e ↦ rw e (insert-ProperNames key val out (kept-Lacks key e) h)
      | inr e ↦ rw e h
    ])
