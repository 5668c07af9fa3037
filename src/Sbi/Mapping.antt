-- ===== src/Sbi/Mapping.antt =====
-- What GET /nsepp-telescopic/v1/mapping answers.
use oai_cn5g_sepp.Base.{
  ◌≡◌, ◌≢◌, refl, ap, ◌∙◌, not, Option, none, some, List, [], ◌∷◌, Bytes, codes, ◌==◌, ==_iff,
  is_empty, arith, Bool-cases, Option-cases, sym, inl, inr,
}
use oai_cn5g_sepp.Json.{JsonLib}
use oai_cn5g_sepp.Result.{Result, ok, fail, thrown, >>=-eq-ok, ok-inj}
use oai_cn5g_sepp.Telescopic
use oai_cn5g_sepp.Telescopic.{Plmn, TelescopicMapping, no_mapping, generate_telescopic_label}
use oai_cn5g_sepp.Telescopic.Partners.{get_telescopic_mapping-IsServed}
use oai_cn5g_sepp.Server.{ServerRequest, ServerResponse, send_problem_details}
use oai_cn5g_sepp.App.{App}
use oai_cn5g_sepp.App.Handlers.{get_telescopic_mapping, get_telescopic_mapping_text}
use oai_cn5g_sepp.Sbi.{
  mapping_text, handle_telescopic_mapping, mapping_response, answer_mapping, handle_mapping,
}

label-ne-nil : (nf_type plmn_id : Bytes) → generate_telescopic_label nf_type plmn_id ≢ []
label-ne-nil [] plmn_id e = cc
label-ne-nil (c ∷ nf_type) plmn_id e = cc

ok-ne-fail : {A : Type 0} {a : A} → fail ≡ ok a → ⊥
ok-ne-fail e = cc

found-label :
    (a : App) (foreign_fqdn telescopic_label : Bytes) {found : TelescopicMapping}
    → get_telescopic_mapping a foreign_fqdn telescopic_label no_mapping ≡ ok found
    → (label : Bytes) × (found.telescopic_label ≡ some label) × (label ≢ [])
unfolding get_telescopic_mapping
found-label a foreign_fqdn telescopic_label {found} h = go a.telescopic_mapping refl h
  where
    go :
        (o : Option (List Plmn))
        → a.telescopic_mapping ≡ o
        → (elim o [
          | none ↦ fail
          | some partners ↦
              Telescopic.get_telescopic_mapping partners foreign_fqdn telescopic_label no_mapping
        ])
          ≡ ok found
        → (label : Bytes) × (found.telescopic_label ≡ some label) × (label ≢ [])
    go none e k = cc
    go (some partners) e k =
        let (_, served) =
          get_telescopic_mapping-IsServed partners foreign_fqdn telescopic_label no_mapping k in
        (
          generate_telescopic_label served.nf_type served.plmn_id,
          served.label_is,
          label-ne-nil served.nf_type served.plmn_id,
        )

-- A text is found only with a mapping.
found-text :
    (to_text : TelescopicMapping → Bytes) (a : App) (foreign_fqdn telescopic_label : Bytes)
    {text : Bytes}
    → get_telescopic_mapping_text to_text a foreign_fqdn telescopic_label ≡ ok text
    → (found : TelescopicMapping) × (get_telescopic_mapping a foreign_fqdn telescopic_label
          no_mapping
        ≡ ok found)
unfolding get_telescopic_mapping_text get_telescopic_mapping Telescopic.get_telescopic_mapping_text
found-text to_text a foreign_fqdn telescopic_label h = elim (Option-cases a.telescopic_mapping) [
  | inl e ↦ absurd (ok-ne-fail (rw (get_telescopic_mapping_text, e) at h))
  | inr (partners, e) ↦
      let (found, is, _) =
        >>=-eq-ok
          (Telescopic.get_telescopic_mapping partners foreign_fqdn telescopic_label no_mapping)
          (λ m. ok (to_text m)) (rw (get_telescopic_mapping_text, e) at h) in
      (found, rw (get_telescopic_mapping, e) is)
]

module _ (J : JsonLib) (mapping_to_json : TelescopicMapping → J.Json) where
  -- Where the SBI has a mapping to return, the mapping holds the two values of the query, and the
  -- application found one, whose label is set and not empty: so a query by an FQDN alone, whose
  -- label is empty, does not get the label that was found.
  handle_telescopic_mapping-echo :
      (a : App) (foreign_fqdn telescopic_label : Bytes) (mapping : TelescopicMapping)
      {r : TelescopicMapping}
      → handle_telescopic_mapping J mapping_to_json (some a) foreign_fqdn telescopic_label mapping
        ≡ ok r
      → (r ≡ record mapping {
        telescopic_label = some telescopic_label;
        foreign_fqdn = some foreign_fqdn;
      })
        × (found : TelescopicMapping) × (get_telescopic_mapping a foreign_fqdn telescopic_label
              no_mapping
            ≡ ok found)
        × (label : Bytes) × (found.telescopic_label ≡ some label)
        × (label ≢ [])
  unfolding handle_telescopic_mapping
  handle_telescopic_mapping-echo a foreign_fqdn telescopic_label mapping h =
      let (text, found_text, is_r) =
        >>=-eq-ok
          (get_telescopic_mapping_text (mapping_text J mapping_to_json) a foreign_fqdn
            telescopic_label)
          _ h in
      let (found, e) =
        found-text (mapping_text J mapping_to_json) a foreign_fqdn telescopic_label found_text in
      let (label, is, ne) = found-label a foreign_fqdn telescopic_label e in
      (sym (ok-inj is_r), found, e, label, is, ne)

module _ (J : JsonLib) (mapping_to_json : TelescopicMapping → J.Json)
    (get_query_param : Bytes → Bytes → Bytes) (what : Bytes) where
  mapping_response-ok :
      (o : Result TelescopicMapping)
      → (mapping_response J mapping_to_json get_query_param what o).status ≡ 200
      → (r : TelescopicMapping) × (o ≡ ok r)
  unfolding mapping_response send_problem_details
  mapping_response-ok (ok r) h = (r, refl)
  mapping_response-ok fail h = absurd (omega (arith, h))
  mapping_response-ok thrown h = absurd (omega (arith, h))

  -- The response is that of a mapping that the application has.
  abbrev Maps : Bytes → Bytes → Option App → ServerResponse → Type 0
  Maps foreign_fqdn telescopic_label inst response =
      (a : App) × (inst ≡ some a)
      × (r : TelescopicMapping) × (handle_telescopic_mapping J mapping_to_json (some a) foreign_fqdn
            telescopic_label no_mapping
          ≡ ok r)
      × (response.body ≡ J.dump (mapping_to_json r))

  mapping_response-Maps :
      (a : App) (foreign_fqdn telescopic_label : Bytes)
      → let o =
          handle_telescopic_mapping J mapping_to_json
            (some a)
            foreign_fqdn
            telescopic_label
            no_mapping in
        let response = mapping_response J mapping_to_json get_query_param what o in
        response.status ≡ 200 → Maps foreign_fqdn telescopic_label (some a) response
  unfolding mapping_response
  mapping_response-Maps a foreign_fqdn telescopic_label h =
      let (r, e) = mapping_response-ok _ h in
      (a, refl, r, e, ap (λ o. (mapping_response J mapping_to_json get_query_param what o).body) e)

  answer_mapping-ok :
      (inst : Option App) (foreign_fqdn telescopic_label : Bytes)
      → let response =
          answer_mapping J mapping_to_json get_query_param what inst foreign_fqdn
            telescopic_label in
        response.status ≡ 200
        → (is_empty foreign_fqdn ≡ not (is_empty telescopic_label))
          × Maps foreign_fqdn telescopic_label inst response
  unfolding answer_mapping send_problem_details
  answer_mapping-ok inst [] [] h = absurd (omega (arith, h))
  answer_mapping-ok inst (f ∷ fs) (l ∷ ls) h = absurd (omega (arith, h))
  answer_mapping-ok none [] (l ∷ ls) h = absurd (omega (arith, h))
  answer_mapping-ok none (f ∷ fs) [] h = absurd (omega (arith, h))
  answer_mapping-ok (some a) [] (l ∷ ls) h = (refl, mapping_response-Maps a [] (l ∷ ls) h)
  answer_mapping-ok (some a) (f ∷ fs) [] h = (refl, mapping_response-Maps a (f ∷ fs) [] h)

  -- A query is answered with 200 only for GET, and only if it gives exactly one of the two values
  -- and the application finds a mapping for it, with a label that is not empty. The body is then
  -- the mapping of the two values of the query, one of them empty, and not what was found.
  pub handle_mapping-ok :
      (request : ServerRequest) (inst : Option App)
      → let response = handle_mapping J mapping_to_json get_query_param what request inst in
        response.status ≡ 200
        → let foreign_fqdn = get_query_param request.raw_query (codes "foreign-fqdn") in
          let telescopic_label = get_query_param request.raw_query (codes "telescopic-label") in
          (request.method ≡ codes "GET")
          × (is_empty foreign_fqdn ≡ not (is_empty telescopic_label))
          × (a : App) × (inst ≡ some a)
          × (found : TelescopicMapping) × (get_telescopic_mapping a foreign_fqdn telescopic_label
                no_mapping
              ≡ ok found)
          × (label : Bytes) × (found.telescopic_label ≡ some label)
          × (label ≢ [])
          × (response.body
              ≡ J.dump (
                  mapping_to_json (record no_mapping {
                    telescopic_label = some telescopic_label;
                    foreign_fqdn = some foreign_fqdn;
                  })))
  unfolding handle_mapping send_problem_details
  handle_mapping-ok request inst h = elim (Bool-cases (request.method == codes "GET")) [
    | inl e ↦
        let foreign_fqdn = get_query_param request.raw_query (codes "foreign-fqdn") in
        let telescopic_label = get_query_param request.raw_query (codes "telescopic-label") in
        let (one, maps) = answer_mapping-ok inst foreign_fqdn telescopic_label (rw e at h) in
        let (a, is, r, done, body) = maps in
        let (echo, found, mapped, label, labelled, full) =
          handle_telescopic_mapping-echo J mapping_to_json a foreign_fqdn telescopic_label
            no_mapping done in
        (
          (==_iff request.method (codes "GET")).0 e,
          one,
          a,
          is,
          found,
          mapped,
          label,
          labelled,
          full,
          rw (handle_mapping, e) (body ∙ ap (λ m. J.dump (mapping_to_json m)) echo),
        )
    | inr e ↦ absurd (ground arith)
  ]
