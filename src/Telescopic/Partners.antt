-- ===== src/Telescopic/Partners.antt =====
-- Whom the telescopic mapping serves: only allowed NF types of configured roaming partners.
use oai_cn5g_sepp.Base.{
  ℕ, ◌+◌, ◌≡◌, refl, ◌∙◌, ap, ◌⊎◌, Bool, true, not, ◌&&◌, some, List, [], ◌∷◌, ◌++◌, arith, Bytes,
  codes, find, substr, substr_from, is_empty, take, drop, ==_iff,
}
use oai_cn5g_sepp.Search.{find-split, drop-drop}
use oai_cn5g_sepp.Result.{
  ok, require, or_fail, or_throw, >>=-eq-ok, require-eq-ok, or_fail-eq-ok, or_throw-eq-ok,
}
use oai_cn5g_sepp.Telescopic.{
  Plmn, TelescopicMapping, is_allowed, is_roaming_partner, parse_fqdn, pad_mnc,
  generate_telescopic_label, fqdn_to_mapping, mapping_to_fqdn, get_telescopic_mapping,
}

-- A configured partner has this PLMN, its MNC as configured or padded to three digits.
abbrev pub HasPartner : List Plmn → Bytes → Type 0
HasPartner [] plmn_id = ⊥
HasPartner (partner ∷ partners) plmn_id =
    (partner.mcc ++ partner.mnc ≡ plmn_id)
    ⊎ (partner.mcc ++ pad_mnc partner.mnc ≡ plmn_id)
    ⊎ HasPartner partners plmn_id

is_roaming_partner-HasPartner :
    (partners : List Plmn) (plmn_id : Bytes)
    → is_roaming_partner partners plmn_id ≡ true
    → HasPartner partners plmn_id
unfolding is_roaming_partner
is_roaming_partner-HasPartner [] plmn_id h = cc
is_roaming_partner-HasPartner (p ∷ partners) plmn_id h = ground (
  arith,
  ==_iff (p.mcc ++ p.mnc) plmn_id,
  ==_iff (p.mcc ++ pad_mnc p.mnc) plmn_id,
  is_roaming_partner-HasPartner partners plmn_id,
)

-- The mapping is the label of an allowed NF type in a partner's PLMN.
pub record IsServed (partners : List Plmn) (mapping : TelescopicMapping) : Type 0 where
  pub nf_type : Bytes
  pub plmn_id : Bytes
  pub allowed : is_allowed nf_type ≡ true
  pub partner : HasPartner partners plmn_id
  pub label_is : mapping.telescopic_label ≡ some (generate_telescopic_label nf_type plmn_id)

fqdn_to_mapping-IsServed :
    (partners : List Plmn) (fqdn : Bytes) (start : TelescopicMapping) {r : TelescopicMapping}
    → fqdn_to_mapping partners fqdn start ≡ ok r
    → IsServed partners r
unfolding fqdn_to_mapping
fqdn_to_mapping-IsServed partners fqdn start h =
    let ((nf_type, plmn_id), parsed, h₁) = >>=-eq-ok (parse_fqdn fqdn) _ h in
    let (_, allowed, h₂) = >>=-eq-ok (require (is_allowed nf_type)) _ h₁ in
    let (_, partner, h₃) = >>=-eq-ok (require (is_roaming_partner partners plmn_id)) _ h₂ in
    record {
      nf_type = nf_type;
      plmn_id = plmn_id;
      allowed = require-eq-ok _ allowed;
      partner = is_roaming_partner-HasPartner partners plmn_id (require-eq-ok _ partner);
      label_is = cc;
    }

substr_prefix : (s : Bytes) (n : ℕ) {t : Bytes} → substr s 0 n ≡ some t → take n s ≡ t
substr_prefix s n h = ground arith

substr_from-drop : (s : Bytes) (n : ℕ) {t : Bytes} → substr_from s n ≡ some t → drop n s ≡ t
substr_from-drop s n h = ground arith

and-true : (a b : Bool) → (a && b) ≡ true → (a ≡ true) × (b ≡ true)
and-true a b h = ground arith

mapping_to_fqdn-IsServed :
    (partners : List Plmn) (label : Bytes) (start : TelescopicMapping) {r : TelescopicMapping}
    → mapping_to_fqdn partners label start ≡ ok r
    → IsServed partners r
unfolding mapping_to_fqdn
mapping_to_fqdn-IsServed partners label start h =
    let (pos, found, h₁) = >>=-eq-ok (or_fail (find label (codes "plmn"))) _ h in
    let (nf_type, before, h₂) = >>=-eq-ok (or_throw (substr label 0 pos)) _ h₁ in
    let (plmn_id, after, h₃) = >>=-eq-ok (or_throw (substr_from label (pos + 4))) _ h₂ in
    let (_, test, h₄) =
      >>=-eq-ok (require (is_allowed nf_type && is_roaming_partner partners plmn_id)) _ h₃ in
    let both = and-true _ _ (require-eq-ok _ test) in
    let (mcc, _, h₅) = >>=-eq-ok (or_throw (substr plmn_id 0 3)) _ h₄ in
    let (mnc, _, h₆) = >>=-eq-ok (or_throw (substr_from plmn_id 3)) _ h₅ in
    record {
      nf_type = nf_type;
      plmn_id = plmn_id;
      allowed = both.0;
      partner = is_roaming_partner-HasPartner partners plmn_id both.1;
      label_is = cc (
        h₆,
        ap some (
            split label pos (or_fail-eq-ok _ found)
              (substr_prefix label pos (or_throw-eq-ok _ before))
              (substr_from-drop label (pos + 4) (or_throw-eq-ok _ after))),
      );
    }
  where
    split :
        (s : Bytes) (n : ℕ) {a b : Bytes}
        → find s (codes "plmn") ≡ some n
        → take n s ≡ a
        → drop (n + 4) s ≡ b
        → s ≡ generate_telescopic_label a b
    split s n f e e' = find-split s (codes "plmn") n f ∙ rw (e, drop-drop n 4 s, e')

-- A telescopic mapping is answered only for exactly one of the two query values, and only with
-- the label of an allowed NF type in the PLMN of a configured roaming partner.
pub get_telescopic_mapping-IsServed :
    (partners : List Plmn) (foreign_fqdn telescopic_label : Bytes) (start : TelescopicMapping)
    {r : TelescopicMapping}
    → get_telescopic_mapping partners foreign_fqdn telescopic_label start ≡ ok r
    → (is_empty foreign_fqdn ≡ not (is_empty telescopic_label)) × IsServed partners r
unfolding get_telescopic_mapping
get_telescopic_mapping-IsServed partners [] [] start h = cc
get_telescopic_mapping-IsServed partners [] (c ∷ label) start h =
    (refl, mapping_to_fqdn-IsServed partners (c ∷ label) start h)
get_telescopic_mapping-IsServed partners (b ∷ fqdn) [] start h =
    (refl, fqdn_to_mapping-IsServed partners (b ∷ fqdn) start h)
get_telescopic_mapping-IsServed partners (b ∷ fqdn) (c ∷ label) start h = cc
