-- ===== src/Telescopic.antt =====
-- `sepp_telescopic_fqdn_mapping`: the FQDN of a roaming partner's network function and its
-- telescopic label (src/sepp_app/sepp_telescopic_fqdn_mapping.cpp and .hpp).
-- `m_allowed_nfs` and `m_sepp_domain` never change, so they are constants here; the roaming
-- partners, which `set_roaming_partners` sets, are an argument.
pub mod Partners
pub mod RoundTrip
use oai_cn5g_sepp.Base.{
  ℕ, ◌+◌, ◌-◌, ◌%◌, ◌^◌, Bool, true, false, not, ◌&&◌, ◌||◌, Option, none, some, List, [], ◌∷◌,
  ◌++◌, Bytes, codes, ◌==◌, find, substr, substr_from, length, drop, is_empty, any, leb, ◌=?◌,
  if◌then◌else◌,
}
use oai_cn5g_sepp.Result.{Result, ok, fail, ◌>>=◌, ◌>>◌, require, or_fail, or_throw}

-- `oai::config::plmn_config`, by the values that the source reads.
pub record Plmn : Type 0 where
  pub mcc : Bytes
  pub mnc : Bytes

-- `TelescopicMapping`, by the members that the source sets; `none` is a member never set.
pub record TelescopicMapping : Type 0 where
  pub telescopic_label : Option Bytes
  pub sepp_domain : Option Bytes
  pub foreign_fqdn : Option Bytes

abbrev pub allowed_nfs : List Bytes
allowed_nfs =
    codes "nrf"
    ∷ codes "ausf"
    ∷ codes "smf"
    ∷ codes "amf"
    ∷ codes "udm"
    ∷ codes "pcf"
    ∷ codes "nssf"
    ∷ []

abbrev pub sepp_domain : Bytes
sepp_domain = codes "sepp.5gc.mnc001.mcc001.3gppnetwork.org"

-- `m_allowed_nfs.count(nfType)`
unfoldable pub is_allowed : Bytes → Bool
unfolding ◌==◌
is_allowed nf_type = any (λ nf. nf == nf_type) allowed_nfs

-- Two digits of MNC get a zero in front.
abbrev pub pad_mnc : Bytes → Bytes
pad_mnc mnc = if length mnc =? 2 then codes "0" ++ mnc else mnc

unfoldable pub is_roaming_partner : List Plmn → Bytes → Bool
is_roaming_partner [] plmn_id = false
is_roaming_partner (partner ∷ partners) plmn_id =
    partner.mcc ++ partner.mnc == plmn_id
    || partner.mcc ++ pad_mnc partner.mnc == plmn_id
    || is_roaming_partner partners plmn_id

abbrev pub fqdn_suffix : Bytes
fqdn_suffix = codes ".3gppnetwork.org"

-- What `parse_fqdn` does behind ".5gc.": the PLMN of `mnc<mnc>.mcc<mcc>.3gppnetwork.org`. The
-- count of `remaining.substr` is a `size_t`, which wraps where ".mcc" stands within three bytes.
unfoldable pub parse_plmn : Bytes → Result Bytes
parse_plmn remaining = do
  mcc_pos ← or_fail (find remaining (codes ".mcc"))
  mnc ← or_throw (substr remaining 3 ((mcc_pos + 2 ^ 64 - 3) % 2 ^ 64))
  mcc_start ← or_throw (substr_from remaining (mcc_pos + 4))
  require (not (leb (length mcc_start) (length fqdn_suffix)))
  require (drop (length mcc_start - length fqdn_suffix) mcc_start == fqdn_suffix)
  mcc ← or_throw (substr mcc_start 0 (length mcc_start - length fqdn_suffix))
  ok (mcc ++ mnc)

-- The NF type and the PLMN of an FQDN.
unfoldable pub parse_fqdn : Bytes → Result (Bytes × Bytes)
parse_fqdn fqdn = do
  pos ← or_fail (find fqdn (codes ".5gc."))
  nf_type ← or_throw (substr fqdn 0 pos)
  remaining ← or_throw (substr_from fqdn (pos + 5))
  plmn_id ← parse_plmn remaining
  ok (nf_type, plmn_id)

abbrev pub generate_telescopic_label : Bytes → Bytes → Bytes
generate_telescopic_label nf_type plmn_id = nf_type ++ (codes "plmn" ++ plmn_id)

unfoldable pub fqdn_to_mapping : List Plmn → Bytes → TelescopicMapping → Result TelescopicMapping
fqdn_to_mapping partners foreign_fqdn mapping = do
  (nf_type, plmn_id) ← parse_fqdn foreign_fqdn
  require (is_allowed nf_type)
  require (is_roaming_partner partners plmn_id)
  ok (record mapping {
    telescopic_label = some (generate_telescopic_label nf_type plmn_id);
    sepp_domain = some sepp_domain;
  })

-- The FQDN that `mapping_to_fqdn` builds from the parts of a label.
abbrev pub resolved_fqdn : Bytes → Bytes → Bytes → Bytes
resolved_fqdn nf_type mnc mcc =
    nf_type ++ (codes ".5gc.mnc" ++ (mnc ++ (codes ".mcc" ++ (mcc ++ fqdn_suffix))))

unfoldable pub mapping_to_fqdn : List Plmn → Bytes → TelescopicMapping → Result TelescopicMapping
mapping_to_fqdn partners label mapping = do
  pos ← or_fail (find label (codes "plmn"))
  nf_type ← or_throw (substr label 0 pos)
  plmn_id ← or_throw (substr_from label (pos + 4))
  require (is_allowed nf_type && is_roaming_partner partners plmn_id)
  mcc ← or_throw (substr plmn_id 0 3)
  mnc ← or_throw (substr_from plmn_id 3)
  ok (record {
    telescopic_label = some label;
    sepp_domain = some sepp_domain;
    foreign_fqdn = some (resolved_fqdn nf_type (pad_mnc mnc) mcc);
  })

unfoldable pub get_telescopic_mapping :
    List Plmn → Bytes → Bytes → TelescopicMapping → Result TelescopicMapping
get_telescopic_mapping partners foreign_fqdn telescopic_label mapping =
    if not (is_empty foreign_fqdn) && is_empty telescopic_label
    then fqdn_to_mapping partners foreign_fqdn mapping
    else if is_empty foreign_fqdn && not (is_empty telescopic_label)
    then mapping_to_fqdn partners telescopic_label mapping
    else fail

-- A model that nothing was set in.
abbrev pub no_mapping : TelescopicMapping
no_mapping = record { telescopic_label = none; sepp_domain = none; foreign_fqdn = none }

-- The overload that returns the model as a text; `to_text` is `to_json` and `dump`.
unfoldable pub get_telescopic_mapping_text :
    (TelescopicMapping → Bytes) → List Plmn → Bytes → Bytes → Result Bytes
get_telescopic_mapping_text to_text partners foreign_fqdn telescopic_label = do
  mapping ← get_telescopic_mapping partners foreign_fqdn telescopic_label no_mapping
  ok (to_text mapping)
