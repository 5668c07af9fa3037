-- ===== src/Examples/Telescopic.antt =====
-- The telescopic mapping at a partner with the PLMN 208-95, whose MNC has two digits.
use oai_cn5g_sepp.Base.{
  ◌≡◌, refl, false, none, some, List, [], ◌∷◌, Bytes, codes, ◌==◌, find, starts_with, is_empty,
  arith,
}
use oai_cn5g_sepp.Result.{ok}
use oai_cn5g_sepp.Telescopic.{
  Plmn, TelescopicMapping, is_allowed, is_roaming_partner, parse_plmn, parse_fqdn, sepp_domain,
  resolved_fqdn, fqdn_to_mapping, mapping_to_fqdn, get_telescopic_mapping,
}
use oai_cn5g_sepp.Telescopic.Partners.{IsServed, get_telescopic_mapping-IsServed}
use oai_cn5g_sepp.Telescopic.RoundTrip.{mapping_to_fqdn-fqdn_to_mapping}

abbrev partners : List Plmn
partners = record { mcc = codes "208"; mnc = codes "95" } ∷ []

abbrev start : TelescopicMapping
start = record { telescopic_label = none; sepp_domain = none; foreign_fqdn = none }

abbrev amf_fqdn : Bytes
amf_fqdn = codes "amf.5gc.mnc95.mcc208.3gppnetwork.org"

abbrev amf_label : Bytes
amf_label = codes "amfplmn20895"

abbrev amf_mapping : TelescopicMapping
amf_mapping = record {
  telescopic_label = some amf_label;
  sepp_domain = some sepp_domain;
  foreign_fqdn = none;
}

amf_answer : get_telescopic_mapping partners amf_fqdn [] start ≡ ok amf_mapping
unfolding get_telescopic_mapping fqdn_to_mapping parse_fqdn parse_plmn is_allowed is_roaming_partner
    ◌==◌ find starts_with
amf_answer = refl

get_telescopic_mapping-IsServed_example :
    (is_empty amf_fqdn ≡ false) × IsServed partners amf_mapping
get_telescopic_mapping-IsServed_example =
    get_telescopic_mapping-IsServed partners amf_fqdn [] start amf_answer

mapping_to_fqdn-fqdn_to_mapping_example :
    (fqdn_to_mapping partners (resolved_fqdn (codes "amf") (codes "95") (codes "208")) start
      ≡ ok (record start { telescopic_label = some amf_label; sepp_domain = some sepp_domain }))
    × (mapping_to_fqdn partners amf_label start
        ≡ ok (record {
          telescopic_label = some amf_label;
          sepp_domain = some sepp_domain;
          foreign_fqdn = some (codes "amf.5gc.mnc095.mcc208.3gppnetwork.org");
        }))
unfolding is_allowed is_roaming_partner ◌==◌
mapping_to_fqdn-fqdn_to_mapping_example =
    mapping_to_fqdn-fqdn_to_mapping partners (codes "amf") (codes "95") (codes "208") start start
      refl (omega arith, (omega arith, tt)) (omega arith) refl refl
