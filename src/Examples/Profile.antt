-- ===== src/Examples/Profile.antt =====
-- A profile that is written and read.
use oai_cn5g_sepp.Base.{
  ◌||◌, Bytes, true, false, ℕ, ◌≡◌, ◌<◌, ◌^◌, refl, ap, arith, some, List, [], ◌∷◌, ◌++◌, codes,
  ◌==◌, is_empty, if◌then◌else◌,
}
use oai_cn5g_sepp.Json.Members.{IsJsonValue}
use oai_cn5g_sepp.Result.{ok}
use oai_cn5g_sepp.Profile.{nf_profile, SeppProfile, sepp_profile}
use oai_cn5g_sepp.Profile.Write.{to_json}
use oai_cn5g_sepp.Profile.Read.{
  from_json, nf_from_json, read_string, read_int, read_array, read_prefix,
}
use oai_cn5g_sepp.Profile.RoundTrip.{from_json-to_json}
use oai_cn5g_sepp.Profile.Bounds.{InRange, from_json-InRange}
use oai_cn5g_sepp.Nrf.{generate_sepp_profile}
use oai_cn5g_sepp.Examples.Json.{
  Json, null, string, bool, number, end_array, item, end_object, member, json, json-IsJson, array,
  elements, get_int, is_null, find, insert, is_object, is_array, get_bool,
}
use oai_cn5g_sepp.Examples.Nrf.{net, cfg}

json_elements-array : (js : List Json) → elements (array js) ≡ js
unfolding elements array
json_elements-array [] = refl
json_elements-array (j ∷ js) = ap (◌∷◌ j) (json_elements-array js)

json_get_int-bound : (j : Json) (n : ℕ) → get_int j ≡ some n → n < 2 ^ 32
unfolding get_int
json_get_int-bound (number k) n e = ground arith
json_get_int-bound null n e = cc
json_get_int-bound (string k) n e = cc
json_get_int-bound (bool k) n e = cc
json_get_int-bound end_array n e = cc
json_get_int-bound (item i j) n e = cc
json_get_int-bound end_object n e = cc
json_get_int-bound (member k i j) n e = cc

json_is_null-insert :
    (j v : Json) (k : Bytes) → (is_null j || is_object j) ≡ true → is_null (insert j k v) ≡ false
unfolding insert is_null
json_is_null-insert null v k h = refl
json_is_null-insert (string s) v k h = refl
json_is_null-insert (bool b) v k h = refl
json_is_null-insert (number n) v k h = refl
json_is_null-insert end_array v k h = refl
json_is_null-insert (item i j) v k h = refl
json_is_null-insert end_object v k h = refl
json_is_null-insert (member i j m) v k h = refl

json_is_object-insert :
    (j v : Json) (k : Bytes) → (is_null j || is_object j) ≡ true → is_object (insert j k v) ≡ true
unfolding insert is_object
json_is_object-insert null v k h = refl
json_is_object-insert (string s) v k h = refl
json_is_object-insert (bool b) v k h = refl
json_is_object-insert (number n) v k h = refl
json_is_object-insert end_array v k h = refl
json_is_object-insert (item i j) v k h = refl
json_is_object-insert end_object v k h = refl
json_is_object-insert (member i j m) v k h = refl

json_is_array-array : (js : List Json) → is_array (array js) ≡ true
unfolding array is_array
json_is_array-array [] = refl
json_is_array-array (j ∷ js) = refl

pub json-IsJsonValue : IsJsonValue json
unfolding get_int is_null find get_bool
json-IsJsonValue = record {
  is_null-null = refl;
  find-null = λ k. refl;
  is_null-insert = json_is_null-insert;
  is_object-insert = json_is_object-insert;
  is_array-array = json_is_array-array;
  get_bool-bool = λ b. refl;
  elements-array = json_elements-array;
  get_int-int32 = λ n h. ap some (omega (arith, h));
  get_int-number = λ n. refl;
  get_int-bound = json_get_int-bound;
}

abbrev own : SeppProfile net
own = generate_sepp_profile cfg (codes "id") (sepp_profile net [])

abbrev fresh : SeppProfile net
fresh = sepp_profile net (codes "other")

from_json-to_json_example :
    from_json net fresh (to_json net own null)
    ≡ ok (record fresh {
      nf = record own.nf {
        snssais = fresh.nf.snssais;
        fqdn = if is_empty own.nf.fqdn then fresh.nf.fqdn else own.nf.fqdn;
        ipv4_addresses =
            (fresh.nf.ipv4_addresses ++ own.nf.ipv4_addresses) ++ own.nf.ipv4_addresses;
        ipv6_addresses = fresh.nf.ipv6_addresses;
      };
      sepp_info = record fresh.sepp_info { sepp_prefix = own.sepp_info.sepp_prefix };
    })
unfolding generate_sepp_profile sepp_profile nf_profile
from_json-to_json_example =
    from_json-to_json json-IsJson json-IsJsonValue net (λ a. refl) own fresh refl (omega arith)
      (omega arith) (omega arith)

abbrev wide : Json
wide = member (codes "priority") (number 65537) end_object

abbrev narrowed : SeppProfile net
narrowed = record fresh { nf = record fresh.nf { priority = 1 } }

-- A priority that does not fit 16 bits loses its upper bits.
wide_read : from_json net fresh wide ≡ ok narrowed
unfolding from_json nf_from_json read_string read_int read_array read_prefix sepp_profile nf_profile
    find get_int ◌==◌
wide_read = refl

fresh-InRange : InRange fresh.nf
unfolding sepp_profile nf_profile
fresh-InRange = record { timer = omega arith; priority = omega arith; capacity = omega arith }

from_json-InRange_example : InRange narrowed.nf
from_json-InRange_example =
    from_json-InRange json-IsJsonValue net fresh wide narrowed fresh-InRange wide_read
