-- ===== src/Profile/RoundTrip.antt =====
-- What `from_json` makes of a profile that `to_json` wrote.
use oai_cn5g_sepp.Base.{ℕ, ◌≡◌, ◌<◌, ◌%◌, ◌^◌, refl, arith, [], ◌++◌, is_empty, some, if◌then◌else◌}
use oai_cn5g_sepp.Json.{JsonLib, IsJson}
use oai_cn5g_sepp.Json.Members.{IsJsonValue}
use oai_cn5g_sepp.Result.{ok}
use oai_cn5g_sepp.Profile.{Net, NfProfile, SeppProfile}
use oai_cn5g_sepp.Profile.Write.{to_json, info_json}
use oai_cn5g_sepp.Profile.Read.{
  read_snssai, read_address, read_each, nf_from_json, read_prefix, from_json,
}
use oai_cn5g_sepp.Profile.Found.{
  read_each-addresses, read_string-found, read_int-found, read_array-found,
}
use oai_cn5g_sepp.Profile.Written.{Written, read_fqdn, written, written_all, find_prefix}

module _ {J : JsonLib} (L : IsJson J) (V : IsJsonValue J) (net : Net J)
    (read_back : (a : net.Addr) → net.inet_pton (net.trim (net.inet_ntoa a)) ≡ some a)
    (p : SeppProfile net) where
  module _ (j : J.Json) (w : Written net p j) (t : SeppProfile net) (slices : p.nf.snssais ≡ [])
      (timer : p.nf.heartbeat_timer < 2 ^ 32) (priority : p.nf.priority < 2 ^ 16)
      (capacity : p.nf.capacity < 2 ^ 16) where
    width : (n : ℕ) → n < 2 ^ 16 → n % 2 ^ 32 % 2 ^ 16 ≡ n
    width n h = omega arith

    abbrev nf_read_back : NfProfile net
    nf_read_back = record p.nf {
      snssais = t.nf.snssais;
      fqdn = read_fqdn net p t.nf.fqdn;
      ipv4_addresses = t.nf.ipv4_addresses ++ p.nf.ipv4_addresses;
      ipv6_addresses = t.nf.ipv6_addresses;
    }

    nf_from_json-Written : nf_from_json net t.nf j ≡ ok nf_read_back
    unfolding nf_from_json read_each
    nf_from_json-Written =
        rw
          (
            read_string-found L V net j _ _ t.nf.nf_instance_id w.id,
            read_string-found L V net j _ _ t.nf.nf_instance_name w.name,
            read_string-found L V net j _ _ t.nf.nf_type w.type,
            read_string-found L V net j _ _ t.nf.nf_status w.status,
            read_int-found L V net j _ _ _ t.nf.heartbeat_timer w.timer (V.get_int-int32 _ timer),
            read_array-found L V net (read_snssai net) j _ _ t.nf.snssais w.slices,
            slices,
            w.fqdn,
            read_array-found L V net (read_address net) j _ _ t.nf.ipv4_addresses w.addresses,
            read_each-addresses L net read_back,
            read_int-found L V net j _ _ _ t.nf.priority w.priority (V.get_int-number _),
            read_int-found L V net j _ _ _ t.nf.capacity w.capacity (V.get_int-number _),
            width p.nf.priority priority,
            width p.nf.capacity capacity,
          )
          refl

    read_prefix-Written : read_prefix net j t.sepp_info.sepp_prefix ≡ ok p.sepp_info.sepp_prefix
    unfolding read_prefix
    read_prefix-Written =
        rw
          (
            read_prefix,
            w.info,
            read_string-found L V net (info_json net J.null p.sepp_info) _ _ t.sepp_info.sepp_prefix
                (find_prefix L V net p),
          )
          refl

    from_json-Written :
        from_json net t j
        ≡ ok (record t {
          nf = record nf_read_back {
            ipv4_addresses = (t.nf.ipv4_addresses ++ p.nf.ipv4_addresses) ++ p.nf.ipv4_addresses;
          };
          sepp_info = record t.sepp_info { sepp_prefix = p.sepp_info.sepp_prefix };
        })
    unfolding from_json read_each
    from_json-Written =
        rw
          (
            nf_from_json-Written,
            read_string-found L V net j _ _ p.nf.nf_instance_id w.id,
            read_string-found L V net j _ _ p.nf.nf_instance_name w.name,
            read_string-found L V net j _ _ p.nf.nf_type w.type,
            read_string-found L V net j _ _ p.nf.nf_status w.status,
            read_int-found L V net j _ _ _ p.nf.heartbeat_timer w.timer (V.get_int-int32 _ timer),
            read_array-found L V net (read_snssai net) j _ _ t.nf.snssais w.slices,
            slices,
            read_array-found L V net (read_address net) j _ _
                (t.nf.ipv4_addresses ++ p.nf.ipv4_addresses) w.addresses,
            read_each-addresses L net read_back,
            read_int-found L V net j _ _ _ p.nf.priority w.priority (V.get_int-number _),
            read_int-found L V net j _ _ _ p.nf.capacity w.capacity (V.get_int-number _),
            width p.nf.priority priority,
            width p.nf.capacity capacity,
            read_prefix-Written,
          )
          refl

  -- A profile without slices, whose timer fits 32 bits and whose priority and capacity fit 16, is
  -- written to a JSON object and read into any profile `t`, with `inet_pton` undoing `inet_ntoa`.
  -- Its strings, numbers and prefix arrive (the FQDN of `t` stays where it had none), but its
  -- addresses are appended to those of `t` twice, and the services, the custom data, the ports, the
  -- PLMNs and the purposes are still those of `t`.
  pub from_json-to_json :
      (t : SeppProfile net)
      → p.nf.snssais ≡ []
      → p.nf.heartbeat_timer < 2 ^ 32
      → p.nf.priority < 2 ^ 16
      → p.nf.capacity < 2 ^ 16
      → from_json net t (to_json net p J.null)
        ≡ ok (record t {
          nf = record p.nf {
            snssais = t.nf.snssais;
            fqdn = if is_empty p.nf.fqdn then t.nf.fqdn else p.nf.fqdn;
            ipv4_addresses = (t.nf.ipv4_addresses ++ p.nf.ipv4_addresses) ++ p.nf.ipv4_addresses;
            ipv6_addresses = t.nf.ipv6_addresses;
          };
          sepp_info = record t.sepp_info { sepp_prefix = p.sepp_info.sepp_prefix };
        })
  from_json-to_json = from_json-Written (written L V net p) (written_all L V net p)
