-- ===== src/Profile/Write.antt =====
-- `nf_profile::to_json` and `sepp_profile::to_json`.
use oai_cn5g_sepp.Base.{
  ℕ, List, [], ◌∷◌, ◌++◌, map, Bytes, codes, is_empty, none, some, if◌then◌else◌,
}
use oai_cn5g_sepp.Json.{JsonLib}
use oai_cn5g_sepp.Json.Members.{set_all}
use oai_cn5g_sepp.Profile.{
  Net, ServiceVersion, IpEndpoint, NfService, SeppInfo, NfProfile, SeppProfile,
}

module _ {J : JsonLib} (net : Net J) where
  abbrev pub snssai_json : net.Snssai → J.Json
  snssai_json s = set_all J J.null ((codes "sst", net.sst s) ∷ (codes "sd", net.sd s) ∷ [])

  -- What `nf_profile::to_json` assigns, in its order.
  abbrev pub nf_members : NfProfile net → List (Bytes × J.Json)
  nf_members p =
      (codes "nfInstanceId", J.string p.nf_instance_id)
      ∷ (codes "nfInstanceName", J.string p.nf_instance_name)
      ∷ (codes "nfType", J.string p.nf_type)
      ∷ (codes "nfStatus", J.string p.nf_status)
      ∷ (codes "heartBeatTimer", J.int32 p.heartbeat_timer)
      ∷ (codes "sNssais", J.array (map snssai_json p.snssais))
      ∷ ((if is_empty p.fqdn then [] else (codes "fqdn", J.string p.fqdn) ∷ [])
          ++ ((
            codes "ipv4Addresses",
            J.array (map (λ a. J.string (net.inet_ntoa a)) p.ipv4_addresses),
          )
              ∷ (codes "priority", J.number p.priority)
              ∷ (codes "capacity", J.number p.capacity)
              ∷ []))

  abbrev version_json : ServiceVersion → J.Json
  version_json v = set_all J J.null (
      (codes "apiVersionInUri", J.string v.api_version_in_uri)
      ∷ (codes "apiFullVersion", J.string v.api_full_version)
      ∷ [])

  abbrev endpoint_json : IpEndpoint net → J.Json
  endpoint_json e = set_all J J.null (
      (codes "ipv4Address", J.string (net.inet_ntoa e.ipv4_address))
      ∷ (codes "transport", J.string e.transport)
      ∷ (codes "port", J.number e.port)
      ∷ [])

  unfoldable pub service_json : NfService net → J.Json
  service_json s = set_all J J.null (
      (codes "serviceInstanceId", J.string s.service_instance_id)
      ∷ (codes "serviceName", J.string s.service_name)
      ∷ (codes "versions", J.array (map version_json s.versions))
      ∷ (codes "scheme", J.string s.scheme)
      ∷ (codes "nfServiceStatus", J.string s.nf_service_status)
      ∷ (codes "ipEndPoints", J.array (map endpoint_json s.ip_endpoints))
      ∷ [])

  abbrev plmn_json : Bytes × Bytes → J.Json
  plmn_json plmn = J.object ((codes "mcc", J.string plmn.0) ∷ (codes "mnc", J.string plmn.1) ∷ [])

  abbrev port_json : Bytes × ℕ → Bytes × J.Json
  port_json port = (port.0, J.number port.1)

  -- The members of `data["seppInfo"]`.
  unfoldable pub info_json : J.Json → SeppInfo → J.Json
  info_json info s = set_all J info (
      (codes "seppPrefix", J.string s.sepp_prefix)
      ∷ (codes "seppPorts", set_all J (J.object []) (map port_json s.sepp_ports))
      ∷ (codes "remotePlmnList", J.array (map plmn_json s.remote_plmn_list))
      ∷ (codes "n32Purposes", J.array (map J.string s.n32_purposes))
      ∷ [])

  unfoldable pub nf_to_json : NfProfile net → J.Json → J.Json
  nf_to_json p j = set_all J j (nf_members p)

  -- `data["seppInfo"]` is null before, where there is none.
  unfoldable pub to_json : SeppProfile net → J.Json → J.Json
  to_json p j =
      let nf = nf_to_json p.nf j in
      let info : J.Json = elim (J.find nf (codes "seppInfo")) [ none ↦ J.null | some i ↦ i ] in
      set_all J nf (
        (codes "nfServices", J.array (map service_json p.nf_services))
        ∷ (codes "custom_info", p.custom_info)
        ∷ (codes "seppInfo", info_json info p.sepp_info)
        ∷ [])
