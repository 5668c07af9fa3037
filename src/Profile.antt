-- ===== src/Profile.antt =====
-- The profile of the SEPP that the NRF gets, `nf_profile` and `sepp_profile`
-- (src/sepp_app/sepp_profile.cpp and .hpp): the data, its constructors and setters. `to_json` is in
-- Write, `from_json` in Read, what the two do together in RoundTrip, the machine-width members in
-- Bounds. A number is reduced to the width of the parameter that takes it.
pub mod Write
pub mod Read
pub mod Found
pub mod Written
pub mod RoundTrip
pub mod Bounds
use oai_cn5g_sepp.Base.{
  ℕ, ◌%◌, ◌^◌, not, Option, none, some, List, [], ◌∷◌, ◌++◌, map, Bytes, codes, is_empty,
  if◌then◌else◌,
}
use oai_cn5g_sepp.Json.{JsonLib}
use oai_cn5g_sepp.Json.Members.{set_all}

-- Addresses of the C library and slices of the common source: `inet_ntoa`, `inet_pton` (`none` for
-- a text that is no address), `oai::utils::trim`, the constructor of `snssai_t`, and its members
-- `sst` and `sd` as JSON.
pub record Net (J : JsonLib) : Type 1 where
  pub Addr : Type 0
  pub Addr6 : Type 0
  pub no_addr : Addr
  pub inet_ntoa : Addr → Bytes
  pub inet_pton : Bytes → Option Addr
  pub trim : Bytes → Bytes
  pub Snssai : Type 0
  pub snssai : ℕ → Bytes → Snssai
  pub sst : Snssai → J.Json
  pub sd : Snssai → J.Json

-- `nf_service_version_t`
pub record ServiceVersion : Type 0 where
  pub api_version_in_uri : Bytes
  pub api_full_version : Bytes

module _ {J : JsonLib} (net : Net J) where
  -- `ip_endpoint_t`
  pub record IpEndpoint : Type 0 where
    pub ipv4_address : net.Addr
    pub transport : Bytes
    pub port : ℕ

  -- `nf_service_t`
  pub record NfService : Type 0 where
    pub service_instance_id : Bytes
    pub service_name : Bytes
    pub versions : List ServiceVersion
    pub scheme : Bytes
    pub nf_service_status : Bytes
    pub ip_endpoints : List IpEndpoint

-- `sepp_info_t`; a PLMN is its MCC and its MNC
pub record SeppInfo : Type 0 where
  pub sepp_prefix : Bytes
  pub sepp_ports : List (Bytes × ℕ)
  pub remote_plmn_list : List (Bytes × Bytes)
  pub n32_purposes : List Bytes

abbrev pub no_info : SeppInfo
no_info = record { sepp_prefix = []; sepp_ports = []; remote_plmn_list = []; n32_purposes = [] }

module _ {J : JsonLib} (net : Net J) where
  -- The timer is an `int32_t`, by its bit pattern; priority and capacity are `uint16_t`.
  pub record NfProfile : Type 0 where
    pub nf_instance_id : Bytes
    pub nf_instance_name : Bytes
    pub nf_type : Bytes
    pub nf_status : Bytes
    pub heartbeat_timer : ℕ
    pub snssais : List net.Snssai
    pub fqdn : Bytes
    pub ipv4_addresses : List net.Addr
    pub ipv6_addresses : List net.Addr6
    pub priority : ℕ
    pub capacity : ℕ

  -- The members of the base class are in `nf`.
  pub record SeppProfile : Type 0 where
    pub nf : NfProfile
    pub nf_services : List (NfService net)
    pub custom_info : J.Json
    pub sepp_info : SeppInfo

  unfoldable pub nf_profile : Bytes → NfProfile
  nf_profile id = record {
    nf_instance_id = id;
    nf_instance_name = [];
    nf_type = codes "NF_TYPE_UNKNOWN";
    nf_status = [];
    heartbeat_timer = 0;
    snssais = [];
    fqdn = [];
    ipv4_addresses = [];
    ipv6_addresses = [];
    priority = 0;
    capacity = 0;
  }

  unfoldable pub sepp_profile : Bytes → SeppProfile
  sepp_profile id = record {
    nf = nf_profile id;
    nf_services = [];
    custom_info = J.null;
    sepp_info = no_info;
  }

module _ {J : JsonLib} {net : Net J} where
  abbrev pub set_nf_instance_id : Bytes → SeppProfile net → SeppProfile net
  set_nf_instance_id id s = record s { nf = record s.nf { nf_instance_id = id } }

  abbrev pub set_nf_instance_name : Bytes → SeppProfile net → SeppProfile net
  set_nf_instance_name name s = record s { nf = record s.nf { nf_instance_name = name } }

  abbrev pub set_nf_type : Bytes → SeppProfile net → SeppProfile net
  set_nf_type type s = record s { nf = record s.nf { nf_type = type } }

  abbrev pub set_nf_status : Bytes → SeppProfile net → SeppProfile net
  set_nf_status status s = record s { nf = record s.nf { nf_status = status } }

  abbrev pub set_nf_heartbeat_timer : ℕ → SeppProfile net → SeppProfile net
  set_nf_heartbeat_timer timer s = record s {
    nf = record s.nf { heartbeat_timer = timer % 2 ^ 32 };
  }

  abbrev pub set_nf_priority : ℕ → SeppProfile net → SeppProfile net
  set_nf_priority p s = record s { nf = record s.nf { priority = p % 2 ^ 16 } }

  abbrev pub set_nf_capacity : ℕ → SeppProfile net → SeppProfile net
  set_nf_capacity c s = record s { nf = record s.nf { capacity = c % 2 ^ 16 } }

  abbrev pub set_fqdn : Bytes → SeppProfile net → SeppProfile net
  set_fqdn text s = record s { nf = record s.nf { fqdn = text } }

  abbrev pub add_nf_ipv4_addresses : net.Addr → SeppProfile net → SeppProfile net
  add_nf_ipv4_addresses a s = record s {
    nf = record s.nf { ipv4_addresses = s.nf.ipv4_addresses ++ (a ∷ []) };
  }

  abbrev pub add_nf_service : NfService net → SeppProfile net → SeppProfile net
  add_nf_service n s = record s { nf_services = s.nf_services ++ (n ∷ []) }

  abbrev pub set_sepp_info : SeppInfo → SeppProfile net → SeppProfile net
  set_sepp_info info s = record s { sepp_info = info }

  unfoldable pub handle_heartbeart_timeout : SeppProfile net → SeppProfile net
  handle_heartbeart_timeout s = set_nf_status (codes "SUSPENDED") s
