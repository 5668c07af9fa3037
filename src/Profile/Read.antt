-- ===== src/Profile/Read.antt =====
-- `nf_profile::from_json` and `sepp_profile::from_json`; `thrown` where an exception leaves them.
use oai_cn5g_sepp.Base.{ℕ, ◌%◌, ◌^◌, List, [], ◌∷◌, ◌++◌, Bytes, codes, none, some}
use oai_cn5g_sepp.Json.{JsonLib}
use oai_cn5g_sepp.Result.{Result, ok, ◌>>=◌, or_throw}
use oai_cn5g_sepp.Profile.{Net, NfProfile, SeppProfile}

module _ {J : JsonLib} (net : Net J) where
  -- `if (data.find(key) != data.end()) member = data[key].get<std::string>();`
  unfoldable pub read_string : J.Json → Bytes → Bytes → Result Bytes
  read_string j key member = elim (J.find j key) [
    | none ↦ ok member
    | some v ↦ or_throw (J.get_string v)
  ]

  -- the same for `get<int>()`
  unfoldable pub read_int : J.Json → Bytes → ℕ → Result ℕ
  read_int j key member = elim (J.find j key) [ none ↦ ok member | some v ↦ or_throw (J.get_int v) ]

  -- `it[key]` makes a null of a missing member, which has no number and no text.
  unfoldable pub read_snssai : J.Json → Result net.Snssai
  read_snssai it = do
    sst_json ← or_throw (J.find it (codes "sst"))
    sst ← or_throw (J.get_int sst_json)
    sd_json ← or_throw (J.find it (codes "sd"))
    sd ← or_throw (J.get_string sd_json)
    ok (net.snssai sst sd)

  unfoldable pub read_address : J.Json → Result net.Addr
  read_address it = do
    address ← or_throw (J.get_string it)
    ok (elim (net.inet_pton (net.trim address)) [ none ↦ net.no_addr | some a ↦ a ])

module _ {A B : Type 0} (read : A → Result B) where
  -- `for (auto it : items) members.push_back(read(it));`
  unfoldable pub read_each : List A → List B → Result (List B)
  read_each [] members = ok members
  read_each (it ∷ items) members = do b ← read it; read_each items (members ++ (b ∷ []))

module _ {J : JsonLib} (net : Net J) where
  -- `if (data.find(key) != data.end()) for (auto it : data[key]) ...`
  unfoldable pub read_array :
      {B : Type 0} → (J.Json → Result B) → J.Json → Bytes → List B → Result (List B)
  read_array read j key members = elim (J.find j key) [
    | none ↦ ok members
    | some v ↦ read_each read (J.elements v) members
  ]

  unfoldable pub nf_from_json : NfProfile net → J.Json → Result (NfProfile net)
  nf_from_json p j = do
    id ← read_string net j (codes "nfInstanceId") p.nf_instance_id
    name ← read_string net j (codes "nfInstanceName") p.nf_instance_name
    type ← read_string net j (codes "nfType") p.nf_type
    status ← read_string net j (codes "nfStatus") p.nf_status
    timer ← read_int net j (codes "heartBeatTimer") p.heartbeat_timer
    snssais ← read_array (read_snssai net) j (codes "sNssais") p.snssais
    fqdn ← read_string net j (codes "fqdn") p.fqdn
    addresses ← read_array (read_address net) j (codes "ipv4Addresses") p.ipv4_addresses
    priority ← read_int net j (codes "priority") p.priority
    capacity ← read_int net j (codes "capacity") p.capacity
    ok (record p {
      nf_instance_id = id;
      nf_instance_name = name;
      nf_type = type;
      nf_status = status;
      heartbeat_timer = timer;
      snssais = snssais;
      fqdn = fqdn;
      ipv4_addresses = addresses;
      priority = priority % 2 ^ 16;
      capacity = capacity % 2 ^ 16;
    })

  -- `info["seppPrefix"]` of `data["seppInfo"]`
  unfoldable pub read_prefix : J.Json → Bytes → Result Bytes
  read_prefix j prefix = elim (J.find j (codes "seppInfo")) [
    | none ↦ ok prefix
    | some info ↦ read_string net info (codes "seppPrefix") prefix
  ]

  -- What the base class has read is read once more, but for the FQDN.
  unfoldable pub from_json : SeppProfile net → J.Json → Result (SeppProfile net)
  from_json s j = do
    p ← nf_from_json s.nf j
    id ← read_string net j (codes "nfInstanceId") p.nf_instance_id
    name ← read_string net j (codes "nfInstanceName") p.nf_instance_name
    type ← read_string net j (codes "nfType") p.nf_type
    status ← read_string net j (codes "nfStatus") p.nf_status
    timer ← read_int net j (codes "heartBeatTimer") p.heartbeat_timer
    snssais ← read_array (read_snssai net) j (codes "sNssais") p.snssais
    addresses ← read_array (read_address net) j (codes "ipv4Addresses") p.ipv4_addresses
    priority ← read_int net j (codes "priority") p.priority
    capacity ← read_int net j (codes "capacity") p.capacity
    prefix ← read_prefix j s.sepp_info.sepp_prefix
    ok (record s {
      nf = record p {
        nf_instance_id = id;
        nf_instance_name = name;
        nf_type = type;
        nf_status = status;
        heartbeat_timer = timer;
        snssais = snssais;
        ipv4_addresses = addresses;
        priority = priority % 2 ^ 16;
        capacity = capacity % 2 ^ 16;
      };
      sepp_info = record s.sepp_info { sepp_prefix = prefix };
    })
