-- ===== src/Profile/Written.antt =====
-- What a profile that `to_json` wrote holds under each key.
use oai_cn5g_sepp.Base.{
  ◌≡◌, refl, true, false, ◌∙◌, Bool-cases, inl, inr, List, [], ◌∷◌, ◌==◌, map, Bytes, codes,
  is_empty, Option, none, some, if◌then◌else◌,
}
use oai_cn5g_sepp.Json.{JsonLib, IsJson, CanHold}
use oai_cn5g_sepp.Json.Members.{IsJsonValue, last_of, find-set_all, CanHold-set_all}
use oai_cn5g_sepp.Result.{ok}
use oai_cn5g_sepp.Profile.{Net, SeppProfile}
use oai_cn5g_sepp.Profile.Write.{
  snssai_json, nf_members, nf_to_json, to_json, info_json, service_json,
}
use oai_cn5g_sepp.Profile.Read.{read_string}
use oai_cn5g_sepp.Profile.Found.{address_json, CanHold-null}

module _ {J : JsonLib} (net : Net J) (p : SeppProfile net) where
  abbrev pub read_fqdn : Bytes → Bytes
  read_fqdn before = if is_empty p.nf.fqdn then before else p.nf.fqdn

  -- Every member that `from_json` reads is there.
  pub record Written (j : J.Json) : Type 0 where
    pub id : J.find j (codes "nfInstanceId") ≡ some ((J.string p.nf.nf_instance_id))
    pub name : J.find j (codes "nfInstanceName") ≡ some ((J.string p.nf.nf_instance_name))
    pub type : J.find j (codes "nfType") ≡ some ((J.string p.nf.nf_type))
    pub status : J.find j (codes "nfStatus") ≡ some ((J.string p.nf.nf_status))
    pub timer : J.find j (codes "heartBeatTimer") ≡ some ((J.int32 p.nf.heartbeat_timer))
    pub slices : J.find j (codes "sNssais") ≡ some ((J.array (map (snssai_json net) p.nf.snssais)))
    pub addresses :
        J.find j (codes "ipv4Addresses")
        ≡ some ((J.array (map (address_json net) p.nf.ipv4_addresses)))
    pub priority : J.find j (codes "priority") ≡ some ((J.number p.nf.priority))
    pub capacity : J.find j (codes "capacity") ≡ some ((J.number p.nf.capacity))
    pub info : J.find j (codes "seppInfo") ≡ some ((info_json net J.null p.sepp_info))
    pub fqdn : (before : Bytes) → read_string net j (codes "fqdn") before ≡ ok (read_fqdn before)

module _ {J : JsonLib} (L : IsJson J) (V : IsJsonValue J) (net : Net J) (p : SeppProfile net) where
  abbrev pub written : J.Json
  written = to_json net p J.null

  -- The members that both classes write, whatever the FQDN.
  find-nf :
      (k : Bytes) → J.find (nf_to_json net p.nf J.null) k ≡ last_of (nf_members net p.nf) k none
  unfolding nf_to_json
  find-nf k =
      rw (find-set_all L J.null (nf_members net p.nf) k (CanHold-null V), V.find-null k) refl

  CanHold-nf : CanHold J (nf_to_json net p.nf J.null)
  unfolding nf_to_json
  CanHold-nf = CanHold-set_all L J.null (nf_members net p.nf) (CanHold-null V)

  no_info_yet : J.find (nf_to_json net p.nf J.null) (codes "seppInfo") ≡ none
  unfolding last_of ◌==◌
  no_info_yet = elim (Bool-cases (is_empty p.nf.fqdn)) [
    | inl e ↦ find-nf _ ∙ rw e refl
    | inr e ↦ find-nf _ ∙ rw e refl
  ]

  abbrev own_members : List (Bytes × J.Json)
  own_members =
      (codes "nfServices", J.array (map (service_json net) p.nf_services))
      ∷ (codes "custom_info", p.custom_info)
      ∷ (codes "seppInfo", info_json net J.null p.sepp_info)
      ∷ []

  find-written :
      (k : Bytes) → J.find written k ≡ last_of own_members k (last_of (nf_members net p.nf) k none)
  unfolding to_json
  find-written k =
      rw
        (
          no_info_yet,
          find-set_all L (nf_to_json net p.nf J.null) own_members k CanHold-nf,
          find-nf k,
        )
        refl

  pub find_prefix :
      J.find (info_json net J.null p.sepp_info) (codes "seppPrefix")
      ≡ some (J.string p.sepp_info.sepp_prefix)
  unfolding info_json last_of ◌==◌
  find_prefix = find-set_all L J.null _ _ (CanHold-null V) ∙ refl

  member_cases :
      (k : Bytes) (o : Option J.Json)
      → (is_empty p.nf.fqdn ≡ true
          → last_of own_members k (last_of (nf_members net p.nf) k none) ≡ o)
      → (is_empty p.nf.fqdn ≡ false
          → last_of own_members k (last_of (nf_members net p.nf) k none) ≡ o)
      → J.find written k ≡ o
  member_cases k o empty full = elim (Bool-cases (is_empty p.nf.fqdn)) [
    | inl e ↦ find-written k ∙ empty e
    | inr e ↦ find-written k ∙ full e
  ]

  read_fqdn-empty :
      is_empty p.nf.fqdn ≡ true
      → (before : Bytes)
      → read_string net written (codes "fqdn") before ≡ ok (read_fqdn net p before)
  unfolding last_of ◌==◌ read_string
  read_fqdn-empty e before =
      let absent : J.find written (codes "fqdn") ≡ none = find-written _ ∙ rw e refl in
      rw (read_string, absent, e) refl

  read_fqdn-full :
      is_empty p.nf.fqdn ≡ false
      → (before : Bytes)
      → read_string net written (codes "fqdn") before ≡ ok (read_fqdn net p before)
  unfolding last_of ◌==◌ read_string
  read_fqdn-full e before =
      let present : J.find written (codes "fqdn") ≡ some (J.string p.nf.fqdn) =
        find-written _ ∙ rw e refl in
      rw (read_string, present, L.get_string-string p.nf.fqdn, e) refl

  fqdn_written :
      (before : Bytes) → read_string net written (codes "fqdn") before ≡ ok (read_fqdn net p before)
  fqdn_written before = elim (Bool-cases (is_empty p.nf.fqdn)) [
    | inl e ↦ read_fqdn-empty e before
    | inr e ↦ read_fqdn-full e before
  ]

  pub written_all : Written net p written
  unfolding last_of ◌==◌ read_string
  written_all = record {
    id = member_cases _ _ (λ e. rw e refl) (λ e. rw e refl);
    name = member_cases _ _ (λ e. rw e refl) (λ e. rw e refl);
    type = member_cases _ _ (λ e. rw e refl) (λ e. rw e refl);
    status = member_cases _ _ (λ e. rw e refl) (λ e. rw e refl);
    timer = member_cases _ _ (λ e. rw e refl) (λ e. rw e refl);
    slices = member_cases _ _ (λ e. rw e refl) (λ e. rw e refl);
    addresses = member_cases _ _ (λ e. rw e refl) (λ e. rw e refl);
    priority = member_cases _ _ (λ e. rw e refl) (λ e. rw e refl);
    capacity = member_cases _ _ (λ e. rw e refl) (λ e. rw e refl);
    info = find-written (codes "seppInfo") ∙ refl;
    fqdn = fqdn_written;
  }
