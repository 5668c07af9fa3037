-- ===== src/Nrf.antt =====
-- `sepp_nrf`, the client of the NRF (src/sepp_app/sepp_nrf.cpp): registration, heartbeat and
-- deregistration. What was sent to the NRF is kept in `sent`, the oldest first.
pub mod Heartbeats
pub mod Registration
pub mod Failures
use oai_cn5g_sepp.Base.{
  ℕ, ◌+◌, ◌*◌, ◌%◌, ◌^◌, Bool, true, not, ◌||◌, Option, none, some, List, [], ◌∷◌, ◌++◌, ◌=?◌, find,
  Bytes, codes, if◌then◌else◌,
}
use oai_cn5g_sepp.Json.{JsonLib}
use oai_cn5g_sepp.Http.{Client, Method, put, patch, delete, HttpRequest, HttpResponse}
use oai_cn5g_sepp.Profile.{
  Net, SeppProfile, NfService, SeppInfo, sepp_profile, set_nf_instance_id, set_nf_instance_name,
  set_nf_type, set_nf_status, set_fqdn, set_nf_heartbeat_timer, set_nf_priority, set_nf_capacity,
  add_nf_ipv4_addresses, add_nf_service, set_sepp_info,
}
use oai_cn5g_sepp.Profile.Write.{to_json}
use oai_cn5g_sepp.Event.{Signals, subscribe_task_nf_heartbeat, manage_tasks}

-- What `sepp_cfg->local().get_sbi()` answers.
pub record SbiConfig {J : JsonLib} (net : Net J) : Type 0 where
  pub host : Bytes
  pub addr4 : net.Addr
  pub api_version : Bytes
  pub port : ℕ

pub record Sent : Type 0 where
  pub at : ℕ
  pub method : Method
  pub request : HttpRequest
  pub status : ℕ

module _ {J : JsonLib} (net : Net J) (S : Signals) where
  -- `task_connection` is `none` until it is assigned; `event_sub` is the object shared with the task
  -- manager.
  pub record SeppNrf : Type 0 where
    pub profile : SeppProfile net
    pub nrf_url : Bytes
    pub task_connection : Option S.Connection
    pub event_sub : S.Signal
    pub sent : List Sent

abbrev own_info : SeppInfo
own_info = record {
  sepp_prefix = codes "oai-sepp-prefix";
  sepp_ports = (codes "n32f", 443) ∷ (codes "n32c", 443) ∷ [];
  remote_plmn_list = (codes "262", codes "10") ∷ [];
  n32_purposes = codes "ROAMING" ∷ [];
}

-- `HEART_BEAT_TIMER * 1000`
abbrev pub interval : ℕ
interval = 10 * 1000

-- `body.find("REGISTERED") != 0`
unfoldable pub not_in_front : Bytes → Bool
not_in_front body = elim (find body (codes "REGISTERED")) [ none ↦ true | some n ↦ not (n =? 0) ]

module _ {J : JsonLib} {net : Net J} where
  abbrev telescopic_service : SbiConfig net → NfService net
  telescopic_service cfg = record {
    service_instance_id = codes "nsepp-telescopic";
    service_name = codes "nsepp-telescopic";
    versions =
        record { api_version_in_uri = cfg.api_version; api_full_version = codes "1.0.0" } ∷ [];
    scheme = codes "http";
    nf_service_status = codes "REGISTERED";
    ip_endpoints =
        record { ipv4_address = cfg.addr4; transport = codes "TCP"; port = cfg.port } ∷ [];
  }

  unfoldable pub generate_sepp_profile : SbiConfig net → Bytes → SeppProfile net → SeppProfile net
  generate_sepp_profile cfg id p =
      let named = set_nf_instance_name (codes "OAI-SEPP") (set_nf_instance_id id p) in
      let typed = set_nf_status (codes "REGISTERED") (set_nf_type (codes "SEPP") named) in
      let timed = set_nf_heartbeat_timer 50 (set_fqdn cfg.host typed) in
      let sized = set_nf_capacity 100 (set_nf_priority 1 timed) in
      let addressed = add_nf_ipv4_addresses cfg.addr4 sized in
      set_sepp_info own_info (add_nf_service (telescopic_service cfg) addressed)

module _ {J : JsonLib} {net : Net J} (S : Signals) where
  -- The constructor; `id` is the random UUID, `url` what `get_nrf_nf_instance_uri` makes of it.
  unfoldable pub sepp_nrf : SbiConfig net → Bytes → Bytes → S.Signal → SeppNrf net S
  sepp_nrf cfg id url event_sub = record {
    profile = generate_sepp_profile cfg id (sepp_profile net []);
    nrf_url = url;
    task_connection = none;
    event_sub = event_sub;
    sent = [];
  }

  -- `send_http_request`, which leaves its trace
  abbrev pub log : ℕ → Method → HttpRequest → ℕ → SeppNrf net S → SeppNrf net S
  log at method request status s = record s {
    sent = s.sent ++ (record { at = at; method = method; request = request; status = status } ∷ []);
  }

  unfoldable pub start_event_nf_heartbeat : ℕ → SeppNrf net S → SeppNrf net S
  start_event_nf_heartbeat ms s =
      let (event_sub, connection) =
        subscribe_task_nf_heartbeat S s.event_sub interval ((ms + interval) % 2 ^ 64) in
      record s { event_sub = event_sub; task_connection = some connection }

  abbrev pub registration : Client J → SeppNrf net S → HttpRequest
  registration client s =
      client.prepare_json_request s.nrf_url (J.dump (to_json net s.profile J.null))

  unfoldable pub register_to_nrf : Client J → ℕ → SeppNrf net S → SeppNrf net S
  register_to_nrf client ms s =
      let response = client.send put (registration client s) in
      let logged = log ms put (registration client s) response.status_code s in
      if response.status_code =? 201 || response.status_code =? 200
      then if not_in_front response.body then start_event_nf_heartbeat ms logged else logged
      else logged

  -- `disconnect()` of a connection that was never assigned does nothing.
  unfoldable pub disconnect : SeppNrf net S → SeppNrf net S
  disconnect s = elim s.task_connection [
    | none ↦ s
    | some c ↦ record s { event_sub = S.disconnect s.event_sub c }
  ]

  unfoldable pub deregister_to_nrf : Client J → ℕ → SeppNrf net S → SeppNrf net S
  deregister_to_nrf client ms s =
      let request : HttpRequest = record { uri = s.nrf_url; headers = []; body = [] } in
      log ms delete request (client.send delete request).status_code s

module _ {J : JsonLib} {net : Net J} (S : Signals) (patch_item : Bytes → Bytes → J.Json) where
  -- The request of the heartbeat; `patch_item` makes a `PatchItem` that replaces
  -- a path by a value.
  abbrev pub heartbeat : Client J → SeppNrf net S → HttpRequest
  heartbeat client s =
      client.prepare_json_request s.nrf_url
        (J.dump (J.array (patch_item (codes "/nfStatus") (codes "REGISTERED") ∷ [])))

  unfoldable pub trigger_nf_heartbeat_procedure : Client J → ℕ → SeppNrf net S → SeppNrf net S
  trigger_nf_heartbeat_procedure client ms s =
      let status = (client.send patch (heartbeat client s)).status_code in
      let logged = log S ms patch (heartbeat client s) status s in
      if status =? 200 || status =? 204 then logged else disconnect S logged

  -- The task manager's loop with the heartbeat as its one callback; `network t` is the NRF at time
  -- `t`.
  unfoldable pub run : (ℕ → Client J) → ℕ → SeppNrf net S × ℕ → SeppNrf net S × ℕ
  run network =
      manage_tasks S (λ s. s.event_sub) (λ t. trigger_nf_heartbeat_procedure (network t) t)
