-- ===== src/Examples/Nrf.antt =====
-- A SEPP at an NRF, with signals that are lists of numbered slots.
use oai_cn5g_sepp.Base.{
  ℕ, ◌+◌, ◌-◌, ◌/◌, ◌≡◌, refl, arith, true, any, List, [], ◌∷◌, ◌++◌, length, ◌=?◌, starts_with,
  find, Bytes, codes, some, none, if◌then◌else◌,
}
use oai_cn5g_sepp.Http.{Client, HttpResponse, Method, put}
use oai_cn5g_sepp.Profile.{Net}
use oai_cn5g_sepp.Event.{Slot, Signals, IsSignals}
use oai_cn5g_sepp.Nrf.{
  SeppNrf, SbiConfig, sepp_nrf, not_in_front, interval, register_to_nrf, deregister_to_nrf, run,
}
use oai_cn5g_sepp.Nrf.Heartbeats.{after, beats}
use oai_cn5g_sepp.Nrf.Registration.{
  run-register_to_nrf, run-deregister_to_nrf, register_to_nrf-Beating,
}
use oai_cn5g_sepp.Nrf.Failures.{
  tick, StopsWhenRefused, Reaches-StopsWhenRefused, registered, ticked, deregistered,
}
use oai_cn5g_sepp.Examples.Json.{Json, json, string, item, end_array}

abbrev Slots : Type 0
Slots = List (ℕ × Slot)

pub without : ℕ → Slots → Slots
without c [] = []
without c ((n, s) ∷ g) = let rest = without c g in if n =? c then rest else (n, s) ∷ rest

abbrev pub signals : Signals
signals = record {
  Signal = Slots;
  Connection = ℕ;
  fresh = [];
  connect = λ g s. (g ++ ((length g, s) ∷ []), length g);
  disconnect = λ g c. without c g;
  connected = λ g c. any (λ (n, s). n =? c) g;
  slots = λ g. g;
}

without-only : (g : Slots) (c : ℕ) (s : Slot) → g ≡ (c, s) ∷ [] → without c g ≡ []
unfolding without
without-only g c s h = rw (h) (ground arith)

any-only : (g : Slots) (c : ℕ) (s : Slot) → g ≡ (c, s) ∷ [] → any (λ (n, s). n =? c) g ≡ true
any-only g c s h = rw (h) (ground arith)

signals-IsSignals : IsSignals signals
signals-IsSignals = record {
  slots-fresh = refl;
  slots-connect = λ g s. refl;
  slots-disconnect = without-only;
  connected-slots = any-only;
}

abbrev pub net : Net json
net = record {
  Addr = Bytes;
  Addr6 = Bytes;
  no_addr = [];
  inet_ntoa = λ a. a;
  inet_pton = λ t. some t;
  trim = λ t. t;
  Snssai = ℕ × Bytes;
  snssai = λ sst sd. (sst, sd);
  sst = λ s. json.number s.0;
  sd = λ s. string s.1;
}

abbrev pub cfg : SbiConfig net
cfg = record { host = codes "sepp"; addr4 = codes "10.0.0.1"; api_version = codes "v1"; port = 80 }

abbrev pub answer : Method → HttpResponse
answer put = record { status_code = 201; body = codes "{REGISTERED}"; headers = [] }
answer _ = record { status_code = 204; body = []; headers = [] }

abbrev pub nrf : Client json
nrf = record {
  prepare_json_request = λ url body. record { uri = url; headers = []; body = body };
  send = λ m r. answer m;
  get_json = λ r. none;
}

abbrev patch_item : Bytes → Bytes → Json
patch_item path value = item (string path) (item (string value) end_array)

abbrev sepp : SeppNrf net signals
sepp = sepp_nrf signals cfg (codes "id") (codes "http://nrf/id") []

abbrev registered_sepp : SeppNrf net signals
registered_sepp = register_to_nrf signals nrf 5000 sepp

accepted : not_in_front (codes "{REGISTERED}") ≡ true
unfolding not_in_front find starts_with
accepted = refl

no_slots : signals.slots sepp.event_sub ≡ []
unfolding sepp_nrf
no_slots = refl

-- After 30 seconds, that is three intervals less one tick, two heartbeats have gone out.
run-register_to_nrf_example :
    (run signals patch_item (λ t. nrf) 29000 (registered_sepp, 5000 + 1000)
      ≡ (after patch_item (λ t. nrf) 5000 registered_sepp (1000 + 29000), 5000 + (1000 + 29000)))
    × (length (run signals patch_item (λ t. nrf) 29000 (registered_sepp, 5000 + 1000)).0.sent
        ≡ length registered_sepp.sent + (1000 + 29000 - 1) / interval)
run-register_to_nrf_example =
    run-register_to_nrf signals-IsSignals patch_item (λ t. nrf) 5000 1000 29000 sepp no_slots
      (refl, accepted) (λ t. refl) (omega arith) (omega arith) (omega arith)

run-deregister_to_nrf_example :
    let sent_then =
      beats patch_item (λ t. nrf) 5000 registered_sepp ((1000 + 29000 - 1) / interval) in
    ((run signals patch_item
        (λ t. nrf)
        29000
        (deregister_to_nrf signals nrf 6000 registered_sepp, 5000 + 1000)).0.sent
      ≡ (deregister_to_nrf signals nrf 6000 registered_sepp).sent ++ sent_then)
    × ((run signals patch_item (λ t. nrf) 29000 (registered_sepp, 5000 + 1000)).0.sent
        ≡ registered_sepp.sent ++ sent_then)
    × (length sent_then ≡ (1000 + 29000 - 1) / interval)
run-deregister_to_nrf_example =
    run-deregister_to_nrf signals-IsSignals patch_item (λ t. nrf) nrf 5000 6000 1000 29000
      registered_sepp
      (register_to_nrf-Beating signals-IsSignals nrf 5000 sepp no_slots (omega arith)
        (refl, accepted))
      (λ t. refl) (omega arith) (omega arith)

-- An NRF that no longer knows the SEPP.
abbrev forgetful : Client json
forgetful = record nrf { send = λ m r. record { status_code = 404; body = []; headers = [] } }

Reaches-StopsWhenRefused_example :
    StopsWhenRefused
      (deregister_to_nrf signals nrf 15001 (tick patch_item forgetful 15000 registered_sepp)).sent
Reaches-StopsWhenRefused_example = Reaches-StopsWhenRefused signals-IsSignals patch_item _ (
    deregistered nrf 15001 (
      ticked forgetful 15000
        (registered cfg (codes "id") (codes "http://nrf/id") [] nrf 5000 refl)))
