-- ===== src/App/Handlers.antt =====
-- The handlers of `sepp_app` for the requests of the remote SEPP: they pass a request on to the
-- handshake or to the forwarding, if there is one. What they parse and validate before is only
-- logged, except where `n32fErrorDetail` throws, which is caught.
use oai_cn5g_sepp.Base.{false, Option, none, some, [], Bytes}
use oai_cn5g_sepp.Json.{JsonLib}
use oai_cn5g_sepp.Models.{Models}
use oai_cn5g_sepp.Handler.{returned, Handled}
use oai_cn5g_sepp.Http.{Client}
use oai_cn5g_sepp.Jose.{Bio, Evp}
use oai_cn5g_sepp.Result.{Result, fail}
use oai_cn5g_sepp.Telescopic.{Plmn, TelescopicMapping}
use oai_cn5g_sepp.Telescopic
use oai_cn5g_sepp.Handshake.{Handshake}
use oai_cn5g_sepp.Handshake.Messages.{Request, handle_request}
use oai_cn5g_sepp.Forward.{Forward}
use oai_cn5g_sepp.Forward.Process.{handle_n32f_process_post}
use oai_cn5g_sepp.Forward.Direct.{handle_n32f_forward as forward_direct}
use oai_cn5g_sepp.App.{Config, App}

module _ {J : JsonLib} where
  -- The null pointer: false, with nothing written.
  abbrev uninitialized : App → Handled J App
  uninitialized a = record {
    state = a;
    resp_data = J.null;
    resp_headers = [];
    outcome = returned false;
  }

  abbrev from_handshake : App → Handled J Handshake → Handled J App
  from_handshake a h = record {
    state = record a { handshake = some h.state };
    resp_data = h.resp_data;
    resp_headers = h.resp_headers;
    outcome = h.outcome;
  }

  abbrev from_forward : App → Handled J Forward → Handled J App
  from_forward a h = record {
    state = record a { forward = some h.state };
    resp_data = h.resp_data;
    resp_headers = h.resp_headers;
    outcome = h.outcome;
  }

module _ {J : JsonLib} (M : Models J) (cfg : Config) where
  -- `handle_exchange_capability_request`, `handle_exchange_params`, `handle_n32f_terminate_req`
  -- and `handle_n32f_error`
  unfoldable pub handle_n32c : Request → Bytes → App → J.Json → Handled J App
  handle_n32c r uuid a req_data = elim a.handshake [
    | none ↦ uninitialized a
    | some s ↦ from_handshake a (handle_request J M cfg.nbi_url r uuid s req_data)
  ]

  module _ (evp : Evp) (bio : Bio) (client : Client J) where
    unfoldable pub handle_n32f_forward : App → J.Json → Handled J App
    handle_n32f_forward a req_data = elim a.forward [
      | none ↦ uninitialized a
      | some f ↦ from_forward a (forward_direct client cfg.nrf_url f req_data J.null [])
    ]

    unfoldable pub handle_n32f_process : App → Option Bytes → J.Json → Handled J App
    handle_n32f_process a random req_data = elim a.forward [
      | none ↦ uninitialized a
      | some f ↦
          from_forward a
            (handle_n32f_process_post M evp bio client cfg.nrf_url f random req_data J.null [])
    ]

unfoldable pub get_telescopic_mapping :
    App → Bytes → Bytes → TelescopicMapping → Result TelescopicMapping
get_telescopic_mapping a foreign_fqdn telescopic_label mapping = elim a.telescopic_mapping [
  | none ↦ fail
  | some partners ↦ Telescopic.get_telescopic_mapping partners foreign_fqdn telescopic_label mapping
]

-- The overload that returns a text.
unfoldable pub get_telescopic_mapping_text :
    (TelescopicMapping → Bytes) → App → Bytes → Bytes → Result Bytes
get_telescopic_mapping_text to_text a foreign_fqdn telescopic_label = elim a.telescopic_mapping [
  | none ↦ fail
  | some partners ↦
      Telescopic.get_telescopic_mapping_text to_text partners foreign_fqdn telescopic_label
]
