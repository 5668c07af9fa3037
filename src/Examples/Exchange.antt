-- ===== src/Examples/Exchange.antt =====
-- Two SEPPs that exchange their parameters.
use oai_cn5g_sepp.Base.{true, ◌≡◌, ◌≢◌, refl, none, some, [], ◌++◌, Bytes, codes}
use oai_cn5g_sepp.Http.{HttpRequest, Client}
use oai_cn5g_sepp.Handshake as H
use oai_cn5g_sepp.Handshake.{Handshake}
use oai_cn5g_sepp.Handshake.Parameters.{create_exchange_params_req}
use oai_cn5g_sepp.Handshake.Termination.{create_n32f_terminate_req}
use oai_cn5g_sepp.Handshake.Agreement.{Agreed}
use oai_cn5g_sepp.Forward as F
use oai_cn5g_sepp.App.{App}
use oai_cn5g_sepp.App.Procedures.{send_n32f_terminate, set_context, create_exchange_params}
use oai_cn5g_sepp.App.Producer.{received_response}
use oai_cn5g_sepp.App.Ending
use oai_cn5g_sepp.App.Exchange.{respond, create_exchange_params-Agreed}
use oai_cn5g_sepp.Examples.Json.{Json, json, parse-dump}
use oai_cn5g_sepp.Examples.Models.{
  context_info, context_info-IsCodec, models, sec_param_exch_req-IsCodec,
  sec_param_exch_rsp-IsCodec,
}
use oai_cn5g_sepp.Examples.Crypto.{bio, evp}
use oai_cn5g_sepp.Examples.Nrf.{nrf}
use oai_cn5g_sepp.Examples.Servers.{cfg}

abbrev url : Bytes
url = codes "http://peer"

abbrev sepp : App
sepp = record {
  handshake = some H.initial;
  forward = some F.initial;
  remote_sepp_url = some url;
  telescopic_mapping = some [];
}

-- The remote SEPP, through its NBI server.
abbrev remote : Client json
remote = record {
  prepare_json_request = λ uri body. record { uri = uri; headers = []; body = body };
  send = λ m r.
      received_response (respond models evp bio nrf cfg (codes "error") (codes "3d") sepp r).0;
  get_json = λ r. none;
}

abbrev request : HttpRequest
request =
    remote.prepare_json_request (url ++ codes "/n32c-handshake/v1/exchange-params")
      (json.dump (create_exchange_params_req json models (codes "2e") H.initial).1)

drawn : codes "2e" ≢ []
drawn e = cc

create_exchange_params-Agreed_example :
    (i : Handshake) × (j : Handshake) × (create_exchange_params models remote (codes "2e") sepp
      ≡ record sepp {
        handshake = some i;
        forward = set_context i.n32c_context_id (some F.initial);
      })
    × ((respond models evp bio nrf cfg (codes "error") (codes "3d") sepp request).1
        ≡ some (record sepp { handshake = some j }))
    × Agreed i j
create_exchange_params-Agreed_example =
    create_exchange_params-Agreed models evp bio remote nrf cfg (codes "error")
      sec_param_exch_req-IsCodec sec_param_exch_rsp-IsCodec parse-dump (λ uri body. refl)
      (codes "2e") (codes "3d") url sepp sepp H.initial H.initial drawn (λ r. refl)

abbrev held : Handshake
held = record H.initial { n32c_context_id = codes "1f" }

valid_context : context_info.validate (record { n32f_context_id = codes "1f" }) ≡ true
unfolding context_info
valid_context = refl

-- The same peer, asked for a termination while it holds the context "1f".
abbrev ending : Client json
ending = record remote {
  send = λ m r.
      received_response
        (Ending.respond models evp bio nrf cfg (codes "error") []
          (record sepp { handshake = some held }) r).0;
}

send_n32f_terminate-same_example :
    (req_data : Json) × (create_n32f_terminate_req json models held ≡ some req_data)
    × (send_n32f_terminate models ending (record sepp { handshake = some held })
        ≡ record sepp { handshake = some H.initial })
    × ((Ending.respond models evp bio nrf cfg
          (codes "error")
          []
          (record sepp { handshake = some held })
          (ending.prepare_json_request
            (url ++ codes "/n32c-handshake/v1/n32f-terminate")
            (json.dump req_data))).1
        ≡ some (record sepp { handshake = some H.initial }))
send_n32f_terminate-same_example =
    Ending.send_n32f_terminate-same models evp bio ending nrf cfg (codes "error")
      context_info-IsCodec parse-dump (λ uri body. refl) [] url sepp sepp held held (λ e. cc) refl
      valid_context (λ r. refl)
