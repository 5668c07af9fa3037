-- ===== src/Examples/Application.antt =====
-- An application whose remote SEPP answers a parameter exchange with the context "1f".
use oai_cn5g_sepp.Base.{◌≡◌, refl, ◌⊎◌, none, some, [], codes, ◌==◌}
use oai_cn5g_sepp.Http.{Client}
use oai_cn5g_sepp.Handshake as H
use oai_cn5g_sepp.Handshake.Parameters.{create_exchange_params_req, handle_exchange_params_response}
use oai_cn5g_sepp.Forward as F
use oai_cn5g_sepp.App.{App}
use oai_cn5g_sepp.App.Procedures.{finish_exchange_params, create_exchange_params}
use oai_cn5g_sepp.App.Contexts.{Synced, create_exchange_params-Synced}
use oai_cn5g_sepp.Examples.Json as ExampleJson
use oai_cn5g_sepp.Examples.Json.{json}
use oai_cn5g_sepp.Examples.Models.{models, sec_param_exch_rsp}

abbrev remote : Client json
remote = record {
  prepare_json_request = λ uri body. record { uri = uri; headers = []; body = body };
  send = λ m r. record { status_code = 200; body = codes "1f"; headers = [] };
  get_json = λ r. none;
}

abbrev app : App
app = record {
  handshake = some H.initial;
  forward = some F.initial;
  remote_sepp_url = some (codes "http://peer");
  telescopic_mapping = some [];
}

abbrev exchanged : App
exchanged = create_exchange_params models remote (codes "2e") app

forward_is_set : exchanged.forward ≡ some (record F.initial { n32f_context_id = codes "1f" })
unfolding create_exchange_params finish_exchange_params handle_exchange_params_response
    create_exchange_params_req ExampleJson.parse ExampleJson.decode ExampleJson.is_null
    ExampleJson.is_object ExampleJson.find sec_param_exch_rsp ◌==◌
forward_is_set = refl

create_exchange_params-Synced_example : (exchanged.forward ≡ app.forward) ⊎ Synced app exchanged
create_exchange_params-Synced_example = create_exchange_params-Synced models remote (codes "2e") app
