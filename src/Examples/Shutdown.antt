-- ===== src/Examples/Shutdown.antt =====
-- A producer's SEPP with HTTP/2 that catches a signal.
use oai_cn5g_sepp.Base.{
  ◌≡◌, ap, ℕ, false, Option, some, none, List, [], ◌∷◌, ◌++◌, Bytes, codes, ◌=?◌,
}
use oai_cn5g_sepp.Options
use oai_cn5g_sepp.App.Lifecycle.{SeppApp, methods}
use oai_cn5g_sepp.Program.{
  Settings, Globals, serving, stop_app, my_app_signal_handler, serve_http, launched, main,
}
use oai_cn5g_sepp.Program.Shutdown.{Started, server_stop, deregistered, main-signal}
use oai_cn5g_sepp.Examples.Models.{models}
use oai_cn5g_sepp.Examples.Nrf as ExampleNrf
use oai_cn5g_sepp.Examples.Nrf.{net, signals, nrf}
use oai_cn5g_sepp.Examples.Servers.{cfg}
use oai_cn5g_sepp.Examples.Lifecycle as ExampleLifecycle

abbrev settings : Settings net
settings = record { cfg = cfg; sbi = ExampleNrf.cfg; http_version = 2 }

abbrev arguments : List (ℕ × Bytes)
arguments = (b'c', codes "sepp.yaml") ∷ []

abbrev init : Options.Options → Option (Settings net)
init options = some settings

abbrev app : SeppApp net signals
app = ExampleLifecycle.launched

abbrev globals : Globals net signals
globals = serve_http models nrf nrf settings app

serves :
    main models nrf nrf init arguments (codes "id") (codes "http://nrf/id") (codes "2e") 5000
    ≡ serving globals
unfolding main Options.parse Options.parse_input_options Options.option_step
    Options.validate_options
serves = ap (launched models nrf nrf settings) ExampleLifecycle.launched_is

main-signal_example :
    (s : Settings net) × (b : SeppApp net signals) × Started init arguments s
    × (my_app_signal_handler models nrf nrf 9000 (record globals { sepp_app_inst = some app }) ≡ (
      server_stop s ++ (stop_app b ∷ []),
      record {
        sepp_app_inst = none;
        sepp_cfg = none;
        sepp_api_server_1 = false;
        sepp_sbi_server_2 = false;
        sepp_nbi_server_2 = s.http_version =? 2;
      },
    ))
    × (methods b.nrf ≡ deregistered app.nrf)
main-signal_example =
    main-signal models nrf nrf init arguments (codes "id") (codes "http://nrf/id") (codes "2e") 5000
      9000 globals app serves
