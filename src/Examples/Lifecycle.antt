-- ===== src/Examples/Lifecycle.antt =====
-- A producer's SEPP that is started and stopped.
use oai_cn5g_sepp.Base.{◌≡◌, refl, some, [], ◌∷◌, codes, if◌then◌else◌}
use oai_cn5g_sepp.Http.{put, delete}
use oai_cn5g_sepp.Result.{ok}
use oai_cn5g_sepp.Nrf.{sepp_nrf, register_to_nrf}
use oai_cn5g_sepp.App.Procedures.{instances, start}
use oai_cn5g_sepp.App.Lifecycle.{SeppApp, launch, quit, methods, launch-quit}
use oai_cn5g_sepp.Examples.Models.{models}
use oai_cn5g_sepp.Examples.Nrf as ExampleNrf
use oai_cn5g_sepp.Examples.Nrf.{net, signals, nrf}
use oai_cn5g_sepp.Examples.Servers.{cfg}

abbrev pub launched : SeppApp net signals
launched = record {
  app = instances models nrf cfg;
  nrf = some (
      register_to_nrf signals nrf 5000
        (sepp_nrf signals ExampleNrf.cfg (codes "id") (codes "http://nrf/id") []));
}

pub launched_is :
    launch models nrf nrf cfg ExampleNrf.cfg
      (codes "id")
      (codes "http://nrf/id")
      (codes "2e")
      5000
      []
    ≡ ok launched
unfolding launch start instances
launched_is = refl

launch-quit_example :
    methods (quit models nrf nrf cfg 9000 launched).nrf
    ≡ (if cfg.register_nrf then put ∷ delete ∷ [] else [])
launch-quit_example =
    launch-quit models nrf nrf cfg ExampleNrf.cfg (codes "id") (codes "http://nrf/id") (codes "2e")
      5000 9000 [] launched launched_is
