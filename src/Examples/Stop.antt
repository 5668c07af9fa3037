-- ===== src/Examples/Stop.antt =====
-- A server that listens, is asked to stop, ends its listening and lets `stop` return.
use oai_cn5g_sepp.Base.{◌≡◌, refl, true, false}
use oai_cn5g_sepp.Server.Lifecycle.{
  Lifecycle, listening, ended, idle, returned, leave, call_stop, return_stop, here, next, Steps,
  Returns, Steps-stop,
}

abbrev running : Lifecycle
running = record { starter = listening; stopper = idle; running_server = true }

abbrev done : Lifecycle
done = record { starter = ended; stopper = returned; running_server = false }

run : Steps running done
run = next (next (next here (call_stop _ refl)) (leave _ refl)) (return_stop _ refl refl)

Steps-stop_example : (done.stopper ≡ returned → done.starter ≡ ended) × Returns done
Steps-stop_example = Steps-stop refl refl refl run
