-- ===== src/Program/Shutdown.antt =====
-- What a signal does to a SEPP that serves.
use oai_cn5g_sepp.Base.{
  ℕ, ◌≡◌, refl, ap, ◌∙◌, sym, Bool, true, false, Option, none, some, arith, List, [], ◌∷◌, ◌++◌,
  Bytes, ◌=?◌, if◌then◌else◌, Bool-cases, Option-cases, inl, inr,
}
use oai_cn5g_sepp.Json.{JsonLib}
use oai_cn5g_sepp.Models.{Models}
use oai_cn5g_sepp.Http.{Client, Method, delete}
use oai_cn5g_sepp.Result.{Result, ok, fail, thrown}
use oai_cn5g_sepp.Profile.{Net}
use oai_cn5g_sepp.Event.{Signals}
use oai_cn5g_sepp.Nrf.{SeppNrf}
use oai_cn5g_sepp.Options
use oai_cn5g_sepp.App.Lifecycle.{SeppApp, launch, quit, methods, deregister_to_nrf-sent}
use oai_cn5g_sepp.Program.{
  Settings, Globals, Action, shutdown_api, stop_sbi, stop_app, Course, serving,
  my_app_signal_handler, serve_http, launched, configured, parsed, main,
}

serving-inj :
    {J : JsonLib} {net : Net J} {S : Signals} {g g' : Globals net S}
    → ◌≡◌ {A = Course net S} (serving g) (serving g')
    → g ≡ g'
serving-inj e = cc

module _ {J : JsonLib} {net : Net J} where
  -- How a program has come to serve: its options are valid, and its configuration is read.
  pub record Started (init : Options.Options → Option (Settings net)) (arguments : List (ℕ × Bytes))
      (s : Settings net) : Type 0 where
    pub options : Options.Options
    pub valid : Options.parse arguments Options.initial ≡ some (true, options)
    pub configuration : init options ≡ some s

not_two : (n : ℕ) → (n =? 1) ≡ true → (n =? 2) ≡ false
not_two n h = ground arith

module _ {J : JsonLib} {net : Net J} {S : Signals} where
  -- The server that a signal stops: the one of HTTP/1, or of the two of HTTP/2 that of the SBI.
  abbrev pub server_stop : Settings net → List (Action net S)
  server_stop s =
      if s.http_version =? 1
      then shutdown_api ∷ []
      else if s.http_version =? 2
      then stop_sbi ∷ []
      else []

  -- A SEPP that has a client of the NRF sends a deregistration last.
  abbrev pub deregistered : Option (SeppNrf net S) → List Method
  deregistered none = []
  deregistered (some n) = methods (some n) ++ (delete ∷ [])

module _ {J : JsonLib} {net : Net J} {S : Signals} (M : Models J)
    (client client_nbi : Client J) where
  quit-deregistered :
      (s : Settings net) (ms : ℕ) (a : SeppApp net S)
      → methods (quit M client client_nbi s.cfg ms a).nrf ≡ deregistered a.nrf
  unfolding quit
  quit-deregistered s ms a = elim (Option-cases a.nrf) [
    | inl e ↦ rw e refl
    | inr (n, e) ↦ rw e (deregister_to_nrf-sent M client client_nbi s.cfg ms n)
  ]

  launched-serving :
      (s : Settings net) (l : Result (SeppApp net S)) (g : Globals net S)
      → launched M client client_nbi s l ≡ serving g
      → (a : SeppApp net S) × (l ≡ ok a) × (g ≡ serve_http M client client_nbi s a)
  launched-serving s (ok a) g h = (a, refl, sym (serving-inj h))
  launched-serving s fail g h = cc
  launched-serving s thrown g h = cc

  configured-serving :
      (id url uuid : Bytes) (ms : ℕ) (o : Option (Settings net)) (g : Globals net S)
      → configured M client client_nbi id url uuid ms o ≡ serving g
      → (s : Settings net) × (a : SeppApp net S) × (o ≡ some s)
        × (launch M client client_nbi s.cfg s.sbi id url uuid ms S.fresh ≡ ok a)
        × (g ≡ serve_http M client client_nbi s a)
  configured-serving id url uuid ms none g h = cc
  configured-serving id url uuid ms (some s) g h =
      let (a, e, is) = launched-serving s _ g h in (s, a, refl, e, is)

  parsed-serving :
      (init : Options.Options → Option (Settings net)) (id url uuid : Bytes) (ms : ℕ)
      (o : Option (Bool × Options.Options)) (g : Globals net S)
      → parsed M client client_nbi init id url uuid ms o ≡ serving g
      → (options : Options.Options) × (s : Settings net) × (a : SeppApp net S) × (o
          ≡ some (true, options))
        × (init options ≡ some s)
        × (g ≡ serve_http M client client_nbi s a)
  parsed-serving init id url uuid ms none g h = cc
  parsed-serving init id url uuid ms (some (false, options)) g h = cc
  parsed-serving init id url uuid ms (some (true, options)) g h =
      let (s, a, e, l, is) = configured-serving id url uuid ms (init options) g h in
      (options, s, a, refl, e, is)

  handler-serve_http :
      (s : Settings net) (a b : SeppApp net S) (ms : ℕ)
      → my_app_signal_handler M client client_nbi ms
          (record (serve_http M client client_nbi s a) { sepp_app_inst = some b })
        ≡ (
          server_stop s ++ (stop_app (quit M client client_nbi s.cfg ms b) ∷ []),
          record {
            sepp_app_inst = none;
            sepp_cfg = none;
            sepp_api_server_1 = false;
            sepp_sbi_server_2 = false;
            sepp_nbi_server_2 = s.http_version =? 2;
          },
        )
  unfolding my_app_signal_handler serve_http
  handler-serve_http s a b ms = elim (Bool-cases (s.http_version =? 1)) [
    | inl one ↦ rw (one, not_two s.http_version one) refl
    | inr other ↦ elim (Bool-cases (s.http_version =? 2)) [
      | inl two ↦ rw (other, two) refl
      | inr none_of ↦ rw (other, none_of) refl
    ]
  ]

  -- A signal reaches a program that serves, with its application in any state. It stops the server
  -- of HTTP/1, or of the two servers of HTTP/2 that of the SBI alone: the NBI server is left as it
  -- is. Then it stops the application, which sends the NRF a deregistration as its last request if it
  -- has a client of the NRF, and no pointer to the application and to the configuration is left.
  pub main-signal :
      (init : Options.Options → Option (Settings net)) (arguments : List (ℕ × Bytes))
      (id url uuid : Bytes) (ms ms' : ℕ) (g : Globals net S) (a : SeppApp net S)
      → main M client client_nbi init arguments id url uuid ms ≡ serving g
      → (s : Settings net) × (b : SeppApp net S) × Started init arguments s
        × (my_app_signal_handler M client client_nbi ms' (record g { sepp_app_inst = some a }) ≡ (
          server_stop s ++ (stop_app b ∷ []),
          record {
            sepp_app_inst = none;
            sepp_cfg = none;
            sepp_api_server_1 = false;
            sepp_sbi_server_2 = false;
            sepp_nbi_server_2 = s.http_version =? 2;
          },
        ))
        × (methods b.nrf ≡ deregistered a.nrf)
  unfolding main
  main-signal init arguments id url uuid ms ms' g a h =
      let (options, s, a', valid, configuration, is) =
        parsed-serving init id url uuid ms (Options.parse arguments Options.initial) g h in
      (
        s,
        quit M client client_nbi s.cfg ms' a,
        record { options = options; valid = valid; configuration = configuration },
        ap
              (λ x.
                my_app_signal_handler M client client_nbi ms' (record x { sepp_app_inst = some a }))
              is
            ∙ handler-serve_http s a' a ms',
        quit-deregistered s ms' a,
      )
