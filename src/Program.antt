-- ===== src/Program.antt =====
-- The program (src/oai_sepp/main.cpp): its start up to the point where it serves, and what it does
-- at a signal. The threads of the servers run between the two; the reading of the common
-- configuration (`sepp_cfg->init()`) is an argument.
pub mod Shutdown
use oai_cn5g_sepp.Base.{
  ℕ, ◌≡◌, refl, ap, ◌∙◌, sym, Bool, true, false, Option, none, some, List, [], ◌∷◌, ◌++◌, Bytes,
  ◌=?◌, if◌then◌else◌, Bool-cases, Option-cases, inl, inr,
}
use oai_cn5g_sepp.Json.{JsonLib}
use oai_cn5g_sepp.Models.{Models}
use oai_cn5g_sepp.Http.{Client, put, delete}
use oai_cn5g_sepp.Result.{Result, ok, fail, thrown}
use oai_cn5g_sepp.Profile.{Net}
use oai_cn5g_sepp.Event.{Signals}
use oai_cn5g_sepp.Nrf.{SbiConfig}
use oai_cn5g_sepp.Options
use oai_cn5g_sepp.App.{Config}
use oai_cn5g_sepp.App.Lifecycle.{SeppApp, launch, deregister, quit, methods, launch-quit}

module _ {J : JsonLib} (net : Net J) where
  -- What `sepp_cfg` answers once it has read its file.
  pub record Settings : Type 0 where
    pub cfg : Config
    pub sbi : SbiConfig net
    pub http_version : ℕ

module _ {J : JsonLib} (net : Net J) (S : Signals) where
  -- The global pointers; of a server and of the configuration, whether there is one.
  pub record Globals : Type 0 where
    pub sepp_app_inst : Option (SeppApp net S)
    pub sepp_cfg : Option (Settings net)
    pub sepp_api_server_1 : Bool
    pub sepp_sbi_server_2 : Bool
    pub sepp_nbi_server_2 : Bool

  -- What the shutdown calls, in order; an application is as `stop` leaves it.
  pub data Action : Type 0 where
    shutdown_api stop_sbi stop_nbi : Action
    stop_app : SeppApp net S → Action

  -- How `main` goes: it ends with a code, an exception leaves it, or it serves.
  pub data Course : Type 0 where
    ended : ℕ → Course
    aborted : Course
    serving : Globals → Course

module _ {J : JsonLib} {net : Net J} {S : Signals} (M : Models J)
    (client client_nbi : Client J) where
  abbrev when : Bool → Action net S → List (Action net S)
  when there act = if there then act ∷ [] else []

  -- `sepp_app_inst->stop()`, with the configuration if that is still there: without it no context is
  -- terminated, and the deregistration is all.
  abbrev stopped : ℕ → Option (Settings net) → Option (SeppApp net S) → List (Action net S)
  stopped ms none none = []
  stopped ms none (some a) = stop_app (record a { nrf = deregister client ms a.nrf }) ∷ []
  stopped ms (some s) none = []
  stopped ms (some s) (some a) = stop_app (quit M client client_nbi s.cfg ms a) ∷ []

  -- Up to `exit(0)`, at the time `ms`.
  unfoldable pub my_app_signal_handler : ℕ → Globals net S → List (Action net S) × Globals net S
  my_app_signal_handler ms g = (
    when g.sepp_api_server_1 shutdown_api
        ++ (when g.sepp_sbi_server_2 stop_sbi ++ stopped ms g.sepp_cfg g.sepp_app_inst),
    record g {
      sepp_api_server_1 = false;
      sepp_sbi_server_2 = false;
      sepp_app_inst = none;
      sepp_cfg = none;
    },
  )

  -- The servers of the configured version of HTTP.
  unfoldable pub serve_http : Settings net → SeppApp net S → Globals net S
  serve_http s a =
      if s.http_version =? 1
      then record {
        sepp_app_inst = some a;
        sepp_cfg = some s;
        sepp_api_server_1 = true;
        sepp_sbi_server_2 = false;
        sepp_nbi_server_2 = false;
      }
      else if s.http_version =? 2
      then record {
        sepp_app_inst = some a;
        sepp_cfg = some s;
        sepp_api_server_1 = false;
        sepp_sbi_server_2 = true;
        sepp_nbi_server_2 = true;
      }
      else record {
        sepp_app_inst = some a;
        sepp_cfg = some s;
        sepp_api_server_1 = false;
        sepp_sbi_server_2 = false;
        sepp_nbi_server_2 = false;
      }

  abbrev pub launched : Settings net → Result (SeppApp net S) → Course net S
  launched s (ok a) = serving (serve_http s a)
  launched s fail = aborted
  launched s thrown = aborted

  -- Behind `sepp_cfg->init()`. `id` and `uuid` are random, `url` is the instance at the NRF.
  abbrev pub configured : Bytes → Bytes → Bytes → ℕ → Option (Settings net) → Course net S
  configured id url uuid ms none = ended 1
  configured id url uuid ms (some s) =
      launched s (launch M client client_nbi s.cfg s.sbi id url uuid ms S.fresh)

  -- Behind `Options::parse`, `none` for the `exit(0)` of the usage text.
  abbrev pub parsed :
      (Options.Options → Option (Settings net))
      → Bytes
      → Bytes
      → Bytes
      → ℕ
      → Option (Bool × Options.Options)
      → Course net S
  parsed init id url uuid ms none = ended 0
  parsed init id url uuid ms (some (false, options)) = ended 1
  parsed init id url uuid ms (some (true, options)) = configured id url uuid ms (init options)

  unfoldable pub main :
      (Options.Options → Option (Settings net))
      → List (ℕ × Bytes)
      → Bytes
      → Bytes
      → Bytes
      → ℕ
      → Course net S
  main init arguments id url uuid ms =
      parsed init id url uuid ms (Options.parse arguments Options.initial)
