-- ===== src/Nbi/Routes.antt =====
-- The routes of the NBI server (`start` in src/api-server/sepp-http2-nbi-server.cpp), and which
-- handler a request reaches.
use oai_cn5g_sepp.Base.{
  ◌≡◌, ◌≢◌, ◌⊎◌, inl, inr, Bool-cases, refl, sym, Option, none, some, [], ◌∷◌, Bytes, codes, ◌==◌,
  ==-false, true, if◌then◌else◌,
}
use oai_cn5g_sepp.Json.{JsonLib}
use oai_cn5g_sepp.Models.{Models}
use oai_cn5g_sepp.Http.{Client}
use oai_cn5g_sepp.Jose.{Bio, Evp}
use oai_cn5g_sepp.Handshake.Messages.{
  Request, exchange_capability, exchange_params, n32f_terminate, n32f_error,
}
use oai_cn5g_sepp.Server.{ServerRequest, ServerResponse}
use oai_cn5g_sepp.Server.Routes.{Routes, find_route, is_clean, has_only_root, ServeMux, IsServeMux}
use oai_cn5g_sepp.App.{Config, App}
use oai_cn5g_sepp.Nbi.{handle_n32c_request, handle_n32f_forward, handle_n32f_process}

-- The callbacks that `start` registers.
pub data NbiHandler : Type 0 where
  n32c : Request → NbiHandler
  n32f_forward n32f_process : NbiHandler

abbrev pub routes : Routes NbiHandler
routes =
    (codes "/n32c-handshake/v1/exchange-capability", n32c exchange_capability)
    ∷ (codes "/n32c-handshake/v1/exchange-params", n32c exchange_params)
    ∷ (codes "/n32c-handshake/v1/n32f-terminate", n32c n32f_terminate)
    ∷ (codes "/n32c-handshake/v1/n32f-error", n32c n32f_error)
    ∷ (codes "/", n32f_forward)
    ∷ (codes "/n32f-forward/v1/n32f-process", n32f_process)
    ∷ []

-- The path of a request of N32-c.
abbrev pub n32c_path : Request → Bytes
n32c_path exchange_capability = codes "/n32c-handshake/v1/exchange-capability"
n32c_path exchange_params = codes "/n32c-handshake/v1/exchange-params"
n32c_path n32f_terminate = codes "/n32c-handshake/v1/n32f-terminate"
n32c_path n32f_error = codes "/n32c-handshake/v1/n32f-error"

module _ {J : JsonLib} (M : Models J) (cfg : Config) (evp : Evp) (bio : Bio) (client : Client J)
    (what : Bytes) where
  -- A callback, with the UUID and the IV that the random generator would yield.
  unfoldable pub call :
      NbiHandler → Bytes → Option Bytes → ServerRequest → Option App → ServerResponse × Option App
  call (n32c r) uuid random = handle_n32c_request M cfg evp bio client what r uuid
  call n32f_forward uuid random = handle_n32f_forward M cfg evp bio client what
  call n32f_process uuid random = handle_n32f_process M cfg evp bio client what random

  -- The server: from a request to the response of the handler that its path selects.
  unfoldable pub serve :
      ServeMux NbiHandler
      → Bytes
      → Option Bytes
      → ServerRequest
      → Option App
      → ServerResponse × Option App
  unfolding call
  serve mux uuid random req inst = elim (mux.select routes req.path) [
    | none ↦ (mux.not_found, inst)
    | some h ↦ call h uuid random req inst
  ]

is_clean-n32c_path : (r : Request) → is_clean (n32c_path r) ≡ true
unfolding is_clean
is_clean-n32c_path exchange_capability = refl
is_clean-n32c_path exchange_params = refl
is_clean-n32c_path n32f_terminate = refl
is_clean-n32c_path n32f_error = refl

find_route-n32c_path : (r : Request) → find_route (n32c_path r) routes ≡ some (n32c r)
unfolding find_route
find_route-n32c_path exchange_capability = refl
find_route-n32c_path exchange_params = refl
find_route-n32c_path n32f_terminate = refl
find_route-n32c_path n32f_error = refl

has_only_root-routes : has_only_root routes ≡ true
unfolding has_only_root
has_only_root-routes = refl

find_route-root : find_route (codes "/") routes ≡ some n32f_forward
unfolding find_route
find_route-root = refl

-- The server of a lawful multiplexer.
module _ {mux : ServeMux NbiHandler} (law : IsServeMux mux) where
  -- A path of N32-c selects its handler.
  pub select-n32c_path : (r : Request) → mux.select routes (n32c_path r) ≡ some (n32c r)
  select-n32c_path r =
      law.select-fixed routes (n32c_path r) (n32c r) (is_clean-n32c_path r) (find_route-n32c_path r)

  unnamed_route :
      (path : Bytes)
      → ((r : Request) → path ≢ n32c_path r)
      → find_route path routes ≡ (
          if codes "/" == path
          then some n32f_forward
          else if codes "/n32f-forward/v1/n32f-process" == path
          then some n32f_process
          else none)
  unfolding find_route
  unnamed_route path other =
      rw
        (
          find_route,
          ==-false (λ e. other exchange_capability (sym e)),
          ==-false (λ e. other exchange_params (sym e)),
          ==-false (λ e. other n32f_terminate (sym e)),
          ==-false (λ e. other n32f_error (sym e)),
        )
        refl

  other_route :
      (path : Bytes)
      → ((r : Request) → path ≢ n32c_path r)
      → (find_route path routes ≡ some n32f_process)
        ⊎ ((find_route path routes ≡ some n32f_forward) ⊎ (find_route path routes ≡ none))
  other_route path other = rw (unnamed_route path other) (elim (Bool-cases (codes "/" == path)) [
    | inl e ↦ rw e (inr (inl refl))
    | inr e ↦ elim (Bool-cases (codes "/n32f-forward/v1/n32f-process" == path)) [
      | inl e' ↦ rw (e, e') (inl refl)
      | inr e' ↦ rw (e, e') (inr (inr refl))
    ]
  ])

  -- Any other clean path selects one of the two handlers of N32-f.
  pub select-n32f :
      (path : Bytes)
      → is_clean path ≡ true
      → ((r : Request) → path ≢ n32c_path r)
      → (mux.select routes path ≡ some n32f_process) ⊎ (mux.select routes path ≡ some n32f_forward)
  select-n32f path clean other = elim (other_route path other) [
    | inl process ↦ inl (law.select-fixed routes path n32f_process clean process)
    | inr (inl forward) ↦ inr (law.select-fixed routes path n32f_forward clean forward)
    | inr (inr unnamed) ↦ inr (
        law.select-root routes path n32f_forward clean has_only_root-routes unnamed find_route-root)
  ]

  -- Any clean path that the server does not register selects the forwarding with TLS.
  pub select-n32f_forward :
      (path : Bytes)
      → is_clean path ≡ true
      → ((r : Request) → path ≢ n32c_path r)
      → path ≢ codes "/n32f-forward/v1/n32f-process"
      → mux.select routes path ≡ some n32f_forward
  select-n32f_forward path clean other not_process = elim (Bool-cases (codes "/" == path)) [
    | inl e ↦
        law.select-fixed routes path n32f_forward clean (rw (unnamed_route path other, e) refl)
    | inr e ↦
        law.select-root routes path n32f_forward clean has_only_root-routes
          (rw (unnamed_route path other, e, ==-false (λ same. not_process (sym same))) refl)
          find_route-root
  ]
