-- ===== src/Nbi/Isolation.antt =====
-- Which requests to the NBI server can change the handshake: only a POST to a path of N32-c.
use oai_cn5g_sepp.Base.{
  ◌≡◌, ◌≢◌, ◌⊎◌, refl, inl, inr, Bool, true, false, Option, some, [], Bytes, codes, ◌==◌,
  Bool-cases, Option-cases, ==-false,
}
use oai_cn5g_sepp.Json.{JsonLib}
use oai_cn5g_sepp.Models.{Models}
use oai_cn5g_sepp.Http.{Client}
use oai_cn5g_sepp.Jose.{Bio, Evp}
use oai_cn5g_sepp.Handler.{Handled}
use oai_cn5g_sepp.Handshake.Messages.{
  Request, exchange_capability, exchange_params, n32f_terminate, n32f_error,
}
use oai_cn5g_sepp.Forward.{Forward}
use oai_cn5g_sepp.Server.{ServerRequest, receive}
use oai_cn5g_sepp.Server.Routes.{is_clean, ServeMux, IsServeMux}
use oai_cn5g_sepp.App.{Config, App}
use oai_cn5g_sepp.App.Handlers
use oai_cn5g_sepp.Nbi.{
  AppHandler, checked, passes, process_post_request, handle_n32c_request, handle_n32f_forward,
  handle_n32f_process, forward_json,
}
use oai_cn5g_sepp.Nbi.Routes.{
  NbiHandler, n32c, n32f_forward, n32f_process, routes, n32c_path, serve, select-n32f,
}

-- All but the forwarding is as it was.
abbrev pub KeepsAllButForward : App → App → Type 0
KeepsAllButForward a b = (f : Option Forward) × (b ≡ record a { forward = f })

abbrev Leaves : App → Option App → Type 0
Leaves a inst = (b : App) × (inst ≡ some b) × KeepsAllButForward a b

module _ (J : JsonLib) (what failure_cause failure_detail : Bytes) (allow_no_content : Bool)
    (app_handler : AppHandler J) where
  post-Leaves :
      (req : ServerRequest) (a : App)
      → ((j : J.Json) → KeepsAllButForward a (app_handler a j).state)
      → Leaves a
          (process_post_request J what app_handler failure_cause failure_detail allow_no_content req
            (some a)).1
  unfolding process_post_request
  post-Leaves req a keeps = elim (Bool-cases (req.method == codes "POST")) [
    | inr e ↦ rw e (a, refl, (a.forward, refl))
    | inl e ↦ elim (Option-cases (J.parse (receive req.chunks []))) [
      | inl p ↦ rw (e, p) (a, refl, (a.forward, refl))
      | inr (j, p) ↦ rw (e, p) ((app_handler a j).state, refl, keeps j)
    ]
  ]

checked-keeps :
    {J : JsonLib} (a : App) (h : Handled J App) (passed : Bool)
    → KeepsAllButForward a h.state
    → KeepsAllButForward a (checked J passed h a).state
checked-keeps a h true keeps = keeps
checked-keeps a h false keeps = (a.forward, refl)

module _ {J : JsonLib} (M : Models J) (cfg : Config) (evp : Evp) (bio : Bio) (client : Client J)
    (what : Bytes) where
  process-keeps :
      (random : Option Bytes) (a : App) (j : J.Json)
      → KeepsAllButForward a (Handlers.handle_n32f_process M cfg evp bio client a random j).state
  unfolding Handlers.handle_n32f_process
  process-keeps random a j = elim (Option-cases a.forward) [
    | inl e ↦ rw (e, Handlers.handle_n32f_process) (a.forward, refl)
    | inr (f, e) ↦ rw (e, Handlers.handle_n32f_process) (_, refl)
  ]

  forward-keeps :
      (a : App) (j : J.Json)
      → KeepsAllButForward a (Handlers.handle_n32f_forward M cfg evp bio client a j).state
  unfolding Handlers.handle_n32f_forward
  forward-keeps a j = elim (Option-cases a.forward) [
    | inl e ↦ rw (e, Handlers.handle_n32f_forward) (a.forward, refl)
    | inr (f, e) ↦ rw (e, Handlers.handle_n32f_forward) (_, refl)
  ]

  process-Leaves :
      (random : Option Bytes) (req : ServerRequest) (a : App)
      → Leaves a (handle_n32f_process M cfg evp bio client what random req (some a)).1
  unfolding handle_n32f_process
  process-Leaves random req a =
      post-Leaves J what (codes "N32F_PROCESSING_FAILED") (codes "N32-F message processing failed")
        false
        (λ a j.
          checked J (passes J true M.reformatted_req.validate (M.reformatted_req.from_json j))
            (Handlers.handle_n32f_process M cfg evp bio client a random j) a)
        req a
        (λ j.
          checked-keeps a (Handlers.handle_n32f_process M cfg evp bio client a random j)
            (passes J true M.reformatted_req.validate (M.reformatted_req.from_json j))
            (process-keeps random a j))

  forward-Leaves :
      (req : ServerRequest) (a : App)
      → Leaves a (handle_n32f_forward M cfg evp bio client what req (some a)).1
  unfolding handle_n32f_forward
  forward-Leaves req a = elim (Bool-cases (req.method == codes "GET")) [
    | inl e ↦ rw e (_, refl, forward-keeps a (forward_json M cfg evp bio client what req))
    | inr e ↦ rw e (
        post-Leaves J what (codes "FORWARDING_FAILED") (codes "N32-F message forwarding failed")
          false (Handlers.handle_n32f_forward M cfg evp bio client) req a (forward-keeps a))
  ]

  n32c-same :
      (r : Request) (uuid : Bytes) (req : ServerRequest) (a : App)
      → req.method ≢ codes "POST"
      → (handle_n32c_request M cfg evp bio client what r uuid req (some a)).1 ≡ some a
  unfolding handle_n32c_request
  n32c-same exchange_capability uuid req a ne = rw (==-false ne) refl
  n32c-same exchange_params uuid req a ne = rw (==-false ne) refl
  n32c-same n32f_terminate uuid req a ne = rw (==-false ne) refl
  n32c-same n32f_error uuid req a ne = rw (==-false ne) refl

  module _ {mux : ServeMux NbiHandler} (law : IsServeMux mux) where
    -- The handshake of a running SEPP, its peer's URL and its telescopic mapping are out of reach of all
    -- requests to the NBI but the POSTs to the four paths of N32-c: a request with another method, or
    -- with another clean path, leaves the application there, and changes its forwarding at most.
    pub serve-KeepsAllButForward :
        (uuid : Bytes) (random : Option Bytes) (req : ServerRequest) (a : App)
        → is_clean req.path ≡ true
        → (req.method ≢ codes "POST") ⊎ ((r : Request) → req.path ≢ n32c_path r)
        → (b : App) × ((serve M cfg evp bio client what mux uuid random req (some a)).1 ≡ some b)
          × KeepsAllButForward a b
    unfolding serve
    serve-KeepsAllButForward uuid random req a clean elsewhere =
        elim (Option-cases (mux.select routes req.path)) [
          | inl e ↦ rw (serve, e) (a, refl, (a.forward, refl))
          | inr (n32c r, e) ↦
              rw (serve, e)
                (elim elsewhere [
                  | inl ne ↦ (a, n32c-same r uuid req a ne, (a.forward, refl))
                  | inr other ↦ elim (select-n32f law req.path clean other) [
                    | inl e' ↦ cc
                    | inr e' ↦ cc
                  ]
                ])
          | inr (n32f_forward, e) ↦ rw (serve, e) (forward-Leaves req a)
          | inr (n32f_process, e) ↦ rw (serve, e) (process-Leaves random req a)
        ]
