-- ===== src/App/Lifecycle.antt =====
-- The start and the stop of the whole application with its NRF client (src/sepp_app/sepp_app.cpp).
use oai_cn5g_sepp.Base.{
  ℕ, ◌≡◌, refl, ap, ◌∙◌, ◌||◌, Bool-cases, inl, inr, Option, none, some, List, [], ◌∷◌, ◌++◌, map,
  Bytes, ◌=?◌, if◌then◌else◌,
}
use oai_cn5g_sepp.Json.{JsonLib}
use oai_cn5g_sepp.Models.{Models}
use oai_cn5g_sepp.Http.{Client, Method, put, delete}
use oai_cn5g_sepp.Result.{Result, ok, ◌>>=◌, >>=-eq-ok, ok-inj}
use oai_cn5g_sepp.Profile.{Net}
use oai_cn5g_sepp.Event.{Signals}
use oai_cn5g_sepp.Nrf.{
  SeppNrf, Sent, SbiConfig, sepp_nrf, register_to_nrf, start_event_nf_heartbeat, not_in_front,
  deregister_to_nrf, registration,
}
use oai_cn5g_sepp.App.{Config, App}
use oai_cn5g_sepp.App.Procedures.{start, stop}

map-snoc :
    (xs : List Sent) (x : Sent)
    → map (λ x. x.method) (xs ++ (x ∷ [])) ≡ map (λ x. x.method) xs ++ (x.method ∷ [])
map-snoc [] x = refl
map-snoc (y ∷ xs) x = ap (◌∷◌ y.method) (map-snoc xs x)

module _ {J : JsonLib} (net : Net J) (S : Signals) where
  -- The application with `m_sepp_nrf_inst`, `none` for a null pointer.
  pub record SeppApp : Type 0 where
    pub app : App
    pub nrf : Option (SeppNrf net S)

module _ {J : JsonLib} {net : Net J} {S : Signals} (client : Client J) where
  abbrev pub deregister : ℕ → Option (SeppNrf net S) → Option (SeppNrf net S)
  deregister ms none = none
  deregister ms (some n) = some (deregister_to_nrf S client ms n)

module _ {J : JsonLib} {net : Net J} {S : Signals} (M : Models J) (client client_nbi : Client J)
    (cfg : Config) where
  -- The constructor: `id` and `uuid` are random, `url` is the instance at the NRF, `ms` the time.
  unfoldable pub launch :
      SbiConfig net → Bytes → Bytes → Bytes → ℕ → S.Signal → Result (SeppApp net S)
  launch sbi id url uuid ms event_sub = do
    app ← start M client_nbi cfg uuid
    ok (record {
      app = app;
      nrf =
          if cfg.register_nrf
          then some (register_to_nrf S client ms (sepp_nrf S sbi id url event_sub))
          else none;
    })

  unfoldable pub quit : ℕ → SeppApp net S → SeppApp net S
  quit ms s = record { app = stop M client_nbi cfg s.app; nrf = deregister client ms s.nrf }

module _ {J : JsonLib} {net : Net J} {S : Signals} where
  -- The requests that went to the NRF, by their methods.
  abbrev pub methods : Option (SeppNrf net S) → List Method
  methods none = []
  methods (some n) = map (λ x. x.method) n.sent

module _ {J : JsonLib} {net : Net J} {S : Signals} (M : Models J) (client client_nbi : Client J)
    (cfg : Config) where
  register_to_nrf-sent :
      (ms : ℕ) (n : SeppNrf net S)
      → n.sent ≡ []
      → methods (some (register_to_nrf S client ms n)) ≡ put ∷ []
  unfolding register_to_nrf start_event_nf_heartbeat
  register_to_nrf-sent ms n e =
      let response = client.send put (registration S client n) in
      elim (Bool-cases (response.status_code =? 201 || response.status_code =? 200)) [
        | inr bad ↦ rw (bad, e) refl
        | inl fine ↦ elim (Bool-cases (not_in_front response.body)) [
          | inr front ↦ rw (fine, front, e) refl
          | inl other ↦ rw (fine, other, e) refl
        ]
      ]

  pub deregister_to_nrf-sent :
      (ms : ℕ) (n : SeppNrf net S)
      → methods (some (deregister_to_nrf S client ms n)) ≡ methods (some n) ++ (delete ∷ [])
  unfolding deregister_to_nrf
  deregister_to_nrf-sent ms n = map-snoc n.sent _

  -- An application that is launched without an exception and then stopped has sent to the NRF one
  -- registration and one deregistration after it, whatever was answered, if it is configured to
  -- register, and nothing at all if it is not.
  pub launch-quit :
      (sbi : SbiConfig net) (id url uuid : Bytes) (ms ms' : ℕ) (event_sub : S.Signal)
      (s : SeppApp net S)
      → launch M client client_nbi cfg sbi id url uuid ms event_sub ≡ ok s
      → methods (quit M client client_nbi cfg ms' s).nrf
        ≡ (if cfg.register_nrf then put ∷ delete ∷ [] else [])
  unfolding launch quit sepp_nrf
  launch-quit sbi id url uuid ms ms' event_sub s h =
      let (app, started, is) = >>=-eq-ok (start M client_nbi cfg uuid) _ h in
      rw (← (ok-inj is)) (elim (Bool-cases cfg.register_nrf) [
        | inl yes_nrf ↦ rw (yes_nrf) (
            deregister_to_nrf-sent ms' _
            ∙ ap (λ l. l ++ (delete ∷ []))
                (register_to_nrf-sent ms (sepp_nrf S sbi id url event_sub) refl))
        | inr no_nrf ↦ rw (no_nrf) refl
      ])
