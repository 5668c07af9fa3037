-- ===== src/App/Contexts.antt =====
-- The N32-f context that the forwarding gets from the handshake.
use oai_cn5g_sepp.Base.{
  ◌≡◌, refl, ◌⊎◌, inl, inr, true, Option, none, some, Bytes, codes, Bool-cases,
}
use oai_cn5g_sepp.Json.{JsonLib}
use oai_cn5g_sepp.Models.{Models, SecParamExchRspData}
use oai_cn5g_sepp.Http.{Client, HttpResponse}
use oai_cn5g_sepp.Handshake.{Handshake}
use oai_cn5g_sepp.Handshake.Parameters.{create_exchange_params_req, handle_exchange_params_response}
use oai_cn5g_sepp.Forward.{Forward}
use oai_cn5g_sepp.App.{App}
use oai_cn5g_sepp.App.Procedures.{
  finish_exchange_params, create_exchange_params, post_json, is_ok_or_created,
}

-- The forwarding works under the context of the handshake, with its own capability and key.
pub record Synced (a a' : App) : Type 0 where
  pub handshake : Handshake
  pub forward : Forward
  pub forward' : Forward
  pub negotiated : a'.handshake ≡ some handshake
  pub before : a.forward ≡ some forward
  pub after : a'.forward ≡ some forward'
  pub context : forward'.n32f_context_id ≡ handshake.n32c_context_id
  pub capability : forward'.security_capability ≡ forward.security_capability
  pub key : forward'.enc_key ≡ forward.enc_key

module _ {J : JsonLib} (M : Models J) (client : Client J) where
  abbrev FinishedWell : App → Handshake → HttpResponse → Type 0
  FinishedWell a s response =
      let a' = finish_exchange_params M client a s response in
      (a'.forward ≡ a.forward) ⊎ Synced a a'

  established-FinishedWell :
      (a : App) (f : Option Forward) (s : Handshake) (response : HttpResponse) (resp_body : J.Json)
      {rsp_obj : SecParamExchRspData M.ProtectionPolicy}
      → is_ok_or_created response.status_code ≡ true
      → J.parse response.body ≡ some resp_body
      → M.sec_param_exch_rsp.from_json resp_body ≡ some rsp_obj
      → (handle_exchange_params_response J M s resp_body).1 ≡ true
      → FinishedWell (record a { forward = f }) s response
  unfolding finish_exchange_params
  established-FinishedWell a none s response resp_body e p q t = rw (e, p, q, t) (inl refl)
  established-FinishedWell a (some f) s response resp_body e p q t =
      rw (e, p, q, t)
        (inr (record {
          handshake = (handle_exchange_params_response J M s resp_body).0;
          forward = f;
          forward' = record f {
            n32f_context_id = (handle_exchange_params_response J M s resp_body).0.n32c_context_id;
          };
          negotiated = refl;
          before = refl;
          after = refl;
          context = refl;
          capability = refl;
          key = refl;
        }))

  finish_exchange_params-FinishedWell :
      (a : App) (s : Handshake) (response : HttpResponse) → FinishedWell a s response
  unfolding finish_exchange_params
  finish_exchange_params-FinishedWell a s response =
      elim (Bool-cases (is_ok_or_created response.status_code)) [
        | inr e ↦ rw e (inl refl)
        | inl e ↦ parsed e (J.parse response.body) refl
      ]
    where
      read :
          (j : J.Json) (o : Option (SecParamExchRspData M.ProtectionPolicy))
          → is_ok_or_created response.status_code ≡ true
          → J.parse response.body ≡ some j
          → M.sec_param_exch_rsp.from_json j ≡ o
          → FinishedWell a s response
      read j none e p q = rw (e, p, q) (inl refl)
      read j (some rsp_obj) e p q = elim (Bool-cases (handle_exchange_params_response J M s j).1) [
        | inr t ↦ rw (e, p, q, t) (inl refl)
        | inl t ↦ established-FinishedWell a a.forward s response j e p q t
      ]

      parsed :
          is_ok_or_created response.status_code ≡ true
          → (o : Option J.Json) → J.parse response.body ≡ o
          → FinishedWell a s response
      parsed e none p = rw (e, p) (inl refl)
      parsed e (some j) p = read j (M.sec_param_exch_rsp.from_json j) e p refl

  -- A parameter exchange with the remote SEPP, whatever it answers, leaves the forwarding as it was,
  -- or gives it the context that the handshake holds afterwards and keeps its capability and key.
  pub create_exchange_params-Synced :
      (uuid : Bytes) (a : App)
      → let a' = create_exchange_params M client uuid a in (a'.forward ≡ a.forward) ⊎ Synced a a'
  unfolding create_exchange_params
  create_exchange_params-Synced uuid a = go a.handshake a.remote_sepp_url
    where
      go :
          (h : Option Handshake) (u : Option Bytes)
          → let b = record a { handshake = h; remote_sepp_url = u } in
            let a' = create_exchange_params M client uuid b in
            (a'.forward ≡ b.forward) ⊎ Synced b a'
      go none u = inl refl
      go (some s) none = inl refl
      go (some s) (some url) =
          let (s', req) = create_exchange_params_req J M uuid s in
          finish_exchange_params-FinishedWell
            (record a { handshake = some s; remote_sepp_url = some url }) s'
            (post_json M client url (codes "/n32c-handshake/v1/exchange-params") req)
