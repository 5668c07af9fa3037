-- ===== src/App/Startup.antt =====
-- The start of a consumer's SEPP against a producer's SEPP that runs (sepp_app.cpp).
use oai_cn5g_sepp.Base.{◌≡◌, ◌≢◌, refl, ap, ◌∙◌, true, some, [], ◌∷◌, List, Bytes, codes}
use oai_cn5g_sepp.Json.{JsonLib, IsJson}
use oai_cn5g_sepp.Json.Members.{IsJsonValue}
use oai_cn5g_sepp.Models.{Models, IsCodec}
use oai_cn5g_sepp.Result.{ok}
use oai_cn5g_sepp.Jose.{Bio, Evp}
use oai_cn5g_sepp.Http.{Client}
use oai_cn5g_sepp.Telescopic.{Plmn}
use oai_cn5g_sepp.Forward
use oai_cn5g_sepp.Handshake
use oai_cn5g_sepp.Handshake.{Handshake}
use oai_cn5g_sepp.Handshake.Messages.{exchange_capability, exchange_params}
use oai_cn5g_sepp.Handshake.Offer.{ReadsCapabilities, IsCapability, capability_request}
use oai_cn5g_sepp.Handshake.Negotiation.{informed}
use oai_cn5g_sepp.Handshake.Agreement.{Agreed}
use oai_cn5g_sepp.Handshake.Parameters.{create_exchange_params_req}
use oai_cn5g_sepp.Server.Routes.{ServeMux, IsServeMux}
use oai_cn5g_sepp.Nbi.Routes.{NbiHandler}
use oai_cn5g_sepp.App.{Config, App, remote_url}
use oai_cn5g_sepp.App.Procedures.{instances, create_exchange_capability, start}
use oai_cn5g_sepp.App.Connection.{at_peer, Reaches, create_exchange_capability-Agreed}

-- The handshake and the application of a consumer's SEPP before it has sent anything.
abbrev pub configured : Config → Handshake
configured cfg = record Handshake.initial { selected_sec_capability = cfg.security }

abbrev pub consumer : Config → Plmn → App
consumer cfg plmn = record {
  handshake = some (configured cfg);
  forward = some (record Forward.initial { security_capability = cfg.security });
  remote_sepp_url = some (remote_url cfg plmn);
  telescopic_mapping = some cfg.roaming_partners;
}

-- The configuration of a consumer's SEPP with PRINS and a first roaming partner.
pub record IsConsumer (cfg : Config) (plmn : Plmn) : Type 0 where
  pub registers : cfg.register_nrf ≡ true
  pub is_consumer : cfg.is_c_sepp ≡ true
  pub others : List Plmn
  pub partners : cfg.roaming_partners ≡ plmn ∷ others
  pub prins : cfg.security ≡ codes "PRINS"

module _ {J : JsonLib} (L : IsJson J) (V : IsJsonValue J) (M : Models J)
    (req : IsCodec J M.sec_param_exch_req) (rsp : IsCodec J M.sec_param_exch_rsp)
    (reads : ReadsCapabilities M) (evp : Evp) (bio : Bio) (client local : Client J) (peer : Config)
    (what : Bytes) {mux : ServeMux NbiHandler} (law : IsServeMux mux) where
  instances-consumer :
      {cfg : Config} {plmn : Plmn}
      → IsConsumer cfg plmn
      → instances M client cfg ≡ consumer cfg plmn
  unfolding instances
  instances-consumer c = rw (c.registers, c.is_consumer, c.partners) refl

  start-instances :
      (cfg : Config) (a : App) (uuid url : Bytes)
      → instances M client cfg ≡ a
      → a.remote_sepp_url ≡ some url
      → start M client cfg uuid ≡ create_exchange_capability M client uuid a
  unfolding start
  start-instances cfg a uuid url is named =
      rw (← is) (rw (start, ap (λ x. x.remote_sepp_url) is ∙ named) refl)

  -- Let a SEPP be configured as a consumer's with PRINS, let its client reach the NBI server of its
  -- first roaming partner's SEPP with the two requests of the handshake, let the libraries be
  -- lawful and the drawn UUID not be empty, and let the other's handshake have TLS or PRINS. Then
  -- the constructor of its application ends without an exception, whatever else the other's
  -- handshake held, and leaves both handshakes with one context, which is not empty, and the same
  -- ciphers; the starting SEPP keeps the configured capability, its forwarding has that context
  -- too, and the other application is else as it was.
  pub start-Agreed :
      ((j : J.Json) → J.parse (J.dump j) ≡ some j)
      → ((url body : Bytes) → (client.prepare_json_request url body).body ≡ body)
      → (cfg : Config) (plmn : Plmn) (uuid uuid' : Bytes) (b : App) (t : Handshake)
      → IsConsumer cfg plmn
      → uuid ≢ []
      → IsCapability M t.selected_sec_capability
      → let s = configured cfg in
        let url = remote_url cfg plmn in
        let offered = J.dump (capability_request L V M reads s) in
        let wanted = J.dump (create_exchange_params_req J M uuid (informed peer.nbi_url s)).1 in
        let at = at_peer L V M req rsp reads evp bio client local peer what law url uuid' in
        let inst = some (record b { handshake = some t }) in
        Reaches L V M req rsp reads evp bio client local peer what law url uuid' inst offered
        → (i : Handshake) × (j : Handshake) × (start M client cfg uuid
            ≡ ok (record (consumer cfg plmn) {
              handshake = some i;
              forward = some (record Forward.initial {
                security_capability = cfg.security;
                n32f_context_id = i.n32c_context_id;
              });
            }))
          × ((at exchange_params wanted (at exchange_capability offered inst).1).1
              ≡ some (record b { handshake = some j }))
          × Agreed i j
          × (i.selected_sec_capability ≡ cfg.security)
  start-Agreed parse-dump body-prepare cfg plmn uuid uuid' b t c ne known reaches =
      let (i, j, done, held, agreed, same) =
        create_exchange_capability-Agreed L V M req rsp reads evp bio client local peer what law
          parse-dump body-prepare uuid uuid' (remote_url cfg plmn) (consumer cfg plmn) b
          (configured cfg) t ne (record { sender = refl; prins = c.prins }) known reaches in
      (i, j, start-instances cfg _ uuid _ (instances-consumer c) refl ∙ done, held, agreed, same)
