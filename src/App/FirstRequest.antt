-- ===== src/App/FirstRequest.antt =====
-- From the start of a consumer's SEPP to its first service request, against the NBI server of the
-- producer's SEPP (sepp_app.cpp and sepp-http2-nbi-server.cpp).
use oai_cn5g_sepp.Base.{
  ◌≡◌, ◌≢◌, ◌≤◌, ◌<◌, refl, ap, ◌∙◌, inl, Option, some, [], ◌++◌, Bytes, codes, length,
}
use oai_cn5g_sepp.Search.{Lacks}
use oai_cn5g_sepp.Json.{JsonLib, IsJson}
use oai_cn5g_sepp.Json.Members.{IsJsonValue}
use oai_cn5g_sepp.Models.{Models, IsCodec}
use oai_cn5g_sepp.Result.{ok}
use oai_cn5g_sepp.Jose.{Bio, Evp}
use oai_cn5g_sepp.App.Asked.{name_of, nf_answer}
use oai_cn5g_sepp.App.Answered.{Passes}
use oai_cn5g_sepp.Http.{Method, Client, HttpRequest, post}
use oai_cn5g_sepp.Telescopic.{Plmn}
use oai_cn5g_sepp.Handshake.{Handshake}
use oai_cn5g_sepp.Handshake.Messages.{exchange_capability, exchange_params}
use oai_cn5g_sepp.Handshake.Offer.{ReadsCapabilities, IsCapability, capability_request}
use oai_cn5g_sepp.Handshake.Negotiation.{informed}
use oai_cn5g_sepp.Handshake.Parameters.{create_exchange_params_req}
use oai_cn5g_sepp.Forward.{Forward}
use oai_cn5g_sepp.Forward.Aad.Lines.{NoSpace}
use oai_cn5g_sepp.Server.Routes.{ServeMux, IsServeMux, find_route, is_clean}
use oai_cn5g_sepp.Nbi.{handle_n32f_process}
use oai_cn5g_sepp.Nbi.Routes.{NbiHandler, routes, n32f_process, serve}
use oai_cn5g_sepp.App.{Config, App, remote_url}
use oai_cn5g_sepp.App.Procedures.{start}
use oai_cn5g_sepp.App.Service.{handle_nf_service_request}
use oai_cn5g_sepp.App.Producer.{received_request, received_response}
use oai_cn5g_sepp.App.Connection as Connection
use oai_cn5g_sepp.App.Connection.{delivered, at_peer}
use oai_cn5g_sepp.App.Startup.{configured, consumer, IsConsumer, start-Agreed}
use oai_cn5g_sepp.App.EndToEnd.{IsLawful, handle_nf_service_request-prins_at}

abbrev pub process_path : Bytes
process_path = codes "/n32f-forward/v1/n32f-process"

select-process_path :
    {mux : ServeMux NbiHandler}
    → IsServeMux mux
    → mux.select routes process_path ≡ some n32f_process
unfolding is_clean find_route
select-process_path law = law.select-fixed routes process_path n32f_process refl refl

module _ {J : JsonLib} (L : IsJson J) (V : IsJsonValue J) (M : Models J)
    (req : IsCodec J M.sec_param_exch_req) (rsp : IsCodec J M.sec_param_exch_rsp)
    (reads : ReadsCapabilities M) (evp : Evp) (bio : Bio) (client local : Client J) (peer : Config)
    (what : Bytes) {mux : ServeMux NbiHandler} (law : IsServeMux mux) where
  serve-n32f_process :
      (uuid : Bytes) (random : Option Bytes) (r : HttpRequest) (inst : Option App)
      → serve M peer evp bio local what mux uuid random (delivered process_path r) inst
        ≡ handle_n32f_process M peer evp bio local what random (received_request r) inst
  unfolding serve handle_n32f_process
  serve-n32f_process uuid random r inst = rw (serve, select-process_path law) refl

  -- The client reaches n32f-process of the producer's server.
  abbrev pub ReachesProcess : Bytes → Bytes → Option Bytes → Option App → Type 0
  ReachesProcess url uuid random inst =
      (body : Bytes)
      → let r = client.prepare_json_request (url ++ process_path) body in
        client.send post r
        ≡ received_response
            (serve M peer evp bio local what mux uuid random (delivered process_path r) inst).0

  -- From the start on the application of the consumer's SEPP passes a service request on and
  -- returns what the network function at the producer answers.
  pub start-prins :
      (lawful : IsLawful M evp bio client) (cfg : Config) (plmn : Plmn)
      (uuid uuid' uuid'' iv iv' p authority body : Bytes) (m : Method) (b : App) (t : Handshake)
      (g : Forward)
      → IsConsumer cfg plmn
      → uuid ≢ []
      → IsCapability M t.selected_sec_capability
      → g.security_capability ≡ codes "PRINS"
      → g.enc_key ≡ []
      → length iv ≡ 12
      → length iv' ≡ 12
      → NoSpace p
      → p ≢ []
      → authority ≢ []
      → Lacks b'/' authority
      → Lacks b'\n' authority
      → let s = configured cfg in
        let url = remote_url cfg plmn in
        let offered = J.dump (capability_request L V M reads s) in
        let wanted = J.dump (create_exchange_params_req J M uuid (informed peer.nbi_url s)).1 in
        let at = at_peer L V M req rsp reads evp bio client local peer what law url uuid' in
        let inst = some (record b { handshake = some t; forward = some g }) in
        Connection.Reaches L V M req rsp reads evp bio client local peer what law url uuid' inst
          offered
        → ReachesProcess url uuid''
            (some iv')
            (at exchange_params wanted (at exchange_capability offered inst).1).1
        → let answer = nf_answer local m authority p body in
          100 ≤ answer.status_code
          → answer.status_code < 600
          → (a : App) × (start M client cfg uuid ≡ ok a)
            × Passes answer authority (
                handle_nf_service_request M evp bio client cfg a
                  (some iv)
                  authority
                  p
                  (name_of m)
                  body)
  start-prins lawful cfg plmn uuid uuid' uuid'' iv iv' p authority body m b t g c ne known prins key
        n n' np hp na slash ha reaches process lo hi =
      let (i, j, done, held, agreed, same) =
        start-Agreed L V M req rsp reads evp bio client local peer what law lawful.parse-dump
          lawful.body-prepare cfg plmn uuid uuid' (record b { forward = some g }) t c ne known
          reaches in
      (
        _,
        done,
        handle_nf_service_request-prins_at M evp bio client local cfg peer what lawful
            (consumer cfg plmn) (record b { handshake = some j }) i _ g (remote_url cfg plmn) iv iv'
            m p authority body (same ∙ c.prins) c.prins prins key (inl refl) n n' np hp na slash ha
            (λ text.
              let r = client.prepare_json_request (remote_url cfg plmn ++ process_path) text in
              process text
              ∙ ap (λ x. received_response x.0)
                  (serve-n32f_process uuid'' (some iv') r _
                    ∙ ap
                        (handle_n32f_process M peer evp bio local what (some iv')
                          (received_request r))
                        held))
            lo hi,
      )
