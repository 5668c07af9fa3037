-- ===== src/Sbi/FirstRequest.antt =====
-- From the start of a consumer's SEPP to the first service request that a local network function
-- sends to its SBI server, against the NBI server of the producer's SEPP.
use oai_cn5g_sepp.Base.{◌≡◌, true, ◌≢◌, ◌≤◌, ◌<◌, some, [], Bytes, codes, length}
use oai_cn5g_sepp.Search.{Lacks}
use oai_cn5g_sepp.Json.{JsonLib, IsJson}
use oai_cn5g_sepp.Json.Members.{IsJsonValue}
use oai_cn5g_sepp.Models.{Models, IsCodec}
use oai_cn5g_sepp.Result.{ok}
use oai_cn5g_sepp.Jose.{Bio, Evp}
use oai_cn5g_sepp.Http.{Method, Client}
use oai_cn5g_sepp.Handshake.{Handshake}
use oai_cn5g_sepp.Handshake.Messages.{exchange_capability, exchange_params}
use oai_cn5g_sepp.Handshake.Offer.{ReadsCapabilities, IsCapability, capability_request}
use oai_cn5g_sepp.Handshake.Negotiation.{informed}
use oai_cn5g_sepp.Handshake.Parameters.{create_exchange_params_req}
use oai_cn5g_sepp.Forward.{Forward}
use oai_cn5g_sepp.Forward.Aad.Lines.{NoSpace}
use oai_cn5g_sepp.Server.Routes.{ServeMux, IsServeMux, is_clean}
use oai_cn5g_sepp.Nbi.Routes.{NbiHandler}
use oai_cn5g_sepp.App.{Config, App, remote_url}
use oai_cn5g_sepp.App.Procedures.{start}
use oai_cn5g_sepp.App.Connection as Connection
use oai_cn5g_sepp.App.Connection.{at_peer}
use oai_cn5g_sepp.App.Startup.{configured, IsConsumer}
use oai_cn5g_sepp.App.EndToEnd.{IsLawful}
use oai_cn5g_sepp.App.FirstRequest.{ReachesProcess, start-prins}
use oai_cn5g_sepp.Telescopic.{Plmn, TelescopicMapping}
use oai_cn5g_sepp.Server.{ServerRequest}
use mathlib.Core.Path.{sym, subst}
use oai_cn5g_sepp.App.Asked.{name_of, nf_answer}
use oai_cn5g_sepp.App.Answered.{Responds}
use oai_cn5g_sepp.App.Arrival.{request_target}
use oai_cn5g_sepp.Sbi.Request.{Addresses, whole, handle_service-Responds}
use oai_cn5g_sepp.Sbi.Routes as Sbi
use oai_cn5g_sepp.Sbi.Routes.{SbiHandler, mapping_path, serve-service, handle_service-ok}

module _ {J : JsonLib} (L : IsJson J) (V : IsJsonValue J) (M : Models J)
    (req : IsCodec J M.sec_param_exch_req) (rsp : IsCodec J M.sec_param_exch_rsp)
    (reads : ReadsCapabilities M) (evp : Evp) (bio : Bio) (client local : Client J) (peer : Config)
    (what : Bytes) {mux : ServeMux NbiHandler} (law : IsServeMux mux)
    (mapping_to_json : TelescopicMapping → J.Json) (get_query_param : Bytes → Bytes → Bytes)
    {sbi : ServeMux SbiHandler} (sbi_law : IsServeMux sbi) where
  -- Let a SEPP be configured as a consumer's with PRINS, let its client reach the NBI server of its
  -- first roaming partner's SEPP, whose handshake has TLS or PRINS and whose forwarding has PRINS and
  -- no key, with the two requests of the handshake and then with those of n32f-process, and let the
  -- libraries and multiplexers be lawful and the drawn UUID not be empty. Then the constructor of its
  -- application ends without an exception, and with the application that it makes the SBI server
  -- answers a request of a network function like this: where the network function at the producer,
  -- asked with plain HTTP at the same authority for the same path and query by the same method and
  -- with the same body, answers with a status from 100 to 599, the response has this status and, but
  -- for 204, this body, and of the headers content-type, location and retry-after, where they are of
  -- one line, and no others. The method is to be GET, POST, PUT, DELETE or PATCH, the path to be clean
  -- and not that of the mapping, path and query to be free of blanks, and the headers to address
  -- the authority, which is not to be empty nor to have a slash or a line break.
  pub start-serve :
      (lawful : IsLawful M evp bio client) (cfg : Config) (plmn : Plmn)
      (uuid uuid' uuid'' iv iv' : Bytes) (sent : ServerRequest) (m : Method) (authority : Bytes)
      (b : App) (t : Handshake) (g : Forward)
      → IsConsumer cfg plmn
      → uuid ≢ []
      → IsCapability M t.selected_sec_capability
      → g.security_capability ≡ codes "PRINS"
      → g.enc_key ≡ []
      → length iv ≡ 12
      → length iv' ≡ 12
      → sent.method ≡ name_of m
      → Addresses sent.headers authority
      → NoSpace (request_target sent.path sent.raw_query)
      → is_clean sent.path ≡ true
      → sent.path ≢ mapping_path
      → request_target sent.path sent.raw_query ≢ []
      → authority ≢ []
      → Lacks b'/' authority
      → Lacks b'\n' authority
      → let s = configured cfg in
        let url = remote_url cfg plmn in
        let offered = J.dump (capability_request L V M reads s) in
        let wanted = J.dump (create_exchange_params_req J M uuid (informed peer.nbi_url s)).1 in
        let at = at_peer L V M req rsp reads evp bio client local peer what law url uuid' in
        let inst = some (record b { handshake = some t; forward = some g }) in
        Connection.Reaches L V M req rsp reads evp bio client local peer what law url uuid' inst
          offered
        → ReachesProcess L V M req rsp reads evp bio client local peer what law url uuid''
            (some iv')
            (at exchange_params wanted (at exchange_capability offered inst).1).1
        → let answer =
            nf_answer local m authority
              (request_target sent.path sent.raw_query)
              (whole sent.chunks) in
          100 ≤ answer.status_code
          → answer.status_code < 600
          → (a : App) × (start M client cfg uuid ≡ ok a)
            × Responds answer (
                Sbi.serve M evp bio client cfg mapping_to_json get_query_param what sbi
                  (some iv)
                  sent
                  a)
  start-serve lawful cfg plmn uuid uuid' uuid'' iv iv' sent m authority b t g c ne known prins key n
        n' named addresses hp clean unmapped np na slash ha reaches process lo hi =
      let target = request_target sent.path sent.raw_query in
      let answer = nf_answer local m authority target (whole sent.chunks) in
      let (a, started, passes) =
        start-prins L V M req rsp reads evp bio client local peer what law lawful cfg plmn uuid
          uuid' uuid'' iv iv' target authority (whole sent.chunks) m b t g c ne known prins key n n'
          hp np na slash ha reaches process lo hi in
      (
        a,
        started,
        subst (Responds answer)
            (sym (
              serve-service M evp bio client cfg mapping_to_json get_query_param what sbi_law
                (some iv) sent a clean unmapped))
            (handle_service-Responds M evp bio client cfg (some iv) sent a m authority answer named
              addresses na slash passes),
      )
