-- ===== src/Sbi/EndToEnd.antt =====
-- What a local network function gets from the SBI server for a service request over PRINS.
use oai_cn5g_sepp.Base.{◌≡◌, ◌≢◌, ◌≤◌, ◌<◌, some, [], Bytes, codes, length}
use oai_cn5g_sepp.Search.{Lacks}
use oai_cn5g_sepp.Json.{JsonLib}
use oai_cn5g_sepp.Models.{Models}
use oai_cn5g_sepp.Http.{Method, Client}
use oai_cn5g_sepp.App.Asked.{name_of, nf_answer}
use oai_cn5g_sepp.App.Answered.{Responds}
use oai_cn5g_sepp.App.Arrival.{request_target}
use oai_cn5g_sepp.Sbi.Request.{Addresses, whole, handle_service-Responds}
use oai_cn5g_sepp.Handshake.{Handshake}
use oai_cn5g_sepp.Jose.{Bio, Evp}
use oai_cn5g_sepp.Forward.{Forward}
use oai_cn5g_sepp.Forward.Aad.Lines.{NoSpace}
use oai_cn5g_sepp.Forward.Success.{IsKey}
use oai_cn5g_sepp.App.{Config, App}
use oai_cn5g_sepp.Server.{ServerRequest}
use oai_cn5g_sepp.App.EndToEnd.{IsLawful, Connected, handle_nf_service_request-prins}
use oai_cn5g_sepp.Sbi.{handle_service}

module _ {J : JsonLib} (M : Models J) (evp : Evp) (bio : Bio) (client local : Client J)
    (cfg cfg' : Config) (what : Bytes) (lawful : IsLawful M evp bio client) where
  -- A network function sends a request to the SBI server, with one of the methods GET, POST, PUT,
  -- DELETE and PATCH, headers that address an authority (by an API root, else the authority, else the
  -- host), and a path and query without blanks, not empty; the authority is not empty and has no
  -- slash and no line break. The two SEPPs have PRINS and one key, of sixteen bytes, or none, the
  -- libraries are lawful and the first SEPP reaches the other's handler. If the network function at
  -- the producer, asked with plain HTTP at this authority for this path and query by this method and
  -- with this body, answers with a status from 100 to 599, the SBI server responds with this status
  -- and this body, but none for 204, and of the answer's headers with content-type, location and
  -- retry-after, where they are of one line, and with no others.
  pub handle_service-prins :
      (sent : ServerRequest) (a b : App) (s : Handshake) (f g : Forward) (url iv iv' : Bytes)
      (m : Method) (authority : Bytes)
      → s.selected_sec_capability ≡ codes "PRINS"
      → f.security_capability ≡ codes "PRINS"
      → g.security_capability ≡ codes "PRINS"
      → g.enc_key ≡ f.enc_key
      → IsKey f.enc_key
      → length iv ≡ 12
      → length iv' ≡ 12
      → sent.method ≡ name_of m
      → Addresses sent.headers authority
      → NoSpace (request_target sent.path sent.raw_query)
      → request_target sent.path sent.raw_query ≢ []
      → authority ≢ []
      → Lacks b'/' authority
      → Lacks b'\n' authority
      → Connected M evp bio client local cfg cfg' what lawful iv' (record b { forward = some g })
      → let answer =
          nf_answer local m authority
            (request_target sent.path sent.raw_query)
            (whole sent.chunks) in
        100 ≤ answer.status_code
        → answer.status_code < 600
        → Responds answer (
            handle_service M evp bio client cfg
              (some iv)
              sent
              (record a { handshake = some s; forward = some f; remote_sepp_url = some url }))
  handle_service-prins sent a b s f g url iv iv' m authority prins prins' prins'' key k n n' named
        addresses hp np na slash ha connected lo hi =
      let target = request_target sent.path sent.raw_query in
      handle_service-Responds M evp bio client cfg (some iv) sent _ m authority
        (nf_answer local m authority target (whole sent.chunks)) named addresses na slash
        (handle_nf_service_request-prins M evp bio client local cfg cfg' what lawful a b s f g url
          iv iv' m target authority (whole sent.chunks) prins prins' prins'' key k n n' hp np na
          slash ha connected lo hi)
