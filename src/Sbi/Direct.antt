-- ===== src/Sbi/Direct.antt =====
-- What a local network function gets from the SBI server for a GET over TLS.
use oai_cn5g_sepp.Base.{◌≡◌, ◌≢◌, false, some, [], ◌=?◌, Bytes}
use oai_cn5g_sepp.Json.{JsonLib, IsJson}
use oai_cn5g_sepp.Json.Members.{IsJsonValue}
use oai_cn5g_sepp.Json.Objects.{IsJsonObject}
use oai_cn5g_sepp.Models.{Models}
use oai_cn5g_sepp.Jose.{Bio, Evp}
use oai_cn5g_sepp.Http.{HttpResponse, Client}
use oai_cn5g_sepp.Handshake.{Handshake}
use oai_cn5g_sepp.Handshake.Messages.{Request}
use oai_cn5g_sepp.Forward.{Forward}
use oai_cn5g_sepp.Server.Routes.{ServeMux, IsServeMux}
use oai_cn5g_sepp.Nbi.Routes.{NbiHandler}
use oai_cn5g_sepp.App.{Config, App}
use oai_cn5g_sepp.Telescopic.{TelescopicMapping}
use oai_cn5g_sepp.Sbi.Routes as Sbi
use oai_cn5g_sepp.Sbi.Routes.{SbiHandler}

module _ {J : JsonLib} (L : IsJson J) (V : IsJsonValue J) (O : IsJsonObject J) (M : Models J)
    (cfg peer : Config) (evp : Evp) (bio : Bio) (client local : Client J) (what : Bytes)
    (mapping_to_json : TelescopicMapping → J.Json) (get_query_param : Bytes → Bytes → Bytes)
    {sbi : ServeMux SbiHandler} (sbi_law : IsServeMux sbi) {mux : ServeMux NbiHandler}
    (law : IsServeMux mux) where
  -- The network function answers with a status, and with a JSON text that is not empty.
  abbrev pub AnswersJson : HttpResponse → J.Json → Type 0
  AnswersJson answer j =
      ((answer.status_code =? 0) ≡ false)
      × (answer.body ≢ [])
      × (local.get_json answer ≡ some j)
      × (J.empty j ≡ false)
