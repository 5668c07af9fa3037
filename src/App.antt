-- ===== src/App.antt =====
-- `sepp_app`, the application: it owns the handshake, the forwarding and the telescopic mapping,
-- and runs this SEPP's own procedures (src/sepp_app/sepp_app.cpp and .hpp). State here, the
-- procedures in the children.
pub mod Procedures
pub mod Contexts
pub mod Service
pub mod Handlers
pub mod Responses
pub mod Consumer
pub mod EndToEnd
pub mod Accepted
pub mod Exchange
pub mod Ending
pub mod Lifecycle
pub mod Producer
pub mod Asked
pub mod Answered
pub mod Arrival
pub mod Startup
pub mod Connection
pub mod FirstRequest
pub mod Direct
use oai_cn5g_sepp.Base.{
  ℕ, Bool, Option, none, some, List, [], ◌∷◌, ◌++◌, Bytes, codes, if◌then◌else◌,
}
use oai_cn5g_sepp.Decimal.{to_string}
use oai_cn5g_sepp.Handshake.{Handshake}
use oai_cn5g_sepp.Forward.{Forward}
use oai_cn5g_sepp.Telescopic.{Plmn}

-- What `sepp_cfg` answers.
pub record Config : Type 0 where
  pub register_nrf : Bool
  pub roaming_partners : List Plmn
  pub security : Bytes
  pub is_c_sepp : Bool
  pub tls_enabled : Bool
  pub nbi_port : ℕ
  pub nbi_url : Bytes
  pub nrf_url : Bytes

-- The instances that the application owns, `none` for a null pointer; of the telescopic mapping
-- its roaming partners.
pub record App : Type 0 where
  pub handshake : Option Handshake
  pub forward : Option Forward
  pub remote_sepp_url : Option Bytes
  pub telescopic_mapping : Option (List Plmn)

abbrev pub scheme : Config → Bytes
scheme cfg = if cfg.tls_enabled then codes "https://" else codes "http://"

-- The URL of the first roaming partner's SEPP.
unfoldable pub remote_url : Config → Plmn → Bytes
unfolding to_string
remote_url cfg plmn =
    scheme cfg
    ++ (codes "sepp.5gc.mnc"
        ++ (plmn.mnc
            ++ (codes ".mcc"
                ++ (plmn.mcc ++ (codes ".3gppnetwork.org:" ++ to_string cfg.nbi_port)))))
