-- ===== src/Forward.antt =====
-- `sepp_n32f_forward`, the forwarding of service requests over N32-f (src/sepp_app/
-- sepp_n32f_forward.cpp and .hpp). The members that the source only sets (`m_sign_key`,
-- `m_local_nrf_uri`, `m_peer_sepp_fqdn`, `m_nf_forward_cb`) are left out.
pub mod Url
pub mod Aad
pub mod Target
pub mod Reformat
pub mod Process
pub mod Direct
pub mod Gates
pub mod Requests
pub mod GetOnly
pub mod Success
pub mod Kept
pub mod Transparency
pub mod Walk
pub mod Passed
pub mod Carried
use oai_cn5g_sepp.Base.{Bool, not, ◌&&◌, ℕ, [], Bytes, codes}
use oai_cn5g_sepp.Dict.{Headers}
use oai_cn5g_sepp.Json.{JsonLib}

pub record Forward : Type 0 where
  pub n32f_context_id : Bytes
  pub security_capability : Bytes
  pub enc_key : Bytes

abbrev pub initial : Forward
initial = record { n32f_context_id = []; security_capability = codes "PRINS"; enc_key = [] }

-- `nf_http_request`
pub record NfHttpRequest : Type 0 where
  pub method : Bytes
  pub path : Bytes
  pub authority : Bytes
  pub headers : Headers
  pub body : Bytes
  pub mcc : Bytes
  pub mnc : Bytes

-- `nf_http_response`
pub record NfHttpResponse : Type 0 where
  pub status_code : ℕ
  pub body : Bytes
  pub headers : Headers

module _ (J : JsonLib) where
  abbrev pub validate_n32f_message : J.Json → Bool
  validate_n32f_message req_data = not (J.is_null req_data) && J.is_object req_data
