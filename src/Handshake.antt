-- ===== src/Handshake.antt =====
-- `sepp_n32c_handshake`, the N32-c procedures between two SEPPs (src/sepp_app/
-- sepp_n32c_handshake.cpp and .hpp): its state here, its operations in the children.
pub mod Capability
pub mod Parameters
pub mod Termination
pub mod Messages
pub mod Security
pub mod Negotiation
pub mod Agreement
pub mod Offer
use oai_cn5g_sepp.Base.{Bool, true, false, not, ◌&&◌, ◌||◌, List, [], Bytes, codes}
use oai_cn5g_sepp.Json.{JsonLib}
use oai_cn5g_sepp.Dict.{Headers}
use oai_cn5g_sepp.Handler.{Outcome, returned, Handled}

pub record Handshake : Type 0 where
  pub n32c_context_id : Bytes
  pub peer_sepp_fqdn : Bytes
  pub sender_fqdn : Bytes
  pub peer_target_api_root_supported : Bool
  pub selected_sec_capability : Bytes
  pub allowed_n32_purposes : List Bytes
  pub selected_jwe_cipher : Bytes
  pub selected_jws_cipher : Bytes

abbrev pub initial : Handshake
initial = record {
  n32c_context_id = [];
  peer_sepp_fqdn = [];
  sender_fqdn = codes "sepp.5gc.mnc22.mcc208.3gppnetwork.org";
  peer_target_api_root_supported = false;
  selected_sec_capability = codes "PRINS";
  allowed_n32_purposes = [];
  selected_jwe_cipher = codes "A128GCM";
  selected_jws_cipher = codes "ES256";
}

abbrev pub sbi_target_api_root_header : Bytes
sbi_target_api_root_header = codes "3gpp-Sbi-Target-ApiRoot-Supported"

abbrev pub header_value_yes : Bytes
header_value_yes = codes "true"

abbrev pub cap_tls : Bytes
cap_tls = codes "TLS"

abbrev pub cap_prins : Bytes
cap_prins = codes "PRINS"

module _ (J : JsonLib) where
  abbrev pub validate_handshake_request : J.Json → Bool
  validate_handshake_request req_data = not (J.is_null req_data || not (J.is_object req_data))

  -- The handler returns, with nothing written behind what is given.
  abbrev pub answer : Handshake → J.Json → Headers → Bool → Handled J Handshake
  answer s resp_data resp_headers result = record {
    state = s;
    resp_data = resp_data;
    resp_headers = resp_headers;
    outcome = returned result;
  }
