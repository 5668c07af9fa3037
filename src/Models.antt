-- ===== src/Models.antt =====
-- The OpenAPI model classes of 3GPP TS 29.573 that the SEPP uses. They are not part of the
-- repository: a class is the record of the members that the source gets and sets, and its
-- conversion from and to JSON and its validation are a parameter.
use oai_cn5g_sepp.Base.{◌≡◌, true, false, some, Bool, Option, List, Bytes}
use oai_cn5g_sepp.Json.{JsonLib, Codec}

pub record SecNegotiateReqData (IntendedN32Purpose : Type 0) : Type 0 where
  pub sender : Bytes
  pub target_api_root_supported : Option Bool
  pub intended_usage_purpose : List IntendedN32Purpose

pub record SecParamExchReqData (ProtectionPolicy : Type 0) : Type 0 where
  pub n32f_context_id : Bytes
  pub sender : Bytes
  pub jwe_cipher_suite_list : Option (List Bytes)
  pub jws_cipher_suite_list : Option (List Bytes)
  pub protection_policy_info : Option ProtectionPolicy

pub record SecParamExchRspData (ProtectionPolicy : Type 0) : Type 0 where
  pub n32f_context_id : Bytes
  pub sender : Bytes
  pub selected_jwe_cipher_suite : Option Bytes
  pub selected_jws_cipher_suite : Option Bytes
  pub sel_protection_policy_info : Option ProtectionPolicy

pub record N32fContextInfo : Type 0 where
  pub n32f_context_id : Bytes

-- `FlatJweJson`; a string never set reads as the empty one.
pub record FlatJweJson (Json : Type 0) : Type 0 where
  pub r_protected : Bytes
  pub aad : Bytes
  pub unprotected : Json
  pub ciphertext : Bytes
  pub iv : Bytes
  pub tag : Bytes

-- A message `N32fReformattedReqMsg` or `N32fReformattedRspMsg` is read and written through its
-- `reformattedData` alone.
pub record Models (J : JsonLib) : Type 1 where
  pub IntendedN32Purpose : Type 0
  pub ProtectionPolicy : Type 0
  pub SecNegotiateRspData : Type 0
  pub purpose_from_json : J.Json → Option IntendedN32Purpose
  -- a `ProtectionPolicy` whose `apiIeMappingList` is set to the empty list
  pub policy_without_mappings : ProtectionPolicy
  pub sec_negotiate_req : Codec J.Json (SecNegotiateReqData IntendedN32Purpose)
  pub sec_negotiate_rsp : Codec J.Json SecNegotiateRspData
  pub sec_param_exch_req : Codec J.Json (SecParamExchReqData ProtectionPolicy)
  pub sec_param_exch_rsp : Codec J.Json (SecParamExchRspData ProtectionPolicy)
  pub context_info : Codec J.Json N32fContextInfo
  pub reformatted_req : Codec J.Json (FlatJweJson J.Json)
  pub reformatted_rsp : Codec J.Json (FlatJweJson J.Json)

-- A model class writes an object, and reads back what it wrote.
pub record IsCodec (J : JsonLib) {A : Type 0} (c : Codec J.Json A) : Type 0 where
  pub from_json-to_json : (a : A) → c.from_json (c.to_json a) ≡ some a
  pub is_object-to_json : (a : A) → J.is_object (c.to_json a) ≡ true
  pub is_null-to_json : (a : A) → J.is_null (c.to_json a) ≡ false
