-- ===== src/Examples/Models.antt =====
-- Model classes over the JSON library of the examples: each member under its own name, an optional
-- one as null where it is not set. A class reads an object that has its first member.
use oai_cn5g_sepp.Base.{
  ℕ, ◌≡◌, refl, ap, ◌∙◌, Bool, true, not, Option, none, some, List, [], ◌∷◌, Bytes, codes, ◌==◌,
  is_empty,
}
use oai_cn5g_sepp.Json.{Codec}
use oai_cn5g_sepp.Models.{
  SecNegotiateReqData, SecParamExchReqData, SecParamExchRspData, N32fContextInfo, FlatJweJson,
  Models, IsCodec,
}
use oai_cn5g_sepp.Examples.Json.{
  Json, null, string, bool, number, end_array, item, object, find, is_object, is_null, json,
}

-- The member of that name, else null.
abbrev at : Bytes → Json → Json
at key j = elim (find j key) [ none ↦ null | some v ↦ v ]

abbrev text : Json → Bytes
text (string s) = s
text _ = []

abbrev optional_text : Json → Option Bytes
optional_text (string s) = some s
optional_text _ = none

abbrev from_text : Option Bytes → Json
from_text none = null
from_text (some s) = string s

abbrev optional_number : Json → Option ℕ
optional_number (number n) = some n
optional_number _ = none

abbrev from_number : Option ℕ → Json
from_number none = null
from_number (some n) = number n

abbrev optional_bool : Json → Option Bool
optional_bool (bool b) = some b
optional_bool _ = none

unfoldable pub texts : Json → List Bytes
texts (item j js) = text j ∷ texts js
texts _ = []

unfoldable pub strings : List Bytes → Json
strings [] = end_array
strings (s ∷ ss) = item (string s) (strings ss)

texts-strings : (ss : List Bytes) → texts (strings ss) ≡ ss
unfolding texts strings
texts-strings [] = refl
texts-strings (s ∷ ss) = ap (◌∷◌ s) (texts-strings ss)

abbrev optional_texts : Json → Option (List Bytes)
optional_texts null = none
optional_texts (item l _) = some (texts l)
optional_texts _ = none

abbrev from_texts : Option (List Bytes) → Json
from_texts none = null
from_texts (some ss) = item (strings ss) end_array

optional_text-from : (o : Option Bytes) → optional_text (from_text o) ≡ o
optional_text-from none = refl
optional_text-from (some s) = refl

optional_number-from : (o : Option ℕ) → optional_number (from_number o) ≡ o
optional_number-from none = refl
optional_number-from (some n) = refl

optional_texts-from : (o : Option (List Bytes)) → optional_texts (from_texts o) ≡ o
optional_texts-from none = refl
optional_texts-from (some ss) = ap some (texts-strings ss)

-- What `read` makes of an object that has that member.
abbrev required {ℓ} : {A : Type ℓ} → Bytes → (Json → A) → Json → Option A
required key read j = elim (find j key) [ none ↦ none | some v ↦ some (read j) ]

abbrev context_id_key : Bytes
context_id_key = codes "n32fContextId"

unfoldable pub context_info : Codec Json N32fContextInfo
unfolding ◌==◌ find object
context_info = record {
  from_json =
      required context_id_key (λ j. record { n32f_context_id = text (at context_id_key j) });
  to_json = λ a. object ((context_id_key, string a.n32f_context_id) ∷ []);
  validate = λ a. not (is_empty a.n32f_context_id);
}

pub context_info-IsCodec : IsCodec json context_info
unfolding context_info is_object is_null
context_info-IsCodec = record {
  from_json-to_json = λ a. refl;
  is_object-to_json = λ a. refl;
  is_null-to_json = λ a. refl;
}

abbrev req_data :
    Bytes → Bytes → Option (List Bytes) → Option (List Bytes) → Option ℕ → SecParamExchReqData ℕ
req_data context_id sender jwe jws policy = record {
  n32f_context_id = context_id;
  sender = sender;
  jwe_cipher_suite_list = jwe;
  jws_cipher_suite_list = jws;
  protection_policy_info = policy;
}

unfoldable pub sec_param_exch_req : Codec Json (SecParamExchReqData ℕ)
unfolding ◌==◌ find object
sec_param_exch_req = record {
  from_json = required context_id_key (λ j.
      req_data (text (at context_id_key j)) (text (at (codes "sender") j))
        (optional_texts (at (codes "jweCipherSuiteList") j))
        (optional_texts (at (codes "jwsCipherSuiteList") j))
        (optional_number (at (codes "protectionPolicyInfo") j)));
  to_json = λ a. object (
      (context_id_key, string a.n32f_context_id)
      ∷ (codes "sender", string a.sender)
      ∷ (codes "jweCipherSuiteList", from_texts a.jwe_cipher_suite_list)
      ∷ (codes "jwsCipherSuiteList", from_texts a.jws_cipher_suite_list)
      ∷ (codes "protectionPolicyInfo", from_number a.protection_policy_info)
      ∷ []);
  validate = λ a. not (is_empty a.sender);
}

pub sec_param_exch_req-IsCodec : IsCodec json sec_param_exch_req
unfolding sec_param_exch_req is_object is_null
sec_param_exch_req-IsCodec = record {
  from_json-to_json = λ a.
      ap
        (λ l. some (
          req_data a.n32f_context_id a.sender l
            (optional_texts (from_texts a.jws_cipher_suite_list))
            (optional_number (from_number a.protection_policy_info))))
        (optional_texts-from a.jwe_cipher_suite_list)
      ∙ ap
          (λ l. some (
            req_data a.n32f_context_id a.sender a.jwe_cipher_suite_list l
              (optional_number (from_number a.protection_policy_info))))
          (optional_texts-from a.jws_cipher_suite_list)
      ∙ ap
          (λ p.
            some (
              req_data a.n32f_context_id a.sender a.jwe_cipher_suite_list a.jws_cipher_suite_list
                p))
          (optional_number-from a.protection_policy_info);
  is_object-to_json = λ a. refl;
  is_null-to_json = λ a. refl;
}

abbrev rsp_data : Bytes → Bytes → Option Bytes → Option Bytes → Option ℕ → SecParamExchRspData ℕ
rsp_data context_id sender jwe jws policy = record {
  n32f_context_id = context_id;
  sender = sender;
  selected_jwe_cipher_suite = jwe;
  selected_jws_cipher_suite = jws;
  sel_protection_policy_info = policy;
}

unfoldable pub sec_param_exch_rsp : Codec Json (SecParamExchRspData ℕ)
unfolding ◌==◌ find object
sec_param_exch_rsp = record {
  from_json = required context_id_key (λ j.
      rsp_data (text (at context_id_key j)) (text (at (codes "sender") j))
        (optional_text (at (codes "selectedJweCipherSuite") j))
        (optional_text (at (codes "selectedJwsCipherSuite") j))
        (optional_number (at (codes "selProtectionPolicyInfo") j)));
  to_json = λ a. object (
      (context_id_key, string a.n32f_context_id)
      ∷ (codes "sender", string a.sender)
      ∷ (codes "selectedJweCipherSuite", from_text a.selected_jwe_cipher_suite)
      ∷ (codes "selectedJwsCipherSuite", from_text a.selected_jws_cipher_suite)
      ∷ (codes "selProtectionPolicyInfo", from_number a.sel_protection_policy_info)
      ∷ []);
  validate = λ a. true;
}

pub sec_param_exch_rsp-IsCodec : IsCodec json sec_param_exch_rsp
unfolding sec_param_exch_rsp is_object is_null
sec_param_exch_rsp-IsCodec = record {
  from_json-to_json = λ a.
      ap
        (λ l. some (
          rsp_data a.n32f_context_id a.sender l
            (optional_text (from_text a.selected_jws_cipher_suite))
            (optional_number (from_number a.sel_protection_policy_info))))
        (optional_text-from a.selected_jwe_cipher_suite)
      ∙ ap
          (λ l. some (
            rsp_data a.n32f_context_id a.sender a.selected_jwe_cipher_suite l
              (optional_number (from_number a.sel_protection_policy_info))))
          (optional_text-from a.selected_jws_cipher_suite)
      ∙ ap
          (λ p. some (
            rsp_data a.n32f_context_id a.sender a.selected_jwe_cipher_suite
              a.selected_jws_cipher_suite p))
          (optional_number-from a.sel_protection_policy_info);
  is_object-to_json = λ a. refl;
  is_null-to_json = λ a. refl;
}

unfoldable pub flat_jwe : Codec Json (FlatJweJson Json)
unfolding ◌==◌ find object
flat_jwe = record {
  from_json = required (codes "ciphertext") (λ j. record {
    r_protected = text (at (codes "protected") j);
    aad = text (at (codes "aad") j);
    unprotected = at (codes "unprotected") j;
    ciphertext = text (at (codes "ciphertext") j);
    iv = text (at (codes "iv") j);
    tag = text (at (codes "tag") j);
  });
  to_json = λ a. object (
      (codes "protected", string a.r_protected)
      ∷ (codes "unprotected", a.unprotected)
      ∷ (codes "aad", string a.aad)
      ∷ (codes "iv", string a.iv)
      ∷ (codes "ciphertext", string a.ciphertext)
      ∷ (codes "tag", string a.tag)
      ∷ []);
  validate = λ a. true;
}

pub flat_jwe-IsCodec : IsCodec json flat_jwe
unfolding flat_jwe is_object is_null
flat_jwe-IsCodec = record {
  from_json-to_json = λ a. refl;
  is_object-to_json = λ a. refl;
  is_null-to_json = λ a. refl;
}

unfoldable pub sec_negotiate_req : Codec Json (SecNegotiateReqData Bytes)
unfolding ◌==◌ find object
sec_negotiate_req = record {
  from_json = required (codes "sender") (λ j. record {
    sender = text (at (codes "sender") j);
    target_api_root_supported = optional_bool (at (codes "3GppSbiTargetApiRootSupported") j);
    intended_usage_purpose = texts (at (codes "intendedUsagePurpose") j);
  });
  to_json = λ a. object (
      (codes "sender", string a.sender)
      ∷ (codes "intendedUsagePurpose", strings a.intended_usage_purpose)
      ∷ []);
  validate = λ a. not (is_empty a.sender);
}

abbrev pub models : Models json
models = record {
  IntendedN32Purpose = Bytes;
  ProtectionPolicy = ℕ;
  SecNegotiateRspData = Bytes;
  purpose_from_json = required (codes "usagePurpose") (λ j. text (at (codes "usagePurpose") j));
  policy_without_mappings = 0;
  sec_negotiate_req = sec_negotiate_req;
  sec_negotiate_rsp = record {
    from_json = required (codes "sender") (λ j. text (at (codes "sender") j));
    to_json = λ s. object ((codes "sender", string s) ∷ []);
    validate = λ s. true;
  };
  sec_param_exch_req = sec_param_exch_req;
  sec_param_exch_rsp = sec_param_exch_rsp;
  context_info = context_info;
  reformatted_req = flat_jwe;
  reformatted_rsp = flat_jwe;
}
