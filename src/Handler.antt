-- ===== src/Handler.antt =====
-- A handler of the application: `bool handle(const json& req, json& resp, map& headers)`. Its
-- changes stay when it returns false and when an exception leaves it.
use oai_cn5g_sepp.Base.{Bool}
use oai_cn5g_sepp.Dict.{Headers}
use oai_cn5g_sepp.Json.{JsonLib}

pub data Outcome : Type 0 where
  returned : Bool → Outcome
  thrown : Outcome

pub record Handled (J : JsonLib) (S : Type 0) : Type 0 where
  pub state : S
  pub resp_data : J.Json
  pub resp_headers : Headers
  pub outcome : Outcome
