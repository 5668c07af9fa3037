-- ===== src/SeppConfig/ApiList.antt =====
-- The list of the SEPP's interfaces, `get_api_list` in src/sepp_app/sepp_config.cpp and in
-- src/api-server/sepp-http2-sbi-server.cpp. The NBI server serves what it lists.
use oai_cn5g_sepp.Base.{
  ◌≡◌, refl, Option, none, some, List, [], ◌∷◌, ◌++◌, Bytes, codes, find, take, drop, map,
  starts_with, ◌+◌,
}
use oai_cn5g_sepp.Json.{JsonLib}
use oai_cn5g_sepp.Server.{ServerResponse, json_headers}
use oai_cn5g_sepp.Server.Routes.{find_route}
use oai_cn5g_sepp.Handshake.Messages.{
  exchange_capability, exchange_params, n32f_terminate, n32f_error,
}
use oai_cn5g_sepp.Nbi.Routes.{NbiHandler, n32c, n32f_process, routes}

pub record Api : Type 0 where
  pub name : Bytes
  pub method : Bytes
  pub uri_path : Bytes
  pub details : Bytes

abbrev apis : List Api
apis =
    record {
      name = codes "n32c: Security Capability Negotiation";
      method = codes "POST";
      uri_path = codes "/n32c-handshake/<api_version>/exchange-capability";
      details = codes "Initiate the handshake procedure between two SEPPs";
    }
    ∷ record {
      name = codes "n32c: Parameter Exchange";
      method = codes "POST";
      uri_path = codes "/n32c-handshake/<api_version>/exchange-params";
      details = codes "Initiate the handshake procedure between two SEPPs";
    }
    ∷ record {
      name = codes "n32c: N32-f Error Report";
      method = codes "POST";
      uri_path = codes "/n32c-handshake/<api_version>/n32f-error";
      details = codes "Report the error to the remote SEPP";
    }
    ∷ record {
      name = codes "n32c: N32-f Context Terminate";
      method = codes "POST";
      uri_path = codes "/n32c-handshake/<api_version>/n32f-terminate";
      details = codes "Terminate the PDU Session context at the remote SEPP";
    }
    ∷ record {
      name = codes "n32f: Forwarding";
      method = codes "POST";
      uri_path = codes "/n32f-forward/<api_version>/n32f-process";
      details = codes "Forward the PDU Session data to the remote SEPP ";
    }
    ∷ record {
      name = codes "n32f: Forwarding";
      method = codes "OPTIONS";
      uri_path = codes "/n32f-forward/<api_version>/n32f-process";
      details = codes "Discover communication options supported by next hop (IPX or SEPP)";
    }
    ∷ []

module _ (J : JsonLib) where
  abbrev api_json : Api → J.Json
  api_json a = J.object (
      (codes "API", J.string a.name)
      ∷ (codes "Method", J.string a.method)
      ∷ (codes "URI Path", J.string a.uri_path)
      ∷ (codes "Details", J.string a.details)
      ∷ [])

  -- It always returns true.
  unfoldable pub get_api_list : J.Json → J.Json
  get_api_list api_list = J.insert api_list (codes "OAI-SEPP") (
      J.object (
        (codes "Organisation", J.string (codes "Openairinterface Software Aliance"))
        ∷ (
          codes "Description",
          J.string (codes "OAI-SEPP (Security Edge Protection Proxy) initial Release"),
        )
        ∷ (codes "Version", J.string (codes "1.0.0"))
        ∷ (codes "Supported APIs", J.array (map api_json apis))
        ∷ []))

  -- The response of the SBI server, which registers it for no route.
  unfoldable pub api_list_response : ServerResponse
  unfolding get_api_list
  api_list_response = record {
    status = 200;
    headers = json_headers;
    body = J.dump (get_api_list J.null);
  }

-- The path for the version 1: `v1` in place of `<api_version>`.
versioned : Bytes → Bytes
versioned path = elim (find path (codes "<api_version>")) [
  | none ↦ path
  | some n ↦ take n path ++ (codes "v1" ++ drop (n + 13) path)
]

found : List Api → List (Option NbiHandler)
found [] = []
found (a ∷ rest) = find_route (versioned a.uri_path) routes ∷ found rest

-- What the NBI server has registered for the listed paths, entry by entry: their own handlers.
listed_routes :
    found apis
    ≡ some (n32c exchange_capability)
      ∷ some (n32c exchange_params)
      ∷ some (n32c n32f_error)
      ∷ some (n32c n32f_terminate)
      ∷ some n32f_process
      ∷ some n32f_process
      ∷ []
unfolding found versioned find starts_with find_route
listed_routes = refl
