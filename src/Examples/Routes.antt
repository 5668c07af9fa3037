-- ===== src/Examples/Routes.antt =====
-- A multiplexer, and a request that reaches no handshake.
use oai_cn5g_sepp.Base.{◌≡◌, ◌≢◌, refl, true, Option, none, some, [], ◌∷◌, Bytes, codes, inl}
use oai_cn5g_sepp.Handshake as H
use oai_cn5g_sepp.Handshake.{Handshake}
use oai_cn5g_sepp.Forward as F
use oai_cn5g_sepp.Server.{ServerRequest}
use oai_cn5g_sepp.Server.Routes.{Routes, find_route, is_clean, ServeMux, IsServeMux}
use oai_cn5g_sepp.Forward.Url.{pieces_from}
use oai_cn5g_sepp.Nbi.Routes.{serve}
use oai_cn5g_sepp.Nbi.Isolation.{KeepsAllButForward, serve-KeepsAllButForward}
use oai_cn5g_sepp.App.{App}
use oai_cn5g_sepp.Examples.Models.{models}
use oai_cn5g_sepp.Examples.Crypto.{bio, evp}
use oai_cn5g_sepp.Examples.Nrf.{nrf}
use oai_cn5g_sepp.Examples.Servers.{cfg}

-- The first registration of the path, and else of `/`.
abbrev choose : {H : Type 0} → Routes H → Bytes → Option H
choose routes path = elim (find_route path routes) [
  | some h ↦ some h
  | none ↦ find_route (codes "/") routes
]

abbrev pub mux : {H : Type 0} → ServeMux H
mux = record { select = choose; not_found = record { status = 404; headers = []; body = [] } }

pub mux-IsServeMux : {H : Type 0} → IsServeMux {H = H} mux
mux-IsServeMux = record {
  select-fixed = λ routes path h clean found. rw (choose, found) refl;
  select-root = λ routes path h clean only unnamed found. rw (choose, unnamed, found) refl;
}

abbrev pub producer : App
producer = record {
  handshake = some H.initial;
  forward = some F.initial;
  remote_sepp_url = none;
  telescopic_mapping = some [];
}

abbrev get : ServerRequest
get = record {
  method = codes "GET";
  path = codes "/n32c-handshake/v1/n32f-terminate";
  raw_query = [];
  headers = [];
  chunks = codes "{}" ∷ [];
}

get_clean : is_clean get.path ≡ true
unfolding is_clean pieces_from
get_clean = refl

get_no_post : codes "GET" ≢ codes "POST"
get_no_post e = cc

serve-KeepsAllButForward_example :
    (b : App) × ((serve models cfg evp bio nrf
        (codes "error")
        mux
        (codes "2e")
        none
        get
        (some producer)).1
      ≡ some b)
    × KeepsAllButForward producer b
serve-KeepsAllButForward_example =
    serve-KeepsAllButForward models cfg evp bio nrf (codes "error") mux-IsServeMux (codes "2e") none
      get producer get_clean (inl get_no_post)
