-- ===== src/Profile/Found.antt =====
-- What `from_json` reads where a member is there, and how it reads the addresses.
use oai_cn5g_sepp.Base.{ℕ, ◌≡◌, refl, List, [], ◌∷◌, ◌++◌, map, Bytes, some}
use mathlib.Core.List.{append_assoc, append-nil}
use oai_cn5g_sepp.Json.{JsonLib, IsJson, CanHold}
use oai_cn5g_sepp.Json.Members.{IsJsonValue}
use oai_cn5g_sepp.Result.{Result, ok}
use oai_cn5g_sepp.Profile.{Net}
use oai_cn5g_sepp.Profile.Read.{read_string, read_int, read_address, read_each, read_array}

module _ {J : JsonLib} (V : IsJsonValue J) where
  pub CanHold-null : CanHold J J.null
  CanHold-null = rw V.is_null-null refl

module _ {J : JsonLib} (L : IsJson J) (V : IsJsonValue J) (net : Net J) where
  pub read_string-found :
      (j : J.Json) (k s before : Bytes)
      → J.find j k ≡ some (J.string s)
      → read_string net j k before ≡ ok s
  unfolding read_string
  read_string-found j k s before e = rw (read_string, e, L.get_string-string s) refl

  pub read_int-found :
      (j v : J.Json) (k : Bytes) (n before : ℕ)
      → J.find j k ≡ some v
      → J.get_int v ≡ some n
      → read_int net j k before ≡ ok n
  unfolding read_int
  read_int-found j v k n before e f = rw (read_int, e, f) refl

  pub read_array-found :
      {B : Type 0} (read : J.Json → Result B) (j : J.Json) (js : List J.Json) (k : Bytes)
      (before : List B)
      → J.find j k ≡ some (J.array js)
      → read_array net read j k before ≡ read_each read js before
  unfolding read_array
  read_array-found read j js k before e = rw (read_array, e, V.elements-array js) refl

module _ {J : JsonLib} (net : Net J) where
  abbrev pub address_json : net.Addr → J.Json
  address_json a = J.string (net.inet_ntoa a)

module _ {J : JsonLib} (L : IsJson J) (net : Net J)
    (read_back : (a : net.Addr) → net.inet_pton (net.trim (net.inet_ntoa a)) ≡ some a) where
  pub read_each-addresses :
      (addrs before : List net.Addr)
      → read_each (read_address net) (map (address_json net) addrs) before ≡ ok (before ++ addrs)
  unfolding read_each read_address
  read_each-addresses [] before = rw (append-nil before) refl
  read_each-addresses (a ∷ addrs) before =
      rw
        (
          L.get_string-string (net.inet_ntoa a),
          read_back a,
          read_each-addresses addrs (before ++ (a ∷ [])),
          append_assoc before (a ∷ []) addrs,
        )
        refl
