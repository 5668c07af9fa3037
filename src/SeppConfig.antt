-- ===== src/SeppConfig.antt =====
-- `sepp_config` (src/sepp_app/sepp_config.cpp and .hpp): the values of the SEPP's own section. YAML
-- and the classes of the configuration values are a parameter.
pub mod Checks
pub mod ApiList
use oai_cn5g_sepp.Base.{
  ◌≡◌, Bool, true, false, not, Option, none, some, [], Bytes, codes, ◌==◌, if◌then◌else◌,
}
use oai_cn5g_sepp.Result.{Result, ok, thrown, ◌>>=◌}

-- `YAML::Node`: `member` is `node[key]`, `none` for an undefined node, and it throws for a scalar;
-- `as_string` and `as_bool` are `from_yaml` of a `string_config_value` and of an
-- `option_config_value`.
pub record Yaml : Type 1 where
  pub Node : Type 0
  pub member : Node → Bytes → Result (Option Node)
  pub as_string : Node → Result Bytes
  pub as_bool : Node → Result Bool

-- `sepp_role_e`
pub data SeppRole : Type 0 where
  c_sepp p_sepp : SeppRole

pub record SeppConfig : Type 0 where
  pub role : Bytes
  pub sepp_role_enum : SeppRole
  pub security : Bytes
  pub disable_tls : Bool
  pub server_private_key : Bytes
  pub server_cert : Bytes
  pub client_cacert : Bytes

-- The constructor, before it reads the file.
abbrev pub initial : SeppConfig
initial = record {
  role = codes "c-sepp";
  sepp_role_enum = c_sepp;
  security = codes "PRINS";
  disable_tls = false;
  server_private_key = [];
  server_cert = [];
  client_cacert = [];
}

unfoldable pub is_tls_enabled : SeppConfig → Bool
is_tls_enabled s = not s.disable_tls

unfoldable pub role_of : Bytes → Result SeppRole
role_of role =
    if role == codes "c-sepp"
    then ok c_sepp
    else if role == codes "p-sepp"
    then ok p_sepp
    else thrown

module _ (Y : Yaml) where
  -- `if (node[key]) value.from_yaml(node[key]);`
  unfoldable pub read_value : {A : Type 0} → (Y.Node → Result A) → Y.Node → Bytes → A → Result A
  read_value from_yaml node key value = do
    child ← Y.member node key
    elim child [ none ↦ ok value | some n ↦ from_yaml n ]

  unfoldable pub read_role : Y.Node → SeppConfig → Result SeppConfig
  read_role node s = do
    role ← Y.as_string node
    role_enum ← role_of role
    ok (record s { role = role; sepp_role_enum = role_enum })

  unfoldable pub read_server : Y.Node → SeppConfig → Result SeppConfig
  read_server node s = do
    key ← read_value Y.as_string node (codes "private_key") s.server_private_key
    cert ← read_value Y.as_string node (codes "cert") s.server_cert
    ok (record s { server_private_key = key; server_cert = cert })

  unfoldable pub read_client : Y.Node → SeppConfig → Result SeppConfig
  read_client node s = do
    cacert ← read_value Y.as_string node (codes "cacert") s.client_cacert
    ok (record s { client_cacert = cacert })

  -- `if (node[key])` with a block that reads its members
  unfoldable pub read_block :
      (Y.Node → SeppConfig → Result SeppConfig) → Y.Node → Bytes → SeppConfig → Result SeppConfig
  read_block read node key s = do
    child ← Y.member node key
    elim child [ none ↦ ok s | some n ↦ read n s ]

  unfoldable pub read_tls : Y.Node → SeppConfig → Result SeppConfig
  read_tls node s = do
    served ← read_block read_server node (codes "server") s
    read_block read_client node (codes "client") served

  -- The section `sepp`.
  unfoldable pub read_sepp : Y.Node → SeppConfig → Result SeppConfig
  read_sepp node s = do
    with_role ← read_block read_role node (codes "role") s
    security ← read_value Y.as_string node (codes "security") with_role.security
    disabled ← read_value Y.as_bool node (codes "disable_tls") with_role.disable_tls
    let read = record with_role { security = security; disable_tls = disabled }
    if is_tls_enabled read then read_block read_tls node (codes "tls") read else ok read

  -- `LoadFile` yields the root, and `section` is `SEPP_CONFIG_NAME`.
  unfoldable pub read_from_file : Bytes → Result Y.Node → SeppConfig → Result SeppConfig
  read_from_file section file s = do root_node ← file; read_block read_sepp root_node section s
