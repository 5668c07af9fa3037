-- ===== src/Examples/Settings.antt =====
-- A command line, and a configuration file as a tree of texts.
use oai_cn5g_sepp.Base.{
  ◌≡◌, refl, Bool, true, false, List, [], ◌∷◌, Option, none, some, ℕ, ◌==◌, Bytes, codes,
  if◌then◌else◌,
}
use oai_cn5g_sepp.Result.{Result, ok, thrown}
use oai_cn5g_sepp.Options.{initial, parse}
use oai_cn5g_sepp.Options.Meaning.{parse-set_by, last_config}
use oai_cn5g_sepp.SeppConfig
use oai_cn5g_sepp.SeppConfig.{
  Yaml, SeppConfig, p_sepp, is_tls_enabled, role_of, read_value, read_role, read_block, read_sepp,
  read_from_file,
}
use oai_cn5g_sepp.SeppConfig.Checks.{Checked, read_from_file-Checked}

-- `sepp -c /etc/sepp.yaml --libconfigcfg other.yaml`: the long option is refused, since the source
-- gives it the letter `f`.
abbrev arguments : List (ℕ × Bytes)
arguments = (b'c', codes "/etc/sepp.yaml") ∷ (b'f', codes "other.yaml") ∷ []

parse-set_by_example :
    parse arguments initial
    ≡ some (false, record initial { has_config = true; libconfigcfg = last_config arguments [] })
parse-set_by_example = parse-set_by arguments

data Node : Type 0 where
  scalar : Bytes → Node
  empty_map : Node
  entry : Bytes → Node → Node → Node

child : Node → Bytes → Result (Option Node)
child (scalar text) key = thrown
child empty_map key = ok none
child (entry name n rest) key =
    let later = child rest key in if name == key then ok (some n) else later

text_of : Node → Result Bytes
text_of (scalar text) = ok text
text_of n = thrown

bool_of : Node → Result Bool
bool_of (scalar text) =
    if text == codes "yes" then ok true else if text == codes "no" then ok false else thrown
bool_of n = thrown

abbrev yaml : Yaml
yaml = record { Node = Node; member = child; as_string = text_of; as_bool = bool_of }

abbrev file : Node
file =
    entry (codes "sepp")
      (entry (codes "role") (scalar (codes "p-sepp"))
        (entry (codes "disable_tls") (scalar (codes "yes")) empty_map))
      empty_map

abbrev read : SeppConfig
read = record SeppConfig.initial {
  role = codes "p-sepp";
  sepp_role_enum = p_sepp;
  disable_tls = true;
}

accepted : read_from_file yaml (codes "sepp") (ok file) SeppConfig.initial ≡ ok read
unfolding read_from_file read_block read_sepp read_role read_value role_of is_tls_enabled child
    text_of bool_of ◌==◌
accepted = refl

read_from_file-Checked_example : Checked read
read_from_file-Checked_example = read_from_file-Checked yaml (codes "sepp") (ok file) read accepted
