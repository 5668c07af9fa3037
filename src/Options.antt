-- ===== src/Options.antt =====
-- The command line (src/oai_sepp/options.cpp). `getopt_long` is a parameter: the arguments are what
-- it returns call after call before -1, each with `optarg`.
pub mod Meaning
use oai_cn5g_sepp.Base.{
  ℕ, Bool, true, false, ◌&&◌, Option, none, some, List, [], ◌∷◌, ◌=?◌, Bytes, if◌then◌else◌,
}

-- The static members; the first three are the bits of `options`.
pub record Options : Type 0 where
  pub has_config : Bool
  pub has_stdout : Bool
  pub has_rot_file : Bool
  pub libconfigcfg : Bytes
  pub log_rot_file_log : Bool
  pub log_stdout : Bool

abbrev pub initial : Options
initial = record {
  has_config = false;
  has_stdout = false;
  has_rot_file = false;
  libconfigcfg = [];
  log_rot_file_log = false;
  log_stdout = false;
}

-- One round of the loop, with the local `result`; `none` for `exit(0)`.
unfoldable pub option_step : ℕ → Bytes → Bool × Options → Option (Bool × Options)
option_step c optarg (result, s) =
    if c =? b'h'
    then none
    else if c =? b'c'
    then some (result, record s { libconfigcfg = optarg; has_config = true })
    else if c =? b'o'
    then some (result, record s { log_stdout = true; has_stdout = true })
    else if c =? b'r'
    then some (result, record s { log_rot_file_log = true; has_rot_file = true })
    else some (false, s)

unfoldable pub parse_input_options : List (ℕ × Bytes) → Bool × Options → Option (Bool × Options)
parse_input_options [] state = some state
parse_input_options ((c, optarg) ∷ rest) state = elim (option_step c optarg state) [
  | none ↦ none
  | some next ↦ parse_input_options rest next
]

unfoldable pub validate_options : Options → Bool
validate_options s = s.has_config

unfoldable pub parse : List (ℕ × Bytes) → Options → Option (Bool × Options)
parse arguments s = elim (parse_input_options arguments (true, s)) [
  | none ↦ none
  | some (ret, after) ↦ some (ret && validate_options after, after)
]
