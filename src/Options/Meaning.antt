-- ===== src/Options/Meaning.antt =====
-- What the command line means: a description of `parse` that does not run through states.
use oai_cn5g_sepp.Base.{
  ℕ, ◌≡◌, refl, arith, Bool, true, false, ◌&&◌, ◌||◌, none, some, List, [], ◌∷◌, ◌=?◌, =?-eq, any,
  all, Bytes, Bool-cases, inl, inr, if◌then◌else◌,
}
use oai_cn5g_sepp.Options.{
  Options, initial, option_step, parse_input_options, validate_options, parse,
}

abbrev is_letter : ℕ → ℕ × Bytes → Bool
is_letter letter (c, optarg) = c =? letter

-- One of the options that the usage text lists in their short form.
abbrev is_known : ℕ × Bytes → Bool
is_known (c, optarg) = c =? b'c' || (c =? b'o' || c =? b'r')

-- The argument of the last `-c`, and else the text before.
unfoldable pub last_config : List (ℕ × Bytes) → Bytes → Bytes
last_config [] text = text
last_config ((c, optarg) ∷ rest) text = last_config rest (if c =? b'c' then optarg else text)

-- The options that a command line without `-h` sets, from those that are set.
unfoldable pub set_by : List (ℕ × Bytes) → Options → Options
set_by arguments s = record {
  has_config = s.has_config || any (is_letter b'c') arguments;
  has_stdout = s.has_stdout || any (is_letter b'o') arguments;
  has_rot_file = s.has_rot_file || any (is_letter b'r') arguments;
  libconfigcfg = last_config arguments s.libconfigcfg;
  log_rot_file_log = s.log_rot_file_log || any (is_letter b'r') arguments;
  log_stdout = s.log_stdout || any (is_letter b'o') arguments;
}

or_true : (b : Bool) → b || true ≡ true
or_true b = ground arith

and_false : (b : Bool) → b && false ≡ false
and_false b = ground arith

-- What the loop makes of the arguments.
abbrev Means : List (ℕ × Bytes) → Bool → Options → Type 0
Means arguments result s = parse_input_options arguments (result, s) ≡ (
    if any (is_letter b'h') arguments
    then none
    else some (result && all is_known arguments, set_by arguments s))

-- The option `c` in front, case by case.
Means-in_front :
    (c : ℕ) (optarg : Bytes) (rest : List (ℕ × Bytes)) (result : Bool) (s : Options)
    → ((result : Bool) (s : Options) → Means rest result s)
    → Means ((c, optarg) ∷ rest) result s
unfolding parse_input_options option_step set_by last_config
Means-in_front c optarg rest result s means = elim (Bool-cases (c =? b'h')) [
  | inl h ↦ rw (=?-eq c b'h' h) refl
  | inr h ↦ elim (Bool-cases (c =? b'c')) [
    | inl e ↦ rw (=?-eq c b'c' e, or_true s.has_config) (means result _)
    | inr e ↦ elim (Bool-cases (c =? b'o')) [
      | inl f ↦ rw (=?-eq c b'o' f, or_true s.has_stdout, or_true s.log_stdout) (means result _)
      | inr f ↦ elim (Bool-cases (c =? b'r')) [
        | inl g ↦
            rw (=?-eq c b'r' g, or_true s.has_rot_file, or_true s.log_rot_file_log) (means result _)
        | inr g ↦
            rw (parse_input_options, option_step, h, e, f, g, and_false result) (means false s)
      ]
    ]
  ]
]

parse_input_options-set_by :
    (arguments : List (ℕ × Bytes)) (result : Bool) (s : Options) → Means arguments result s
unfolding parse_input_options set_by last_config
parse_input_options-set_by [] result s = ground arith
parse_input_options-set_by ((c, optarg) ∷ rest) result s =
    Means-in_front c optarg rest result s (parse_input_options-set_by rest)

-- A command line with `-h` exits, whatever else stands in it. Any other is accepted just when each
-- of its options is `-c`, `-o` or `-r` and one is `-c`; the file is then that of the last `-c`, and
-- the logs go to the standard output and to a file as `-o` and `-r` are there or not.
pub parse-set_by :
    (arguments : List (ℕ × Bytes))
    → parse arguments initial ≡ (
        if any (is_letter b'h') arguments
        then none
        else some (
          all is_known arguments && any (is_letter b'c') arguments,
          record {
            has_config = any (is_letter b'c') arguments;
            has_stdout = any (is_letter b'o') arguments;
            has_rot_file = any (is_letter b'r') arguments;
            libconfigcfg = last_config arguments [];
            log_rot_file_log = any (is_letter b'r') arguments;
            log_stdout = any (is_letter b'o') arguments;
          },
        ))
unfolding parse validate_options set_by
parse-set_by arguments = elim (Bool-cases (any (is_letter b'h') arguments)) [
  | inl h ↦ rw (parse, parse_input_options-set_by arguments true initial, h) refl
  | inr h ↦ rw (parse, parse_input_options-set_by arguments true initial, h) refl
]
