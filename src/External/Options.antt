-- ===== src/External/Options.antt =====
-- The option parser (thirdparty, optionparser.h), the conversions of the standard library and of
-- cpp_utils, and Fuzzy and the log levels of cpp_utils, which the command line uses; none of them is
-- the program's own code.
use fast_dds_spy.Prelude.{ℤ, ℕ, String, Bool, true, false, List, Option}

-- Fuzzy: a value, and whether it was set or is the default.
pub data Fuzzy {ℓ} (A : Type ℓ) : Type ℓ where
  by_default : A → Fuzzy A
  set_to : A → Fuzzy A

abbrev pub is_set {ℓ} : {A : Type ℓ} → Fuzzy A → Bool
is_set (by_default a) = false
is_set (set_to a) = true

abbrev pub get_value {ℓ} : {A : Type ℓ} → Fuzzy A → A
get_value (by_default a) = a
get_value (set_to a) = a

pub data VerbosityKind : Type 0 where
  error_kind warning_kind info_kind : VerbosityKind

-- option::ArgStatus, as far as the program answers it
pub data ArgStatus : Type 0 where
  arg_ok arg_illegal : ArgStatus

-- option::Option: its name, with all that follows it in the argument, the name alone, and the
-- argument; `none` is a null pointer.
pub record GivenOption : Type 0 where
  pub name : String
  pub short_name : String
  pub arg : Option String

pub record OptionTools : Type 0 where
  -- std::stol; `none` is an exception.
  pub stol : String → Option ℤ
  -- What strtol and strtof leave at endptr.
  pub strtol_rest : String → String
  pub strtof_rest : String → String
  -- is_file_accessible, for reading
  pub is_file_readable : String → Bool
  pub string_vector_log_kind : List String
  pub from_string_log_kind : String → VerbosityKind
  pub max_domain_id : ℕ
  -- the conversion of a long to Duration_ms
  pub to_duration_ms : ℤ → ℕ

-- What option::Parser makes of the arguments, over the kind of an option.
pub record ParsedOptions (Index : Type 0) : Type 0 where
  pub parse_error : Bool
  pub non_options : List String
  pub options : List (Index × GivenOption)
