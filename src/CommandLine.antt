-- ===== src/CommandLine.antt =====
-- The arguments of the process: CommandlineArgsSpy.cpp of fastddsspy_yaml, and of fastddsspy_tool
-- user_interface/arguments_configuration.cpp and ProcessReturnCode.hpp.
pub mod Checks
pub mod Usage
pub mod Parsing
pub mod Outcomes
pub mod Domain
use fast_dds_spy.Prelude.{ℕ, String, Bool, List, [], if◌then◌else◌, ltb}
use fast_dds_spy.External.Options.{
  Fuzzy, by_default, get_value, VerbosityKind, error_kind, warning_kind, info_kind,
}

pub data ProcessReturnCode : Type 0 where
  success help_argument version_argument incorrect_argument : ProcessReturnCode
  required_argument_failed execution_failed : ProcessReturnCode

-- The value of the enumeration, which the process returns.
unfoldable pub exit_code : ProcessReturnCode → ℕ
exit_code success = 0
exit_code help_argument = 1
exit_code version_argument = 2
exit_code incorrect_argument = 10
exit_code required_argument_failed = 11
exit_code execution_failed = 20

-- The map log_filter, which always has its three keys.
pub record LogFilter : Type 0 where
  pub error : Fuzzy String
  pub warning : Fuzzy String
  pub info : Fuzzy String

-- CommandlineArgsSpy, with the fields of its base class that the program uses.
pub record Args : Type 0 where
  pub file_path : String
  pub reload_time : ℕ
  pub log_filter : LogFilter
  pub log_verbosity : Fuzzy VerbosityKind
  pub one_shot_command : List String
  pub domain : Fuzzy ℕ

-- The constructor, over what the base class makes of its own fields.
unfoldable pub initial_args : String → ℕ → Fuzzy VerbosityKind → Args
initial_args file_path reload_time log_verbosity = record {
  file_path = file_path;
  reload_time = reload_time;
  log_filter = record {
    error = by_default "";
    warning = by_default "FASTDDSSPY";
    info = by_default "FASTDDSSPY";
  };
  log_verbosity = log_verbosity;
  one_shot_command = [];
  domain = by_default 0;
}

pub data Validity : Type 0 where
  valid : Validity
  invalid : String → Validity

-- is_valid, over the is_valid of the base class. The domain is unsigned, so the first of the two
-- tests of the source never holds.
unfoldable pub is_valid_args : (Args → Validity) → Args → Validity
is_valid_args base args =
    if ltb 232 (get_value args.domain)
    then invalid "Domain ID must be between 0 and 232"
    else base args
