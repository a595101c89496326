-- ===== src/CommandLine/Usage.antt =====
-- arguments_configuration.cpp, the options and their descriptions.
use Prim.Native.String.{◌++◌}
use fast_dds_spy.Prelude.{String, List, [], ◌∷◌, Bool}
use fast_dds_spy.External.Options.{OptionTools, GivenOption}
use fast_dds_spy.CommandLine.Checks.{
  Checked, check_string, check_numeric, check_readable_file, check_log_kind,
}

-- optionIndex
pub data OptionIndex : Type 0 where
  unknown_opt help_opt configuration_file reload_time activate_debug version_opt : OptionIndex
  log_filter log_verbosity domain : OptionIndex

-- Arg::None, the option takes no argument, or a check.
pub data ArgumentCheck : Type 0 where
  no_argument : ArgumentCheck
  checked_by : (GivenOption → Bool → Checked) → ArgumentCheck

-- option::Descriptor, without the type, which is 0 everywhere
pub record Descriptor : Type 0 where
  pub index : OptionIndex
  pub shortopt : String
  pub longopt : String
  pub check_arg : ArgumentCheck
  pub help : String

abbrev heading : String → Descriptor
heading text = record {
  index = unknown_opt;
  shortopt = "";
  longopt = "";
  check_arg = no_argument;
  help = text;
}

abbrev described : OptionIndex → String → String → ArgumentCheck → String → Descriptor
described index short long check text = record {
  index = index;
  shortopt = short;
  longopt = long;
  check_arg = check;
  help = text;
}

-- The last entry of the table, all zero, ends the list.
unfoldable pub usage : ⦃O : OptionTools⦄ → List Descriptor
usage =
    heading (
      "Usage: Fast DDS Spy \n"
      ++ ("Start an interactive CLI to introspect a DDS network.\n" ++ "General options:"))
    ∷ heading "\nApplication help and information."
    ∷ described help_opt "h" "help" no_argument
        ("  -h \t--help\t  \t" ++ "Print this help message.")
    ∷ described version_opt "v" "version" no_argument
        ("  -v \t--version\t  \t" ++ "Print version, branch and commit hash.")
    ∷ heading "\nApplication parameters"
    ∷ described configuration_file "c" "config-path" (checked_by check_readable_file) (
        "  -c \t--config-path\t  \t"
        ++ "Path to the Configuration File (yaml format) [Default: ./FASTDDSSPY_CONFIGURATION.yaml].")
    ∷ described reload_time "r" "reload-time" (checked_by check_numeric) (
        "  -r \t--reload-time\t  \t"
        ++ ("Time period in seconds to reload configuration file. "
            ++ ("This is needed when FileWatcher functionality is not available (e.g. config file is a symbolic link). "
                ++ "Value 0 does not reload file. [Default: 0].")))
    ∷ described domain "" "domain" (checked_by check_numeric)
        ("  \t--domain\t  \t" ++ ("Set the domain (0-232) to spy on. " ++ "[Default = 0]."))
    ∷ heading "\nDebug parameters"
    ∷ described activate_debug "d" "debug" no_argument (
        "  -d \t--debug\t  \t"
        ++ ("Set log verbosity to Info \t"
            ++ "(Using this option with --log-filter and/or --log-verbosity will head to undefined behaviour)."))
    ∷ described log_filter "" "log-filter" (checked_by check_string) (
        "  \t--log-filter\t  \t"
        ++ ("Set a Regex Filter to filter by category the info and warning log entries. "
            ++ "[Default = \"FASTDDSSPY\"]. "))
    ∷ described log_verbosity "" "log-verbosity" (checked_by check_log_kind) (
        "  \t--log-verbosity\t  \t"
        ++ ("Set a Log Verbosity Level higher or equal the one given. "
            ++ ("(Values accepted: \"info\",\"warning\",\"error\" no Case Sensitive) "
                ++ "[Default = \"warning\"]. ")))
    ∷ heading "\n"
    ∷ []
