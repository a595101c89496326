-- ===== src/CommandLine/Parsing.antt =====
-- arguments_configuration.cpp, parse_arguments. What it prints is not modelled.
use fast_dds_spy.Prelude.{
  ℤ, pos, negsuc, times, String, List, [], ◌∷◌, ◌++◌, Bool, true, false, if◌then◌else◌, Option,
  none, some, any, ltb,
}
use fast_dds_spy.External.Options.{OptionTools, GivenOption, ParsedOptions, set_to, info_kind}
use fast_dds_spy.CommandLine.{
  Args, LogFilter, ProcessReturnCode, success, help_argument, version_argument, incorrect_argument,
}
use fast_dds_spy.CommandLine.Usage.{
  OptionIndex, unknown_opt, help_opt, configuration_file, reload_time, activate_debug, version_opt,
  log_filter, log_verbosity, domain, Descriptor, usage,
}

-- A function ends with a code, and may not end at all if an exception leaves it.
pub data Parsed : Type 0 where
  finished : ProcessReturnCode → Args → Parsed
  thrown : Parsed

-- One turn of the loop goes on, or returns, or throws.
pub data Turn : Type 0 where
  goes_on : Args → Turn
  returns : ProcessReturnCode → Turn
  throws : Turn

abbrev pub is_help : OptionIndex → Bool
is_help help_opt = true
is_help _ = false

abbrev pub is_version : OptionIndex → Bool
is_version version_opt = true
is_version _ = false

-- The same filter for the three kinds, or the one of debug.
abbrev filters : String → String → String → LogFilter
filters error warning info = record {
  error = set_to error;
  warning = set_to warning;
  info = set_to info;
}

module _ ⦃O : OptionTools⦄ where
  -- The domain, from the value that stol reads.
  unfoldable pub take_domain : Args → Option ℤ → Turn
  take_domain args none = returns incorrect_argument
  take_domain args (some (negsuc n)) = returns incorrect_argument
  take_domain args (some (pos n)) =
      if ltb O.max_domain_id n
      then returns incorrect_argument
      else goes_on (record args { domain = set_to n })

  unfoldable pub take_reload_time : Args → Option ℤ → Turn
  take_reload_time args none = throws
  take_reload_time args (some n) =
      goes_on (record args { reload_time = O.to_duration_ms (times 1000 n) })

  -- An option that is read has an argument, since its check refuses a null one.
  unfoldable pub take_text : Args → OptionIndex → String → Turn
  unfolding take_domain take_reload_time
  take_text args unknown_opt arg = returns incorrect_argument
  take_text args help_opt arg = goes_on args
  take_text args configuration_file arg = goes_on (record args { file_path = arg })
  take_text args reload_time arg = take_reload_time args (O.stol arg)
  take_text args activate_debug arg = goes_on (record args {
    log_filter = filters "" "FASTDDSSPY" "FASTDDSSPY";
    log_verbosity = set_to info_kind;
  })
  take_text args version_opt arg = goes_on args
  take_text args log_filter arg = goes_on (record args { log_filter = filters arg arg arg })
  take_text args log_verbosity arg =
      goes_on (record args { log_verbosity = set_to (O.from_string_log_kind arg) })
  take_text args domain arg = take_domain args (O.stol arg)

  -- The argument, the empty text for an option without one.
  abbrev pub text_of : Option String → String
  text_of none = ""
  text_of (some arg) = arg

  unfoldable pub take_options : List (OptionIndex × GivenOption) → Args → Parsed
  unfolding take_text
  take_options [] args = finished success args
  take_options ((index, option) ∷ rest) args = elim (take_text args index (text_of option.arg)) [
    | goes_on args' ↦ take_options rest args'
    | returns code ↦ finished code args
    | throws ↦ thrown
  ]

  -- From the answer of the option parser on.
  unfoldable pub use_options : ParsedOptions OptionIndex → Args → Parsed
  unfolding take_options
  use_options parse args =
      let args' = record args { one_shot_command = args.one_shot_command ++ parse.non_options } in
      if parse.parse_error
      then finished incorrect_argument args
      else (if any (λ o. is_help o.0) parse.options
          then finished help_argument args'
          else (if any (λ o. is_version o.0) parse.options
              then finished version_argument args'
              else take_options parse.options args'))

  -- Over the option parser, which gets the usage and the arguments without the program's name.
  unfoldable pub parse_arguments :
      (List Descriptor → List String → ParsedOptions OptionIndex) → List String → Args → Parsed
  unfolding use_options
  parse_arguments parser argv args = use_options (parser usage argv) args
