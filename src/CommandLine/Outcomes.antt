-- ===== src/CommandLine/Outcomes.antt =====
-- What parse_arguments answers for which arguments.
use fast_dds_spy.Prelude.{
  ℤ, pos, negsuc, times, String, List, [], ◌∷◌, Bool, true, false, ◌&&◌, not, if◌then◌else◌, Option,
  none, some, any, All, ltb, ◌≡◌, inl, inr, refl, arith, Bool-cases, Option-cases,
}
use fast_dds_spy.External.Options.{
  OptionTools, GivenOption, ParsedOptions, set_to, ArgStatus, arg_ok, arg_illegal,
}
use fast_dds_spy.CommandLine.{
  Args, ProcessReturnCode, success, help_argument, version_argument, incorrect_argument,
}
use fast_dds_spy.CommandLine.Checks.{
  Checked, check_unknown, check_required, check_numeric, check_float, check_string,
  check_readable_file, check_log_kind, check_valid_options,
}
use fast_dds_spy.CommandLine.Usage.{
  OptionIndex, unknown_opt, reload_time, domain, Descriptor, usage,
}
use fast_dds_spy.CommandLine.Parsing.{
  finished, take_domain, take_reload_time, take_text, text_of, take_options, use_options,
  parse_arguments, is_help, is_version,
}

abbrev is_illegal : ArgStatus → Bool
is_illegal arg_ok = false
is_illegal arg_illegal = true

abbrev is_logged : Option String → Bool
is_logged none = false
is_logged (some text) = true

-- A check logs an error exactly when it refuses the option and a message is wanted.
abbrev pub IsReported : Checked → Bool → Type 0
IsReported c msg = is_logged c.logged ≡ is_illegal c.status && msg

module _ ⦃O : OptionTools⦄ where
  -- Every check of an option's argument logs an error exactly when it refuses the option and a
  -- message is wanted.
  pub checks-IsReported :
      (option : GivenOption) (valid_options : List String) (msg : Bool)
      → IsReported (check_unknown option msg) msg
        × IsReported (check_required option msg) msg
        × IsReported (check_numeric option msg) msg
        × IsReported (check_float option msg) msg
        × IsReported (check_string option msg) msg
        × IsReported (check_readable_file option msg) msg
        × IsReported (check_log_kind option msg) msg
        × IsReported (check_valid_options valid_options option msg) msg
  unfolding check_unknown check_required check_numeric check_float check_string check_readable_file
      check_log_kind check_valid_options
  checks-IsReported option valid_options msg = (
    ground arith,
    ground arith,
    ground arith,
    ground arith,
    ground arith,
    ground arith,
    ground arith,
    ground arith,
  )

  -- The reload time is a number that stol reads.
  abbrev pub HasTime : OptionIndex × GivenOption → Type 0
  HasTime (reload_time, option) = (n : ℤ) × (O.stol (text_of option.arg) ≡ some n)
  HasTime _ = Unit

  abbrev in_range : Option ℤ → Bool
  in_range none = false
  in_range (some (negsuc n)) = false
  in_range (some (pos n)) = not (ltb O.max_domain_id n)

  -- A known option, and the domain in its range.
  abbrev is_allowed : OptionIndex → GivenOption → Bool
  is_allowed unknown_opt option = false
  is_allowed domain option = in_range (O.stol (text_of option.arg))
  is_allowed _ option = true

  abbrev pub all_allowed : List (OptionIndex × GivenOption) → Bool
  all_allowed [] = true
  all_allowed ((index, option) ∷ rest) = is_allowed index option && all_allowed rest

  abbrev pub code_of : List (OptionIndex × GivenOption) → ProcessReturnCode
  code_of options = if all_allowed options then success else incorrect_argument

  take_options-code :
      (options : List (OptionIndex × GivenOption)) (args : Args)
      → All HasTime options
      → (a : Args) × (take_options options args ≡ finished (code_of options) a)
  unfolding take_options take_text take_domain take_reload_time
  take_options-code [] args h = (args, refl)
  take_options-code ((unknown_opt, option) ∷ rest) args h = (args, refl)
  take_options-code ((reload_time, option) ∷ rest) args ((n, e), h) =
      rw (e, take_options)
        (take_options-code rest (record args { reload_time = O.to_duration_ms (times 1000 n) }) h)
  take_options-code ((domain, option) ∷ rest) args h =
      elim (Option-cases (O.stol (text_of option.arg))) [
        | inl e ↦ rw (e, take_options) (args, refl)
        | inr (negsuc n, e) ↦ rw (e, take_options) (args, refl)
        | inr (pos n, e) ↦
            rw (e, take_options)
              (elim (Bool-cases (ltb O.max_domain_id n)) [
                | inl high ↦ rw (high, take_options) (args, refl)
                | inr low ↦
                    rw (low, take_options)
                      (take_options-code rest (record args { domain = set_to n }) h.1)
              ])
      ]
  take_options-code ((_, option) ∷ rest) args h = take_options-code rest _ h.1

  -- The code of a whole command line.
  abbrev pub expected_code : ParsedOptions OptionIndex → ProcessReturnCode
  expected_code p =
      if p.parse_error
      then incorrect_argument
      else (if any (λ o. is_help o.0) p.options
          then help_argument
          else (if any (λ o. is_version o.0) p.options
              then version_argument
              else code_of p.options))

  use_options-code :
      (p : ParsedOptions OptionIndex) (args : Args)
      → All HasTime p.options
      → (a : Args) × (use_options p args ≡ finished (expected_code p) a)
  unfolding use_options
  use_options-code p args h = elim (Bool-cases p.parse_error) [
    | inl e ↦ rw (e, use_options) (args, refl)
    | inr fine ↦
        rw (fine, use_options)
          (elim (Bool-cases (any (λ o. is_help o.0) p.options)) [
            | inl e ↦ rw e (_, refl)
            | inr no_help ↦ rw no_help (elim (Bool-cases (any (λ o. is_version o.0) p.options)) [
              | inl e ↦ rw e (_, refl)
              | inr no_version ↦ rw no_version (take_options-code p.options _ h)
            ])
          ])
  ]

  -- If every reload time is a number that stol reads, parse_arguments ends, whatever the arguments are.
  -- Its code is: incorrect_argument if the option parser refuses them; else help_argument if help is
  -- asked for; else version_argument if the version is; else success if every option is known and
  -- every domain lies between 0 and the largest, and incorrect_argument if not.
  pub parse_arguments-code :
      (parser : List Descriptor → List String → ParsedOptions OptionIndex) (argv : List String)
      (args : Args)
      → All HasTime (parser usage argv).options
      → (a : Args) × (parse_arguments parser argv args
          ≡ finished (expected_code (parser usage argv)) a)
  unfolding parse_arguments
  parse_arguments-code parser argv args h = use_options-code (parser usage argv) args h
