-- ===== src/CommandLine/Checks.antt =====
-- arguments_configuration.cpp, the checks of the struct Arg: the status of an option, and what is
-- logged as an error if a message is wanted.
use Prim.Native.String.{◌++◌}
use fast_dds_spy.Prelude.{
  String, List, [], ◌∷◌, Bool, ◌&&◌, not, if◌then◌else◌, Option, none, some, any,
}
use fast_dds_spy.Order.{◌=?◌}
use fast_dds_spy.Order.Texts.{string_order}
use fast_dds_spy.External.Options.{OptionTools, GivenOption, ArgStatus, arg_ok, arg_illegal}

pub record Checked : Type 0 where
  pub status : ArgStatus
  pub logged : Option String

abbrev accepted : Checked
accepted = record { status = arg_ok; logged = none }

-- Refused, with a message if it is wanted.
abbrev refused : Bool → String → Checked
refused msg text = record { status = arg_illegal; logged = if msg then some text else none }

-- operator<< of an option writes its short name.
abbrev naming : GivenOption → String → String → String
naming o before after = before ++ (o.short_name ++ after)

unfoldable pub check_unknown : GivenOption → Bool → Checked
check_unknown o msg =
    refused msg (naming o "Unknown option '" "'. Use -h to see this executable possible arguments.")

unfoldable pub check_required : GivenOption → Bool → Checked
check_required o msg = elim o.arg [
  | none ↦ refused msg (naming o "Option '" "' required.")
  | some arg ↦ if not (arg =? "") then accepted else refused msg (naming o "Option '" "' required.")
]

unfoldable pub check_string : GivenOption → Bool → Checked
check_string o msg = elim o.arg [
  | none ↦ refused msg (naming o "Option '" "' requires a text argument.")
  | some arg ↦ accepted
]

-- endptr is the argument itself if nothing was read; a null argument leaves both null.
abbrev is_all_read : String → String → Bool
is_all_read arg rest = not (rest =? arg) && (rest =? "")

unfoldable pub braced : List String → String
braced [] = ""
braced (valid_option ∷ rest) = "\"" ++ (valid_option ++ ("\";" ++ braced rest))

unfoldable pub check_valid_options : List String → GivenOption → Bool → Checked
unfolding braced
check_valid_options valid_options o msg = elim o.arg [
  | none ↦ refused msg ("Option '" ++ (o.name ++ "' requires a text argument."))
  | some arg ↦
      if any (λ v. v =? arg) valid_options
      then accepted
      else refused msg (
          "Option '"
          ++ (o.name ++ ("' requires a one of this values: {" ++ (braced valid_options ++ "}."))))
]

module _ ⦃O : OptionTools⦄ where
  unfoldable pub check_numeric : GivenOption → Bool → Checked
  check_numeric o msg = elim o.arg [
    | none ↦ refused msg (naming o "Option '" "' requires a numeric argument.")
    | some arg ↦
        if is_all_read arg (O.strtol_rest arg)
        then accepted
        else refused msg (naming o "Option '" "' requires a numeric argument.")
  ]

  unfoldable pub check_float : GivenOption → Bool → Checked
  check_float o msg = elim o.arg [
    | none ↦ refused msg (naming o "Option '" "' requires a float argument.")
    | some arg ↦
        if is_all_read arg (O.strtof_rest arg)
        then accepted
        else refused msg (naming o "Option '" "' requires a float argument.")
  ]

  unfoldable pub check_readable_file : GivenOption → Bool → Checked
  check_readable_file o msg = elim o.arg [
    | none ↦ refused msg (naming o "Option '" "' requires an existing readable file as argument.")
    | some arg ↦
        if O.is_file_readable arg
        then accepted
        else refused msg (naming o "Option '" "' requires an existing readable file as argument.")
  ]

  unfoldable pub check_log_kind : GivenOption → Bool → Checked
  unfolding check_valid_options
  check_log_kind o msg = check_valid_options O.string_vector_log_kind o msg
