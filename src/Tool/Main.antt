-- ===== src/Tool/Main.antt =====
-- fastddsspy_tool/src/cpp/main.cpp, with Controller::one_shot_run and Input::parse_as_command. The
-- set-up of the log and of the XML profiles, which are not part of this repository, is left out.
use fast_dds_spy.Prelude.{ℕ, String, Bool, List, [], ◌∷◌, Option, none, some, if◌then◌else◌, ltb}
use fast_dds_spy.Order.{Order, ◌=?◌}
use fast_dds_spy.Order.Texts.{string_order}
use fast_dds_spy.External.Guids.{Guids, Guid, InstanceHandle}
use fast_dds_spy.External.DynTypes.{DynTypes}
use fast_dds_spy.External.Topics.{Topics, DdsTopic, FilterTopic}
use fast_dds_spy.External.Times.{Times}
use fast_dds_spy.External.Database.{Database}
use fast_dds_spy.External.Patterns.{Patterns}
use fast_dds_spy.External.Options.{OptionTools}
use fast_dds_spy.External.InternalTopics.{TopicTools}
use fast_dds_spy.External.YamlReading.{YamlReading}
use fast_dds_spy.SpyModel.{ParticipantInfo, EndpointInfoData, Event}
use fast_dds_spy.CommandLine.{
  Args, ProcessReturnCode, success, help_argument, version_argument, execution_failed, exit_code,
}
use fast_dds_spy.CommandLine.Parsing.{Parsed, finished, thrown}
use fast_dds_spy.Configuration.{Configuration, PipeConfiguration}
use fast_dds_spy.Configuration.Loading.{load_configuration_from_file}
use fast_dds_spy.Controller.Arguments.{CommandValue, error_input}
use fast_dds_spy.Controller.Filters.{Controller, set_partition_filter, set_content_topic_filter}
use fast_dds_spy.Controller.Session.{Input, Output, run_input, run_session}
use fast_dds_spy.Tool.Starting.{
  started, configuration_exception, initialization_exception, ParticipantKind, new_backend,
  new_controller, reload_configuration,
}

-- The default file if there is none, and no file if it cannot be read.
unfoldable pub choose_file : ⦃O : OptionTools⦄ → Args → Args
choose_file ⦃O⦄ args =
    let path : String =
      (if args.file_path =? "" then "FASTDDSSPY_CONFIGURATION.yaml" else args.file_path) in
    record args { file_path = if O.is_file_readable path then path else "" }

-- Input::parse_as_command of a command that is not empty, over the table of CommandBuilder.
unfoldable pub parse_as_command : (String → Option CommandValue) → String → CommandValue
parse_as_command string_to_enumeration word = elim (string_to_enumeration word) [
  | none ↦ error_input
  | some value ↦ value
]

module _ ⦃T : Topics⦄ ⦃to : Order DdsTopic⦄ ⦃R : YamlReading⦄ ⦃I : TopicTools⦄
    ⦃fo : Order FilterTopic⦄ where
  -- What the reload callbacks give to the pipe; an error leaves it as it is.
  unfoldable pub reload : String → Option PipeConfiguration
  unfolding load_configuration_from_file reload_configuration
  reload file_path = elim (load_configuration_from_file file_path none) [
    | none ↦ none
    | some new_configuration ↦ some (reload_configuration new_configuration)
  ]

module _ ⦃G : Guids⦄ ⦃go : Order Guid⦄ ⦃ho : Order InstanceHandle⦄ ⦃D : DynTypes⦄ ⦃T : Topics⦄
    ⦃to : Order DdsTopic⦄ ⦃M : Times⦄ ⦃P : Database Guid ParticipantInfo⦄
    ⦃E : Database Guid EndpointInfoData⦄ ⦃R : YamlReading⦄ ⦃I : TopicTools⦄ ⦃fo : Order FilterTopic⦄
    ⦃O : OptionTools⦄ where
  -- What runs once everything is built; `periodic` is the period of the reload, in milliseconds.
  pub record Running (Callback : Type 0) : Type 0 where
    pub controller : Controller Callback
    pub configuration : Configuration
    pub file_path : String
    pub periodic : Option ℕ
    pub one_shot_command : List String

  -- The process returns, or runs, or an exception leaves it.
  pub data Launch (Callback : Type 0) : Type 0 where
    exits : ProcessReturnCode → Launch Callback
    runs : Running Callback → Launch Callback
    crashes : Launch Callback

  module _ {Callback : Type 0} (shown : String)
      (init : ParticipantKind → Configuration → Bool) where
    unfoldable pub launch_with : Args → Configuration → Launch Callback
    unfolding new_backend new_controller set_partition_filter set_content_topic_filter
    launch_with args c = elim (new_backend O.max_domain_id shown init c) [
      | configuration_exception error_msg ↦ exits execution_failed
      | initialization_exception ↦ exits execution_failed
      | started b ↦ runs (record {
        controller =
            set_content_topic_filter
              (set_partition_filter (new_controller c b) c.dds_configuration.allowed_partition_list)
              c.dds_configuration.content_topic_filter_dict;
        configuration = c;
        file_path = args.file_path;
        periodic = if ltb 0 args.reload_time then some args.reload_time else none;
        one_shot_command = args.one_shot_command;
      })
    ]

    unfoldable pub launch_args : Args → Launch Callback
    unfolding launch_with load_configuration_from_file
    launch_args args = elim (load_configuration_from_file args.file_path (some args)) [
      | none ↦ exits execution_failed
      | some c ↦ launch_with args c
    ]

    -- main, up to the run of the controller, from what parse_arguments answers.
    unfoldable pub launch : Parsed → Launch Callback
    unfolding launch_args choose_file
    launch thrown = crashes
    launch (finished help_argument args) = exits success
    launch (finished version_argument args) = exits success
    launch (finished success args) = launch_args (choose_file args)
    launch (finished code args) = exits code

  module _ {Callback : Type 0} ⦃W : Patterns⦄ where
    abbrev with_output : Option (Controller Callback × Output) → Option (Controller Callback)
    with_output none = none
    with_output (some (c, shown)) = some c

    -- run, or one_shot_run, which gives the network some time before its only command.
    unfoldable pub run_controller :
        Callback
        → Callback
        → (String → Option CommandValue)
        → Running Callback
        → List (Event Callback)
        → List (Event Callback)
        → List (Input Callback)
        → Option (Controller Callback)
    unfolding run_session run_input parse_as_command
    run_controller simple verbose string_to_enumeration r before waiting inputs =
        elim r.one_shot_command [
          | [] ↦ run_session simple verbose r.controller inputs
          | word ∷ options ↦ with_output (
              run_input simple verbose r.controller (record {
                before = before;
                command = parse_as_command string_to_enumeration word;
                word = word;
                options = options;
                waiting = waiting;
              }))
        ]

    abbrev after_run : Option (Controller Callback) → Option ℕ
    after_run none = none
    after_run (some c) = some (exit_code success)

    -- The number that the process returns; `none` is a crash.
    unfoldable pub main :
        Callback
        → Callback
        → (String → Option CommandValue)
        → Launch Callback
        → List (Event Callback)
        → List (Event Callback)
        → List (Input Callback)
        → Option ℕ
    unfolding run_controller exit_code
    main simple verbose string_to_enumeration (exits code) before waiting inputs =
        some (exit_code code)
    main simple verbose string_to_enumeration (runs r) before waiting inputs =
        after_run (run_controller simple verbose string_to_enumeration r before waiting inputs)
    main simple verbose string_to_enumeration crashes before waiting inputs = none
