-- ===== src/Tests/Running.antt =====
-- The tool that runs: what its start, its commands and its reload pass on.
use fast_dds_spy.Prelude.{ℕ, String, true, List, [], ◌∷◌, Option, none, some, ◌≡◌, refl}
use fast_dds_spy.Order.Texts.{string_order, nat_order}
use fast_dds_spy.CommandLine.{Args, success}
use fast_dds_spy.CommandLine.Parsing.{finished}
use fast_dds_spy.Configuration.{PipeConfiguration, default_configuration}
use fast_dds_spy.Configuration.Loading.{
  ◌>>=◌, load_tag, load_section, load_dds_configuration, load_specs_configuration,
  load_configuration, load_configuration_from_file, apply_args, block_services, store_topics,
}
use fast_dds_spy.Controller.Arguments.{CommandValue, filter, help, exit}
use fast_dds_spy.Controller.Filters.{Controller}
use fast_dds_spy.Tool.Main.{Running, Launch, runs, launch, reload, run_controller}
use fast_dds_spy.Tool.Told.{run_controller-IsTold}
use fast_dds_spy.Controller.Told.{IsTold}
use fast_dds_spy.Controller.Session.{Input}
use fast_dds_spy.Tool.Consistency.{IsConsistent, launch-IsConsistent}
use fast_dds_spy.Tool.Reload.{Transmits, BlocksTopics, reload-Transmits}
use fast_dds_spy.Tests.Parsing.{small}
use fast_dds_spy.Tests.World.{
  number_guids, text_types, text_topics, number_times, text_patterns, participant_list,
  endpoint_list,
}
use fast_dds_spy.Tests.Startup.{
  small_tools, small_reading, small_topics, spy_args, init, table, callback,
}

-- With a configuration file.
abbrev file_args : Args
file_args = record spy_args { file_path = "spy.yaml" }

abbrev no_controller : Controller ℕ
no_controller = record {
  backend = [];
  model = small;
  dds_enabled = true;
  partition_filter_set = [];
  topic_filter_dict = [];
}

got_running : Launch ℕ → Running ℕ
got_running (runs r) = r
got_running _ = record {
  controller = no_controller;
  configuration = default_configuration;
  file_path = "";
  periodic = none;
  one_shot_command = [];
}

abbrev running : Running ℕ
running = got_running (launch "232" init (finished success file_args))

is_running : launch "232" init (finished success file_args) ≡ runs running
unfolding launch got_running load_configuration_from_file load_configuration load_section
    load_dds_configuration load_specs_configuration load_tag ◌>>=◌ apply_args block_services
    store_topics default_configuration
is_running = refl

kept : running.controller.partition_filter_set ≡ "A" ∷ []
unfolding launch got_running load_configuration_from_file load_configuration load_section
    load_dds_configuration load_specs_configuration load_tag ◌>>=◌ apply_args block_services
    store_topics default_configuration
kept = refl

launch-IsConsistent_example : IsConsistent running.controller
launch-IsConsistent_example =
    launch-IsConsistent "232" init (finished success file_args) running is_running

-- The user adds a partition, asks for help, and leaves.
abbrev input : CommandValue → List String → Input ℕ
input command options = record {
  before = [];
  command = command;
  word = "filter";
  options = options;
  waiting = [];
}

abbrev adds : List (Input ℕ)
adds = input filter ("add" ∷ "partitions" ∷ "B" ∷ []) ∷ input help [] ∷ input exit [] ∷ []

run_controller-IsTold_example :
    (c : Controller ℕ) × (run_controller callback callback table running [] [] adds ≡ some c)
    × IsTold c
run_controller-IsTold_example =
    run_controller-IsTold callback callback table "232" init (finished success file_args) running []
      [] adds is_running

got_pipe : Option PipeConfiguration → PipeConfiguration
got_pipe none = default_configuration.ddspipe_configuration
got_pipe (some p) = p

abbrev reloaded : PipeConfiguration
reloaded = got_pipe (reload "spy.yaml")

is_reloaded : reload "spy.yaml" ≡ some reloaded
unfolding reload load_configuration_from_file load_configuration load_section load_dds_configuration
    load_specs_configuration load_tag ◌>>=◌ got_pipe
is_reloaded = refl

reload-Transmits_example : Transmits reloaded × BlocksTopics reloaded
reload-Transmits_example = reload-Transmits "spy.yaml" reloaded is_reloaded
