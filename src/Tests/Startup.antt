-- ===== src/Tests/Startup.antt =====
-- The start of the tool: command lines, configurations and the exits of the process.
use fast_dds_spy.Prelude.{
  pos, ℕ, ◌==◌, String, Bool, true, false, ◌&&◌, ◌||◌, List, [], ◌∷◌, Option, none, some, ◌≡◌, refl,
  if◌then◌else◌,
}
use fast_dds_spy.Order.{◌=?◌}
use fast_dds_spy.Order.Texts.{string_order, nat_order}
use fast_dds_spy.External.Options.{
  OptionTools, GivenOption, ParsedOptions, by_default, set_to, warning_kind, info_kind,
}
use fast_dds_spy.External.YamlReading.{YamlReading}
use fast_dds_spy.External.InternalTopics.{TopicTools}
use fast_dds_spy.CommandLine.{Args, initial_args, success, incorrect_argument}
use fast_dds_spy.CommandLine.Usage.{OptionIndex, domain, reload_time, Descriptor}
use fast_dds_spy.CommandLine.Parsing.{finished, parse_arguments}
use fast_dds_spy.CommandLine.Outcomes.{parse_arguments-code}
use fast_dds_spy.CommandLine.Domain.{IsInRange, parse_arguments-domain}
use fast_dds_spy.Configuration.{Configuration, default_configuration}
use fast_dds_spy.Configuration.Loading.{
  ◌>>=◌, load_tag, load_section, load_dds_configuration, load_specs_configuration,
  load_configuration,
}
use fast_dds_spy.Configuration.Precedence.{load_configuration-domain}
use fast_dds_spy.Controller.Arguments.{CommandValue, participant}
use fast_dds_spy.Tool.Starting.{ParticipantKind}
use fast_dds_spy.Tool.Main.{choose_file, launch, main}
use fast_dds_spy.Tool.Exits.{main-ends, can_start}
use fast_dds_spy.Tests.World.{
  number_guids, text_types, text_topics, number_times, text_patterns, participant_list,
  endpoint_list,
}

instance abbrev pub small_tools : OptionTools
small_tools = record {
  stol = λ s. if s =? "7" then some (pos 7) else none;
  strtol_rest = λ s. "";
  strtof_rest = λ s. "";
  is_file_readable = λ s. s =? "spy.yaml";
  string_vector_log_kind = "info" ∷ "warning" ∷ "error" ∷ [];
  from_string_log_kind = λ s. info_kind;
  max_domain_id = 232;
  to_duration_ms = λ n. 0;
}

-- A document is a number: 0 is empty, 1 has the section dds, which is 2 and has a domain, a partition
-- and a topic with a filter.
abbrev has_tag : ℕ → String → Bool
has_tag yml tag =
    yml == 1 && tag =? "dds"
    || yml == 2 && (tag =? "domain" || (tag =? "topics" || tag =? "partitionlist"))

instance abbrev pub small_reading : YamlReading
small_reading = record {
  Yaml = ℕ;
  empty_yaml = 0;
  load_file = λ path. some 1;
  is_tag_present = λ yml tag. some (has_tag yml tag);
  is_tag_present-empty = λ tag. refl;
  get_value_in_tag = λ yml tag. some 2;
  get_string = λ yml tag. none;
  get_bool = λ yml tag. none;
  get_unsigned = λ yml tag. none;
  get_duration_ms = λ yml tag. none;
  get_domain = λ yml tag. some 5;
  get_ip = λ yml tag. none;
  get_texts = λ yml tag. some ("A" ∷ []);
  get_interfaces = λ yml tag. none;
  get_filter_topics = λ yml tag. none;
  ManualTopic = String;
  manual_topic_name = λ t. t;
  content_topic_filter = λ t. "x > 5";
  get_manual_topics = λ yml tag. some ("Square" ∷ []);
  Transport = ℕ;
  builtin_transport = 1;
  get_transport = λ yml tag. none;
  ParticipantFlags = ℕ;
  no_filter = 1;
  get_flags = λ yml tag. none;
  LogConfiguration = ℕ;
  get_log = λ yml tag. none;
  set_verbosity = λ k log. log;
  set_filter = λ e w i log. log;
  XmlConfiguration = ℕ;
  fill_xml = λ c yml. some c;
  TopicQos = ℕ;
  fill_qos = λ c yml. some c;
  DiscoveryTrigger = ℕ;
  writer_trigger = 1;
  default_domain = 0;
  default_transport = 0;
  default_flags = 0;
  default_trigger = 0;
  default_log = 0;
  default_xml = 0;
  default_qos = 0;
  specs_tag = "specs";
  xml_tag = "xml";
  allowlist_tag = "allowlist";
  blocklist_tag = "blocklist";
  topics_tag = "topics";
  domain_id_tag = "domain";
  whitelist_interfaces_tag = "whitelist-interfaces";
  partitionlist_tag = "partitionlist";
  transport_tag = "transport";
  easy_mode_tag = "easy-mode";
  ignore_participant_flags_tag = "ignore-participant-flags";
  number_threads_tag = "number-threads";
  specs_qos_tag = "specs-qos";
  rtps_enabled_tag = "rtps-enabled";
  log_configuration_tag = "log-configuration";
}

-- A topic is its discriminator.
instance abbrev pub small_topics : TopicTools
small_topics = record {
  make_topic = λ name type discriminator. discriminator;
  internal_type_discriminator = λ t. t;
  make_topic-discriminator = λ n t d. refl;
  type_object_topic = "type";
  type_object_topic_name = "type";
}

abbrev start_args : Args
start_args = initial_args "" 0 (by_default warning_kind)

abbrev given : String → GivenOption
given arg = record { name = "option"; short_name = "option"; arg = some arg }

-- participants --domain 7
abbrev parser : List Descriptor → List String → ParsedOptions OptionIndex
parser table argv = record {
  parse_error = false;
  non_options = "participants" ∷ [];
  options = (domain, given "7") ∷ [];
}

-- --reload-time 7 --domain x
abbrev refused_parser : List Descriptor → List String → ParsedOptions OptionIndex
refused_parser table argv = record {
  parse_error = false;
  non_options = [];
  options = (reload_time, given "7") ∷ (domain, given "x") ∷ [];
}

abbrev pub spy_args : Args
spy_args = record start_args { one_shot_command = "participants" ∷ []; domain = set_to 7 }

parse_arguments-code_example :
    (a : Args) × (parse_arguments refused_parser [] start_args ≡ finished incorrect_argument a)
parse_arguments-code_example =
    parse_arguments-code refused_parser [] start_args ((pos 7, refl), (tt, tt))

parsed : parse_arguments parser [] start_args ≡ finished success spy_args
unfolding parse_arguments initial_args
parsed = refl

parse_arguments-domain_example :
    (spy_args.one_shot_command ≡ "participants" ∷ []) × IsInRange start_args spy_args
unfolding initial_args
parse_arguments-domain_example = parse_arguments-domain parser [] start_args spy_args parsed

got : Option Configuration → Configuration
got none = default_configuration
got (some c) = c

-- The document has the domain 5, the command line 7.
abbrev both_set : Configuration
both_set = got (load_configuration 1 (some spy_args) default_configuration)

both_set_loaded : load_configuration 1 (some spy_args) default_configuration ≡ some both_set
unfolding load_configuration load_section load_dds_configuration load_specs_configuration load_tag
    ◌>>=◌ got
both_set_loaded = refl

load_configuration-domain_example :
    ◌≡◌ {A = Option ℕ} (some 7) (some both_set.dds_configuration.domain)
unfolding initial_args
load_configuration-domain_example =
    load_configuration-domain 1 (some spy_args) default_configuration both_set both_set_loaded

abbrev pub init : ParticipantKind → Configuration → Bool
init kind c = true

abbrev pub table : String → Option CommandValue
table word = some participant

abbrev pub callback : ℕ
callback = 1

main-ends_example :
    main callback callback table (launch "232" init (finished success spy_args)) [] [] []
    ≡ some (if can_start "232" init (choose_file spy_args) then 0 else 20)
main-ends_example = main-ends callback callback table "232" init success spy_args [] [] []
