-- ===== src/Configuration.antt =====
-- fastddsspy_yaml/src/cpp/YamlReaderConfiguration.cpp: the configuration, by default and from a YAML
-- file and the command line.
pub mod Loading
pub mod Results
pub mod Precedence
pub mod Services
pub mod Filters
use Prim.Native.String.{◌++◌}
use fast_dds_spy.Prelude.{ℕ, String, Bool, true, false, List, [], Option, none, if◌then◌else◌, ltb}
use fast_dds_spy.External.Topics.{Topics, FilterTopic, DdsTopic}
use fast_dds_spy.External.YamlReading.{YamlReading}
use fast_dds_spy.CommandLine.{Validity, valid, invalid}

module _ ⦃T : Topics⦄ ⦃R : YamlReading⦄ where
  -- XmlParticipantConfiguration, the fields that are set
  pub record DdsConfiguration : Type 0 where
    pub id : String
    pub app_id : String
    pub app_metadata : String
    pub is_repeater : Bool
    pub participant_profile : Option String
    pub content_topic_filter_dict : List (String × String)
    pub domain : ℕ
    pub whitelist : List String
    pub allowed_partition_list : List String
    pub transport : R.Transport
    pub easy_mode_ip : Option String
    pub ignore_participant_flags : R.ParticipantFlags

  -- DdsPipeConfiguration, the fields that are set
  pub record PipeConfiguration : Type 0 where
    pub allowlist : List FilterTopic
    pub blocklist : List FilterTopic
    pub builtin_topics : List DdsTopic
    pub manual_topics : List R.ManualTopic
    pub discovery_trigger : R.DiscoveryTrigger
    pub log_configuration : R.LogConfiguration

  pub record SpyConfiguration : Type 0 where
    pub id : String
    pub app_id : String
    pub app_metadata : String
    pub is_repeater : Bool

  -- default_topic_qos is what was written to the global of that name, if it was.
  pub record Configuration : Type 0 where
    pub ddspipe_configuration : PipeConfiguration
    pub xml_configuration : R.XmlConfiguration
    pub dds_enabled : Bool
    pub dds_configuration : DdsConfiguration
    pub spy_configuration : SpyConfiguration
    pub ros2_types : Bool
    pub n_threads : ℕ
    pub one_shot_wait_time_ms : ℕ
    pub topic_qos : R.TopicQos
    pub default_topic_qos : Option R.TopicQos

  unfoldable pub default_configuration : Configuration
  default_configuration = record {
    ddspipe_configuration = record {
      allowlist = [];
      blocklist = [];
      builtin_topics = [];
      manual_topics = [];
      discovery_trigger = R.default_trigger;
      log_configuration = R.default_log;
    };
    xml_configuration = R.default_xml;
    dds_enabled = true;
    dds_configuration = record {
      id = "SimpleParticipant";
      app_id = "FASTDDS_SPY";
      app_metadata = "";
      is_repeater = false;
      participant_profile = none;
      content_topic_filter_dict = [];
      domain = R.default_domain;
      whitelist = [];
      allowed_partition_list = [];
      transport = R.default_transport;
      easy_mode_ip = none;
      ignore_participant_flags = R.default_flags;
    };
    spy_configuration = record {
      id = "Fast-Spy-007";
      app_id = "FASTDDS_SPY";
      app_metadata = "";
      is_repeater = false;
    };
    ros2_types = false;
    n_threads = 12;
    one_shot_wait_time_ms = 1000;
    topic_qos = R.default_qos;
    default_topic_qos = none;
  }

  -- is_valid, over the largest domain and its text. The pointer dds_configuration is never null, as
  -- the constructor sets it.
  unfoldable pub is_valid : ℕ → String → Configuration → Validity
  is_valid max_domain_id shown c =
      if ltb max_domain_id c.dds_configuration.domain
      then invalid ("Domain ID must be between 0 and " ++ (shown ++ "."))
      else (if ltb c.n_threads 1 then invalid "Must be at least 1 thread. " else valid)
