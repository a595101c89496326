-- ===== src/External/YamlReading.antt =====
-- YamlReader and YamlManager of ddspipe_yaml, and the settings of ddspipe that a configuration
-- holds and does not look into; none of them is part of this repository. `none` is an exception.
use fast_dds_spy.Prelude.{ℕ, String, Bool, false, List, Option, some, ◌≡◌}
use fast_dds_spy.External.Topics.{Topics}
use fast_dds_spy.External.Options.{Fuzzy, VerbosityKind}

pub record YamlReading ⦃T : Topics⦄ : Type 1 where
  pub Yaml : Type 0
  -- A default-constructed document, which has no tag.
  pub empty_yaml : Yaml
  pub load_file : String → Option Yaml
  pub is_tag_present : Yaml → String → Option Bool
  pub is_tag_present-empty : (tag : String) → is_tag_present empty_yaml tag ≡ some false
  pub get_value_in_tag : Yaml → String → Option Yaml
  -- get, get_set and get_list of a type
  pub get_string : Yaml → String → Option String
  pub get_bool : Yaml → String → Option Bool
  pub get_unsigned : Yaml → String → Option ℕ
  pub get_duration_ms : Yaml → String → Option ℕ
  pub get_domain : Yaml → String → Option ℕ
  pub get_ip : Yaml → String → Option String
  pub get_texts : Yaml → String → Option (List String)
  pub get_interfaces : Yaml → String → Option (List String)
  pub get_filter_topics : Yaml → String → Option (List T.FilterTopic)
  pub ManualTopic : Type 0
  pub manual_topic_name : ManualTopic → String
  pub content_topic_filter : ManualTopic → String
  pub get_manual_topics : Yaml → String → Option (List ManualTopic)
  pub Transport : Type 0
  pub builtin_transport : Transport
  pub get_transport : Yaml → String → Option Transport
  pub ParticipantFlags : Type 0
  pub no_filter : ParticipantFlags
  pub get_flags : Yaml → String → Option ParticipantFlags
  pub LogConfiguration : Type 0
  pub get_log : Yaml → String → Option LogConfiguration
  -- log_configuration.set, of a verbosity and of the filters for errors, warnings and infos
  pub set_verbosity : Fuzzy VerbosityKind → LogConfiguration → LogConfiguration
  pub set_filter : Fuzzy String → Fuzzy String → Fuzzy String → LogConfiguration → LogConfiguration
  pub XmlConfiguration : Type 0
  pub fill_xml : XmlConfiguration → Yaml → Option XmlConfiguration
  pub TopicQos : Type 0
  pub fill_qos : TopicQos → Yaml → Option TopicQos
  pub DiscoveryTrigger : Type 0
  pub writer_trigger : DiscoveryTrigger
  -- The values of default-constructed fields.
  pub default_domain : ℕ
  pub default_transport : Transport
  pub default_flags : ParticipantFlags
  pub default_trigger : DiscoveryTrigger
  pub default_log : LogConfiguration
  pub default_xml : XmlConfiguration
  pub default_qos : TopicQos
  -- The tags that ddspipe_yaml declares.
  pub specs_tag : String
  pub xml_tag : String
  pub allowlist_tag : String
  pub blocklist_tag : String
  pub topics_tag : String
  pub domain_id_tag : String
  pub whitelist_interfaces_tag : String
  pub partitionlist_tag : String
  pub transport_tag : String
  pub easy_mode_tag : String
  pub ignore_participant_flags_tag : String
  pub number_threads_tag : String
  pub specs_qos_tag : String
  pub rtps_enabled_tag : String
  pub log_configuration_tag : String
