-- ===== src/Tool.antt =====
-- fastddsspy_tool: how the process starts, Backend.cpp and main.cpp.
pub mod Starting
pub mod Main
pub mod Consistency
pub mod Reload
pub mod Exits
pub mod Told
use fast_dds_spy.Prelude.{String, Bool, List, [], ◌∷◌, if◌then◌else◌, is_empty}
use fast_dds_spy.Order.{Order}
use fast_dds_spy.External.Topics.{Topics, DdsTopic, FilterTopic}
use fast_dds_spy.External.InternalTopics.{TopicTools}
use fast_dds_spy.External.YamlReading.{YamlReading}
use fast_dds_spy.Set
use fast_dds_spy.InternalTopics.{
  participant_info_topic, endpoint_info_topic, participant_info_topic_name,
  endpoint_info_topic_name,
}
use fast_dds_spy.Configuration.{Configuration, PipeConfiguration}

module _ ⦃T : Topics⦄ ⦃R : YamlReading⦄ ⦃I : TopicTools⦄ ⦃to : Order DdsTopic⦄
    ⦃fo : Order FilterTopic⦄ where
  -- An allowlist that is not empty must let the internal topics pass.
  unfoldable pub allow_internal_topics : List FilterTopic → List FilterTopic
  allow_internal_topics allowlist =
      if is_empty allowlist
      then allowlist
      else Set.insert (T.named_topic endpoint_info_topic_name) (
          Set.insert (T.named_topic participant_info_topic_name)
            (Set.insert (T.named_topic I.type_object_topic_name) allowlist))

  -- Backend::load_internal_topics_
  unfoldable pub load_internal_topics : Configuration → Configuration
  unfolding allow_internal_topics participant_info_topic endpoint_info_topic
  load_internal_topics c =
      let pipe : PipeConfiguration = c.ddspipe_configuration in
      record c {
        ddspipe_configuration = record pipe {
          builtin_topics = Set.insert I.type_object_topic (
              Set.insert endpoint_info_topic
                (Set.insert participant_info_topic pipe.builtin_topics));
          allowlist = allow_internal_topics pipe.allowlist;
        };
      }
