-- ===== src/Tool/Starting.antt =====
-- Backend.cpp, the constructor and reload_configuration, and Controller.cpp, the constructor.
use fast_dds_spy.Prelude.{ℕ, String, Bool, List, [], ◌∷◌, if◌then◌else◌}
use fast_dds_spy.Order.{Order}
use fast_dds_spy.External.Guids.{Guids, Guid, InstanceHandle}
use fast_dds_spy.External.DynTypes.{DynTypes}
use fast_dds_spy.External.Topics.{Topics, DdsTopic, FilterTopic}
use fast_dds_spy.External.Times.{Times}
use fast_dds_spy.External.Database.{Database}
use fast_dds_spy.External.InternalTopics.{TopicTools}
use fast_dds_spy.External.YamlReading.{YamlReading}
use fast_dds_spy.SpyModel.{SpyModel, ParticipantInfo, EndpointInfoData, spy_model}
use fast_dds_spy.CommandLine.{valid, invalid}
use fast_dds_spy.Configuration.{Configuration, PipeConfiguration, is_valid}
use fast_dds_spy.Controller.Backend.{
  TrackCalls, participant_update_partitions, participant_update_content_topicfilter,
}
use fast_dds_spy.Controller.Filters.{Controller}
use fast_dds_spy.Tool.{load_internal_topics}

-- A constructor answers an object, or throws.
pub data Started {ℓ} (A : Type ℓ) : Type ℓ where
  started : A → Started A
  configuration_exception : String → Started A
  initialization_exception : Started A

-- SpyDdsXmlParticipant or SpyDdsParticipant
pub data ParticipantKind : Type 0 where
  xml_participant rtps_participant : ParticipantKind

-- The loop that passes on the content filters of the configuration.
unfoldable pub pass_filters : List (String × String) → TrackCalls → TrackCalls
pass_filters [] calls = calls
pass_filters ((topic_name, expression) ∷ rest) calls =
    pass_filters rest (participant_update_content_topicfilter topic_name expression ∷ calls)

module _ ⦃T : Topics⦄ ⦃R : YamlReading⦄ where
  abbrev pub kind_of : Configuration → ParticipantKind
  kind_of c = if c.dds_enabled then xml_participant else rtps_participant

module _ ⦃G : Guids⦄ ⦃go : Order Guid⦄ ⦃ho : Order InstanceHandle⦄ ⦃D : DynTypes⦄ ⦃T : Topics⦄
    ⦃to : Order DdsTopic⦄ ⦃M : Times⦄ ⦃P : Database Guid ParticipantInfo⦄
    ⦃E : Database Guid EndpointInfoData⦄ ⦃R : YamlReading⦄ ⦃I : TopicTools⦄
    ⦃fo : Order FilterTopic⦄ where
  -- The members that the constructor sets; the database of participants is the list of their ids.
  pub record Backend (Callback : Type 0) : Type 0 where
    pub configuration : Configuration
    pub model : SpyModel Callback
    pub dds_participant : ParticipantKind
    pub calls : TrackCalls
    pub participant_database : List String

  module _ {Callback : Type 0} where
    -- Over the largest domain, its text, and whether init of the DDS participant goes through.
    unfoldable pub new_backend :
        ℕ
        → String
        → (ParticipantKind → Configuration → Bool)
        → Configuration
        → Started (Backend Callback)
    unfolding load_internal_topics is_valid spy_model pass_filters
    new_backend max_domain_id shown init c = elim (is_valid max_domain_id shown c) [
      | invalid error_msg ↦ configuration_exception error_msg
      | valid ↦
          if init (kind_of c) c
          then started (record {
            configuration = load_internal_topics c;
            model = spy_model c.ros2_types;
            dds_participant = kind_of c;
            calls =
                pass_filters c.dds_configuration.content_topic_filter_dict
                  (participant_update_partitions c.dds_configuration.allowed_partition_list ∷ []);
            participant_database = c.dds_configuration.id ∷ c.spy_configuration.id ∷ [];
          })
          else initialization_exception
    ]

    -- The members of the controller; what the backend was told is kept with them.
    unfoldable pub new_controller : Configuration → Backend Callback → Controller Callback
    new_controller c b = record {
      backend = b.calls;
      model = b.model;
      dds_enabled = c.dds_enabled;
      partition_filter_set = [];
      topic_filter_dict = [];
    }

module _ ⦃T : Topics⦄ ⦃to : Order DdsTopic⦄ ⦃R : YamlReading⦄ ⦃I : TopicTools⦄
    ⦃fo : Order FilterTopic⦄ where
  -- What the pipe is given.
  unfoldable pub reload_configuration : Configuration → PipeConfiguration
  unfolding load_internal_topics
  reload_configuration new_configuration =
      (load_internal_topics new_configuration).ddspipe_configuration
