-- ===== src/InternalTopics.antt =====
-- The internal topics, over which what is discovered reaches the model: types/ParticipantInfo.cpp and
-- types/EndpointInfo.cpp of fastddsspy_participants, the create_reader of SpyDdsXmlParticipant.cpp
-- and of SpyDdsParticipant.cpp, and the create_writer of SpyParticipant.cpp.
pub mod Routes
use fast_dds_spy.Prelude.{String, Bool, if◌then◌else◌}
use fast_dds_spy.Order.{◌=?◌}
use fast_dds_spy.Order.Texts.{string_order}
use fast_dds_spy.External.Topics.{Topics, DdsTopic}
use fast_dds_spy.External.InternalTopics.{TopicTools}

abbrev pub participant_info_topic_name : String
participant_info_topic_name = "__internal__/participant_info"

abbrev pub internal_topic_type_participants_info : String
internal_topic_type_participants_info = "participant::type::v0"

abbrev pub endpoint_info_topic_name : String
endpoint_info_topic_name = "__internal__/endpoint_info"

abbrev pub internal_topic_type_endpoint_info : String
internal_topic_type_endpoint_info = "endpoint::type::v0"

-- Which reader or writer a participant answers: one of its own, or that of its parent class.
pub data Route : Type 0 where
  participants_route endpoints_route parent_route : Route

module _ ⦃T : Topics⦄ ⦃I : TopicTools⦄ where
  unfoldable pub participant_info_topic : DdsTopic
  participant_info_topic =
      I.make_topic participant_info_topic_name "__internal__::participant_info"
        internal_topic_type_participants_info

  unfoldable pub is_participant_info_topic : DdsTopic → Bool
  is_participant_info_topic topic =
      I.internal_type_discriminator topic =? internal_topic_type_participants_info

  unfoldable pub endpoint_info_topic : DdsTopic
  endpoint_info_topic =
      I.make_topic endpoint_info_topic_name "__internal__::endpoint_info"
        internal_topic_type_endpoint_info

  unfoldable pub is_endpoint_info_topic : DdsTopic → Bool
  is_endpoint_info_topic topic =
      I.internal_type_discriminator topic =? internal_topic_type_endpoint_info

  -- SpyDdsXmlParticipant
  unfoldable pub xml_create_reader : DdsTopic → Route
  unfolding is_participant_info_topic is_endpoint_info_topic
  xml_create_reader topic =
      if is_participant_info_topic topic
      then participants_route
      else (if is_endpoint_info_topic topic then endpoints_route else parent_route)

  -- SpyDdsParticipant
  unfoldable pub rtps_create_reader : DdsTopic → Route
  unfolding is_participant_info_topic is_endpoint_info_topic
  rtps_create_reader topic =
      if is_participant_info_topic topic
      then participants_route
      else (if is_endpoint_info_topic topic then endpoints_route else parent_route)

  -- SpyParticipant
  unfoldable pub create_writer : DdsTopic → Route
  unfolding is_participant_info_topic is_endpoint_info_topic
  create_writer topic =
      if is_participant_info_topic topic
      then participants_route
      else (if is_endpoint_info_topic topic then endpoints_route else parent_route)
