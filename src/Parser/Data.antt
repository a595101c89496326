-- ===== src/Parser/Data.antt =====
-- fastddsspy_participants/include/fastddsspy_participants/visualization/parser_data.hpp. The int
-- counters are numbers without a bound.
use fast_dds_spy.Prelude.{String, List, ℕ, Bool}
use fast_dds_spy.External.Guids.{Guids, Guid}
use fast_dds_spy.External.Topics.{Topics}
use fast_dds_spy.External.Times.{Times, DataTime, Float}

pub record SimpleParticipantData ⦃G : Guids⦄ : Type 0 where
  pub name : String
  pub guid : Guid

-- ComplexParticipantData::Endpoint
pub record ParticipantEndpoint : Type 0 where
  pub topic_name : String
  pub topic_type : String
  pub number : ℕ

pub record ComplexParticipantData ⦃G : Guids⦄ : Type 0 where
  pub name : String
  pub guid : Guid
  pub writers : List ParticipantEndpoint
  pub readers : List ParticipantEndpoint

-- SimpleEndpointData::Topic
pub record TopicData : Type 0 where
  pub topic_name : String
  pub topic_type : String

pub record SimpleEndpointData ⦃G : Guids⦄ : Type 0 where
  pub guid : Guid
  pub participant_name : String
  pub topic : TopicData

-- ComplexEndpointData::ExtendedTopic
pub record ExtendedTopic : Type 0 where
  pub topic_name : String
  pub topic_type : String
  pub partition : String

-- ComplexEndpointData::QoS
pub record Qos ⦃T : Topics⦄ : Type 0 where
  pub durability : T.DurabilityKind
  pub reliability : T.ReliabilityKind

pub record ComplexEndpointData ⦃G : Guids⦄ ⦃T : Topics⦄ : Type 0 where
  pub guid : Guid
  pub participant_name : String
  pub topic : ExtendedTopic
  pub qos : Qos

-- SimpleTopicData::Rate
pub record Rate ⦃M : Times⦄ : Type 0 where
  pub rate : Float
  pub unit : String

pub record SimpleTopicData ⦃M : Times⦄ : Type 0 where
  pub name : String
  pub type : String
  pub datawriters : ℕ
  pub datareaders : ℕ
  pub rate : Rate

-- ComplexTopicData::Endpoint
pub record TopicEndpoint ⦃G : Guids⦄ : Type 0 where
  pub guid : Guid
  pub partition : String

pub record ComplexTopicData ⦃G : Guids⦄ ⦃M : Times⦄ : Type 0 where
  pub name : String
  pub type : String
  pub datawriters : List TopicEndpoint
  pub datareaders : List TopicEndpoint
  pub rate : Rate
  pub discovered : Bool

pub record DdsDataData ⦃G : Guids⦄ ⦃M : Times⦄ : Type 0 where
  pub topic : TopicData
  pub writer : Guid
  pub partitions : String
  pub timestamp : DataTime

pub record TopicKeysData : Type 0 where
  pub topic_name : String
  pub key_fields : List String
  pub instances : List String
  pub instance_count : ℕ
