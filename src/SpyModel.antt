-- ===== src/SpyModel.antt =====
-- fastddsspy_participants: SpyModel.hpp and NetworkDatabase.hpp (the model that the user interface
-- reads), and SpyParticipant.cpp, which writes what is discovered into it.
pub mod History
pub mod Departure
pub mod Overtaken
pub mod Keyed
use fast_dds_spy.Prelude.{String, ℕ, List, [], ◌∷◌, Option, none, some, Bool, if◌then◌else◌}
use fast_dds_spy.Order.{Order}
use fast_dds_spy.External.Guids.{Guids, Guid, InstanceHandle}
use fast_dds_spy.External.DynTypes.{DynTypes, DynamicType}
use fast_dds_spy.External.Samples.{Sample}
use fast_dds_spy.External.Topics.{Topics, DdsTopic, FilterTopic, Endpoint, is_writer}
use fast_dds_spy.External.Times.{Times, DataTime}
use fast_dds_spy.External.Database.{Database}
use fast_dds_spy.DataStreamer
use fast_dds_spy.DataStreamer.{DataStreamer, Delivery}

module _ ⦃G : Guids⦄ where
  pub record ParticipantInfo : Type 0 where
    pub name : String
    pub guid : Guid
    pub active : Bool

-- EndpointInfo is ddspipe's Endpoint.
pub record EndpointInfoData ⦃G : Guids⦄ ⦃T : Topics⦄ : Type 0 where
  pub info : Endpoint
  pub type_idl : String

-- What the pipe and the user interface do to the model, one at a time.
pub data Event ⦃G : Guids⦄ ⦃D : DynTypes⦄ ⦃T : Topics⦄ ⦃M : Times⦄ (Callback : Type 0)
    : Type 0 where
  participant_info : ParticipantInfo → Event Callback
  endpoint_info : EndpointInfoData → Event Callback
  schema : DynamicType → Event Callback
  sample_received : DdsTopic → Sample DataTime → ℕ → Event Callback
  activate_all : Callback → Event Callback
  activate : FilterTopic → Callback → Event Callback
  deactivate : Event Callback

module _ ⦃G : Guids⦄ ⦃go : Order Guid⦄ ⦃D : DynTypes⦄ ⦃T : Topics⦄ ⦃M : Times⦄
    ⦃P : Database Guid ParticipantInfo⦄ ⦃E : Database Guid EndpointInfoData⦄ where
  -- NetworkDatabase, DataStreamer and ros2_types_.
  pub record SpyModel (Callback : Type 0) : Type 0 where
    pub participant_database : P.Db
    pub endpoint_database : E.Db
    pub streamer : DataStreamer Callback
    pub ros2_types : Bool

module _ ⦃G : Guids⦄ ⦃go : Order Guid⦄ ⦃ho : Order InstanceHandle⦄ ⦃D : DynTypes⦄ ⦃T : Topics⦄
    ⦃to : Order DdsTopic⦄ ⦃M : Times⦄ ⦃P : Database Guid ParticipantInfo⦄
    ⦃E : Database Guid EndpointInfoData⦄ {Callback : Type 0} where
  -- The constructor.
  unfoldable pub spy_model : Bool → SpyModel Callback
  spy_model ros2_types = record {
    participant_database = P.empty;
    endpoint_database = E.empty;
    streamer = DataStreamer.initial;
    ros2_types = ros2_types;
  }

  -- SpyParticipant::new_participant_info_
  unfoldable pub new_participant_info : SpyModel Callback → ParticipantInfo → SpyModel Callback
  new_participant_info m info = record m {
    participant_database = P.add_or_modify info.guid info m.participant_database;
  }

  -- SpyParticipant::new_endpoint_info_
  unfoldable pub new_endpoint_info : SpyModel Callback → EndpointInfoData → SpyModel Callback
  new_endpoint_info m received =
      let info : Endpoint = received.info in
      record m {
        endpoint_database = E.add_or_modify info.guid received m.endpoint_database;
        streamer =
            if is_writer info
            then DataStreamer.on_writer_discovered m.streamer info.guid (T.topic_name info.topic)
                info.active
            else m.streamer;
      }

  abbrev after_data :
      SpyModel Callback
      → Option (DataStreamer Callback × Delivery Callback)
      → Option (SpyModel Callback)
  after_data m none = none
  after_data m (some (s, delivery)) =
      if DataStreamer.is_null_call delivery then none else some (record m { streamer = s })

  -- `none` is a use of a reference that dangles, or a call through a null pointer.
  unfoldable pub step : SpyModel Callback → Event Callback → Option (SpyModel Callback)
  step m (participant_info info) = some (new_participant_info m info)
  step m (endpoint_info info) = some (new_endpoint_info m info)
  step m (schema dynamic_type) =
      some (record m { streamer = DataStreamer.add_schema m.streamer dynamic_type })
  step m (sample_received topic sample now) =
      after_data m (DataStreamer.add_data m.streamer topic sample now)
  step m (activate_all callback) =
      some (record m { streamer = DataStreamer.activate_all m.streamer callback })
  step m (activate topic callback) =
      some (record m { streamer = DataStreamer.activate m.streamer topic callback })
  step m deactivate = some (record m { streamer = DataStreamer.deactivate m.streamer })

  unfoldable pub run : SpyModel Callback → List (Event Callback) → Option (SpyModel Callback)
  run m [] = some m
  run m (e ∷ rest) = elim (step m e) [ none ↦ none | some m' ↦ run m' rest ]
