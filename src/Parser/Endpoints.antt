-- ===== src/Parser/Endpoints.antt =====
-- ModelParser.cpp, the endpoints: writers, readers, their verbose forms, and one by its guid.
use fast_dds_spy.Prelude.{String, List, [], ◌∷◌, none, some, ◌&&◌, if◌then◌else◌}
use fast_dds_spy.Order.{Order, ◌=?◌}
use fast_dds_spy.Order.Texts.{string_order}
use fast_dds_spy.External.Guids.{Guids, Guid}
use fast_dds_spy.External.DynTypes.{DynTypes}
use fast_dds_spy.External.Topics.{Topics, Endpoint, EndpointKind, is_reader, is_writer}
use fast_dds_spy.External.Times.{Times}
use fast_dds_spy.External.Database.{Database}
use fast_dds_spy.Map
use fast_dds_spy.SpyModel.{SpyModel, ParticipantInfo, EndpointInfoData}
use fast_dds_spy.Parser.Data.{SimpleEndpointData, ComplexEndpointData}
use fast_dds_spy.Parser.Participants.{shown_topic, shown_type}

module _ ⦃G : Guids⦄ where
  -- The loop of get_participant_name.
  unfoldable pub name_of_prefix : G.GuidPrefix → List (Guid × ParticipantInfo) → String
  name_of_prefix prefix [] = ""
  name_of_prefix prefix ((k, p) ∷ rest) =
      if p.active && G.prefix_eq (G.guid_prefix k) prefix
      then p.name
      else name_of_prefix prefix rest

-- ComplexEndpointData{}
unfoldable pub no_endpoint : ⦃G : Guids⦄ ⦃T : Topics⦄ → ComplexEndpointData
no_endpoint ⦃G⦄ ⦃T⦄ = record {
  guid = G.no_guid;
  participant_name = "";
  topic = record { topic_name = ""; topic_type = ""; partition = "" };
  qos = record { durability = T.no_durability; reliability = T.no_reliability };
}

-- The partition that an endpoint announces under a guid, or the text that was there.
unfoldable pub partition_or : ⦃G : Guids⦄ ⦃T : Topics⦄ → String → Guid → Endpoint → String
partition_or ⦃G⦄ before guid e = elim (Map.find (G.show_guid guid) e.specific_partitions) [
  | none ↦ before
  | some partition ↦ partition
]

module _ ⦃G : Guids⦄ ⦃go : Order Guid⦄ ⦃D : DynTypes⦄ ⦃T : Topics⦄ ⦃M : Times⦄
    ⦃P : Database Guid ParticipantInfo⦄ ⦃E : Database Guid EndpointInfoData⦄
    {Callback : Type 0} where
  unfoldable pub get_participant_name : SpyModel Callback → Guid → String
  unfolding name_of_prefix
  get_participant_name model guid =
      name_of_prefix (G.guid_prefix guid) (P.entries model.participant_database)

  unfoldable pub fill_simple_endpoint : SpyModel Callback → Endpoint → SimpleEndpointData
  fill_simple_endpoint model e = record {
    guid = e.guid;
    participant_name = get_participant_name model e.guid;
    topic = record {
      topic_name = shown_topic model.ros2_types (T.topic_name e.topic);
      topic_type = shown_type model.ros2_types (T.type_name e.topic);
    };
  }

  unfoldable pub fill_complex_endpoint :
      SpyModel Callback → ComplexEndpointData → Endpoint → ComplexEndpointData
  fill_complex_endpoint model result e = record {
    guid = e.guid;
    participant_name = get_participant_name model e.guid;
    topic = record {
      topic_name = shown_topic model.ros2_types (T.topic_name e.topic);
      topic_type = shown_type model.ros2_types (T.type_name e.topic);
      partition = partition_or result.topic.partition e.guid e;
    };
    qos = record { durability = T.durability_qos e.topic; reliability = T.reliability_qos e.topic };
  }

  -- set_endpoint_simple_information
  unfoldable pub set_simple :
      SpyModel Callback → EndpointKind → List (Guid × EndpointInfoData) → List SimpleEndpointData
  set_simple model kind [] = []
  set_simple model kind ((k, e) ∷ rest) =
      if e.info.active && T.kind_eq e.info.kind kind
      then fill_simple_endpoint model e.info ∷ set_simple model kind rest
      else set_simple model kind rest

  -- set_endpoint_complex_information
  unfoldable pub set_complex :
      SpyModel Callback
      → ComplexEndpointData
      → EndpointKind
      → Guid
      → List (Guid × EndpointInfoData)
      → ComplexEndpointData
  set_complex model result kind guid [] = result
  set_complex model result kind guid ((k, e) ∷ rest) =
      if e.info.active && k =? guid && T.kind_eq e.info.kind kind
      then fill_complex_endpoint model result e.info
      else set_complex model result kind guid rest

  unfoldable pub writers : SpyModel Callback → List SimpleEndpointData
  unfolding set_simple
  writers model = set_simple model T.writer (E.entries model.endpoint_database)

  unfoldable pub readers : SpyModel Callback → List SimpleEndpointData
  unfolding set_simple
  readers model = set_simple model T.reader (E.entries model.endpoint_database)

  -- writers(model, guid) and readers(model, guid)
  unfoldable pub writer_of : SpyModel Callback → Guid → ComplexEndpointData
  unfolding set_complex
  writer_of model guid =
      set_complex model no_endpoint T.writer guid (E.entries model.endpoint_database)

  unfoldable pub reader_of : SpyModel Callback → Guid → ComplexEndpointData
  unfolding set_complex
  reader_of model guid =
      set_complex model no_endpoint T.reader guid (E.entries model.endpoint_database)

  -- The loops of writers_verbose and readers_verbose.
  unfoldable pub each_writer :
      SpyModel Callback → List (Guid × EndpointInfoData) → List ComplexEndpointData
  unfolding writer_of
  each_writer model [] = []
  each_writer model ((k, e) ∷ rest) =
      if e.info.active && is_writer e.info
      then writer_of model e.info.guid ∷ each_writer model rest
      else each_writer model rest

  unfoldable pub each_reader :
      SpyModel Callback → List (Guid × EndpointInfoData) → List ComplexEndpointData
  unfolding reader_of
  each_reader model [] = []
  each_reader model ((k, e) ∷ rest) =
      if e.info.active && is_reader e.info
      then reader_of model e.info.guid ∷ each_reader model rest
      else each_reader model rest

  unfoldable pub writers_verbose : SpyModel Callback → List ComplexEndpointData
  unfolding each_writer
  writers_verbose model = each_writer model (E.entries model.endpoint_database)

  unfoldable pub readers_verbose : SpyModel Callback → List ComplexEndpointData
  unfolding each_reader
  readers_verbose model = each_reader model (E.entries model.endpoint_database)
