-- ===== src/Parser/Topics.antt =====
-- ModelParser.cpp, the topics: get_topics, the simple and the verbose listing, the IDL of a type and
-- the keys of the instances. The int counters are numbers without a bound.
use fast_dds_spy.Prelude.{
  String, ℕ, List, [], ◌∷◌, Bool, ◌&&◌, ◌||◌, not, if◌then◌else◌, ◌+◌, length, is_empty, map,
}
use fast_dds_spy.Order.{Order, ◌=?◌}
use fast_dds_spy.Order.Texts.{string_order}
use fast_dds_spy.External.Guids.{Guids, Guid, InstanceHandle}
use fast_dds_spy.External.DynTypes.{DynTypes}
use fast_dds_spy.External.Topics.{Topics, DdsTopic, FilterTopic, Endpoint, is_reader, is_writer}
use fast_dds_spy.External.Times.{Times}
use fast_dds_spy.External.Database.{Database}
use fast_dds_spy.DataStreamer
use fast_dds_spy.Set
use fast_dds_spy.TopicRate
use fast_dds_spy.SpyModel.{SpyModel, ParticipantInfo, EndpointInfoData}
use fast_dds_spy.Parser.Data.{SimpleTopicData, ComplexTopicData, TopicEndpoint, TopicKeysData, Rate}
use fast_dds_spy.Parser.Participants.{shown_topic, shown_type}
use fast_dds_spy.Parser.Endpoints.{partition_or}

abbrev pub no_type_information : String
no_type_information = "No type information available and thus cannot print data."

module _ ⦃G : Guids⦄ ⦃T : Topics⦄ where
  -- The loop of get_topics.
  unfoldable pub collect_topics :
      ⦃to : Order DdsTopic⦄
      → FilterTopic
      → List DdsTopic
      → List (Guid × EndpointInfoData)
      → List DdsTopic
  collect_topics filter_topic result [] = result
  collect_topics filter_topic result ((k, e) ∷ rest) =
      collect_topics filter_topic
        (if not e.info.active || not (T.matches filter_topic e.info.topic)
          then result
          else Set.insert e.info.topic result)
        rest

  -- The loop of simple_topic_data, with its two counters.
  unfoldable pub count_endpoints : DdsTopic → ℕ → ℕ → List (Guid × EndpointInfoData) → ℕ × ℕ
  count_endpoints topic datawriters datareaders [] = (datawriters, datareaders)
  count_endpoints topic datawriters datareaders ((k, e) ∷ rest) =
      let here : Bool = e.info.active && T.topic_name e.info.topic =? T.topic_name topic in
      count_endpoints topic (if here && is_writer e.info then datawriters + 1 else datawriters)
        (if here && is_reader e.info then datareaders + 1 else datareaders) rest

  -- The loop of complex_topic_data, for the endpoints of one kind.
  unfoldable pub list_endpoints :
      (Endpoint → Bool) → DdsTopic → List (Guid × EndpointInfoData) → List TopicEndpoint
  unfolding partition_or
  list_endpoints kind topic [] = []
  list_endpoints kind topic ((k, e) ∷ rest) =
      if e.info.active && T.topic_name topic =? T.topic_name e.info.topic && kind e.info
      then record { guid = k; partition = partition_or "" k e.info }
        ∷ list_endpoints kind topic rest
      else list_endpoints kind topic rest

  -- The inner loop of topics_type_idl; the empty text when it ends without a return.
  unfoldable pub idl_of_topic :
      ⦃to : Order DdsTopic⦄ → DdsTopic → List (Guid × EndpointInfoData) → String
  idl_of_topic topic [] = ""
  idl_of_topic topic ((k, e) ∷ rest) =
      if e.info.active && e.info.topic =? topic && not (e.type_idl =? "")
      then e.type_idl
      else idl_of_topic topic rest

  unfoldable pub first_idl :
      ⦃to : Order DdsTopic⦄ → List (Guid × EndpointInfoData) → List DdsTopic → String
  unfolding idl_of_topic
  first_idl es [] = ""
  first_idl es (topic ∷ rest) =
      let later = first_idl es rest in
      if idl_of_topic topic es =? "" then later else idl_of_topic topic es

module _ ⦃G : Guids⦄ ⦃go : Order Guid⦄ ⦃ho : Order InstanceHandle⦄ ⦃D : DynTypes⦄ ⦃T : Topics⦄
    ⦃to : Order DdsTopic⦄ ⦃M : Times⦄ ⦃P : Database Guid ParticipantInfo⦄
    ⦃E : Database Guid EndpointInfoData⦄ {Callback : Type 0} where
  unfoldable pub get_topics : SpyModel Callback → FilterTopic → List DdsTopic
  unfolding collect_topics
  get_topics model filter_topic = collect_topics filter_topic [] (E.entries model.endpoint_database)

  abbrev pub shown_rate : SpyModel Callback → DdsTopic → Rate
  shown_rate model topic = record {
    rate = TopicRate.get_topic_rate (model.streamer).data_by_topic topic;
    unit = "Hz";
  }

  unfoldable pub simple_topic_data : SpyModel Callback → DdsTopic → SimpleTopicData
  unfolding count_endpoints
  simple_topic_data model topic =
      let (datawriters, datareaders) =
        count_endpoints topic 0 0 (E.entries model.endpoint_database) in
      record {
        name = shown_topic model.ros2_types (T.topic_name topic);
        type = shown_type model.ros2_types (T.type_name topic);
        datawriters = datawriters;
        datareaders = datareaders;
        rate = shown_rate model topic;
      }

  unfoldable pub complex_topic_data : SpyModel Callback → DdsTopic → ComplexTopicData
  unfolding list_endpoints
  complex_topic_data model topic = record {
    name = shown_topic model.ros2_types (T.topic_name topic);
    type = shown_type model.ros2_types (T.type_name topic);
    datawriters = list_endpoints is_writer topic (E.entries model.endpoint_database);
    datareaders = list_endpoints is_reader topic (E.entries model.endpoint_database);
    rate = shown_rate model topic;
    discovered = DataStreamer.is_topic_type_discovered model.streamer topic;
  }

  unfoldable pub topics : SpyModel Callback → FilterTopic → List SimpleTopicData
  unfolding get_topics simple_topic_data
  topics model filter_topic = map (simple_topic_data model) (get_topics model filter_topic)

  unfoldable pub topics_verbose : SpyModel Callback → FilterTopic → List ComplexTopicData
  unfolding get_topics complex_topic_data
  topics_verbose model filter_topic = map (complex_topic_data model) (get_topics model filter_topic)

  unfoldable pub topics_type_idl : SpyModel Callback → FilterTopic → String
  unfolding get_topics first_idl
  topics_type_idl model filter_topic =
      let topics = get_topics model filter_topic in
      let idl = first_idl (E.entries model.endpoint_database) topics in
      if idl =? "" then (if is_empty topics then "" else no_type_information) else idl

  abbrev pub topic_keys : SpyModel Callback → DdsTopic → TopicKeysData
  topic_keys model topic =
      let instances = DataStreamer.get_topic_instances model.streamer (T.topic_name topic) in
      record {
        topic_name = shown_topic model.ros2_types (T.topic_name topic);
        key_fields = DataStreamer.get_topic_key_fields model.streamer (T.topic_name topic);
        instances = instances;
        instance_count = length instances;
      }

  unfoldable pub topics_keys_by_ddstopic : SpyModel Callback → List DdsTopic → List TopicKeysData
  topics_keys_by_ddstopic model [] = []
  topics_keys_by_ddstopic model (topic ∷ rest) =
      let others = topics_keys_by_ddstopic model rest in
      if not (DataStreamer.is_any_topic_type_discovered model.streamer (topic ∷ []))
      then others
      else topic_keys model topic ∷ others

  unfoldable pub topics_keys : SpyModel Callback → FilterTopic → List TopicKeysData
  unfolding get_topics topics_keys_by_ddstopic
  topics_keys model filter_topic =
      let topics = get_topics model filter_topic in
      if is_empty topics then [] else topics_keys_by_ddstopic model topics
