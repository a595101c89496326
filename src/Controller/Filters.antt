-- ===== src/Controller/Filters.antt =====
-- Controller.cpp: the filters that the controller keeps, and how it passes them on.
use fast_dds_spy.Prelude.{String, List, [], ◌∷◌, Option, none, some, Bool}
use fast_dds_spy.Order.{Order}
use fast_dds_spy.Order.Texts.{string_order}
use fast_dds_spy.External.Guids.{Guids, Guid}
use fast_dds_spy.External.DynTypes.{DynTypes}
use fast_dds_spy.External.Topics.{Topics}
use fast_dds_spy.External.Times.{Times}
use fast_dds_spy.External.Database.{Database}
use fast_dds_spy.External.Patterns.{Patterns}
use fast_dds_spy.Map
use fast_dds_spy.SpyModel.{SpyModel, ParticipantInfo, EndpointInfoData}
use fast_dds_spy.Controller.Backend.{
  TrackCalls, update_readers_track_partitions, update_readers_track_content_filter,
}
use fast_dds_spy.Controller.Endpoints.{update_endpoints}

-- The filter of a topic, and the empty text for a topic without one.
abbrev pub filter_or_empty : Option String → String
filter_or_empty none = ""
filter_or_empty (some filter_str) = filter_str

module _ ⦃G : Guids⦄ ⦃go : Order Guid⦄ ⦃D : DynTypes⦄ ⦃T : Topics⦄ ⦃M : Times⦄
    ⦃P : Database Guid ParticipantInfo⦄ ⦃E : Database Guid EndpointInfoData⦄ where
  -- The members of Controller that its commands use; the backend is the calls that reach it.
  pub record Controller (Callback : Type 0) : Type 0 where
    pub backend : TrackCalls
    pub model : SpyModel Callback
    pub dds_enabled : Bool
    pub partition_filter_set : List String
    pub topic_filter_dict : List (String × String)

  module _ {Callback : Type 0} where
    unfoldable pub update_content_topicfilter : Controller Callback → String → Controller Callback
    unfolding update_readers_track_content_filter
    update_content_topicfilter c topic_name = record c {
      backend =
          update_readers_track_content_filter topic_name
            (filter_or_empty (Map.find topic_name c.topic_filter_dict)) c.backend;
    }

    unfoldable pub update_each_topic :
        Controller Callback → List (Guid × EndpointInfoData) → Controller Callback
    unfolding update_content_topicfilter
    update_each_topic c [] = c
    update_each_topic c ((k, e) ∷ rest) =
        update_each_topic (update_content_topicfilter c (T.topic_name e.info.topic)) rest

    unfoldable pub update_topics : Controller Callback → Controller Callback
    unfolding update_each_topic
    update_topics c = update_each_topic c (E.entries (c.model).endpoint_database)

    unfoldable pub set_partition_filter : Controller Callback → List String → Controller Callback
    set_partition_filter c partition_filter_set = record c {
      partition_filter_set = partition_filter_set;
    }

    unfoldable pub set_content_topic_filter :
        Controller Callback → List (String × String) → Controller Callback
    set_content_topic_filter c topic_filter_dict = record c {
      topic_filter_dict = topic_filter_dict;
    }

    abbrev with_model :
        Controller Callback → Option (SpyModel Callback) → Option (Controller Callback)
    with_model c none = none
    with_model c (some model) = some (record c { model = model })

    -- `none` reads past the end of the database.
    unfoldable pub update_partitions :
        ⦃W : Patterns⦄ → Controller Callback → Option (Controller Callback)
    unfolding update_endpoints update_readers_track_partitions
    update_partitions c =
        with_model
          (record c { backend = update_readers_track_partitions c.partition_filter_set c.backend })
          (update_endpoints c.model c.partition_filter_set)
