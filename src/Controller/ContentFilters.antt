-- ===== src/Controller/ContentFilters.antt =====
-- The content filters of the topics: what the controller keeps against what the pipe was last told.
use mathlib.Core.Option
use fast_dds_spy.Prelude.{
  String, List, [], ◌∷◌, Option, none, some, Bool, true, ◌≡◌, refl, ◌∙◌, any, if◌then◌else◌,
}
use fast_dds_spy.Order.{Order, ◌=?◌}
use fast_dds_spy.Order.Texts.{string_order}
use fast_dds_spy.External.Guids.{Guids, Guid}
use fast_dds_spy.External.DynTypes.{DynTypes}
use fast_dds_spy.External.Topics.{Topics}
use fast_dds_spy.External.Times.{Times}
use fast_dds_spy.External.Database.{Database}
use fast_dds_spy.External.Patterns.{Patterns}
use fast_dds_spy.Map
use fast_dds_spy.SpyModel.{ParticipantInfo, EndpointInfoData}
use fast_dds_spy.Controller.Backend.{
  TrackCalls, pipe_update_partitions, participant_update_partitions,
  participant_update_content_topicfilter, pipe_update_content_filter,
  update_readers_track_content_filter,
}
use fast_dds_spy.Controller.Filters.{Controller, update_content_topicfilter, filter_or_empty}
use fast_dds_spy.Controller.FilterCommand.{
  quiet, check_filter_contains_value, remove_value, change_filter, set_topic_filter, filter_command,
}
use fast_dds_spy.Controller.FilterEffects.{update_partitions-IsApplied}

-- The expression that the pipe was last given for a topic.
abbrev pub last_expression : String → TrackCalls → Option String
last_expression topic [] = none
last_expression topic (pipe_update_content_filter t e ∷ rest) =
    if t =? topic then some e else last_expression topic rest
last_expression topic (participant_update_content_topicfilter t e ∷ rest) =
    last_expression topic rest
last_expression topic (pipe_update_partitions s ∷ rest) = last_expression topic rest
last_expression topic (participant_update_partitions s ∷ rest) = last_expression topic rest

module _ ⦃G : Guids⦄ ⦃T : Topics⦄ where
  abbrev pub is_on_topic : String → Guid × EndpointInfoData → Bool
  is_on_topic t (k, e) = T.topic_name e.info.topic =? t

module _ ⦃G : Guids⦄ ⦃go : Order Guid⦄ ⦃D : DynTypes⦄ ⦃T : Topics⦄ ⦃M : Times⦄
    ⦃P : Database Guid ParticipantInfo⦄ ⦃E : Database Guid EndpointInfoData⦄ ⦃W : Patterns⦄
    {Callback : Type 0} where
  -- What the loop of update_topics does to a controller.
  record IsTold (c c' : Controller Callback) (es : List (Guid × EndpointInfoData)) : Type 0 where
    pub last :
        (t : String)
        → last_expression t c'.backend ≡ (
            if any (is_on_topic t) es
            then some (filter_or_empty (Map.find t c.topic_filter_dict))
            else last_expression t c.backend)
    pub same_model : c'.model ≡ c.model
    pub same_dict : c'.topic_filter_dict ≡ c.topic_filter_dict
    pub same_set : c'.partition_filter_set ≡ c.partition_filter_set

  -- filter set topic <topic> <expression>, where DDS is enabled: the filter of the topic is the
  -- expression, both in the controller and in the pipe, and that of no other topic changes.
  pub filter_command-set :
      (c : Controller Callback) (topic f : String)
      → c.dds_enabled ≡ true
      → (c' : Controller Callback) × (filter_command c ("filter" ∷ "set" ∷ "topic" ∷ topic ∷ f ∷ [])
          ≡ some (c', quiet))
        × ((t : String)
            → (Map.find t c'.topic_filter_dict
                ≡ (if topic =? t then some f else Map.find t c.topic_filter_dict))
              × (last_expression t c'.backend
                  ≡ (if topic =? t then some f else last_expression t c.backend)))
        × (c'.model ≡ c.model)
        × (c'.partition_filter_set ≡ c.partition_filter_set)
        × (c'.dds_enabled ≡ true)
  unfolding filter_command set_topic_filter update_content_topicfilter
      update_readers_track_content_filter
  filter_command-set c topic f enabled = (
    update_content_topicfilter
        (record c { topic_filter_dict = Map.insert topic f c.topic_filter_dict }) topic,
    rw enabled refl,
    λ t. (
      Map.find-insert topic t f c.topic_filter_dict,
      rw (Map.find-insert_self topic f c.topic_filter_dict) refl,
    ),
    refl,
    refl,
    enabled,
  )

  -- A filter that was set for a topic outlives filter remove topic <topic>: the controller then shows
  -- none, but the pipe still has the expression.
  pub removed_filter_stays :
      (c : Controller Callback) (topic f : String)
      → c.dds_enabled ≡ true
      → (c₁ c₂ : Controller Callback) × (filter_command c
            ("filter" ∷ "set" ∷ "topic" ∷ topic ∷ f ∷ [])
          ≡ some (c₁, quiet))
        × (filter_command c₁ ("filter" ∷ "remove" ∷ "topic" ∷ topic ∷ []) ≡ some (c₂, quiet))
        × (Map.find topic c₂.topic_filter_dict ≡ some "")
        × (last_expression topic c₂.backend ≡ some f)
  unfolding filter_command change_filter remove_value check_filter_contains_value
  removed_filter_stays c topic f enabled =
      let (c₁, set, per_topic, _, _, _) = filter_command-set c topic f enabled in
      let self : (topic =? topic) ≡ true = (string_order.eq_iff topic topic).1 refl in
      let (known, last) = per_topic topic in
      let (c₂, done, _, dict, applied) =
        update_partitions-IsApplied
          (record c₁ { topic_filter_dict = Map.insert topic "" c₁.topic_filter_dict }) in
      (
        c₁,
        c₂,
        set,
        rw (known, self, done) refl,
        rw dict (Map.find-insert_self topic "" c₁.topic_filter_dict),
        rw (applied.told) (last ∙ rw self refl),
      )
