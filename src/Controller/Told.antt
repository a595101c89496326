-- ===== src/Controller/Told.antt =====
-- What Backend.cpp was told last, and that each command of a session keeps it true to the filters.
use fast_dds_spy.Prelude.{
  String, List, [], ◌∷◌, Option, none, some, ◌||◌, ◌&&◌, not, ◌≡◌, refl, subst, if◌then◌else◌,
  Bool-cases, Option-cases, inl, inr,
}
use fast_dds_spy.Order.{Order, ◌=?◌}
use fast_dds_spy.Order.Texts.{string_order}
use fast_dds_spy.External.Guids.{Guids, Guid}
use fast_dds_spy.External.DynTypes.{DynTypes}
use fast_dds_spy.External.Topics.{Topics}
use fast_dds_spy.External.Times.{Times}
use fast_dds_spy.External.Database.{Database}
use fast_dds_spy.External.Patterns.{Patterns}
use fast_dds_spy.SpyModel.{ParticipantInfo, EndpointInfoData}
use fast_dds_spy.Controller.Backend.{
  TrackCalls, participant_update_partitions, participant_update_content_topicfilter,
  update_readers_track_content_filter, update_readers_track_partitions,
}
use fast_dds_spy.Controller.Endpoints.{update_endpoints}
use fast_dds_spy.Controller.Filters.{
  Controller, update_partitions, update_topics, update_each_topic, update_content_topicfilter,
}
use fast_dds_spy.Controller.FilterCommand.{
  Outcome, quietly, then_topics, is_category, check_filter_contains_value, show_filters,
  clear_filters, clear_category, add_value, remove_value, change_filter, set_topic_filter,
  filter_command, clear_each_filter,
}
use fast_dds_spy.Map
use fast_dds_spy.Set

-- The partitions that the participant was told last.
abbrev pub told_partitions : TrackCalls → Option (List String)
told_partitions [] = none
told_partitions (participant_update_partitions s ∷ calls) = some s
told_partitions (_ ∷ calls) = told_partitions calls

-- The content filter of a topic that the participant was told last.
abbrev pub told_filter : String → TrackCalls → Option String
told_filter name [] = none
told_filter name (participant_update_content_topicfilter topic filter ∷ calls) =
    if topic =? name then some filter else told_filter name calls
told_filter name (_ ∷ calls) = told_filter name calls

module _ ⦃G : Guids⦄ ⦃go : Order Guid⦄ ⦃D : DynTypes⦄ ⦃T : Topics⦄ ⦃M : Times⦄
    ⦃P : Database Guid ParticipantInfo⦄ ⦃E : Database Guid EndpointInfoData⦄
    {Callback : Type 0} where
  -- The participant was last told the partitions that the controller keeps.
  abbrev pub IsTold : Controller Callback → Type 0
  IsTold c = told_partitions c.backend ≡ some c.partition_filter_set

  abbrev TellsIt : Option (Controller Callback) → Type 0
  TellsIt none = Unit
  TellsIt (some c) = IsTold c

  abbrev pub Tells : Outcome Callback → Type 0
  Tells none = Unit
  Tells (some (c, reply)) = IsTold c

  quietly-Tells : (o : Option (Controller Callback)) → TellsIt o → Tells (quietly o)
  quietly-Tells none t = tt
  quietly-Tells (some c) t = t

  update_each_topic-IsTold :
      (c : Controller Callback) (es : List (Guid × EndpointInfoData))
      → IsTold c
      → IsTold (update_each_topic c es)
  unfolding update_each_topic update_content_topicfilter update_readers_track_content_filter
  update_each_topic-IsTold c [] t = t
  update_each_topic-IsTold c ((k, e) ∷ rest) t =
      update_each_topic-IsTold (update_content_topicfilter c (T.topic_name e.info.topic)) rest t

  update_topics-IsTold : (c : Controller Callback) → IsTold c → IsTold (update_topics c)
  unfolding update_topics
  update_topics-IsTold c = update_each_topic-IsTold c (E.entries (c.model).endpoint_database)

  module _ ⦃W : Patterns⦄ where
    -- It tells the partitions, whatever was told before.
    update_partitions-TellsIt : (c : Controller Callback) → TellsIt (update_partitions c)
    unfolding update_partitions update_readers_track_partitions
    update_partitions-TellsIt c =
        elim (Option-cases (update_endpoints c.model c.partition_filter_set)) [
          | inl fails ↦ rw (fails, update_partitions) tt
          | inr (m, done) ↦ rw (done, update_partitions) refl
        ]

    update_both-TellsIt : (c : Controller Callback) → TellsIt (then_topics (update_partitions c))
    update_both-TellsIt c =
        let told = update_partitions-TellsIt c in
        elim (Option-cases (update_partitions c)) [
          | inl fails ↦ rw fails tt
          | inr (c', done) ↦ rw done (update_topics-IsTold c' (subst TellsIt done told))
        ]

    show_filters-Tells :
        (c : Controller Callback) (command : String) → IsTold c → Tells (show_filters c command)
    unfolding show_filters
    show_filters-Tells c command t = elim (Bool-cases (command =? "filter")) [
      | inl e ↦ rw e t
      | inr e ↦ rw e t
    ]

    clear_filters-Tells :
        (c : Controller Callback) (command argument : String)
        → IsTold c
        → Tells (clear_filters c command argument)
    unfolding clear_filters
    clear_filters-Tells c command argument t = elim (Bool-cases (command =? "filter")) [
      | inl e ↦ rw e t
      | inr e ↦ elim (Bool-cases (not (argument =? "clear"))) [
        | inl f ↦ rw (e, f) t
        | inr f ↦
            rw (e, f)
              (quietly-Tells _ (
                update_both-TellsIt (record c {
                  partition_filter_set = [];
                  topic_filter_dict = clear_each_filter c.topic_filter_dict;
                })))
      ]
    ]

    clear_category-Tells :
        (c : Controller Callback) (command operation category : String)
        → IsTold c
        → Tells (clear_category c command operation category)
    unfolding clear_category
    clear_category-Tells c command operation category t = elim (Bool-cases (command =? "filters")) [
      | inl e ↦ rw e t
      | inr e ↦ elim (Bool-cases (not (operation =? "clear") || not (is_category category))) [
        | inl f ↦ rw (e, f) t
        | inr f ↦ elim (Bool-cases (category =? "partitions")) [
          | inl g ↦
              rw (e, f, g)
                (quietly-Tells _
                  (update_partitions-TellsIt (record c { partition_filter_set = [] })))
          | inr g ↦ rw (e, f, g) (update_topics-IsTold (record c { topic_filter_dict = [] }) t)
        ]
      ]
    ]

    add_value-Tells :
        (c : Controller Callback) (category filter_str : String)
        → IsTold c
        → Tells (add_value c category filter_str)
    unfolding add_value
    add_value-Tells c category filter_str t =
        elim (Bool-cases (check_filter_contains_value c category filter_str)) [
          | inl e ↦ rw e t
          | inr e ↦ rw e (
              quietly-Tells _ (
                update_partitions-TellsIt (record c {
                  partition_filter_set = Set.insert filter_str c.partition_filter_set;
                })))
        ]

    remove_value-Tells :
        (c : Controller Callback) (category filter_str : String)
        → IsTold c
        → Tells (remove_value c category filter_str)
    unfolding remove_value
    remove_value-Tells c category filter_str t =
        elim (Bool-cases (check_filter_contains_value c category filter_str)) [
          | inl e ↦ rw e (
              quietly-Tells _ (
                update_partitions-TellsIt (
                  if category =? "partitions"
                  then record c {
                    partition_filter_set = Set.erase filter_str c.partition_filter_set;
                  }
                  else record c {
                    topic_filter_dict = Map.insert filter_str "" c.topic_filter_dict;
                  })))
          | inr e ↦ rw e t
        ]

    change_filter-Tells :
        (c : Controller Callback) (command operation category value : String)
        → IsTold c
        → Tells (change_filter c command operation category value)
    unfolding change_filter
    change_filter-Tells c command operation category value t =
        elim (Bool-cases (command =? "filters")) [
          | inl e ↦ rw e t
          | inr e ↦ elim (Bool-cases (not (is_category category))) [
            | inl f ↦ rw (e, f) t
            | inr f ↦
                elim (Bool-cases (
                  not (operation =? "add" || operation =? "remove")
                  || (category =? "topic" && operation =? "add"))) [
                    | inl g ↦ rw (e, f, g) t
                    | inr g ↦ elim (Bool-cases (operation =? "add")) [
                      | inl h ↦ rw (e, f, g, h) (add_value-Tells c category value t)
                      | inr h ↦ rw (e, f, g, h) (remove_value-Tells c category value t)
                    ]
                  ]
          ]
        ]

    set_topic_filter-Tells :
        (c : Controller Callback) (command operation category topic_str filter_str : String)
        → IsTold c
        → Tells (set_topic_filter c command operation category topic_str filter_str)
    unfolding set_topic_filter update_content_topicfilter update_readers_track_content_filter
    set_topic_filter-Tells c command operation category topic_str filter_str t =
        elim (Bool-cases (command =? "filters")) [
          | inl e ↦ rw e t
          | inr e ↦ elim (Bool-cases (not c.dds_enabled)) [
            | inl f ↦ rw (e, f) t
            | inr f ↦ elim (Bool-cases (not (operation =? "set") || not (category =? "topic"))) [
              | inl g ↦ rw (e, f, g) t
              | inr g ↦ rw (e, f, g) t
            ]
          ]
        ]

    pub filter_command-Tells :
        (c : Controller Callback) (arguments : List String)
        → IsTold c
        → Tells (filter_command c arguments)
    unfolding filter_command
    filter_command-Tells c [] t = tt
    filter_command-Tells c (command ∷ []) t = show_filters-Tells c command t
    filter_command-Tells c (command ∷ x ∷ []) t = clear_filters-Tells c command x t
    filter_command-Tells c (command ∷ x ∷ y ∷ []) t = clear_category-Tells c command x y t
    filter_command-Tells c (command ∷ x ∷ y ∷ z ∷ []) t = change_filter-Tells c command x y z t
    filter_command-Tells c (command ∷ x ∷ y ∷ z ∷ u ∷ []) t =
        set_topic_filter-Tells c command x y z u t
    filter_command-Tells c (command ∷ x ∷ y ∷ z ∷ u ∷ v ∷ rest) t = t
