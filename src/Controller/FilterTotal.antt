-- ===== src/Controller/FilterTotal.antt =====
-- filter_command_ comes to its end for any arguments, and the streamer is none of its business.
use fast_dds_spy.Prelude.{
  String, List, [], ◌∷◌, some, none, sym, subst, Option-cases, arith, ◌||◌, ◌&&◌, not, ◌≡◌, refl,
  ap, ◌∙◌, Bool-cases, inl, inr,
}
use fast_dds_spy.Order.{Order, ◌=?◌}
use fast_dds_spy.Order.Texts.{string_order}
use fast_dds_spy.External.Guids.{Guids, Guid}
use fast_dds_spy.External.DynTypes.{DynTypes}
use fast_dds_spy.External.Topics.{Topics}
use fast_dds_spy.External.Times.{Times}
use fast_dds_spy.External.Database.{Database}
use fast_dds_spy.External.Patterns.{Patterns}
use fast_dds_spy.SpyModel.{SpyModel, ParticipantInfo, EndpointInfoData}
use fast_dds_spy.Controller.Filters.{
  Controller, update_partitions, update_topics, update_each_topic, update_content_topicfilter,
}
use fast_dds_spy.Controller.FilterCommand.{
  Reply, quiet, Outcome, quietly, then_topics, is_category, check_filter_contains_value,
  clear_each_filter, show_filters, clear_filters, clear_category, add_value, remove_value,
  change_filter, set_topic_filter, filter_command,
}
use fast_dds_spy.Map
use fast_dds_spy.SpyModel.Keyed.{FindsOwn}
use fast_dds_spy.Controller.Activity.{IsFiltered}
use fast_dds_spy.Controller.FilterEffects.{update_partitions-IsApplied}

module _ ⦃G : Guids⦄ ⦃go : Order Guid⦄ ⦃D : DynTypes⦄ ⦃T : Topics⦄ ⦃M : Times⦄
    ⦃P : Database Guid ParticipantInfo⦄ ⦃E : Database Guid EndpointInfoData⦄ ⦃W : Patterns⦄
    {Callback : Type 0} where
  -- Endpoints that stand under their own guids still do.
  abbrev pub StaysKeyed : SpyModel Callback → SpyModel Callback → Type 0
  StaysKeyed m m' =
      FindsOwn (E.entries m.endpoint_database) → FindsOwn (E.entries m'.endpoint_database)

  IsFiltered-StaysKeyed :
      (m m' : SpyModel Callback) (filters : List String) → IsFiltered m filters m' → StaysKeyed m m'
  IsFiltered-StaysKeyed m m' filters filtered own k x found =
      elim (Option-cases (Map.find k (E.entries m.endpoint_database))) [
        | inl missing ↦ absurd (ground (arith, filtered.0 k))
        | inr (e, there) ↦ ground (arith, filtered.0 k, own k e there)
      ]

  -- There is an outcome; it has the streamer of before, and keeps the endpoints under their guids.
  abbrev Settles : Controller Callback → Outcome Callback → Type 0
  Settles c o =
      (c' : Controller Callback) × (reply : Reply) × (o ≡ some (c', reply))
      × ((c'.model).streamer ≡ (c.model).streamer)
      × StaysKeyed c.model c'.model

  update_each_topic-model :
      (c : Controller Callback) (es : List (Guid × EndpointInfoData))
      → (update_each_topic c es).model ≡ c.model
  unfolding update_each_topic update_content_topicfilter
  update_each_topic-model c [] = refl
  update_each_topic-model c ((k, e) ∷ rest) =
      update_each_topic-model (update_content_topicfilter c (T.topic_name e.info.topic)) rest

  update_topics-model : (c : Controller Callback) → (update_topics c).model ≡ c.model
  unfolding update_topics
  update_topics-model c = update_each_topic-model c (E.entries (c.model).endpoint_database)

  -- A change of the filters, followed by their application.
  update_partitions-Settles :
      (c c₀ : Controller Callback) → c₀.model ≡ c.model → Settles c (quietly (update_partitions c₀))
  update_partitions-Settles c c₀ same =
      let (c', done, _, _, applied) = update_partitions-IsApplied c₀ in
      (
        c',
        quiet,
        rw done refl,
        applied.filtered.2 ∙ ap (λ m. m.streamer) same,
        subst (λ m. StaysKeyed m c'.model) same
            (IsFiltered-StaysKeyed c₀.model c'.model c'.partition_filter_set applied.filtered),
      )

  update_both-Settles :
      (c c₀ : Controller Callback)
      → c₀.model ≡ c.model
      → Settles c (quietly (then_topics (update_partitions c₀)))
  update_both-Settles c c₀ same =
      let (c', done, _, _, applied) = update_partitions-IsApplied c₀ in
      (
        update_topics c',
        quiet,
        rw done refl,
        ap (λ m. m.streamer) (update_topics-model c')
            ∙ applied.filtered.2
            ∙ ap (λ m. m.streamer) same,
        subst (StaysKeyed c.model) (sym (update_topics-model c')) (
            subst (λ m. StaysKeyed m c'.model) same
              (IsFiltered-StaysKeyed c₀.model c'.model c'.partition_filter_set applied.filtered)),
      )

  show_filters-Settles :
      (c : Controller Callback) (command : String) → Settles c (show_filters c command)
  unfolding show_filters
  show_filters-Settles c command = elim (Bool-cases (command =? "filter")) [
    | inl e ↦ rw e (c, _, refl, refl, λ own. own)
    | inr e ↦ rw e (c, _, refl, refl, λ own. own)
  ]

  clear_filters-Settles :
      (c : Controller Callback) (command argument : String)
      → Settles c (clear_filters c command argument)
  unfolding clear_filters
  clear_filters-Settles c command argument = elim (Bool-cases (command =? "filter")) [
    | inl e ↦ rw e (c, _, refl, refl, λ own. own)
    | inr e ↦ elim (Bool-cases (not (argument =? "clear"))) [
      | inl f ↦ rw (e, f) (c, _, refl, refl, λ own. own)
      | inr f ↦
          rw (e, f)
            (update_both-Settles c
              (record c {
                partition_filter_set = [];
                topic_filter_dict = clear_each_filter c.topic_filter_dict;
              })
              refl)
    ]
  ]

  clear_category-Settles :
      (c : Controller Callback) (command operation category : String)
      → Settles c (clear_category c command operation category)
  unfolding clear_category
  clear_category-Settles c command operation category = elim (Bool-cases (command =? "filters")) [
    | inl e ↦ rw e (c, _, refl, refl, λ own. own)
    | inr e ↦ elim (Bool-cases (not (operation =? "clear") || not (is_category category))) [
      | inl f ↦ rw (e, f) (c, _, refl, refl, λ own. own)
      | inr f ↦ elim (Bool-cases (category =? "partitions")) [
        | inl g ↦
            rw (e, f, g) (update_partitions-Settles c (record c { partition_filter_set = [] }) refl)
        | inr g ↦
            rw (e, f, g)
              (
                _,
                _,
                refl,
                ap (λ m. m.streamer) (update_topics-model (record c { topic_filter_dict = [] })),
                subst (StaysKeyed c.model)
                    (sym (update_topics-model (record c { topic_filter_dict = [] }))) (λ own. own),
              )
      ]
    ]
  ]

  add_value-Settles :
      (c : Controller Callback) (category filter_str : String)
      → Settles c (add_value c category filter_str)
  unfolding add_value
  add_value-Settles c category filter_str =
      elim (Bool-cases (check_filter_contains_value c category filter_str)) [
        | inl e ↦ rw e (c, _, refl, refl, λ own. own)
        | inr e ↦ rw e (update_partitions-Settles c _ refl)
      ]

  remove_value-Settles :
      (c : Controller Callback) (category filter_str : String)
      → Settles c (remove_value c category filter_str)
  unfolding remove_value
  remove_value-Settles c category filter_str =
      elim (Bool-cases (check_filter_contains_value c category filter_str)) [
        | inr e ↦ rw e (c, _, refl, refl, λ own. own)
        | inl e ↦ elim (Bool-cases (category =? "partitions")) [
          | inl f ↦ rw (e, f) (update_partitions-Settles c _ refl)
          | inr f ↦ rw (e, f) (update_partitions-Settles c _ refl)
        ]
      ]

  change_filter-Settles :
      (c : Controller Callback) (command operation category value : String)
      → Settles c (change_filter c command operation category value)
  unfolding change_filter
  change_filter-Settles c command operation category value =
      elim (Bool-cases (command =? "filters")) [
        | inl e ↦ rw e (c, _, refl, refl, λ own. own)
        | inr e ↦ elim (Bool-cases (not (is_category category))) [
          | inl f ↦ rw (e, f) (c, _, refl, refl, λ own. own)
          | inr f ↦
              elim (Bool-cases (
                not (operation =? "add" || operation =? "remove")
                || (category =? "topic" && operation =? "add"))) [
                  | inl g ↦ rw (e, f, g) (c, _, refl, refl, λ own. own)
                  | inr g ↦ elim (Bool-cases (operation =? "add")) [
                    | inl h ↦ rw (e, f, g, h) (add_value-Settles c category value)
                    | inr h ↦ rw (e, f, g, h) (remove_value-Settles c category value)
                  ]
                ]
        ]
      ]

  set_topic_filter-Settles :
      (c : Controller Callback) (command operation category topic_str filter_str : String)
      → Settles c (set_topic_filter c command operation category topic_str filter_str)
  unfolding set_topic_filter update_content_topicfilter
  set_topic_filter-Settles c command operation category topic_str filter_str =
      elim (Bool-cases (command =? "filters")) [
        | inl e ↦ rw e (c, _, refl, refl, λ own. own)
        | inr e ↦ elim (Bool-cases (not c.dds_enabled)) [
          | inl f ↦ rw (e, f) (c, _, refl, refl, λ own. own)
          | inr f ↦ elim (Bool-cases (not (operation =? "set") || not (category =? "topic"))) [
            | inl g ↦ rw (e, f, g) (c, _, refl, refl, λ own. own)
            | inr g ↦ rw (e, f, g) (_, _, refl, refl, λ own. own)
          ]
        ]
      ]

  each_filter_command-Settles :
      (c : Controller Callback) (command : String) (options : List String)
      → Settles c (filter_command c (command ∷ options))
  unfolding filter_command
  each_filter_command-Settles c command [] = show_filters-Settles c command
  each_filter_command-Settles c command (x ∷ []) = clear_filters-Settles c command x
  each_filter_command-Settles c command (x ∷ y ∷ []) = clear_category-Settles c command x y
  each_filter_command-Settles c command (x ∷ y ∷ z ∷ []) = change_filter-Settles c command x y z
  each_filter_command-Settles c command (x ∷ y ∷ z ∷ u ∷ []) =
      set_topic_filter-Settles c command x y z u
  each_filter_command-Settles c command (x ∷ y ∷ z ∷ u ∷ v ∷ rest) = (c, _, refl, refl, λ own. own)

  -- A filter command with any arguments comes to its end, without a read past the end of the
  -- database, and leaves the streamer of the data as it was.
  pub filter_command-Settles :
      (c : Controller Callback) (command : String) (options : List String)
      → (c' : Controller Callback) × (reply : Reply) × (filter_command c (command ∷ options)
          ≡ some (c', reply))
        × ((c'.model).streamer ≡ (c.model).streamer)
  filter_command-Settles c command options =
      let (c', reply, done, same, keyed) = each_filter_command-Settles c command options in
      (c', reply, done, same)

  abbrev pub OutcomeKeyed : Controller Callback → Outcome Callback → Type 0
  OutcomeKeyed c none = Unit
  OutcomeKeyed c (some (c', reply)) = StaysKeyed c.model c'.model

  pub filter_command-OutcomeKeyed :
      (c : Controller Callback) (command : String) (options : List String)
      → OutcomeKeyed c (filter_command c (command ∷ options))
  filter_command-OutcomeKeyed c command options =
      let (c', reply, done, same, keyed) = each_filter_command-Settles c command options in
      subst (OutcomeKeyed c) (sym done) keyed
