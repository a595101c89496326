-- ===== src/Controller/FilterErrors.antt =====
-- A filter command that is refused changes nothing.
use fast_dds_spy.Prelude.{
  String, List, [], ◌∷◌, Option, none, some, ◌||◌, ◌&&◌, not, ◌≡◌, refl, subst, Bool-cases, inl,
  inr,
}
use fast_dds_spy.Order.{Order, ◌=?◌}
use fast_dds_spy.Order.Texts.{string_order}
use fast_dds_spy.External.Guids.{Guids, Guid}
use fast_dds_spy.External.DynTypes.{DynTypes}
use fast_dds_spy.External.Topics.{Topics}
use fast_dds_spy.External.Times.{Times}
use fast_dds_spy.External.Database.{Database}
use fast_dds_spy.External.Patterns.{Patterns}
use fast_dds_spy.SpyModel.{ParticipantInfo, EndpointInfoData}
use fast_dds_spy.Controller.Filters.{Controller}
use fast_dds_spy.Controller.FilterCommand.{
  show_error, print, quiet, Outcome, quietly, is_category, check_filter_contains_value,
  show_filters, clear_filters, clear_category, add_value, remove_value, change_filter,
  set_topic_filter, filter_command,
}

module _ ⦃G : Guids⦄ ⦃go : Order Guid⦄ ⦃D : DynTypes⦄ ⦃T : Topics⦄ ⦃M : Times⦄
    ⦃P : Database Guid ParticipantInfo⦄ ⦃E : Database Guid EndpointInfoData⦄ ⦃W : Patterns⦄
    {Callback : Type 0} where
  -- Where an outcome is an error, its controller is the one before.
  abbrev KeepsOnError : Controller Callback → Outcome Callback → Type 0
  KeepsOnError c none = Unit
  KeepsOnError c (some (c', show_error t)) = c' ≡ c
  KeepsOnError c (some (c', print t)) = Unit
  KeepsOnError c (some (c', quiet)) = Unit

  quietly-KeepsOnError :
      (c : Controller Callback) (o : Option (Controller Callback)) → KeepsOnError c (quietly o)
  quietly-KeepsOnError c none = tt
  quietly-KeepsOnError c (some c') = tt

  show_filters-KeepsOnError :
      (c : Controller Callback) (command : String) → KeepsOnError c (show_filters c command)
  unfolding show_filters
  show_filters-KeepsOnError c command = elim (Bool-cases (command =? "filter")) [
    | inl e ↦ rw e refl
    | inr e ↦ rw e tt
  ]

  clear_filters-KeepsOnError :
      (c : Controller Callback) (command argument : String)
      → KeepsOnError c (clear_filters c command argument)
  unfolding clear_filters
  clear_filters-KeepsOnError c command argument = elim (Bool-cases (command =? "filter")) [
    | inl e ↦ rw e refl
    | inr e ↦ elim (Bool-cases (not (argument =? "clear"))) [
      | inl f ↦ rw (e, f) refl
      | inr f ↦ rw (e, f) (quietly-KeepsOnError c _)
    ]
  ]

  clear_category-KeepsOnError :
      (c : Controller Callback) (command operation category : String)
      → KeepsOnError c (clear_category c command operation category)
  unfolding clear_category
  clear_category-KeepsOnError c command operation category =
      elim (Bool-cases (command =? "filters")) [
        | inl e ↦ rw e refl
        | inr e ↦ elim (Bool-cases (not (operation =? "clear") || not (is_category category))) [
          | inl f ↦ rw (e, f) refl
          | inr f ↦ elim (Bool-cases (category =? "partitions")) [
            | inl g ↦ rw (e, f, g) (quietly-KeepsOnError c _)
            | inr g ↦ rw (e, f, g) tt
          ]
        ]
      ]

  add_value-KeepsOnError :
      (c : Controller Callback) (category filter_str : String)
      → KeepsOnError c (add_value c category filter_str)
  unfolding add_value
  add_value-KeepsOnError c category filter_str =
      elim (Bool-cases (check_filter_contains_value c category filter_str)) [
        | inl e ↦ rw e refl
        | inr e ↦ rw e (quietly-KeepsOnError c _)
      ]

  remove_value-KeepsOnError :
      (c : Controller Callback) (category filter_str : String)
      → KeepsOnError c (remove_value c category filter_str)
  unfolding remove_value
  remove_value-KeepsOnError c category filter_str =
      elim (Bool-cases (check_filter_contains_value c category filter_str)) [
        | inl e ↦ rw e (quietly-KeepsOnError c _)
        | inr e ↦ rw e refl
      ]

  change_filter-KeepsOnError :
      (c : Controller Callback) (command operation category value : String)
      → KeepsOnError c (change_filter c command operation category value)
  unfolding change_filter
  change_filter-KeepsOnError c command operation category value =
      elim (Bool-cases (command =? "filters")) [
        | inl e ↦ rw e refl
        | inr e ↦ elim (Bool-cases (not (is_category category))) [
          | inl f ↦ rw (e, f) refl
          | inr f ↦
              elim (Bool-cases (
                not (operation =? "add" || operation =? "remove")
                || (category =? "topic" && operation =? "add"))) [
                  | inl g ↦ rw (e, f, g) refl
                  | inr g ↦ elim (Bool-cases (operation =? "add")) [
                    | inl h ↦ rw (e, f, g, h) (add_value-KeepsOnError c category value)
                    | inr h ↦ rw (e, f, g, h) (remove_value-KeepsOnError c category value)
                  ]
                ]
        ]
      ]

  set_topic_filter-KeepsOnError :
      (c : Controller Callback) (command operation category topic_str filter_str : String)
      → KeepsOnError c (set_topic_filter c command operation category topic_str filter_str)
  unfolding set_topic_filter
  set_topic_filter-KeepsOnError c command operation category topic_str filter_str =
      elim (Bool-cases (command =? "filters")) [
        | inl e ↦ rw e refl
        | inr e ↦ elim (Bool-cases (not c.dds_enabled)) [
          | inl f ↦ rw (e, f) refl
          | inr f ↦ elim (Bool-cases (not (operation =? "set") || not (category =? "topic"))) [
            | inl g ↦ rw (e, f, g) refl
            | inr g ↦ rw (e, f, g) tt
          ]
        ]
      ]

  filter_command-KeepsOnError :
      (c : Controller Callback) (arguments : List String)
      → KeepsOnError c (filter_command c arguments)
  unfolding filter_command
  filter_command-KeepsOnError c [] = tt
  filter_command-KeepsOnError c (command ∷ []) = show_filters-KeepsOnError c command
  filter_command-KeepsOnError c (command ∷ x ∷ []) = clear_filters-KeepsOnError c command x
  filter_command-KeepsOnError c (command ∷ x ∷ y ∷ []) = clear_category-KeepsOnError c command x y
  filter_command-KeepsOnError c (command ∷ x ∷ y ∷ z ∷ []) =
      change_filter-KeepsOnError c command x y z
  filter_command-KeepsOnError c (command ∷ x ∷ y ∷ z ∷ u ∷ []) =
      set_topic_filter-KeepsOnError c command x y z u
  filter_command-KeepsOnError c (command ∷ x ∷ y ∷ z ∷ u ∷ v ∷ rest) = refl

  -- A filter command that ends in an error message leaves the controller as it was: the filters, the
  -- model and the calls that were made to the pipe.
  pub filter_command-show_error :
      (c c' : Controller Callback) (arguments : List String) (t : String)
      → filter_command c arguments ≡ some (c', show_error t)
      → c' ≡ c
  filter_command-show_error c c' arguments t refused =
      subst (KeepsOnError c) refused (filter_command-KeepsOnError c arguments)
