-- ===== src/Controller/FilterCommand.antt =====
-- Controller::filter_command_: the commands filter and filters, by the number of their arguments.
use Prim.Native.String.{◌++◌}
use fast_dds_spy.Prelude.{
  String, List, [], ◌∷◌, Option, none, some, Bool, true, false, ◌&&◌, ◌||◌, not, if◌then◌else◌,
}
use fast_dds_spy.Order.{Order, ◌=?◌}
use fast_dds_spy.Order.Texts.{string_order}
use fast_dds_spy.External.Guids.{Guids, Guid}
use fast_dds_spy.External.DynTypes.{DynTypes}
use fast_dds_spy.External.Topics.{Topics}
use fast_dds_spy.External.Times.{Times}
use fast_dds_spy.External.Database.{Database}
use fast_dds_spy.External.Patterns.{Patterns}
use fast_dds_spy.DataStreamer.{is_some}
use fast_dds_spy.Map
use fast_dds_spy.Set
use fast_dds_spy.SpyModel.{ParticipantInfo, EndpointInfoData}
use fast_dds_spy.Controller.Filters.{
  Controller, update_content_topicfilter, update_topics, update_partitions,
}

-- What filter_command_ shows: an error, the filters on the standard output, or nothing.
pub data Reply : Type 0 where
  show_error : String → Reply
  print : String → Reply
  quiet : Reply

abbrev requires : String → String → Reply
requires command arguments =
    show_error ("Command <" ++ command ++ "> requires " ++ arguments ++ ".")

abbrev with_4 : String → String
with_4 command =
    "Command <" ++ command ++ "> with 4 arguments have the following format: " ++ command

-- The two loops that print the filters.
unfoldable pub print_topics : List (String × String) → String
print_topics [] = ""
print_topics ((topic, filter_str) ∷ rest) =
    (if filter_str =? "" then "" else "    " ++ topic ++ ": \"" ++ filter_str ++ "\"\n")
    ++ print_topics rest

unfoldable pub print_partitions : List String → String
print_partitions [] = ""
print_partitions (partition ∷ rest) =
    "    - " ++ (if partition =? "" then "\"\"" else partition) ++ "\n" ++ print_partitions rest

-- pair_topic.second = "" for every pair.
unfoldable pub clear_each_filter : List (String × String) → List (String × String)
clear_each_filter [] = []
clear_each_filter ((topic, filter_str) ∷ rest) = (topic, "") ∷ clear_each_filter rest

abbrev pub is_category : String → Bool
is_category category = category =? "partitions" || category =? "topic"

module _ ⦃G : Guids⦄ ⦃go : Order Guid⦄ ⦃D : DynTypes⦄ ⦃T : Topics⦄ ⦃M : Times⦄
    ⦃P : Database Guid ParticipantInfo⦄ ⦃E : Database Guid EndpointInfoData⦄ where
  abbrev pub Outcome : Type 0 → Type 0
  Outcome Callback = Option (Controller Callback × Reply)

module _ ⦃G : Guids⦄ ⦃go : Order Guid⦄ ⦃D : DynTypes⦄ ⦃T : Topics⦄ ⦃M : Times⦄
    ⦃P : Database Guid ParticipantInfo⦄ ⦃E : Database Guid EndpointInfoData⦄
    {Callback : Type 0} where
  unfoldable pub check_filter_contains_value : Controller Callback → String → String → Bool
  check_filter_contains_value c category value =
      if category =? "partitions" && Set.contains value c.partition_filter_set
      then true
      else (if category =? "topic" && is_some (Map.find value c.topic_filter_dict)
          then true
          else false)

  abbrev pub quietly : Option (Controller Callback) → Outcome Callback
  quietly none = none
  quietly (some c) = some (c, quiet)

  abbrev pub then_topics : Option (Controller Callback) → Option (Controller Callback)
  then_topics none = none
  then_topics (some c) = some (update_topics c)

  unfoldable pub show_filters : Controller Callback → String → Outcome Callback
  unfolding print_topics print_partitions
  show_filters c command =
      if command =? "filter"
      then some (c, requires command "3 or 4 arguments")
      else some (
        c,
        print (
            "--------\nFilters:\n--------\n\n  Topic:\n"
            ++ print_topics c.topic_filter_dict
            ++ "\n  Partitions:\n"
            ++ print_partitions c.partition_filter_set),
      )

  module _ ⦃W : Patterns⦄ where
    unfoldable pub clear_filters : Controller Callback → String → String → Outcome Callback
    unfolding clear_each_filter update_partitions update_topics
    clear_filters c command argument =
        if command =? "filter"
        then some (c, requires command "3 or 4 arguments")
        else (if not (argument =? "clear")
            then some (c, show_error "To clear filters list do: \"filters clear\".")
            else quietly (
                then_topics (
                  update_partitions (record c {
                    partition_filter_set = [];
                    topic_filter_dict = clear_each_filter c.topic_filter_dict;
                  }))))

    unfoldable pub clear_category :
        Controller Callback → String → String → String → Outcome Callback
    unfolding update_partitions update_topics
    clear_category c command operation category =
        if command =? "filters"
        then some (c, requires command "1 or 2 arguments")
        else (if not (operation =? "clear") || not (is_category category)
            then some (c, show_error "To clear a filter category do: \"filters clear <category>\".")
            else (if category =? "partitions"
                then quietly (update_partitions (record c { partition_filter_set = [] }))
                else some (update_topics (record c { topic_filter_dict = [] }), quiet)))

    unfoldable pub add_value : Controller Callback → String → String → Outcome Callback
    unfolding check_filter_contains_value update_partitions
    add_value c category filter_str =
        if check_filter_contains_value c category filter_str
        then some
            (c, show_error ("Partitions filter already contains filter_str: " ++ filter_str ++ "."))
        else quietly (
            update_partitions
              (record c { partition_filter_set = Set.insert filter_str c.partition_filter_set }))

    unfoldable pub remove_value : Controller Callback → String → String → Outcome Callback
    unfolding check_filter_contains_value update_partitions
    remove_value c category filter_str =
        if not (check_filter_contains_value c category filter_str)
        then some (
          c,
          show_error (
              (if category =? "partitions" then "Partitions" else "Topic")
              ++ " filter do not contains filter_str: "
              ++ filter_str
              ++ "."),
        )
        else quietly (
            update_partitions (
              if category =? "partitions"
              then record c { partition_filter_set = Set.erase filter_str c.partition_filter_set }
              else record c { topic_filter_dict = Map.insert filter_str "" c.topic_filter_dict }))

    unfoldable pub change_filter :
        Controller Callback → String → String → String → String → Outcome Callback
    unfolding add_value remove_value
    change_filter c command operation category value =
        if command =? "filters"
        then some (c, requires command "1 or 2 arguments")
        else (if not (is_category category)
            then some (
              c,
              show_error (
                  with_4 command
                  ++ " <add/remove> partitions <filter_str>. OR. "
                  ++ command
                  ++ " remove topic <topic_name>."),
            )
            else (if not (operation =? "add" || operation =? "remove")
                  || (category =? "topic" && operation =? "add")
                then some (
                  c,
                  show_error (
                      with_4 command
                      ++ (if category =? "partitions"
                          then " <add/remove> partitions <filter_str>."
                          else " remove topic <topic_name>.")),
                )
                else (if operation =? "add"
                    then add_value c category value
                    else remove_value c category value)))

  unfoldable pub set_topic_filter :
      Controller Callback → String → String → String → String → String → Outcome Callback
  unfolding update_content_topicfilter
  set_topic_filter c command operation category topic_str filter_str =
      if command =? "filters"
      then some (c, requires command "1 or 2 arguments")
      else (if not c.dds_enabled
          then some (c, show_error "RTPS does not support ContentFilteredTopic.")
          else (if not (operation =? "set") || not (category =? "topic")
              then some (
                c,
                show_error (
                    "Command <" ++ command ++ "> with 5 arguments have the following format: "
                    ++ command ++ " set topic <topic_name> <filter_str>."),
              )
              else some (
                update_content_topicfilter
                    (record c {
                      topic_filter_dict = Map.insert topic_str filter_str c.topic_filter_dict;
                    })
                    topic_str,
                quiet,
              )))

  -- `none` stands for what the source leaves undefined: no argument at all, or a guid that is not in
  -- the database.
  unfoldable pub filter_command :
      ⦃W : Patterns⦄ → Controller Callback → List String → Outcome Callback
  unfolding show_filters clear_filters clear_category change_filter set_topic_filter
  filter_command c [] = none
  filter_command c (command ∷ []) = show_filters c command
  filter_command c (command ∷ argument ∷ []) = clear_filters c command argument
  filter_command c (command ∷ operation ∷ category ∷ []) =
      clear_category c command operation category
  filter_command c (command ∷ operation ∷ category ∷ value ∷ []) =
      change_filter c command operation category value
  filter_command c (command ∷ operation ∷ category ∷ topic_str ∷ filter_str ∷ []) =
      set_topic_filter c command operation category topic_str filter_str
  filter_command c (command ∷ operation ∷ category ∷ topic_str ∷ filter_str ∷ more ∷ rest) =
      some (c, show_error ("Command <" ++ command ++ "> requires less than 5 argument."))
