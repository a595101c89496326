-- ===== src/Tests/Commands.antt =====
-- Runs of the commands of the controller.
use mathlib.Core.Option
use fast_dds_spy.Prelude.{
  List, ℕ, String, [], ◌∷◌, none, some, true, false, ◌≡◌, refl, ◌||◌, if◌then◌else◌, arith,
}
use fast_dds_spy.Order.{◌=?◌}
use fast_dds_spy.Order.Texts.{string_order, nat_order}
use fast_dds_spy.DataStreamer.Invariant.{initial-IsReady}
use fast_dds_spy.Map
use fast_dds_spy.Set
use fast_dds_spy.SpyModel.{SpyModel, EndpointInfoData, schema}
use fast_dds_spy.Parser.Data.{SimpleEndpointData, ComplexEndpointData}
use fast_dds_spy.Controller.Arguments.{verbose_argument, verbose_verbose_argument, idl_argument}
use fast_dds_spy.Controller.Filters.{Controller}
use fast_dds_spy.Controller.FilterCommand.{Reply, quiet, show_error, filter_command, show_filters}
use fast_dds_spy.Controller.FilterErrors.{filter_command-show_error}
use fast_dds_spy.Controller.FilterEffects.{filter_command-add_remove}
use fast_dds_spy.Controller.ContentFilters.{
  last_expression, filter_command-set, removed_filter_stays,
}
use fast_dds_spy.Controller.FilterTotal.{filter_command-Settles}
use fast_dds_spy.Controller.Arguments as Arguments
use fast_dds_spy.Controller.Session.{Input, run_session}
use fast_dds_spy.SpyModel.Keyed.{IsKeyed}
use fast_dds_spy.Controller.SessionKeyed.{run_session-IsKeyed}
use fast_dds_spy.Controller.SessionEnds.{run_session-IsReady}
use fast_dds_spy.DataStreamer.Invariant.{IsReady}
use fast_dds_spy.Controller.EntityCommand.{Answer, writers_command}
use fast_dds_spy.Controller.EntityAnswers.{IsAnswer, shown_endpoint, writers_command-answer}
use fast_dds_spy.Controller.TopicsCommand.{topics_command}
use fast_dds_spy.Controller.TopicsAnswers.{is_refused, is_unknown, topics_command-is_refused}
use fast_dds_spy.Controller.PrintCommand.{
  PrintReply, print_command, IsStopped, print_command-IsStopped,
}
use fast_dds_spy.Tests.World.{
  number_guids, text_types, text_topics, number_times, text_patterns, participant_list,
  endpoint_list,
}
use fast_dds_spy.Tests.Parsing.{small}

abbrev start : Controller ℕ
start = record {
  backend = [];
  model = small;
  dds_enabled = true;
  partition_filter_set = "B" ∷ [];
  topic_filter_dict = [];
}

without_a : Set.contains {K = String} "A" ("B" ∷ []) ≡ false
unfolding Set.contains
without_a = refl

with_b : Set.contains {K = String} "B" ("B" ∷ []) ≡ true
unfolding Set.contains
with_b = refl

refused :
    filter_command start ("filter" ∷ [])
    ≡ some (start, show_error "Command <filter> requires 3 or 4 arguments.")
unfolding filter_command show_filters
refused = refl

filter_command-show_error_example : start ≡ start
filter_command-show_error_example =
    filter_command-show_error start start ("filter" ∷ [])
      "Command <filter> requires 3 or 4 arguments." refused

filter_command-set_example :
    (c' : Controller ℕ) × (filter_command start
        ("filter" ∷ "set" ∷ "topic" ∷ "Square" ∷ "x > 5" ∷ [])
      ≡ some (c', quiet))
    × ((t : String)
        → (Map.find t c'.topic_filter_dict
            ≡ (if "Square" =? t then some "x > 5" else Map.find t []))
          × (last_expression t c'.backend ≡ (if "Square" =? t then some "x > 5" else none)))
    × (c'.model ≡ small)
    × (c'.partition_filter_set ≡ "B" ∷ [])
    × (c'.dds_enabled ≡ true)
filter_command-set_example = filter_command-set start "Square" "x > 5" refl

removed_filter_stays_example :
    (c₁ c₂ : Controller ℕ) × (filter_command start
        ("filter" ∷ "set" ∷ "topic" ∷ "Square" ∷ "x > 5" ∷ [])
      ≡ some (c₁, quiet))
    × (filter_command c₁ ("filter" ∷ "remove" ∷ "topic" ∷ "Square" ∷ []) ≡ some (c₂, quiet))
    × (Map.find "Square" c₂.topic_filter_dict ≡ some "")
    × (last_expression "Square" c₂.backend ≡ some "x > 5")
removed_filter_stays_example = removed_filter_stays start "Square" "x > 5" refl

guid_text : verbose_argument "11" ≡ false
unfolding verbose_argument
guid_text = refl

own : (x : EndpointInfoData) → Map.find 11 (small.endpoint_database).0 ≡ some x → x.info.guid ≡ 11
unfolding Map.find
own x found = ground arith

writers_command-answer_example :
    (a : Answer SimpleEndpointData ComplexEndpointData) × (writers_command small
        ("writers" ∷ "11" ∷ [])
      ≡ some a)
    × IsAnswer small (shown_endpoint 1 small 11) a
writers_command-answer_example = writers_command-answer small "writers" "11" guid_text refl own

asked : (verbose_argument "vv" || verbose_verbose_argument "vv" || idl_argument "vv") ≡ true
unfolding verbose_argument verbose_verbose_argument idl_argument
asked = refl

topics_command-is_refused_example :
    is_refused (topics_command small ("topics" ∷ "Circle" ∷ "vv" ∷ [])) ≡ is_unknown small "Circle"
topics_command-is_refused_example = topics_command-is_refused small "topics" "Circle" "vv" asked

print_command-IsStopped_example :
    (m' : SpyModel ℕ) × (reply : PrintReply) × (print_command 1 2 small
        ("echo" ∷ "all" ∷ [])
        (schema "Shape" ∷ [])
      ≡ some (m', reply))
    × IsStopped small m' reply
print_command-IsStopped_example =
    print_command-IsStopped 1 2 small "echo" ("all" ∷ []) (schema "Shape" ∷ []) initial-IsReady

filter_command-add_remove_example :
    (c₁ c₂ : Controller ℕ) × (filter_command start ("filter" ∷ "add" ∷ "partitions" ∷ "A" ∷ [])
      ≡ some (c₁, quiet))
    × (filter_command c₁ ("filter" ∷ "remove" ∷ "partitions" ∷ "A" ∷ []) ≡ some (c₂, quiet))
    × ((p : String) → Set.contains p c₂.partition_filter_set ≡ Set.contains p ("B" ∷ []))
filter_command-add_remove_example = filter_command-add_remove start "A" without_a

filter_command-Settles_example :
    (c' : Controller ℕ) × (reply : Reply) × (filter_command start
        ("filter" ∷ "clear" ∷ "topic" ∷ [])
      ≡ some (c', reply))
    × ((c'.model).streamer ≡ small.streamer)
filter_command-Settles_example = filter_command-Settles start "filter" ("clear" ∷ "topic" ∷ [])

-- echo all, with a type that is discovered meanwhile, and then quit.
abbrev two_commands : List (Input ℕ)
two_commands =
    record {
      before = [];
      command = Arguments.print;
      word = "echo";
      options = "all" ∷ [];
      waiting = schema "Shape" ∷ [];
    }
    ∷ record {
      before = schema "Shape" ∷ [];
      command = Arguments.exit;
      word = "quit";
      options = [];
      waiting = [];
    }
    ∷ []

run_session-IsReady_example :
    (c' : Controller ℕ) × (run_session 1 2 start two_commands ≡ some c')
    × IsReady (c'.model).streamer
run_session-IsReady_example = run_session-IsReady 1 2 start two_commands initial-IsReady

-- The filters are cleared, and the user leaves.
abbrev one_filter : List (Input ℕ)
one_filter =
    record {
      before = schema "Shape" ∷ [];
      command = Arguments.filter;
      word = "filters";
      options = "clear" ∷ [];
      waiting = [];
    }
    ∷ record { before = []; command = Arguments.exit; word = "quit"; options = []; waiting = [] }
    ∷ []

run_session-IsKeyed_example :
    (c' : Controller ℕ) × (run_session 1 2 start one_filter ≡ some c')
    × IsKeyed ((c'.model).endpoint_database).0
run_session-IsKeyed_example =
    run_session-IsKeyed 1 2 start one_filter initial-IsReady (refl, (refl, tt))
