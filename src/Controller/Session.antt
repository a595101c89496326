-- ===== src/Controller/Session.antt =====
-- Controller.cpp, run_command_ and run: a session is a list of commands, with what happens to the
-- model before each of them and while it waits for a key. Its words are cut up by cpp_utils, which is
-- not part of this repository; a command has at least one word.
use mathlib.Core.Option
use fast_dds_spy.Prelude.{
  String, List, [], ◌∷◌, Option, none, some, Bool, true, false, if◌then◌else◌,
}
use fast_dds_spy.Order.{Order}
use fast_dds_spy.Order.Texts.{string_order}
use fast_dds_spy.External.Guids.{Guids, Guid}
use fast_dds_spy.External.DynTypes.{DynTypes}
use fast_dds_spy.External.Topics.{Topics, DdsTopic}
use fast_dds_spy.External.Times.{Times}
use fast_dds_spy.External.Database.{Database}
use fast_dds_spy.External.Patterns.{Patterns}
use fast_dds_spy.SpyModel.{SpyModel, ParticipantInfo, EndpointInfoData}
use fast_dds_spy.External.Guids.{InstanceHandle}
use fast_dds_spy.SpyModel.{Event}
use fast_dds_spy.SpyModel as Model
use fast_dds_spy.Parser.Data.{
  SimpleParticipantData, ComplexParticipantData, SimpleEndpointData, ComplexEndpointData,
}
use fast_dds_spy.Controller.Arguments.{
  CommandValue, empty_command, help, exit, version, participant, datawriter, datareader, topic,
  print, error_input, filter,
}
use fast_dds_spy.Controller.EntityCommand.{
  Answer, participants_command, writers_command, readers_command,
}
use fast_dds_spy.Controller.Texts.{help_command, error_command}
use fast_dds_spy.Controller.TopicsCommand.{Shown, topics_command}
use fast_dds_spy.Controller.PrintCommand.{PrintReply, print_command}
use fast_dds_spy.Controller.Filters.{Controller}
use fast_dds_spy.Controller.FilterCommand.{Reply, filter_command}

-- What a command shows. The text of version is version_command of the version of the build.
pub data Output ⦃G : Guids⦄ ⦃T : Topics⦄ ⦃M : Times⦄ : Type 0 where
  participants_shown : Answer SimpleParticipantData ComplexParticipantData → Output
  endpoints_shown : Answer SimpleEndpointData ComplexEndpointData → Output
  topics_shown : List Shown → Output
  data_shown : PrintReply → Output
  filters_shown : Reply → Output
  text_shown : String → Output
  version_shown : Output
  error_shown : String → Output
  nothing_shown : Output

pub record Input ⦃G : Guids⦄ ⦃D : DynTypes⦄ ⦃T : Topics⦄ ⦃M : Times⦄ (Callback : Type 0)
    : Type 0 where
  pub before : List (Event Callback)
  pub command : CommandValue
  pub word : String
  pub options : List String
  pub waiting : List (Event Callback)

abbrev pub is_exit : CommandValue → Bool
is_exit empty_command = false
is_exit help = false
is_exit exit = true
is_exit version = false
is_exit participant = false
is_exit datawriter = false
is_exit datareader = false
is_exit topic = false
is_exit print = false
is_exit error_input = false
is_exit filter = false

module _ ⦃G : Guids⦄ ⦃go : Order Guid⦄ ⦃ho : Order InstanceHandle⦄ ⦃D : DynTypes⦄ ⦃T : Topics⦄
    ⦃to : Order DdsTopic⦄ ⦃M : Times⦄ ⦃P : Database Guid ParticipantInfo⦄
    ⦃E : Database Guid EndpointInfoData⦄ ⦃W : Patterns⦄ {Callback : Type 0} where
  abbrev after_print :
      Controller Callback
      → Option (SpyModel Callback × PrintReply)
      → Option (Controller Callback × Output)
  after_print c none = none
  after_print c (some (m, reply)) = some (record c { model = m }, data_shown reply)

  abbrev after_filter : Option (Controller Callback × Reply) → Option (Controller Callback × Output)
  after_filter none = none
  after_filter (some (c, reply)) = some (c, filters_shown reply)

  -- The two callbacks are data_stream_callback_ and data_stream_callback_verbose_.
  unfoldable pub run_command :
      Callback
      → Callback
      → Controller Callback
      → CommandValue
      → String
      → List String
      → List (Event Callback)
      → Option (Controller Callback × Output)
  unfolding participants_command writers_command readers_command topics_command print_command
      filter_command
  run_command simple verbose c participant word options waiting =
      Option.map (λ a. (c, participants_shown a)) (participants_command c.model (word ∷ options))
  run_command simple verbose c datareader word options waiting =
      Option.map (λ a. (c, endpoints_shown a)) (readers_command c.model (word ∷ options))
  run_command simple verbose c datawriter word options waiting =
      Option.map (λ a. (c, endpoints_shown a)) (writers_command c.model (word ∷ options))
  run_command simple verbose c topic word options waiting =
      some (c, topics_shown (topics_command c.model (word ∷ options)))
  run_command simple verbose c print word options waiting =
      after_print c (print_command simple verbose c.model (word ∷ options) waiting)
  run_command simple verbose c version word options waiting = some (c, version_shown)
  run_command simple verbose c help word options waiting = some (c, text_shown help_command)
  run_command simple verbose c error_input word options waiting =
      some (c, error_shown (error_command word))
  run_command simple verbose c filter word options waiting =
      after_filter (filter_command c (word ∷ options))
  run_command simple verbose c empty_command word options waiting = some (c, nothing_shown)
  run_command simple verbose c exit word options waiting = some (c, nothing_shown)

  abbrev with_model :
      Controller Callback → Option (SpyModel Callback) → Option (Controller Callback)
  with_model c none = none
  with_model c (some m) = some (record c { model = m })

  -- What happens before the command, and the command.
  unfoldable pub run_input :
      Callback
      → Callback
      → Controller Callback
      → Input Callback
      → Option (Controller Callback × Output)
  unfolding run_command
  run_input simple verbose c i = elim (with_model c (Model.run c.model i.before)) [
    | none ↦ none
    | some c' ↦ run_command simple verbose c' i.command i.word i.options i.waiting
  ]

  -- The loop of run, which ends with the command exit or with the commands.
  unfoldable pub run_session :
      Callback
      → Callback
      → Controller Callback
      → List (Input Callback)
      → Option (Controller Callback)
  unfolding run_input
  run_session simple verbose c [] = some c
  run_session simple verbose c (i ∷ rest) = elim (run_input simple verbose c i) [
    | none ↦ none
    | some (c', shown) ↦
        let later = run_session simple verbose c' rest in
        if is_exit i.command then some c' else later
  ]
