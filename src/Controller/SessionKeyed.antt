-- ===== src/Controller/SessionKeyed.antt =====
-- Through a session, each endpoint of the database stands under its own guid.
use fast_dds_spy.Prelude.{
  String, List, [], ◌∷◌, Option, none, some, ◌≡◌, Bool-cases, Option-cases, inl, inr, subst, not,
  is_empty,
}
use fast_dds_spy.Order.{Order}
use fast_dds_spy.Order.Texts.{string_order}
use fast_dds_spy.External.Guids.{Guids, Guid, InstanceHandle}
use fast_dds_spy.External.DynTypes.{DynTypes}
use fast_dds_spy.External.Topics.{Topics, DdsTopic}
use fast_dds_spy.External.Times.{Times}
use fast_dds_spy.External.Database.{Database}
use fast_dds_spy.External.Patterns.{Patterns}
use fast_dds_spy.SpyModel.{SpyModel, ParticipantInfo, EndpointInfoData, Event}
use fast_dds_spy.SpyModel as Model
use fast_dds_spy.SpyModel.Keyed.{IsKeyed, IsKeyed-FindsOwn, OwnsAll, OwnsAll-IsKeyed, run-OwnsAll}
use fast_dds_spy.DataStreamer
use fast_dds_spy.DataStreamer.Invariant.{IsReady}
use fast_dds_spy.Parser.Topics.{get_topics}
use fast_dds_spy.Controller.Arguments.{
  CommandValue, empty_command, help, exit, version, participant, datawriter, datareader, topic,
  print, error_input, filter, all_argument,
}
use fast_dds_spy.Controller.EntityCommand.{participants_command, writers_command, readers_command}
use fast_dds_spy.Controller.PrintCommand.{PrintReply, print_until_key, print_topic, print_command}
use fast_dds_spy.Controller.Filters.{Controller}
use fast_dds_spy.Controller.FilterCommand.{filter_command}
use fast_dds_spy.Controller.FilterTotal.{OutcomeKeyed, filter_command-OutcomeKeyed}
use fast_dds_spy.Controller.Session.{Output, Input, is_exit, run_command, run_input, run_session}
use fast_dds_spy.Controller.SessionEnds.{run_session-IsReady}

module _ ⦃G : Guids⦄ ⦃go : Order Guid⦄ ⦃ho : Order InstanceHandle⦄ ⦃D : DynTypes⦄ ⦃T : Topics⦄
    ⦃to : Order DdsTopic⦄ ⦃M : Times⦄ ⦃P : Database Guid ParticipantInfo⦄
    ⦃E : Database Guid EndpointInfoData⦄ {Callback : Type 0} where
  abbrev PrintOwns : Option (SpyModel Callback × PrintReply) → Type 0
  PrintOwns none = Unit
  PrintOwns (some (m, reply)) = OwnsAll m

  print_until_key-PrintOwns :
      (m : SpyModel Callback) (events : List (Event Callback))
      → OwnsAll m
      → PrintOwns (print_until_key m events)
  unfolding print_until_key
  print_until_key-PrintOwns m events own = elim (Option-cases (Model.run m events)) [
    | inl e ↦ rw (e, print_until_key) tt
    | inr (m', e) ↦ rw (e, print_until_key) (run-OwnsAll m m' events own e)
  ]

  print_command-PrintOwns :
      (simple verbose : Callback) (m : SpyModel Callback) (arguments : List String)
      (events : List (Event Callback))
      → OwnsAll m
      → PrintOwns (print_command simple verbose m arguments events)
  unfolding print_command print_topic
  print_command-PrintOwns simple verbose m [] events own = tt
  print_command-PrintOwns simple verbose m (command ∷ []) events own = own
  print_command-PrintOwns simple verbose m (command ∷ argument ∷ options) events own =
      elim (Bool-cases (all_argument argument)) [
        | inl all ↦ rw all (print_until_key-PrintOwns _ events own)
        | inr one ↦ elim (Bool-cases (is_empty (get_topics m (T.named_topic argument)))) [
          | inl nothing ↦ rw (one, nothing) own
          | inr some_topic ↦
              elim (Bool-cases (
                not (
                  DataStreamer.is_any_topic_type_discovered m.streamer
                    (get_topics m (T.named_topic argument))))) [
                      | inl unknown ↦ rw (one, some_topic, unknown) own
                      | inr known ↦
                          rw (one, some_topic, known) (print_until_key-PrintOwns _ events own)
                    ]
        ]
      ]

  module _ ⦃W : Patterns⦄ where
    abbrev StaysOwn : Option (Controller Callback × Output) → Type 0
    StaysOwn none = Unit
    StaysOwn (some (c, shown)) = OwnsAll c.model

    abbrev EndsOwn : Option (Controller Callback) → Type 0
    EndsOwn none = Unit
    EndsOwn (some c) = OwnsAll c.model

    run_command-StaysOwn :
        (simple verbose : Callback) (c : Controller Callback) (v : CommandValue) (word : String)
        (options : List String) (waiting : List (Event Callback))
        → OwnsAll c.model
        → StaysOwn (run_command simple verbose c v word options waiting)
    unfolding run_command
    run_command-StaysOwn simple verbose c participant word options waiting own =
        elim (Option-cases (participants_command c.model (word ∷ options))) [
          | inl e ↦ rw e tt
          | inr (a, e) ↦ rw e own
        ]
    run_command-StaysOwn simple verbose c datareader word options waiting own =
        elim (Option-cases (readers_command c.model (word ∷ options))) [
          | inl e ↦ rw e tt
          | inr (a, e) ↦ rw e own
        ]
    run_command-StaysOwn simple verbose c datawriter word options waiting own =
        elim (Option-cases (writers_command c.model (word ∷ options))) [
          | inl e ↦ rw e tt
          | inr (a, e) ↦ rw e own
        ]
    run_command-StaysOwn simple verbose c topic word options waiting own = own
    run_command-StaysOwn simple verbose c print word options waiting own =
        let owns = print_command-PrintOwns simple verbose c.model (word ∷ options) waiting own in
        elim (Option-cases (print_command simple verbose c.model (word ∷ options) waiting)) [
          | inl e ↦ rw e tt
          | inr ((m, reply), e) ↦ let kept : OwnsAll m = subst PrintOwns e owns in rw e kept
        ]
    run_command-StaysOwn simple verbose c version word options waiting own = own
    run_command-StaysOwn simple verbose c help word options waiting own = own
    run_command-StaysOwn simple verbose c error_input word options waiting own = own
    run_command-StaysOwn simple verbose c filter word options waiting own =
        let keeps = filter_command-OutcomeKeyed c word options in
        elim (Option-cases (filter_command c (word ∷ options))) [
          | inl e ↦ rw e tt
          | inr ((c', reply), e) ↦
              let kept : OwnsAll c'.model = subst (OutcomeKeyed c) e keeps own in rw e kept
        ]
    run_command-StaysOwn simple verbose c empty_command word options waiting own = own
    run_command-StaysOwn simple verbose c exit word options waiting own = own

    run_input-StaysOwn :
        (simple verbose : Callback) (c : Controller Callback) (i : Input Callback)
        → OwnsAll c.model
        → StaysOwn (run_input simple verbose c i)
    unfolding run_input
    run_input-StaysOwn simple verbose c i own = elim (Option-cases (Model.run c.model i.before)) [
      | inl e ↦ rw (e, run_input) tt
      | inr (m, e) ↦
          rw (e, run_input)
            (run_command-StaysOwn simple verbose (record c { model = m }) i.command i.word i.options
              i.waiting (run-OwnsAll c.model m i.before own e))
    ]

    run_session-EndsOwn :
        (simple verbose : Callback) (c : Controller Callback) (inputs : List (Input Callback))
        → OwnsAll c.model
        → EndsOwn (run_session simple verbose c inputs)
    unfolding run_session
    run_session-EndsOwn simple verbose c [] own = own
    run_session-EndsOwn simple verbose c (i ∷ rest) own =
        let owns = run_input-StaysOwn simple verbose c i own in
        elim (Option-cases (run_input simple verbose c i)) [
          | inl e ↦ rw (e, run_session) tt
          | inr ((c₁, shown), e) ↦
              let own₁ : OwnsAll c₁.model = subst StaysOwn e owns in
              elim (Bool-cases (is_exit i.command)) [
                | inl left ↦ rw (e, run_session, left) own₁
                | inr stays ↦
                    rw (e, run_session, stays) (run_session-EndsOwn simple verbose c₁ rest own₁)
              ]
        ]

    -- From a controller with a ready model, in whose database each endpoint stands under its own
    -- guid, every session runs to its end and leaves each endpoint under its own guid: with any
    -- commands, among them those that filter the endpoints, and with any sequence of whole events,
    -- each of which runs undisturbed, before and during each of them.
    pub run_session-IsKeyed :
        (simple verbose : Callback) (c : Controller Callback) (inputs : List (Input Callback))
        → IsReady (c.model).streamer
        → IsKeyed (E.entries (c.model).endpoint_database)
        → (c' : Controller Callback) × (run_session simple verbose c inputs ≡ some c')
          × IsKeyed (E.entries (c'.model).endpoint_database)
    run_session-IsKeyed simple verbose c inputs r keyed =
        let own = IsKeyed-FindsOwn (E.entries (c.model).endpoint_database) keyed in
        let (c', ended, ready) = run_session-IsReady simple verbose c inputs r in
        (
          c',
          ended,
          OwnsAll-IsKeyed c'.model
              (subst EndsOwn ended (run_session-EndsOwn simple verbose c inputs own)),
        )
