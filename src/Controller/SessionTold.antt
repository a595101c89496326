-- ===== src/Controller/SessionTold.antt =====
-- Through a session, the DDS participant knows the partitions of the filter.
use fast_dds_spy.Prelude.{
  String, List, [], ◌∷◌, Option, none, some, Bool-cases, Option-cases, inl, inr, subst,
}
use fast_dds_spy.Order.{Order}
use fast_dds_spy.Order.Texts.{string_order}
use fast_dds_spy.External.Guids.{Guids, Guid, InstanceHandle}
use fast_dds_spy.External.DynTypes.{DynTypes}
use fast_dds_spy.External.Topics.{Topics, DdsTopic}
use fast_dds_spy.External.Times.{Times}
use fast_dds_spy.External.Database.{Database}
use fast_dds_spy.External.Patterns.{Patterns}
use fast_dds_spy.SpyModel.{SpyModel, ParticipantInfo, EndpointInfoData, Event}
use fast_dds_spy.SpyModel as Model
use fast_dds_spy.Controller.Arguments.{
  CommandValue, empty_command, help, exit, version, participant, datawriter, datareader, topic,
  print, error_input, filter,
}
use fast_dds_spy.Controller.EntityCommand.{participants_command, writers_command, readers_command}
use fast_dds_spy.Controller.PrintCommand.{print_command}
use fast_dds_spy.Controller.Filters.{Controller}
use fast_dds_spy.Controller.FilterCommand.{filter_command}
use fast_dds_spy.Controller.Told.{IsTold, Tells, filter_command-Tells}
use fast_dds_spy.Controller.Session.{Output, Input, is_exit, run_command, run_input, run_session}

module _ ⦃G : Guids⦄ ⦃go : Order Guid⦄ ⦃ho : Order InstanceHandle⦄ ⦃D : DynTypes⦄ ⦃T : Topics⦄
    ⦃to : Order DdsTopic⦄ ⦃M : Times⦄ ⦃P : Database Guid ParticipantInfo⦄
    ⦃E : Database Guid EndpointInfoData⦄ ⦃W : Patterns⦄ {Callback : Type 0} where
  abbrev pub StaysTold : Option (Controller Callback × Output) → Type 0
  StaysTold none = Unit
  StaysTold (some (c, shown)) = IsTold c

  abbrev pub EndsTold : Option (Controller Callback) → Type 0
  EndsTold none = Unit
  EndsTold (some c) = IsTold c

  run_command-StaysTold :
      (simple verbose : Callback) (c : Controller Callback) (v : CommandValue) (word : String)
      (options : List String) (waiting : List (Event Callback))
      → IsTold c
      → StaysTold (run_command simple verbose c v word options waiting)
  unfolding run_command
  run_command-StaysTold simple verbose c participant word options waiting t =
      elim (Option-cases (participants_command c.model (word ∷ options))) [
        | inl e ↦ rw e tt
        | inr (a, e) ↦ rw e t
      ]
  run_command-StaysTold simple verbose c datareader word options waiting t =
      elim (Option-cases (readers_command c.model (word ∷ options))) [
        | inl e ↦ rw e tt
        | inr (a, e) ↦ rw e t
      ]
  run_command-StaysTold simple verbose c datawriter word options waiting t =
      elim (Option-cases (writers_command c.model (word ∷ options))) [
        | inl e ↦ rw e tt
        | inr (a, e) ↦ rw e t
      ]
  run_command-StaysTold simple verbose c topic word options waiting t = t
  run_command-StaysTold simple verbose c print word options waiting t =
      elim (Option-cases (print_command simple verbose c.model (word ∷ options) waiting)) [
        | inl e ↦ rw e tt
        | inr ((m, reply), e) ↦ rw e t
      ]
  run_command-StaysTold simple verbose c version word options waiting t = t
  run_command-StaysTold simple verbose c help word options waiting t = t
  run_command-StaysTold simple verbose c error_input word options waiting t = t
  run_command-StaysTold simple verbose c filter word options waiting t =
      let told = filter_command-Tells c (word ∷ options) t in
      elim (Option-cases (filter_command c (word ∷ options))) [
        | inl e ↦ rw e tt
        | inr ((c', reply), e) ↦ rw e (subst Tells e told)
      ]
  run_command-StaysTold simple verbose c empty_command word options waiting t = t
  run_command-StaysTold simple verbose c exit word options waiting t = t

  pub run_input-StaysTold :
      (simple verbose : Callback) (c : Controller Callback) (i : Input Callback)
      → IsTold c
      → StaysTold (run_input simple verbose c i)
  unfolding run_input
  run_input-StaysTold simple verbose c i t = elim (Option-cases (Model.run c.model i.before)) [
    | inl e ↦ rw (e, run_input) tt
    | inr (m, e) ↦
        rw (e, run_input)
          (run_command-StaysTold simple verbose (record c { model = m }) i.command i.word i.options
            i.waiting t)
  ]

  pub run_session-EndsTold :
      (simple verbose : Callback) (c : Controller Callback) (inputs : List (Input Callback))
      → IsTold c
      → EndsTold (run_session simple verbose c inputs)
  unfolding run_session
  run_session-EndsTold simple verbose c [] t = t
  run_session-EndsTold simple verbose c (i ∷ rest) t =
      let told = run_input-StaysTold simple verbose c i t in
      elim (Option-cases (run_input simple verbose c i)) [
        | inl e ↦ rw (e, run_session) tt
        | inr ((c₁, shown), e) ↦
            let told₁ : IsTold c₁ = subst StaysTold e told in
            elim (Bool-cases (is_exit i.command)) [
              | inl left ↦ rw (e, run_session, left) told₁
              | inr stays ↦
                  rw (e, run_session, stays) (run_session-EndsTold simple verbose c₁ rest told₁)
            ]
      ]
