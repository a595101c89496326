-- ===== src/Controller/SessionEnds.antt =====
-- A session never gets stuck.
use fast_dds_spy.Prelude.{
  String, List, [], ◌∷◌, Option, some, ◌≡◌, refl, sym, Bool-cases, Option-cases, inl, inr, subst,
}
use fast_dds_spy.Order.{Order}
use fast_dds_spy.Order.Texts.{string_order}
use fast_dds_spy.External.Guids.{Guids, Guid}
use fast_dds_spy.External.DynTypes.{DynTypes}
use fast_dds_spy.External.Topics.{Topics, DdsTopic}
use fast_dds_spy.External.Times.{Times}
use fast_dds_spy.External.Database.{Database}
use fast_dds_spy.External.Patterns.{Patterns}
use fast_dds_spy.Map
use fast_dds_spy.SpyModel.{SpyModel, ParticipantInfo, EndpointInfoData}
use fast_dds_spy.External.Guids.{InstanceHandle}
use fast_dds_spy.DataStreamer.Invariant.{IsReady}
use fast_dds_spy.SpyModel.{Event}
use fast_dds_spy.SpyModel.History.{run-IsReady}
use fast_dds_spy.Parser.Data.{
  SimpleParticipantData, ComplexParticipantData, SimpleEndpointData, ComplexEndpointData,
}
use fast_dds_spy.Parser.Participants.{
  participant, each_participant, participants_verbose, no_participant,
}
use fast_dds_spy.Parser.Counts.{participant-tally}
use fast_dds_spy.Controller.Arguments.{
  CommandValue, empty_command, help, exit, version, print, error_input, filter, datawriter,
  datareader, topic, verbose_argument,
}
use fast_dds_spy.Controller.Arguments as Arguments
use fast_dds_spy.Controller.EntityCommand.{
  Answer, participants_command, writers_command, readers_command, dds_entity_command,
}
use fast_dds_spy.Controller.PrintCommand.{
  PrintReply, printed, show_error, IsStopped, print_command-IsStopped,
}
use fast_dds_spy.Controller.Filters.{Controller}
use fast_dds_spy.Controller.FilterTotal.{filter_command-Settles}
use fast_dds_spy.Controller.Session.{Output, Input, is_exit, run_command, run_input, run_session}

module _ ⦃G : Guids⦄ ⦃go : Order Guid⦄ ⦃D : DynTypes⦄ ⦃T : Topics⦄ ⦃M : Times⦄
    ⦃P : Database Guid ParticipantInfo⦄ ⦃E : Database Guid EndpointInfoData⦄
    {Callback : Type 0} where
  participant_total :
      (m : SpyModel Callback) (guid : Guid)
      → (d : ComplexParticipantData) × (participant m guid ≡ some d)
  unfolding participant
  participant_total m guid =
      elim (Option-cases (Map.find guid (P.entries m.participant_database))) [
        | inl missing ↦ (no_participant, rw (missing, participant) refl)
        | inr (p, known) ↦ elim (Bool-cases (G.is_valid guid)) [
          | inl valid ↦ (_, participant-tally m guid p known valid)
          | inr invalid ↦ (
            record no_participant { guid = guid; name = p.name },
            rw (known, participant, invalid) refl,
          )
        ]
      ]

  each_participant_total :
      (m : SpyModel Callback) (ps : List (Guid × ParticipantInfo))
      → (ds : List ComplexParticipantData) × (each_participant m ps ≡ some ds)
  unfolding each_participant
  each_participant_total m [] = ([], refl)
  each_participant_total m ((k, p) ∷ rest) =
      let (ds, others) = each_participant_total m rest in
      elim (Bool-cases p.active) [
        | inr gone ↦ (ds, rw gone others)
        | inl here ↦
            let (d, one) = participant_total m p.guid in (d ∷ ds, rw (here, one, others) refl)
      ]

  participants_command_total :
      (m : SpyModel Callback) (word : String) (options : List String)
      → (a : Answer SimpleParticipantData ComplexParticipantData) × (participants_command m
            (word ∷ options)
          ≡ some a)
  unfolding participants_command dds_entity_command participants_verbose
  participants_command_total m word [] = (_, refl)
  participants_command_total m word (argument ∷ options) =
      elim (Bool-cases (verbose_argument argument)) [
        | inl v ↦
            let (ds, all) = each_participant_total m (P.entries m.participant_database) in
            rw (v, all) (_, refl)
        | inr v ↦ elim (Bool-cases (G.is_valid (G.read_guid argument))) [
          | inr invalid ↦ rw (v, invalid) (_, refl)
          | inl valid ↦
              let (d, one) = participant_total m (G.read_guid argument) in
              rw (v, valid, one) (_, refl)
        ]
      ]

  writers_command_total :
      (m : SpyModel Callback) (word : String) (options : List String)
      → (a : Answer SimpleEndpointData ComplexEndpointData) × (writers_command m (word ∷ options)
          ≡ some a)
  unfolding writers_command dds_entity_command
  writers_command_total m word [] = (_, refl)
  writers_command_total m word (argument ∷ options) =
      elim (Bool-cases (verbose_argument argument)) [
        | inl v ↦ rw v (_, refl)
        | inr v ↦ elim (Bool-cases (G.is_valid (G.read_guid argument))) [
          | inr invalid ↦ rw (v, invalid) (_, refl)
          | inl valid ↦ rw (v, valid) (_, refl)
        ]
      ]

  readers_command_total :
      (m : SpyModel Callback) (word : String) (options : List String)
      → (a : Answer SimpleEndpointData ComplexEndpointData) × (readers_command m (word ∷ options)
          ≡ some a)
  unfolding readers_command dds_entity_command
  readers_command_total m word [] = (_, refl)
  readers_command_total m word (argument ∷ options) =
      elim (Bool-cases (verbose_argument argument)) [
        | inl v ↦ rw v (_, refl)
        | inr v ↦ elim (Bool-cases (G.is_valid (G.read_guid argument))) [
          | inr invalid ↦ rw (v, invalid) (_, refl)
          | inl valid ↦ rw (v, valid) (_, refl)
        ]
      ]

module _ ⦃G : Guids⦄ ⦃go : Order Guid⦄ ⦃ho : Order InstanceHandle⦄ ⦃D : DynTypes⦄ ⦃T : Topics⦄
    ⦃to : Order DdsTopic⦄ ⦃M : Times⦄ ⦃P : Database Guid ParticipantInfo⦄
    ⦃E : Database Guid EndpointInfoData⦄ ⦃W : Patterns⦄ {Callback : Type 0} where
  -- There is an outcome, with a streamer that is ready.
  abbrev pub GoesOn : Option (Controller Callback × Output) → Type 0
  GoesOn o =
      (c' : Controller Callback) × (shown : Output) × (o ≡ some (c', shown))
      × IsReady (c'.model).streamer

  stopped-IsReady :
      (m m' : SpyModel Callback) (reply : PrintReply)
      → IsReady m.streamer
      → IsStopped m m' reply
      → IsReady m'.streamer
  stopped-IsReady m m' printed v stopped = stopped.2
  stopped-IsReady m m' (show_error t) v stopped = subst (λ x. IsReady x.streamer) (sym stopped) v

  run_command-GoesOn :
      (simple verbose : Callback) (c : Controller Callback) (v : CommandValue) (word : String)
      (options : List String) (waiting : List (Event Callback))
      → IsReady (c.model).streamer
      → GoesOn (run_command simple verbose c v word options waiting)
  unfolding run_command
  run_command-GoesOn simple verbose c Arguments.participant word options waiting r =
      let (a, done) = participants_command_total c.model word options in rw done (c, _, refl, r)
  run_command-GoesOn simple verbose c datareader word options waiting r =
      let (a, done) = readers_command_total c.model word options in rw done (c, _, refl, r)
  run_command-GoesOn simple verbose c datawriter word options waiting r =
      let (a, done) = writers_command_total c.model word options in rw done (c, _, refl, r)
  run_command-GoesOn simple verbose c topic word options waiting r = (c, _, refl, r)
  run_command-GoesOn simple verbose c print word options waiting r =
      let (m', reply, done, stopped) =
        print_command-IsStopped simple verbose c.model word options waiting r in
      rw done (record c { model = m' }, _, refl, stopped-IsReady c.model m' reply r stopped)
  run_command-GoesOn simple verbose c version word options waiting r = (c, _, refl, r)
  run_command-GoesOn simple verbose c help word options waiting r = (c, _, refl, r)
  run_command-GoesOn simple verbose c error_input word options waiting r = (c, _, refl, r)
  run_command-GoesOn simple verbose c filter word options waiting r =
      let (c', reply, done, same) = filter_command-Settles c word options in
      rw done (c', _, refl, subst IsReady (sym same) r)
  run_command-GoesOn simple verbose c empty_command word options waiting r = (c, _, refl, r)
  run_command-GoesOn simple verbose c exit word options waiting r = (c, _, refl, r)

  pub run_input-GoesOn :
      (simple verbose : Callback) (c : Controller Callback) (i : Input Callback)
      → IsReady (c.model).streamer
      → GoesOn (run_input simple verbose c i)
  unfolding run_input
  run_input-GoesOn simple verbose c i r =
      let (m', ran, ready) = run-IsReady c.model i.before r in
      rw (ran, run_input)
        (run_command-GoesOn simple verbose (record c { model = m' }) i.command i.word i.options
          i.waiting ready)

  -- From a controller with a ready model, a session with any commands, and with any sequence of whole
  -- events, each of which runs undisturbed, before and during each of them, runs to its end: nothing
  -- dangles, and no index is past an end. The model is ready after it.
  pub run_session-IsReady :
      (simple verbose : Callback) (c : Controller Callback) (inputs : List (Input Callback))
      → IsReady (c.model).streamer
      → (c' : Controller Callback) × (run_session simple verbose c inputs ≡ some c')
        × IsReady (c'.model).streamer
  unfolding run_session
  run_session-IsReady simple verbose c [] r = (c, refl, r)
  run_session-IsReady simple verbose c (i ∷ rest) r =
      let (c₁, shown, done, r₁) = run_input-GoesOn simple verbose c i r in
      let (c₂, ended, r₂) = run_session-IsReady simple verbose c₁ rest r₁ in
      elim (Bool-cases (is_exit i.command)) [
        | inl left ↦ (c₁, rw (done, run_session, left) refl, r₁)
        | inr stays ↦ (c₂, rw (done, run_session, stays) ended, r₂)
      ]
