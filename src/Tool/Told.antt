-- ===== src/Tool/Told.antt =====
-- From the start of main to its end, the DDS participant knows the partitions of the filter.
use fast_dds_spy.Prelude.{String, Bool, List, Option, some, ◌≡◌, subst, inl, inr}
use fast_dds_spy.Prelude.{Option-cases}
use fast_dds_spy.Order.{Order}
use fast_dds_spy.Order.Texts.{string_order}
use fast_dds_spy.External.Guids.{Guids, Guid, InstanceHandle}
use fast_dds_spy.External.DynTypes.{DynTypes}
use fast_dds_spy.External.Topics.{Topics, DdsTopic, FilterTopic}
use fast_dds_spy.External.Times.{Times}
use fast_dds_spy.External.Database.{Database}
use fast_dds_spy.External.Patterns.{Patterns}
use fast_dds_spy.External.Options.{OptionTools}
use fast_dds_spy.External.InternalTopics.{TopicTools}
use fast_dds_spy.External.YamlReading.{YamlReading}
use fast_dds_spy.SpyModel.{ParticipantInfo, EndpointInfoData, Event}
use fast_dds_spy.DataStreamer.Invariant.{IsReady}
use fast_dds_spy.CommandLine.{
  success, help_argument, version_argument, incorrect_argument, required_argument_failed,
  execution_failed,
}
use fast_dds_spy.CommandLine.Parsing.{Parsed, finished, thrown}
use fast_dds_spy.Configuration.{Configuration}
use fast_dds_spy.Controller.Arguments.{CommandValue}
use fast_dds_spy.Controller.Filters.{Controller}
use fast_dds_spy.Controller.Session.{Input, run_input}
use fast_dds_spy.Controller.Told.{IsTold}
use fast_dds_spy.Controller.SessionTold.{
  StaysTold, EndsTold, run_input-StaysTold, run_session-EndsTold,
}
use fast_dds_spy.Tool.Starting.{ParticipantKind}
use fast_dds_spy.Tool.Main.{
  Running, Launch, exits, runs, crashes, choose_file, launch, launch_args, parse_as_command,
  run_controller,
}
use fast_dds_spy.Tool.Consistency.{launch-IsConsistent}
use fast_dds_spy.Tool.Exits.{
  Launched, can_start, launch_args-Launched, run_controller-ends, List-cases,
}

module _ ⦃G : Guids⦄ ⦃go : Order Guid⦄ ⦃ho : Order InstanceHandle⦄ ⦃D : DynTypes⦄ ⦃T : Topics⦄
    ⦃to : Order DdsTopic⦄ ⦃M : Times⦄ ⦃P : Database Guid ParticipantInfo⦄
    ⦃E : Database Guid EndpointInfoData⦄ ⦃R : YamlReading⦄ ⦃I : TopicTools⦄ ⦃fo : Order FilterTopic⦄
    ⦃O : OptionTools⦄ where
  -- What runs has a ready model.
  abbrev RunsReady : {Callback : Type 0} → Launch Callback → Type 0
  RunsReady (exits code) = Unit
  RunsReady (runs r) = IsReady ((r.controller).model).streamer
  RunsReady crashes = Unit

  Launched-RunsReady :
      {Callback : Type 0} (can : Bool) (l : Launch Callback) → Launched can l → RunsReady l
  Launched-RunsReady can (exits code) h = tt
  Launched-RunsReady can (runs r) h = h.1
  Launched-RunsReady can crashes h = tt

  launch-RunsReady :
      (Callback : Type 0) (shown : String) (init : ParticipantKind → Configuration → Bool)
      (p : Parsed)
      → RunsReady (launch {Callback = Callback} shown init p)
  unfolding launch
  launch-RunsReady Callback shown init thrown = tt
  launch-RunsReady Callback shown init (finished success args) =
      Launched-RunsReady (can_start shown init (choose_file args))
        (launch_args shown init (choose_file args))
        (launch_args-Launched Callback shown init (choose_file args))
  launch-RunsReady Callback shown init (finished help_argument args) = tt
  launch-RunsReady Callback shown init (finished version_argument args) = tt
  launch-RunsReady Callback shown init (finished incorrect_argument args) = tt
  launch-RunsReady Callback shown init (finished required_argument_failed args) = tt
  launch-RunsReady Callback shown init (finished execution_failed args) = tt

  module _ ⦃W : Patterns⦄ {Callback : Type 0} where
    run_controller-EndsTold :
        (simple verbose : Callback) (table : String → Option CommandValue) (r : Running Callback)
        (before waiting : List (Event Callback)) (inputs : List (Input Callback))
        → IsTold r.controller
        → EndsTold (run_controller simple verbose table r before waiting inputs)
    unfolding run_controller
    run_controller-EndsTold simple verbose table r before waiting inputs t =
        elim (List-cases r.one_shot_command) [
          | inl e ↦
              rw (e, run_controller) (run_session-EndsTold simple verbose r.controller inputs t)
          | inr (word, options, e) ↦
              let i : Input Callback = record {
                before = before;
                command = parse_as_command table word;
                word = word;
                options = options;
                waiting = waiting;
              } in
              let told = run_input-StaysTold simple verbose r.controller i t in
              elim (Option-cases (run_input simple verbose r.controller i)) [
                | inl fails ↦ rw (e, run_controller, fails) tt
                | inr ((c, shown), done) ↦ rw (e, run_controller, done) (subst StaysTold done told)
              ]
        ]

    -- Once main has started the tool, whatever the file, the command line and the commands of the user
    -- are, and for every sequence of whole events of the network, each of which runs undisturbed, the
    -- run of the controller, of a session or of one command, comes to its end, and the partitions that
    -- the DDS participant was last told are then those of the filter of the controller.
    pub run_controller-IsTold :
        (simple verbose : Callback) (table : String → Option CommandValue) (shown : String)
        (init : ParticipantKind → Configuration → Bool) (p : Parsed) (r : Running Callback)
        (before waiting : List (Event Callback)) (inputs : List (Input Callback))
        → launch shown init p ≡ runs r
        → (c : Controller Callback) × (run_controller simple verbose table r before waiting inputs
            ≡ some c)
          × IsTold c
    run_controller-IsTold simple verbose table shown init p r before waiting inputs started =
        let ready = subst RunsReady started (launch-RunsReady Callback shown init p) in
        let (told, filters) = launch-IsConsistent shown init p r started in
        let (c, ended) = run_controller-ends simple verbose table r before waiting inputs ready in
        (
          c,
          ended,
          subst EndsTold ended
              (run_controller-EndsTold simple verbose table r before waiting inputs told),
        )
