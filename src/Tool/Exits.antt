-- ===== src/Tool/Exits.antt =====
-- The process ends, and with which number.
use fast_dds_spy.Prelude.{
  ℕ, String, Bool, true, false, ◌&&◌, if◌then◌else◌, none, List, [], ◌∷◌, Option, some,
}
use fast_dds_spy.Order.{Order}
use fast_dds_spy.Order.Texts.{string_order}
use fast_dds_spy.External.Guids.{Guids, Guid, InstanceHandle}
use fast_dds_spy.External.DynTypes.{DynTypes}
use fast_dds_spy.External.Topics.{Topics, DdsTopic, FilterTopic}
use fast_dds_spy.External.Times.{Times}
use fast_dds_spy.External.Database.{Database}
use fast_dds_spy.External.Patterns.{Patterns}
use fast_dds_spy.External.Options.{OptionTools}
use fast_dds_spy.External.InternalTopics.{TopicTools}
use fast_dds_spy.External.YamlReading.{YamlReading}
use fast_dds_spy.Prelude.{◌≡◌, ◌⊎◌, inl, inr, refl, ap, Bool-cases, Option-cases}
use fast_dds_spy.SpyModel.{ParticipantInfo, EndpointInfoData, Event, spy_model}
use fast_dds_spy.DataStreamer.Invariant.{IsReady, initial-IsReady}
use fast_dds_spy.CommandLine.{
  Args, ProcessReturnCode, success, help_argument, version_argument, incorrect_argument, Validity,
  valid, invalid, required_argument_failed, execution_failed, exit_code,
}
use fast_dds_spy.CommandLine.Parsing.{finished}
use fast_dds_spy.Configuration.{Configuration, is_valid}
use fast_dds_spy.Configuration.Loading.{load_configuration_from_file}
use fast_dds_spy.Controller.Arguments.{CommandValue}
use fast_dds_spy.Controller.Filters.{Controller, set_partition_filter, set_content_topic_filter}
use fast_dds_spy.Controller.Session.{Input}
use fast_dds_spy.Controller.SessionEnds.{run_input-GoesOn, run_session-IsReady}
use fast_dds_spy.Tool.Starting.{ParticipantKind, kind_of, new_backend, new_controller}
use fast_dds_spy.Tool.Main.{
  Running, Launch, exits, runs, crashes, choose_file, launch_with, launch_args, launch,
  parse_as_command, run_controller, main,
}
use fast_dds_spy.Tool.Consistency.{Validity-cases}

pub List-cases :
    (xs : List String) → (xs ≡ []) ⊎ ((x : String) × (rest : List String) × (xs ≡ x ∷ rest))
List-cases [] = inl refl
List-cases (x ∷ rest) = inr (x, rest, refl)

module _ ⦃G : Guids⦄ ⦃go : Order Guid⦄ ⦃ho : Order InstanceHandle⦄ ⦃D : DynTypes⦄ ⦃T : Topics⦄
    ⦃to : Order DdsTopic⦄ ⦃M : Times⦄ ⦃P : Database Guid ParticipantInfo⦄
    ⦃E : Database Guid EndpointInfoData⦄ ⦃R : YamlReading⦄ ⦃I : TopicTools⦄ ⦃fo : Order FilterTopic⦄
    ⦃O : OptionTools⦄ where
  -- The tool can be built with the arguments: the configuration loads and is valid, and the init of
  -- its participant goes through.
  abbrev is_ok : Validity → Bool
  is_ok valid = true
  is_ok (invalid text) = false

  abbrev starts_with :
      String → (ParticipantKind → Configuration → Bool) → Option Configuration → Bool
  starts_with shown init none = false
  starts_with shown init (some c) = is_ok (is_valid O.max_domain_id shown c) && init (kind_of c) c

  abbrev pub can_start : String → (ParticipantKind → Configuration → Bool) → Args → Bool
  can_start shown init args =
      starts_with shown init (load_configuration_from_file args.file_path (some args))

  -- What main returns for each answer of parse_arguments.
  abbrev pub number_for : Bool → ProcessReturnCode → ℕ
  number_for can success = if can then 0 else 20
  number_for can help_argument = 0
  number_for can version_argument = 0
  number_for can incorrect_argument = 10
  number_for can required_argument_failed = 11
  number_for can execution_failed = 20

  -- Nothing was thrown; what runs starts from a ready model, and what does not has failed.
  abbrev pub Launched : {Callback : Type 0} → Bool → Launch Callback → Type 0
  Launched can (exits code) = (can ≡ false) × (code ≡ execution_failed)
  Launched can (runs r) = (can ≡ true) × IsReady ((r.controller).model).streamer
  Launched can crashes = ⊥

  launch_with-Launched :
      (Callback : Type 0) (shown : String) (init : ParticipantKind → Configuration → Bool)
      (args : Args) (c : Configuration)
      → Launched
          (starts_with shown init (some c))
          (launch_with {Callback = Callback} shown init args c)
  unfolding launch_with new_backend new_controller set_partition_filter set_content_topic_filter
      spy_model
  launch_with-Launched Callback shown init args c =
      elim (Validity-cases (is_valid O.max_domain_id shown c)) [
        | inr (text, e) ↦ rw (e, launch_with) (refl, refl)
        | inl e ↦ elim (Bool-cases (init (kind_of c) c)) [
          | inl up ↦ rw (e, up, launch_with) (refl, initial-IsReady)
          | inr down ↦ rw (e, down, launch_with) (refl, refl)
        ]
      ]

  pub launch_args-Launched :
      (Callback : Type 0) (shown : String) (init : ParticipantKind → Configuration → Bool)
      (args : Args)
      → Launched (can_start shown init args) (launch_args {Callback = Callback} shown init args)
  unfolding launch_args
  launch_args-Launched Callback shown init args =
      elim (Option-cases (load_configuration_from_file args.file_path (some args))) [
        | inl e ↦ rw (e, launch_args) (refl, refl)
        | inr (c, e) ↦ rw (e, launch_args) (launch_with-Launched Callback shown init args c)
      ]

  module _ ⦃W : Patterns⦄ {Callback : Type 0} where
    pub run_controller-ends :
        (simple verbose : Callback) (table : String → Option CommandValue) (r : Running Callback)
        (before waiting : List (Event Callback)) (inputs : List (Input Callback))
        → IsReady ((r.controller).model).streamer
        → (c : Controller Callback) × (run_controller simple verbose table r before waiting inputs
            ≡ some c)
    unfolding run_controller
    run_controller-ends simple verbose table r before waiting inputs v =
        elim (List-cases r.one_shot_command) [
          | inl e ↦
              let (c, done, ready) = run_session-IsReady simple verbose r.controller inputs v in
              rw (e, run_controller) (c, done)
          | inr (word, options, e) ↦
              let (c, shown, done, ready) =
                run_input-GoesOn simple verbose r.controller
                  (record {
                    before = before;
                    command = parse_as_command table word;
                    word = word;
                    options = options;
                    waiting = waiting;
                  })
                  v in
              rw (e, done, run_controller) (c, refl)
        ]

    Launched-ends :
        (simple verbose : Callback) (table : String → Option CommandValue) (can : Bool)
        (l : Launch Callback) (before waiting : List (Event Callback))
        (inputs : List (Input Callback))
        → Launched can l
        → main simple verbose table l before waiting inputs ≡ some (if can then 0 else 20)
    unfolding main exit_code
    Launched-ends simple verbose table can (exits code) before waiting inputs (refused, failed) =
        rw refused (ap (λ c. some (exit_code c)) failed)
    Launched-ends simple verbose table can (runs r) before waiting inputs (allowed, ready) =
        let (c, done) = run_controller-ends simple verbose table r before waiting inputs ready in
        rw (done, allowed) refl
    Launched-ends simple verbose table can crashes before waiting inputs h = elim h [ ]

    -- Whenever parse_arguments answers, and whatever the file, the commands and the events of the
    -- network, as a sequence of whole events, are, main returns a number: after help and version 0,
    -- after a refused argument its code, 10 or 11; otherwise 0 if the configuration loads and is valid
    -- and the init of the participant goes through, and 20 if not.
    pub main-ends :
        (simple verbose : Callback) (table : String → Option CommandValue) (shown : String)
        (init : ParticipantKind → Configuration → Bool) (code : ProcessReturnCode) (args : Args)
        (before waiting : List (Event Callback)) (inputs : List (Input Callback))
        → main simple verbose table (launch shown init (finished code args)) before waiting inputs
          ≡ some (number_for (can_start shown init (choose_file args)) code)
    unfolding main launch exit_code
    main-ends simple verbose table shown init success args before waiting inputs =
        Launched-ends simple verbose table (can_start shown init (choose_file args))
          (launch_args shown init (choose_file args)) before waiting inputs
          (launch_args-Launched Callback shown init (choose_file args))
    main-ends simple verbose table shown init help_argument args before waiting inputs = refl
    main-ends simple verbose table shown init version_argument args before waiting inputs = refl
    main-ends simple verbose table shown init incorrect_argument args before waiting inputs = refl
    main-ends simple verbose table shown init required_argument_failed args before waiting inputs =
        refl
    main-ends simple verbose table shown init execution_failed args before waiting inputs = refl
