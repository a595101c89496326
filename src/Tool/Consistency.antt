-- ===== src/Tool/Consistency.antt =====
-- What the start of the tool tells the DDS participant and the pipe.
use fast_dds_spy.Prelude.{String, Bool, List, [], ◌∷◌, Option, none, some}
use fast_dds_spy.Order.{Order, ◌=?◌}
use fast_dds_spy.Order.Texts.{string_order}
use fast_dds_spy.External.Guids.{Guids, Guid, InstanceHandle}
use fast_dds_spy.External.DynTypes.{DynTypes}
use fast_dds_spy.External.Topics.{Topics, DdsTopic, FilterTopic}
use fast_dds_spy.External.Times.{Times}
use fast_dds_spy.External.Database.{Database}
use fast_dds_spy.External.Options.{OptionTools}
use fast_dds_spy.External.InternalTopics.{TopicTools}
use fast_dds_spy.External.YamlReading.{YamlReading}
use fast_dds_spy.Prelude.{◌≡◌, ◌⊎◌, inl, inr, refl, subst, ◌∙◌, Bool-cases, Option-cases}
use fast_dds_spy.Map
use fast_dds_spy.SpyModel.{ParticipantInfo, EndpointInfoData}
use fast_dds_spy.CommandLine.{Validity, valid, invalid}
use fast_dds_spy.CommandLine.{Args}
use fast_dds_spy.Configuration.{Configuration, is_valid}
use fast_dds_spy.Controller.Backend.{TrackCalls, participant_update_content_topicfilter}
use fast_dds_spy.Controller.Filters.{Controller, set_partition_filter, set_content_topic_filter}
use fast_dds_spy.Controller.Told.{told_partitions, told_filter}
use fast_dds_spy.Tool.Starting.{ParticipantKind, kind_of, pass_filters, new_backend, new_controller}
use fast_dds_spy.Tool.Main.{Running, Launch, runs, launch_with, launch_args, launch, choose_file}
use fast_dds_spy.CommandLine.{
  success, help_argument, version_argument, incorrect_argument, required_argument_failed,
  execution_failed,
}
use fast_dds_spy.CommandLine.Parsing.{Parsed, finished, thrown}
use fast_dds_spy.Configuration.Loading.{load_configuration_from_file}
use fast_dds_spy.Configuration.Filters.{load_configuration_from_file-IsSorted}

abbrev or_else : Option String → Option String → Option String
or_else none o = o
or_else (some s) o = some s

told_partitions-pass_filters :
    (dict : List (String × String)) (calls : TrackCalls)
    → told_partitions (pass_filters dict calls) ≡ told_partitions calls
unfolding pass_filters
told_partitions-pass_filters [] calls = refl
told_partitions-pass_filters ((t, e) ∷ rest) calls = told_partitions-pass_filters rest _

told_filter-pass_filters :
    (name : String) (dict : List (String × String)) (calls : TrackCalls)
    → Map.IsSorted dict
    → told_filter name (pass_filters dict calls)
      ≡ or_else (Map.find name dict) (told_filter name calls)
unfolding pass_filters Map.find
told_filter-pass_filters name [] calls s = refl
told_filter-pass_filters name ((t, e) ∷ rest) calls s =
    told_filter-pass_filters name rest (participant_update_content_topicfilter t e ∷ calls) s.1
    ∙ elim (Bool-cases (t =? name)) [
      | inl same ↦
          rw
            (
              same,
              subst (λ k. Map.find k rest ≡ none) ((string_order.eq_iff t name).0 same)
                  (Map.find_below t rest s.0 s.1),
            )
            refl
      | inr other ↦ rw other refl
    ]

pub Validity-cases : (v : Validity) → (v ≡ valid) ⊎ ((text : String) × (v ≡ invalid text))
Validity-cases valid = inl refl
Validity-cases (invalid text) = inr (text, refl)

or_else-none : (o : Option String) → or_else o none ≡ o
or_else-none none = refl
or_else-none (some s) = refl

module _ ⦃G : Guids⦄ ⦃go : Order Guid⦄ ⦃ho : Order InstanceHandle⦄ ⦃D : DynTypes⦄ ⦃T : Topics⦄
    ⦃to : Order DdsTopic⦄ ⦃M : Times⦄ ⦃P : Database Guid ParticipantInfo⦄
    ⦃E : Database Guid EndpointInfoData⦄ ⦃R : YamlReading⦄ ⦃I : TopicTools⦄ ⦃fo : Order FilterTopic⦄
    ⦃O : OptionTools⦄ where
  -- The participant was last told the filters that the controller keeps.
  abbrev pub IsConsistent : {Callback : Type 0} → Controller Callback → Type 0
  IsConsistent c =
      (told_partitions c.backend ≡ some c.partition_filter_set)
      × ((name : String) → told_filter name c.backend ≡ Map.find name c.topic_filter_dict)

  abbrev LaunchIsConsistent : {Callback : Type 0} → Launch Callback → Type 0
  LaunchIsConsistent (runs r) = IsConsistent r.controller
  LaunchIsConsistent _ = Unit

  launch_with-LaunchIsConsistent :
      (Callback : Type 0) (shown : String) (init : ParticipantKind → Configuration → Bool)
      (args : Args) (c : Configuration)
      → Map.IsSorted c.dds_configuration.content_topic_filter_dict
      → LaunchIsConsistent (launch_with {Callback = Callback} shown init args c)
  unfolding launch_with new_backend new_controller set_partition_filter set_content_topic_filter
  launch_with-LaunchIsConsistent Callback shown init args c s =
      elim (Validity-cases (is_valid O.max_domain_id shown c)) [
        | inr (text, e) ↦ rw (e, launch_with) tt
        | inl e ↦ elim (Bool-cases (init (kind_of c) c)) [
          | inl up ↦
              rw (e, up, launch_with)
                (
                  told_partitions-pass_filters c.dds_configuration.content_topic_filter_dict _,
                  λ name.
                      told_filter-pass_filters name c.dds_configuration.content_topic_filter_dict _
                        s
                      ∙ or_else-none _,
                )
          | inr down ↦ rw (e, down, launch_with) tt
        ]
      ]

  launch_args-LaunchIsConsistent :
      (Callback : Type 0) (shown : String) (init : ParticipantKind → Configuration → Bool)
      (args : Args)
      → LaunchIsConsistent (launch_args {Callback = Callback} shown init args)
  unfolding launch_args
  launch_args-LaunchIsConsistent Callback shown init args =
      elim (Option-cases (load_configuration_from_file args.file_path (some args))) [
        | inl e ↦ rw (e, launch_args) tt
        | inr (c, e) ↦
            rw (e, launch_args)
              (launch_with-LaunchIsConsistent Callback shown init args c
                (load_configuration_from_file-IsSorted args.file_path (some args) c e))
      ]

  launch-LaunchIsConsistent :
      (Callback : Type 0) (shown : String) (init : ParticipantKind → Configuration → Bool)
      (p : Parsed)
      → LaunchIsConsistent (launch {Callback = Callback} shown init p)
  unfolding launch
  launch-LaunchIsConsistent Callback shown init thrown = tt
  launch-LaunchIsConsistent Callback shown init (finished success args) =
      launch_args-LaunchIsConsistent Callback shown init (choose_file args)
  launch-LaunchIsConsistent Callback shown init (finished help_argument args) = tt
  launch-LaunchIsConsistent Callback shown init (finished version_argument args) = tt
  launch-LaunchIsConsistent Callback shown init (finished incorrect_argument args) = tt
  launch-LaunchIsConsistent Callback shown init (finished required_argument_failed args) = tt
  launch-LaunchIsConsistent Callback shown init (finished execution_failed args) = tt

  -- When main has started the tool, whatever the file and the command line say, the partitions and the
  -- content filter of each topic that the DDS participant was last told are those that the controller
  -- keeps.
  pub launch-IsConsistent :
      {Callback : Type 0} (shown : String) (init : ParticipantKind → Configuration → Bool)
      (p : Parsed) (r : Running Callback)
      → launch shown init p ≡ runs r
      → IsConsistent r.controller
  launch-IsConsistent {Callback} shown init p r h =
      subst LaunchIsConsistent h (launch-LaunchIsConsistent Callback shown init p)
