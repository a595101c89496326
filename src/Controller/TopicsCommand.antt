-- ===== src/Controller/TopicsCommand.antt =====
-- Controller::topics_command_: the listings of topics, their type as IDL, and their keys.
use Prim.Native.String.{◌++◌}
use fast_dds_spy.Prelude.{String, List, [], ◌∷◌, Bool, true, false, if◌then◌else◌, is_empty}
use fast_dds_spy.Order.{Order, ◌=?◌}
use fast_dds_spy.Order.Texts.{string_order}
use fast_dds_spy.External.Guids.{Guids, Guid}
use fast_dds_spy.External.DynTypes.{DynTypes}
use fast_dds_spy.External.Topics.{Topics, DdsTopic}
use fast_dds_spy.External.Times.{Times}
use fast_dds_spy.External.Database.{Database}
use fast_dds_spy.SpyModel.{SpyModel, ParticipantInfo, EndpointInfoData}
use fast_dds_spy.External.Guids.{InstanceHandle}
use fast_dds_spy.Parser.Data.{SimpleTopicData, ComplexTopicData, TopicKeysData}
use fast_dds_spy.Parser.Topics.{topics, topics_verbose, topics_type_idl, topics_keys}
use fast_dds_spy.Controller.Arguments.{
  verbose_argument, verbose_verbose_argument, idl_argument, keys_argument,
}

-- What is shown, in this order: the YAML of the data, with the compact flag, or a text.
pub data Shown ⦃G : Guids⦄ ⦃M : Times⦄ : Type 0 where
  show_nothing : Shown
  show_topics : List SimpleTopicData → Bool → Shown
  show_verbose : List ComplexTopicData → Shown
  show_idl : String → Shown
  show_keys : List TopicKeysData → Bool → Shown
  show_error : String → Shown

module _ ⦃G : Guids⦄ ⦃M : Times⦄ where
  abbrev pub no_match : String → List Shown
  no_match name = show_error ("<" ++ name ++ "> does not match any topic in the DDS network.") ∷ []

  abbrev pub no_keys : String → List Shown
  no_keys name =
      show_error (
        "<" ++ name
        ++ "> does not match any topic in the DDS network or no type information available.")
      ∷ []

module _ ⦃G : Guids⦄ ⦃go : Order Guid⦄ ⦃ho : Order InstanceHandle⦄ ⦃D : DynTypes⦄ ⦃T : Topics⦄
    ⦃to : Order DdsTopic⦄ ⦃M : Times⦄ ⦃P : Database Guid ParticipantInfo⦄
    ⦃E : Database Guid EndpointInfoData⦄ {Callback : Type 0} where
  -- topics <name>, and topics <name> verbose
  unfoldable pub list_named : SpyModel Callback → String → Bool → List Shown
  list_named model name compact =
      let data_found = topics model (T.named_topic name) in
      if is_empty data_found then no_match name else show_topics data_found compact ∷ []

  unfoldable pub list_verbose : SpyModel Callback → String → List Shown
  list_verbose model name =
      let data_found = topics_verbose model (T.named_topic name) in
      if is_empty data_found then no_match name else show_verbose data_found ∷ []

  -- The IDL goes to the standard output, and then an empty document to the view.
  unfoldable pub list_idl : SpyModel Callback → String → List Shown
  list_idl model name =
      let data_found = topics_type_idl model (T.named_topic name) in
      if data_found =? "" then no_match name else show_idl data_found ∷ show_nothing ∷ []

  unfoldable pub list_keys : SpyModel Callback → String → List Shown
  list_keys model name =
      let data_found = topics_keys model (T.named_topic name) in
      if is_empty data_found then no_keys name else show_keys data_found true ∷ []

  unfoldable pub list_keys_verbose : SpyModel Callback → String → String → List Shown
  list_keys_verbose model name argument =
      let data_found = topics_keys model (T.named_topic name) in
      if is_empty data_found
      then no_keys name
      else (if verbose_argument argument
          then show_keys data_found false ∷ []
          else show_error (
              "Last argument <" ++ argument
              ++ "> is not valid. Only \"v\" (verbosity mdode) is allowed after \"keys\".")
            ∷ show_nothing
            ∷ [])

  unfoldable pub topics_command : SpyModel Callback → List String → List Shown
  unfolding list_named list_verbose list_idl list_keys list_keys_verbose
  topics_command model [] = show_nothing ∷ []
  topics_command model (command ∷ []) = show_topics (topics model T.any_topic) true ∷ []
  topics_command model (command ∷ arg_1 ∷ []) =
      if verbose_argument arg_1
      then show_topics (topics model T.any_topic) false ∷ []
      else (if verbose_verbose_argument arg_1
          then show_verbose (topics_verbose model T.any_topic) ∷ []
          else list_named model arg_1 true)
  topics_command model (command ∷ arg_1 ∷ arg_2 ∷ []) =
      if verbose_argument arg_2
      then list_named model arg_1 false
      else (if verbose_verbose_argument arg_2
          then list_verbose model arg_1
          else (if idl_argument arg_2
              then list_idl model arg_1
              else (if keys_argument arg_2
                  then list_keys model arg_1
                  else show_error (
                      "<" ++ arg_2
                      ++ "> is not a valid topic option. Valid options are \"v \", \"vv\" (verbosity modes), \"idl\" or \"keys\".")
                    ∷ [])))
  topics_command model (command ∷ arg_1 ∷ arg_2 ∷ arg_3 ∷ []) =
      if keys_argument arg_2 then list_keys_verbose model arg_1 arg_3 else show_nothing ∷ []
  topics_command model (command ∷ arg_1 ∷ arg_2 ∷ arg_3 ∷ arg_4 ∷ rest) = show_nothing ∷ []
