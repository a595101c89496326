-- ===== src/Controller/EntityCommand.antt =====
-- impl/Controller.ipp, dds_entity_command__, and the three commands of Controller.cpp that it serves.
use Prim.Native.String.{◌++◌}
use mathlib.Core.Option
use fast_dds_spy.Prelude.{String, List, [], ◌∷◌, Option, none, some, not, if◌then◌else◌}
use fast_dds_spy.Order.{Order}
use fast_dds_spy.Order.Texts.{string_order}
use fast_dds_spy.External.Guids.{Guids, Guid}
use fast_dds_spy.External.DynTypes.{DynTypes}
use fast_dds_spy.External.Topics.{Topics}
use fast_dds_spy.External.Times.{Times}
use fast_dds_spy.External.Database.{Database}
use fast_dds_spy.SpyModel.{SpyModel, ParticipantInfo, EndpointInfoData}
use fast_dds_spy.Parser.Data.{
  SimpleParticipantData, ComplexParticipantData, SimpleEndpointData, ComplexEndpointData,
}
use fast_dds_spy.Parser.Participants.{participants, participants_verbose, participant}
use fast_dds_spy.Parser.Endpoints.{
  writers, writers_verbose, writer_of, readers, readers_verbose, reader_of,
}
use fast_dds_spy.Controller.Arguments.{verbose_argument}

-- What is handed to the YAML writer, or the text of an error.
pub data Answer (Simple Complex : Type 0) : Type 0 where
  show_simple : List Simple → Answer Simple Complex
  show_verbose : List Complex → Answer Simple Complex
  show_specific : Complex → Answer Simple Complex
  show_error : String → Answer Simple Complex

module _ ⦃G : Guids⦄ {Simple Complex : Type 0} where
  abbrev for_guid :
      (Complex → Guid) → String → String → Option Complex → Option (Answer Simple Complex)
  for_guid guid_of argument entity_name none = none
  for_guid guid_of argument entity_name (some d) = some (
      if not (G.is_valid (guid_of d))
      then show_error (argument ++ " does not match with any known " ++ entity_name ++ ".")
      else show_specific d)

  -- The template, over its three functions and the field guid of the data. `none` is an index past
  -- the end: of the arguments, if there is none, or in the third function.
  unfoldable pub dds_entity_command :
      Option (List Simple)
      → Option (List Complex)
      → (Guid → Option Complex)
      → (Complex → Guid)
      → String
      → List String
      → Option (Answer Simple Complex)
  dds_entity_command simple verbose specific guid_of entity_name [] = none
  dds_entity_command simple verbose specific guid_of entity_name (command ∷ []) =
      Option.map show_simple simple
  dds_entity_command simple verbose specific guid_of entity_name (command ∷ argument ∷ rest) =
      if verbose_argument argument
      then Option.map show_verbose verbose
      else (let guid : Guid = G.read_guid argument in
          if not (G.is_valid guid)
          then some (
              show_error (
                argument
                ++ " is not a valid GUID. Use format <xx.xx.xx.xx.xx.xx.xx.xx.xx.xx.xx.xx|xx.xx.xx.xx>"))
          else for_guid guid_of argument entity_name (specific guid))

module _ ⦃G : Guids⦄ ⦃go : Order Guid⦄ ⦃D : DynTypes⦄ ⦃T : Topics⦄ ⦃M : Times⦄
    ⦃P : Database Guid ParticipantInfo⦄ ⦃E : Database Guid EndpointInfoData⦄
    {Callback : Type 0} where
  unfoldable pub participants_command :
      SpyModel Callback → List String → Option (Answer SimpleParticipantData ComplexParticipantData)
  unfolding dds_entity_command
  participants_command model arguments =
      dds_entity_command (some (participants model)) (participants_verbose model)
        (participant model) (λ d. d.guid) "participant" arguments

  unfoldable pub writers_command :
      SpyModel Callback → List String → Option (Answer SimpleEndpointData ComplexEndpointData)
  unfolding dds_entity_command
  writers_command model arguments =
      dds_entity_command (some (writers model)) (some (writers_verbose model))
        (λ guid. some (writer_of model guid)) (λ d. d.guid) "writer" arguments

  unfoldable pub readers_command :
      SpyModel Callback → List String → Option (Answer SimpleEndpointData ComplexEndpointData)
  unfolding dds_entity_command
  readers_command model arguments =
      dds_entity_command (some (readers model)) (some (readers_verbose model))
        (λ guid. some (reader_of model guid)) (λ d. d.guid) "reader" arguments
