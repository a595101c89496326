-- ===== src/Parser/Participants.antt =====
-- ModelParser.cpp, the participants: participants, participants_verbose, participants by guid and
-- add_endpoint_to_vector.
use mathlib.Core.Option
use fast_dds_spy.Prelude.{
  String, ℕ, suc, zero, List, [], ◌∷◌, ◌++◌, Option, none, some, Bool, if◌then◌else◌, length, ◌+◌,
}
use fast_dds_spy.Order.{Order}
use fast_dds_spy.Order.Texts.{string_order}
use fast_dds_spy.External.Guids.{Guids, Guid}
use fast_dds_spy.External.DynTypes.{DynTypes}
use fast_dds_spy.External.Topics.{Topics, Endpoint, is_reader, is_writer}
use fast_dds_spy.External.Times.{Times}
use fast_dds_spy.External.Database.{Database}
use fast_dds_spy.Map
use fast_dds_spy.SpyModel.{SpyModel, ParticipantInfo, EndpointInfoData}
use fast_dds_spy.Parser.Data.{SimpleParticipantData, ParticipantEndpoint, ComplexParticipantData}

-- endpoints[i].number++, with `none` past the end of the vector; the number is an int, and is taken not
-- to overflow, since it is at most the number of the endpoints in the database.
unfoldable pub increment : List ParticipantEndpoint → ℕ → Option (List ParticipantEndpoint)
increment [] i = none
increment (e ∷ rest) zero = some (record e { number = e.number + 1 } ∷ rest)
increment (e ∷ rest) (suc i) = Option.map (◌∷◌ e) (increment rest i)

-- The names of a topic as they are shown.
abbrev pub shown_topic : ⦃T : Topics⦄ → Bool → String → String
shown_topic ⦃T⦄ ros2_types name = if ros2_types then T.demangle_if_ros_topic name else name

abbrev pub shown_type : ⦃T : Topics⦄ → Bool → String → String
shown_type ⦃T⦄ ros2_types name = if ros2_types then T.demangle_if_ros_type name else name

-- The index map and the vector that add_endpoint_to_vector takes by reference.
abbrev pub Gathered : Type 0
Gathered = List (String × ℕ) × List ParticipantEndpoint

-- ComplexParticipantData{}
abbrev pub no_participant : ⦃G : Guids⦄ → ComplexParticipantData
no_participant ⦃G⦄ = record { name = ""; guid = G.no_guid; writers = []; readers = [] }

module _ ⦃G : Guids⦄ ⦃T : Topics⦄ where
  abbrev pub new_entry : Bool → Endpoint → ParticipantEndpoint
  new_entry ros2_types e = record {
    topic_name = shown_topic ros2_types (T.topic_name e.topic);
    topic_type = shown_type ros2_types (T.type_name e.topic);
    number = 1;
  }

  unfoldable pub add_endpoint_to_vector : Bool → Gathered → Endpoint → Option Gathered
  unfolding increment
  add_endpoint_to_vector ros2_types (index, endpoints) e =
      elim (Map.find (T.topic_name e.topic) index) [
        | none ↦ some (
          Map.insert (T.topic_name e.topic) (length endpoints) index,
          endpoints ++ new_entry ros2_types e ∷ [],
        )
        | some i ↦ Option.map (λ es. (index, es)) (increment endpoints i)
      ]

module _ ⦃G : Guids⦄ ⦃go : Order Guid⦄ ⦃T : Topics⦄ where
  -- One round of the loop of participants(model, guid), over the readers and the writers so far.
  unfoldable pub gather_one :
      Bool → G.GuidPrefix → Gathered × Gathered → EndpointInfoData → Option (Gathered × Gathered)
  unfolding add_endpoint_to_vector
  gather_one ros2_types prefix (readers, writers) e =
      if G.prefix_eq (G.guid_prefix e.info.guid) prefix
      then (if is_reader e.info
          then Option.map (λ r. (r, writers)) (add_endpoint_to_vector ros2_types readers e.info)
          else (if is_writer e.info
              then Option.map (λ w. (readers, w)) (add_endpoint_to_vector ros2_types writers e.info)
              else some (readers, writers)))
      else some (readers, writers)

  unfoldable pub gather_participant :
      Bool
      → G.GuidPrefix
      → Gathered × Gathered
      → List (Guid × EndpointInfoData)
      → Option (Gathered × Gathered)
  unfolding gather_one
  gather_participant ros2_types prefix gathered [] = some gathered
  gather_participant ros2_types prefix gathered ((k, e) ∷ rest) =
      elim (gather_one ros2_types prefix gathered e) [
        | none ↦ none
        | some gathered' ↦ gather_participant ros2_types prefix gathered' rest
      ]

  -- The simple listing: the active participants.
  unfoldable pub list_participants : List (Guid × ParticipantInfo) → List SimpleParticipantData
  list_participants [] = []
  list_participants ((k, p) ∷ rest) =
      if p.active
      then record { name = p.name; guid = p.guid } ∷ list_participants rest
      else list_participants rest

  abbrev pub fill_participant :
      Guid → String → Option (Gathered × Gathered) → Option ComplexParticipantData
  fill_participant guid name none = none
  fill_participant guid name (some ((i, readers), (j, writers))) =
      some (record { name = name; guid = guid; writers = writers; readers = readers })

module _ ⦃G : Guids⦄ ⦃go : Order Guid⦄ ⦃D : DynTypes⦄ ⦃T : Topics⦄ ⦃M : Times⦄
    ⦃P : Database Guid ParticipantInfo⦄ ⦃E : Database Guid EndpointInfoData⦄
    {Callback : Type 0} where
  unfoldable pub participants : SpyModel Callback → List SimpleParticipantData
  unfolding list_participants
  participants model = list_participants (P.entries model.participant_database)

  -- ModelParser::participants(model, guid); `none` is an index past the end of a vector.
  unfoldable pub participant : SpyModel Callback → Guid → Option ComplexParticipantData
  unfolding gather_participant
  participant model guid = elim (Map.find guid (P.entries model.participant_database)) [
    | none ↦ some no_participant
    | some p ↦
        if G.is_valid guid
        then fill_participant guid p.name (
            gather_participant model.ros2_types (G.guid_prefix guid) (([], []), ([], []))
              (E.entries model.endpoint_database))
        else some (record no_participant { guid = guid; name = p.name })
  ]

  unfoldable pub each_participant :
      SpyModel Callback → List (Guid × ParticipantInfo) → Option (List ComplexParticipantData)
  unfolding participant
  each_participant model [] = some []
  each_participant model ((k, p) ∷ rest) =
      let others = each_participant model rest in
      if p.active
      then elim (participant model p.guid) [
        | none ↦ none
        | some found ↦ Option.map (◌∷◌ found) others
      ]
      else others

  unfoldable pub participants_verbose : SpyModel Callback → Option (List ComplexParticipantData)
  unfolding each_participant
  participants_verbose model = each_participant model (P.entries model.participant_database)
