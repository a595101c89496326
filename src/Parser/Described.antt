-- ===== src/Parser/Described.antt =====
-- All that the parser shows of one endpoint.
use fast_dds_spy.Prelude.{
  String, List, [], ◌∷◌, Option, none, some, if◌then◌else◌, ◌&&◌, ◌≡◌, refl, Bool-cases,
  Option-cases, inl, inr,
}
use fast_dds_spy.Order.{Order}
use fast_dds_spy.Order.Texts.{string_order}
use fast_dds_spy.External.Guids.{Guids, Guid}
use fast_dds_spy.External.DynTypes.{DynTypes}
use fast_dds_spy.External.Topics.{Topics, Endpoint}
use fast_dds_spy.External.Times.{Times}
use fast_dds_spy.External.Database.{Database}
use fast_dds_spy.Map
use fast_dds_spy.SpyModel.{SpyModel, ParticipantInfo, EndpointInfoData}
use fast_dds_spy.Parser.Data.{ComplexEndpointData}
use fast_dds_spy.Parser.Endpoints.{
  no_endpoint, fill_complex_endpoint, get_participant_name, name_of_prefix, partition_or,
}

abbrev pub first_or_empty : List String → String
first_or_empty [] = ""
first_or_empty (name ∷ rest) = name

abbrev pub text_or_empty : Option String → String
text_or_empty none = ""
text_or_empty (some s) = s

module _ ⦃G : Guids⦄ where
  -- The names of the active participants of a guid, in the order of the database.
  abbrev pub owners : G.GuidPrefix → List (Guid × ParticipantInfo) → List String
  owners prefix [] = []
  owners prefix ((k, p) ∷ rest) =
      if p.active && G.prefix_eq (G.guid_prefix k) prefix
      then p.name ∷ owners prefix rest
      else owners prefix rest

  name_of_prefix-owners :
      (prefix : G.GuidPrefix) (ps : List (Guid × ParticipantInfo))
      → name_of_prefix prefix ps ≡ first_or_empty (owners prefix ps)
  unfolding name_of_prefix
  name_of_prefix-owners prefix [] = refl
  name_of_prefix-owners prefix ((k, p) ∷ rest) =
      elim (Bool-cases (p.active && G.prefix_eq (G.guid_prefix k) prefix)) [
        | inl own ↦ rw own refl
        | inr other ↦ rw other (name_of_prefix-owners prefix rest)
      ]

module _ ⦃G : Guids⦄ ⦃go : Order Guid⦄ ⦃D : DynTypes⦄ ⦃T : Topics⦄ ⦃M : Times⦄
    ⦃P : Database Guid ParticipantInfo⦄ ⦃E : Database Guid EndpointInfoData⦄
    {Callback : Type 0} where
  -- All that is to be shown of an endpoint: its guid, the name of its participant, the name and the
  -- type of its topic, the partition that it announces, and its two policies.
  abbrev pub endpoint_shown : SpyModel Callback → Endpoint → ComplexEndpointData
  endpoint_shown m e = record {
    guid = e.guid;
    participant_name =
        first_or_empty (owners (G.guid_prefix e.guid) (P.entries m.participant_database));
    topic = record {
      topic_name =
          if m.ros2_types
          then T.demangle_if_ros_topic (T.topic_name e.topic)
          else T.topic_name e.topic;
      topic_type =
          if m.ros2_types
          then T.demangle_if_ros_type (T.type_name e.topic)
          else T.type_name e.topic;
      partition = text_or_empty (Map.find (G.show_guid e.guid) e.specific_partitions);
    };
    qos = record { durability = T.durability_qos e.topic; reliability = T.reliability_qos e.topic };
  }

  pub fill_complex_endpoint_lem :
      (m : SpyModel Callback) (e : Endpoint)
      → fill_complex_endpoint m no_endpoint e ≡ endpoint_shown m e
  unfolding fill_complex_endpoint no_endpoint get_participant_name partition_or
  fill_complex_endpoint_lem m e =
      rw (name_of_prefix-owners (G.guid_prefix e.guid) (P.entries m.participant_database))
        (elim (Option-cases (Map.find (G.show_guid e.guid) e.specific_partitions)) [
          | inl missing ↦ rw (missing, partition_or) refl
          | inr (partition, known) ↦ rw (known, partition_or) refl
        ])
