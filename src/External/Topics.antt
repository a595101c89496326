-- ===== src/External/Topics.antt =====
-- DdsTopic, WildcardDdsFilterTopic, EndpointKind and Endpoint of ddspipe_core, and the ROS 2 name
-- demangling of cpp_utils, which are not part of this repository.
use fast_dds_spy.Prelude.{Bool, true, false, ◌≡◌, ◌↔◌, String, List}
use fast_dds_spy.External.Guids.{Guids, Guid}

pub record Topics : Type 1 where
  pub DdsTopic : Type 0
  pub topic_name : DdsTopic → String
  pub type_name : DdsTopic → String
  -- guid as text -> partitions
  pub partition_name : DdsTopic → List (String × String)
  pub DurabilityKind : Type 0
  pub ReliabilityKind : Type 0
  pub durability_qos : DdsTopic → DurabilityKind
  pub reliability_qos : DdsTopic → ReliabilityKind
  -- The values of default-constructed fields.
  pub no_durability : DurabilityKind
  pub no_reliability : ReliabilityKind
  pub FilterTopic : Type 0
  -- WildcardDdsFilterTopic(), and one with its topic_name set
  pub any_topic : FilterTopic
  pub named_topic : String → FilterTopic
  pub matches : FilterTopic → DdsTopic → Bool
  pub EndpointKind : Type 0
  pub kind_eq : EndpointKind → EndpointKind → Bool
  pub kind_eq_iff : (a b : EndpointKind) → (kind_eq a b ≡ true) ↔ (a ≡ b)
  pub reader : EndpointKind
  pub writer : EndpointKind
  pub reader_ne_writer : kind_eq reader writer ≡ false
  pub demangle_if_ros_topic : String → String
  pub demangle_if_ros_type : String → String

abbrev pub DdsTopic : ⦃T : Topics⦄ → Type 0
DdsTopic ⦃T⦄ = T.DdsTopic

abbrev pub FilterTopic : ⦃T : Topics⦄ → Type 0
FilterTopic ⦃T⦄ = T.FilterTopic

abbrev pub EndpointKind : ⦃T : Topics⦄ → Type 0
EndpointKind ⦃T⦄ = T.EndpointKind

-- Endpoint: the fields that the program reads or writes.
pub record Endpoint ⦃G : Guids⦄ ⦃T : Topics⦄ : Type 0 where
  pub kind : EndpointKind
  pub guid : Guid
  pub topic : DdsTopic
  pub active : Bool
  pub specific_partitions : List (String × String)

module _ ⦃G : Guids⦄ ⦃T : Topics⦄ where
  -- is_reader() and is_writer() compare the kind.
  abbrev pub is_reader : Endpoint → Bool
  is_reader e = T.kind_eq e.kind T.reader

  abbrev pub is_writer : Endpoint → Bool
  is_writer e = T.kind_eq e.kind T.writer
