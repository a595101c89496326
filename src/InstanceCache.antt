-- ===== src/InstanceCache.antt =====
-- fastddsspy_participants/src/cpp/model/InstanceCache.cpp and its header: the instances of the
-- keyed topics, with the writers that publish each. The state, the queries, and what happens when
-- a writer leaves; `Keys` has the key metadata, `Update` the insertion.
pub mod Keys
pub mod Update
pub mod Bounds
pub mod Growth
pub mod Contents
pub mod Writers
pub mod Race
use fast_dds_spy.Prelude.{
  String, ℕ, List, [], ◌∷◌, Option, none, some, Bool, true, false, is_empty, if◌then◌else◌,
}
use fast_dds_spy.Order.{Order}
use fast_dds_spy.Order.Texts.{string_order}
use fast_dds_spy.External.Guids.{Guids, Guid, InstanceHandle}
use fast_dds_spy.Map
use fast_dds_spy.Set

-- MAX_INSTANCES_PER_TOPIC
abbrev pub max_instances_per_topic : ℕ
max_instances_per_topic = 1000

module _ ⦃G : Guids⦄ where
  pub record InstanceInfo : Type 0 where
    pub key_representation : String
    pub active_writers : List Guid
    pub last_seen : ℕ

  -- instance_handle -> InstanceInfo
  abbrev pub Instances : Type 0
  Instances = List (InstanceHandle × InstanceInfo)

  -- The three maps of the class. The mutex is the atomicity of the functions below.
  pub record InstanceCache : Type 0 where
    pub instances_by_topic : List (String × Instances)
    pub key_fields_cache : List (String × List String)
    pub no_key_metadata_warned_topics : List String

  unfoldable pub empty_cache : InstanceCache
  empty_cache = record {
    instances_by_topic = [];
    key_fields_cache = [];
    no_key_metadata_warned_topics = [];
  }

  -- clear()
  unfoldable pub clear : InstanceCache → InstanceCache
  clear c = record c {
    instances_by_topic = [];
    key_fields_cache = [];
    no_key_metadata_warned_topics = [];
  }

abbrev pub or_empty {ℓ} : {A : Type ℓ} → Option (List A) → List A
or_empty none = []
or_empty (some xs) = xs

module _ ⦃G : Guids⦄ ⦃go : Order Guid⦄ ⦃ho : Order InstanceHandle⦄ where
  -- The loop of get_active_instances: the keys of the instances that have a writer.
  unfoldable pub active_keys : Instances → List String → List String
  active_keys [] result = result
  active_keys ((h, info) ∷ rest) result =
      active_keys rest
        (if is_empty info.active_writers then result else Set.insert info.key_representation result)

  unfoldable pub get_active_instances : InstanceCache → String → List String
  unfolding active_keys
  get_active_instances c topic_name = elim (Map.find topic_name c.instances_by_topic) [
    | none ↦ []
    | some instances ↦ active_keys instances []
  ]

  unfoldable pub get_key_fields : InstanceCache → String → List String
  get_key_fields c topic_name = or_empty (Map.find topic_name c.key_fields_cache)

  -- The loop of on_writer_changed: the writer is erased, and then the instances without writers.
  unfoldable pub erase_writer : Guid → Instances → Instances
  erase_writer guid [] = []
  erase_writer guid ((h, info) ∷ rest) =
      let writers : List Guid = Set.erase guid info.active_writers in
      if is_empty writers
      then erase_writer guid rest
      else (h, record info { active_writers = writers }) ∷ erase_writer guid rest

  unfoldable pub on_writer_changed : InstanceCache → Guid → String → Bool → InstanceCache
  on_writer_changed c guid topic_name true = c
  on_writer_changed c guid topic_name false = elim (Map.find topic_name c.instances_by_topic) [
    | none ↦ c
    | some instances ↦ record c {
      instances_by_topic = Map.insert topic_name (erase_writer guid instances) c.instances_by_topic;
    }
  ]

  -- What the cache holds of one instance of one topic.
  abbrev pub instance_of : InstanceCache → String → InstanceHandle → Option InstanceInfo
  instance_of c topic_name h = Map.find h (or_empty (Map.find topic_name c.instances_by_topic))
