-- ===== src/DataStreamer.antt =====
-- fastddsspy_participants/src/cpp/model/DataStreamer.cpp and its header: which samples reach the
-- callback of the user interface, and what they leave in the rates and in the instance cache.
pub mod Race
pub mod Invariant
use fast_dds_spy.Prelude.{
  String, ℕ, List, [], Option, none, some, Bool, true, false, ◌||◌, ◌&&◌, if◌then◌else◌, any,
}
use fast_dds_spy.Order.{Order}
use fast_dds_spy.Order.Texts.{string_order}
use fast_dds_spy.External.Guids.{Guids, Guid, InstanceHandle}
use fast_dds_spy.External.DynTypes.{DynTypes, DynamicType}
use fast_dds_spy.External.Samples.{Sample}
use fast_dds_spy.External.Topics.{Topics, DdsTopic, FilterTopic}
use fast_dds_spy.External.Times.{Times, DataTime}
use fast_dds_spy.InstanceCache
use fast_dds_spy.InstanceCache.{InstanceCache}
use fast_dds_spy.InstanceCache.Update.{add_or_update_instance}
use fast_dds_spy.Map
use fast_dds_spy.TopicRate
use fast_dds_spy.TopicRate.{RateByTopic}

module _ ⦃G : Guids⦄ ⦃D : DynTypes⦄ ⦃T : Topics⦄ ⦃M : Times⦄ where
  -- The state of the class and of the two that it holds, over the type of the callbacks.
  pub record DataStreamer (Callback : Type 0) : Type 0 where
    pub data_by_topic : RateByTopic
    pub activated : Bool
    pub callback : Option Callback
    pub activated_all : Bool
    pub activated_topic : FilterTopic
    pub types_discovered : List (String × DynamicType)
    pub instance_cache : InstanceCache

  -- What a sample comes to: no call, a call of a callback, or a call through a null pointer.
  pub data Delivery (Callback : Type 0) : Type 0 where
    silent : Delivery Callback
    called : Callback → DdsTopic → DynamicType → Sample DataTime → Delivery Callback
    null_call : Delivery Callback

  abbrev pub is_null_call : {Callback : Type 0} → Delivery Callback → Bool
  is_null_call silent = false
  is_null_call (called callback topic dyn_type sample) = false
  is_null_call null_call = true

abbrev pub is_some {ℓ} : {A : Type ℓ} → Option A → Bool
is_some none = false
is_some (some a) = true

module _ ⦃G : Guids⦄ ⦃go : Order Guid⦄ ⦃ho : Order InstanceHandle⦄ ⦃D : DynTypes⦄ ⦃T : Topics⦄
    ⦃to : Order DdsTopic⦄ ⦃M : Times⦄ {Callback : Type 0} where
  unfoldable pub initial : DataStreamer Callback
  unfolding InstanceCache.empty_cache
  initial = record {
    data_by_topic = [];
    activated = false;
    callback = none;
    activated_all = false;
    activated_topic = T.any_topic;
    types_discovered = [];
    instance_cache = InstanceCache.empty_cache;
  }

  unfoldable pub activate_all : DataStreamer Callback → Callback → DataStreamer Callback
  activate_all s callback = record s {
    activated = true;
    activated_all = true;
    callback = some callback;
  }

  unfoldable pub activate : DataStreamer Callback → FilterTopic → Callback → DataStreamer Callback
  activate s topic_to_activate callback = record s {
    activated = true;
    activated_topic = topic_to_activate;
    activated_all = false;
    callback = some callback;
  }

  unfoldable pub deactivate : DataStreamer Callback → DataStreamer Callback
  deactivate s = record s { activated = false; callback = none }

  unfoldable pub add_schema : DataStreamer Callback → DynamicType → DataStreamer Callback
  add_schema s dynamic_type = record s {
    types_discovered = Map.insert (D.get_name dynamic_type) dynamic_type s.types_discovered;
  }

  -- should_call_callback, read under the mutex.
  abbrev pub should_call : DataStreamer Callback → DdsTopic → Bool
  should_call s topic = s.activated && (s.activated_all || T.matches s.activated_topic topic)

  -- (*callback_)(...), read after the mutex has been given up.
  unfoldable pub deliver :
      DataStreamer Callback → Bool → DdsTopic → DynamicType → Sample DataTime → Delivery Callback
  deliver s false topic dyn_type sample = silent
  deliver s true topic dyn_type sample = elim s.callback [
    | none ↦ null_call
    | some callback ↦ called callback topic dyn_type sample
  ]

  unfoldable pub count_sample :
      DataStreamer Callback → DdsTopic → Sample DataTime → DataStreamer Callback
  count_sample s topic sample = record s {
    data_by_topic = TopicRate.add_data s.data_by_topic topic sample.source_timestamp;
  }

  -- From the cache update to the end, for a topic whose type is known.
  unfoldable pub add_typed_data :
      DataStreamer Callback
      → DdsTopic
      → DynamicType
      → Sample DataTime
      → ℕ
      → Option (DataStreamer Callback × Delivery Callback)
  unfolding deliver
  add_typed_data s topic dyn_type sample now =
      elim (add_or_update_instance s.instance_cache (T.topic_name topic) (some dyn_type) sample
        now) [
          | none ↦ none
          | some (cache, _) ↦ some (
            record s { instance_cache = cache },
            deliver s (should_call s topic) topic dyn_type sample,
          )
        ]

  -- add_data, when no other thread comes in between; `none` is the dangling reference of the cache.
  unfoldable pub add_data :
      DataStreamer Callback
      → DdsTopic
      → Sample DataTime
      → ℕ
      → Option (DataStreamer Callback × Delivery Callback)
  unfolding count_sample add_typed_data
  add_data s topic sample now = elim (Map.find (T.type_name topic) s.types_discovered) [
    | none ↦ some (count_sample s topic sample, silent)
    | some dyn_type ↦ add_typed_data (count_sample s topic sample) topic dyn_type sample now
  ]

  unfoldable pub is_topic_type_discovered : DataStreamer Callback → DdsTopic → Bool
  is_topic_type_discovered s topic = is_some (Map.find (T.type_name topic) s.types_discovered)

  -- The loop over the topics.
  unfoldable pub is_any_topic_type_discovered : DataStreamer Callback → List DdsTopic → Bool
  unfolding is_topic_type_discovered
  is_any_topic_type_discovered s topics = any (is_topic_type_discovered s) topics

  unfoldable pub get_topic_instances : DataStreamer Callback → String → List String
  get_topic_instances s topic_name = InstanceCache.get_active_instances s.instance_cache topic_name

  unfoldable pub get_topic_key_fields : DataStreamer Callback → String → List String
  get_topic_key_fields s topic_name = InstanceCache.get_key_fields s.instance_cache topic_name

  unfoldable pub on_writer_discovered :
      DataStreamer Callback → Guid → String → Bool → DataStreamer Callback
  on_writer_discovered s writer_guid topic_name active = record s {
    instance_cache = InstanceCache.on_writer_changed s.instance_cache writer_guid topic_name active;
  }
