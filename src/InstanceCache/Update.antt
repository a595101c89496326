-- ===== src/InstanceCache/Update.antt =====
-- InstanceCache.cpp, add_or_update_instance. The function gives up the mutex while it serializes the
-- key, so it is two atomic steps: `begin_update` up to lock.unlock(), `finish_update` from there.
use fast_dds_spy.Prelude.{
  String, ℕ, [], ◌∷◌, Option, none, some, Bool, true, false, is_empty, if◌then◌else◌, leb, length,
}
use fast_dds_spy.Order.{Order, ◌=?◌}
use fast_dds_spy.Order.Texts.{string_order}
use fast_dds_spy.External.Guids.{Guids, Guid, InstanceHandle}
use fast_dds_spy.External.DynTypes.{DynTypes, DynamicType}
use fast_dds_spy.External.Samples.{Sample}
use fast_dds_spy.InstanceCache.{
  InstanceCache, InstanceInfo, Instances, or_empty, max_instances_per_topic,
}
use fast_dds_spy.InstanceCache.Keys.{cached_keys, extract_key_field_names, serialize_key_to_json}
use fast_dds_spy.Map
use fast_dds_spy.Set

-- Where the first step ends: with a result, or on the way to the serialization.
pub data Progress : Type 0 where
  finished : Bool → Progress
  serializing : Progress

module _ ⦃G : Guids⦄ ⦃go : Order Guid⦄ ⦃ho : Order InstanceHandle⦄ where
  -- instances_by_topic_[topic_name], by reference: a topic that is not there is created.
  unfoldable pub open_topic : InstanceCache → String → InstanceCache
  open_topic c topic_name = record c {
    instances_by_topic =
        Map.insert topic_name (or_empty (Map.find topic_name c.instances_by_topic))
          c.instances_by_topic;
  }

  abbrev pub put_instance :
      InstanceCache → String → Instances → InstanceHandle → InstanceInfo → InstanceCache
  put_instance c topic_name instances h info = record c {
    instances_by_topic = Map.insert topic_name (Map.insert h info instances) c.instances_by_topic;
  }

  -- From the find of the instance to lock.unlock().
  unfoldable pub find_instance :
      InstanceCache → String → Instances → InstanceHandle → Guid → ℕ → InstanceCache × Progress
  find_instance c topic_name instances h guid now = elim (Map.find h instances) [
    | some info ↦ if info.key_representation =? "" then (c, serializing) else (
      put_instance c topic_name instances h
          (record info { active_writers = Set.insert guid info.active_writers; last_seen = now }),
      finished true,
    )
    | none ↦
        if leb max_instances_per_topic (length instances)
        then (c, finished false)
        else (c, serializing)
  ]

  -- The body once the key metadata is known.
  unfoldable pub begin_keyed :
      InstanceCache → String → InstanceHandle → Guid → ℕ → InstanceCache × Progress
  unfolding open_topic find_instance
  begin_keyed c topic_name h guid now =
      if is_empty (cached_keys c topic_name)
      then (
        record c {
          no_key_metadata_warned_topics = Set.insert topic_name c.no_key_metadata_warned_topics;
        },
        finished false,
      )
      else find_instance (open_topic c topic_name) topic_name
          (or_empty (Map.find topic_name c.instances_by_topic)) h guid now

  -- What the second step writes at the handle; a new node starts as InstanceInfo{}.
  unfoldable pub stored_info : Option InstanceInfo → String → Guid → ℕ → InstanceInfo
  stored_info none key guid now = record {
    key_representation = key;
    active_writers = guid ∷ [];
    last_seen = now;
  }
  stored_info (some info) key guid now = record {
    key_representation = key;
    active_writers = Set.insert guid info.active_writers;
    last_seen = now;
  }

  -- The second step, under the mutex again. It writes through the reference of the first step,
  -- which dangles (`none`) if clear() has removed the topic since.
  unfoldable pub finish_update :
      InstanceCache → String → String → InstanceHandle → Guid → ℕ → Option (InstanceCache × Bool)
  unfolding stored_info
  finish_update c topic_name key h guid now =
      if key =? "" then some (c, false) else elim (Map.find topic_name c.instances_by_topic) [
        | none ↦ none
        | some instances ↦ some (
          put_instance c topic_name instances h (stored_info (Map.find h instances) key guid now),
          true,
        )
      ]

  abbrev pub continue_update :
      InstanceCache × Progress
      → String
      → String
      → InstanceHandle
      → Guid
      → ℕ
      → Option (InstanceCache × Bool)
  continue_update (c, finished answer) topic_name key h guid now = some (c, answer)
  continue_update (c, serializing) topic_name key h guid now =
      finish_update c topic_name key h guid now

  module _ ⦃D : DynTypes⦄ {Time : Type 0} where
    unfoldable pub begin_update :
        InstanceCache → String → Option DynamicType → Sample Time → ℕ → InstanceCache × Progress
    unfolding begin_keyed
    begin_update c topic_name none sample now = (c, finished false)
    begin_update c topic_name (some dyn_type) sample now =
        begin_keyed (extract_key_field_names c topic_name dyn_type) topic_name
          sample.instance_handle sample.source_guid now

    abbrev pub key_text : Option DynamicType → Sample Time → String
    key_text none sample = ""
    key_text (some dyn_type) sample = serialize_key_to_json dyn_type sample.payload

    -- The whole call, when no other thread comes in between.
    unfoldable pub add_or_update_instance :
        InstanceCache
        → String
        → Option DynamicType
        → Sample Time
        → ℕ
        → Option (InstanceCache × Bool)
    unfolding begin_update finish_update
    add_or_update_instance c topic_name dyn_type sample now =
        continue_update (begin_update c topic_name dyn_type sample now) topic_name
          (key_text dyn_type sample) sample.instance_handle sample.source_guid now
