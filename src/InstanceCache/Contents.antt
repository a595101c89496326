-- ===== src/InstanceCache/Contents.antt =====
-- What add_or_update_instance changes, seen through the instance of each topic and handle.
use fast_dds_spy.Prelude.{
  String, ℕ, [], ◌∷◌, Option, none, some, Bool, is_empty, leb, length, ◌≡◌, refl, arith, inl, inr,
  Option-cases, Bool-cases, if◌then◌else◌, ◌&&◌, ◌∙◌,
}
use fast_dds_spy.Order.{Order, ◌=?◌}
use fast_dds_spy.Order.Texts.{string_order}
use fast_dds_spy.External.Guids.{Guids, Guid, InstanceHandle}
use fast_dds_spy.External.DynTypes.{DynTypes, DynamicType}
use fast_dds_spy.External.Samples.{Sample}
use fast_dds_spy.InstanceCache.{
  InstanceCache, InstanceInfo, Instances, or_empty, instance_of, max_instances_per_topic,
}
use fast_dds_spy.InstanceCache.Keys.{cached_keys, extract_key_field_names}
use fast_dds_spy.InstanceCache.Growth.{extract_key_field_names-same}
use fast_dds_spy.InstanceCache.Update.{
  put_instance, continue_update, key_text, Progress, finished, serializing, open_topic,
  find_instance, begin_keyed, stored_info, finish_update, begin_update, add_or_update_instance,
}
use fast_dds_spy.Map
use fast_dds_spy.Set

module _ ⦃G : Guids⦄ ⦃go : Order Guid⦄ ⦃ho : Order InstanceHandle⦄ where
  -- The instance after an update: its writers with the new one, the time, and its key, which is
  -- made once.
  abbrev pub updated_info : Option InstanceInfo → String → Guid → ℕ → InstanceInfo
  updated_info none key guid now = record {
    key_representation = key;
    active_writers = guid ∷ [];
    last_seen = now;
  }
  updated_info (some info) key guid now = record {
    key_representation = if info.key_representation =? "" then key else info.key_representation;
    active_writers = Set.insert guid info.active_writers;
    last_seen = now;
  }

  pub instance_of-put :
      (c : InstanceCache) (topic_name : String) (instances : Instances) (h : InstanceHandle)
      (info : InstanceInfo) (t : String) (k : InstanceHandle)
      → Map.find topic_name c.instances_by_topic ≡ some instances
      → instance_of (put_instance c topic_name instances h info) t k
        ≡ (if topic_name =? t && h =? k then some info else instance_of c t k)
  instance_of-put c topic_name instances h info t k e = ground (
    arith,
    Map.find-insert topic_name t (Map.insert h info instances) c.instances_by_topic,
    Map.find-insert h k info instances,
    string_order.eq_iff topic_name t,
  )

  instance_of-open :
      (c : InstanceCache) (topic_name t : String) (k : InstanceHandle)
      → instance_of (open_topic c topic_name) t k ≡ instance_of c t k
  unfolding open_topic
  instance_of-open c topic_name t k = ground (
    arith,
    Map.find-insert topic_name t (or_empty (Map.find topic_name c.instances_by_topic))
        c.instances_by_topic,
    string_order.eq_iff topic_name t,
  )

  find-open :
      (c : InstanceCache) (topic_name : String)
      → Map.find topic_name (open_topic c topic_name).instances_by_topic
        ≡ some (or_empty (Map.find topic_name c.instances_by_topic))
  unfolding open_topic
  find-open c topic_name = Map.find-insert_self topic_name _ c.instances_by_topic

  -- What each end of the first step says of the instances, for whatever key comes later.
  abbrev Begun :
      InstanceCache × Progress
      → InstanceCache
      → String
      → String
      → InstanceHandle
      → Guid
      → ℕ
      → String
      → InstanceHandle
      → Type 0
  Begun (c', finished answer) c topic_name key h guid now t k = instance_of c' t k ≡ (
      if answer && (topic_name =? t && h =? k)
      then some (updated_info (instance_of c topic_name h) key guid now)
      else instance_of c t k)
  Begun (c', serializing) c topic_name key h guid now t k =
      (c' ≡ open_topic c topic_name)
      × (stored_info (instance_of c topic_name h) key guid now
          ≡ updated_info (instance_of c topic_name h) key guid now)

  module _ (topic_name key : String) (h : InstanceHandle) (guid : Guid) (now : ℕ) (t : String)
      (k : InstanceHandle) where
    find_instance-Begun :
        (c : InstanceCache)
        → Begun
            (find_instance
              (open_topic c topic_name)
              topic_name
              (or_empty (Map.find topic_name c.instances_by_topic))
              h
              guid
              now)
            c
            topic_name
            key
            h
            guid
            now
            t
            k
    unfolding find_instance stored_info
    find_instance-Begun c =
        let instances : Instances = or_empty (Map.find topic_name c.instances_by_topic) in
        elim (Option-cases (Map.find h instances)) [
          | inl e ↦
              rw (e, find_instance)
                (elim (Bool-cases (leb max_instances_per_topic (length instances))) [
                  | inl full ↦ rw full (instance_of-open c topic_name t k)
                  | inr room ↦ rw room (refl, ground arith)
                ])
          | inr (info, e) ↦
              rw (e, find_instance)
                (elim (Bool-cases (info.key_representation =? "")) [
                  | inl new ↦ rw new (refl, ground arith)
                  | inr old ↦ rw old (
                      instance_of-put (open_topic c topic_name) topic_name instances h _ t k
                        (find-open c topic_name)
                      ∙ rw (instance_of-open c topic_name t k) (ground arith))
                ])
        ]

    begin_keyed-Begun :
        (c : InstanceCache)
        → Begun (begin_keyed c topic_name h guid now) c topic_name key h guid now t k
    unfolding begin_keyed
    begin_keyed-Begun c = elim (Bool-cases (is_empty (cached_keys c topic_name))) [
      | inl e ↦ rw e refl
      | inr e ↦ rw e (find_instance-Begun c)
    ]

    finish_update-contents :
        (c c' : InstanceCache) (answer : Bool)
        → stored_info (instance_of c topic_name h) key guid now
          ≡ updated_info (instance_of c topic_name h) key guid now
        → finish_update (open_topic c topic_name) topic_name key h guid now ≡ some (c', answer)
        → instance_of c' t k ≡ (
            if answer && (topic_name =? t && h =? k)
            then some (updated_info (instance_of c topic_name h) key guid now)
            else instance_of c t k)
    unfolding finish_update
    finish_update-contents c c' answer stored e = ground (
      arith,
      find-open c topic_name,
      instance_of-open c topic_name t k,
      instance_of-put (open_topic c topic_name) topic_name
          (or_empty (Map.find topic_name c.instances_by_topic)) h
          (stored_info (instance_of c topic_name h) key guid now) t k (find-open c topic_name),
    )

    continue_update-contents :
        (p : InstanceCache × Progress) (c c' : InstanceCache) (answer : Bool)
        → Begun p c topic_name key h guid now t k
        → continue_update p topic_name key h guid now ≡ some (c', answer)
        → instance_of c' t k ≡ (
            if answer && (topic_name =? t && h =? k)
            then some (updated_info (instance_of c topic_name h) key guid now)
            else instance_of c t k)
    continue_update-contents (c₁, finished a) c c' answer b e = ground arith
    continue_update-contents (c₁, serializing) c c' answer (same, stored) e =
        finish_update-contents c c' answer stored (rw same at e)

  -- An undisturbed call that answers true has updated the instance of its sample; it changes
  -- no other instance, and none at all where it answers false.
  pub add_or_update_instance-contents :
      ⦃D : DynTypes⦄ {Time : Type 0} (c : InstanceCache) (topic_name : String)
      (dyn_type : Option DynamicType) (sample : Sample Time) (now : ℕ) (c' : InstanceCache)
      (answer : Bool) (t : String) (k : InstanceHandle)
      → add_or_update_instance c topic_name dyn_type sample now ≡ some (c', answer)
      → instance_of c' t k ≡ (
          if answer && (topic_name =? t && sample.instance_handle =? k)
          then some (
              updated_info
                (instance_of c topic_name sample.instance_handle)
                (key_text dyn_type sample)
                sample.source_guid
                now)
          else instance_of c t k)
  unfolding add_or_update_instance begin_update
  add_or_update_instance-contents c topic_name none sample now c' answer t k e = ground arith
  add_or_update_instance-contents c topic_name (some dyn_type) sample now c' answer t k e =
      let x : InstanceCache = extract_key_field_names c topic_name dyn_type in
      let same : x.instances_by_topic ≡ c.instances_by_topic =
        extract_key_field_names-same c topic_name dyn_type in
      let w =
        continue_update-contents topic_name (key_text (some dyn_type) sample) sample.instance_handle
          sample.source_guid now t k
          (begin_keyed x topic_name sample.instance_handle sample.source_guid now) x c' answer
          (begin_keyed-Begun topic_name (key_text (some dyn_type) sample) sample.instance_handle
            sample.source_guid now t k x)
          e in
      rw same at w
