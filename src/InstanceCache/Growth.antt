-- ===== src/InstanceCache/Growth.antt =====
-- add_or_update_instance keeps the invariant, and its second step never meets a dangling reference.
use fast_dds_spy.Prelude.{
  String, ℕ, Option, none, some, Bool, true, false, is_empty, leb, length, ◌≡◌, refl, arith, inl,
  inr, Option-cases, Bool-cases,
}
use fast_dds_spy.Order.{Order, ◌=?◌}
use fast_dds_spy.Order.Texts.{string_order}
use fast_dds_spy.External.Guids.{Guids, Guid, InstanceHandle}
use fast_dds_spy.External.DynTypes.{DynTypes, DynamicType}
use fast_dds_spy.External.Samples.{Sample}
use fast_dds_spy.InstanceCache.{
  InstanceCache, InstanceInfo, Instances, or_empty, max_instances_per_topic,
}
use fast_dds_spy.InstanceCache.Keys.{cached_keys, extract_key_field_names}
use fast_dds_spy.InstanceCache.Update.{
  put_instance, continue_update, Progress, finished, serializing, open_topic, find_instance,
  begin_keyed, stored_info, finish_update, begin_update, add_or_update_instance,
}
use fast_dds_spy.Map
use fast_dds_spy.Map.Each.{Each-find}
use fast_dds_spy.Set
use fast_dds_spy.InstanceCache.Bounds.{
  IsLive, IsTopicValid, IsValid, topic-IsTopicValid, put-IsValid, put_instance-IsTopicValid,
}

module _ ⦃G : Guids⦄ ⦃go : Order Guid⦄ ⦃ho : Order InstanceHandle⦄ where
  find_instance-IsValid :
      (c : InstanceCache) (topic_name : String) (h : InstanceHandle) (guid : Guid) (now : ℕ)
      (instances : Instances)
      → IsTopicValid instances
      → IsValid c
      → IsValid (find_instance c topic_name instances h guid now).0
  unfolding find_instance
  find_instance-IsValid c topic_name h guid now instances t v =
      elim (Option-cases (Map.find h instances)) [
        | inl e ↦ rw (e, find_instance) (ground arith)
        | inr (info, e) ↦
            let l : IsLive info = Each-find IsLive h instances t.live e in
            rw (e, find_instance, l.keyed)
              (put-IsValid c topic_name _
                (put_instance-IsTopicValid instances h
                  (record info {
                    active_writers = Set.insert guid info.active_writers;
                    last_seen = now;
                  })
                  t (record { keyed = l.keyed; written = Set.is_empty-insert guid _ }) (λ n. cc))
                v)
      ]

  -- Why the second step may write: the topic is there, and has room or the handle.
  pub record HasRoom (c : InstanceCache) (topic_name : String) (h : InstanceHandle) : Type 0 where
    pub instances : Instances
    pub found : Map.find topic_name c.instances_by_topic ≡ some instances
    pub room :
        Map.find h instances ≡ none → (leb max_instances_per_topic (length instances)) ≡ false

  find_instance-serializing :
      (c : InstanceCache) (topic_name : String) (h : InstanceHandle) (guid : Guid) (now : ℕ)
      (instances : Instances)
      → IsTopicValid instances
      → (find_instance c topic_name instances h guid now).1 ≡ serializing
      → ((find_instance c topic_name instances h guid now).0 ≡ c)
        × (leb max_instances_per_topic (length instances) ≡ false)
  unfolding find_instance
  find_instance-serializing c topic_name h guid now instances t e =
      elim (Option-cases (Map.find h instances)) [
        | inl n ↦ ground arith
        | inr (info, s) ↦
            let l : (info.key_representation =? "") ≡ false =
              (Each-find IsLive h instances t.live s).keyed in
            ground arith
      ]

  open_topic-IsValid :
      (c : InstanceCache) (topic_name : String) → IsValid c → IsValid (open_topic c topic_name)
  unfolding open_topic
  open_topic-IsValid c topic_name v =
      put-IsValid c topic_name _ (topic-IsTopicValid c topic_name v) v

  begin_keyed-IsValid :
      (c : InstanceCache) (topic_name : String) (h : InstanceHandle) (guid : Guid) (now : ℕ)
      → IsValid c
      → IsValid (begin_keyed c topic_name h guid now).0
  unfolding begin_keyed
  begin_keyed-IsValid c topic_name h guid now v =
      elim (Bool-cases (is_empty (cached_keys c topic_name))) [
        | inl e ↦ rw e v
        | inr e ↦ rw e (
            find_instance-IsValid (open_topic c topic_name) topic_name h guid now _
              (topic-IsTopicValid c topic_name v) (open_topic-IsValid c topic_name v))
      ]

  begin_keyed-HasRoom :
      (c : InstanceCache) (topic_name : String) (h : InstanceHandle) (guid : Guid) (now : ℕ)
      → IsValid c
      → (begin_keyed c topic_name h guid now).1 ≡ serializing
      → HasRoom (begin_keyed c topic_name h guid now).0 topic_name h
  unfolding begin_keyed
  begin_keyed-HasRoom c topic_name h guid now v s =
      elim (Bool-cases (is_empty (cached_keys c topic_name))) [
        | inl e ↦ absurd (cc (rw e at s))
        | inr e ↦
            let (same, room) =
              find_instance-serializing (open_topic c topic_name) topic_name h guid now _
                (topic-IsTopicValid c topic_name v) (rw e at s) in
            rw (e, same)
              (record {
                instances = or_empty (Map.find topic_name c.instances_by_topic);
                found = unfold open_topic in Map.find-insert_self topic_name _ _;
                room = λ _. room;
              })
      ]

  stored_info-IsLive :
      (old : Option InstanceInfo) (key : String) (guid : Guid) (now : ℕ)
      → (key =? "") ≡ false
      → IsLive (stored_info old key guid now)
  unfolding stored_info
  stored_info-IsLive none key guid now e = record { keyed = e; written = refl }
  stored_info-IsLive (some info) key guid now e = record {
    keyed = e;
    written = Set.is_empty-insert guid info.active_writers;
  }

  -- With room the second step succeeds, and keeps the invariant.
  pub finish_update-IsValid :
      (c : InstanceCache) (topic_name key : String) (h : InstanceHandle) (guid : Guid) (now : ℕ)
      → IsValid c
      → HasRoom c topic_name h
      → (c' : InstanceCache) × (answer : Bool) × (finish_update c topic_name key h guid now
          ≡ some (c', answer))
        × IsValid c'
  unfolding finish_update
  finish_update-IsValid c topic_name key h guid now v r = elim (Bool-cases (key =? "")) [
    | inl e ↦ (c, false, rw e, v)
    | inr e ↦
        let t : IsTopicValid r.instances =
          Each-find IsTopicValid topic_name c.instances_by_topic v r.found in
        (
          put_instance c topic_name r.instances h
              (stored_info (Map.find h r.instances) key guid now),
          true,
          rw (e, r.found, finish_update) refl,
          put-IsValid c topic_name _
              (put_instance-IsTopicValid r.instances h _ t
                (stored_info-IsLive (Map.find h r.instances) key guid now e) r.room)
              v,
        )
  ]

  pub extract_key_field_names-same :
      ⦃D : DynTypes⦄ (c : InstanceCache) (topic_name : String) (dyn_type : DynamicType)
      → (extract_key_field_names c topic_name dyn_type).instances_by_topic ≡ c.instances_by_topic
  unfolding extract_key_field_names
  extract_key_field_names-same c topic_name dyn_type = ground arith

  continue_update-IsValid :
      (p : InstanceCache × Progress) (topic_name key : String) (h : InstanceHandle) (guid : Guid)
      (now : ℕ)
      → IsValid p.0
      → (p.1 ≡ serializing → HasRoom p.0 topic_name h)
      → (c' : InstanceCache) × (answer : Bool) × (continue_update p topic_name key h guid now
          ≡ some (c', answer))
        × IsValid c'
  continue_update-IsValid (c, finished answer) topic_name key h guid now v r = (c, answer, refl, v)
  continue_update-IsValid (c, serializing) topic_name key h guid now v r =
      finish_update-IsValid c topic_name key h guid now v (r refl)

  extracted-IsValid :
      ⦃D : DynTypes⦄ (c : InstanceCache) (topic_name : String) (dyn_type : DynamicType)
      → IsValid c
      → IsValid (extract_key_field_names c topic_name dyn_type)
  extracted-IsValid c topic_name dyn_type v =
      rw (extract_key_field_names-same c topic_name dyn_type) v

  module _ ⦃D : DynTypes⦄ {Time : Type 0} where
    pub begin_update-IsValid :
        (c : InstanceCache) (topic_name : String) (dyn_type : Option DynamicType)
        (sample : Sample Time) (now : ℕ)
        → IsValid c
        → IsValid (begin_update c topic_name dyn_type sample now).0
    unfolding begin_update
    begin_update-IsValid c topic_name none sample now v = v
    begin_update-IsValid c topic_name (some dyn_type) sample now v =
        begin_keyed-IsValid _ topic_name sample.instance_handle sample.source_guid now
          (extracted-IsValid c topic_name dyn_type v)

    begin_update-HasRoom :
        (c : InstanceCache) (topic_name : String) (dyn_type : Option DynamicType)
        (sample : Sample Time) (now : ℕ)
        → IsValid c
        → (begin_update c topic_name dyn_type sample now).1 ≡ serializing
        → HasRoom
            (begin_update c topic_name dyn_type sample now).0
            topic_name
            sample.instance_handle
    unfolding begin_update
    begin_update-HasRoom c topic_name none sample now v s = cc
    begin_update-HasRoom c topic_name (some dyn_type) sample now v s =
        begin_keyed-HasRoom _ topic_name sample.instance_handle sample.source_guid now
          (extracted-IsValid c topic_name dyn_type v) s

    -- Undisturbed, the call on a valid cache returns, and the cache stays valid: each topic has at most
    -- 1000 instances, in the order of their handles, and each instance has a key that is not empty and
    -- at least one writer.
    pub add_or_update_instance-IsValid :
        (c : InstanceCache) (topic_name : String) (dyn_type : Option DynamicType)
        (sample : Sample Time) (now : ℕ)
        → IsValid c
        → (c' : InstanceCache) × (answer : Bool) × (add_or_update_instance c topic_name dyn_type
              sample now
            ≡ some (c', answer))
          × IsValid c'
    unfolding add_or_update_instance
    add_or_update_instance-IsValid c topic_name dyn_type sample now v =
        continue_update-IsValid (begin_update c topic_name dyn_type sample now) topic_name _ _ _ now
          (begin_update-IsValid c topic_name dyn_type sample now v)
          (begin_update-HasRoom c topic_name dyn_type sample now v)
