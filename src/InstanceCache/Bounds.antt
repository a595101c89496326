-- ===== src/InstanceCache/Bounds.antt =====
-- The invariant of the instance cache, and that every operation keeps it.
use fast_dds_spy.Prelude.{
  String, [], ◌∷◌, none, Bool, true, false, is_empty, leb, length, ◌≡◌, ◌≤◌, arith, inl, inr,
  Option-cases, Bool-cases,
}
use fast_dds_spy.Order.{Order, ◌=?◌}
use fast_dds_spy.Order.Texts.{string_order}
use fast_dds_spy.External.Guids.{Guids, Guid, InstanceHandle}
use fast_dds_spy.InstanceCache.{
  InstanceCache, InstanceInfo, Instances, or_empty, max_instances_per_topic, clear, empty_cache,
  erase_writer, on_writer_changed,
}
use fast_dds_spy.Map
use fast_dds_spy.Map.Each.{Each, Each-find, Each-insert}
use fast_dds_spy.Set

module _ ⦃G : Guids⦄ ⦃go : Order Guid⦄ ⦃ho : Order InstanceHandle⦄ where
  -- An instance in the cache has a key to show and a writer.
  pub record IsLive (info : InstanceInfo) : Type 0 where
    pub keyed : (info.key_representation =? "") ≡ false
    pub written : is_empty info.active_writers ≡ false

  pub record IsTopicValid (instances : Instances) : Type 0 where
    pub bounded : length instances ≤ max_instances_per_topic
    pub sorted : Map.IsSorted instances
    pub live : Each IsLive instances

  abbrev pub IsValid : InstanceCache → Type 0
  IsValid c = Each IsTopicValid c.instances_by_topic

  no_instances : IsTopicValid []
  no_instances = record { bounded = omega arith; sorted = tt; live = tt }

  pub topic-IsTopicValid :
      (c : InstanceCache) (topic_name : String)
      → IsValid c
      → IsTopicValid (or_empty (Map.find topic_name c.instances_by_topic))
  topic-IsTopicValid c topic_name v =
      elim (Option-cases (Map.find topic_name c.instances_by_topic)) [
        | inl e ↦ rw e no_instances
        | inr (instances, e) ↦ rw e (Each-find IsTopicValid topic_name c.instances_by_topic v e)
      ]

  pub put-IsValid :
      (c : InstanceCache) (topic_name : String) (instances : Instances)
      → IsTopicValid instances
      → IsValid c
      → Each IsTopicValid (Map.insert topic_name instances c.instances_by_topic)
  put-IsValid c topic_name instances t v =
      Each-insert IsTopicValid topic_name instances c.instances_by_topic t v

  -- A live value written at a handle that is there, or for which there is room.
  pub put_instance-IsTopicValid :
      (instances : Instances) (h : InstanceHandle) (info : InstanceInfo)
      → IsTopicValid instances
      → IsLive info
      → (Map.find h instances ≡ none → (leb max_instances_per_topic (length instances)) ≡ false)
      → IsTopicValid (Map.insert h info instances)
  put_instance-IsTopicValid instances h info t l room = record {
    bounded = elim (Option-cases (Map.find h instances)) [
      | inl e ↦ ground (arith, Map.length-insert_new h info instances e, room e, t.bounded)
      | inr (old, e) ↦
          ground (arith, Map.length-insert_old h info old instances t.sorted e, t.bounded)
    ];
    sorted = Map.insert-IsSorted h info instances t.sorted;
    live = Each-insert IsLive h info instances l t.live;
  }

  erase_writer-Each :
      (guid : Guid) (instances : Instances)
      → Each IsLive instances
      → Each IsLive (erase_writer guid instances)
  unfolding erase_writer
  erase_writer-Each guid [] a = tt
  erase_writer-Each guid ((h, info) ∷ rest) a = ground (arith, erase_writer-Each guid rest a.1)

  length-erase_writer-le :
      (guid : Guid) (instances : Instances)
      → length (erase_writer guid instances) ≤ length instances
  unfolding erase_writer
  length-erase_writer-le guid [] = omega arith
  length-erase_writer-le guid ((h, info) ∷ rest) = ground (arith, length-erase_writer-le guid rest)

  Above-erase_writer :
      (k : InstanceHandle) (guid : Guid) (instances : Instances)
      → Map.Above k instances
      → Map.IsSorted instances
      → Map.Above k (erase_writer guid instances)
  unfolding erase_writer
  Above-erase_writer k guid [] a s = tt
  Above-erase_writer k guid ((h, info) ∷ rest) a s =
      elim (Bool-cases (is_empty (Set.erase guid info.active_writers))) [
        | inl e ↦ rw e (Above-erase_writer k guid rest (Map.Above-trans k h rest a s.0) s.1)
        | inr e ↦ rw e a
      ]

  erase_writer-IsSorted :
      (guid : Guid) (instances : Instances)
      → Map.IsSorted instances
      → Map.IsSorted (erase_writer guid instances)
  unfolding erase_writer
  erase_writer-IsSorted guid [] s = tt
  erase_writer-IsSorted guid ((h, info) ∷ rest) s =
      elim (Bool-cases (is_empty (Set.erase guid info.active_writers))) [
        | inl e ↦ rw e (erase_writer-IsSorted guid rest s.1)
        | inr e ↦ rw e (Above-erase_writer h guid rest s.0 s.1, erase_writer-IsSorted guid rest s.1)
      ]

  erase_writer-IsTopicValid :
      (guid : Guid) (instances : Instances)
      → IsTopicValid instances
      → IsTopicValid (erase_writer guid instances)
  erase_writer-IsTopicValid guid instances t = record {
    bounded = omega (arith, length-erase_writer-le guid instances, t.bounded);
    sorted = erase_writer-IsSorted guid instances t.sorted;
    live = erase_writer-Each guid instances t.live;
  }

  -- The departure of a writer keeps the invariant.
  pub on_writer_changed-IsValid :
      (c : InstanceCache) (guid : Guid) (topic_name : String) (active : Bool)
      → IsValid c
      → IsValid (on_writer_changed c guid topic_name active)
  unfolding on_writer_changed
  on_writer_changed-IsValid c guid topic_name true v = v
  on_writer_changed-IsValid c guid topic_name false v =
      elim (Option-cases (Map.find topic_name c.instances_by_topic)) [
        | inl e ↦ rw (e, on_writer_changed) v
        | inr (instances, e) ↦
            rw (e, on_writer_changed)
              (put-IsValid c topic_name _
                (erase_writer-IsTopicValid guid instances
                  (Each-find IsTopicValid topic_name c.instances_by_topic v e))
                v)
      ]

  pub clear-IsValid : (c : InstanceCache) → IsValid (clear c)
  unfolding clear
  clear-IsValid c = tt

  pub empty_cache-IsValid : IsValid empty_cache
  unfolding empty_cache
  empty_cache-IsValid = tt
