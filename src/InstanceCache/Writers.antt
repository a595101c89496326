-- ===== src/InstanceCache/Writers.antt =====
-- What the departure of a writer changes, and what get_active_instances shows.
use fast_dds_spy.Prelude.{
  String, List, [], ◌∷◌, Option, none, some, Bool, false, is_empty, ◌≡◌, refl, not, any, arith, inl,
  inr, Option-cases, Bool-cases, if◌then◌else◌, ◌&&◌, ◌||◌, ◌∙◌,
}
use fast_dds_spy.Order.{Order, ◌=?◌}
use fast_dds_spy.Order.Texts.{string_order}
use fast_dds_spy.External.Guids.{Guids, Guid, InstanceHandle}
use fast_dds_spy.InstanceCache.{
  InstanceCache, InstanceInfo, Instances, or_empty, instance_of, active_keys, get_active_instances,
  erase_writer, on_writer_changed,
}
use fast_dds_spy.InstanceCache.Bounds.{IsTopicValid, IsValid}
use fast_dds_spy.Map
use fast_dds_spy.Map.Each.{Each-find}
use fast_dds_spy.Set

module _ ⦃G : Guids⦄ ⦃go : Order Guid⦄ ⦃ho : Order InstanceHandle⦄ where
  -- An instance without the writer; it goes with its last writer.
  abbrev pub without_writer : Guid → Option InstanceInfo → Option InstanceInfo
  without_writer guid none = none
  without_writer guid (some info) =
      let writers : List Guid = Set.erase guid info.active_writers in
      if is_empty writers then none else some (record info { active_writers = writers })

  find-erase_writer :
      (guid : Guid) (k : InstanceHandle) (instances : Instances)
      → Map.IsSorted instances
      → Map.find k (erase_writer guid instances) ≡ without_writer guid (Map.find k instances)
  unfolding erase_writer Map.find
  find-erase_writer guid k [] s = refl
  find-erase_writer guid k ((h, info) ∷ rest) s =
      let ih = find-erase_writer guid k rest s.1 in
      elim (Bool-cases (is_empty (Set.erase guid info.active_writers))) [
        | inl e ↦ elim (Bool-cases (h =? k)) [
          | inl same ↦
              let gone : Map.find k rest ≡ none =
                Map.find_below k rest (rw (← (ho.eq_iff h k).0 same) s.0) s.1 in
              rw (e, same, e) (ih ∙ rw gone)
          | inr other ↦ rw (e, other) ih
        ]
        | inr e ↦ elim (Bool-cases (h =? k)) [
          | inl same ↦ rw (e, same, e)
          | inr other ↦ rw (e, other) ih
        ]
      ]

  find_nothing : (k : InstanceHandle) → Map.find {V = InstanceInfo} k [] ≡ none
  unfolding Map.find
  find_nothing k = refl

  -- In a valid cache, when a writer leaves a topic, each instance of the topic loses it, those with no
  -- other writer are gone, and no other topic is touched.
  pub on_writer_changed-contents :
      (c : InstanceCache) (guid : Guid) (topic_name t : String) (k : InstanceHandle)
      → IsValid c
      → instance_of (on_writer_changed c guid topic_name false) t k
        ≡ (if topic_name =? t then without_writer guid (instance_of c t k) else instance_of c t k)
  unfolding on_writer_changed
  on_writer_changed-contents c guid topic_name t k v =
      elim (Option-cases (Map.find topic_name c.instances_by_topic)) [
        | inl e ↦
            rw (e, on_writer_changed)
              (ground (arith, string_order.eq_iff topic_name t, find_nothing k))
        | inr (instances, e) ↦
            let sorted : Map.IsSorted instances =
              (Each-find IsTopicValid topic_name c.instances_by_topic v e).sorted in
            rw (e, on_writer_changed)
              (ground (
                arith,
                string_order.eq_iff topic_name t,
                Map.find-insert topic_name t (erase_writer guid instances) c.instances_by_topic,
                find-erase_writer guid k instances sorted,
              ))
      ]

  -- The instance is shown under the key.
  abbrev pub shows : String → InstanceHandle × InstanceInfo → Bool
  shows key (h, info) = not (is_empty info.active_writers) && info.key_representation =? key

  active_keys-contains :
      (key : String) (instances : Instances) (result : List String)
      → Set.contains key (active_keys instances result)
        ≡ (any (shows key) instances || Set.contains key result)
  unfolding active_keys
  active_keys-contains key [] result = refl
  active_keys-contains key ((h, info) ∷ rest) result =
      active_keys-contains key rest _
      ∙ ground (arith, Set.contains-insert info.key_representation key result)

  -- A key is listed exactly when some instance of the topic with a writer has it.
  pub get_active_instances-contains :
      (c : InstanceCache) (topic_name key : String)
      → Set.contains key (get_active_instances c topic_name)
        ≡ any (shows key) (or_empty (Map.find topic_name c.instances_by_topic))
  unfolding get_active_instances Set.contains
  get_active_instances-contains c topic_name key =
      elim (Option-cases (Map.find topic_name c.instances_by_topic)) [
        | inl e ↦ rw (e, get_active_instances)
        | inr (instances, e) ↦
            rw (e, get_active_instances) (active_keys-contains key instances [] ∙ ground arith)
      ]

  active_keys-IsSorted :
      (instances : Instances) (result : List String)
      → Set.IsSorted result
      → Set.IsSorted (active_keys instances result)
  unfolding active_keys
  active_keys-IsSorted [] result s = s
  active_keys-IsSorted ((h, info) ∷ rest) result s =
      active_keys-IsSorted rest _ (elim (Bool-cases (is_empty info.active_writers)) [
        | inl e ↦ rw e s
        | inr e ↦ rw e (Set.insert-IsSorted info.key_representation result s)
      ])

  -- The keys are listed in order, each once.
  pub get_active_instances-IsSorted :
      (c : InstanceCache) (topic_name : String) → Set.IsSorted (get_active_instances c topic_name)
  unfolding get_active_instances
  get_active_instances-IsSorted c topic_name =
      elim (Option-cases (Map.find topic_name c.instances_by_topic)) [
        | inl e ↦ rw (e, get_active_instances) tt
        | inr (instances, e) ↦ rw (e, get_active_instances) (active_keys-IsSorted instances [] tt)
      ]
