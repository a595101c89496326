-- ===== src/InstanceCache/Race.antt =====
-- add_or_update_instance gives up the mutex between its two steps. Two calls that come in between
-- each other.
use fast_dds_spy.Prelude.{String, ℕ, ◌+◌, none, some, true, false, length, ◌≡◌, arith}
use fast_dds_spy.Order.{Order, ◌=?◌}
use fast_dds_spy.Order.Texts.{string_order}
use fast_dds_spy.External.Guids.{Guids, Guid, InstanceHandle}
use fast_dds_spy.InstanceCache.{
  InstanceCache, InstanceInfo, Instances, or_empty, max_instances_per_topic,
}
use fast_dds_spy.InstanceCache.Update.{
  put_instance, serializing, find_instance, stored_info, finish_update,
}
use fast_dds_spy.Map

module _ ⦃G : Guids⦄ ⦃go : Order Guid⦄ ⦃ho : Order InstanceHandle⦄ where
  -- The number of instances that the cache holds for a topic.
  abbrev pub count_instances : InstanceCache → String → ℕ
  count_instances c topic_name = length (or_empty (Map.find topic_name c.instances_by_topic))

  -- The second step of a call for a new handle adds an instance, whatever has come before.
  finish_update_new :
      (c : InstanceCache) (topic_name key : String) (h : InstanceHandle) (guid : Guid) (now : ℕ)
      (instances : Instances)
      → Map.find topic_name c.instances_by_topic ≡ some instances
      → Map.find h instances ≡ none
      → (key =? "") ≡ false
      → finish_update c topic_name key h guid now
        ≡ some (put_instance c topic_name instances h (stored_info none key guid now), true)
  unfolding finish_update
  finish_update_new c topic_name key h guid now instances t n e = rw (e, t, finish_update, n)

  -- A topic has one instance less than the limit, and two calls bring two new handles with keys that
  -- are not empty. Both pass the test of the limit in their first step, before either writes; then
  -- both write, and the topic has one instance more than the limit.
  pub overtaken_updates_exceed_limit :
      (c : InstanceCache) (topic_name key₁ key₂ : String) (h₁ h₂ : InstanceHandle)
      (guid₁ guid₂ : Guid) (now₁ now₂ : ℕ) (instances : Instances)
      → Map.find topic_name c.instances_by_topic ≡ some instances
      → Map.find h₁ instances ≡ none
      → Map.find h₂ instances ≡ none
      → (h₁ =? h₂) ≡ false
      → (key₁ =? "") ≡ false
      → (key₂ =? "") ≡ false
      → length instances + 1 ≡ max_instances_per_topic
      → (find_instance c topic_name instances h₁ guid₁ now₁ ≡ (c, serializing))
        × (find_instance c topic_name instances h₂ guid₂ now₂ ≡ (c, serializing))
        × (c₁ : InstanceCache) × (c₂ : InstanceCache) × (finish_update c topic_name key₁ h₁ guid₁
              now₁
            ≡ some (c₁, true))
        × (finish_update c₁ topic_name key₂ h₂ guid₂ now₂ ≡ some (c₂, true))
        × (count_instances c₂ topic_name ≡ max_instances_per_topic + 1)
  unfolding find_instance
  overtaken_updates_exceed_limit c topic_name key₁ key₂ h₁ h₂ guid₁ guid₂ now₁ now₂ instances t n₁
        n₂ ne e₁ e₂ room =
      let info₁ : InstanceInfo = stored_info none key₁ guid₁ now₁ in
      let info₂ : InstanceInfo = stored_info none key₂ guid₂ now₂ in
      let after₁ : Instances = Map.insert h₁ info₁ instances in
      let c₁ : InstanceCache = put_instance c topic_name instances h₁ info₁ in
      let absent : Map.find h₂ after₁ ≡ none =
        ground (arith, Map.find-insert h₁ h₂ info₁ instances) in
      let found : Map.find topic_name c₁.instances_by_topic ≡ some after₁ =
        Map.find-insert_self topic_name after₁ c.instances_by_topic in
      (
        ground arith,
        ground arith,
        c₁,
        put_instance c₁ topic_name after₁ h₂ info₂,
        finish_update_new c topic_name key₁ h₁ guid₁ now₁ instances t n₁ e₁,
        finish_update_new c₁ topic_name key₂ h₂ guid₂ now₂ after₁ found absent e₂,
        ground (
          arith,
          Map.find-insert_self topic_name (Map.insert h₂ info₂ after₁) c₁.instances_by_topic,
          Map.length-insert_new h₂ info₂ after₁ absent,
          Map.length-insert_new h₁ info₁ instances n₁,
        ),
      )
