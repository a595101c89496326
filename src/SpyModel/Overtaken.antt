-- ===== src/SpyModel/Overtaken.antt =====
-- add_or_update_instance gives up the mutex between its two steps: a departure that comes in between.
use fast_dds_spy.Prelude.{String, ℕ, ◌<◌, Option, none, some, true, false, length, ◌≡◌, refl, arith}
use fast_dds_spy.Order.{Order, ◌=?◌}
use fast_dds_spy.Order.Texts.{string_order}
use fast_dds_spy.External.Guids.{Guids, Guid, InstanceHandle}
use fast_dds_spy.InstanceCache.{
  InstanceCache, InstanceInfo, Instances, instance_of, erase_writer, on_writer_changed,
  max_instances_per_topic,
}
use fast_dds_spy.InstanceCache.Bounds.{IsValid}
use fast_dds_spy.InstanceCache.Contents.{instance_of-put}
use fast_dds_spy.InstanceCache.Update.{
  put_instance, serializing, find_instance, stored_info, finish_update,
}
use fast_dds_spy.Map
use fast_dds_spy.Set
use fast_dds_spy.SpyModel.Departure.{writes, IsAbsent, on_writer_changed-IsAbsent_self}

module _ ⦃G : Guids⦄ ⦃go : Order Guid⦄ ⦃ho : Order InstanceHandle⦄ where
  stored_info-writes :
      (guid : Guid) (old : Option InstanceInfo) (key : String) (now : ℕ)
      → writes guid (some (stored_info old key guid now)) ≡ true
  unfolding stored_info Set.contains
  stored_info-writes guid none key now = ground (arith, (go.eq_iff guid guid).1 refl)
  stored_info-writes guid (some info) key now =
      ground
        (arith, Set.contains-insert guid guid info.active_writers, (go.eq_iff guid guid).1 refl)

  -- The second step makes its writer one of the instance.
  finish_update-writes :
      (c : InstanceCache) (topic_name key : String) (h : InstanceHandle) (guid : Guid) (now : ℕ)
      (instances : Instances)
      → Map.find topic_name c.instances_by_topic ≡ some instances
      → (key =? "") ≡ false
      → (c' : InstanceCache) × (finish_update c topic_name key h guid now ≡ some (c', true))
        × (writes guid (instance_of c' topic_name h) ≡ true)
  unfolding finish_update
  finish_update-writes c topic_name key h guid now instances t e =
      let info : InstanceInfo = stored_info (Map.find h instances) key guid now in
      (
        put_instance c topic_name instances h info,
        rw (e, t, finish_update) refl,
        rw
            (
              instance_of-put c topic_name instances h info topic_name h t,
              (string_order.eq_iff topic_name topic_name).1 refl,
              (ho.eq_iff h h).1 refl,
            )
            (stored_info-writes guid (Map.find h instances) key now),
      )

  on_writer_changed-topic :
      (c : InstanceCache) (guid : Guid) (topic_name : String) (instances : Instances)
      → Map.find topic_name c.instances_by_topic ≡ some instances
      → Map.find topic_name (on_writer_changed c guid topic_name false).instances_by_topic
        ≡ some (erase_writer guid instances)
  unfolding on_writer_changed
  on_writer_changed-topic c guid topic_name instances t =
      rw (t, on_writer_changed)
        (Map.find-insert_self topic_name (erase_writer guid instances) c.instances_by_topic)

  -- A topic of a valid cache has room, and a call brings a sample of a writer with a new handle and a
  -- key that is not empty. If the writer leaves after the first step of the call, it is in no instance
  -- of the topic then; the second step, which does not ask again, makes it a writer of the new
  -- instance, although it has left.
  pub overtaken_writer_returns :
      (c : InstanceCache) (topic_name key : String) (h : InstanceHandle) (guid : Guid) (now : ℕ)
      (instances : Instances)
      → IsValid c
      → Map.find topic_name c.instances_by_topic ≡ some instances
      → Map.find h instances ≡ none
      → length instances < max_instances_per_topic
      → (key =? "") ≡ false
      → (find_instance c topic_name instances h guid now ≡ (c, serializing))
        × IsAbsent guid topic_name (on_writer_changed c guid topic_name false)
        × (c' : InstanceCache) × (finish_update
              (on_writer_changed c guid topic_name false)
              topic_name
              key
              h
              guid
              now
            ≡ some (c', true))
        × (writes guid (instance_of c' topic_name h) ≡ true)
  unfolding find_instance
  overtaken_writer_returns c topic_name key h guid now instances v t n room e =
      let (c', stored, returned) =
        finish_update-writes (on_writer_changed c guid topic_name false) topic_name key h guid now
          (erase_writer guid instances) (on_writer_changed-topic c guid topic_name instances t) e in
      (ground arith, on_writer_changed-IsAbsent_self guid topic_name c v, c', stored, returned)
