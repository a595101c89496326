-- ===== src/SpyModel/Departure.antt =====
-- A writer that has left is in no instance of its topic.
use fast_dds_spy.Prelude.{
  String, List, [], ◌∷◌, Option, none, some, Bool, true, false, ◌≡◌, refl, arith, ◌&&◌, ◌||◌, any,
  ℕ, Option-cases, Bool-cases, inl, inr,
}
use fast_dds_spy.Order.{Order, ◌=?◌}
use fast_dds_spy.Order.Texts.{string_order}
use fast_dds_spy.External.Guids.{Guids, Guid, InstanceHandle}
use fast_dds_spy.External.DynTypes.{DynTypes, DynamicType}
use fast_dds_spy.External.Samples.{Sample}
use fast_dds_spy.External.Topics.{Topics, DdsTopic, is_writer}
use fast_dds_spy.External.Times.{Times, DataTime}
use fast_dds_spy.External.Database.{Database}
use fast_dds_spy.InstanceCache.{InstanceCache, InstanceInfo, instance_of, on_writer_changed}
use fast_dds_spy.InstanceCache.Bounds.{IsValid}
use fast_dds_spy.InstanceCache.Contents.{updated_info, add_or_update_instance-contents}
use fast_dds_spy.InstanceCache.Growth.{add_or_update_instance-IsValid}
use fast_dds_spy.InstanceCache.Update.{add_or_update_instance, key_text}
use fast_dds_spy.InstanceCache.Writers.{without_writer, on_writer_changed-contents}
use fast_dds_spy.DataStreamer.{
  DataStreamer, Delivery, add_data, add_typed_data, count_sample, on_writer_discovered, add_schema,
}
use fast_dds_spy.DataStreamer as Streamer
use fast_dds_spy.DataStreamer.Invariant.{IsReady}
use fast_dds_spy.Map
use fast_dds_spy.Set
use fast_dds_spy.SpyModel.{
  ParticipantInfo, EndpointInfoData, SpyModel, Event, participant_info, endpoint_info, schema,
  sample_received, activate_all, activate, deactivate, new_participant_info, new_endpoint_info,
  step, run,
}
use fast_dds_spy.SpyModel.History.{step-IsReady, new_endpoint_info-IsReady}

module _ ⦃G : Guids⦄ ⦃go : Order Guid⦄ ⦃ho : Order InstanceHandle⦄ where
  -- The writer publishes the instance.
  abbrev pub writes : Guid → Option InstanceInfo → Bool
  writes guid none = false
  writes guid (some info) = Set.contains guid info.active_writers

  writes-updated_info :
      (guid other : Guid) (old : Option InstanceInfo) (key : String) (now : ℕ)
      → writes guid (some (updated_info old key other now)) ≡ (other =? guid || writes guid old)
  unfolding Set.contains
  writes-updated_info guid other none key now = refl
  writes-updated_info guid other (some info) key now =
      ground (arith, Set.contains-insert other guid info.active_writers)

  writes-without_writer :
      (guid other : Guid) (old : Option InstanceInfo)
      → writes guid old ≡ false
      → writes guid (without_writer other old) ≡ false
  writes-without_writer guid other none h = refl
  writes-without_writer guid other (some info) h =
      ground (arith, Set.contains-erase other guid info.active_writers)

  writes-without_writer_self :
      (guid : Guid) (old : Option InstanceInfo) → writes guid (without_writer guid old) ≡ false
  writes-without_writer_self guid none = refl
  writes-without_writer_self guid (some info) =
      ground (arith, Set.contains-erase guid guid info.active_writers, go.eq_iff guid guid)

  -- The writer publishes nothing on the topic.
  abbrev pub IsAbsent : Guid → String → InstanceCache → Type 0
  IsAbsent guid topic_name c =
      (k : InstanceHandle) → writes guid (instance_of c topic_name k) ≡ false

  on_writer_changed-IsAbsent :
      (guid other : Guid) (topic_name t : String) (active : Bool) (c : InstanceCache)
      → IsValid c
      → IsAbsent guid topic_name c
      → IsAbsent guid topic_name (on_writer_changed c other t active)
  unfolding on_writer_changed
  on_writer_changed-IsAbsent guid other topic_name t true c v a k = a k
  on_writer_changed-IsAbsent guid other topic_name t false c v a k =
      rw (on_writer_changed-contents c other t topic_name k v)
        (elim (Bool-cases (t =? topic_name)) [
          | inl e ↦ rw e (writes-without_writer guid other (instance_of c topic_name k) (a k))
          | inr e ↦ rw e (a k)
        ])

  pub on_writer_changed-IsAbsent_self :
      (guid : Guid) (topic_name : String) (c : InstanceCache)
      → IsValid c
      → IsAbsent guid topic_name (on_writer_changed c guid topic_name false)
  on_writer_changed-IsAbsent_self guid topic_name c v k =
      rw
        (
          on_writer_changed-contents c guid topic_name topic_name k v,
          (string_order.eq_iff topic_name topic_name).1 refl,
        )
        (writes-without_writer_self guid (instance_of c topic_name k))

  add_or_update_instance-IsAbsent :
      ⦃D : DynTypes⦄ {Time : Type 0} (guid : Guid) (topic_name t : String)
      (dyn_type : Option DynamicType) (sample : Sample Time) (now : ℕ) (c c' : InstanceCache)
      (answer : Bool)
      → (sample.source_guid =? guid && t =? topic_name) ≡ false
      → add_or_update_instance c t dyn_type sample now ≡ some (c', answer)
      → IsAbsent guid topic_name c
      → IsAbsent guid topic_name c'
  add_or_update_instance-IsAbsent guid topic_name t dyn_type sample now c c' answer other e a k =
      rw (add_or_update_instance-contents c t dyn_type sample now c' answer topic_name k e)
        (elim (Bool-cases (answer && (t =? topic_name && sample.instance_handle =? k))) [
          | inl here ↦ rw here (
              ground (
                arith,
                writes-updated_info guid sample.source_guid (instance_of c t sample.instance_handle)
                    (key_text dyn_type sample) now,
                string_order.eq_iff t topic_name,
                a sample.instance_handle,
              ))
          | inr elsewhere ↦ rw elsewhere (a k)
        ])

module _ ⦃G : Guids⦄ ⦃go : Order Guid⦄ ⦃ho : Order InstanceHandle⦄ ⦃D : DynTypes⦄ ⦃T : Topics⦄
    ⦃to : Order DdsTopic⦄ ⦃M : Times⦄ {Callback : Type 0} where
  add_data-IsAbsent :
      (guid : Guid) (topic_name : String) (s s' : DataStreamer Callback) (topic : DdsTopic)
      (sample : Sample DataTime) (now : ℕ) (delivery : Delivery Callback)
      → (sample.source_guid =? guid && T.topic_name topic =? topic_name) ≡ false
      → IsReady s
      → add_data s topic sample now ≡ some (s', delivery)
      → IsAbsent guid topic_name s.instance_cache
      → IsAbsent guid topic_name s'.instance_cache
  unfolding add_data add_typed_data count_sample
  add_data-IsAbsent guid topic_name s s' topic sample now delivery other v e a k =
      elim (Option-cases (Map.find (T.type_name topic) s.types_discovered)) [
        | inl unknown ↦ ground (arith, a k)
        | inr (dyn_type, known) ↦
            let (cache, answer, updated, valid) =
              add_or_update_instance-IsValid s.instance_cache (T.topic_name topic) (some dyn_type)
                sample now v.cached in
            let absent : writes guid (instance_of cache topic_name k) ≡ false =
              add_or_update_instance-IsAbsent guid topic_name (T.topic_name topic) (some dyn_type)
                sample now s.instance_cache cache answer other updated a k in
            ground (arith, absent)
      ]

  -- The event is a sample of the writer on the topic.
  abbrev pub is_sample_of : Guid → String → Event Callback → Bool
  is_sample_of guid topic_name (sample_received topic sample now) =
      sample.source_guid =? guid && T.topic_name topic =? topic_name
  is_sample_of guid topic_name (participant_info info) = false
  is_sample_of guid topic_name (endpoint_info info) = false
  is_sample_of guid topic_name (schema dynamic_type) = false
  is_sample_of guid topic_name (activate_all callback) = false
  is_sample_of guid topic_name (activate topic callback) = false
  is_sample_of guid topic_name deactivate = false

  module _ ⦃P : Database Guid ParticipantInfo⦄ ⦃E : Database Guid EndpointInfoData⦄ (guid : Guid)
      (topic_name : String) where
    abbrev IsGone : SpyModel Callback → Type 0
    IsGone m = IsAbsent guid topic_name m.streamer.instance_cache

    new_endpoint_info-IsGone :
        (m : SpyModel Callback) (endpoint : EndpointInfoData)
        → IsReady m.streamer
        → IsGone m
        → IsGone (new_endpoint_info m endpoint)
    unfolding new_endpoint_info on_writer_discovered
    new_endpoint_info-IsGone m endpoint v a k = elim (Bool-cases (is_writer endpoint.info)) [
      | inl e ↦ rw e (
          on_writer_changed-IsAbsent guid endpoint.info.guid topic_name
            (T.topic_name endpoint.info.topic) endpoint.info.active m.streamer.instance_cache
            v.cached a k)
      | inr e ↦ rw e (a k)
    ]

    step-IsGone :
        (m m' : SpyModel Callback) (e : Event Callback)
        → is_sample_of guid topic_name e ≡ false
        → IsReady m.streamer
        → step m e ≡ some m'
        → IsGone m
        → IsGone m'
    unfolding step new_participant_info Streamer.activate_all Streamer.activate Streamer.deactivate
        add_schema
    step-IsGone m m' (participant_info info) other v e a k = ground (arith, a k)
    step-IsGone m m' (endpoint_info info) other v e a k =
        ground (arith, new_endpoint_info-IsGone m info v a k)
    step-IsGone m m' (schema dynamic_type) other v e a k = ground (arith, a k)
    step-IsGone m m' (sample_received topic sample now) other v e a k =
        elim (Option-cases (add_data m.streamer topic sample now)) [
          | inl fails ↦ absurd (ground arith)
          | inr ((s, delivery), added) ↦ ground (
            arith,
            add_data-IsAbsent guid topic_name m.streamer s topic sample now delivery other v added a
                k,
          )
        ]
    step-IsGone m m' (activate_all callback) other v e a k = ground (arith, a k)
    step-IsGone m m' (activate topic callback) other v e a k = ground (arith, a k)
    step-IsGone m m' deactivate other v e a k = ground (arith, a k)

    run-IsGone :
        (m : SpyModel Callback) (events : List (Event Callback))
        → any (is_sample_of guid topic_name) events ≡ false
        → IsReady m.streamer
        → IsGone m
        → (m' : SpyModel Callback) × (run m events ≡ some m') × IsGone m'
    unfolding run
    run-IsGone m [] other v a = (m, refl, a)
    run-IsGone m (e ∷ rest) other v a =
        let (m₁, stepped, v₁) = step-IsReady m e v in
        let (m₂, ran, a₂) =
          run-IsGone m₁ rest (ground arith) v₁ (step-IsGone m m₁ e (ground arith) v stepped a) in
        (m₂, rw (stepped, run) ran, a₂)

    departure-IsGone :
        (m : SpyModel Callback) (endpoint : EndpointInfoData)
        → IsReady m.streamer
        → is_writer endpoint.info ≡ true
        → endpoint.info.active ≡ false
        → endpoint.info.guid ≡ guid
        → T.topic_name endpoint.info.topic ≡ topic_name
        → IsGone (new_endpoint_info m endpoint)
    unfolding new_endpoint_info on_writer_discovered
    departure-IsGone m endpoint v w gone g t k =
        rw (w, gone, g, t)
          (on_writer_changed-IsAbsent_self guid topic_name m.streamer.instance_cache v.cached k)

  -- From a ready model, once a writer of a topic is announced as gone, the model runs on through any
  -- sequence of whole events, each of which runs undisturbed, and the writer is in no instance of the
  -- topic, as long as none of them is a sample of it on the topic. An update that began before the
  -- announcement and ends after it is no such event.
  pub departed_writer_stays_gone :
      ⦃P : Database Guid ParticipantInfo⦄ ⦃E : Database Guid EndpointInfoData⦄
      (m : SpyModel Callback) (endpoint : EndpointInfoData) (events : List (Event Callback))
      → IsReady m.streamer
      → is_writer endpoint.info ≡ true
      → endpoint.info.active ≡ false
      → any (is_sample_of endpoint.info.guid (T.topic_name endpoint.info.topic)) events ≡ false
      → (m' : SpyModel Callback) × (run (new_endpoint_info m endpoint) events ≡ some m')
        × IsAbsent endpoint.info.guid (T.topic_name endpoint.info.topic) m'.streamer.instance_cache
  departed_writer_stays_gone m endpoint events v w gone other =
      run-IsGone endpoint.info.guid (T.topic_name endpoint.info.topic)
        (new_endpoint_info m endpoint) events other (new_endpoint_info-IsReady m endpoint v)
        (departure-IsGone endpoint.info.guid (T.topic_name endpoint.info.topic) m endpoint v w gone
          refl refl)
