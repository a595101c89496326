-- ===== src/DataStreamer/Invariant.antt =====
-- An activated streamer has its callback, and its instance cache is valid: every operation keeps it.
use fast_dds_spy.Prelude.{
  String, ℕ, Option, none, some, Bool, false, ◌&&◌, not, ◌≡◌, refl, sym, ap, ◌∙◌, arith, inl, inr,
  Option-cases, Bool-cases, if◌then◌else◌,
}
use fast_dds_spy.Order.{Order}
use fast_dds_spy.Order.Texts.{string_order}
use fast_dds_spy.External.Guids.{Guids, Guid, InstanceHandle}
use fast_dds_spy.External.DynTypes.{DynTypes, DynamicType}
use fast_dds_spy.External.Samples.{Sample}
use fast_dds_spy.External.Topics.{Topics, DdsTopic, FilterTopic}
use fast_dds_spy.External.Times.{Times, DataTime}
use fast_dds_spy.InstanceCache.Bounds.{IsValid, on_writer_changed-IsValid, empty_cache-IsValid}
use fast_dds_spy.InstanceCache.Growth.{add_or_update_instance-IsValid}
use fast_dds_spy.DataStreamer.{
  DataStreamer, Delivery, silent, called, is_null_call, is_some, initial, activate_all, activate,
  deactivate, add_schema, should_call, deliver, count_sample, add_typed_data, add_data,
  on_writer_discovered,
}
use fast_dds_spy.Map
use fast_dds_spy.TopicRate

module _ ⦃G : Guids⦄ ⦃go : Order Guid⦄ ⦃ho : Order InstanceHandle⦄ ⦃D : DynTypes⦄ ⦃T : Topics⦄
    ⦃to : Order DdsTopic⦄ ⦃M : Times⦄ {Callback : Type 0} where
  pub record IsReady (s : DataStreamer Callback) : Type 0 where
    pub armed : (s.activated && not (is_some s.callback)) ≡ false
    pub cached : IsValid s.instance_cache

  pub initial-IsReady : IsReady initial
  unfolding initial
  initial-IsReady = record { armed = refl; cached = empty_cache-IsValid }

  pub activate_all-IsReady :
      (s : DataStreamer Callback) (callback : Callback)
      → IsReady s
      → IsReady (activate_all s callback)
  unfolding activate_all
  activate_all-IsReady s callback v = record { armed = refl; cached = v.cached }

  pub activate-IsReady :
      (s : DataStreamer Callback) (topic : FilterTopic) (callback : Callback)
      → IsReady s
      → IsReady (activate s topic callback)
  unfolding activate
  activate-IsReady s topic callback v = record { armed = refl; cached = v.cached }

  pub deactivate-IsReady : (s : DataStreamer Callback) → IsReady s → IsReady (deactivate s)
  unfolding deactivate
  deactivate-IsReady s v = record { armed = refl; cached = v.cached }

  pub add_schema-IsReady :
      (s : DataStreamer Callback) (dynamic_type : DynamicType)
      → IsReady s
      → IsReady (add_schema s dynamic_type)
  unfolding add_schema
  add_schema-IsReady s dynamic_type v = record { armed = v.armed; cached = v.cached }

  pub on_writer_discovered-IsReady :
      (s : DataStreamer Callback) (guid : Guid) (topic_name : String) (active : Bool)
      → IsReady s
      → IsReady (on_writer_discovered s guid topic_name active)
  unfolding on_writer_discovered
  on_writer_discovered-IsReady s guid topic_name active v = record {
    armed = v.armed;
    cached = on_writer_changed-IsValid s.instance_cache guid topic_name active v.cached;
  }

  -- The callback that is to hear of the samples of a topic: the one of the activation, if this is for
  -- all topics or for a filter that the topic fits.
  abbrev pub listener : DataStreamer Callback → DdsTopic → Option Callback
  listener s topic =
      if s.activated
      then (if s.activated_all
          then s.callback
          else (if T.matches s.activated_topic topic then s.callback else none))
      else none

  -- The call that a sample is worth, for its listener and the type of its topic.
  abbrev pub call_of :
      Option Callback → Option DynamicType → DdsTopic → Sample DataTime → Delivery Callback
  call_of none dyn_type topic sample = silent
  call_of (some callback) none topic sample = silent
  call_of (some callback) (some dyn_type) topic sample = called callback topic dyn_type sample

  call_of-no_type :
      (l : Option Callback) (topic : DdsTopic) (sample : Sample DataTime)
      → call_of l none topic sample ≡ silent
  call_of-no_type none topic sample = refl
  call_of-no_type (some callback) topic sample = refl

  is_null_call-call_of :
      (l : Option Callback) (t : Option DynamicType) (topic : DdsTopic) (sample : Sample DataTime)
      → is_null_call (call_of l t topic sample) ≡ false
  is_null_call-call_of none t topic sample = refl
  is_null_call-call_of (some callback) none topic sample = refl
  is_null_call-call_of (some callback) (some dyn_type) topic sample = refl

  -- Undisturbed, an armed streamer makes this call.
  deliver-call_of :
      (s : DataStreamer Callback) (topic : DdsTopic) (dyn_type : DynamicType)
      (sample : Sample DataTime)
      → (s.activated && not (is_some s.callback)) ≡ false
      → deliver s (should_call s topic) topic dyn_type sample
        ≡ call_of (listener s topic) (some dyn_type) topic sample
  unfolding deliver
  deliver-call_of s topic dyn_type sample armed = elim (Bool-cases s.activated) [
    | inr off ↦ rw off refl
    | inl on ↦ elim (Option-cases s.callback) [
      | inl missing ↦ absurd (ground arith)
      | inr (callback, known) ↦ elim (Bool-cases s.activated_all) [
        | inl all ↦ rw (on, all, known, deliver) refl
        | inr one ↦ elim (Bool-cases (T.matches s.activated_topic topic)) [
          | inl fits ↦ rw (on, one, fits, known, deliver) refl
          | inr other ↦ rw (on, one, other) refl
        ]
      ]
    ]
  ]

  -- What add_data comes to: the new state, the call that is made, and what stays.
  pub record Received (s s' : DataStreamer Callback) (topic : DdsTopic) (sample : Sample DataTime)
      (delivery : Delivery Callback) : Type 0 where
    pub ready : IsReady s'
    pub counted :
        s'.data_by_topic ≡ TopicRate.add_data s.data_by_topic topic sample.source_timestamp
    pub delivered :
        delivery
        ≡ call_of (listener s topic) (Map.find (T.type_name topic) s.types_discovered) topic sample
    pub safe : is_null_call delivery ≡ false
    pub same_activation :
        (s'.activated ≡ s.activated)
        × (s'.activated_all ≡ s.activated_all)
        × (s'.callback ≡ s.callback)
        × (s'.activated_topic ≡ s.activated_topic)
        × (s'.types_discovered ≡ s.types_discovered)

  add_typed_data-Received :
      (s : DataStreamer Callback) (topic : DdsTopic) (dyn_type : DynamicType)
      (sample : Sample DataTime) (now : ℕ)
      → IsReady s
      → Map.find (T.type_name topic) s.types_discovered ≡ some dyn_type
      → (s' : DataStreamer Callback) × (delivery : Delivery Callback) × (add_typed_data
            (count_sample s topic sample)
            topic
            dyn_type
            sample
            now
          ≡ some (s', delivery))
        × Received s s' topic sample delivery
  unfolding count_sample add_typed_data
  add_typed_data-Received s topic dyn_type sample now v known =
      let (cache, answer, e, valid) =
        add_or_update_instance-IsValid s.instance_cache (T.topic_name topic) (some dyn_type) sample
          now v.cached in
      let counted : DataStreamer Callback = count_sample s topic sample in
      (
        record counted { instance_cache = cache },
        deliver counted (should_call s topic) topic dyn_type sample,
        rw (e, add_typed_data) refl,
        record {
          ready = record { armed = v.armed; cached = valid };
          counted = refl;
          delivered =
              deliver-call_of counted topic dyn_type sample v.armed
              ∙ ap (λ t. call_of (listener s topic) t topic sample) (sym known);
          safe =
              ap is_null_call (deliver-call_of counted topic dyn_type sample v.armed)
              ∙ is_null_call-call_of (listener s topic) (some dyn_type) topic sample;
          same_activation = (refl, refl, refl, refl, refl);
        },
      )

  -- On a ready streamer, undisturbed, add_data returns: the sample is counted; the callback of the
  -- activation is called with the sample, its topic and the type of the topic exactly when the type is
  -- known, the streamer is activated, and the activation is for all topics or for a filter that
  -- matches the topic; never through a null pointer. The activation and the types stay, and the
  -- streamer stays ready.
  pub add_data-Received :
      (s : DataStreamer Callback) (topic : DdsTopic) (sample : Sample DataTime) (now : ℕ)
      → IsReady s
      → (s' : DataStreamer Callback) × (delivery : Delivery Callback) × (add_data s topic sample now
          ≡ some (s', delivery))
        × Received s s' topic sample delivery
  unfolding add_data
  add_data-Received s topic sample now v =
      elim (Option-cases (Map.find (T.type_name topic) s.types_discovered)) [
        | inl unknown ↦ (
          count_sample s topic sample,
          silent,
          rw (unknown, add_data) refl,
          record {
            ready = record { armed = v.armed; cached = v.cached };
            counted = refl;
            delivered = sym (
                ap (λ t. call_of (listener s topic) t topic sample) unknown
                ∙ call_of-no_type (listener s topic) topic sample);
            safe = refl;
            same_activation = (refl, refl, refl, refl, refl);
          },
        )
        | inr (dyn_type, known) ↦
            let (s', delivery, e, r) =
              add_typed_data-Received s topic dyn_type sample now v known in
            (s', delivery, rw (known, add_data) e, r)
      ]
