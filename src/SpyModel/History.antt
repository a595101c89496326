-- ===== src/SpyModel/History.antt =====
-- The model stays ready through every history of events.
use fast_dds_spy.Prelude.{List, [], ◌∷◌, some, Bool, ◌≡◌, refl, Bool-cases, inl, inr}
use fast_dds_spy.Order.{Order}
use fast_dds_spy.External.Guids.{Guids, Guid, InstanceHandle}
use fast_dds_spy.External.DynTypes.{DynTypes}
use fast_dds_spy.External.Topics.{Topics, DdsTopic, is_writer}
use fast_dds_spy.External.Times.{Times}
use fast_dds_spy.External.Database.{Database}
use fast_dds_spy.DataStreamer.Invariant
use fast_dds_spy.DataStreamer.Invariant.{IsReady}
use fast_dds_spy.SpyModel.{
  ParticipantInfo, EndpointInfoData, SpyModel, Event, participant_info, endpoint_info, schema,
  sample_received, activate_all, activate, deactivate, spy_model, new_participant_info,
  new_endpoint_info, step, run,
}

module _ ⦃G : Guids⦄ ⦃go : Order Guid⦄ ⦃ho : Order InstanceHandle⦄ ⦃D : DynTypes⦄ ⦃T : Topics⦄
    ⦃to : Order DdsTopic⦄ ⦃M : Times⦄ ⦃P : Database Guid ParticipantInfo⦄
    ⦃E : Database Guid EndpointInfoData⦄ {Callback : Type 0} where
  pub new_endpoint_info-IsReady :
      (m : SpyModel Callback) (endpoint : EndpointInfoData)
      → IsReady m.streamer
      → IsReady (new_endpoint_info m endpoint).streamer
  unfolding new_endpoint_info
  new_endpoint_info-IsReady m endpoint v = elim (Bool-cases (is_writer endpoint.info)) [
    | inl e ↦ rw e (Invariant.on_writer_discovered-IsReady m.streamer _ _ _ v)
    | inr e ↦ rw e v
  ]

  pub step-IsReady :
      (m : SpyModel Callback) (e : Event Callback)
      → IsReady m.streamer
      → (m' : SpyModel Callback) × (step m e ≡ some m') × IsReady m'.streamer
  unfolding step new_participant_info
  step-IsReady m (participant_info info) v = (_, refl, v)
  step-IsReady m (endpoint_info info) v = (_, refl, new_endpoint_info-IsReady m info v)
  step-IsReady m (schema dynamic_type) v =
      (_, refl, Invariant.add_schema-IsReady m.streamer dynamic_type v)
  step-IsReady m (sample_received topic sample now) v =
      let (s, delivery, e, r) = Invariant.add_data-Received m.streamer topic sample now v in
      (record m { streamer = s }, rw (e, step, r.safe) refl, r.ready)
  step-IsReady m (activate_all callback) v =
      (_, refl, Invariant.activate_all-IsReady m.streamer callback v)
  step-IsReady m (activate topic callback) v =
      (_, refl, Invariant.activate-IsReady m.streamer topic callback v)
  step-IsReady m deactivate v = (_, refl, Invariant.deactivate-IsReady m.streamer v)

  pub run-IsReady :
      (m : SpyModel Callback) (events : List (Event Callback))
      → IsReady m.streamer
      → (m' : SpyModel Callback) × (run m events ≡ some m') × IsReady m'.streamer
  unfolding run
  run-IsReady m [] v = (m, refl, v)
  run-IsReady m (e ∷ rest) v =
      let (m₁, stepped, v₁) = step-IsReady m e v in
      let (m₂, ran, v₂) = run-IsReady m₁ rest v₁ in (m₂, rw (stepped, run) ran, v₂)

  -- Every history of whole events from a new model runs to its end: no reference dangles, an
  -- activated streamer has its callback, and the instance cache is valid.
  pub run-spy_model-IsReady :
      (ros2_types : Bool) (events : List (Event Callback))
      → (m : SpyModel Callback) × (run (spy_model ros2_types) events ≡ some m) × IsReady m.streamer
  unfolding spy_model
  run-spy_model-IsReady ros2_types events =
      run-IsReady (spy_model ros2_types) events Invariant.initial-IsReady
