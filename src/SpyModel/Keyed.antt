-- ===== src/SpyModel/Keyed.antt =====
-- Each endpoint of the database stands under its own guid.
use fast_dds_spy.Prelude.{List, [], ◌∷◌, some, ◌≡◌, arith, Option-cases, Bool-cases, inl, inr}
use fast_dds_spy.Order.{Order, ◌=?◌}
use fast_dds_spy.External.Guids.{Guids, Guid, InstanceHandle}
use fast_dds_spy.External.DynTypes.{DynTypes}
use fast_dds_spy.External.Topics.{Topics, DdsTopic}
use fast_dds_spy.External.Times.{Times}
use fast_dds_spy.External.Database.{Database}
use fast_dds_spy.DataStreamer.{add_data}
use fast_dds_spy.Map
use fast_dds_spy.Map.Found.{IsFound, IsFound-of_sorted}
use fast_dds_spy.SpyModel.{
  ParticipantInfo, EndpointInfoData, SpyModel, Event, participant_info, endpoint_info, schema,
  sample_received, activate_all, activate, deactivate, new_participant_info, new_endpoint_info,
  step, run,
}

module _ ⦃G : Guids⦄ ⦃T : Topics⦄ where
  -- Each endpoint of the list stands under its own guid.
  abbrev pub IsKeyed : List (Guid × EndpointInfoData) → Type 0
  IsKeyed [] = Unit
  IsKeyed ((k, e) ∷ rest) = (e.info.guid ≡ k) × IsKeyed rest

module _ ⦃G : Guids⦄ ⦃go : Order Guid⦄ ⦃T : Topics⦄ where
  -- What is found under a guid has this guid.
  abbrev pub FindsOwn : List (Guid × EndpointInfoData) → Type 0
  FindsOwn es = (k : Guid) (e : EndpointInfoData) → Map.find k es ≡ some e → e.info.guid ≡ k

  pub IsKeyed-FindsOwn : (es : List (Guid × EndpointInfoData)) → IsKeyed es → FindsOwn es
  unfolding Map.find
  IsKeyed-FindsOwn [] keyed k e found = absurd (ground arith)
  IsKeyed-FindsOwn ((j, x) ∷ rest) keyed k e found = elim (Bool-cases (j =? k)) [
    | inl same ↦ ground (arith, go.eq_iff j k, keyed.0)
    | inr other ↦ ground (arith, IsKeyed-FindsOwn rest keyed.1 k e)
  ]

  pub FindsOwn-IsKeyed :
      (es s : List (Guid × EndpointInfoData)) → FindsOwn es → IsFound es s → IsKeyed s
  FindsOwn-IsKeyed es [] own found = tt
  FindsOwn-IsKeyed es ((k, e) ∷ s) own (here, found) =
      (own k e here, FindsOwn-IsKeyed es s own found)

  FindsOwn-add :
      ⦃E : Database Guid EndpointInfoData⦄ (received : EndpointInfoData) (db : E.Db)
      → FindsOwn (E.entries db)
      → FindsOwn (E.entries (E.add_or_modify received.info.guid received db))
  FindsOwn-add ⦃E⦄ received db own k e found = elim (Bool-cases (received.info.guid =? k)) [
    | inl same ↦ ground (
      arith,
      E.find-add_or_modify received.info.guid k received db,
      go.eq_iff received.info.guid k,
    )
    | inr other ↦ ground (arith, E.find-add_or_modify received.info.guid k received db, own k e)
  ]

module _ ⦃G : Guids⦄ ⦃go : Order Guid⦄ ⦃ho : Order InstanceHandle⦄ ⦃D : DynTypes⦄ ⦃T : Topics⦄
    ⦃to : Order DdsTopic⦄ ⦃M : Times⦄ ⦃P : Database Guid ParticipantInfo⦄
    ⦃E : Database Guid EndpointInfoData⦄ {Callback : Type 0} where
  abbrev pub OwnsAll : SpyModel Callback → Type 0
  OwnsAll m = FindsOwn (E.entries m.endpoint_database)

  step-OwnsAll :
      (m m' : SpyModel Callback) (e : Event Callback) → OwnsAll m → step m e ≡ some m' → OwnsAll m'
  unfolding step new_participant_info new_endpoint_info
  step-OwnsAll m m' (participant_info info) own e k x f = ground (arith, own k x)
  step-OwnsAll m m' (endpoint_info info) own e k x f =
      ground (arith, FindsOwn-add info m.endpoint_database own k x)
  step-OwnsAll m m' (schema dynamic_type) own e k x f = ground (arith, own k x)
  step-OwnsAll m m' (sample_received topic sample now) own e k x f =
      elim (Option-cases (add_data m.streamer topic sample now)) [
        | inl fails ↦ absurd (ground arith)
        | inr ((s, delivery), added) ↦ ground (arith, own k x)
      ]
  step-OwnsAll m m' (activate_all callback) own e k x f = ground (arith, own k x)
  step-OwnsAll m m' (activate topic callback) own e k x f = ground (arith, own k x)
  step-OwnsAll m m' deactivate own e k x f = ground (arith, own k x)

  pub run-OwnsAll :
      (m m' : SpyModel Callback) (events : List (Event Callback))
      → OwnsAll m
      → run m events ≡ some m'
      → OwnsAll m'
  unfolding run
  run-OwnsAll m m' [] own e = λ k x f. ground (arith, own k x)
  run-OwnsAll m m' (event ∷ rest) own e = elim (Option-cases (step m event)) [
    | inl fails ↦ absurd (ground arith)
    | inr (m₁, stepped) ↦
        run-OwnsAll m₁ m' rest (step-OwnsAll m m₁ event own stepped) (rw (stepped, run) at e)
  ]

  -- The endpoints of an owning model stand under their own guids.
  pub OwnsAll-IsKeyed :
      (m : SpyModel Callback) → OwnsAll m → IsKeyed (E.entries m.endpoint_database)
  OwnsAll-IsKeyed m own =
      FindsOwn-IsKeyed (E.entries m.endpoint_database) (E.entries m.endpoint_database) own
        (IsFound-of_sorted (E.entries m.endpoint_database) (E.sorted m.endpoint_database))
