-- ===== src/Controller/Activity.antt =====
-- After update_endpoints an endpoint is active exactly when the partition filter lets it through.
use mathlib.Core.Option
use fast_dds_spy.Prelude.{
  String, List, [], ◌∷◌, Option, none, some, Bool, false, ◌||◌, is_empty, any, if◌then◌else◌, ◌≡◌,
  refl, sym, ap, ◌∙◌, Bool-cases, inl, inr,
}
use fast_dds_spy.Order.{Order, ◌=?◌}
use fast_dds_spy.External.Guids.{Guids, Guid}
use fast_dds_spy.External.DynTypes.{DynTypes}
use fast_dds_spy.External.Topics.{Topics}
use fast_dds_spy.External.Times.{Times}
use fast_dds_spy.External.Database.{Database}
use fast_dds_spy.External.Patterns.{Patterns}
use fast_dds_spy.Map
use fast_dds_spy.Map.Found.{IsFound, IsFound-of_sorted}
use fast_dds_spy.SpyModel.{SpyModel, ParticipantInfo, EndpointInfoData}
use fast_dds_spy.Controller.Splitting.{announces, scan_pairs_lem}
use fast_dds_spy.Controller.Endpoints.{
  set_active, is_endpoint_active, guid_active, store_active, update_endpoints,
}

module _ ⦃G : Guids⦄ ⦃T : Topics⦄ ⦃W : Patterns⦄ where
  -- An empty filter lets everything through; another one what announces a partition that fits.
  abbrev pub passes : List String → EndpointInfoData → Bool
  passes filters e = is_empty filters || any (announces filters) e.info.specific_partitions

  is_endpoint_active-passes :
      (filters : List String) (e : EndpointInfoData)
      → is_endpoint_active filters e ≡ passes filters e
  unfolding is_endpoint_active
  is_endpoint_active-passes [] e = refl
  is_endpoint_active-passes (f ∷ fs) e = scan_pairs_lem (f ∷ fs) false e.info.specific_partitions

module _ ⦃G : Guids⦄ ⦃go : Order Guid⦄ ⦃T : Topics⦄ ⦃W : Patterns⦄ where
  find-guid_active :
      (filters : List String) (g : Guid) (es : List (Guid × EndpointInfoData))
      → Map.find g (guid_active filters es)
        ≡ Option.map (is_endpoint_active filters) (Map.find g es)
  unfolding guid_active Map.find
  find-guid_active filters g [] = refl
  find-guid_active filters g ((k, e) ∷ rest) = elim (Bool-cases (k =? g)) [
    | inl same ↦ rw same refl
    | inr other ↦ rw other (find-guid_active filters g rest)
  ]

  guid_active-IsSorted :
      (filters : List String) (es : List (Guid × EndpointInfoData))
      → Map.IsSorted es
      → Map.IsSorted (guid_active filters es)
  unfolding guid_active
  guid_active-IsSorted filters [] a = tt
  guid_active-IsSorted filters ((k, e) ∷ []) a = (tt, tt)
  guid_active-IsSorted filters ((k, e) ∷ (j, x) ∷ rest) a =
      (a.0, guid_active-IsSorted filters ((j, x) ∷ rest) a.1)

module _ ⦃G : Guids⦄ ⦃go : Order Guid⦄ ⦃T : Topics⦄ ⦃E : Database Guid EndpointInfoData⦄ where
  abbrev set_if : Option Bool → Option EndpointInfoData → Option EndpointInfoData
  set_if none found = found
  set_if (some active) found = Option.map (set_active active) found

  -- Every guid of the list is in the database.
  abbrev IsHeld : E.Db → List (Guid × Bool) → Type 0
  IsHeld db [] = Unit
  IsHeld db ((k, active) ∷ rest) =
      ((e : EndpointInfoData) × (Map.find k (E.entries db) ≡ some e)) × IsHeld db rest

  IsHeld-add :
      (k : Guid) (e : EndpointInfoData) (db : E.Db) (vs : List (Guid × Bool))
      → IsHeld db vs
      → IsHeld (E.add_or_modify k e db) vs
  IsHeld-add k e db [] held = tt
  IsHeld-add k e db ((j, active) ∷ rest) ((x, found), held) = (
    elim (Bool-cases (k =? j)) [
      | inl same ↦ (e, E.find-add_or_modify k j e db ∙ rw same refl)
      | inr other ↦ (x, E.find-add_or_modify k j e db ∙ rw other found)
    ],
    IsHeld-add k e db rest held,
  )

  -- One round of the second loop, seen from a guid.
  set_if-add :
      (g k : Guid) (active : Bool) (e : EndpointInfoData) (db : E.Db) (rest : List (Guid × Bool))
      → Map.IsSorted ((k, active) ∷ rest)
      → Map.find k (E.entries db) ≡ some e
      → set_if
          (Map.find g rest)
          (Map.find g (E.entries (E.add_or_modify k (set_active active e) db)))
        ≡ set_if (if k =? g then some active else Map.find g rest) (Map.find g (E.entries db))
  set_if-add g k active e db rest sorted found = elim (Bool-cases (k =? g)) [
    | inl same ↦
        let p : k ≡ g = (go.eq_iff k g).0 same in
        let unset : Map.find g rest ≡ none =
          ap (λ x. Map.find x rest) (sym p) ∙ Map.find_below k rest sorted.0 sorted.1 in
        let before : Map.find g (E.entries db) ≡ some e =
          ap (λ x. Map.find x (E.entries db)) (sym p) ∙ found in
        rw (unset, before, E.find-add_or_modify k g (set_active active e) db, same) refl
    | inr other ↦ rw (E.find-add_or_modify k g (set_active active e) db, other) refl
  ]

  store_active-find :
      (db : E.Db) (vs : List (Guid × Bool))
      → Map.IsSorted vs
      → IsHeld db vs
      → (db' : E.Db) × (store_active db vs ≡ some db')
        × ((g : Guid)
            → Map.find g (E.entries db') ≡ set_if (Map.find g vs) (Map.find g (E.entries db)))
  unfolding store_active Map.find
  store_active-find db [] sorted held = (db, refl, λ g. refl)
  store_active-find db ((k, active) ∷ rest) sorted ((e, found), held) =
      let (db', stored, finds) =
        store_active-find (E.add_or_modify k (set_active active e) db) rest sorted.1
          (IsHeld-add k (set_active active e) db rest held) in
      (
        db',
        rw (found, store_active) stored,
        λ g. finds g ∙ set_if-add g k active e db rest sorted found,
      )

module _ ⦃G : Guids⦄ ⦃go : Order Guid⦄ ⦃D : DynTypes⦄ ⦃T : Topics⦄ ⦃M : Times⦄
    ⦃P : Database Guid ParticipantInfo⦄ ⦃E : Database Guid EndpointInfoData⦄ ⦃W : Patterns⦄ where
  guid_active-IsHeld :
      (filters : List String) (db : E.Db) (es : List (Guid × EndpointInfoData))
      → IsFound (E.entries db) es
      → IsHeld db (guid_active filters es)
  unfolding guid_active
  guid_active-IsHeld filters db [] found = tt
  guid_active-IsHeld filters db ((k, e) ∷ rest) (here, found) =
      ((e, here), guid_active-IsHeld filters db rest found)

  set_if-map :
      (filters : List String) (o : Option EndpointInfoData)
      → set_if (Option.map (is_endpoint_active filters) o) o
        ≡ Option.map (λ e. set_active (passes filters e) e) o
  set_if-map filters none = refl
  set_if-map filters (some e) =
      ap (λ b. some (set_active b e)) (is_endpoint_active-passes filters e)

  module _ {Callback : Type 0} where
    -- The model after update_endpoints: the same, but for the flags of the endpoints.
    abbrev pub IsFiltered : SpyModel Callback → List String → SpyModel Callback → Type 0
    IsFiltered m filters m' =
        ((g : Guid)
          → Map.find g (E.entries m'.endpoint_database)
            ≡ Option.map (λ e. set_active (passes filters e) e)
                (Map.find g (E.entries m.endpoint_database)))
        × (m'.participant_database ≡ m.participant_database)
        × (m'.streamer ≡ m.streamer)
        × (m'.ros2_types ≡ m.ros2_types)

    pub update_endpoints-passes :
        (m : SpyModel Callback) (filters : List String)
        → (m' : SpyModel Callback) × (update_endpoints m filters ≡ some m')
          × IsFiltered m filters m'
    unfolding update_endpoints
    update_endpoints-passes m filters =
        let es = E.entries m.endpoint_database in
        let sorted = E.sorted m.endpoint_database in
        let (db, stored, finds) =
          store_active-find m.endpoint_database (guid_active filters es)
            (guid_active-IsSorted filters es sorted)
            (guid_active-IsHeld filters m.endpoint_database es (IsFound-of_sorted es sorted)) in
        (
          record m { endpoint_database = db },
          rw stored refl,
          (
            λ g.
                finds g
                ∙ ap (λ o. set_if o (Map.find g es)) (find-guid_active filters g es)
                ∙ set_if-map filters (Map.find g es),
            refl,
            refl,
            refl,
          ),
        )
