-- ===== src/Controller/Endpoints.antt =====
-- Controller::update_endpoints: which endpoints the partition filter leaves active.
use fast_dds_spy.Prelude.{
  String, List, [], ◌∷◌, Option, none, some, Bool, true, false, not, is_empty, if◌then◌else◌,
}
use fast_dds_spy.Order.{Order}
use fast_dds_spy.External.Guids.{Guids, Guid}
use fast_dds_spy.External.DynTypes.{DynTypes}
use fast_dds_spy.External.Topics.{Topics, Endpoint}
use fast_dds_spy.External.Times.{Times}
use fast_dds_spy.External.Database.{Database}
use fast_dds_spy.External.Patterns.{Patterns}
use fast_dds_spy.Map
use fast_dds_spy.SpyModel.{SpyModel, ParticipantInfo, EndpointInfoData}
use fast_dds_spy.Controller.Splitting.{scan_pairs}

module _ ⦃G : Guids⦄ ⦃T : Topics⦄ where
  abbrev pub set_active : Bool → EndpointInfoData → EndpointInfoData
  set_active active e =
      let info : Endpoint = e.info in record e { info = record info { active = active } }

  module _ ⦃W : Patterns⦄ where
    -- The body of the first loop.
    unfoldable pub is_endpoint_active : List String → EndpointInfoData → Bool
    unfolding scan_pairs
    is_endpoint_active filters e =
        let partitions_exists = not (is_empty filters) in
        if not partitions_exists then true else scan_pairs filters false e.info.specific_partitions

    -- v_guid_active
    unfoldable pub guid_active : List String → List (Guid × EndpointInfoData) → List (Guid × Bool)
    unfolding is_endpoint_active
    guid_active filters [] = []
    guid_active filters ((k, e) ∷ rest) =
        (k, is_endpoint_active filters e) ∷ guid_active filters rest

module _ ⦃G : Guids⦄ ⦃go : Order Guid⦄ ⦃T : Topics⦄ ⦃E : Database Guid EndpointInfoData⦄ where
  -- The second loop; `none` reads past the end of the database.
  unfoldable pub store_active : E.Db → List (Guid × Bool) → Option E.Db
  store_active db [] = some db
  store_active db ((k, active) ∷ rest) = elim (Map.find k (E.entries db)) [
    | none ↦ none
    | some endpoint_tmp ↦ store_active (E.add_or_modify k (set_active active endpoint_tmp) db) rest
  ]

module _ ⦃G : Guids⦄ ⦃go : Order Guid⦄ ⦃D : DynTypes⦄ ⦃T : Topics⦄ ⦃M : Times⦄
    ⦃P : Database Guid ParticipantInfo⦄ ⦃E : Database Guid EndpointInfoData⦄ ⦃W : Patterns⦄
    {Callback : Type 0} where
  abbrev with_endpoints : SpyModel Callback → Option E.Db → Option (SpyModel Callback)
  with_endpoints model none = none
  with_endpoints model (some db) = some (record model { endpoint_database = db })

  unfoldable pub update_endpoints : SpyModel Callback → List String → Option (SpyModel Callback)
  unfolding guid_active store_active
  update_endpoints model partition_filter_set = with_endpoints model (
      store_active model.endpoint_database
        (guid_active partition_filter_set (E.entries model.endpoint_database)))
