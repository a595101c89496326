-- ===== src/Controller/FilterEffects.antt =====
-- What the filter commands do to the partition filter, to the endpoints and to the pipe.
use fast_dds_spy.Prelude.{String, [], ◌∷◌, some, true, false, ◌||◌, ◌&&◌, not, ◌≡◌, refl, arith}
use fast_dds_spy.Order.{Order, ◌=?◌}
use fast_dds_spy.Order.Texts.{string_order}
use fast_dds_spy.External.Guids.{Guids, Guid}
use fast_dds_spy.External.DynTypes.{DynTypes}
use fast_dds_spy.External.Topics.{Topics}
use fast_dds_spy.External.Times.{Times}
use fast_dds_spy.External.Database.{Database}
use fast_dds_spy.External.Patterns.{Patterns}
use fast_dds_spy.Set
use fast_dds_spy.SpyModel.{ParticipantInfo, EndpointInfoData}
use fast_dds_spy.Controller.Backend.{
  pipe_update_partitions, participant_update_partitions, update_readers_track_partitions,
}
use fast_dds_spy.Controller.Activity.{IsFiltered, update_endpoints-passes}
use fast_dds_spy.Controller.Filters.{Controller, update_partitions}
use fast_dds_spy.Controller.FilterCommand.{
  quiet, check_filter_contains_value, add_value, remove_value, change_filter, filter_command,
}

module _ ⦃G : Guids⦄ ⦃go : Order Guid⦄ ⦃D : DynTypes⦄ ⦃T : Topics⦄ ⦃M : Times⦄
    ⦃P : Database Guid ParticipantInfo⦄ ⦃E : Database Guid EndpointInfoData⦄ ⦃W : Patterns⦄
    {Callback : Type 0} where
  -- The filter is in force: the pipe and the DDS participant were told, and the flags of the
  -- endpoints were set from it.
  pub record IsApplied (c c' : Controller Callback) : Type 0 where
    pub told :
        c'.backend
        ≡ pipe_update_partitions c'.partition_filter_set
          ∷ participant_update_partitions c'.partition_filter_set
          ∷ c.backend
    pub filtered : IsFiltered c.model c'.partition_filter_set c'.model
    pub same_dds : c'.dds_enabled ≡ c.dds_enabled

  pub update_partitions-IsApplied :
      (c : Controller Callback)
      → (c' : Controller Callback) × (update_partitions c ≡ some c')
        × (c'.partition_filter_set ≡ c.partition_filter_set)
        × (c'.topic_filter_dict ≡ c.topic_filter_dict)
        × IsApplied c c'
  unfolding update_partitions update_readers_track_partitions
  update_partitions-IsApplied c =
      let (m', updated, filtered) = update_endpoints-passes c.model c.partition_filter_set in
      (
        record c {
          backend = update_readers_track_partitions c.partition_filter_set c.backend;
          model = m';
        },
        rw updated refl,
        refl,
        refl,
        record { told = refl; filtered = filtered; same_dds = refl },
      )

  pub filter_command-add :
      (c : Controller Callback) (f : String)
      → Set.contains f c.partition_filter_set ≡ false
      → (c' : Controller Callback) × (filter_command c ("filter" ∷ "add" ∷ "partitions" ∷ f ∷ [])
          ≡ some (c', quiet))
        × ((p : String)
            → Set.contains p c'.partition_filter_set
              ≡ (f =? p || Set.contains p c.partition_filter_set))
        × (c'.topic_filter_dict ≡ c.topic_filter_dict)
        × IsApplied c c'
  unfolding filter_command change_filter add_value check_filter_contains_value
  filter_command-add c f fresh =
      let (c', done, kept, dict, applied) =
        update_partitions-IsApplied
          (record c { partition_filter_set = Set.insert f c.partition_filter_set }) in
      (
        c',
        rw (fresh, done) refl,
        λ p. rw kept (Set.contains-insert f p c.partition_filter_set),
        dict,
        record { told = applied.told; filtered = applied.filtered; same_dds = applied.same_dds },
      )

  -- filter remove partitions <f>, with a filter that is there, removes f and nothing else from the
  -- partition filter, and puts the new filter in force.
  pub filter_command-remove :
      (c : Controller Callback) (f : String)
      → Set.contains f c.partition_filter_set ≡ true
      → (c' : Controller Callback) × (filter_command c ("filter" ∷ "remove" ∷ "partitions" ∷ f ∷ [])
          ≡ some (c', quiet))
        × ((p : String)
            → Set.contains p c'.partition_filter_set
              ≡ (not (f =? p) && Set.contains p c.partition_filter_set))
        × (c'.topic_filter_dict ≡ c.topic_filter_dict)
        × IsApplied c c'
  unfolding filter_command change_filter remove_value check_filter_contains_value
  filter_command-remove c f there =
      let (c', done, kept, dict, applied) =
        update_partitions-IsApplied
          (record c { partition_filter_set = Set.erase f c.partition_filter_set }) in
      (
        c',
        rw (there, done) refl,
        λ p. rw kept (Set.contains-erase f p c.partition_filter_set),
        dict,
        record { told = applied.told; filtered = applied.filtered; same_dds = applied.same_dds },
      )

  -- A partition filter that is not there yet can be added and then removed again: both commands are
  -- accepted, and in the end the partition filter has the names that it had before.
  pub filter_command-add_remove :
      (c : Controller Callback) (f : String)
      → Set.contains f c.partition_filter_set ≡ false
      → (c₁ c₂ : Controller Callback) × (filter_command c ("filter" ∷ "add" ∷ "partitions" ∷ f ∷ [])
          ≡ some (c₁, quiet))
        × (filter_command c₁ ("filter" ∷ "remove" ∷ "partitions" ∷ f ∷ []) ≡ some (c₂, quiet))
        × ((p : String)
            → Set.contains p c₂.partition_filter_set ≡ Set.contains p c.partition_filter_set)
  filter_command-add_remove c f fresh =
      let (c₁, added, has, _, _) = filter_command-add c f fresh in
      let there : Set.contains f c₁.partition_filter_set ≡ true =
        ground (arith, has f, string_order.eq_iff f f) in
      let (c₂, removed, left, _, _) = filter_command-remove c₁ f there in
      (c₁, c₂, added, removed, λ p. ground (arith, left p, has p, string_order.eq_iff f p))
