-- ===== src/Parser/Verbose.antt =====
-- The simple and the verbose listings of writers and readers show the same endpoints.
use fast_dds_spy.Prelude.{
  List, [], ◌∷◌, some, true, ◌&&◌, if◌then◌else◌, map, ◌≡◌, refl, ap, ◌∙◌, arith, Bool-cases, inl,
  inr,
}
use fast_dds_spy.Order.{Order, ◌=?◌}
use fast_dds_spy.External.Guids.{Guids, Guid}
use fast_dds_spy.External.DynTypes.{DynTypes}
use fast_dds_spy.External.Topics.{Topics, Endpoint, EndpointKind}
use fast_dds_spy.External.Times.{Times}
use fast_dds_spy.External.Database.{Database}
use fast_dds_spy.Map
use fast_dds_spy.Map.Found.{IsFound, IsFound-of_sorted}
use fast_dds_spy.SpyModel.{SpyModel, ParticipantInfo, EndpointInfoData}
use fast_dds_spy.SpyModel.Keyed.{IsKeyed}
use fast_dds_spy.Parser.Endpoints.{
  fill_simple_endpoint, fill_complex_endpoint, no_endpoint, set_simple, set_complex, readers,
  reader_of, each_reader, readers_verbose,
}

module _ ⦃G : Guids⦄ ⦃T : Topics⦄ where
  -- The active endpoints of a kind, in the order of the database.
  abbrev pub active_endpoints : EndpointKind → List (Guid × EndpointInfoData) → List Endpoint
  active_endpoints kind [] = []
  active_endpoints kind ((k, e) ∷ rest) =
      if e.info.active && T.kind_eq e.info.kind kind
      then e.info ∷ active_endpoints kind rest
      else active_endpoints kind rest

module _ ⦃G : Guids⦄ ⦃go : Order Guid⦄ ⦃D : DynTypes⦄ ⦃T : Topics⦄ ⦃M : Times⦄
    ⦃P : Database Guid ParticipantInfo⦄ ⦃E : Database Guid EndpointInfoData⦄
    {Callback : Type 0} where
  set_simple-map :
      (m : SpyModel Callback) (kind : EndpointKind) (es : List (Guid × EndpointInfoData))
      → set_simple m kind es ≡ map (fill_simple_endpoint m) (active_endpoints kind es)
  unfolding set_simple
  set_simple-map m kind [] = refl
  set_simple-map m kind ((k, e) ∷ rest) =
      elim (Bool-cases (e.info.active && T.kind_eq e.info.kind kind)) [
        | inl shown ↦
            rw shown (ap (◌∷◌ (fill_simple_endpoint m e.info)) (set_simple-map m kind rest))
        | inr hidden ↦ rw hidden (set_simple-map m kind rest)
      ]

  set_complex_found :
      (m : SpyModel Callback) (kind : EndpointKind) (guid : Guid) (e : EndpointInfoData)
      (es : List (Guid × EndpointInfoData))
      → Map.find guid es ≡ some e
      → (e.info.active && T.kind_eq e.info.kind kind) ≡ true
      → set_complex m no_endpoint kind guid es ≡ fill_complex_endpoint m no_endpoint e.info
  unfolding set_complex Map.find
  set_complex_found m kind guid e [] found shown = ground arith
  set_complex_found m kind guid e ((j, x) ∷ rest) found shown = elim (Bool-cases (j =? guid)) [
    | inl same ↦ ground arith
    | inr other ↦ ground (arith, set_complex_found m kind guid e rest)
  ]

  own_guid :
      (m : SpyModel Callback) (k : Guid) (e : EndpointInfoData)
      → e.info.guid ≡ k
      → Map.find k (E.entries m.endpoint_database) ≡ some e
      → Map.find e.info.guid (E.entries m.endpoint_database) ≡ some e
  own_guid m k e keyed found = ap (λ g. Map.find g (E.entries m.endpoint_database)) keyed ∙ found

  each_reader-map :
      (m : SpyModel Callback) (es : List (Guid × EndpointInfoData))
      → IsFound (E.entries m.endpoint_database) es
      → IsKeyed es
      → each_reader m es ≡ map (fill_complex_endpoint m no_endpoint) (active_endpoints T.reader es)
  unfolding each_reader reader_of
  each_reader-map m [] found keyed = refl
  each_reader-map m ((k, e) ∷ rest) found keyed =
      elim (Bool-cases (e.info.active && T.kind_eq e.info.kind T.reader)) [
        | inl shown ↦
            rw
              (
                shown,
                set_complex_found m T.reader e.info.guid e (E.entries m.endpoint_database)
                    (own_guid m k e keyed.0 found.0) shown,
              )
              (ap (◌∷◌ (fill_complex_endpoint m no_endpoint e.info))
                (each_reader-map m rest found.1 keyed.1))
        | inr hidden ↦ rw hidden (each_reader-map m rest found.1 keyed.1)
      ]

  -- In a database in which each endpoint stands under its own guid, readers and readers_verbose show
  -- the same endpoints, in the order of the database: its active readers, each once and with its own
  -- data.
  pub readers_verbose-readers :
      (m : SpyModel Callback)
      → IsKeyed (E.entries m.endpoint_database)
      → let shown = active_endpoints T.reader (E.entries m.endpoint_database) in
        (readers m ≡ map (fill_simple_endpoint m) shown)
        × (readers_verbose m ≡ map (fill_complex_endpoint m no_endpoint) shown)
  unfolding readers readers_verbose
  readers_verbose-readers m keyed =
      let es = E.entries m.endpoint_database in
      (
        set_simple-map m T.reader es,
        each_reader-map m es (IsFound-of_sorted es (E.sorted m.endpoint_database)) keyed,
      )
