-- ===== src/Parser/Listing.antt =====
-- The listings of ModelParser.cpp agree with each other and with the database.
use fast_dds_spy.Prelude.{
  ℕ, List, [], ◌∷◌, Bool, ◌&&◌, ◌||◌, not, if◌then◌else◌, ◌+◌, length, is_empty, map, select, any,
  ◌≡◌, refl, ap, arith, Bool-cases, inl, inr,
}
use fast_dds_spy.Order.{Order, ◌=?◌}
use fast_dds_spy.Order.Texts.{string_order}
use fast_dds_spy.External.Guids.{Guids, Guid, InstanceHandle}
use fast_dds_spy.External.DynTypes.{DynTypes}
use fast_dds_spy.External.Topics.{Topics, DdsTopic, FilterTopic, is_reader, is_writer}
use fast_dds_spy.External.Times.{Times}
use fast_dds_spy.External.Database.{Database}
use fast_dds_spy.DataStreamer
use fast_dds_spy.Set
use fast_dds_spy.SpyModel.{SpyModel, ParticipantInfo, EndpointInfoData}
use fast_dds_spy.Parser.Topics.{
  collect_topics, count_endpoints, list_endpoints, first_idl, get_topics, simple_topic_data,
  complex_topic_data, topics_type_idl, topic_keys, topics_keys_by_ddstopic, topics_keys,
  no_type_information,
}

module _ ⦃G : Guids⦄ ⦃T : Topics⦄ where
  -- An active endpoint that the filter accepts, on this very topic.
  abbrev pub offers :
      ⦃to : Order DdsTopic⦄ → FilterTopic → DdsTopic → Guid × EndpointInfoData → Bool
  offers f t (k, e) = e.info.active && T.matches f e.info.topic && e.info.topic =? t

  module _ ⦃to : Order DdsTopic⦄ where
    contains-collect_topics :
        (f : FilterTopic) (t : DdsTopic) (s : List DdsTopic) (es : List (Guid × EndpointInfoData))
        → Set.contains t (collect_topics f s es) ≡ (Set.contains t s || any (offers f t) es)
    unfolding collect_topics
    contains-collect_topics f t s [] = ground arith
    contains-collect_topics f t s ((k, e) ∷ rest) = ground (
      arith,
      contains-collect_topics f t s rest,
      contains-collect_topics f t (Set.insert e.info.topic s) rest,
      Set.contains-insert e.info.topic t s,
    )

    collect_topics-IsSorted :
        (f : FilterTopic) (s : List DdsTopic) (es : List (Guid × EndpointInfoData))
        → Set.IsSorted s
        → Set.IsSorted (collect_topics f s es)
    unfolding collect_topics
    collect_topics-IsSorted f s [] a = a
    collect_topics-IsSorted f s ((k, e) ∷ rest) a =
        elim (Bool-cases (not e.info.active || not (T.matches f e.info.topic))) [
          | inl skipped ↦ rw skipped (collect_topics-IsSorted f s rest a)
          | inr taken ↦ rw taken (
              collect_topics-IsSorted f (Set.insert e.info.topic s) rest
                (Set.insert-IsSorted e.info.topic s a))
        ]

  count_endpoints-length :
      (t : DdsTopic) (w r : ℕ) (es : List (Guid × EndpointInfoData))
      → ((count_endpoints t w r es).0 ≡ w + length (list_endpoints is_writer t es))
        × ((count_endpoints t w r es).1 ≡ r + length (list_endpoints is_reader t es))
  unfolding count_endpoints list_endpoints
  count_endpoints-length t w r [] = (omega arith, omega arith)
  count_endpoints-length t w r ((k, e) ∷ rest) =
      let (dw, dr) =
        count_endpoints-length t
          (if (e.info.active && T.topic_name e.info.topic =? T.topic_name t) && is_writer e.info
            then w + 1
            else w)
          (if (e.info.active && T.topic_name e.info.topic =? T.topic_name t) && is_reader e.info
            then r + 1
            else r)
          rest in
      (
        ground (
          arith,
          dw,
          string_order.eq_iff (T.topic_name e.info.topic) (T.topic_name t),
          string_order.eq_iff (T.topic_name t) (T.topic_name e.info.topic),
        ),
        ground (
          arith,
          dr,
          string_order.eq_iff (T.topic_name e.info.topic) (T.topic_name t),
          string_order.eq_iff (T.topic_name t) (T.topic_name e.info.topic),
        ),
      )

  idl_or_hint-is_empty :
      ⦃to : Order DdsTopic⦄
      → (es : List (Guid × EndpointInfoData)) (ts : List DdsTopic)
      → ((if first_idl es ts =? ""
            then (if is_empty ts then "" else no_type_information)
            else first_idl es ts)
          =? "")
        ≡ is_empty ts
  unfolding first_idl
  idl_or_hint-is_empty es [] = refl
  idl_or_hint-is_empty es (t ∷ ts) = elim (Bool-cases (first_idl es (t ∷ ts) =? "")) [
    | inl missing ↦ rw missing refl
    | inr found ↦ rw (found, found) refl
  ]

module _ ⦃G : Guids⦄ ⦃go : Order Guid⦄ ⦃ho : Order InstanceHandle⦄ ⦃D : DynTypes⦄ ⦃T : Topics⦄
    ⦃to : Order DdsTopic⦄ ⦃M : Times⦄ ⦃P : Database Guid ParticipantInfo⦄
    ⦃E : Database Guid EndpointInfoData⦄ {Callback : Type 0} where
  -- get_topics lists a topic exactly when an active endpoint of the database is on this topic and the
  -- filter accepts it. The topics are in order, each once.
  pub get_topics-contains :
      (m : SpyModel Callback) (f : FilterTopic) (t : DdsTopic)
      → (Set.contains t (get_topics m f) ≡ any (offers f t) (E.entries m.endpoint_database))
        × Set.IsSorted (get_topics m f)
  unfolding get_topics Set.contains
  get_topics-contains m f t = (
    contains-collect_topics f t [] (E.entries m.endpoint_database),
    collect_topics-IsSorted f [] (E.entries m.endpoint_database) tt,
  )

  -- The simple and the verbose data of a topic agree: the two numbers are those of the writers and the
  -- readers that the verbose data list, and the name, the type and the rate are the same.
  pub simple_topic_data-complex :
      (m : SpyModel Callback) (t : DdsTopic)
      → let simple = simple_topic_data m t in
        let complex = complex_topic_data m t in
        (simple.datawriters ≡ length complex.datawriters)
        × (simple.datareaders ≡ length complex.datareaders)
        × (simple.name ≡ complex.name)
        × (simple.type ≡ complex.type)
        × (simple.rate ≡ complex.rate)
  unfolding simple_topic_data complex_topic_data
  simple_topic_data-complex m t =
      let (dw, dr) = count_endpoints-length t 0 0 (E.entries m.endpoint_database) in
      (omega (arith, dw), omega (arith, dr), refl, refl, refl)

  -- topics_type_idl is the empty text, which is taken to say that no topic matches, exactly when
  -- get_topics lists none.
  pub topics_type_idl-is_empty :
      (m : SpyModel Callback) (f : FilterTopic)
      → (topics_type_idl m f =? "") ≡ is_empty (get_topics m f)
  unfolding topics_type_idl
  topics_type_idl-is_empty m f =
      idl_or_hint-is_empty (E.entries m.endpoint_database) (get_topics m f)

  select_discovered :
      (m : SpyModel Callback) (ts : List DdsTopic)
      → topics_keys_by_ddstopic m ts
        ≡ map (topic_keys m) (select (DataStreamer.is_topic_type_discovered m.streamer) ts)
  unfolding topics_keys_by_ddstopic DataStreamer.is_any_topic_type_discovered
  select_discovered m [] = refl
  select_discovered m (t ∷ ts) =
      elim (Bool-cases (DataStreamer.is_topic_type_discovered m.streamer t)) [
        | inl known ↦ rw known (ap (◌∷◌ (topic_keys m t)) (select_discovered m ts))
        | inr other ↦ rw other (select_discovered m ts)
      ]

  unless_empty :
      (m : SpyModel Callback) (ts : List DdsTopic)
      → (if is_empty ts then [] else topics_keys_by_ddstopic m ts)
        ≡ map (topic_keys m) (select (DataStreamer.is_topic_type_discovered m.streamer) ts)
  unless_empty m [] = refl
  unless_empty m (t ∷ ts) = select_discovered m (t ∷ ts)

  -- topics_keys shows the keys of exactly those listed topics whose type is discovered, in the order of
  -- the listing.
  pub topics_keys-discovered :
      (m : SpyModel Callback) (f : FilterTopic)
      → topics_keys m f
        ≡ map
            (topic_keys m)
            (select (DataStreamer.is_topic_type_discovered m.streamer) (get_topics m f))
  unfolding topics_keys
  topics_keys-discovered m f = unless_empty m (get_topics m f)
