-- ===== src/Controller/TopicsAnswers.antt =====
-- When topics <name> with an option is refused for want of a topic.
use fast_dds_spy.Prelude.{
  String, List, [], ◌∷◌, Bool, true, false, not, if◌then◌else◌, is_empty, ◌≡◌, refl, Bool-cases,
  inl, inr, ◌&&◌, ◌||◌, any, map, arith,
}
use fast_dds_spy.Order.{Order}
use fast_dds_spy.Order.Texts.{string_order}
use fast_dds_spy.External.Guids.{Guids, Guid}
use fast_dds_spy.External.DynTypes.{DynTypes}
use fast_dds_spy.External.Topics.{Topics, DdsTopic, FilterTopic}
use fast_dds_spy.External.Times.{Times}
use fast_dds_spy.External.Database.{Database}
use fast_dds_spy.Set
use fast_dds_spy.SpyModel.{SpyModel, ParticipantInfo, EndpointInfoData}
use fast_dds_spy.External.Guids.{InstanceHandle}
use fast_dds_spy.Parser.Topics.{
  collect_topics, get_topics, topics, topics_verbose, topics_type_idl, simple_topic_data,
  complex_topic_data,
}
use fast_dds_spy.Parser.Listing.{topics_type_idl-is_empty}
use fast_dds_spy.Controller.Arguments.{verbose_argument, verbose_verbose_argument, idl_argument}
use fast_dds_spy.Controller.TopicsCommand.{
  Shown, show_nothing, show_topics, show_verbose, show_idl, show_keys, show_error, no_match,
  list_named, list_verbose, list_idl, topics_command,
}

is_empty-map : {A B : Type 0} (f : A → B) (xs : List A) → is_empty (map f xs) ≡ is_empty xs
is_empty-map f [] = refl
is_empty-map f (x ∷ xs) = refl

module _ ⦃G : Guids⦄ ⦃M : Times⦄ where
  abbrev pub is_refused : List Shown → Bool
  is_refused [] = false
  is_refused (show_error t ∷ rest) = true
  is_refused (show_nothing ∷ rest) = false
  is_refused (show_topics ts compact ∷ rest) = false
  is_refused (show_verbose ts ∷ rest) = false
  is_refused (show_idl t ∷ rest) = false
  is_refused (show_keys ks compact ∷ rest) = false

  unless_match :
      (b : Bool) (name : String) (x : Shown) (rest : List Shown)
      → is_refused (x ∷ rest) ≡ false
      → is_refused (if b then no_match name else x ∷ rest) ≡ b
  unless_match true name x rest fine = refl
  unless_match false name x rest fine = fine

module _ ⦃G : Guids⦄ ⦃T : Topics⦄ where
  -- An active endpoint on a topic that the filter accepts.
  abbrev pub is_match : FilterTopic → Guid × EndpointInfoData → Bool
  is_match f (k, e) = e.info.active && T.matches f e.info.topic

  is_empty-collect_topics :
      ⦃to : Order DdsTopic⦄ (f : FilterTopic) (s : List DdsTopic)
      (es : List (Guid × EndpointInfoData))
      → is_empty (collect_topics f s es) ≡ (is_empty s && not (any (is_match f) es))
  unfolding collect_topics
  is_empty-collect_topics f s [] = ground arith
  is_empty-collect_topics f s ((k, e) ∷ rest) = ground (
    arith,
    is_empty-collect_topics f s rest,
    is_empty-collect_topics f (Set.insert e.info.topic s) rest,
    Set.is_empty-insert e.info.topic s,
  )

module _ ⦃G : Guids⦄ ⦃go : Order Guid⦄ ⦃ho : Order InstanceHandle⦄ ⦃D : DynTypes⦄ ⦃T : Topics⦄
    ⦃to : Order DdsTopic⦄ ⦃M : Times⦄ ⦃P : Database Guid ParticipantInfo⦄
    ⦃E : Database Guid EndpointInfoData⦄ {Callback : Type 0} where
  -- Nothing of the database matches the name.
  abbrev pub is_unknown : SpyModel Callback → String → Bool
  is_unknown m name = not (any (is_match (T.named_topic name)) (E.entries m.endpoint_database))

  is_empty-get_topics :
      (m : SpyModel Callback) (name : String)
      → is_empty (get_topics m (T.named_topic name)) ≡ is_unknown m name
  unfolding get_topics
  is_empty-get_topics m name =
      is_empty-collect_topics (T.named_topic name) [] (E.entries m.endpoint_database)

  list_named-is_refused :
      (m : SpyModel Callback) (name : String) (compact : Bool)
      → is_refused (list_named m name compact) ≡ is_unknown m name
  unfolding list_named topics
  list_named-is_refused m name compact =
      rw
        (
          is_empty-map (simple_topic_data m) (get_topics m (T.named_topic name)),
          is_empty-get_topics m name,
        )
        (unless_match (is_unknown m name) name (show_topics (topics m (T.named_topic name)) compact)
          [] refl)

  list_verbose-is_refused :
      (m : SpyModel Callback) (name : String) → is_refused (list_verbose m name) ≡ is_unknown m name
  unfolding list_verbose topics_verbose
  list_verbose-is_refused m name =
      rw
        (
          is_empty-map (complex_topic_data m) (get_topics m (T.named_topic name)),
          is_empty-get_topics m name,
        )
        (unless_match (is_unknown m name) name
          (show_verbose (topics_verbose m (T.named_topic name))) [] refl)

  list_idl-is_refused :
      (m : SpyModel Callback) (name : String) → is_refused (list_idl m name) ≡ is_unknown m name
  unfolding list_idl
  list_idl-is_refused m name =
      rw (topics_type_idl-is_empty m (T.named_topic name), is_empty-get_topics m name)
        (unless_match (is_unknown m name) name (show_idl (topics_type_idl m (T.named_topic name)))
          (show_nothing ∷ []) refl)

  -- topics <name> v, topics <name> vv and topics <name> idl, in any spelling, are refused with an
  -- error exactly when no active endpoint is on a topic that matches the name.
  pub topics_command-is_refused :
      (m : SpyModel Callback) (command name option : String)
      → (verbose_argument option || verbose_verbose_argument option || idl_argument option) ≡ true
      → is_refused (topics_command m (command ∷ name ∷ option ∷ [])) ≡ is_unknown m name
  unfolding topics_command
  topics_command-is_refused m command name option asked =
      elim (Bool-cases (verbose_argument option)) [
        | inl v ↦ rw v (list_named-is_refused m name false)
        | inr v ↦ elim (Bool-cases (verbose_verbose_argument option)) [
          | inl vv ↦ rw (v, vv) (list_verbose-is_refused m name)
          | inr vv ↦
              let idl : idl_argument option ≡ true = ground arith in
              rw (v, vv, idl) (list_idl-is_refused m name)
        ]
      ]
