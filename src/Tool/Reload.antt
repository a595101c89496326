-- ===== src/Tool/Reload.antt =====
-- What a reload of the configuration gives to the pipe.
use fast_dds_spy.Prelude.{String, true, List, [], ◌∷◌, Option, none, some, is_empty}
use fast_dds_spy.Order.{Order}
use fast_dds_spy.Order.Texts.{string_order}
use fast_dds_spy.External.Topics.{Topics, DdsTopic, FilterTopic}
use fast_dds_spy.External.InternalTopics.{TopicTools}
use fast_dds_spy.External.YamlReading.{YamlReading}
use fast_dds_spy.Prelude.{◌≡◌, ◌⊎◌, inl, inr, refl, subst, arith, Option-cases}
use fast_dds_spy.Set
use fast_dds_spy.InternalTopics.{
  participant_info_topic, endpoint_info_topic, participant_info_topic_name,
  endpoint_info_topic_name,
}
use fast_dds_spy.Configuration.{Configuration, PipeConfiguration}
use fast_dds_spy.Configuration.Loading.{load_configuration_from_file}
use fast_dds_spy.Configuration.Services.{load_configuration_from_file-BlocksServices}
use fast_dds_spy.Tool.{load_internal_topics, allow_internal_topics}
use fast_dds_spy.Tool.Starting.{reload_configuration}
use fast_dds_spy.Tool.Main.{reload}

three_inserted :
    {K : Type 0} ⦃o : Order K⦄ (a b c : K) (s : List K)
    → (Set.contains a (Set.insert c (Set.insert b (Set.insert a s))) ≡ true)
      × (Set.contains b (Set.insert c (Set.insert b (Set.insert a s))) ≡ true)
      × (Set.contains c (Set.insert c (Set.insert b (Set.insert a s))) ≡ true)
three_inserted ⦃o⦄ a b c s =
    let s1 = Set.insert a s in
    let s2 = Set.insert b s1 in
    (
      ground (
        arith,
        Set.contains-insert c a s2,
        Set.contains-insert b a s1,
        Set.contains-insert a a s,
        o.eq_iff a a,
      ),
      ground (arith, Set.contains-insert c b s2, Set.contains-insert b b s1, o.eq_iff b b),
      ground (arith, Set.contains-insert c c s2, o.eq_iff c c),
    )

module _ ⦃T : Topics⦄ ⦃R : YamlReading⦄ ⦃I : TopicTools⦄ ⦃to : Order DdsTopic⦄
    ⦃fo : Order FilterTopic⦄ where
  -- The allowlist is empty, or has the three internal topics.
  abbrev pub LetsInternal : List FilterTopic → Type 0
  LetsInternal allowlist =
      (is_empty allowlist ≡ true)
      ⊎ ((Set.contains (T.named_topic participant_info_topic_name) allowlist ≡ true)
          × (Set.contains (T.named_topic endpoint_info_topic_name) allowlist ≡ true)
          × (Set.contains (T.named_topic I.type_object_topic_name) allowlist ≡ true))

  -- What lets the pipe transmit the discovery and the types: the internal topics are built-in, and an
  -- allowlist lets them pass.
  abbrev pub Transmits : PipeConfiguration → Type 0
  Transmits p =
      (Set.contains participant_info_topic p.builtin_topics ≡ true)
      × (Set.contains endpoint_info_topic p.builtin_topics ≡ true)
      × (Set.contains I.type_object_topic p.builtin_topics ≡ true)
      × LetsInternal p.allowlist

  allow_internal_topics-lets :
      (allowlist : List FilterTopic) → LetsInternal (allow_internal_topics allowlist)
  unfolding allow_internal_topics
  allow_internal_topics-lets [] = inl refl
  allow_internal_topics-lets (x ∷ xs) =
      let (t, p, e) =
        three_inserted (T.named_topic I.type_object_topic_name)
          (T.named_topic participant_info_topic_name) (T.named_topic endpoint_info_topic_name)
          (x ∷ xs) in
      inr (p, e, t)

  load_internal_topics-Transmits :
      (c : Configuration) → Transmits (load_internal_topics c).ddspipe_configuration
  unfolding load_internal_topics allow_internal_topics
  load_internal_topics-Transmits c =
      let pipe : PipeConfiguration = c.ddspipe_configuration in
      let (p, e, t) =
        three_inserted participant_info_topic endpoint_info_topic I.type_object_topic
          pipe.builtin_topics in
      (p, e, t, allow_internal_topics-lets pipe.allowlist)

  abbrev pub BlocksTopics : PipeConfiguration → Type 0
  BlocksTopics p =
      (Set.contains (T.named_topic "rq/*") p.blocklist ≡ true)
      × (Set.contains (T.named_topic "rr/*") p.blocklist ≡ true)

  abbrev PipeIsSafe : Option PipeConfiguration → Type 0
  PipeIsSafe none = Unit
  PipeIsSafe (some p) = Transmits p × BlocksTopics p

  reload-PipeIsSafe : (file_path : String) → PipeIsSafe (reload file_path)
  unfolding reload reload_configuration load_internal_topics
  reload-PipeIsSafe file_path = elim (Option-cases (load_configuration_from_file file_path none)) [
    | inl e ↦ rw (e, reload) tt
    | inr (c, e) ↦
        rw (e, reload)
          (
            load_internal_topics-Transmits c,
            load_configuration_from_file-BlocksServices file_path none c e,
          )
  ]

  -- A configuration that is reloaded from a file, and that the pipe is given, still has the internal
  -- topics built in, lets them pass its allowlist if it has one, and blocks the topics of the
  -- services of ROS 2.
  pub reload-Transmits :
      (file_path : String) (p : PipeConfiguration)
      → reload file_path ≡ some p
      → Transmits p × BlocksTopics p
  reload-Transmits file_path p h = subst PipeIsSafe h (reload-PipeIsSafe file_path)
