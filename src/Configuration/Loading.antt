-- ===== src/Configuration/Loading.antt =====
-- YamlReaderConfiguration.cpp, the functions that load a configuration. `none` is the
-- ConfigurationException that takes the place of every exception.
use fast_dds_spy.Prelude.{String, not, List, [], ◌∷◌, Option, none, some, if◌then◌else◌}
use mathlib.Core.Option
use fast_dds_spy.Order.{Order, ◌=?◌}
use fast_dds_spy.Order.Texts.{string_order}
use fast_dds_spy.External.Topics.{Topics, FilterTopic}
use fast_dds_spy.External.Options.{is_set, get_value}
use fast_dds_spy.External.YamlReading.{YamlReading}
use fast_dds_spy.Map
use fast_dds_spy.Set
use fast_dds_spy.CommandLine.{Args}
use fast_dds_spy.Configuration.{
  Configuration, DdsConfiguration, PipeConfiguration, default_configuration,
}

infixl 1 ◌>>=◌
unfoldable pub ◌>>=◌ : {A B : Type 0} → Option A → (A → Option B) → Option B
none >>= f = none
some a >>= f = f a

module _ ⦃T : Topics⦄ ⦃R : YamlReading⦄ where
  -- What an optional tag does: it is read and stored if it is present.
  unfoldable pub load_tag :
      {A C : Type 0} → (R.Yaml → String → Option A) → (C → A → C) → R.Yaml → String → C → Option C
  load_tag get store yml tag c = do
    present ← R.is_tag_present yml tag
    if present then Option.map (store c) (get yml tag) else some c

  -- A value that is filled from the node under its tag.
  abbrev pub in_tag : {A : Type 0} → (R.Yaml → Option A) → R.Yaml → String → Option A
  in_tag fill yml tag = do node ← R.get_value_in_tag yml tag; fill node

  -- The loop over the manual topics: insert, or overwrite what is there.
  unfoldable pub store_filters :
      List R.ManualTopic → List (String × String) → List (String × String)
  store_filters [] dict = dict
  store_filters (topic ∷ rest) dict =
      store_filters rest
        (Map.insert (R.manual_topic_name topic) (R.content_topic_filter topic) dict)

  abbrev pub with_dds : Configuration → (DdsConfiguration → DdsConfiguration) → Configuration
  with_dds c f = record c { dds_configuration = f c.dds_configuration }

  abbrev pub with_pipe : Configuration → (PipeConfiguration → PipeConfiguration) → Configuration
  with_pipe c f = record c { ddspipe_configuration = f c.ddspipe_configuration }

  unfoldable pub store_topics : Configuration → List R.ManualTopic → Configuration
  unfolding store_filters
  store_topics c manual_topics =
      with_dds (with_pipe c (λ p. record p { manual_topics = manual_topics })) (λ d. record d {
        content_topic_filter_dict = store_filters manual_topics d.content_topic_filter_dict;
      })

  unfoldable pub load_dds_configuration : R.Yaml → Configuration → Option Configuration
  load_dds_configuration yml c = do
    c ←
        load_tag (in_tag (R.fill_xml c.xml_configuration))
          (λ c v. record c { xml_configuration = v }) yml R.xml_tag c
    c ←
        load_tag R.get_string (λ c v. with_dds c (λ d. record d { participant_profile = some v }))
          yml "dds-profile" c
    c ←
        load_tag R.get_filter_topics (λ c v. with_pipe c (λ p. record p { allowlist = v })) yml
          R.allowlist_tag c
    c ←
        load_tag R.get_filter_topics (λ c v. with_pipe c (λ p. record p { blocklist = v })) yml
          R.blocklist_tag c
    c ← load_tag R.get_manual_topics store_topics yml R.topics_tag c
    c ←
        load_tag R.get_domain (λ c v. with_dds c (λ d. record d { domain = v })) yml R.domain_id_tag
          c
    c ←
        load_tag R.get_interfaces (λ c v. with_dds c (λ d. record d { whitelist = v })) yml
          R.whitelist_interfaces_tag c
    c ←
        load_tag R.get_texts (λ c v. with_dds c (λ d. record d { allowed_partition_list = v })) yml
          R.partitionlist_tag c
    c ←
        load_tag R.get_transport (λ c v. with_dds c (λ d. record d { transport = v })) yml
          R.transport_tag (with_dds c (λ d. record d { transport = R.builtin_transport }))
    c ←
        load_tag R.get_ip (λ c v. with_dds c (λ d. record d { easy_mode_ip = some v })) yml
          R.easy_mode_tag c
    c ←
        load_tag R.get_flags (λ c v. with_dds c (λ d. record d { ignore_participant_flags = v }))
          yml R.ignore_participant_flags_tag
          (with_dds c (λ d. record d { ignore_participant_flags = R.no_filter }))
    load_tag R.get_bool (λ c v. record c { ros2_types = v }) yml "ros2-types" c

  unfoldable pub load_specs_configuration : R.Yaml → Configuration → Option Configuration
  load_specs_configuration yml c = do
    c ← load_tag R.get_unsigned (λ c v. record c { n_threads = v }) yml R.number_threads_tag c
    c ←
        load_tag (in_tag (R.fill_qos c.topic_qos))
          (λ c v. record c { topic_qos = v; default_topic_qos = some v }) yml R.specs_qos_tag c
    c ←
        load_tag R.get_duration_ms (λ c v. record c { one_shot_wait_time_ms = v }) yml
          "discovery-time" c
    c ← load_tag R.get_bool (λ c v. record c { dds_enabled = not v }) yml R.rtps_enabled_tag c
    load_tag R.get_log (λ c v. with_pipe c (λ p. record p { log_configuration = v })) yml
        R.log_configuration_tag c

  -- A section of the document, if it is there.
  unfoldable pub load_section :
      (R.Yaml → Configuration → Option Configuration)
      → R.Yaml
      → String
      → Configuration
      → Option Configuration
  load_section load yml tag c = do
    present ← R.is_tag_present yml tag
    if present then (R.get_value_in_tag yml tag >>= λ section. load section c) else some c

  unfoldable pub apply_args : Option Args → Configuration → Configuration
  apply_args none c = c
  apply_args (some args) c =
      let c = with_pipe c (λ p. record p {
        log_configuration =
            R.set_filter args.log_filter.error args.log_filter.warning args.log_filter.info
              (R.set_verbosity args.log_verbosity p.log_configuration);
      }) in
      if is_set args.domain
      then with_dds c (λ d. record d { domain = get_value args.domain })
      else c

  module _ ⦃fo : Order FilterTopic⦄ where
    -- The services of ROS 2 are blocked, whatever the document says.
    unfoldable pub block_services : Configuration → Configuration
    block_services c = with_pipe c (λ p. record p {
      blocklist = Set.insert (T.named_topic "rr/*") (Set.insert (T.named_topic "rq/*") p.blocklist);
      discovery_trigger = R.writer_trigger;
    })

    unfoldable pub load_configuration : R.Yaml → Option Args → Configuration → Option Configuration
    load_configuration yml args c = do
      c ← load_section load_specs_configuration yml R.specs_tag c
      c ← load_section load_dds_configuration yml "dds" c
      some (apply_args args (block_services c))

    unfoldable pub load_configuration_from_file : String → Option Args → Option Configuration
    load_configuration_from_file file_path args = do
      yml ← (if file_path =? "" then some R.empty_yaml else R.load_file file_path)
      load_configuration yml args default_configuration
