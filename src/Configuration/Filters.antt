-- ===== src/Configuration/Filters.antt =====
-- The content filters of a configuration.
use fast_dds_spy.Prelude.{◌≡◌, Option, none, some, Bool-cases, inl, inr}
use fast_dds_spy.Order.{Order}
use fast_dds_spy.External.Topics.{Topics, FilterTopic}
use fast_dds_spy.External.Options.{is_set}
use fast_dds_spy.External.YamlReading.{YamlReading}
use fast_dds_spy.CommandLine.{Args}
use fast_dds_spy.Configuration.{Configuration}
use fast_dds_spy.Configuration.Loading.{
  load_dds_configuration, load_specs_configuration, apply_args, block_services, load_configuration,
  store_topics,
}
use fast_dds_spy.Configuration.Results.{
  anything, Ends, Ends->>=, Ends-some, load_tag-Ends, load_section-Ends,
}
use fast_dds_spy.Prelude.{String, List, [], ◌∷◌}
use fast_dds_spy.Order.Texts.{string_order}
use fast_dds_spy.Map
use fast_dds_spy.Configuration.{default_configuration}
use fast_dds_spy.Configuration.Loading.{store_filters, load_configuration_from_file}

module _ ⦃T : Topics⦄ ⦃R : YamlReading⦄ where
  store_filters-IsSorted :
      (topics : List R.ManualTopic) (dict : List (String × String))
      → Map.IsSorted dict
      → Map.IsSorted (store_filters topics dict)
  unfolding store_filters
  store_filters-IsSorted [] dict s = s
  store_filters-IsSorted (t ∷ rest) dict s =
      store_filters-IsSorted rest _
        (Map.insert-IsSorted (R.manual_topic_name t) (R.content_topic_filter t) dict s)

  -- The content filters are a map.
  abbrev Mapped : Configuration → Type 0
  Mapped c = Map.IsSorted c.dds_configuration.content_topic_filter_dict

  load_dds_configuration-Mapped :
      (yml : R.Yaml) (c : Configuration) → Mapped c → Ends Mapped (load_dds_configuration yml c)
  unfolding load_dds_configuration store_topics
  load_dds_configuration-Mapped yml c p =
      Ends->>= Mapped Mapped _ _ (load_tag-Ends Mapped _ _ _ _ _ (λ a. p) p) (λ c1 p1.
        Ends->>= Mapped Mapped _ _ (load_tag-Ends Mapped _ _ _ _ _ (λ a. p1) p1) (λ c2 p2.
          Ends->>= Mapped Mapped _ _ (load_tag-Ends Mapped _ _ _ _ _ (λ a. p2) p2) (λ c3 p3.
            Ends->>= Mapped Mapped _ _ (load_tag-Ends Mapped _ _ _ _ _ (λ a. p3) p3) (λ c4 p4.
              Ends->>= Mapped Mapped _ _
                (load_tag-Ends Mapped _ _ _ _ _
                  (λ a. store_filters-IsSorted a c4.dds_configuration.content_topic_filter_dict p4)
                  p4)
                (λ c5 p5.
                  Ends->>= Mapped Mapped _ _ (load_tag-Ends Mapped _ _ _ _ _ (λ a. p5) p5) (λ c6 p6.
                    Ends->>= Mapped Mapped _ _ (load_tag-Ends Mapped _ _ _ _ _ (λ a. p6) p6)
                      (λ c7 p7.
                        Ends->>= Mapped Mapped _ _ (load_tag-Ends Mapped _ _ _ _ _ (λ a. p7) p7)
                          (λ c8 p8.
                            Ends->>= Mapped Mapped _ _ (load_tag-Ends Mapped _ _ _ _ _ (λ a. p8) p8)
                              (λ c9 p9.
                                Ends->>= Mapped Mapped _ _
                                  (load_tag-Ends Mapped _ _ _ _ _ (λ a. p9) p9)
                                  (λ c10 p10.
                                    Ends->>= Mapped Mapped _ _
                                      (load_tag-Ends Mapped _ _ _ _ _ (λ a. p10) p10)
                                      (λ c11 p11.
                                        load_tag-Ends Mapped _ _ _ _ _ (λ a. p11) p11)))))))))))

  load_specs_configuration-Mapped :
      (yml : R.Yaml) (c : Configuration) → Mapped c → Ends Mapped (load_specs_configuration yml c)
  unfolding load_specs_configuration
  load_specs_configuration-Mapped yml c p =
      Ends->>= Mapped Mapped _ _ (load_tag-Ends Mapped _ _ _ _ _ (λ a. p) p) (λ c1 p1.
        Ends->>= Mapped Mapped _ _ (load_tag-Ends Mapped _ _ _ _ _ (λ a. p1) p1) (λ c2 p2.
          Ends->>= Mapped Mapped _ _ (load_tag-Ends Mapped _ _ _ _ _ (λ a. p2) p2) (λ c3 p3.
            Ends->>= Mapped Mapped _ _ (load_tag-Ends Mapped _ _ _ _ _ (λ a. p3) p3)
              (λ c4 p4. load_tag-Ends Mapped _ _ _ _ _ (λ a. p4) p4))))

  module _ ⦃fo : Order FilterTopic⦄ where
    apply_args-Mapped :
        (args : Option Args) (c : Configuration)
        → Mapped c
        → Mapped (apply_args args (block_services c))
    unfolding apply_args block_services
    apply_args-Mapped none c p = p
    apply_args-Mapped (some args) c p = elim (Bool-cases (is_set args.domain)) [
      | inl e ↦ rw (e, apply_args) p
      | inr e ↦ rw (e, apply_args) p
    ]

    load_configuration-Mapped :
        (yml : R.Yaml) (args : Option Args) (c : Configuration)
        → Mapped c
        → Ends Mapped (load_configuration yml args c)
    unfolding load_configuration Ends
    load_configuration-Mapped yml args c p =
        Ends->>= Mapped Mapped _ _
          (load_section-Ends Mapped load_specs_configuration yml _ c
            (λ s. load_specs_configuration-Mapped s c p) p)
          (λ c1 p1.
            Ends->>= Mapped Mapped _ _
              (load_section-Ends Mapped load_dds_configuration yml _ c1
                (λ s. load_dds_configuration-Mapped s c1 p1) p1)
              (λ c2 p2. apply_args-Mapped args c2 p2))

    -- The content filters of a configuration that is loaded from a file are a map: in the order of the
    -- topics' names, each of which stands once.
    pub load_configuration_from_file-IsSorted :
        (file_path : String) (args : Option Args) (c : Configuration)
        → load_configuration_from_file file_path args ≡ some c
        → Map.IsSorted c.dds_configuration.content_topic_filter_dict
    unfolding load_configuration_from_file default_configuration
    load_configuration_from_file-IsSorted file_path args c h =
        Ends-some Mapped (load_configuration_from_file file_path args)
          (Ends->>= (λ yml. Unit) Mapped _ _ (anything _)
            (λ yml u. load_configuration-Mapped yml args default_configuration tt))
          h
