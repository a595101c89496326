-- ===== src/Configuration/Services.antt =====
-- What every loaded configuration has, and which ones are valid.
use fast_dds_spy.Prelude.{
  ℕ, ◌≤◌, String, true, List, ◌≡◌, ◌↔◌, Option, none, some, arith, Bool-cases, inl, inr,
}
use fast_dds_spy.Order.{Order}
use fast_dds_spy.External.Topics.{Topics, FilterTopic}
use fast_dds_spy.External.Options.{is_set}
use fast_dds_spy.External.YamlReading.{YamlReading}
use fast_dds_spy.Set
use fast_dds_spy.CommandLine.{Args, valid}
use fast_dds_spy.Configuration.{Configuration, default_configuration, is_valid}
use fast_dds_spy.Configuration.Loading.{
  ◌>>=◌, load_section, apply_args, block_services, load_configuration, load_configuration_from_file,
}
use fast_dds_spy.Order.Texts.{string_order}
use fast_dds_spy.Configuration.Results.{anything, Ends, Ends->>=, Ends-some}

both_inserted :
    {K : Type 0} ⦃o : Order K⦄ (a b : K) (s : List K)
    → (Set.contains a (Set.insert b (Set.insert a s)) ≡ true)
      × (Set.contains b (Set.insert b (Set.insert a s)) ≡ true)
both_inserted ⦃o⦄ a b s = (
  ground (arith, Set.contains-insert b a (Set.insert a s), Set.contains-insert a a s, o.eq_iff a a),
  ground (arith, Set.contains-insert b b (Set.insert a s), o.eq_iff b b),
)

module _ ⦃T : Topics⦄ ⦃R : YamlReading⦄ where
  -- The configuration is valid exactly if the domain is not above the largest and there is a thread.
  pub is_valid_iff :
      (max_domain_id : ℕ) (shown : String) (c : Configuration)
      → (is_valid max_domain_id shown c ≡ valid)
        ↔ ((c.dds_configuration.domain ≤ max_domain_id) × (1 ≤ c.n_threads))
  unfolding is_valid
  is_valid_iff max_domain_id shown c = ground arith

  module _ ⦃fo : Order FilterTopic⦄ where
    -- The topics of ROS 2 services are blocked.
    abbrev pub BlocksServices : Configuration → Type 0
    BlocksServices c =
        (Set.contains (T.named_topic "rq/*") c.ddspipe_configuration.blocklist ≡ true)
        × (Set.contains (T.named_topic "rr/*") c.ddspipe_configuration.blocklist ≡ true)

    block_services-BlocksServices :
        (args : Option Args) (c : Configuration)
        → BlocksServices (apply_args args (block_services c))
    unfolding apply_args block_services
    block_services-BlocksServices none c = both_inserted _ _ c.ddspipe_configuration.blocklist
    block_services-BlocksServices (some args) c = elim (Bool-cases (is_set args.domain)) [
      | inl e ↦ rw (e, apply_args) (both_inserted _ _ c.ddspipe_configuration.blocklist)
      | inr e ↦ rw (e, apply_args) (both_inserted _ _ c.ddspipe_configuration.blocklist)
    ]

    load_configuration-Ends :
        (yml : R.Yaml) (args : Option Args) (old : Configuration)
        → Ends BlocksServices (load_configuration yml args old)
    unfolding load_configuration Ends
    load_configuration-Ends yml args old =
        let P : Configuration → Type 0 = λ c'. Unit in
        Ends->>= P BlocksServices _ _ (anything _) (λ c1 p1.
          Ends->>= P BlocksServices _ _ (anything _)
            (λ c2 p2. block_services-BlocksServices args c2))

    -- A configuration that is loaded from a file, or without one, blocks the request and the response
    -- topics of ROS 2 services, whatever the file and the command line say.
    pub load_configuration_from_file-BlocksServices :
        (file_path : String) (args : Option Args) (c : Configuration)
        → load_configuration_from_file file_path args ≡ some c
        → BlocksServices c
    unfolding load_configuration_from_file Ends
    load_configuration_from_file-BlocksServices file_path args c h =
        Ends-some BlocksServices (load_configuration_from_file file_path args)
          (Ends->>= (λ yml. Unit) BlocksServices _ _ (anything _)
            (λ yml p. load_configuration-Ends yml args default_configuration))
          h

    -- Without a file the default configuration is loaded, with the services blocked and with the
    -- settings of the command line.
    pub load_configuration_from_file-default :
        (args : Option Args)
        → load_configuration_from_file "" args
          ≡ some (apply_args args (block_services default_configuration))
    unfolding load_configuration_from_file load_configuration load_section ◌>>=◌
    load_configuration_from_file-default args = simp (R.is_tag_present-empty)
