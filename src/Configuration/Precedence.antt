-- ===== src/Configuration/Precedence.antt =====
-- Where the settings of a configuration come from.
use fast_dds_spy.Prelude.{
  ℕ, true, false, ◌≡◌, refl, ap, sym, subst, Option, none, some, if◌then◌else◌, Bool-cases,
  Option-cases, inl, inr,
}
use fast_dds_spy.Order.{Order}
use fast_dds_spy.External.Topics.{Topics, FilterTopic}
use fast_dds_spy.External.Options.{is_set, get_value}
use fast_dds_spy.External.YamlReading.{YamlReading}
use fast_dds_spy.CommandLine.{Args}
use fast_dds_spy.Configuration.{Configuration}
use fast_dds_spy.Configuration.Loading.{
  ◌>>=◌, with_dds, load_tag, load_dds_configuration, load_specs_configuration, load_section,
  apply_args, block_services, load_configuration, store_topics,
}
use fast_dds_spy.Configuration.Results.{Ends, Ends->>=, Ends-some, load_tag-Ends, load_section-Ends}

module _ ⦃T : Topics⦄ ⦃R : YamlReading⦄ where
  abbrev domain_of : Configuration → ℕ
  domain_of c = c.dds_configuration.domain

  -- The domain that a section of DDS settings gives, over the one from before.
  unfoldable pub section_domain : R.Yaml → ℕ → Option ℕ
  section_domain yml old = load_tag R.get_domain (λ old new. new) yml R.domain_id_tag old

  Given : R.Yaml → ℕ → Configuration → Type 0
  Given yml n c = section_domain yml n ≡ some (domain_of c)

  load_domain-Ends :
      (yml : R.Yaml) (n : ℕ) (c : Configuration)
      → domain_of c ≡ n
      → Ends (Given yml n) (
          load_tag R.get_domain
            (λ c v. with_dds c (λ d. record d { domain = v }))
            yml
            R.domain_id_tag
            c)
  unfolding Ends load_tag ◌>>=◌ Given section_domain
  load_domain-Ends yml n c e = elim (Option-cases (R.is_tag_present yml R.domain_id_tag)) [
    | inl p ↦ rw (p, load_tag) tt
    | inr (false, p) ↦ rw (p, load_tag) (rw (p, Given) (ap some (sym e)))
    | inr (true, p) ↦ elim (Option-cases (R.get_domain yml R.domain_id_tag)) [
      | inl g ↦ rw (p, g, load_tag) tt
      | inr (v, g) ↦ rw (p, g, load_tag) (rw (p, g, Given) refl)
    ]
  ]

  load_dds_configuration-Ends :
      (yml : R.Yaml) (c : Configuration)
      → Ends (Given yml (domain_of c)) (load_dds_configuration yml c)
  unfolding load_dds_configuration store_topics Given
  load_dds_configuration-Ends yml c =
      let P : Configuration → Type 0 = λ c'. domain_of c' ≡ domain_of c in
      let Q : Configuration → Type 0 = Given yml (domain_of c) in
      Ends->>= P Q _ _ (load_tag-Ends P _ _ _ _ _ (λ a. refl) refl) (λ c1 p1.
        Ends->>= P Q _ _ (load_tag-Ends P _ _ _ _ _ (λ a. p1) p1) (λ c2 p2.
          Ends->>= P Q _ _ (load_tag-Ends P _ _ _ _ _ (λ a. p2) p2) (λ c3 p3.
            Ends->>= P Q _ _ (load_tag-Ends P _ _ _ _ _ (λ a. p3) p3) (λ c4 p4.
              Ends->>= P Q _ _ (load_tag-Ends P _ _ _ _ _ (λ a. p4) p4) (λ c5 p5.
                Ends->>= Q Q _ _ (load_domain-Ends yml (domain_of c) c5 p5) (λ c6 p6.
                  Ends->>= Q Q _ _ (load_tag-Ends Q _ _ _ _ _ (λ a. p6) p6) (λ c7 p7.
                    Ends->>= Q Q _ _ (load_tag-Ends Q _ _ _ _ _ (λ a. p7) p7) (λ c8 p8.
                      Ends->>= Q Q _ _ (load_tag-Ends Q _ _ _ _ _ (λ a. p8) p8) (λ c9 p9.
                        Ends->>= Q Q _ _ (load_tag-Ends Q _ _ _ _ _ (λ a. p9) p9) (λ c10 p10.
                          Ends->>= Q Q _ _ (load_tag-Ends Q _ _ _ _ _ (λ a. p10) p10)
                            (λ c11 p11. load_tag-Ends Q _ _ _ _ _ (λ a. p11) p11)))))))))))

  load_specs_configuration-Ends :
      (yml : R.Yaml) (n : ℕ) (c : Configuration)
      → domain_of c ≡ n
      → Ends (λ c'. domain_of c' ≡ n) (load_specs_configuration yml c)
  unfolding load_specs_configuration
  load_specs_configuration-Ends yml n c p =
      let P : Configuration → Type 0 = λ c'. domain_of c' ≡ n in
      Ends->>= P P _ _ (load_tag-Ends P _ _ _ _ _ (λ a. p) p) (λ c1 p1.
        Ends->>= P P _ _ (load_tag-Ends P _ _ _ _ _ (λ a. p1) p1) (λ c2 p2.
          Ends->>= P P _ _ (load_tag-Ends P _ _ _ _ _ (λ a. p2) p2) (λ c3 p3.
            Ends->>= P P _ _ (load_tag-Ends P _ _ _ _ _ (λ a. p3) p3)
              (λ c4 p4. load_tag-Ends P _ _ _ _ _ (λ a. p4) p4))))

  -- The domain of the document, over the one from before.
  unfoldable pub document_domain : R.Yaml → ℕ → Option ℕ
  unfolding section_domain
  document_domain yml old = do
    present ← R.is_tag_present yml "dds"
    if present
        then (R.get_value_in_tag yml "dds" >>= λ section. section_domain section old)
        else some old

  load_dds_section-Ends :
      (yml : R.Yaml) (n : ℕ) (c : Configuration)
      → domain_of c ≡ n
      → Ends
          (λ c'. document_domain yml n ≡ some (domain_of c'))
          (load_section load_dds_configuration yml "dds" c)
  unfolding Ends load_section ◌>>=◌ document_domain Given
  load_dds_section-Ends yml n c p = elim (Option-cases (R.is_tag_present yml "dds")) [
    | inl e ↦ rw (e, load_section) tt
    | inr (false, e) ↦ rw (e, load_section) (ap some (sym p))
    | inr (true, e) ↦ elim (Option-cases (R.get_value_in_tag yml "dds")) [
      | inl g ↦ rw (e, g, load_section) tt
      | inr (section, g) ↦
          rw (e, g, load_section)
            (subst (λ m. Ends (Given section m) (load_dds_configuration section c)) p
              (load_dds_configuration-Ends section c))
    ]
  ]

  -- The domain of the command line if it is set, and else that of the document.
  abbrev pub expected_domain : Option Args → R.Yaml → ℕ → Option ℕ
  expected_domain none yml old = document_domain yml old
  expected_domain (some args) yml old =
      if is_set args.domain then some (get_value args.domain) else document_domain yml old

  module _ ⦃fo : Order FilterTopic⦄ where
    domain-apply_args :
        (args : Option Args) (yml : R.Yaml) (n : ℕ) (c : Configuration)
        → document_domain yml n ≡ some (domain_of c)
        → expected_domain args yml n ≡ some (domain_of (apply_args args (block_services c)))
    unfolding apply_args block_services
    domain-apply_args none yml n c h = h
    domain-apply_args (some args) yml n c h = elim (Bool-cases (is_set args.domain)) [
      | inl e ↦ rw (e, apply_args) refl
      | inr e ↦ rw (e, apply_args) h
    ]

    -- If a configuration is loaded, its domain is the one of the command line where that is set, else
    -- the one that the section dds of the document gives, and else the one from before.
    pub load_configuration-domain :
        (yml : R.Yaml) (args : Option Args) (old c : Configuration)
        → load_configuration yml args old ≡ some c
        → expected_domain args yml old.dds_configuration.domain ≡ some c.dds_configuration.domain
    unfolding load_configuration Ends
    load_configuration-domain yml args old c h =
        let n : ℕ = old.dds_configuration.domain in
        let P : Configuration → Type 0 = λ c'. domain_of c' ≡ n in
        let Q : Configuration → Type 0 = λ c'. document_domain yml n ≡ some (domain_of c') in
        let E : Configuration → Type 0 = λ c'. expected_domain args yml n ≡ some (domain_of c') in
        Ends-some E (load_configuration yml args old)
          (Ends->>= P E _ _
            (load_section-Ends P load_specs_configuration yml _ old
              (λ s. load_specs_configuration-Ends s n old refl) refl)
            (λ c1 p1.
              Ends->>= Q E _ _ (load_dds_section-Ends yml n c1 p1)
                (λ c2 p2. domain-apply_args args yml n c2 p2)))
          h
