-- ===== src/CommandLine/Domain.antt =====
-- What parse_arguments makes of the command and of the domain.
use fast_dds_spy.Prelude.{
  ℤ, pos, negsuc, ℕ, ◌≤◌, String, List, [], ◌∷◌, ◌++◌, Option, none, some, any, ltb, ◌≡◌, ◌⊎◌, inl,
  inr, refl, subst, arith, Bool-cases,
}
use fast_dds_spy.External.Options.{OptionTools, GivenOption, ParsedOptions, set_to}
use fast_dds_spy.CommandLine.{Args, ProcessReturnCode, success, incorrect_argument}
use fast_dds_spy.CommandLine.Usage.{
  OptionIndex, unknown_opt, reload_time, domain, Descriptor, usage,
}
use fast_dds_spy.CommandLine.Parsing.{
  Parsed, finished, Turn, goes_on, returns, throws, take_domain, take_reload_time, take_text,
  text_of, take_options, use_options, parse_arguments, is_help, is_version,
}

module _ ⦃O : OptionTools⦄ where
  -- The domain is the one from before, or one that was set, in its range.
  abbrev pub IsInRange : Args → Args → Type 0
  IsInRange old new =
      (new.domain ≡ old.domain) ⊎ ((n : ℕ) × (n ≤ O.max_domain_id) × (new.domain ≡ set_to n))

  abbrev Settled : Args → Args → Type 0
  Settled old new = (new.one_shot_command ≡ old.one_shot_command) × IsInRange old new

  abbrev TurnSettles : Args → Turn → Type 0
  TurnSettles old (goes_on new) = Settled old new
  TurnSettles old (returns code) = code ≡ incorrect_argument
  TurnSettles old throws = Unit

  abbrev Settles : Args → Parsed → Type 0
  Settles old (finished success new) = Settled old new
  Settles old _ = Unit

  take_domain-TurnSettles :
      (o : Option ℤ) (old args : Args) → Settled old args → TurnSettles old (take_domain args o)
  unfolding take_domain
  take_domain-TurnSettles none old args h = refl
  take_domain-TurnSettles (some (negsuc n)) old args h = refl
  take_domain-TurnSettles (some (pos n)) old args h = elim (Bool-cases (ltb O.max_domain_id n)) [
    | inl high ↦ rw (high, take_domain) refl
    | inr low ↦ rw (low, take_domain) (h.0, inr (n, ground arith, refl))
  ]

  take_reload_time-TurnSettles :
      (o : Option ℤ) (old args : Args)
      → Settled old args
      → TurnSettles old (take_reload_time args o)
  unfolding take_reload_time
  take_reload_time-TurnSettles none old args h = tt
  take_reload_time-TurnSettles (some n) old args h = h

  take_text-TurnSettles :
      (index : OptionIndex) (arg : String) (old args : Args)
      → Settled old args
      → TurnSettles old (take_text args index arg)
  unfolding take_text
  take_text-TurnSettles unknown_opt arg old args h = refl
  take_text-TurnSettles reload_time arg old args h =
      take_reload_time-TurnSettles (O.stol arg) old args h
  take_text-TurnSettles domain arg old args h = take_domain-TurnSettles (O.stol arg) old args h
  take_text-TurnSettles _ arg old args h = h

  Turn-cases :
      (t : Turn)
      → ((a : Args) × (t ≡ goes_on a)) ⊎ ((c : ProcessReturnCode) × (t ≡ returns c)) ⊎ (t ≡ throws)
  Turn-cases (goes_on a) = inl (a, refl)
  Turn-cases (returns c) = inr (inl (c, refl))
  Turn-cases throws = inr (inr refl)

  take_options-Settles :
      (options : List (OptionIndex × GivenOption)) (old args : Args)
      → Settled old args
      → Settles old (take_options options args)
  unfolding take_options
  take_options-Settles [] old args h = h
  take_options-Settles ((index, option) ∷ rest) old args h =
      let settled = take_text-TurnSettles index (text_of option.arg) old args h in
      elim (Turn-cases (take_text args index (text_of option.arg))) [
        | inl (a, e) ↦
            rw (e, take_options)
              (take_options-Settles rest old a (subst (TurnSettles old) e settled))
        | inr (inl (c, e)) ↦ rw (e, subst (TurnSettles old) e settled, take_options) tt
        | inr (inr e) ↦ rw (e, take_options) tt
      ]

  abbrev Succeeds : Args → ParsedOptions OptionIndex → Parsed → Type 0
  Succeeds args p (finished success new) =
      (new.one_shot_command ≡ args.one_shot_command ++ p.non_options) × IsInRange args new
  Succeeds args p _ = Unit

  abbrev with_command : Args → ParsedOptions OptionIndex → Args
  with_command args p = record args { one_shot_command = args.one_shot_command ++ p.non_options }

  Settles-Succeeds :
      (args : Args) (p : ParsedOptions OptionIndex) (r : Parsed)
      → Settles (with_command args p) r
      → Succeeds args p r
  Settles-Succeeds args p (finished success new) h = h
  Settles-Succeeds args p _ h = tt

  use_options-Succeeds :
      (p : ParsedOptions OptionIndex) (args : Args) → Succeeds args p (use_options p args)
  unfolding use_options
  use_options-Succeeds p args = elim (Bool-cases p.parse_error) [
    | inl e ↦ rw (e, use_options) tt
    | inr fine ↦
        rw (fine, use_options)
          (elim (Bool-cases (any (λ o. is_help o.0) p.options)) [
            | inl e ↦ rw e tt
            | inr no_help ↦ rw no_help (elim (Bool-cases (any (λ o. is_version o.0) p.options)) [
              | inl e ↦ rw e tt
              | inr no_version ↦ rw no_version (
                  Settles-Succeeds args p _ (
                    take_options-Settles p.options (with_command args p) (with_command args p)
                      (refl, inl refl)))
            ])
          ])
  ]

  -- If parse_arguments answers success, the command of a one-shot run is what was there, followed by
  -- the arguments that are no options, and the domain is the one from before, or one that was set and
  -- lies between 0 and the largest.
  pub parse_arguments-domain :
      (parser : List Descriptor → List String → ParsedOptions OptionIndex) (argv : List String)
      (args new : Args)
      → parse_arguments parser argv args ≡ finished success new
      → (new.one_shot_command ≡ args.one_shot_command ++ (parser usage argv).non_options)
        × IsInRange args new
  unfolding parse_arguments
  parse_arguments-domain parser argv args new h =
      subst (Succeeds args (parser usage argv)) h (use_options-Succeeds (parser usage argv) args)
