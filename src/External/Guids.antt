-- ===== src/External/Guids.antt =====
-- Guid and InstanceHandle of ddspipe_core, which is not part of this repository: identifiers with
-- a prefix, a printed form and a validity test.
use fast_dds_spy.Prelude.{Bool, true, false, ◌≡◌, ◌↔◌, String}

pub record Guids : Type 1 where
  pub Guid : Type 0
  pub InstanceHandle : Type 0
  pub GuidPrefix : Type 0
  pub prefix_eq : GuidPrefix → GuidPrefix → Bool
  pub prefix_eq_iff : (p q : GuidPrefix) → (prefix_eq p q ≡ true) ↔ (p ≡ q)
  pub guid_prefix : Guid → GuidPrefix
  -- Guid{}, the value of a default-constructed field, is not valid.
  pub no_guid : Guid
  pub is_valid : Guid → Bool
  pub no_guid_invalid : is_valid no_guid ≡ false
  -- operator<<, and the constructor from a text.
  pub show_guid : Guid → String
  pub read_guid : String → Guid

abbrev pub Guid : ⦃G : Guids⦄ → Type 0
Guid ⦃G⦄ = G.Guid

abbrev pub InstanceHandle : ⦃G : Guids⦄ → Type 0
InstanceHandle ⦃G⦄ = G.InstanceHandle
