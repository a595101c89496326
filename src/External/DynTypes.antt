-- ===== src/External/DynTypes.antt =====
-- The dynamic types of Fast DDS (xtypes), which are not part of this repository. A call answers,
-- refuses with a return code that is not RETCODE_OK, or throws a std::exception.
use fast_dds_spy.Prelude.{Bool, String, List, Option}

pub data Call {ℓ} (A : Type ℓ) : Type ℓ where
  returned : A → Call A
  refused : Call A
  thrown : Call A

pub record DynTypes : Type 1 where
  pub DynamicType : Type 0
  pub Member : Type 0
  pub Payload : Type 0
  pub DynamicData : Type 0
  -- get_name().to_string()
  pub get_name : DynamicType → String
  -- get_all_members, in the order of the member ids
  pub get_all_members : DynamicType → Call (List Member)
  -- get_descriptor, then is_key
  pub is_key : Member → Call Bool
  pub member_name : Member → String
  -- create_data and DynamicPubSubType::deserialize
  pub deserialize : DynamicType → Payload → Call DynamicData
  -- A structure with the given name and the descriptors (name, type, id) of the given members, at
  -- least one, which come from a type that is valid; and the data of this structure. `none` is an
  -- exception. A null reference, which the source would dereference, is taken not to come: for a
  -- valid type the builder and the factory do not answer one.
  pub build_struct : String → List Member → Option DynamicType
  pub create_data : DynamicType → Option DynamicData
  -- loan_value and return_loaned_value; `none` is a null loan
  pub loan_value : DynamicData → Member → Call (Option DynamicData)
  pub set_complex_value : DynamicData → Member → DynamicData → DynamicData
  -- json_serialize in the EPROSIMA format
  pub json_serialize : DynamicData → Call String

abbrev pub DynamicType : ⦃D : DynTypes⦄ → Type 0
DynamicType ⦃D⦄ = D.DynamicType

abbrev pub Payload : ⦃D : DynTypes⦄ → Type 0
Payload ⦃D⦄ = D.Payload

abbrev pub DynamicData : ⦃D : DynTypes⦄ → Type 0
DynamicData ⦃D⦄ = D.DynamicData
