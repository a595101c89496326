-- ===== src/InstanceCache/Keys.antt =====
-- InstanceCache.cpp, the key metadata of a type and the key of a sample as JSON:
-- extract_key_field_names_, serialize_key_to_json_ and create_key_only_dynamic_data_.
use mathlib.Core.Option
use Prim.Native.String.{◌++◌}
use fast_dds_spy.Prelude.{
  String, List, [], ◌∷◌, Option, none, some, Bool, true, false, is_empty, if◌then◌else◌,
}
use fast_dds_spy.Order.Texts.{string_order}
use fast_dds_spy.External.Guids.{Guids}
use fast_dds_spy.External.DynTypes.{
  DynTypes, DynamicType, DynamicData, Payload, Call, returned, refused, thrown,
}
use fast_dds_spy.InstanceCache.{InstanceCache, or_empty}
use fast_dds_spy.Map

module _ ⦃D : DynTypes⦄ where
  -- One round of the loops over the members: a member whose descriptor is refused is left out, and
  -- an exception (`none`) ends the function.
  abbrev pub add_key {ℓ} : {A : Type ℓ} → Call Bool → A → Option (List A) → Option (List A)
  add_key (returned true) a rest = Option.map (◌∷◌ a) rest
  add_key (returned false) a rest = rest
  add_key refused a rest = rest
  add_key thrown a rest = none

  unfoldable pub collect_key_names : List D.Member → Option (List String)
  collect_key_names [] = some []
  collect_key_names (m ∷ rest) = add_key (D.is_key m) (D.member_name m) (collect_key_names rest)

  -- The names that extract_key_field_names_ stores; `none` is an exception.
  unfoldable pub key_names : DynamicType → Option (List String)
  unfolding collect_key_names
  key_names dyn_type = elim (D.get_all_members dyn_type) [
    | returned members ↦ collect_key_names members
    | refused ↦ some []
    | thrown ↦ none
  ]

  unfoldable pub collect_key_members : List D.Member → Option (List D.Member)
  collect_key_members [] = some []
  collect_key_members (m ∷ rest) = add_key (D.is_key m) m (collect_key_members rest)

  -- The second loop of create_key_only_dynamic_data_, over the key members.
  unfoldable pub copy_key_values : DynamicData → DynamicData → List D.Member → Option DynamicData
  copy_key_values original key_data [] = some key_data
  copy_key_values original key_data (m ∷ rest) = elim (D.loan_value original m) [
    | returned (some value) ↦ copy_key_values original (D.set_complex_value key_data m value) rest
    | returned none ↦ copy_key_values original key_data rest
    | refused ↦ copy_key_values original key_data rest
    | thrown ↦ none
  ]

  -- From build() on; `none` is the null reference that the handlers of the exceptions return.
  unfoldable pub fill_key_data :
      DynamicData → List D.Member → Option DynamicType → Option DynamicData
  unfolding copy_key_values
  fill_key_data original keys none = none
  fill_key_data original keys (some key_type) = elim (D.create_data key_type) [
    | none ↦ none
    | some key_data ↦ copy_key_values original key_data keys
  ]

  unfoldable pub create_key_only_dynamic_data : DynamicType → DynamicData → Option DynamicData
  unfolding collect_key_members fill_key_data
  create_key_only_dynamic_data original_type original = elim (D.get_all_members original_type) [
    | returned members ↦ elim (collect_key_members members) [
      | none ↦ none
      | some keys ↦
          if is_empty keys
          then none
          else fill_key_data original keys
              (D.build_struct (D.get_name original_type ++ "_KeysOnly") keys)
    ]
    | refused ↦ none
    | thrown ↦ none
  ]

  abbrev json_or_empty : Call String → String
  json_or_empty (returned json) = json
  json_or_empty refused = ""
  json_or_empty thrown = ""

  -- The empty text says that the key could not be had.
  unfoldable pub serialize_key_to_json : DynamicType → Payload → String
  unfolding create_key_only_dynamic_data
  serialize_key_to_json dyn_type payload = elim (D.deserialize dyn_type payload) [
    | returned dyn_data ↦ elim (create_key_only_dynamic_data dyn_type dyn_data) [
      | none ↦ ""
      | some key_data ↦ json_or_empty (D.json_serialize key_data)
    ]
    | refused ↦ ""
    | thrown ↦ ""
  ]

module _ ⦃G : Guids⦄ where
  -- The cached names of a topic; an unknown topic and one without key fields are alike.
  abbrev pub cached_keys : InstanceCache → String → List String
  cached_keys c topic_name = or_empty (Map.find topic_name c.key_fields_cache)

  -- extract_key_field_names_
  unfoldable pub extract_key_field_names :
      ⦃D : DynTypes⦄ → InstanceCache → String → DynamicType → InstanceCache
  extract_key_field_names c topic_name dyn_type =
      if is_empty (cached_keys c topic_name)
      then elim (key_names dyn_type) [
        | none ↦ c
        | some names ↦ record c {
          key_fields_cache = Map.insert topic_name names c.key_fields_cache;
        }
      ]
      else c
