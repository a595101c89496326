-- ===== src/YamlWriter/Values.antt =====
-- YamlWriter.cpp, json_to_yaml: a JSON value as a YAML node.
use fast_dds_spy.Prelude.{ℤ, pos, negsuc, ℕ, ◌-◌, ◌^◌, Bool, true, false, if◌then◌else◌, ltb}
use fast_dds_spy.External.Json.{
  Json, null, boolean, number_integer, number_unsigned, number_float, string, array, object, Items,
  no_item, item, Members, no_member, member, is_primitive,
}
use fast_dds_spy.External.Yaml.{
  Yamls, Scalars, Node, null_node, text_node, sequence, mapping, no_node, no_entry, block, flow,
}

-- static_cast<int64_t> of a number below 2^64.
unfoldable pub to_int64 : ℕ → ℤ
to_int64 n = if ltb n (2 ^ 63) then pos n else negsuc (2 ^ 64 - n - 1)

module _ {Double : Type 0} where
  unfoldable pub only_primitives : Items Double → Bool
  only_primitives no_item = true
  only_primitives (item x xs) = if is_primitive x then only_primitives xs else false

  -- An empty array does not count.
  unfoldable pub is_primitive_array : Json Double → Bool
  unfolding only_primitives
  is_primitive_array (array no_item) = false
  is_primitive_array (array (item x xs)) = only_primitives (item x xs)
  is_primitive_array _ = false

module _ {Double : Type 0} ⦃Y : Yamls⦄ ⦃S : Scalars Double⦄ where
  -- is_number_integer holds for unsigned numbers too, so that they are read as int64_t.
  unfoldable mutual
    unfolding to_int64 is_primitive_array

    pub json_to_yaml : Json Double → Node
    json_to_yaml null = null_node
    json_to_yaml (boolean b) = text_node (S.show_bool b)
    json_to_yaml (number_integer n) = text_node (S.show_integer n)
    json_to_yaml (number_unsigned n) = text_node (S.show_integer (to_int64 n))
    json_to_yaml (number_float x) = text_node (S.show_double x)
    json_to_yaml (string s) = text_node s
    json_to_yaml (array xs) =
        let array_node = push_items (sequence block no_node) xs in
        if is_primitive_array (array xs) then Y.set_style flow array_node else array_node
    json_to_yaml (object ms) = assign_members (mapping no_entry) ms

    pub push_items : Node → Items Double → Node
    push_items n no_item = n
    push_items n (item x xs) = push_items (Y.push_back n (json_to_yaml x)) xs

    pub assign_members : Node → Members Double → Node
    assign_members n no_member = n
    assign_members n (member k x ms) = assign_members (Y.assign n k (json_to_yaml x)) ms
