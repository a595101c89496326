-- ===== src/YamlWriter/RoundTrip.antt =====
-- The YAML of a JSON value, read back.
use mathlib.Core.Path.{ap₂}
use fast_dds_spy.Prelude.{
  pos, ℕ, ◌^◌, ◌<◌, String, false, if◌then◌else◌, ◌≡◌, refl, ap, sym, ◌∙◌, arith, Option, none,
  some, Bool-cases, inl, inr,
}
use fast_dds_spy.Order.{◌=?◌}
use fast_dds_spy.Order.Texts.{string_order}
use fast_dds_spy.External.Json.{
  Json, null, boolean, number_integer, number_unsigned, number_float, string, array, object, Items,
  no_item, item, Members, no_member, member,
}
use fast_dds_spy.External.Yaml.{
  Yamls, Scalars, Node, null_node, text_node, sequence, mapping, Nodes, no_node, node, Entries,
  no_entry, entry, block, flow, Style, nodes_then, entries_then, find_entry,
}
use fast_dds_spy.YamlWriter.Values.{
  to_int64, is_primitive_array, json_to_yaml, push_items, assign_members,
}

to_int64-small : (n : ℕ) → n < 2 ^ 63 → to_int64 n ≡ pos n
unfolding to_int64
to_int64-small n h = ground arith

pub nodes_then_assoc :
    (xs ys zs : Nodes) → nodes_then (nodes_then xs ys) zs ≡ nodes_then xs (nodes_then ys zs)
unfolding nodes_then
nodes_then_assoc no_node ys zs = refl
nodes_then_assoc (node x xs) ys zs = ap (node x) (nodes_then_assoc xs ys zs)

entries_then_assoc :
    (es fs gs : Entries)
    → entries_then (entries_then es fs) gs ≡ entries_then es (entries_then fs gs)
unfolding entries_then
entries_then_assoc no_entry fs gs = refl
entries_then_assoc (entry k x es) fs gs = ap (entry k x) (entries_then_assoc es fs gs)

pub nodes_then-no_node : (xs : Nodes) → nodes_then xs no_node ≡ xs
unfolding nodes_then
nodes_then-no_node no_node = refl
nodes_then-no_node (node x xs) = ap (node x) (nodes_then-no_node xs)

entries_then-no_entry : (es : Entries) → entries_then es no_entry ≡ es
unfolding entries_then
entries_then-no_entry no_entry = refl
entries_then-no_entry (entry k x es) = ap (entry k x) (entries_then-no_entry es)

find_entry-entries_then :
    (j k : String) (x : Node) (es : Entries)
    → find_entry j es ≡ none
    → (k =? j) ≡ false
    → find_entry j (entries_then es (entry k x no_entry)) ≡ none
unfolding find_entry entries_then
find_entry-entries_then j k x no_entry h d = rw d
find_entry-entries_then j k x (entry i y es) h d = ground (arith, find_entry-entries_then j k x es)

module _ {Double : Type 0} where
  -- The JSON value that a node spells, if each scalar is taken for the text that it is.
  unfoldable mutual
    pub to_json : Node → Json Double
    to_json null_node = null
    to_json (text_node s) = string s
    to_json (sequence style xs) = array (to_items xs)
    to_json (mapping es) = object (to_members es)

    pub to_items : Nodes → Items Double
    to_items no_node = no_item
    to_items (node x xs) = item (to_json x) (to_items xs)

    pub to_members : Entries → Members Double
    to_members no_entry = no_member
    to_members (entry k x es) = member k (to_json x) (to_members es)

  unfoldable pub find_member : String → Members Double → Option (Json Double)
  find_member k no_member = none
  find_member k (member j x ms) = if j =? k then some x else find_member k ms

  -- The keys of an object differ, and the unsigned numbers fit an int64_t.
  unfoldable mutual
    unfolding find_member

    pub IsReadable : Json Double → Type 0
    IsReadable (number_unsigned n) = n < 2 ^ 63
    IsReadable (array xs) = AreReadable xs
    IsReadable (object ms) = MembersReadable ms
    IsReadable _ = Unit

    pub AreReadable : Items Double → Type 0
    AreReadable no_item = Unit
    AreReadable (item x xs) = IsReadable x × AreReadable xs

    pub MembersReadable : Members Double → Type 0
    MembersReadable no_member = Unit
    MembersReadable (member k x ms) = (find_member k ms ≡ none) × IsReadable x × MembersReadable ms

  IsFresh : Entries → Members Double → Type 0
  IsFresh es no_member = Unit
  IsFresh es (member k x ms) = (find_entry k es ≡ none) × IsFresh es ms

  IsFresh-entries_then :
      (k : String) (x : Node) (es : Entries) (ms : Members Double)
      → find_member k ms ≡ none
      → IsFresh es ms
      → IsFresh (entries_then es (entry k x no_entry)) ms
  unfolding IsFresh find_member
  IsFresh-entries_then k x es no_member h f = tt
  IsFresh-entries_then k x es (member j y ms) h f = elim (Bool-cases (j =? k)) [
    | inl same ↦ ground arith
    | inr other ↦ (
      find_entry-entries_then j k x es f.0
          (ground (arith, string_order.eq_iff j k, string_order.eq_iff k j)),
      IsFresh-entries_then k x es ms (ground arith) f.1,
    )
  ]

  no_entry-IsFresh : (ms : Members Double) → IsFresh no_entry ms
  unfolding IsFresh find_entry
  no_entry-IsFresh no_member = tt
  no_entry-IsFresh (member k x ms) = (refl, no_entry-IsFresh ms)

module _ {Double : Type 0} ⦃Y : Yamls⦄ ⦃S : Scalars Double⦄ where
  -- Each element on its own.
  unfoldable pub yaml_items : Items Double → Nodes
  unfolding json_to_yaml
  yaml_items no_item = no_node
  yaml_items (item x xs) = node (json_to_yaml x) (yaml_items xs)

  yaml_members : Members Double → Entries
  yaml_members no_member = no_entry
  yaml_members (member k x ms) = entry k (json_to_yaml x) (yaml_members ms)

  push_items-yaml_items :
      (s : Style) (ys : Nodes) (xs : Items Double)
      → push_items (sequence s ys) xs ≡ sequence s (nodes_then ys (yaml_items xs))
  unfolding push_items yaml_items nodes_then
  push_items-yaml_items s ys no_item = ap (sequence s) (sym (nodes_then-no_node ys))
  push_items-yaml_items s ys (item x xs) = simp (
    Y.push_back-sequence,
    push_items-yaml_items s (nodes_then ys (node (json_to_yaml x) no_node)) xs,
    nodes_then_assoc,
  )

  assign_members-yaml_members :
      (es : Entries) (ms : Members Double)
      → IsFresh es ms
      → MembersReadable ms
      → assign_members (mapping es) ms ≡ mapping (entries_then es (yaml_members ms))
  unfolding assign_members yaml_members IsFresh MembersReadable entries_then
  assign_members-yaml_members es no_member f r = ap mapping (sym (entries_then-no_entry es))
  assign_members-yaml_members es (member k x ms) f r =
      ap (λ n. assign_members n ms) (Y.assign-new k (json_to_yaml x) es f.0)
      ∙ assign_members-yaml_members (entries_then es (entry k (json_to_yaml x) no_entry)) ms
          (IsFresh-entries_then k (json_to_yaml x) es ms r.0 f.1) r.2
      ∙ ap mapping (entries_then_assoc es (entry k (json_to_yaml x) no_entry) (yaml_members ms))

  -- The YAML of a JSON array has the YAML of each element, in their order; it is written in flow
  -- style if there is an element and all of them are scalars, and in block style otherwise.
  pub json_to_yaml-array :
      (xs : Items Double)
      → json_to_yaml (array xs)
        ≡ sequence (if is_primitive_array (array xs) then flow else block) (yaml_items xs)
  unfolding nodes_then json_to_yaml
  json_to_yaml-array xs = elim (Bool-cases (is_primitive_array (array xs))) [
    | inl e ↦
        rw (e, json_to_yaml)
          (ap (Y.set_style flow) (push_items-yaml_items block no_node xs)
            ∙ Y.set_style-sequence flow block (yaml_items xs))
    | inr e ↦ rw (e, json_to_yaml) (push_items-yaml_items block no_node xs)
  ]

  json_to_yaml-object :
      (ms : Members Double)
      → MembersReadable ms
      → json_to_yaml (object ms) ≡ mapping (yaml_members ms)
  unfolding json_to_yaml entries_then
  json_to_yaml-object ms h = assign_members-yaml_members no_entry ms (no_entry-IsFresh ms) h

  -- The value with the text of each scalar in its place.
  unfoldable mutual
    pub spelled : Json Double → Json Double
    spelled null = null
    spelled (boolean b) = string (S.show_bool b)
    spelled (number_integer n) = string (S.show_integer n)
    spelled (number_unsigned n) = string (S.show_integer (pos n))
    spelled (number_float x) = string (S.show_double x)
    spelled (string s) = string s
    spelled (array xs) = array (spelled_items xs)
    spelled (object ms) = object (spelled_members ms)

    pub spelled_items : Items Double → Items Double
    spelled_items no_item = no_item
    spelled_items (item x xs) = item (spelled x) (spelled_items xs)

    pub spelled_members : Members Double → Members Double
    spelled_members no_member = no_member
    spelled_members (member k x ms) = member k (spelled x) (spelled_members ms)

  mutual
    unfolding IsReadable json_to_yaml to_json yaml_items yaml_members spelled

    read_back : (j : Json Double) → IsReadable j → to_json (json_to_yaml j) ≡ spelled j
    read_back null h = refl
    read_back (boolean b) h = refl
    read_back (number_integer n) h = refl
    read_back (number_unsigned n) h = ap (λ z. string (S.show_integer z)) (to_int64-small n h)
    read_back (number_float x) h = refl
    read_back (string s) h = refl
    read_back (array xs) h = ap to_json (json_to_yaml-array xs) ∙ ap array (read_back_items xs h)
    read_back (object ms) h =
        ap to_json (json_to_yaml-object ms h) ∙ ap object (read_back_members ms h)

    read_back_items :
        (xs : Items Double) → AreReadable xs → to_items (yaml_items xs) ≡ spelled_items xs
    read_back_items no_item h = refl
    read_back_items (item x xs) h = ap₂ item (read_back x h.0) (read_back_items xs h.1)

    read_back_members :
        (ms : Members Double)
        → MembersReadable ms
        → to_members (yaml_members ms) ≡ spelled_members ms
    read_back_members no_member h = refl
    read_back_members (member k x ms) h =
        ap₂ (member k) (read_back x h.1) (read_back_members ms h.2)

  -- The YAML of a JSON value without equal keys in an object, and with unsigned numbers below 2^63
  -- only, has the same arrays and objects, at any depth, with the same keys in the same order, and in
  -- the place of each scalar its text: a number, a truth value and a text are not told apart by it.
  pub to_json-json_to_yaml : (j : Json Double) → IsReadable j → to_json (json_to_yaml j) ≡ spelled j
  to_json-json_to_yaml j h = read_back j h
