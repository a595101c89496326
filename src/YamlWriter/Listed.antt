-- ===== src/YamlWriter/Listed.antt =====
-- What the user reads of a topic with keys.
use fast_dds_spy.YamlWriter.RoundTrip.{nodes_then_assoc, nodes_then-no_node}
use fast_dds_spy.Prelude.{
  String, List, [], ◌∷◌, Bool, true, false, if◌then◌else◌, is_empty, ◌≡◌, refl, ap, ◌∙◌, sym, none,
  some, Option, Option-cases, inl, inr,
}
use fast_dds_spy.External.Json.{Jsons, JsonValue}
use fast_dds_spy.YamlWriter.Values.{json_to_yaml}
use fast_dds_spy.External.Yaml.{
  Yamls, Scalars, Node, null_node, text_node, sequence, mapping, Nodes, no_node, node, Entries,
  no_entry, entry, block, nodes_then, entries_then, find_entry,
}
use fast_dds_spy.Parser.Data.{TopicKeysData}
use fast_dds_spy.YamlWriter.Instances.{
  instance_node, push_instances, set_keys, set_instances, set_topic_keys,
}

module _ ⦃J : Jsons⦄ ⦃Y : Yamls⦄ ⦃S : Scalars J.Double⦄ where
  -- The value that a text spells as JSON, or the text.
  abbrev pub value_or_text : Option JsonValue → String → Node
  value_or_text none i = text_node i
  value_or_text (some j) i = json_to_yaml j

  -- One node for each instance.
  pub instance_nodes : List String → Nodes
  instance_nodes [] = no_node
  instance_nodes (i ∷ rest) = node (value_or_text (J.parse i) i) (instance_nodes rest)

  instance_node_lem : (i : String) → instance_node i ≡ value_or_text (J.parse i) i
  unfolding instance_node
  instance_node_lem i = elim (Option-cases (J.parse i)) [
    | inl no_json ↦ rw (no_json, instance_node) refl
    | inr (j, parsed) ↦ rw (parsed, instance_node) refl
  ]

  pub keys_node : List String → Node
  keys_node keys =
      if is_empty keys then sequence block no_node else Y.set_vector Y.set_text null_node keys

  abbrev pub topic_entries : TopicKeysData → Entries → Entries
  topic_entries v es =
      entry "topic" (text_node v.topic_name) (entry "keys" (keys_node v.key_fields) es)

  push_instances-sequence :
      (xs : Nodes) (instances : List String)
      → push_instances (sequence block xs) instances
        ≡ sequence block (nodes_then xs (instance_nodes instances))
  unfolding push_instances instance_nodes nodes_then
  push_instances-sequence xs [] = ap (sequence block) (sym (nodes_then-no_node xs))
  push_instances-sequence xs (i ∷ rest) = simp (
    instance_node_lem,
    Y.push_back-sequence,
    push_instances-sequence (nodes_then xs (node (value_or_text (J.parse i) i) no_node)) rest,
    nodes_then_assoc,
  )

  set_instances-new :
      (es : Entries) (instances : List String)
      → find_entry "instances" es ≡ none
      → set_instances (mapping es) instances
        ≡ mapping (
            entries_then es
              (entry "instances" (sequence block (instance_nodes instances)) no_entry))
  unfolding set_instances instance_nodes nodes_then push_instances
  set_instances-new es [] h = Y.assign-new "instances" _ es h
  set_instances-new es (i ∷ rest) h =
      ap (λ n. Y.assign (mapping es) "instances" (push_instances n rest))
        (Y.push_back-null (instance_node i)
          ∙ ap (λ x. sequence block (node x no_node)) (instance_node_lem i))
      ∙ ap (Y.assign (mapping es) "instances")
          (push_instances-sequence (node (value_or_text (J.parse i) i) no_node) rest)
      ∙ Y.assign-new "instances" _ es h

  set_keys-new :
      (es : Entries) (keys : List String)
      → find_entry "keys" es ≡ none
      → set_keys (mapping es) keys
        ≡ mapping (entries_then es (entry "keys" (keys_node keys) no_entry))
  unfolding set_keys keys_node
  set_keys-new es [] h = Y.assign-new "keys" _ es h
  set_keys-new es (k ∷ keys) h =
      Y.set_in_tag-assign _ (mapping es) "keys" (k ∷ keys) ∙ Y.assign-new "keys" _ es h

  set_topic_and_keys :
      (v : TopicKeysData)
      → set_keys (Y.set_in_tag Y.set_text null_node "topic" v.topic_name) v.key_fields
        ≡ mapping (topic_entries v no_entry)
  unfolding entries_then find_entry
  set_topic_and_keys v =
      ap (λ n. set_keys n v.key_fields)
        (Y.set_in_tag-assign Y.set_text null_node "topic" v.topic_name
          ∙ ap (Y.assign null_node "topic") (Y.set_text-node null_node v.topic_name)
          ∙ Y.assign-null "topic" (text_node v.topic_name))
      ∙ set_keys-new (entry "topic" (text_node v.topic_name) no_entry) v.key_fields refl

  -- The YAML of a topic with keys has, in this order, its name, its keys (an empty sequence if there are none), unless it is
  -- compact the instances, and their number. The instances are a sequence with one node for each, in their order: the YAML
  -- of the JSON value where the text is JSON, and the text itself where it is not; none are an empty sequence.
  pub set_topic_keys-entries :
      (v : TopicKeysData) (is_compact : Bool)
      → set_topic_keys null_node v is_compact
        ≡ mapping (
            topic_entries v (
              let count =
                entry "instance_count" (Y.set_number null_node v.instance_count) no_entry in
              if is_compact
              then count
              else entry "instances" (sequence block (instance_nodes v.instances)) count))
  unfolding set_topic_keys entries_then find_entry
  set_topic_keys-entries v true =
      ap (λ n. Y.assign n "instance_count" (Y.set_number null_node v.instance_count))
        (set_topic_and_keys v)
      ∙ Y.assign-new "instance_count" _ (topic_entries v no_entry) refl
  set_topic_keys-entries v false =
      ap
        (λ n.
          Y.assign (set_instances n v.instances) "instance_count"
            (Y.set_number null_node v.instance_count))
        (set_topic_and_keys v)
      ∙ ap (λ n. Y.assign n "instance_count" (Y.set_number null_node v.instance_count))
          (set_instances-new (topic_entries v no_entry) v.instances refl)
      ∙ Y.assign-new "instance_count" _
          (topic_entries v
            (entry "instances" (sequence block (instance_nodes v.instances)) no_entry))
          refl
