-- ===== src/YamlWriter/Instances.antt =====
-- YamlWriter.cpp, set of TopicKeysData: the keys and the instances of a topic.
use fast_dds_spy.Prelude.{String, List, [], ◌∷◌, Bool, if◌then◌else◌, is_empty, none, some}
use fast_dds_spy.External.Json.{Jsons}
use fast_dds_spy.External.Yaml.{
  Yamls, Scalars, Node, null_node, text_node, sequence, no_node, block,
}
use fast_dds_spy.Parser.Data.{TopicKeysData}
use fast_dds_spy.YamlWriter.Values.{json_to_yaml}

module _ ⦃J : Jsons⦄ ⦃Y : Yamls⦄ ⦃S : Scalars J.Double⦄ where
  -- A text that is not JSON is shown as it is.
  unfoldable pub instance_node : String → Node
  unfolding json_to_yaml
  instance_node instance_json_str = elim (J.parse instance_json_str) [
    | none ↦ text_node instance_json_str
    | some j ↦ json_to_yaml j
  ]

  unfoldable pub push_instances : Node → List String → Node
  unfolding instance_node
  push_instances instances_node [] = instances_node
  push_instances instances_node (instance_json_str ∷ rest) =
      push_instances (Y.push_back instances_node (instance_node instance_json_str)) rest

  unfoldable pub set_keys : Node → List String → Node
  set_keys yml key_fields =
      if is_empty key_fields
      then Y.assign yml "keys" (sequence block no_node)
      else Y.set_in_tag (Y.set_vector Y.set_text) yml "keys" key_fields

  unfoldable pub set_instances : Node → List String → Node
  unfolding push_instances
  set_instances yml instances =
      if is_empty instances
      then Y.assign yml "instances" (sequence block no_node)
      else Y.assign yml "instances" (push_instances null_node instances)

  unfoldable pub set_topic_keys : Node → TopicKeysData → Bool → Node
  unfolding set_keys set_instances
  set_topic_keys yml value is_compact =
      let yml = Y.set_in_tag Y.set_text yml "topic" value.topic_name in
      let yml = set_keys yml value.key_fields in
      let yml = if is_compact then yml else set_instances yml value.instances in
      Y.assign yml "instance_count" (Y.set_number null_node value.instance_count)
