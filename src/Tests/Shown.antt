-- ===== src/Tests/Shown.antt =====
-- What is shown of a sample and of a topic with keys.
use fast_dds_spy.Prelude.{[], ◌∷◌, ◌≡◌, refl, arith, false}
use fast_dds_spy.External.Json.{no_item, item, array, squeeze, outside}
use fast_dds_spy.External.Yaml.{null_node, sequence, mapping, no_entry, entry, block, Formats}
use fast_dds_spy.Parser.Data.{TopicKeysData}
use fast_dds_spy.YamlWriter.Values.{json_to_yaml}
use fast_dds_spy.YamlWriter.RoundTrip.{
  to_json, IsReadable, find_member, to_json-json_to_yaml, spelled,
}
use fast_dds_spy.YamlWriter.Instances.{set_topic_keys}
use fast_dds_spy.YamlWriter.Listed.{instance_nodes, topic_entries, set_topic_keys-entries}
use fast_dds_spy.Controller.JsonLayout.{print_json_arrays_inline}
use fast_dds_spy.Controller.JsonText.{print_json_arrays_inline-squeeze}
use fast_dds_spy.Tests.World.{number_guids, text_types, text_topics, number_times}
use fast_dds_spy.Tests.Json.{number_jsons, number_yamls, number_scalars, small_json, dump}

print_json_arrays_inline-squeeze_example :
    squeeze outside (print_json_arrays_inline small_json 0 4) ≡ dump small_json
print_json_arrays_inline-squeeze_example = print_json_arrays_inline-squeeze small_json 0 4

printed :
    print_json_arrays_inline (array (item small_json no_item)) 0 2
    ≡ "[\n  {\n    \"id\": 1,\n    \"list\": [1, \"a\"]\n  }\n]"
unfolding print_json_arrays_inline dump
printed = refl

small_json-IsReadable : IsReadable small_json
unfolding IsReadable find_member
small_json-IsReadable = (refl, omega arith, (refl, (omega arith, (tt, tt)), tt))

to_json-json_to_yaml_example : to_json (json_to_yaml small_json) ≡ spelled small_json
to_json-json_to_yaml_example = to_json-json_to_yaml small_json small_json-IsReadable

abbrev keyed : TopicKeysData
keyed = record {
  topic_name = "Square";
  key_fields = "id" ∷ [];
  instances = "{\"id\": 1, \"list\": [1, \"a\"]}" ∷ "no JSON" ∷ [];
  instance_count = 2;
}

set_topic_keys-entries_example :
    set_topic_keys null_node keyed false
    ≡ mapping (
        topic_entries keyed (
          entry "instances"
            (sequence block (instance_nodes keyed.instances))
            (entry "instance_count" (number_yamls.set_number null_node 2) no_entry)))
set_topic_keys-entries_example = set_topic_keys-entries keyed false

instance abbrev number_formats : Formats
number_formats = record {
  show_number = λ n. "1";
  show_float = λ x. "1";
  float_to_string = λ x. "1.000000";
  generic_to_string = λ g. "11";
  timestamp_to_string = λ t format. "1970/01/01 00:00:01";
  is_volatile = λ d. false;
  is_best_effort = λ r. false;
}
