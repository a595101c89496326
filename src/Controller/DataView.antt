-- ===== src/Controller/DataView.antt =====
-- Controller.cpp, data_stream_callback_, data_stream_callback_verbose_ and get_dynamic_data_: what is
-- shown of a sample.
use fast_dds_spy.Prelude.{String, List, [], ◌∷◌, ◌++◌, Option, none, some}
use fast_dds_spy.Order.Texts.{string_order}
use fast_dds_spy.External.Guids.{Guids}
use fast_dds_spy.External.DynTypes.{
  DynTypes, DynamicType, DynamicData, Payload, Call, returned, refused, thrown,
}
use fast_dds_spy.External.Topics.{Topics, DdsTopic}
use fast_dds_spy.External.Times.{Times, DataTime}
use fast_dds_spy.External.Samples.{Sample}
use fast_dds_spy.External.Json.{Jsons}
use fast_dds_spy.External.Yaml.{Yamls, Formats, Node, null_node}
use fast_dds_spy.Map
use fast_dds_spy.Parser.Data.{DdsDataData}
use fast_dds_spy.YamlWriter.{set_data}
use fast_dds_spy.Controller.JsonLayout.{format_json_arrays_inline}

-- What the view or the output receives, and what is logged.
pub data Display : Type 0 where
  text : String → Display
  document : Node → Display
  -- The data of the topic with this name cannot be serialized.
  warning : String → Display

module _ ⦃T : Topics⦄ ⦃J : Jsons⦄ where
  -- From the serialization on; `none` is an exception.
  unfoldable pub show_json : DdsTopic → Call String → Option (List Display)
  unfolding format_json_arrays_inline
  show_json topic (returned ss) = elim (format_json_arrays_inline ss 4) [
    | none ↦ none
    | some pretty ↦ some (text pretty ∷ text "---\n" ∷ [])
  ]
  show_json topic refused = some (warning (T.topic_name topic) ∷ [])
  show_json topic thrown = none

  abbrev pub after_lines : List Display → Option (List Display) → Option (List Display)
  after_lines lines none = none
  after_lines lines (some rest) = some (lines ++ rest)

module _ ⦃G : Guids⦄ ⦃D : DynTypes⦄ ⦃T : Topics⦄ ⦃M : Times⦄ ⦃J : Jsons⦄ where
  -- Over create_data and deserialize, whose return code get_dynamic_data_ ignores.
  module _ (get_dynamic_data : DynamicType → Payload → DynamicData) where
    unfoldable pub data_stream_callback :
        DdsTopic → DynamicType → Sample DataTime → Option (List Display)
    unfolding show_json
    data_stream_callback topic dyn_type sample =
        after_lines (text "---" ∷ [])
          (show_json topic (D.json_serialize (get_dynamic_data dyn_type sample.payload)))

    abbrev partitions_or_empty : Option String → String
    partitions_or_empty none = ""
    partitions_or_empty (some partitions) = partitions

    unfoldable pub data_info : DdsTopic → Sample DataTime → DdsDataData
    unfolding Map.find
    data_info topic sample = record {
      topic = record { topic_name = T.topic_name topic; topic_type = T.type_name topic };
      writer = sample.source_guid;
      partitions =
          partitions_or_empty (Map.find (G.show_guid sample.source_guid) (T.partition_name topic));
      timestamp = sample.source_timestamp;
    }

    unfoldable pub data_stream_callback_verbose :
        ⦃F : Formats⦄ ⦃Y : Yamls⦄ → DdsTopic → DynamicType → Sample DataTime → Option (List Display)
    unfolding show_json data_info set_data
    data_stream_callback_verbose topic dyn_type sample =
        after_lines
          (document (set_data null_node (data_info topic sample)) ∷ text "data:\n---" ∷ [])
          (show_json topic (D.json_serialize (get_dynamic_data dyn_type sample.payload)))
