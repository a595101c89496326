-- ===== src/Controller/Shown.antt =====
-- What the user sees of a sample that comes in while data are printed.
use fast_dds_spy.Prelude.{String, [], ◌∷◌, some, ◌≡◌, refl, ap}
use fast_dds_spy.External.Guids.{Guids}
use fast_dds_spy.External.DynTypes.{
  DynTypes, DynamicType, DynamicData, Payload, Call, returned, refused,
}
use fast_dds_spy.External.Topics.{Topics, DdsTopic}
use fast_dds_spy.External.Times.{Times, DataTime}
use fast_dds_spy.External.Samples.{Sample}
use fast_dds_spy.External.Json.{Jsons, JsonValue, squeeze, outside}
use fast_dds_spy.External.Yaml.{Yamls, Formats, null_node}
use fast_dds_spy.YamlWriter.{set_data}
use fast_dds_spy.Controller.JsonLayout.{print_json_arrays_inline, format_json_arrays_inline}
use fast_dds_spy.Controller.JsonText.{print_json_arrays_inline-squeeze}
use fast_dds_spy.Controller.DataView.{
  text, document, warning, show_json, after_lines, data_info, data_stream_callback,
  data_stream_callback_verbose,
}

module _ ⦃T : Topics⦄ ⦃J : Jsons⦄ where
  show_json-parsed :
      (topic : DdsTopic) (ss : String) (j : JsonValue) {o : Call String}
      → o ≡ returned ss
      → J.parse ss ≡ some j
      → show_json topic o ≡ some (text (print_json_arrays_inline j 0 4) ∷ text "---\n" ∷ [])
  unfolding show_json format_json_arrays_inline
  show_json-parsed topic ss j e p = rw (e, show_json) (rw (p, format_json_arrays_inline) refl)

module _ ⦃G : Guids⦄ ⦃D : DynTypes⦄ ⦃T : Topics⦄ ⦃M : Times⦄ ⦃J : Jsons⦄ ⦃F : Formats⦄ ⦃Y : Yamls⦄
    (get_dynamic_data : DynamicType → Payload → DynamicData) where
  -- If the data of a sample serialize to a JSON text, both callbacks show one text between their
  -- marks, the verbose one after the information on the sample; without the white space outside of
  -- quoted texts it is the compact text of the JSON value.
  pub data_stream_callback-shows :
      (topic : DdsTopic) (dyn_type : DynamicType) (sample : Sample DataTime) (ss : String)
      (j : JsonValue)
      → D.json_serialize (get_dynamic_data dyn_type sample.payload) ≡ returned ss
      → J.parse ss ≡ some j
      → (pretty : String) × (data_stream_callback get_dynamic_data topic dyn_type sample
          ≡ some (text "---" ∷ text pretty ∷ text "---\n" ∷ []))
        × (data_stream_callback_verbose get_dynamic_data topic dyn_type sample
            ≡ some (
                document (set_data null_node (data_info get_dynamic_data topic sample))
                ∷ text "data:\n---"
                ∷ text pretty
                ∷ text "---\n"
                ∷ []))
        × (squeeze outside pretty ≡ J.dump j)
  unfolding data_stream_callback data_stream_callback_verbose show_json format_json_arrays_inline
  data_stream_callback-shows topic dyn_type sample ss j e p = (
    print_json_arrays_inline j 0 4,
    ap (after_lines (text "---" ∷ [])) (show_json-parsed topic ss j e p),
    ap
        (after_lines (
          document (set_data null_node (data_info get_dynamic_data topic sample))
          ∷ text "data:\n---"
          ∷ []))
        (show_json-parsed topic ss j e p),
    print_json_arrays_inline-squeeze j 0 4,
  )

  -- If the data of a sample cannot be serialized, both callbacks show what comes before the data, and
  -- no data and no closing mark; a warning names the topic.
  pub data_stream_callback-refused :
      (topic : DdsTopic) (dyn_type : DynamicType) (sample : Sample DataTime)
      → D.json_serialize (get_dynamic_data dyn_type sample.payload) ≡ refused
      → (data_stream_callback get_dynamic_data topic dyn_type sample
          ≡ some (text "---" ∷ warning (T.topic_name topic) ∷ []))
        × (data_stream_callback_verbose get_dynamic_data topic dyn_type sample
            ≡ some (
                document (set_data null_node (data_info get_dynamic_data topic sample))
                ∷ text "data:\n---"
                ∷ warning (T.topic_name topic)
                ∷ []))
  unfolding data_stream_callback data_stream_callback_verbose show_json
  data_stream_callback-refused topic dyn_type sample e = (rw e refl, rw e refl)
