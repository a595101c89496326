-- ===== src/Tests/Model.antt =====
-- Runs of the data streamer and of the model.
use fast_dds_spy.Prelude.{ℕ, List, [], ◌∷◌, none, some, Bool, true, false, ◌≡◌, refl, arith}
use fast_dds_spy.Order.Texts.{string_order, nat_order}
use fast_dds_spy.External.Samples.{Sample}
use fast_dds_spy.DataStreamer.{
  DataStreamer, Delivery, called, null_call, initial, activate, deactivate, should_call, deliver,
  add_data,
}
use fast_dds_spy.DataStreamer.Invariant.{
  IsReady, Received, initial-IsReady, activate-IsReady, add_data-Received,
}
use fast_dds_spy.DataStreamer.Race.{deactivate_before_call}
use fast_dds_spy.SpyModel.{
  EndpointInfoData, SpyModel, Event, participant_info, endpoint_info, schema, sample_received,
  spy_model, run, new_endpoint_info,
}
use fast_dds_spy.SpyModel.History.{run-spy_model-IsReady}
use fast_dds_spy.SpyModel.Departure.{IsAbsent, departed_writer_stays_gone}
use fast_dds_spy.Tests.World.{
  number_guids, text_types, text_topics, number_times, participant_list, endpoint_list,
}

abbrev a_sample : Sample ℕ
a_sample = record { source_guid = 11; instance_handle = 7; source_timestamp = 100; payload = "red" }

-- A streamer that was asked for the topic Square, with callback 3.
abbrev on_square : DataStreamer ℕ
on_square = activate initial "Square" 3

on_square-IsReady : IsReady on_square
on_square-IsReady = activate-IsReady initial "Square" 3 initial-IsReady

add_data-Received_example :
    (s' : DataStreamer ℕ) × (delivery : Delivery ℕ) × (add_data on_square "Square" a_sample 5
      ≡ some (s', delivery))
    × Received on_square s' "Square" a_sample delivery
add_data-Received_example = add_data-Received on_square "Square" a_sample 5 on_square-IsReady

on_square-is_due : should_call on_square "Square" ≡ true
unfolding activate initial
on_square-is_due = refl

deactivate_before_call_example :
    ((callback : ℕ) × (deliver on_square (should_call on_square "Square") "Square" "Shape" a_sample
        ≡ called callback "Square" "Shape" a_sample))
    × (deliver (deactivate on_square) (should_call on_square "Square") "Square" "Shape" a_sample
        ≡ null_call)
deactivate_before_call_example =
    deactivate_before_call on_square "Square" "Shape" a_sample on_square-IsReady on_square-is_due

-- Writer 11 of Square, when it is there and when it is gone.
abbrev writer_info : Bool → EndpointInfoData
writer_info active = record {
  info = record {
    kind = 1;
    guid = 11;
    topic = "Square";
    active = active;
    specific_partitions = [];
  };
  type_idl = "";
}

abbrev history : List (Event ℕ)
history =
    participant_info (record { name = "p"; guid = 10; active = true })
    ∷ endpoint_info (writer_info true)
    ∷ schema "Shape"
    ∷ sample_received "Square" a_sample 5
    ∷ []

run-spy_model-IsReady_example :
    (m : SpyModel ℕ) × (run (spy_model false) history ≡ some m) × IsReady m.streamer
run-spy_model-IsReady_example = run-spy_model-IsReady false history

-- A model in which writer 11 has published the instance 7 of Square.
abbrev pub with_red : DataStreamer ℕ
with_red = record {
  data_by_topic = [];
  activated = false;
  callback = none;
  activated_all = false;
  activated_topic = "*";
  types_discovered = [];
  instance_cache = record {
    instances_by_topic =
        (
          "Square",
          (7, record { key_representation = "{red}"; active_writers = 11 ∷ []; last_seen = 5 })
              ∷ [],
        )
        ∷ [];
    key_fields_cache = ("Square", "id" ∷ []) ∷ [];
    no_key_metadata_warned_topics = [];
  };
}

pub with_red-IsReady : IsReady with_red
with_red-IsReady = record {
  armed = refl;
  cached = (
    record {
      bounded = omega arith;
      sorted = (tt, tt);
      live = (record { keyed = refl; written = refl }, tt);
    },
    tt,
  );
}

abbrev pub red_model : SpyModel ℕ
red_model = record {
  participant_database = ([], tt);
  endpoint_database = ([], tt);
  streamer = with_red;
  ros2_types = false;
}

-- A sample of writer 12 after writer 11 has left.
abbrev after_departure : List (Event ℕ)
after_departure =
    schema "Shape" ∷ sample_received "Square" (record a_sample { source_guid = 12 }) 6 ∷ []

departed_writer_stays_gone_example :
    (m' : SpyModel ℕ) × (run (new_endpoint_info red_model (writer_info false)) after_departure
      ≡ some m')
    × IsAbsent 11 "Square" m'.streamer.instance_cache
departed_writer_stays_gone_example =
    departed_writer_stays_gone red_model (writer_info false) after_departure with_red-IsReady refl
      refl refl
