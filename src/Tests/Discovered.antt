-- ===== src/Tests/Discovered.antt =====
-- Runs of the discovery callbacks. An entity's data are its guid; a reason is 0, 1, or leaving.
use fast_dds_spy.Prelude.{ℕ, ◌==◌, ==_iff, [], ◌∷◌, ◌++◌, some, true, ◌≡◌, refl}
use fast_dds_spy.Order.Texts.{string_order, nat_order}
use fast_dds_spy.External.Topics.{Endpoint}
use fast_dds_spy.External.Listening.{Listening}
use fast_dds_spy.SpyModel.{SpyModel, schema, run}
use fast_dds_spy.SpyModel.Departure.{IsAbsent}
use fast_dds_spy.Discovery.{on_data_writer_discovery}
use fast_dds_spy.Discovery.Arrival.{
  arrived, IsStored, on_data_writer_discovery-Arrives, on_data_writer_discovery-IsAbsent,
}
use fast_dds_spy.Tests.World.{
  number_guids, text_types, text_topics, number_times, participant_list, endpoint_list,
}
use fast_dds_spy.Tests.Parsing.{small}
use fast_dds_spy.Tests.Model.{red_model, with_red-IsReady}

-- An active endpoint of the kind on Square.
abbrev on_square : ℕ → ℕ → Endpoint
on_square kind guid = record {
  kind = kind;
  guid = guid;
  topic = "Square";
  active = true;
  specific_partitions = [];
}

instance abbrev number_listening : Listening
number_listening = record {
  Status = ℕ;
  status_eq = ◌==◌;
  status_eq_iff = ==_iff;
  discovered = 0;
  changed_qos = 1;
  ParticipantData = ℕ;
  participant_guid = λ g. g;
  participant_name = λ g. "p";
  EndpointData = ℕ;
  endpoint_guid = λ g. g;
  come_from_same_participant = ◌==◌;
  create_reader_from_info = λ g id. on_square 0 g;
  create_writer_from_info = λ g id. on_square 1 g;
  create_reader-guid = λ g id. refl;
  create_reader-kind = λ g id. refl;
  create_writer-guid = λ g id. refl;
  create_writer-kind = λ g id. refl;
  TypeObject = ℕ;
  assigned = λ g. true;
  get_type_object = λ g. some g;
  idl_serialize = λ t. "struct Shape {};";
}

on_data_writer_discovery-Arrives_example :
    (m' : SpyModel ℕ) × (run small (on_data_writer_discovery 99 "spy" 2 11) ≡ some m')
    × IsStored small m' 11 (arrived (on_square 1 11) 2 11)
on_data_writer_discovery-Arrives_example = on_data_writer_discovery-Arrives small 99 "spy" 2 11

on_data_writer_discovery-IsAbsent_example :
    (m' : SpyModel ℕ) × (run red_model
        (on_data_writer_discovery 99 "spy" 2 11 ++ schema "Shape" ∷ [])
      ≡ some m')
    × IsAbsent 11 "Square" m'.streamer.instance_cache
on_data_writer_discovery-IsAbsent_example =
    on_data_writer_discovery-IsAbsent red_model 99 "spy" 2 11 (schema "Shape" ∷ []) with_red-IsReady
      refl refl refl
