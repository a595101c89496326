-- ===== src/Tests/Parsing.antt =====
-- Runs of ModelParser on a model with one participant, a writer and a reader.
use fast_dds_spy.Prelude.{ℕ, List, [], ◌∷◌, some, true, false, ◌≡◌, refl, any}
use fast_dds_spy.Order.Texts.{string_order, nat_order}
use fast_dds_spy.External.Topics.{Endpoint, is_reader, is_writer}
use fast_dds_spy.DataStreamer.{initial}
use fast_dds_spy.Map
use fast_dds_spy.Set
use fast_dds_spy.SpyModel.{ParticipantInfo, EndpointInfoData, SpyModel}
use fast_dds_spy.Parser.Data.{ComplexParticipantData}
use fast_dds_spy.Parser.Participants.{participant}
use fast_dds_spy.Parser.Counts.{IsTallied, own_endpoints, participant-IsTallied}
use fast_dds_spy.Parser.Endpoints.{writers}
use fast_dds_spy.Parser.Verbose.{active_endpoints}
use fast_dds_spy.Parser.Topics.{get_topics}
use fast_dds_spy.Parser.Listing.{offers, get_topics-contains}
use fast_dds_spy.Tests.World.{
  number_guids, text_types, text_topics, number_times, participant_list, endpoint_list,
}

abbrev p_info : ParticipantInfo
p_info = record { name = "p"; guid = 11; active = true }

-- An endpoint of the kind on Square, in the partitions A and B.
abbrev endpoint : ℕ → ℕ → EndpointInfoData
endpoint kind guid = record {
  info = record {
    kind = kind;
    guid = guid;
    topic = "Square";
    active = true;
    specific_partitions = ("11", "A|B") ∷ [];
  };
  type_idl = "struct Shape {};";
}

abbrev pub small : SpyModel ℕ
small = record {
  participant_database = ((11, p_info) ∷ [], (tt, tt));
  endpoint_database = ((11, endpoint 1 11) ∷ (12, endpoint 0 12) ∷ [], (refl, (tt, tt)));
  streamer = initial;
  ros2_types = false;
}

known : Map.find {K = ℕ} {V = ParticipantInfo} 11 ((11, p_info) ∷ []) ≡ some p_info
unfolding Map.find
known = refl

participant-IsTallied_example :
    (d : ComplexParticipantData) × (participant small 11 ≡ some d)
    × (d.name ≡ "p")
    × (d.guid ≡ 11)
    × IsTallied false d.readers (own_endpoints is_reader small 11)
    × IsTallied false d.writers (own_endpoints is_writer small 11)
participant-IsTallied_example = participant-IsTallied small 11 p_info known refl

abbrev shown_writers : List Endpoint
shown_writers = active_endpoints 1 ((11, endpoint 1 11) ∷ (12, endpoint 0 12) ∷ [])

abbrev shown_readers : List Endpoint
shown_readers = active_endpoints 0 ((11, endpoint 1 11) ∷ (12, endpoint 0 12) ∷ [])

get_topics-contains_example :
    (Set.contains "Square" (get_topics small "*")
      ≡ any (offers "*" "Square") ((11, endpoint 1 11) ∷ (12, endpoint 0 12) ∷ []))
    × Set.IsSorted (get_topics small "*")
get_topics-contains_example = get_topics-contains small "*" "Square"
