-- ===== src/Controller/Backend.antt =====
-- fastddsspy_tool/src/cpp/tool/Backend.cpp: what a change of a filter passes on to the DDS
-- participant and to the pipe, which are not part of this repository.
use fast_dds_spy.Prelude.{String, List, ◌∷◌}

-- The calls, with the object that they go to.
pub data TrackCall : Type 0 where
  participant_update_partitions : List String → TrackCall
  pipe_update_partitions : List String → TrackCall
  participant_update_content_topicfilter : String → String → TrackCall
  pipe_update_content_filter : String → String → TrackCall

-- The calls that were made, the last first.
abbrev pub TrackCalls : Type 0
TrackCalls = List TrackCall

unfoldable pub update_readers_track_partitions : List String → TrackCalls → TrackCalls
update_readers_track_partitions partitions_set calls =
    pipe_update_partitions partitions_set ∷ participant_update_partitions partitions_set ∷ calls

unfoldable pub update_readers_track_content_filter : String → String → TrackCalls → TrackCalls
update_readers_track_content_filter topic_name expression calls =
    pipe_update_content_filter topic_name expression
    ∷ participant_update_content_topicfilter topic_name expression
    ∷ calls
