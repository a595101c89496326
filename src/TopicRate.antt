-- ===== src/TopicRate.antt =====
-- fastddsspy_participants/src/cpp/model/TopicRateCalculator.cpp and its header: the first and the
-- last timestamp of each topic, and how many samples came, as an unsigned int of 32 bits.
pub mod Summary
use fast_dds_spy.Prelude.{ℕ, List, Option, none, some, ◌+◌, ◌%◌, ◌^◌, ◌==◌, if◌then◌else◌, []}
use fast_dds_spy.Order.{Order}
use fast_dds_spy.External.Topics.{Topics, DdsTopic}
use fast_dds_spy.External.Times.{Times, DataTime, Float}
use fast_dds_spy.Map

-- the values of an unsigned int
abbrev pub uint_values : ℕ
uint_values = 2 ^ 32

module _ ⦃M : Times⦄ where
  pub record DataRateInfo : Type 0 where
    pub first_data_time : DataTime
    pub data_received : ℕ
    pub last_data_time : DataTime

  -- add_data on the entry of the topic. An entry that operator[] has just made counts no data,
  -- so that its first time is set.
  unfoldable pub count_data : Option DataRateInfo → DataTime → DataRateInfo
  count_data none time = record { first_data_time = time; data_received = 1; last_data_time = time }
  count_data (some info) time = record {
    first_data_time = if info.data_received == 0 then time else info.first_data_time;
    data_received = (info.data_received + 1) % uint_values;
    last_data_time = time;
  }

  -- data_by_topic_
  abbrev pub RateByTopic : ⦃T : Topics⦄ → Type 0
  RateByTopic = List (DdsTopic × DataRateInfo)

module _ ⦃T : Topics⦄ ⦃to : Order DdsTopic⦄ ⦃M : Times⦄ where
  unfoldable pub add_data : RateByTopic → DdsTopic → DataTime → RateByTopic
  add_data m topic time = Map.insert topic (count_data (Map.find topic m) time) m

  unfoldable pub get_topic_rate : RateByTopic → DdsTopic → Float
  get_topic_rate m topic = elim (Map.find topic m) [
    | none ↦ M.zero_float
    | some info ↦
        let seconds_elapsed : Float = M.seconds_between info.first_data_time info.last_data_time in
        if M.is_zero seconds_elapsed
        then M.infinity
        else M.divide info.data_received seconds_elapsed
  ]
