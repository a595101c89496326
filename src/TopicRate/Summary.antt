-- ===== src/TopicRate/Summary.antt =====
-- The entry of a topic is the summary of the samples that came in.
use fast_dds_spy.Prelude.{
  suc, List, [], ◌∷◌, Option, none, some, ◌+◌, ◌<◌, ◌≡◌, ◌∙◌, refl, ap, length, if◌then◌else◌,
  arith, Bool-cases, inl, inr,
}
use fast_dds_spy.Order.{Order, ◌=?◌}
use fast_dds_spy.External.Topics.{Topics, DdsTopic}
use fast_dds_spy.External.Times.{Times, DataTime, Float}
use fast_dds_spy.Map
use fast_dds_spy.TopicRate.{
  uint_values, DataRateInfo, count_data, RateByTopic, add_data, get_topic_rate,
}

module _ ⦃M : Times⦄ where
  abbrev last_time : DataTime → List DataTime → DataTime
  last_time t [] = t
  last_time t (u ∷ ts) = last_time u ts

  -- What the timestamps of a topic, oldest first, come to.
  abbrev pub summary : List DataTime → Option DataRateInfo
  summary [] = none
  summary (t ∷ ts) = some (record {
    first_data_time = t;
    data_received = suc (length ts);
    last_data_time = last_time t ts;
  })

  abbrev count_all : Option DataRateInfo → List DataTime → Option DataRateInfo
  count_all o [] = o
  count_all o (t ∷ ts) = count_all (some (count_data o t)) ts

  count_all-some :
      (info : DataRateInfo) (ts : List DataTime)
      → 0 < info.data_received
      → info.data_received + length ts < uint_values
      → count_all (some info) ts
        ≡ some (record {
          first_data_time = info.first_data_time;
          data_received = info.data_received + length ts;
          last_data_time = last_time info.last_data_time ts;
        })
  unfolding count_data
  count_all-some info [] pos small = ground arith
  count_all-some info (t ∷ ts) pos small =
      let next : DataRateInfo = count_data (some info) t in
      let counted : next.data_received ≡ info.data_received + 1 = ground arith in
      count_all-some next ts (omega arith) (omega arith) ∙ ground arith

  count_all-summary :
      (ts : List DataTime) → length ts < uint_values → count_all none ts ≡ summary ts
  unfolding count_data
  count_all-summary [] h = refl
  count_all-summary (t ∷ ts) h =
      count_all-some (count_data none t) ts (omega arith) (omega arith) ∙ ground arith

module _ ⦃T : Topics⦄ ⦃to : Order DdsTopic⦄ ⦃M : Times⦄ where
  abbrev pub add_all : RateByTopic → List (DdsTopic × DataTime) → RateByTopic
  add_all m [] = m
  add_all m ((topic, time) ∷ rest) = add_all (add_data m topic time) rest

  -- The timestamps of one topic.
  abbrev pub times_of : DdsTopic → List (DdsTopic × DataTime) → List DataTime
  times_of topic [] = []
  times_of topic ((other, time) ∷ rest) =
      if other =? topic then time ∷ times_of topic rest else times_of topic rest

  length-times_of-le :
      (topic : DdsTopic) (samples : List (DdsTopic × DataTime))
      → length (times_of topic samples) < suc (length samples)
  length-times_of-le topic [] = omega arith
  length-times_of-le topic ((other, time) ∷ rest) = ground (arith, length-times_of-le topic rest)

  find-add_all :
      (topic : DdsTopic) (m : RateByTopic) (samples : List (DdsTopic × DataTime))
      → Map.find topic (add_all m samples) ≡ count_all (Map.find topic m) (times_of topic samples)
  unfolding add_data
  find-add_all topic m [] = refl
  find-add_all topic m ((other, time) ∷ rest) =
      find-add_all topic (add_data m other time) rest
      ∙ ap (λ o. count_all o (times_of topic rest))
          (Map.find-insert other topic (count_data (Map.find other m) time) m)
      ∙ elim (Bool-cases (other =? topic)) [
        | inl same ↦ rw (same, (to.eq_iff other topic).0 same)
        | inr differ ↦ rw differ
      ]

  -- After fewer than 2^32 samples, the entry of a topic has the time of its first sample, the
  -- time of its last one and their number; a topic without samples has no entry.
  pub find-add_all-summary :
      (topic : DdsTopic) (samples : List (DdsTopic × DataTime))
      → length samples < uint_values
      → Map.find topic (add_all [] samples) ≡ summary (times_of topic samples)
  unfolding Map.find
  find-add_all-summary topic samples h =
      find-add_all topic [] samples
      ∙ count_all-summary (times_of topic samples)
          (omega (arith, length-times_of-le topic samples, h))

  -- The rate of a topic from its timestamps, oldest first.
  abbrev pub rate_of : List DataTime → Float
  rate_of [] = M.zero_float
  rate_of (t ∷ ts) =
      if M.is_zero (M.seconds_between t (last_time t ts))
      then M.infinity
      else M.divide (suc (length ts)) (M.seconds_between t (last_time t ts))

  rate-summary :
      (m : RateByTopic) (topic : DdsTopic) (ts : List DataTime)
      → Map.find topic m ≡ summary ts
      → get_topic_rate m topic ≡ rate_of ts
  unfolding get_topic_rate
  rate-summary m topic [] e = rw (e, get_topic_rate)
  rate-summary m topic (t ∷ ts) e = rw (e, get_topic_rate)

  -- After fewer than 2^32 samples, the rate of a topic is zero if none came, infinite if the
  -- first and the last came in the same second, and else their number over the seconds between.
  pub get_topic_rate-add_all :
      (topic : DdsTopic) (samples : List (DdsTopic × DataTime))
      → length samples < uint_values
      → get_topic_rate (add_all [] samples) topic ≡ rate_of (times_of topic samples)
  get_topic_rate-add_all topic samples h =
      rate-summary (add_all [] samples) topic (times_of topic samples)
        (find-add_all-summary topic samples h)

  -- The counter wraps: the 2^32-th sample leaves a count of zero, and the one after it starts
  -- the record of the topic anew.
  pub count_data_wraps :
      (info : DataRateInfo) (t u : DataTime)
      → info.data_received + 1 ≡ uint_values
      → ((count_data (some info) t).data_received ≡ 0)
        × (count_data (some (count_data (some info) t)) u ≡ count_data none u)
  unfolding count_data
  count_data_wraps info t u e = (ground arith, ground arith)
