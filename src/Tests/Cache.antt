-- ===== src/Tests/Cache.antt =====
-- Runs of the instance cache, of the rates and of the races.
use fast_dds_spy.Prelude.{
  ℕ, zero, suc, String, List, [], ◌∷◌, none, some, Bool, true, false, ◌≡◌, refl, arith, length, ◌+◌,
  ◌<◌,
}
use fast_dds_spy.Order.Texts.{string_order, nat_order}
use fast_dds_spy.External.Samples.{Sample}
use fast_dds_spy.InstanceCache.{
  InstanceCache, InstanceInfo, Instances, empty_cache, on_writer_changed, instance_of,
  max_instances_per_topic,
}
use fast_dds_spy.InstanceCache.Update.{
  add_or_update_instance, finish_update, find_instance, serializing, key_text,
}
use fast_dds_spy.InstanceCache.Keys.{extract_key_field_names, key_names, serialize_key_to_json}
use fast_dds_spy.InstanceCache.Bounds.{IsValid, empty_cache-IsValid}
use fast_dds_spy.InstanceCache.Contents.{updated_info, add_or_update_instance-contents}
use fast_dds_spy.InstanceCache.Growth.{add_or_update_instance-IsValid}
use fast_dds_spy.InstanceCache.Writers.{on_writer_changed-contents, without_writer}
use fast_dds_spy.InstanceCache.Race.{overtaken_updates_exceed_limit, count_instances}
use fast_dds_spy.Map
use fast_dds_spy.TopicRate.{DataRateInfo, count_data, get_topic_rate}
use fast_dds_spy.TopicRate.Summary.{
  add_all, times_of, rate_of, get_topic_rate-add_all, count_data_wraps,
}
use fast_dds_spy.SpyModel.Departure.{writes, IsAbsent}
use fast_dds_spy.SpyModel.Overtaken.{overtaken_writer_returns}
use fast_dds_spy.Tests.World.{number_guids, text_types, text_topics, number_times}

-- A sample of writer 11 with the instance 7.
abbrev a_sample : Sample ℕ
a_sample = record { source_guid = 11; instance_handle = 7; source_timestamp = 100; payload = "red" }

-- The cache after this sample, at time 5.
abbrev red : InstanceInfo
red = record { key_representation = "{red}"; active_writers = 11 ∷ []; last_seen = 5 }

abbrev one_instance : InstanceCache
one_instance = record {
  instances_by_topic = ("Square", (7, red) ∷ []) ∷ [];
  key_fields_cache = ("Square", "id" ∷ []) ∷ [];
  no_key_metadata_warned_topics = [];
}

add_first :
    add_or_update_instance empty_cache "Square" (some "Shape") a_sample 5
    ≡ some (one_instance, true)
unfolding add_or_update_instance empty_cache Map.find extract_key_field_names key_names Map.insert
    serialize_key_to_json
add_first = refl

add_or_update_instance-IsValid_example :
    (c' : InstanceCache) × (answer : Bool) × (add_or_update_instance empty_cache "Square"
        (some "Shape")
        a_sample
        5
      ≡ some (c', answer))
    × IsValid c'
add_or_update_instance-IsValid_example =
    add_or_update_instance-IsValid empty_cache "Square" (some "Shape") a_sample 5
      empty_cache-IsValid

one_instance-IsValid : IsValid one_instance
one_instance-IsValid = (
  record {
    bounded = omega arith;
    sorted = (tt, tt);
    live = (record { keyed = refl; written = refl }, tt);
  },
  tt,
)

add_or_update_instance-contents_example :
    instance_of one_instance "Square" 7
    ≡ some
        (updated_info (instance_of empty_cache "Square" 7) (key_text (some "Shape") a_sample) 11 5)
add_or_update_instance-contents_example =
    add_or_update_instance-contents empty_cache "Square" (some "Shape") a_sample 5 one_instance true
      "Square" 7 add_first

on_writer_changed-contents_example :
    instance_of (on_writer_changed one_instance 11 "Square" false) "Square" 7
    ≡ without_writer 11 (instance_of one_instance "Square" 7)
on_writer_changed-contents_example =
    on_writer_changed-contents one_instance 11 "Square" "Square" 7 one_instance-IsValid

-- Instances with the handles from k down to 1.
full : ℕ → Instances
full zero = []
full (suc k) = (suc k, red) ∷ full k

find-full : (k h : ℕ) → k < h → Map.find h (full k) ≡ none
unfolding full Map.find
find-full zero h above = refl
find-full (suc k) h above = ground (arith, find-full k h)

length-full : (k : ℕ) → length (full k) ≡ k
unfolding full
length-full zero = refl
length-full (suc k) = omega (arith, length-full k)

abbrev almost_full : InstanceCache
almost_full = record {
  instances_by_topic = ("Square", full 999) ∷ [];
  key_fields_cache = ("Square", "id" ∷ []) ∷ [];
  no_key_metadata_warned_topics = [];
}

almost_full-has : Map.find "Square" almost_full.instances_by_topic ≡ some (full 999)
unfolding Map.find
almost_full-has = refl

almost_full-length : length (full 999) + 1 ≡ max_instances_per_topic
almost_full-length = omega (arith, length-full 999)

overtaken_updates_exceed_limit_example :
    (find_instance almost_full "Square" (full 999) 1001 11 5 ≡ (almost_full, serializing))
    × (find_instance almost_full "Square" (full 999) 1002 12 6 ≡ (almost_full, serializing))
    × (c₁ : InstanceCache) × (c₂ : InstanceCache) × (finish_update almost_full "Square" "{a}" 1001
          11 5
        ≡ some (c₁, true))
    × (finish_update c₁ "Square" "{b}" 1002 12 6 ≡ some (c₂, true))
    × (count_instances c₂ "Square" ≡ max_instances_per_topic + 1)
overtaken_updates_exceed_limit_example =
    overtaken_updates_exceed_limit almost_full "Square" "{a}" "{b}" 1001 1002 11 12 5 6 (full 999)
      almost_full-has (find-full 999 1001 (omega arith)) (find-full 999 1002 (omega arith)) refl
      refl refl almost_full-length

no_eight : Map.find {K = ℕ} 8 ((7, red) ∷ []) ≡ none
unfolding Map.find
no_eight = refl

one_instance-has : Map.find "Square" one_instance.instances_by_topic ≡ some ((7, red) ∷ [])
unfolding Map.find
one_instance-has = refl

overtaken_writer_returns_example :
    (find_instance one_instance "Square" ((7, red) ∷ []) 8 11 5 ≡ (one_instance, serializing))
    × IsAbsent 11 "Square" (on_writer_changed one_instance 11 "Square" false)
    × (c' : InstanceCache) × (finish_update
          (on_writer_changed one_instance 11 "Square" false)
          "Square"
          "{a}"
          8
          11
          5
        ≡ some (c', true))
    × (writes 11 (instance_of c' "Square" 8) ≡ true)
overtaken_writer_returns_example =
    overtaken_writer_returns one_instance "Square" "{a}" 8 11 5 ((7, red) ∷ []) one_instance-IsValid
      one_instance-has no_eight (omega arith) refl

abbrev two_samples : List (String × ℕ)
two_samples = ("Square", 100) ∷ ("Circle", 101) ∷ ("Square", 104) ∷ []

get_topic_rate-add_all_example :
    get_topic_rate (add_all [] two_samples) "Square" ≡ rate_of (times_of "Square" two_samples)
get_topic_rate-add_all_example = get_topic_rate-add_all "Square" two_samples (omega arith)

abbrev last_count : DataRateInfo
last_count = record { first_data_time = 100; data_received = 4294967295; last_data_time = 200 }

count_data_wraps_example :
    ((count_data (some last_count) 201).data_received ≡ 0)
    × (count_data (some (count_data (some last_count) 201)) 202 ≡ count_data none 202)
count_data_wraps_example = count_data_wraps last_count 201 202 refl
