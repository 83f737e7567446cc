-- ===== src/Collector/Tests.antt =====
-- The theorems on the package collector at concrete offsets, and the cases of collector_test.go.
use kafka_minion.Collector.{VersionedConsumerGroup, Metric}
use kafka_minion.Collector.Groups.{Groups, get_versioned_consumer_groups}
use kafka_minion.Collector.Groups.Latest.{latest_is_highest, latest_exists, latest_unique}
use kafka_minion.Collector.Groups.Panics.{versioned_groups-total, digit_name_panics}
use kafka_minion.Collector.Lag.{partition_lag, partition_lag-min, partition_lag_negative}
use kafka_minion.Collector.Offsets.{
  topic_lag_metric, collect_consumer_offsets, Marks, Aggregation, collect_offsets,
  empty_aggregation,
}
use kafka_minion.Collector.Offsets.Sums.{topic_lag, lags_for, missing}
use kafka_minion.Collector.Offsets.Totals.{kept_lag, collect_offsets-totals}
use kafka_minion.Collector.Offsets.Reported.{IsTopicLag, reported_complete}
use kafka_minion.Collector.Version.{parse_version, parse_consumer_group_name}
use kafka_minion.Collector.Version.Split.{version_of, parse_version-version_of}
use kafka_minion.GoMap.{GoMap, get, has}
use kafka_minion.Kafka.Request.{PartitionWaterMark}
use kafka_minion.Prelude.{
  Any, inr, ℕ, ◌-◌, ◌≤◌, ◌≡◌, ◌≢◌, ◌↔◌, refl, Bool, true, false, Bytes, bytes_eq, int_eq, Option,
  none, some, List, [], ◌∷◌, ◌++◌, All, map, inl, inr, min, arith,
}
use kafka_minion.Prelude.Int.{ℤ, pos, negsuc}
use kafka_minion.Storage.{ConsumerPartitionOffsetMetric}
use kafka_minion.Strconv.{is_digit, all_digits}

abbrev sample : Bytes
sample = b's' ∷ b'-' ∷ []

abbrev sample_1 : Bytes
sample_1 = b's' ∷ b'-' ∷ b'1' ∷ []

abbrev sample_2 : Bytes
sample_2 = b's' ∷ b'-' ∷ b'2' ∷ []

abbrev topic : Bytes
topic = b't' ∷ []

abbrev at : Bytes → ℤ → ℤ → ConsumerPartitionOffsetMetric
at group partition offset = record {
  group = group;
  topic = topic;
  partition = partition;
  offset = offset;
  timestamp = pos 0;
  total_commit_count = 1;
}

abbrev offsets : GoMap Bytes ConsumerPartitionOffsetMetric
offsets =
    (b'x' ∷ [], at sample_2 (pos 0) (pos 7))
    ∷ (b'y' ∷ [], at sample_1 (pos 0) (pos 3))
    ∷ (b'z' ∷ [], at sample_2 (pos 1) (pos 1))
    ∷ []

abbrev group_with : Bytes → ℕ → Bool → VersionedConsumerGroup
group_with name version is_latest = record {
  base_name = sample;
  name = name;
  version = version;
  is_latest = is_latest;
}

abbrev groups : Groups
groups = (sample_2, group_with sample_2 2 true) ∷ (sample_1, group_with sample_1 1 false) ∷ []

groups_found : get_versioned_consumer_groups offsets ≡ some groups
unfolding get_versioned_consumer_groups kafka_minion.Collector.Groups.scan parse_consumer_group_name
    parse_version is_digit kafka_minion.Collector.Groups.mark_latest get kafka_minion.GoMap.put
    kafka_minion.Strconv.parse_uint
groups_found = refl

first_there : get sample_1 groups ≡ some (group_with sample_1 1 false)
unfolding get
first_there = refl

second_there : get sample_2 groups ≡ some (group_with sample_2 2 true)
unfolding get
second_there = refl

latest_is_highest_example :
    (group_with sample_1 1 false).version ≤ (group_with sample_2 2 true).version
latest_is_highest_example =
    latest_is_highest offsets groups_found sample_2 sample_1 (group_with sample_2 2 true)
      (group_with sample_1 1 false) second_there first_there refl refl

latest_exists_example :
    (j : Bytes) × (w : VersionedConsumerGroup) × (get j groups ≡ some w)
    × (w.base_name ≡ sample)
    × (w.is_latest ≡ true)
latest_exists_example =
    latest_exists offsets groups_found sample_1 (group_with sample_1 1 false) first_there

latest_unique_example : sample_2 ≡ sample_2
latest_unique_example =
    latest_unique offsets groups_found sample_2 sample_2 (group_with sample_2 2 true)
      (group_with sample_2 2 true) second_there second_there refl refl refl

named_1 : all_digits sample_1 ≡ false
unfolding is_digit
named_1 = refl

named_2 : all_digits sample_2 ≡ false
unfolding is_digit
named_2 = refl

versioned_groups-total_example : (gs : Groups) × (get_versioned_consumer_groups offsets ≡ some gs)
versioned_groups-total_example =
    versioned_groups-total offsets (inr named_2, (inr named_1, (inr named_2, tt)))

-- A group named by a number alone.
abbrev digits : GoMap Bytes ConsumerPartitionOffsetMetric
digits = (b'x' ∷ [], at (b'4' ∷ b'2' ∷ []) (pos 0) (pos 7)) ∷ []

digits_only : all_digits (b'4' ∷ b'2' ∷ []) ≡ true
unfolding is_digit
digits_only = refl

digit_name_panics_example : get_versioned_consumer_groups digits ≡ none
digit_name_panics_example = digit_name_panics digits (inl ((λ e. cc), digits_only))

dash_no_digit : is_digit b'-' ≡ false
unfolding is_digit
dash_no_digit = refl

twelve_digits : all_digits (b'1' ∷ b'2' ∷ []) ≡ true
unfolding is_digit
twelve_digits = refl

parse_version-version_of_example :
    parse_version ((b's' ∷ []) ++ b'-' ∷ (b'1' ∷ b'2' ∷ []))
    ≡ some (version_of (b's' ∷ []) b'-' (b'1' ∷ b'2' ∷ []))
parse_version-version_of_example =
    parse_version-version_of (b's' ∷ []) b'-' (b'1' ∷ b'2' ∷ []) dash_no_digit twelve_digits

partition_lag-min_example : partition_lag (pos 7) (pos 3) (pos 10) ≡ pos (min (10 - 7) (10 - 3))
partition_lag-min_example = partition_lag-min 7 3 10 (omega arith) (omega arith)

partition_lag_negative_example : partition_lag (pos 4) (pos 7) (pos 5) ≡ negsuc (7 - 5 - 1)
partition_lag_negative_example =
    partition_lag_negative 4 7 5 (omega arith) (omega arith) (omega arith)

abbrev mark : ℤ → ℤ → PartitionWaterMark
mark partition offset = record {
  topic_name = topic;
  partition_id = partition;
  water_mark = offset;
  timestamp = pos 0;
}

abbrev low : Marks
low = (topic, (pos 0, mark (pos 0) (pos 2)) ∷ (pos 1, mark (pos 1) (pos 0)) ∷ []) ∷ []

abbrev high : Marks
high = (topic, (pos 0, mark (pos 0) (pos 10)) ∷ (pos 1, mark (pos 1) (pos 5)) ∷ []) ∷ []

looped :
    (ms : List Metric) × (agg : Aggregation) × (collect_offsets low high groups offsets
        empty_aggregation
      ≡ some (ms, agg))
unfolding collect_offsets get
looped = (_, _, refl)

lags_found : kept_lag (lags_for sample_2 topic low high offsets) ≡ some (pos 7)
unfolding kafka_minion.Collector.Offsets.water_mark get partition_lag
    kafka_minion.Prelude.Words.sub64 kafka_minion.Prelude.Int.◌-ℤ◌ kafka_minion.Prelude.Int.◌+ℤ◌
lags_found = refl

collect_offsets-totals_example :
    (topic_lag sample_2 topic looped.1.group_lags
      ≡ kept_lag (lags_for sample_2 topic low high offsets))
    × (has topic looped.1.error_topics ≡ missing topic low high offsets)
collect_offsets-totals_example =
    collect_offsets-totals sample_2 topic low high groups offsets looped.0 looped.1 looped.2

abbrev one_offset : GoMap Bytes ConsumerPartitionOffsetMetric
one_offset = (b'x' ∷ [], at sample_2 (pos 0) (pos 7)) ∷ []

abbrev topic_metric : Metric
topic_metric = topic_lag_metric (group_with sample_2 2 true) topic (pos 3)

scraped :
    (ms : List Metric) × (collect_consumer_offsets one_offset low high ≡ some ms)
    × Any (λ m. m ≡ topic_metric) ms
unfolding collect_consumer_offsets get_versioned_consumer_groups kafka_minion.Collector.Groups.scan
    parse_consumer_group_name parse_version is_digit kafka_minion.Collector.Groups.mark_latest get
    kafka_minion.GoMap.put kafka_minion.Collector.Offsets.group_lags has
    kafka_minion.Prelude.Words.add64 kafka_minion.Strconv.parse_uint kafka_minion.Prelude.Int.◌+ℤ◌
    partition_lag kafka_minion.Prelude.Words.sub64 kafka_minion.Prelude.Int.◌-ℤ◌
scraped = (_, refl, inr (inr (inr (inr (inl refl)))))

reported_complete_example :
    (t : Bytes) × IsTopicLag t topic_metric × (missing t low high one_offset ≡ false)
unfolding topic_lag_metric
reported_complete_example =
    reported_complete one_offset low high scraped.0 topic_metric scraped.1 scraped.2 refl
