-- ===== src/Collector/Offsets.antt =====
-- `collectConsumerOffsets` of collector/collector.go: the metrics of the consumer groups. `none` is the
-- panic of a nil pointer or of the group name parser.
pub mod Sums
pub mod Totals
pub mod Reported
use kafka_minion.Collector.{
  VersionedConsumerGroup, Metric, Desc, group_partition_offset, group_partition_commit_count,
  group_partition_last_commit, group_partition_lag, group_topic_lag,
}
use kafka_minion.Collector.Groups.{Groups, get_versioned_consumer_groups}
use kafka_minion.Collector.Lag.{partition_lag}
use kafka_minion.Float64.{float_of_int}
use kafka_minion.GoMap.{GoMap, get, put, has}
use kafka_minion.Kafka.Request.{PartitionWaterMark}
use kafka_minion.Prelude.{
  Bool, true, false, Bytes, bytes_eq, int_eq, Option, none, some, List, [], ◌∷◌, ◌++◌,
  if◌then◌else◌,
}
use kafka_minion.Prelude.Int.{ℤ, pos}
use kafka_minion.Prelude.Words.{add64}
use kafka_minion.Storage.{PartitionWaterMarks, ConsumerPartitionOffsetMetric}
use kafka_minion.Strconv.{show_int, show_nat, show_bool}

pub record GroupLag : Type 0 where
  pub versioned_group : VersionedConsumerGroup
  pub lag_by_topic : GoMap Bytes ℤ

-- `errorTopics` and `groupLagsByGroupName`
pub record Aggregation : Type 0 where
  pub error_topics : GoMap Bytes Bool
  pub group_lags : GoMap Bytes GroupLag

abbrev pub Marks : Type 0
Marks = GoMap Bytes PartitionWaterMarks

-- `marks[topic][partition]`, where a missing topic gives a nil map.
unfoldable pub water_mark : Marks → Bytes → ℤ → Option PartitionWaterMark
water_mark marks topic partition = elim (get topic marks) [
  | none ↦ none
  | some inner ↦ get partition inner
]

unfoldable pub offset_labels : ConsumerPartitionOffsetMetric → VersionedConsumerGroup → List Bytes
offset_labels offset group =
    offset.group
    ∷ group.base_name
    ∷ show_bool group.is_latest
    ∷ show_nat group.version
    ∷ offset.topic
    ∷ show_int offset.partition
    ∷ []

unfoldable pub offset_metrics : ConsumerPartitionOffsetMetric → VersionedConsumerGroup → List Metric
unfolding offset_labels
offset_metrics offset group =
    record {
      desc = group_partition_offset;
      value = float_of_int offset.offset;
      labels = offset_labels offset group;
    }
    ∷ record {
      desc = group_partition_commit_count;
      value = pos offset.total_commit_count;
      labels = offset_labels offset group;
    }
    ∷ record {
      desc = group_partition_last_commit;
      value = float_of_int offset.timestamp;
      labels = offset_labels offset group;
    }
    ∷ []

unfoldable pub lag_metric : ConsumerPartitionOffsetMetric → VersionedConsumerGroup → ℤ → Metric
unfolding offset_labels
lag_metric offset group lag = record {
  desc = group_partition_lag;
  value = float_of_int lag;
  labels = offset_labels offset group;
}

-- A missing entry of a map of int64 reads as 0.
abbrev pub or_zero : Option ℤ → ℤ
or_zero none = pos 0
or_zero (some n) = n

-- `groupLagsByGroupName[group].lagByTopic[topic] += lag`, with the entry initialised if needed.
unfoldable pub add_lag :
    ConsumerPartitionOffsetMetric
    → VersionedConsumerGroup
    → ℤ
    → GoMap Bytes GroupLag
    → GoMap Bytes GroupLag
add_lag offset group lag lags = elim (get offset.group lags) [
  | none ↦
      put offset.group
        (record { versioned_group = group; lag_by_topic = put offset.topic (add64 (pos 0) lag) [] })
        lags
  | some sums ↦
      put offset.group
        (record sums {
          lag_by_topic =
              put offset.topic (add64 (or_zero (get offset.topic sums.lag_by_topic)) lag)
                sums.lag_by_topic;
        })
        lags
]

unfoldable pub add_error : Bytes → Aggregation → Aggregation
add_error topic agg = record agg { error_topics = put topic true agg.error_topics }

-- The body of the loop over the offsets, from the lookups of the water marks on.
unfoldable pub collect_lag :
    ConsumerPartitionOffsetMetric
    → VersionedConsumerGroup
    → Option PartitionWaterMark
    → Option PartitionWaterMark
    → Aggregation
    → List Metric × Aggregation
unfolding lag_metric add_lag add_error
collect_lag offset group none high agg = ([], add_error offset.topic agg)
collect_lag offset group (some low) none agg = ([], add_error offset.topic agg)
collect_lag offset group (some low) (some high) agg =
    let lag = partition_lag offset.offset low.water_mark high.water_mark in
    (
      lag_metric offset group lag ∷ [],
      record agg { group_lags = add_lag offset group lag agg.group_lags },
    )

abbrev pub prepend :
    List Metric → Option (List Metric × Aggregation) → Option (List Metric × Aggregation)
prepend ms none = none
prepend ms (some (rest, agg)) = some (ms ++ rest, agg)

-- The loop over the offsets.
unfoldable pub collect_offsets :
    Marks
    → Marks
    → Groups
    → GoMap Bytes ConsumerPartitionOffsetMetric
    → Aggregation
    → Option (List Metric × Aggregation)
unfolding offset_metrics collect_lag water_mark
collect_offsets low high groups [] agg = some ([], agg)
collect_offsets low high groups ((_, offset) ∷ offsets) agg = elim (get offset.group groups) [
  | none ↦ none
  | some group ↦
      let (ms, next) =
        collect_lag offset group (water_mark low offset.topic offset.partition)
          (water_mark high offset.topic offset.partition) agg in
      prepend (offset_metrics offset group ++ ms) (collect_offsets low high groups offsets next)
]

unfoldable pub topic_lag_metric : VersionedConsumerGroup → Bytes → ℤ → Metric
topic_lag_metric group topic lag = record {
  desc = group_topic_lag;
  value = float_of_int lag;
  labels =
      group.name
      ∷ group.base_name
      ∷ show_bool group.is_latest
      ∷ show_nat group.version
      ∷ topic
      ∷ [];
}

-- The inner loop over the topics of one group: a topic with a missing water mark is skipped.
unfoldable pub topic_lags : GoMap Bytes Bool → VersionedConsumerGroup → GoMap Bytes ℤ → List Metric
unfolding topic_lag_metric
topic_lags errors group [] = []
topic_lags errors group ((topic, lag) ∷ lags) =
    let rest = topic_lags errors group lags in
    if has topic errors then rest else topic_lag_metric group topic lag ∷ rest

unfoldable pub group_lags : GoMap Bytes Bool → GoMap Bytes GroupLag → List Metric
unfolding topic_lags
group_lags errors [] = []
group_lags errors ((_, sums) ∷ lags) =
    topic_lags errors sums.versioned_group sums.lag_by_topic ++ group_lags errors lags

abbrev pub empty_aggregation : Aggregation
empty_aggregation = record { error_topics = []; group_lags = [] }

abbrev pub with_group_lags : Option (List Metric × Aggregation) → Option (List Metric)
with_group_lags none = none
with_group_lags (some (ms, agg)) = some (ms ++ group_lags agg.error_topics agg.group_lags)

unfoldable pub collect_consumer_offsets :
    GoMap Bytes ConsumerPartitionOffsetMetric → Marks → Marks → Option (List Metric)
unfolding collect_offsets
collect_consumer_offsets offsets low high = elim (get_versioned_consumer_groups offsets) [
  | none ↦ none
  | some groups ↦ with_group_lags (collect_offsets low high groups offsets empty_aggregation)
]
