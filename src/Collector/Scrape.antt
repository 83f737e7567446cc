-- ===== src/Collector/Scrape.antt =====
-- `Collect` of collector/collector.go: one scrape. The workers run on while it reads the storage, so
-- each of its five reads has a state of its own.
pub mod Found
pub mod Complete
pub mod Labels
use kafka_minion.Collector.{
  Metric, partition_count, partition_high_water_mark, partition_low_water_mark,
  partition_message_count,
}
use kafka_minion.Collector.Offsets.{Marks, water_mark, collect_consumer_offsets}
use kafka_minion.Float64.{float_of_int}
use kafka_minion.GoMap.{GoMap}
use kafka_minion.Kafka.Request.{PartitionWaterMark, TopicConfiguration}
use kafka_minion.Prelude.{Bytes, Option, none, some, List, [], ◌∷◌, ◌++◌, if◌then◌else◌, not}
use kafka_minion.Prelude.Words.{sub64}
use kafka_minion.Storage.{PartitionWaterMarks, MemoryStorage}
use kafka_minion.Storage.Readers.{
  consumer_offsets, topic_configs, partition_high_water_marks, partition_low_water_marks,
  is_consumed,
}
use kafka_minion.Strconv.{show_int}

unfoldable pub config_metrics : GoMap Bytes TopicConfiguration → List Metric
config_metrics [] = []
config_metrics ((_, config) ∷ configs) =
    record {
      desc = partition_count;
      value = float_of_int config.partition_count;
      labels = config.topic_name ∷ config.cleanup_policy ∷ [];
    }
    ∷ config_metrics configs

abbrev pub mark_labels : PartitionWaterMark → List Bytes
mark_labels mark = mark.topic_name ∷ show_int mark.partition_id ∷ []

low_metric : PartitionWaterMark → List Metric
low_metric mark =
    record {
      desc = partition_low_water_mark;
      value = float_of_int mark.water_mark;
      labels = mark_labels mark;
    }
    ∷ []

high_metric : PartitionWaterMark → List Metric
high_metric mark =
    record {
      desc = partition_high_water_mark;
      value = float_of_int mark.water_mark;
      labels = mark_labels mark;
    }
    ∷ []

-- The number of messages of a partition, where its low water mark is known too.
unfoldable pub count_metric : Marks → PartitionWaterMark → List Metric
count_metric low mark = elim (water_mark low mark.topic_name mark.partition_id) [
  | none ↦ []
  | some low_mark ↦
      record {
        desc = partition_message_count;
        value = float_of_int (sub64 mark.water_mark low_mark.water_mark);
        labels = mark_labels mark;
      }
      ∷ []
]

-- `for _, partitions := range marks { for _, partition := range partitions { … } }`
each_partition : (PartitionWaterMark → List Metric) → PartitionWaterMarks → List Metric
each_partition f [] = []
each_partition f ((_, mark) ∷ marks) = f mark ++ each_partition f marks

unfoldable pub each_mark : (PartitionWaterMark → List Metric) → Marks → List Metric
unfolding each_partition
each_mark f [] = []
each_mark f ((_, partitions) ∷ marks) = each_partition f partitions ++ each_mark f marks

abbrev behind : Option (List Metric) → List Metric → Option (List Metric)
behind none ms = none
behind (some first) ms = some (first ++ ms)

-- The states at the reads of `IsConsumed`, of the offsets, of the low and the high water marks, and of
-- the topic configurations.
pub record Reads : Type 0 where
  pub at_status : MemoryStorage
  pub at_offsets : MemoryStorage
  pub at_low : MemoryStorage
  pub at_high : MemoryStorage
  pub at_configs : MemoryStorage

unfoldable pub collect : Reads → Option (List Metric)
unfolding config_metrics low_metric high_metric count_metric each_mark
collect r =
    if not (is_consumed r.at_status)
    then some []
    else (let low = partition_low_water_marks r.at_low in
        let high = partition_high_water_marks r.at_high in
        behind (collect_consumer_offsets (consumer_offsets r.at_offsets) low high) (
          config_metrics (topic_configs r.at_configs)
          ++ (each_mark low_metric low
              ++ (each_mark high_metric high ++ each_mark (count_metric low) high))))
