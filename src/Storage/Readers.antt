-- ===== src/Storage/Readers.antt =====
-- The readers of storage/memory.go: copies of the maps, made under the read lock.
use kafka_minion.GoMap.{GoMap, put, copy}
use kafka_minion.Kafka.Metadata.Types.{ConsumerGroupMetadata}
use kafka_minion.Kafka.Request.{TopicConfiguration}
use kafka_minion.Prelude.{Bool, Bytes, bytes_eq, int_eq, [], ◌∷◌}
use kafka_minion.Storage.{PartitionWaterMarks, ConsumerPartitionOffsetMetric, MemoryStorage}

unfoldable pub consumer_offsets : MemoryStorage → GoMap Bytes ConsumerPartitionOffsetMetric
consumer_offsets s = copy s.groups.offsets

unfoldable pub group_metadata : MemoryStorage → GoMap Bytes ConsumerGroupMetadata
group_metadata s = copy s.groups.metadata

unfoldable pub topic_configs : MemoryStorage → GoMap Bytes TopicConfiguration
topic_configs s = copy s.topics.configs

-- `mapCopy[key] = make(…)`, then the entries of `value` one by one.
unfoldable pub copy_marks_onto :
    GoMap Bytes PartitionWaterMarks
    → GoMap Bytes PartitionWaterMarks
    → GoMap Bytes PartitionWaterMarks
copy_marks_onto acc [] = acc
copy_marks_onto acc ((topic, marks) ∷ rest) = copy_marks_onto (put topic (copy marks) acc) rest

unfoldable pub partition_high_water_marks : MemoryStorage → GoMap Bytes PartitionWaterMarks
unfolding copy_marks_onto
partition_high_water_marks s = copy_marks_onto [] s.partitions.high_water_marks

unfoldable pub partition_low_water_marks : MemoryStorage → GoMap Bytes PartitionWaterMarks
unfolding copy_marks_onto
partition_low_water_marks s = copy_marks_onto [] s.partitions.low_water_marks

unfoldable pub is_consumed : MemoryStorage → Bool
is_consumed s = s.status.offset_topic_consumed
