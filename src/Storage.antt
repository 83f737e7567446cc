-- ===== src/Storage.antt =====
-- storage/memory.go: the maps behind the exporter. Each method holds a write lock while it runs, so
-- it is one step on the state; the readers return copies.
pub mod Worker
pub mod Readers
pub mod OffsetKey
pub mod Invariant
pub mod Copies
pub mod Action
pub mod History
pub mod Ready
pub mod Interleaving
mod Tests
use kafka_minion.Float64.{increment}
use kafka_minion.GoMap.{GoMap, get, put, delete, has, copy}
use kafka_minion.Kafka.Metadata.Types.{ConsumerGroupMetadata}
use kafka_minion.Kafka.Offset.{ConsumerPartitionOffset}
use kafka_minion.Kafka.Request.{
  PartitionWaterMark, TopicConfiguration, StorageRequest, StorageRequestType,
  add_partition_high_water_mark, add_partition_low_water_mark, add_consumer_offset,
  add_group_metadata, add_topic_configuration, delete_consumer_group, register_offset_partitions,
  mark_offset_partition_ready, delete_group_metadata, delete_topic,
}
use kafka_minion.Prelude.{
  ℕ, ◌-◌, ◌^◌, Bool, true, false, Option, none, some, Bytes, bytes_eq, int_eq, List, [], ◌∷◌, ◌++◌,
  ◌==◌, if◌then◌else◌,
}
use kafka_minion.Prelude.Int.{ℤ, pos}
use kafka_minion.Prelude.Words.{half32, sub64}
use kafka_minion.Strconv.{show_int}

abbrev pub PartitionWaterMarks : Type 0
PartitionWaterMarks = GoMap ℤ PartitionWaterMark

pub record ConsumerPartitionOffsetMetric : Type 0 where
  pub group : Bytes
  pub topic : Bytes
  pub partition : ℤ
  pub offset : ℤ
  pub timestamp : ℤ
  pub total_commit_count : ℕ

pub record ConsumerStatus : Type 0 where
  pub not_ready_partition_consumers : ℤ
  pub offset_topic_consumed : Bool

pub record ConsumerGroup : Type 0 where
  pub offsets : GoMap Bytes ConsumerPartitionOffsetMetric
  pub metadata : GoMap Bytes ConsumerGroupMetadata

pub record Partition : Type 0 where
  pub low_water_marks : GoMap Bytes PartitionWaterMarks
  pub high_water_marks : GoMap Bytes PartitionWaterMarks

pub record Topic : Type 0 where
  pub configs : GoMap Bytes TopicConfiguration

pub record MemoryStorage : Type 0 where
  pub status : ConsumerStatus
  pub groups : ConsumerGroup
  pub partitions : Partition
  pub topics : Topic

-- `math.MaxInt32` partition consumers are waited for until the real number is registered.
unfoldable pub new_memory_storage : MemoryStorage
new_memory_storage = record {
  status = record {
    not_ready_partition_consumers = pos (2 ^ 31 - 1);
    offset_topic_consumed = false;
  };
  groups = record { offsets = []; metadata = [] };
  partitions = record { low_water_marks = []; high_water_marks = [] };
  topics = record { configs = [] };
}

unfoldable pub delete_topic_data : Bytes → MemoryStorage → MemoryStorage
delete_topic_data name s = record s {
  partitions = record {
    low_water_marks = delete name s.partitions.low_water_marks;
    high_water_marks = delete name s.partitions.high_water_marks;
  };
  topics = record { configs = delete name s.topics.configs };
}

-- `m[topic]` is initialised if needed, and `m[topic][partition] = mark`.
unfoldable pub store_mark :
    PartitionWaterMark → GoMap Bytes PartitionWaterMarks → GoMap Bytes PartitionWaterMarks
store_mark mark marks = elim (get mark.topic_name marks) [
  | none ↦ put mark.topic_name (put mark.partition_id mark []) marks
  | some partitions ↦ put mark.topic_name (put mark.partition_id mark partitions) marks
]

unfoldable pub store_partition_high_water_mark : PartitionWaterMark → MemoryStorage → MemoryStorage
unfolding store_mark
store_partition_high_water_mark mark s = record s {
  partitions = record (s.partitions) {
    high_water_marks = store_mark mark s.partitions.high_water_marks;
  };
}

unfoldable pub store_partition_low_water_mark : PartitionWaterMark → MemoryStorage → MemoryStorage
unfolding store_mark
store_partition_low_water_mark mark s = record s {
  partitions = record (s.partitions) {
    low_water_marks = store_mark mark s.partitions.low_water_marks;
  };
}

unfoldable pub store_group_metadata : ConsumerGroupMetadata → MemoryStorage → MemoryStorage
store_group_metadata metadata s = record s {
  groups = record (s.groups) { metadata = put metadata.group metadata s.groups.metadata };
}

unfoldable pub store_topic_config : TopicConfiguration → MemoryStorage → MemoryStorage
store_topic_config config s = record s {
  topics = record { configs = put config.topic_name config s.topics.configs };
}

unfoldable pub register_partitions : ℤ → MemoryStorage → MemoryStorage
register_partitions count s = record s {
  status = record (s.status) { not_ready_partition_consumers = count };
}

unfoldable pub mark_partition_ready : ℤ → MemoryStorage → MemoryStorage
mark_partition_ready partition s =
    let left = sub64 s.status.not_ready_partition_consumers (pos 1) in
    record s {
      status = record {
        not_ready_partition_consumers = left;
        offset_topic_consumed = if left == pos 0 then true else s.status.offset_topic_consumed;
      };
    }

-- `fmt.Sprintf("%v:%v:%v", group, topic, partition)`
unfoldable pub offset_key : Bytes → Bytes → ℤ → Bytes
offset_key group topic partition = group ++ (b':' ∷ (topic ++ (b':' ∷ show_int partition)))

abbrev pub commit_count : Option ConsumerPartitionOffsetMetric → ℕ
commit_count none = 0
commit_count (some entry) = entry.total_commit_count

unfoldable pub store_offset_entry : ConsumerPartitionOffset → MemoryStorage → MemoryStorage
store_offset_entry c s =
    let key = offset_key c.group c.topic c.partition in
    let entry : ConsumerPartitionOffsetMetric = record {
      group = c.group;
      topic = c.topic;
      partition = c.partition;
      offset = c.offset;
      timestamp = c.timestamp;
      total_commit_count = increment (commit_count (get key s.groups.offsets));
    } in
    record s { groups = record (s.groups) { offsets = put key entry s.groups.offsets } }

unfoldable pub delete_offset_entry : Bytes → Bytes → ℤ → MemoryStorage → MemoryStorage
delete_offset_entry group topic partition s = record s {
  groups = record (s.groups) {
    offsets = delete (offset_key group topic partition) s.groups.offsets;
  };
}
