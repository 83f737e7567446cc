-- ===== src/Kafka/Request.antt =====
-- kafka/storage_request.go: the messages that the kafka package sends to the storage, and the two
-- structs of kafka/cluster.go that they carry.
use kafka_minion.Kafka.Metadata.Types.{ConsumerGroupMetadata}
use kafka_minion.Kafka.Offset.{ConsumerPartitionOffset}
use kafka_minion.Prelude.{Bytes, [], Option, none, some}
use kafka_minion.Prelude.Int.{ℤ, pos}

pub record PartitionWaterMark : Type 0 where
  pub topic_name : Bytes
  pub partition_id : ℤ
  pub water_mark : ℤ
  pub timestamp : ℤ

pub record TopicConfiguration : Type 0 where
  pub topic_name : Bytes
  pub partition_count : ℤ
  pub cleanup_policy : Bytes

pub data StorageRequestType : Type 0 where
  add_partition_high_water_mark add_partition_low_water_mark : StorageRequestType
  add_consumer_offset add_group_metadata add_topic_configuration : StorageRequestType
  delete_consumer_group register_offset_partitions : StorageRequestType
  mark_offset_partition_ready delete_group_metadata delete_topic : StorageRequestType

-- A pointer is an option, and a field that a constructor leaves out has its zero value.
pub record StorageRequest : Type 0 where
  pub request_type : StorageRequestType
  pub consumer_offset : Option ConsumerPartitionOffset
  pub partition_water_mark : Option PartitionWaterMark
  pub topic_config : Option TopicConfiguration
  pub group_metadata : Option ConsumerGroupMetadata
  pub consumer_group_name : Bytes
  pub topic_name : Bytes
  pub partition_id : ℤ
  pub partition_count : ℤ

-- `&StorageRequest{RequestType: …}`
abbrev pub zero_request : StorageRequestType → StorageRequest
zero_request t = record {
  request_type = t;
  consumer_offset = none;
  partition_water_mark = none;
  topic_config = none;
  group_metadata = none;
  consumer_group_name = [];
  topic_name = [];
  partition_id = pos 0;
  partition_count = pos 0;
}

unfoldable pub new_add_partition_low_water_mark_request : PartitionWaterMark → StorageRequest
new_add_partition_low_water_mark_request mark = record (zero_request add_partition_low_water_mark) {
  partition_water_mark = some mark;
}

unfoldable pub new_add_partition_high_water_mark_request : PartitionWaterMark → StorageRequest
new_add_partition_high_water_mark_request mark =
    record (zero_request add_partition_high_water_mark) { partition_water_mark = some mark }

unfoldable pub new_add_consumer_offset_request : ConsumerPartitionOffset → StorageRequest
new_add_consumer_offset_request offset = record (zero_request add_consumer_offset) {
  consumer_offset = some offset;
}

unfoldable pub new_add_group_metadata : ConsumerGroupMetadata → StorageRequest
new_add_group_metadata metadata = record (zero_request add_group_metadata) {
  group_metadata = some metadata;
}

unfoldable pub new_add_topic_config : TopicConfiguration → StorageRequest
new_add_topic_config config = record (zero_request add_topic_configuration) {
  topic_config = some config;
}

unfoldable pub new_delete_consumer_group_request : Bytes → Bytes → ℤ → StorageRequest
new_delete_consumer_group_request group topic partition =
    record (zero_request delete_consumer_group) {
      consumer_group_name = group;
      topic_name = topic;
      partition_id = partition;
    }

unfoldable pub new_register_offset_partitions_request : ℤ → StorageRequest
new_register_offset_partitions_request count = record (zero_request register_offset_partitions) {
  partition_count = count;
}

unfoldable pub new_mark_offset_partition_ready_request : ℤ → StorageRequest
new_mark_offset_partition_ready_request partition =
    record (zero_request mark_offset_partition_ready) { partition_id = partition }

unfoldable pub new_delete_group_metadata_request : Bytes → StorageRequest
new_delete_group_metadata_request group = record (zero_request delete_group_metadata) {
  consumer_group_name = group;
}

unfoldable pub new_delete_topic_request : Bytes → StorageRequest
new_delete_topic_request topic = record (zero_request delete_topic) { topic_name = topic }
