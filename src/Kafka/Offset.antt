-- ===== src/Kafka/Offset.antt =====
-- kafka/consumer_partition_offset.go: the decoding of an offset commit. Log calls and the counter of
-- commits by version have no effect on the result and are left out.
pub mod RoundTrip
use kafka_minion.Kafka.Wire.{Buffer, ReadError, read_int16, read_int32, read_int64, read_string}
use kafka_minion.Outcome.{Outcome, ok, err, ◌>>=◌, at_field}
use kafka_minion.Prelude.{Bytes, ◌||◌, ◌==◌, int_eq, if◌then◌else◌}
use kafka_minion.Prelude.Int.{ℤ, pos}

pub record ConsumerPartitionOffset : Type 0 where
  pub group : Bytes
  pub topic : Bytes
  pub partition : ℤ
  pub offset : ℤ
  pub timestamp : ℤ

pub record OffsetValue : Type 0 where
  pub offset : ℤ
  pub timestamp : ℤ

-- The errors that the decoder makes with `fmt.Errorf`, by the field that they name.
pub data OffsetError : Type 0 where
  in_group in_topic in_partition : ReadError → OffsetError
  no_value_version : OffsetError
  unknown_value_version : ℤ → OffsetError
  in_offset in_leader_epoch in_metadata in_timestamp : ReadError → OffsetError

unfoldable pub decode_offset_value_v0 : Buffer → Outcome OffsetError OffsetValue
decode_offset_value_v0 value = do
  (offset, value) ← at_field in_offset (read_int64 value)
  (_, value) ← at_field in_metadata (read_string value)
  (timestamp, value) ← at_field in_timestamp (read_int64 value)
  ok (record { offset = offset; timestamp = timestamp })

unfoldable pub decode_offset_value_v3 : Buffer → Outcome OffsetError OffsetValue
decode_offset_value_v3 value = do
  (offset, value) ← at_field in_offset (read_int64 value)
  (leader_epoch, value) ← at_field in_leader_epoch (read_int32 value)
  (_, value) ← at_field in_metadata (read_string value)
  (timestamp, value) ← at_field in_timestamp (read_int64 value)
  ok (record { offset = offset; timestamp = timestamp })

-- `switch valueVersion`
unfoldable pub decode_offset_value : ℤ → Buffer → Outcome OffsetError OffsetValue
decode_offset_value value_version value =
    if value_version == pos 0 || value_version == pos 1
    then decode_offset_value_v0 value
    else if value_version == pos 3
    then decode_offset_value_v3 value
    else err (unknown_value_version value_version)

unfoldable pub new_consumer_partition_offset :
    Buffer → Buffer → Outcome OffsetError ConsumerPartitionOffset
new_consumer_partition_offset key value = do
  (group, key) ← at_field in_group (read_string key)
  (topic, key) ← at_field in_topic (read_string key)
  (partition, key) ← at_field in_partition (read_int32 key)
  (value_version, value) ← at_field (λ _. no_value_version) (read_int16 value)
  decoded ← decode_offset_value value_version value
  ok (record {
    group = group;
    topic = topic;
    partition = partition;
    offset = decoded.offset;
    timestamp = decoded.timestamp;
  })
