-- ===== src/Kafka/Offset/RoundTrip.antt =====
-- A commit that a broker encodes is decoded to the commit.
use kafka_minion.Kafka.Offset.{
  ConsumerPartitionOffset, OffsetValue, unknown_value_version, decode_offset_value_v0,
  decode_offset_value_v3, decode_offset_value, new_consumer_partition_offset,
}
use kafka_minion.Kafka.Wire.Encode.{write_int16, write_int32, write_int64, write_string, IsShort}
use kafka_minion.Kafka.Wire.ReadInt.{read_int16-write, read_int32-write, read_int64-write}
use kafka_minion.Kafka.Wire.ReadString.{read_string-write_string}
use kafka_minion.Outcome.{ok, err, ◌>>=◌}
use kafka_minion.Prelude.{◌≡◌, ◌≢◌, ◌⊎◌, Bytes, ◌++◌, arith}
use kafka_minion.Prelude.Int.{ℤ, pos}
use kafka_minion.Prelude.Words.{Fits, half16, half32, half64}

-- The key of a commit message behind its key version.
abbrev pub write_key : ConsumerPartitionOffset → Bytes → Bytes
write_key c rest =
    write_string c.group ++ (write_string c.topic ++ (write_int32 c.partition ++ rest))

-- The value of a commit message in the versions 0 and 1, with what may follow the timestamp.
abbrev pub write_value_v0 : OffsetValue → Bytes → Bytes → Bytes
write_value_v0 v metadata rest =
    write_int64 v.offset ++ (write_string metadata ++ (write_int64 v.timestamp ++ rest))

-- Version 3 has the leader epoch between the offset and the metadata.
abbrev pub write_value_v3 : OffsetValue → ℤ → Bytes → Bytes → Bytes
write_value_v3 v epoch metadata rest =
    write_int64 v.offset
    ++ (write_int32 epoch ++ (write_string metadata ++ (write_int64 v.timestamp ++ rest)))

-- The fields of a commit lie in the ranges of their Go types, and its names fit an int16 length.
pub record IsEncodable (c : ConsumerPartitionOffset) : Type 0 where
  pub group_short : IsShort c.group
  pub topic_short : IsShort c.topic
  pub partition_fits : Fits half32 c.partition
  pub offset_fits : Fits half64 c.offset
  pub timestamp_fits : Fits half64 c.timestamp

abbrev pub value_of : ConsumerPartitionOffset → OffsetValue
value_of c = record { offset = c.offset; timestamp = c.timestamp }

decode_v0-write :
    (v : OffsetValue) (metadata rest : Bytes)
    → Fits half64 v.offset
    → Fits half64 v.timestamp
    → IsShort metadata
    → decode_offset_value_v0 (write_value_v0 v metadata rest) ≡ ok v
unfolding decode_offset_value_v0
decode_v0-write v metadata rest fo ft fm = rw (
  read_int64-write v.offset _ fo,
  read_string-write_string metadata _ fm,
  read_int64-write v.timestamp rest ft,
)

decode_v3-write :
    (v : OffsetValue) (epoch : ℤ) (metadata rest : Bytes)
    → Fits half64 v.offset
    → Fits half64 v.timestamp
    → Fits half32 epoch
    → IsShort metadata
    → decode_offset_value_v3 (write_value_v3 v epoch metadata rest) ≡ ok v
unfolding decode_offset_value_v3
decode_v3-write v epoch metadata rest fo ft fe fm = rw (
  read_int64-write v.offset _ fo,
  read_int32-write epoch _ fe,
  read_string-write_string metadata _ fm,
  read_int64-write v.timestamp rest ft,
)

-- A well-formed key and a value version leave the value to the decoder of that version.
pub new-write :
    (c : ConsumerPartitionOffset) (version : ℤ) (rest value : Bytes)
    → IsEncodable c
    → Fits half16 version
    → new_consumer_partition_offset (write_key c rest) (write_int16 version ++ value) ≡ (
        decode_offset_value version value >>= λ d.
        ok (record c { offset = d.offset; timestamp = d.timestamp }))
unfolding new_consumer_partition_offset
new-write c version rest value e fv = rw (
  read_string-write_string c.group _ e.group_short,
  read_string-write_string c.topic _ e.topic_short,
  read_int32-write c.partition rest e.partition_fits,
  read_int16-write version value fv,
)

-- A commit in the value versions 0 and 1 is decoded to its five fields, whatever the metadata and
-- whatever bytes follow the key and the value (such as the expiry of version 1).
pub decode_commit_v0 :
    (c : ConsumerPartitionOffset) (version : ℤ) (metadata key_rest rest : Bytes)
    → IsEncodable c
    → IsShort metadata
    → (version ≡ pos 0) ⊎ (version ≡ pos 1)
    → new_consumer_partition_offset
        (write_key c key_rest)
        (write_int16 version ++ write_value_v0 (value_of c) metadata rest)
      ≡ ok c
unfolding decode_offset_value
decode_commit_v0 c version metadata key_rest rest e fm v = rw (
  new-write c version key_rest _ e (ground arith),
  decode_version (value_of c) version metadata rest v,
  decode_v0-write (value_of c) metadata rest e.offset_fits e.timestamp_fits fm,
)
  where
    decode_version :
        (w : OffsetValue) (version : ℤ) (metadata rest : Bytes)
        → (version ≡ pos 0) ⊎ (version ≡ pos 1)
        → decode_offset_value version (write_value_v0 w metadata rest)
          ≡ decode_offset_value_v0 (write_value_v0 w metadata rest)
    decode_version w version metadata rest h = ground arith

-- A commit in the value version 3 is decoded to its five fields; the leader epoch is skipped.
pub decode_commit_v3 :
    (c : ConsumerPartitionOffset) (epoch : ℤ) (metadata key_rest rest : Bytes)
    → IsEncodable c
    → IsShort metadata
    → Fits half32 epoch
    → new_consumer_partition_offset
        (write_key c key_rest)
        (write_int16 (pos 3) ++ write_value_v3 (value_of c) epoch metadata rest)
      ≡ ok c
unfolding decode_offset_value
decode_commit_v3 c epoch metadata key_rest rest e fm fe = rw (
  new-write c (pos 3) key_rest _ e (omega arith),
  decode_v3-write (value_of c) epoch metadata rest e.offset_fits e.timestamp_fits fe fm,
)

-- A commit with a well-formed key in any other value version is refused, and the error names the
-- version.
pub decode_commit_unknown :
    (c : ConsumerPartitionOffset) (version : ℤ) (key_rest value : Bytes)
    → IsEncodable c
    → Fits half16 version
    → version ≢ pos 0
    → version ≢ pos 1
    → version ≢ pos 3
    → new_consumer_partition_offset (write_key c key_rest) (write_int16 version ++ value)
      ≡ err (unknown_value_version version)
unfolding decode_offset_value
decode_commit_unknown c version key_rest value e fv n0 n1 n3 =
    rw (new-write c version key_rest value e fv) (ground arith)
