-- ===== src/Kafka/Consumer.antt =====
-- kafka/offset_consumer.go: what the offset consumer sends to the storage for each message of the
-- offsets topic. Log calls and counters are left out, and with them the texts of the errors.
pub mod Messages
pub mod Partition
use kafka_minion.Kafka.Metadata.{new_consumer_group_metadata}
use kafka_minion.Kafka.Offset.{ConsumerPartitionOffset, new_consumer_partition_offset}
use kafka_minion.Kafka.Request.{
  StorageRequest, new_add_consumer_offset_request, new_add_group_metadata,
  new_delete_consumer_group_request,
}
use kafka_minion.Kafka.Topics.{is_topic_allowed}
use kafka_minion.Kafka.Wire.{Buffer, ReadError, read_int16, read_int32, read_string}
use kafka_minion.Options.{Options}
use kafka_minion.Outcome.{Outcome, ok, err, panic, ◌>>=◌}
use kafka_minion.Prelude.{
  Bool, true, false, not, ◌||◌, Bytes, Option, none, some, List, [], ◌∷◌, ◌==◌, int_eq,
  if◌then◌else◌,
}
use kafka_minion.Prelude.Int.{ℤ, pos}

-- The fields of `sarama.ConsumerMessage` that are used.
pub record ConsumerMessage : Type 0 where
  pub topic : Bytes
  pub key : Bytes
  pub value : Bytes
  pub partition : ℤ
  pub offset : ℤ

-- The requests that a call sends to the storage, in order; `none` is a panic.
abbrev pub Sent : Type 0
Sent = Option (List StorageRequest)

-- An error is logged, and nothing is sent.
abbrev pub send_ok : {E A : Type 0} → (A → List StorageRequest) → Outcome E A → Sent
send_ok f (ok a) = some (f a)
send_ok f (err e) = some []
send_ok f panic = none

is_empty : Buffer → Bool
is_empty [] = true
is_empty (_ ∷ _) = false

read_tombstone : Buffer → Outcome ReadError StorageRequest
read_tombstone key = do
  (group, key) ← read_string key
  (topic, key) ← read_string key
  (partition, key) ← read_int32 key
  ok (new_delete_consumer_group_request group topic partition)

unfoldable pub send_offset : Options → ConsumerPartitionOffset → List StorageRequest
send_offset opts offset =
    if not (is_topic_allowed opts offset.topic)
    then []
    else new_add_consumer_offset_request offset ∷ []

unfoldable pub process_offset_commit : Options → Buffer → Buffer → Sent
unfolding is_empty read_tombstone
process_offset_commit opts key value =
    if is_empty value
    then send_ok (λ r. r ∷ []) (read_tombstone key)
    else send_ok (send_offset opts) (new_consumer_partition_offset key value)

-- Not called: its call in `processMessage` is commented out.
unfoldable pub process_group_metadata : Buffer → Buffer → Sent
unfolding is_empty
process_group_metadata key value =
    if is_empty value
    then some []
    else send_ok (λ m. new_add_group_metadata m ∷ []) (new_consumer_group_metadata key value)

-- `switch keyVersion`
process_version : Options → Buffer → Outcome ReadError (ℤ × Buffer) → Sent
process_version opts value (ok (version, key)) =
    if version == pos 0 || version == pos 1 then process_offset_commit opts key value else some []
process_version opts value (err e) = some []
process_version opts value panic = none

unfoldable pub process_message : Options → ConsumerMessage → Sent
unfolding process_version
process_message opts msg = process_version opts msg.value (read_int16 msg.key)
