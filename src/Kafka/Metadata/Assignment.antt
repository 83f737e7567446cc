-- ===== src/Kafka/Metadata/Assignment.antt =====
-- `decodeMemberAssignmentV0` of kafka/consumer_group_metadata.go. On an error its caller drops the
-- map, so the error alone is returned here.
use kafka_minion.GoMap.{GoMap, put}
use kafka_minion.Kafka.Metadata.Types.{
  AssignmentError, assignment_topic_count, topic_name, assignment_partition_count,
  assignment_partition_id, user_bytes,
}
use kafka_minion.Kafka.Wire.{Buffer, read_int32, read_string}
use kafka_minion.Outcome.{Outcome, ok, panic, ◌>>=◌, at_field}
use kafka_minion.Prelude.{ℕ, zero, suc, Bytes, bytes_eq, List, [], ◌∷◌}
use kafka_minion.Prelude.Int.{ℤ, pos, negsuc, pos_part}

-- The inner loop: `topics[topicName][j] = partitionID` for j below the count.
unfoldable pub decode_partitions : ℕ → Buffer → Outcome AssignmentError (List ℤ × Buffer)
decode_partitions zero buf = ok ([], buf)
decode_partitions (suc n) buf = do
  (id, buf) ← at_field (λ _. assignment_partition_id) (read_int32 buf)
  (ids, buf) ← decode_partitions n buf
  ok (id ∷ ids, buf)

-- `make([]int32, numPartitions)` panics at a negative length.
make_partitions : ℤ → Buffer → Outcome AssignmentError (List ℤ × Buffer)
make_partitions (pos n) buf = decode_partitions n buf
make_partitions (negsuc n) buf = panic

-- The outer loop. A topic that is named again replaces the earlier entry.
unfoldable pub decode_topics :
    ℕ → GoMap Bytes (List ℤ) → Buffer → Outcome AssignmentError (GoMap Bytes (List ℤ) × Buffer)
unfolding make_partitions decode_partitions
decode_topics zero topics buf = ok (topics, buf)
decode_topics (suc n) topics buf = do
  (name, buf) ← at_field (λ _. topic_name) (read_string buf)
  (count, buf) ← at_field (λ _. assignment_partition_count) (read_int32 buf)
  (ids, buf) ← make_partitions count buf
  decode_topics n (put name ids topics) buf

-- A negative topic count runs no round: as a size hint of `make(map…)` it is ignored.
unfoldable pub decode_member_assignment_v0 : Buffer → Outcome AssignmentError (GoMap Bytes (List ℤ))
unfolding decode_topics
decode_member_assignment_v0 buf = do
  (num_topics, buf) ← at_field (λ _. assignment_topic_count) (read_int32 buf)
  (topics, buf) ← decode_topics (pos_part num_topics) [] buf
  (user_data_len, buf) ← at_field (λ _. user_bytes) (read_int32 buf)
  ok topics
