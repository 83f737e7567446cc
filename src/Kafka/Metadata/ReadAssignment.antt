-- ===== src/Kafka/Metadata/ReadAssignment.antt =====
-- An assignment is read back from its encoding.
use kafka_minion.GoMap.{GoMap, copy_onto, copy}
use kafka_minion.GoMap.Copy.{copy_lem}
use kafka_minion.Kafka.Metadata.Assignment.{
  decode_partitions, decode_topics, decode_member_assignment_v0,
}
use kafka_minion.Kafka.Metadata.Encode.{
  write_partitions, write_topics, write_assignment, TopicFits, AssignmentFits,
}
use kafka_minion.Kafka.Wire.ReadInt.{read_int32-write}
use kafka_minion.Kafka.Wire.ReadString.{read_string-write_string}
use kafka_minion.Outcome.{ok}
use kafka_minion.Prelude.{◌≡◌, refl, ap, Bytes, bytes_eq, List, [], ◌∷◌, All, length}
use kafka_minion.Prelude.Int.{ℤ, pos}
use kafka_minion.Prelude.Words.{Fits, half32}

decode_partitions-write :
    (ids : List ℤ) (rest : Bytes)
    → All (Fits half32) ids
    → decode_partitions (length ids) (write_partitions ids rest) ≡ ok (ids, rest)
unfolding decode_partitions
decode_partitions-write [] rest f = refl
decode_partitions-write (id ∷ ids) rest f =
    rw (read_int32-write id _ f.0, decode_partitions-write ids rest f.1)

decode_topics-write :
    (topics acc : GoMap Bytes (List ℤ)) (rest : Bytes)
    → All TopicFits topics
    → decode_topics (length topics) acc (write_topics topics rest) ≡ ok (copy_onto acc topics, rest)
unfolding decode_topics copy_onto
decode_topics-write [] acc rest f = refl
decode_topics-write ((name, ids) ∷ topics) acc rest f =
    rw
      (
        read_string-write_string name _ f.0.0,
        read_int32-write (pos (length ids)) _ f.0.1,
        decode_partitions-write ids _ f.0.2,
      )
      (decode_topics-write topics _ rest f.1)

-- An assignment of distinct topics is decoded to the same topics with the same partitions, in order;
-- the user data behind it is skipped.
pub decode_assignment-write :
    (topics : GoMap Bytes (List ℤ)) (user_data_len : ℤ) (rest : Bytes)
    → AssignmentFits topics
    → Fits half32 user_data_len
    → decode_member_assignment_v0 (write_assignment topics user_data_len rest) ≡ ok topics
unfolding decode_member_assignment_v0
decode_assignment-write topics user_data_len rest f fu =
    rw
      (
        read_int32-write (pos (length topics)) _ f.count,
        decode_topics-write topics [] _ f.each,
        read_int32-write user_data_len rest fu,
      )
      (ap ok (unfold copy in copy_lem topics f.unique))
