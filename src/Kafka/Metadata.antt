-- ===== src/Kafka/Metadata.antt =====
-- kafka/consumer_group_metadata.go: the decoding of group metadata. Log calls and the counter of
-- messages by version are left out.
pub mod Types
pub mod Assignment
pub mod Encode
pub mod ReadAssignment
pub mod ReadMember
pub mod ReadGroup
use kafka_minion.GoMap.{GoMap}
use kafka_minion.Kafka.Metadata.Types.{
  MetadataHeader, MetadataMember, ConsumerGroupMetadata, MemberError, member_id, client_id,
  client_host, rebalance_timeout, session_timeout, subscription_bytes, assignment_bytes,
  consumer_protocol_version, assignment, MetadataError, in_group, no_value_version, in_header,
  in_member, unsupported_value_version, protocol_type, generation, protocol, leader, timestamp,
  member_count,
}
use kafka_minion.Kafka.Metadata.Assignment.{decode_member_assignment_v0}
use kafka_minion.Kafka.Wire.{
  Buffer, ReadError, read_int16, read_int32, read_int64, read_string, next,
}
use kafka_minion.Outcome.{Outcome, ok, err, ◌>>=◌, at_field}
use kafka_minion.Prelude.{
  ℕ, zero, suc, Bytes, List, [], ◌∷◌, not, ◌||◌, ◌==◌, int_eq, if◌then◌else◌,
}
use kafka_minion.Prelude.Int.{ℤ, pos, negsuc, pos_part, ltb_ℤ}

-- `if n > 0 { buf.Next(n) }`
unfoldable pub skip : ℤ → Buffer → Buffer
skip n buf = (next (pos_part n) buf).1

-- The body of `if assignmentBytes > 0`: the assignment stands in a buffer of its own.
decode_assignment : Buffer → Outcome MemberError (GoMap Bytes (List ℤ))
decode_assignment buf = do
  (version, buf) ← at_field (λ _. consumer_protocol_version) (read_int16 buf)
  if ltb_ℤ version (pos 0)
      then err consumer_protocol_version
      else at_field (λ _. assignment) (decode_member_assignment_v0 buf)

-- A member with no assignment bytes keeps the zero value of the map, which is nil.
read_assignment : Buffer → Outcome MemberError (GoMap Bytes (List ℤ) × Buffer)
unfolding decode_assignment
read_assignment buf = do
  (size, buf) ← at_field (λ _. assignment_bytes) (read_int32 buf)
  if ltb_ℤ (pos 0) size
      then (do
        topics ← decode_assignment (next (pos_part size) buf).0
        ok (topics, (next (pos_part size) buf).1))
      else ok ([], buf)

-- Versions 1 and up have a rebalance timeout; without one the field keeps its zero value.
read_rebalance_timeout : ℤ → Buffer → Outcome MemberError (ℤ × Buffer)
read_rebalance_timeout version buf =
    if not (ltb_ℤ version (pos 1))
    then at_field (λ _. rebalance_timeout) (read_int32 buf)
    else ok (pos 0, buf)

unfoldable pub decode_metadata_member : Buffer → ℤ → Outcome MemberError (MetadataMember × Buffer)
unfolding read_rebalance_timeout read_assignment skip
decode_metadata_member buf version = do
  (id, buf) ← at_field (λ _. member_id) (read_string buf)
  (client, buf) ← at_field (λ _. client_id) (read_string buf)
  (host, buf) ← at_field (λ _. client_host) (read_string buf)
  (rebalance, buf) ← read_rebalance_timeout version buf
  (session, buf) ← at_field (λ _. session_timeout) (read_int32 buf)
  (subscription, buf) ← at_field (λ _. subscription_bytes) (read_int32 buf)
  (topics, buf) ← read_assignment (skip subscription buf)
  ok (
    record {
      member_id = id;
      client_id = client;
      client_host = host;
      rebalance_timeout = rebalance;
      session_timeout = session;
      assignment = topics;
    },
    buf,
  )

-- `for i := 0; i < int(memberCount); i++`
decode_members : ℕ → Buffer → ℤ → Outcome MetadataError (List MetadataMember)
decode_members zero buf version = ok []
decode_members (suc n) buf version = do
  (member, buf) ← at_field in_member (decode_metadata_member buf version)
  members ← decode_members n buf version
  ok (member ∷ members)

-- Version 2 has a timestamp in the header; without one the field keeps its zero value.
read_timestamp : ℤ → Buffer → Outcome MetadataError (ℤ × Buffer)
read_timestamp version buf =
    if not (ltb_ℤ version (pos 2))
    then at_field (in_header timestamp) (read_int64 buf)
    else ok (pos 0, buf)

unfoldable pub decode_group_metadata :
    ℤ → Bytes → Buffer → Outcome MetadataError ConsumerGroupMetadata
unfolding decode_members read_timestamp
decode_group_metadata version group buf = do
  (kind, buf) ← at_field (in_header protocol_type) (read_string buf)
  (gen, buf) ← at_field (in_header generation) (read_int32 buf)
  (name, buf) ← at_field (in_header protocol) (read_string buf)
  (lead, buf) ← at_field (in_header leader) (read_string buf)
  (time, buf) ← read_timestamp version buf
  (count, buf) ← at_field (in_header member_count) (read_int32 buf)
  members ← decode_members (pos_part count) buf version
  ok (record {
    group = group;
    header = record {
      protocol_type = kind;
      generation = gen;
      protocol = name;
      leader = lead;
      timestamp = time;
    };
    members = members;
  })

unfoldable pub new_consumer_group_metadata :
    Buffer → Buffer → Outcome MetadataError ConsumerGroupMetadata
new_consumer_group_metadata key value = do
  (group, key) ← at_field in_group (read_string key)
  (version, value) ← at_field no_value_version (read_int16 value)
  if version == pos 0 || version == pos 1 || version == pos 2
      then decode_group_metadata version group value
      else err unsupported_value_version
