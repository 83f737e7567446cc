-- ===== src/Kafka/Metadata/Types.antt =====
-- The structs of kafka/consumer_group_metadata.go, and the errors of its decoders.
use kafka_minion.GoMap.{GoMap}
use kafka_minion.Kafka.Wire.{ReadError}
use kafka_minion.Prelude.{Bytes, List}
use kafka_minion.Prelude.Int.{ℤ}

pub record MetadataHeader : Type 0 where
  pub protocol_type : Bytes
  pub generation : ℤ
  pub protocol : Bytes
  pub leader : Bytes
  pub timestamp : ℤ

pub record MetadataMember : Type 0 where
  pub member_id : Bytes
  pub client_id : Bytes
  pub client_host : Bytes
  pub rebalance_timeout : ℤ
  pub session_timeout : ℤ
  pub assignment : GoMap Bytes (List ℤ)

pub record ConsumerGroupMetadata : Type 0 where
  pub group : Bytes
  pub header : MetadataHeader
  pub members : List MetadataMember

-- The string that `decodeMemberAssignmentV0` returns beside its map, where it is not empty.
pub data AssignmentError : Type 0 where
  assignment_topic_count topic_name assignment_partition_count : AssignmentError
  assignment_partition_id user_bytes : AssignmentError

-- The string that `decodeMetadataMember` returns beside the member, where it is not empty.
pub data MemberError : Type 0 where
  member_id client_id client_host rebalance_timeout session_timeout : MemberError
  subscription_bytes assignment_bytes consumer_protocol_version assignment : MemberError

-- The field of the header or of the message at which the decoding stopped.
pub data HeaderField : Type 0 where
  protocol_type generation protocol leader timestamp member_count : HeaderField

pub data MetadataError : Type 0 where
  in_group no_value_version : ReadError → MetadataError
  unsupported_value_version : MetadataError
  in_header : HeaderField → ReadError → MetadataError
  in_member : MemberError → MetadataError
