-- ===== src/Kafka/Metadata/Encode.antt =====
-- How a broker encodes group metadata: the writers of what the decoders read, each in front of what
-- follows it.
use kafka_minion.GoMap.{GoMap}
use kafka_minion.GoMap.Laws.{IsUnique}
use kafka_minion.Kafka.Metadata.Types.{MetadataHeader, MetadataMember}
use kafka_minion.Kafka.Wire.Encode.{write_int16, write_int32, write_int64, write_string, IsShort}
use kafka_minion.Prelude.{
  ◌<◌, ◌≡◌, Bytes, bytes_eq, List, [], ◌∷◌, ◌++◌, All, length, not, true, false, if◌then◌else◌,
}
use kafka_minion.Prelude.Int.{ℤ, pos, ltb_ℤ}
use kafka_minion.Prelude.Words.{Fits, half16, half32, half64}

abbrev pub write_partitions : List ℤ → Bytes → Bytes
write_partitions [] rest = rest
write_partitions (id ∷ ids) rest = write_int32 id ++ write_partitions ids rest

abbrev pub write_topics : GoMap Bytes (List ℤ) → Bytes → Bytes
write_topics [] rest = rest
write_topics ((name, ids) ∷ topics) rest =
    write_string name
    ++ (write_int32 (pos (length ids)) ++ write_partitions ids (write_topics topics rest))

abbrev pub write_assignment : GoMap Bytes (List ℤ) → ℤ → Bytes → Bytes
write_assignment topics user_data_len rest =
    write_int32 (pos (length topics)) ++ write_topics topics (write_int32 user_data_len ++ rest)

abbrev pub TopicFits : Bytes × List ℤ → Type 0
TopicFits (name, ids) = IsShort name × (length ids < half32) × All (Fits half32) ids

pub record AssignmentFits (topics : GoMap Bytes (List ℤ)) : Type 0 where
  pub count : length topics < half32
  pub each : All TopicFits topics
  pub unique : IsUnique topics

-- What a member's bytes hold beside the fields that the decoder keeps.
pub record Extras : Type 0 where
  pub subscription : Bytes
  pub protocol_version : ℤ
  pub user_data_len : ℤ
  pub user_data : Bytes

abbrev pub assignment_data : MetadataMember → Extras → Bytes
assignment_data m x =
    write_int16 x.protocol_version ++ write_assignment m.assignment x.user_data_len x.user_data

abbrev pub write_rebalance : ℤ → ℤ → Bytes → Bytes
write_rebalance version timeout rest =
    if not (ltb_ℤ version (pos 1)) then write_int32 timeout ++ rest else rest

abbrev pub write_member : ℤ → MetadataMember → Extras → Bytes → Bytes
write_member version m x rest =
    write_string m.member_id
    ++ (write_string m.client_id
        ++ (write_string m.client_host
            ++ write_rebalance version m.rebalance_timeout (
                write_int32 m.session_timeout
                ++ (write_int32 (pos (length x.subscription))
                    ++ (x.subscription
                        ++ (write_int32 (pos (length (assignment_data m x)))
                            ++ (assignment_data m x ++ rest)))))))

pub record MemberFits (version : ℤ) (m : MetadataMember) (x : Extras) : Type 0 where
  pub id_short : IsShort m.member_id
  pub client_short : IsShort m.client_id
  pub host_short : IsShort m.client_host
  pub rebalance_fits : Fits half32 m.rebalance_timeout
  -- below version 1 the timeout is not on the wire
  pub rebalance_zero : ltb_ℤ version (pos 1) ≡ true → m.rebalance_timeout ≡ pos 0
  pub session_fits : Fits half32 m.session_timeout
  pub subscription_fits : length x.subscription < half32
  pub protocol_fits : Fits half16 x.protocol_version
  pub protocol_nonneg : ltb_ℤ x.protocol_version (pos 0) ≡ false
  pub user_data_fits : Fits half32 x.user_data_len
  pub data_fits : length (assignment_data m x) < half32
  pub assignment_fits : AssignmentFits m.assignment

abbrev pub write_members : ℤ → List (MetadataMember × Extras) → Bytes → Bytes
write_members version [] rest = rest
write_members version ((m, x) ∷ ms) rest = write_member version m x (write_members version ms rest)

abbrev pub members_of : List (MetadataMember × Extras) → List MetadataMember
members_of [] = []
members_of ((m, x) ∷ ms) = m ∷ members_of ms

abbrev pub write_timestamp : ℤ → ℤ → Bytes → Bytes
write_timestamp version time rest =
    if not (ltb_ℤ version (pos 2)) then write_int64 time ++ rest else rest

-- The value of a metadata message, behind its version.
abbrev pub write_group : ℤ → MetadataHeader → List (MetadataMember × Extras) → Bytes → Bytes
write_group version h ms rest =
    write_string h.protocol_type
    ++ (write_int32 h.generation
        ++ (write_string h.protocol
            ++ (write_string h.leader
                ++ write_timestamp version h.timestamp
                    (write_int32 (pos (length ms)) ++ write_members version ms rest))))

abbrev pub EachFits : ℤ → List (MetadataMember × Extras) → Type 0
EachFits version [] = Unit
EachFits version ((m, x) ∷ ms) = MemberFits version m x × EachFits version ms

pub record GroupFits (version : ℤ) (h : MetadataHeader) (ms : List (MetadataMember × Extras))
    : Type 0 where
  pub kind_short : IsShort h.protocol_type
  pub generation_fits : Fits half32 h.generation
  pub protocol_short : IsShort h.protocol
  pub leader_short : IsShort h.leader
  pub timestamp_fits : Fits half64 h.timestamp
  -- below version 2 the timestamp is not on the wire
  pub timestamp_zero : ltb_ℤ version (pos 2) ≡ true → h.timestamp ≡ pos 0
  pub count_fits : length ms < half32
  pub each : EachFits version ms
