-- ===== src/Kafka/Metadata/ReadGroup.antt =====
-- Group metadata is read back from its encoding, in the versions 0, 1 and 2.
use kafka_minion.Kafka.Metadata.{
  decode_members, read_timestamp, decode_group_metadata, new_consumer_group_metadata,
}
use kafka_minion.Kafka.Metadata.Encode.{
  write_members, members_of, write_timestamp, write_group, Extras, EachFits, GroupFits,
}
use kafka_minion.Kafka.Metadata.ReadMember.{decode_member-write}
use kafka_minion.Kafka.Metadata.Types.{MetadataHeader, MetadataMember}
use kafka_minion.Kafka.Wire.Encode.{write_int16, write_string, IsShort}
use kafka_minion.Kafka.Wire.ReadInt.{read_int16-write, read_int32-write, read_int64-write}
use kafka_minion.Kafka.Wire.ReadString.{read_string-write_string}
use kafka_minion.Outcome.{ok}
use kafka_minion.Prelude.{
  ◌≡◌, ◌⊎◌, refl, Bytes, List, [], ◌∷◌, ◌++◌, length, true, Bool-cases, inl, inr, arith,
}
use kafka_minion.Prelude.Int.{ℤ, pos, ltb_ℤ}
use kafka_minion.Prelude.Words.{Fits, half64}

decode_members-write :
    (version : ℤ) (ms : List (MetadataMember × Extras)) (rest : Bytes)
    → EachFits version ms
    → decode_members (length ms) (write_members version ms rest) version ≡ ok (members_of ms)
unfolding decode_members
decode_members-write version [] rest f = refl
decode_members-write version ((m, x) ∷ ms) rest f = rw (
  decode_member-write version m x f.0 (write_members version ms rest),
  decode_members-write version ms rest f.1,
)

read_timestamp-write :
    (version time : ℤ) (rest : Bytes)
    → Fits half64 time
    → (ltb_ℤ version (pos 2) ≡ true → time ≡ pos 0)
    → read_timestamp version (write_timestamp version time rest) ≡ ok (time, rest)
unfolding read_timestamp
read_timestamp-write version time rest f z = elim (Bool-cases (ltb_ℤ version (pos 2))) [
  | inl old ↦ rw (old, z old)
  | inr new ↦ rw (new, read_int64-write time rest f)
]

decode_group-write :
    (version : ℤ) (group : Bytes) (h : MetadataHeader) (ms : List (MetadataMember × Extras))
    (rest : Bytes)
    → GroupFits version h ms
    → decode_group_metadata version group (write_group version h ms rest)
      ≡ ok (record { group = group; header = h; members = members_of ms })
unfolding decode_group_metadata
decode_group-write version group h ms rest f = rw (
  read_string-write_string h.protocol_type _ f.kind_short,
  read_int32-write h.generation _ f.generation_fits,
  read_string-write_string h.protocol _ f.protocol_short,
  read_string-write_string h.leader _ f.leader_short,
  read_timestamp-write version h.timestamp _ f.timestamp_fits f.timestamp_zero,
  read_int32-write (pos (length ms)) _ f.count_fits,
  decode_members-write version ms rest f.each,
)

-- A metadata message in the value versions 0, 1 and 2 is decoded to its group, its header and its
-- members, in order. The header has a timestamp from version 2 on, a member its rebalance timeout
-- from version 1 on. The message holds no null strings and no empty assignment.
pub decode_metadata-write :
    (version : ℤ) (group : Bytes) (h : MetadataHeader) (ms : List (MetadataMember × Extras))
    (key_rest rest : Bytes)
    → IsShort group
    → GroupFits version h ms
    → (version ≡ pos 0) ⊎ (version ≡ pos 1) ⊎ (version ≡ pos 2)
    → new_consumer_group_metadata
        (write_string group ++ key_rest)
        (write_int16 version ++ write_group version h ms rest)
      ≡ ok (record { group = group; header = h; members = members_of ms })
unfolding new_consumer_group_metadata
decode_metadata-write version group h ms key_rest rest fg f v =
    rw
      (
        read_string-write_string group key_rest fg,
        read_int16-write version (write_group version h ms rest) (ground arith),
        ← decode_group-write version group h ms rest f,
      )
      (ground arith)
