-- ===== src/Kafka/Metadata/ReadMember.antt =====
-- A group member is read back from its encoding, in every version.
use kafka_minion.GoMap.{GoMap}
use kafka_minion.Kafka.Metadata.{
  skip, decode_assignment, read_assignment, read_rebalance_timeout, decode_metadata_member,
}
use kafka_minion.Kafka.Metadata.Encode.{
  write_assignment, write_rebalance, write_member, assignment_data, Extras, MemberFits,
}
use kafka_minion.Kafka.Metadata.ReadAssignment.{decode_assignment-write}
use kafka_minion.Kafka.Metadata.Types.{MetadataMember}
use kafka_minion.Kafka.Wire.Encode.{write_int16, write_int32, length-write_int}
use kafka_minion.Kafka.Wire.ReadInt.{read_int16-write, read_int32-write}
use kafka_minion.Kafka.Wire.ReadString.{read_string-write_string}
use kafka_minion.Outcome.{ok}
use kafka_minion.Prelude.{
  ◌<◌, ◌≡◌, Bytes, bytes_eq, List, ◌++◌, length, length-append, true, Bool-cases, inl, inr,
  take-length-append, drop-length-append, arith,
}
use kafka_minion.Prelude.Int.{ℤ, pos, ltb_ℤ}
use kafka_minion.Prelude.Words.{Fits, half16, half32}

skip-append : (s rest : Bytes) → skip (pos (length s)) (s ++ rest) ≡ rest
unfolding skip
skip-append s rest = drop-length-append s rest

read_rebalance-write :
    (version timeout : ℤ) (rest : Bytes)
    → Fits half32 timeout
    → (ltb_ℤ version (pos 1) ≡ true → timeout ≡ pos 0)
    → read_rebalance_timeout version (write_rebalance version timeout rest) ≡ ok (timeout, rest)
unfolding read_rebalance_timeout
read_rebalance-write version timeout rest f z = elim (Bool-cases (ltb_ℤ version (pos 1))) [
  | inl old ↦ rw (old, z old)
  | inr new ↦ rw (new, read_int32-write timeout rest f)
]

read_assignment-append :
    (topics : GoMap Bytes (List ℤ)) (buf rest : Bytes)
    → 0 < length buf
    → length buf < half32
    → decode_assignment buf ≡ ok topics
    → read_assignment (write_int32 (pos (length buf)) ++ (buf ++ rest)) ≡ ok (topics, rest)
unfolding read_assignment
read_assignment-append topics buf rest p f e =
    let nonempty : ltb_ℤ (pos 0) (pos (length buf)) ≡ true = ground arith in
    rw (
      read_int32-write (pos (length buf)) (buf ++ rest) f,
      nonempty,
      take-length-append buf rest,
      drop-length-append buf rest,
      e,
    )

module _ (version : ℤ) (m : MetadataMember) (x : Extras) (f : MemberFits version m x) where
  decode_assignment_data : decode_assignment (assignment_data m x) ≡ ok m.assignment
  unfolding decode_assignment
  decode_assignment_data = rw (
    read_int16-write x.protocol_version _ f.protocol_fits,
    f.protocol_nonneg,
    decode_assignment-write m.assignment x.user_data_len x.user_data f.assignment_fits
        f.user_data_fits,
  )

  data_nonempty : 0 < length (assignment_data m x)
  data_nonempty = omega (
    arith,
    length-append (write_int16 x.protocol_version)
        (write_assignment m.assignment x.user_data_len x.user_data),
    length-write_int half16 2 x.protocol_version,
  )

  -- A member is decoded to its six fields and takes just its bytes, so that the next member is read
  -- from its own start. Below version 1 it has no rebalance timeout. The subscription and the user
  -- data are skipped.
  pub decode_member-write :
      (rest : Bytes) → decode_metadata_member (write_member version m x rest) version ≡ ok (m, rest)
  unfolding decode_metadata_member
  decode_member-write rest = rw (
    read_string-write_string m.member_id _ f.id_short,
    read_string-write_string m.client_id _ f.client_short,
    read_string-write_string m.client_host _ f.host_short,
    read_rebalance-write version m.rebalance_timeout _ f.rebalance_fits f.rebalance_zero,
    read_int32-write m.session_timeout _ f.session_fits,
    read_int32-write (pos (length x.subscription)) _ f.subscription_fits,
    skip-append x.subscription _,
    read_assignment-append m.assignment (assignment_data m x) rest data_nonempty f.data_fits
        decode_assignment_data,
  )
