-- ===== src/Kafka/Consumer/Messages.antt =====
-- What each kind of message makes the consumer send.
use kafka_minion.Kafka.Consumer.{
  ConsumerMessage, is_empty, read_tombstone, send_offset, process_offset_commit, process_message,
}
use kafka_minion.Kafka.Offset.{ConsumerPartitionOffset, new_consumer_partition_offset}
use kafka_minion.Kafka.Offset.RoundTrip.{
  IsEncodable, write_key, write_value_v0, write_value_v3, value_of, decode_commit_v0,
  decode_commit_v3,
}
use kafka_minion.Kafka.Request.{new_add_consumer_offset_request, new_delete_consumer_group_request}
use kafka_minion.Kafka.Topics.{is_topic_allowed}
use kafka_minion.Kafka.Wire.Encode.{write_int16, length-write_int, IsShort}
use kafka_minion.Kafka.Wire.ReadInt.{read_int16-write, read_int32-write}
use kafka_minion.Kafka.Wire.ReadString.{read_string-write_string}
use kafka_minion.Options.{Options}
use kafka_minion.Outcome.{ok}
use kafka_minion.Prelude.{
  ◌<◌, ◌≡◌, ◌≢◌, ◌⊎◌, refl, ◌∙◌, ◌||◌, Bool, true, false, not, Bytes, some, [], ◌∷◌, ◌++◌, ◌==◌,
  int_eq, if◌then◌else◌, length, length-append, arith,
}
use kafka_minion.Prelude.Int.{ℤ, pos}
use kafka_minion.Prelude.Words.{Fits, half16, half32}

-- The key versions of offset commits.
abbrev pub IsCommitVersion : ℤ → Type 0
IsCommitVersion v = (v ≡ pos 0) ⊎ (v ≡ pos 1)

-- How the value of a commit is encoded: the versions that the decoder supports.
pub data Encoding : Type 0 where
  v0 : (version : ℤ) → IsCommitVersion version → Encoding
  v3 : (epoch : ℤ) → Fits half32 epoch → Encoding

abbrev pub write_value : Encoding → ConsumerPartitionOffset → Bytes → Bytes → Bytes
write_value (v0 version h) c metadata rest =
    write_int16 version ++ write_value_v0 (value_of c) metadata rest
write_value (v3 epoch h) c metadata rest =
    write_int16 (pos 3) ++ write_value_v3 (value_of c) epoch metadata rest

decode_commit :
    (enc : Encoding) (c : ConsumerPartitionOffset) (metadata key_rest rest : Bytes)
    → IsEncodable c
    → IsShort metadata
    → new_consumer_partition_offset (write_key c key_rest) (write_value enc c metadata rest) ≡ ok c
decode_commit (v0 version h) c metadata key_rest rest e f =
    decode_commit_v0 c version metadata key_rest rest e f h
decode_commit (v3 epoch h) c metadata key_rest rest e f =
    decode_commit_v3 c epoch metadata key_rest rest e f h

is_empty-long : (buf : Bytes) → 0 < length buf → is_empty buf ≡ false
unfolding is_empty
is_empty-long [] h = absurd (omega arith)
is_empty-long (x ∷ buf) h = refl

is_empty-write_int16 : (z : ℤ) (rest : Bytes) → is_empty (write_int16 z ++ rest) ≡ false
is_empty-write_int16 z rest =
    is_empty-long (write_int16 z ++ rest)
      (omega (arith, length-append (write_int16 z) rest, length-write_int half16 2 z))

is_empty-write_value :
    (enc : Encoding) (c : ConsumerPartitionOffset) (metadata rest : Bytes)
    → is_empty (write_value enc c metadata rest) ≡ false
is_empty-write_value (v0 version h) c metadata rest = is_empty-write_int16 version _
is_empty-write_value (v3 epoch h) c metadata rest = is_empty-write_int16 (pos 3) _

commit_version-Fits : (v : ℤ) → IsCommitVersion v → Fits half16 v
commit_version-Fits v h = ground arith

commit_version-test : (v : ℤ) → IsCommitVersion v → (v == pos 0 || v == pos 1) ≡ true
commit_version-test v h = ground arith

process_version_commit :
    (opts : Options) (msg : ConsumerMessage) (version : ℤ) (key : Bytes)
    → IsCommitVersion version
    → msg.key ≡ write_int16 version ++ key
    → process_message opts msg ≡ process_offset_commit opts key msg.value
unfolding process_message
process_version_commit opts msg version key v e =
    rw (
      e,
      read_int16-write version key (commit_version-Fits version v),
      commit_version-test version v,
    )

-- A commit message, in the key versions 0 and 1 and the value versions 0, 1 and 3, is sent to the
-- storage with its five fields if its topic is allowed; and else nothing is sent.
pub process_commit :
    (opts : Options) (msg : ConsumerMessage) (version : ℤ) (enc : Encoding)
    (c : ConsumerPartitionOffset) (metadata key_rest rest : Bytes)
    → IsCommitVersion version
    → IsEncodable c
    → IsShort metadata
    → msg.key ≡ write_int16 version ++ write_key c key_rest
    → msg.value ≡ write_value enc c metadata rest
    → process_message opts msg
      ≡ some (if is_topic_allowed opts c.topic then new_add_consumer_offset_request c ∷ [] else [])
process_commit opts msg version enc c metadata key_rest rest v e f k w =
    process_version_commit opts msg version _ v k
    ∙ unfold process_offset_commit send_offset in
      rw
        (
          w,
          is_empty-write_value enc c metadata rest,
          decode_commit enc c metadata key_rest rest e f,
        )
        (swap_branches (is_topic_allowed opts c.topic))
  where
    swap_branches :
        (b : Bool)
        → some (if not b then [] else new_add_consumer_offset_request c ∷ [])
          ≡ some (if b then new_add_consumer_offset_request c ∷ [] else [])
    swap_branches true = refl
    swap_branches false = refl

-- A tombstone, which is a commit key with an empty value, is sent as a deletion of its group, topic
-- and partition. Whether the topic is allowed plays no part.
pub process_tombstone :
    (opts : Options) (msg : ConsumerMessage) (version : ℤ) (c : ConsumerPartitionOffset)
    (key_rest : Bytes)
    → IsCommitVersion version
    → IsShort c.group
    → IsShort c.topic
    → Fits half32 c.partition
    → msg.key ≡ write_int16 version ++ write_key c key_rest
    → msg.value ≡ []
    → process_message opts msg
      ≡ some (new_delete_consumer_group_request c.group c.topic c.partition ∷ [])
process_tombstone opts msg version c key_rest v fg ft fp k w =
    process_version_commit opts msg version _ v k
    ∙ unfold process_offset_commit read_tombstone in
      rw (
        w,
        read_string-write_string c.group _ fg,
        read_string-write_string c.topic _ ft,
        read_int32-write c.partition key_rest fp,
      )

-- A message of any other key version, group metadata (version 2) among them, sends nothing.
pub process_other :
    (opts : Options) (msg : ConsumerMessage) (version : ℤ) (key : Bytes)
    → Fits half16 version
    → version ≢ pos 0
    → version ≢ pos 1
    → msg.key ≡ write_int16 version ++ key
    → process_message opts msg ≡ some []
unfolding process_message
process_other opts msg version key f n0 n1 e =
    let test : (version == pos 0 || version == pos 1) ≡ false = ground arith in
    rw (e, read_int16-write version key f, test)
