-- ===== src/System.antt =====
-- The offset consumer and the storage together: from the messages of the offsets topic, as a broker
-- writes them, to what the storage shows (kafka/offset_consumer.go and storage/memory.go).
pub mod Readiness
pub mod Scrape
mod Tests
use kafka_minion.GoMap.{get}
use kafka_minion.Kafka.Consumer.{ConsumerMessage, Sent, process_message}
use kafka_minion.Kafka.Consumer.Messages.{
  IsCommitVersion, Encoding, write_value, process_commit, process_tombstone,
}
use kafka_minion.Kafka.Offset.{ConsumerPartitionOffset}
use kafka_minion.Kafka.Offset.RoundTrip.{IsEncodable, write_key}
use kafka_minion.Kafka.Request.{StorageRequest}
use kafka_minion.Kafka.Topics.{is_topic_allowed}
use kafka_minion.Kafka.Wire.Encode.{write_int16, IsShort}
use kafka_minion.Options.{Options}
use kafka_minion.Prelude.{
  ◌≡◌, refl, ap, ◌∙◌, Bool, true, false, Bytes, bytes_eq, Option, none, some, List, [], ◌∷◌, ◌++◌,
  All, if◌then◌else◌, Bool-cases, inl, inr, arith,
}
use kafka_minion.Prelude.Int.{ℤ}
use kafka_minion.Storage.{MemoryStorage, new_memory_storage, offset_key}
use kafka_minion.Storage.Action.{Action, commit, tombstone, request_of, requests_of}
use kafka_minion.Storage.History.{LegalTopic, live, is, entry_of}
use kafka_minion.Storage.History.Shown.{offsets_history}
use kafka_minion.Storage.OffsetKey.{NoColon}
use kafka_minion.Storage.Worker.{consumer_offset_worker}

abbrev join : Sent → Sent → Sent
join none more = none
join (some sent) none = none
join (some sent) (some more) = some (sent ++ more)

-- A partition consumer's messages, one after the other.
unfoldable pub process_messages : Options → List ConsumerMessage → Sent
process_messages opts [] = some []
process_messages opts (m ∷ ms) = join (process_message opts m) (process_messages opts ms)

-- A message about a partition's offset: its key version, the commit or the partition whose offset is
-- deleted, and the bytes that the decoders skip.
pub data Record : Type 0 where
  committed :
      (version : ℤ) (encoding : Encoding) (c : ConsumerPartitionOffset)
      (metadata key_rest rest : Bytes)
      → Record
  deleted : (version : ℤ) (c : ConsumerPartitionOffset) (key_rest : Bytes) → Record

abbrev pub written : Record → ConsumerMessage
written (committed version encoding c metadata key_rest rest) = record {
  topic = [];
  key = write_int16 version ++ write_key c key_rest;
  value = write_value encoding c metadata rest;
  partition = c.partition;
  offset = c.offset;
}
written (deleted version c key_rest) = record {
  topic = [];
  key = write_int16 version ++ write_key c key_rest;
  value = [];
  partition = c.partition;
  offset = c.offset;
}

abbrev pub IsWritable : Record → Type 0
IsWritable (committed version encoding c metadata key_rest rest) =
    IsCommitVersion version × IsEncodable c × IsShort metadata × NoColon c.topic
IsWritable (deleted version c key_rest) = IsCommitVersion version × IsEncodable c × NoColon c.topic

abbrev pub all_written : List Record → List ConsumerMessage
all_written [] = []
all_written (r ∷ rs) = written r ∷ all_written rs

-- What the records say of the allowed topics.
abbrev pub actions_of : Options → List Record → List Action
actions_of opts [] = []
actions_of opts (committed version encoding c metadata key_rest rest ∷ rs) =
    if is_topic_allowed opts c.topic then commit c ∷ actions_of opts rs else actions_of opts rs
actions_of opts (deleted version c key_rest ∷ rs) =
    tombstone c.group c.topic c.partition ∷ actions_of opts rs

processed :
    (opts : Options) (rs : List Record)
    → All IsWritable rs
    → process_messages opts (all_written rs) ≡ some (requests_of (actions_of opts rs))
unfolding process_messages
processed opts [] w = refl
processed opts (committed version encoding c metadata key_rest rest ∷ rs) w =
    let (v, e, f, n) = w.0 in
    rw
      (
        process_commit opts (written (committed version encoding c metadata key_rest rest)) version
            encoding c metadata key_rest rest v e f refl refl,
        processed opts rs w.1,
      )
      (by_topic (is_topic_allowed opts c.topic))
  where
    by_topic :
        (b : Bool)
        → some ((if b then request_of (commit c) ∷ [] else []) ++ requests_of (actions_of opts rs))
          ≡ some (requests_of (if b then commit c ∷ actions_of opts rs else actions_of opts rs))
    by_topic true = refl
    by_topic false = refl
processed opts (deleted version c key_rest ∷ rs) w =
    let (v, e, n) = w.0 in
    rw (
      process_tombstone opts (written (deleted version c key_rest)) version c key_rest v
          e.group_short e.topic_short e.partition_fits refl refl,
      processed opts rs w.1,
    )

legal :
    (opts : Options) (rs : List Record) → All IsWritable rs → All LegalTopic (actions_of opts rs)
legal opts [] w = tt
legal opts (committed version encoding c metadata key_rest rest ∷ rs) w =
    elim (Bool-cases (is_topic_allowed opts c.topic)) [
      | inl allowed ↦ rw allowed (w.0.3, legal opts rs w.1)
      | inr barred ↦ rw barred (legal opts rs w.1)
    ]
legal opts (deleted version c key_rest ∷ rs) w = (w.0.2, legal opts rs w.1)

-- Commits and tombstones, as a broker writes them in the supported versions and with topic names
-- without a colon, are processed without a panic, what they are turned into is handled by the storage
-- without a fault, and the storage then shows for a group, a topic and a partition the last commit
-- behind the last tombstone with the number of commits behind it, which as a float64 stops at 2^53, where
-- only commits of allowed topics count.
pub messages_shown :
    (opts : Options) (g t : Bytes) (p : ℤ) (rs : List Record)
    → NoColon t
    → All IsWritable rs
    → (sent : List StorageRequest) × (s : MemoryStorage) × (process_messages opts (all_written rs)
        ≡ some sent)
      × (consumer_offset_worker sent new_memory_storage ≡ some s)
      × (get (offset_key g t p) s.groups.offsets ≡ entry_of (live (is g t p) (actions_of opts rs)))
messages_shown opts g t p rs n w =
    let (s, run, shown) = offsets_history g t p (actions_of opts rs) n (legal opts rs w) in
    (requests_of (actions_of opts rs), s, processed opts rs w, run, shown)
