-- ===== src/Kafka/Cluster/WaterMarks.antt =====
-- `processHighWaterMarks` and `processLowWaterMarks` of kafka/cluster.go, on a response of a broker.
-- `none` is the panic of `Offsets[0]` on an empty slice.
use kafka_minion.GoMap.{GoMap, put}
use kafka_minion.Kafka.Cluster.{OffsetResponse}
use kafka_minion.Kafka.Request.{
  PartitionWaterMark, StorageRequest, new_add_partition_high_water_mark_request,
  new_add_partition_low_water_mark_request,
}
use kafka_minion.Kafka.Topics.{is_topic_allowed}
use kafka_minion.Options.{Options}
use kafka_minion.Prelude.{
  Bool, true, not, Bytes, bytes_eq, int_eq, Option, none, some, List, [], ◌∷◌, ◌++◌, ◌==◌,
  if◌then◌else◌,
}
use kafka_minion.Prelude.Int.{ℤ}

pub record ConsumerOffsetPartition : Type 0 where
  pub partition_id : ℤ
  pub high_water_mark : ℤ

-- `offsetWaterMarks.PartitionsByID`
abbrev pub OffsetMarks : Type 0
OffsetMarks = GoMap ℤ ConsumerOffsetPartition

-- `response.Blocks`
abbrev pub Blocks : Type 0
Blocks = GoMap Bytes (GoMap ℤ OffsetResponse)

-- The marks of the offsets topic, and what has been sent to the storage.
abbrev pub Sending : Type 0
Sending = OffsetMarks × List StorageRequest

module _ (opts : Options) (ts : ℤ) where
  abbrev pub mark_of : Bytes → ℤ → ℤ → PartitionWaterMark
  mark_of topic partition offset = record {
    topic_name = topic;
    partition_id = partition;
    water_mark = offset;
    timestamp = ts;
  }

  -- The body of the inner loop on a response with the offset `Offsets[0]`.
  unfoldable pub store_high : Bytes → ℤ → ℤ → Sending → Sending
  store_high topic partition offset (marks, sent) = (
    if topic == opts.consumer_offsets_topic_name
        then put partition (record { partition_id = partition; high_water_mark = offset }) marks
        else marks,
    if not (is_topic_allowed opts topic)
        then sent
        else sent
          ++ new_add_partition_high_water_mark_request (mark_of topic partition offset) ∷ [],
  )

  -- Whether the body reads `Offsets[0]` at all.
  abbrev pub reads_offset : Bytes → Bool
  reads_offset topic =
      if topic == opts.consumer_offsets_topic_name then true else is_topic_allowed opts topic

  unfoldable pub high_response : Bytes → ℤ → OffsetResponse → List ℤ → Sending → Option Sending
  unfolding store_high
  high_response topic partition response (offset ∷ _) s =
      some (if not response.no_error then s else store_high topic partition offset s)
  high_response topic partition response [] s =
      if not response.no_error then some s else if reads_offset topic then none else some s

  abbrev pub ◌then◌ : Option Sending → (Sending → Option Sending) → Option Sending
  ◌then◌ none f = none
  ◌then◌ (some s) f = f s

  unfoldable pub high_partitions : Bytes → GoMap ℤ OffsetResponse → Sending → Option Sending
  unfolding high_response
  high_partitions topic [] s = some s
  high_partitions topic ((partition, response) ∷ rest) s =
      ◌then◌ (high_response topic partition response response.offsets s)
        (high_partitions topic rest)

  unfoldable pub high_topics : Blocks → Sending → Option Sending
  unfolding high_partitions
  high_topics [] s = some s
  high_topics ((topic, responses) ∷ rest) s =
      ◌then◌ (high_partitions topic responses s) (high_topics rest)

  -- On an error of the request the broker is closed, and nothing is sent.
  unfoldable pub process_high_water_marks : Option Blocks → OffsetMarks → Option Sending
  unfolding high_topics
  process_high_water_marks none marks = some (marks, [])
  process_high_water_marks (some blocks) marks = high_topics blocks (marks, [])

  unfoldable pub low_response : Bytes → ℤ → OffsetResponse → List ℤ → Option (List StorageRequest)
  low_response topic partition response (offset ∷ _) = some (
      if not response.no_error
      then []
      else new_add_partition_low_water_mark_request (mark_of topic partition offset) ∷ [])
  low_response topic partition response [] = if not response.no_error then some [] else none

  abbrev pub behind :
      Option (List StorageRequest) → Option (List StorageRequest) → Option (List StorageRequest)
  behind none more = none
  behind (some sent) none = none
  behind (some sent) (some more) = some (sent ++ more)

  unfoldable pub low_partitions : Bytes → GoMap ℤ OffsetResponse → Option (List StorageRequest)
  unfolding low_response
  low_partitions topic [] = some []
  low_partitions topic ((partition, response) ∷ rest) =
      behind (low_response topic partition response response.offsets) (low_partitions topic rest)

  unfoldable pub low_topics : Blocks → Option (List StorageRequest)
  unfolding low_partitions
  low_topics [] = some []
  low_topics ((topic, responses) ∷ rest) =
      behind (if not (is_topic_allowed opts topic) then some [] else low_partitions topic responses)
        (low_topics rest)

  unfoldable pub process_low_water_marks : Option Blocks → Option (List StorageRequest)
  unfolding low_topics
  process_low_water_marks none = some []
  process_low_water_marks (some blocks) = low_topics blocks
