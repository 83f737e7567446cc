-- ===== src/Kafka/Consumer/Partition.antt =====
-- `Start` and `partitionConsumer` of kafka/offset_consumer.go: one goroutine for each partition of the
-- offsets topic, as a step relation. The ticker of the time package puts a tick into a channel of
-- size one, and drops it if one waits there; `Stop` ends that, and does not empty the channel.
pub mod Ready
pub mod Reports
pub mod Punctual
pub mod Progress
pub mod Log
pub mod ReadUp
pub mod Actions
use kafka_minion.Kafka.Consumer.{ConsumerMessage, process_message}
use kafka_minion.Kafka.Request.{
  StorageRequest, new_register_offset_partitions_request, new_mark_offset_partition_ready_request,
}
use kafka_minion.Options.{Options}
use kafka_minion.Prelude.{
  ◌≡◌, ◌-◌, ◌^◌, Bool, true, false, not, Option, none, some, List, [], ◌∷◌, ◌++◌, length,
  if◌then◌else◌,
}
use kafka_minion.Prelude.Int.{ℤ, pos, ltb_ℤ}
use kafka_minion.Prelude.Words.{sub64}

-- The variables of the goroutine. `reporting` is its place between the send of the ready request and
-- `ticker.Stop()`; everywhere else it waits in the `select`.
pub record PartitionConsumer : Type 0 where
  pub consumed_offset : ℤ
  pub tick_waits : Bool
  pub stopped : Bool
  pub reporting : Bool

abbrev pub new_partition_consumer : PartitionConsumer
new_partition_consumer = record {
  consumed_offset = pos 0;
  tick_waits = false;
  stopped = false;
  reporting = false;
}

-- The bound that a tick computes from the entry of `offsetWaterMarks` for the partition.
unfoldable pub high_water_mark : Option ℤ → ℤ
high_water_mark none = pos (2 ^ 63 - 1)
high_water_mark (some val) =
    let bound = sub64 val (pos 1) in if ltb_ℤ bound (pos 0) then pos 0 else bound

-- `consumedOffset >= highWaterMark`
unfoldable pub caught_up : ℤ → Option ℤ → Bool
unfolding high_water_mark
caught_up consumed_offset val = not (ltb_ℤ consumed_offset (high_water_mark val))

module _ (opts : Options) (partition : ℤ) where
  -- One step of the goroutine or of its ticker, with what it sends to the storage.
  pub data Step (s : PartitionConsumer) : List StorageRequest → PartitionConsumer → Type 0 where
    message :
        (msg : ConsumerMessage) (sent : List StorageRequest) {t : PartitionConsumer}
        → s.reporting ≡ false
        → process_message opts msg ≡ some sent
        → t ≡ record s { consumed_offset = msg.offset }
        → Step s sent t
    failure : {t : PartitionConsumer} → s.reporting ≡ false → t ≡ s → Step s [] t
    fire :
        {t : PartitionConsumer}
        → s.stopped ≡ false
        → t ≡ record s { tick_waits = true }
        → Step s [] t
    tick_behind :
        (val : Option ℤ) {t : PartitionConsumer}
        → s.reporting ≡ false
        → s.tick_waits ≡ true
        → caught_up s.consumed_offset val ≡ false
        → t ≡ record s { tick_waits = false }
        → Step s [] t
    tick_ready :
        (val : Option ℤ) {sent : List StorageRequest} {t : PartitionConsumer}
        → s.reporting ≡ false
        → s.tick_waits ≡ true
        → caught_up s.consumed_offset val ≡ true
        → sent ≡ new_mark_offset_partition_ready_request partition ∷ []
        → t ≡ record s { tick_waits = false; reporting = true }
        → Step s sent t
    stop :
        {t : PartitionConsumer}
        → s.reporting ≡ true
        → t ≡ record s { reporting = false; stopped = true }
        → Step s [] t

  -- Any number of steps, with all that they send, in order.
  pub data Run (s : PartitionConsumer) : List StorageRequest → PartitionConsumer → Type 0 where
    here : Run s [] s
    more :
        {t u : PartitionConsumer} {before sent after : List StorageRequest}
        → Run s before t
        → Step t sent u
        → after ≡ before ++ sent
        → Run s after u

-- `Start`: the number of partitions is sent before any partition consumer runs.
unfoldable pub start_requests : List ℤ → List StorageRequest
start_requests partitions = new_register_offset_partitions_request (pos (length partitions)) ∷ []
