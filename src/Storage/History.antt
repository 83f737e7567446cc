-- ===== src/Storage/History.antt =====
-- What the storage shows for a partition of a group, told by the history of commits and tombstones
-- alone: the commits behind the last tombstone.
pub mod Growth
pub mod Keys
pub mod Shown
use kafka_minion.Float64.{increment}
use kafka_minion.Float64.Laws.{max_exact, increment-min}
use kafka_minion.GoMap.{get}
use kafka_minion.GoMap.Laws.{get-put, get-delete}
use kafka_minion.Kafka.Offset.{ConsumerPartitionOffset}
use kafka_minion.Prelude.{
  ℕ, suc, ◌+◌, ◌≡◌, not, refl, sym, ap, ◌∙◌, Bool, true, false, ◌&&◌, ◌||◌, Option, none, some,
  Bytes, bytes_eq, int_eq, List, [], ◌∷◌, ◌==◌, ==_iff, if◌then◌else◌, length, min, All, arith,
  Bool-cases, inl, inr,
}
use kafka_minion.Prelude.Int.{ℤ}
use kafka_minion.Storage.{
  ConsumerPartitionOffsetMetric, MemoryStorage, new_memory_storage, offset_key, commit_count,
  store_offset_entry, delete_offset_entry, store_group_metadata, register_partitions,
  mark_partition_ready,
}
use kafka_minion.Storage.Action.{
  Action, commit, tombstone, describe_group, register, mark_ready, requests_of, method, methods,
  worker-methods,
}
use kafka_minion.Storage.OffsetKey.{NoColon, offset_key-injective}
use kafka_minion.Storage.Worker.{consumer_offset_worker}

-- A test for a group, a topic and a partition.
abbrev pub Test : Type 0
Test = Bytes → Bytes → ℤ → Bool

abbrev pub is : Bytes → Bytes → ℤ → Test
is group topic partition g t p = g == group && t == topic && p == partition

abbrev filed_under : Bytes → Test
filed_under key g t p = offset_key g t p == key

abbrev pub hits : Test → ConsumerPartitionOffset → Bool
hits at c = at c.group c.topic c.partition

-- Whether a tombstone for the partition stands among the actions.
abbrev pub buried : Test → List Action → Bool
buried at [] = false
buried at (tombstone g t p ∷ actions) = at g t p || buried at actions
buried at (_ ∷ actions) = buried at actions

-- The commits of the partition behind its last tombstone, in order.
abbrev pub live : Test → List Action → List ConsumerPartitionOffset
live at [] = []
live at (commit c ∷ actions) =
    if hits at c && not (buried at actions) then c ∷ live at actions else live at actions
live at (_ ∷ actions) = live at actions

abbrev pub metric : ConsumerPartitionOffset → ℕ → ConsumerPartitionOffsetMetric
metric c count = record {
  group = c.group;
  topic = c.topic;
  partition = c.partition;
  offset = c.offset;
  timestamp = c.timestamp;
  total_commit_count = count;
}

abbrev pub last : ConsumerPartitionOffset → List ConsumerPartitionOffset → ConsumerPartitionOffset
last c [] = c
last c (d ∷ cs) = last d cs

-- The entry of a partition with these live commits: none without any; and else the data of the last
-- one with the number of them, which stops at 2^53.
abbrev pub entry_of : List ConsumerPartitionOffset → Option ConsumerPartitionOffsetMetric
entry_of [] = none
entry_of (c ∷ cs) = some (metric (last c cs) (min (length (c ∷ cs)) max_exact))

-- Kafka's rule for the topic names that an action carries.
abbrev pub LegalTopic : Action → Type 0
LegalTopic (commit c) = NoColon c.topic
LegalTopic (tombstone g t p) = NoColon t
LegalTopic _ = Unit
