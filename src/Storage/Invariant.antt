-- ===== src/Storage/Invariant.antt =====
-- What holds of the storage after any requests: one entry to a key, every entry filed under the key
-- that it names, and counts that a float64 holds exactly.
pub mod Groups
pub mod Marks
pub mod Workers
use kafka_minion.Float64.Laws.{max_exact}
use kafka_minion.GoMap.{GoMap, get}
use kafka_minion.GoMap.Laws.{IsUnique, AllEntries, empty-AllEntries}
use kafka_minion.Prelude.{ℕ, ◌≤◌, Comparable, ◌≡◌, Bytes, bytes_eq, int_eq, []}
use kafka_minion.Storage.{
  PartitionWaterMarks, ConsumerPartitionOffsetMetric, ConsumerGroup, Partition, Topic,
  MemoryStorage, new_memory_storage, offset_key,
}

-- An entry of the offsets: filed under its key, with a count that has no rounding in it.
pub record MetricFits (key : Bytes) (e : ConsumerPartitionOffsetMetric) : Type 0 where
  pub keyed : key ≡ offset_key e.group e.topic e.partition
  pub count_le : e.total_commit_count ≤ max_exact

pub record GroupsFit (g : ConsumerGroup) : Type 0 where
  pub offsets_unique : IsUnique g.offsets
  pub offsets_keyed : AllEntries MetricFits g.offsets
  pub metadata_unique : IsUnique g.metadata
  pub metadata_keyed : AllEntries (λ k m. k ≡ m.group) g.metadata

-- The marks of one topic: each filed under its partition, and all of that topic.
pub record MarksFit (topic : Bytes) (marks : PartitionWaterMarks) : Type 0 where
  pub unique : IsUnique marks
  pub keyed : AllEntries (λ p m. (p ≡ m.partition_id) × (topic ≡ m.topic_name)) marks

pub record WaterMarksFit (marks : GoMap Bytes PartitionWaterMarks) : Type 0 where
  pub unique : IsUnique marks
  pub each : AllEntries MarksFit marks

pub record IsWellFormed (s : MemoryStorage) : Type 0 where
  pub groups : GroupsFit s.groups
  pub low : WaterMarksFit s.partitions.low_water_marks
  pub high : WaterMarksFit s.partitions.high_water_marks
  pub configs_unique : IsUnique s.topics.configs
  pub configs_keyed : AllEntries (λ k c. k ≡ c.topic_name) s.topics.configs

pub new-IsWellFormed : IsWellFormed new_memory_storage
unfolding new_memory_storage
new-IsWellFormed = record {
  groups = record {
    offsets_unique = tt;
    offsets_keyed = empty-AllEntries _;
    metadata_unique = tt;
    metadata_keyed = empty-AllEntries _;
  };
  low = record { unique = tt; each = empty-AllEntries _ };
  high = record { unique = tt; each = empty-AllEntries _ };
  configs_unique = tt;
  configs_keyed = empty-AllEntries _;
}

module _ {s : MemoryStorage} (w : IsWellFormed s) where
  pub with_groups : {g : ConsumerGroup} → GroupsFit g → IsWellFormed (record s { groups = g })
  with_groups f = record {
    groups = f;
    low = w.low;
    high = w.high;
    configs_unique = w.configs_unique;
    configs_keyed = w.configs_keyed;
  }

  pub with_partitions :
      {p : Partition}
      → WaterMarksFit p.low_water_marks
      → WaterMarksFit p.high_water_marks
      → IsWellFormed (record s { partitions = p })
  with_partitions low high = record {
    groups = w.groups;
    low = low;
    high = high;
    configs_unique = w.configs_unique;
    configs_keyed = w.configs_keyed;
  }

  pub with_topics :
      {t : Topic}
      → IsUnique t.configs
      → AllEntries (λ k c. k ≡ c.topic_name) t.configs
      → IsWellFormed (record s { topics = t })
  with_topics unique keyed = record {
    groups = w.groups;
    low = w.low;
    high = w.high;
    configs_unique = unique;
    configs_keyed = keyed;
  }
