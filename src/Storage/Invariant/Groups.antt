-- ===== src/Storage/Invariant/Groups.antt =====
-- The methods of the offset worker keep the storage well formed.
use kafka_minion.Float64.{increment}
use kafka_minion.Float64.Laws.{max_exact, increment-min}
use kafka_minion.GoMap.{GoMap, get}
use kafka_minion.GoMap.Laws.{
  AllEntries, put-IsUnique, delete-IsUnique, put-AllEntries, delete-AllEntries,
}
use kafka_minion.Kafka.Metadata.Types.{ConsumerGroupMetadata}
use kafka_minion.Kafka.Offset.{ConsumerPartitionOffset}
use kafka_minion.Prelude.{ℕ, ◌≤◌, ◌≡◌, refl, Bytes, bytes_eq, Option-cases, inl, inr, min, arith}
use kafka_minion.Prelude.Int.{ℤ}
use kafka_minion.Storage.{
  ConsumerPartitionOffsetMetric, MemoryStorage, store_group_metadata, register_partitions,
  mark_partition_ready, commit_count, store_offset_entry, delete_offset_entry,
}
use kafka_minion.Storage.Invariant.{MetricFits, IsWellFormed, with_groups}

-- The counter that is read is at most 2^53, and so is the next one.
increment-le : (n : ℕ) → n ≤ max_exact → increment n ≤ max_exact
increment-le n h =
    let same : min n max_exact ≡ n = ground arith in omega (arith, rw same at (increment-min n))

commit_count-le :
    (key : Bytes) (m : GoMap Bytes ConsumerPartitionOffsetMetric)
    → AllEntries MetricFits m
    → commit_count (get key m) ≤ max_exact
commit_count-le key m f = elim (Option-cases (get key m)) [
  | inl new ↦ rw new (omega arith)
  | inr (old, found) ↦ rw found ((f key old found).count_le)
]

module _ (s : MemoryStorage) (w : IsWellFormed s) where
  pub store_offset-IsWellFormed :
      (c : ConsumerPartitionOffset) → IsWellFormed (store_offset_entry c s)
  unfolding store_offset_entry
  store_offset-IsWellFormed c = with_groups w (record {
    offsets_unique = put-IsUnique _ _ s.groups.offsets w.groups.offsets_unique;
    offsets_keyed =
        put-AllEntries MetricFits _ _ s.groups.offsets
          (record {
            keyed = refl;
            count_le = increment-le _ (commit_count-le _ s.groups.offsets w.groups.offsets_keyed);
          })
          w.groups.offsets_keyed;
    metadata_unique = w.groups.metadata_unique;
    metadata_keyed = w.groups.metadata_keyed;
  })

  pub delete_offset-IsWellFormed :
      (group topic : Bytes) (partition : ℤ)
      → IsWellFormed (delete_offset_entry group topic partition s)
  unfolding delete_offset_entry
  delete_offset-IsWellFormed group topic partition = with_groups w (record {
    offsets_unique = delete-IsUnique _ s.groups.offsets w.groups.offsets_unique;
    offsets_keyed = delete-AllEntries MetricFits _ s.groups.offsets w.groups.offsets_keyed;
    metadata_unique = w.groups.metadata_unique;
    metadata_keyed = w.groups.metadata_keyed;
  })

  pub store_metadata-IsWellFormed :
      (m : ConsumerGroupMetadata) → IsWellFormed (store_group_metadata m s)
  unfolding store_group_metadata
  store_metadata-IsWellFormed m = with_groups w (record {
    offsets_unique = w.groups.offsets_unique;
    offsets_keyed = w.groups.offsets_keyed;
    metadata_unique = put-IsUnique _ _ s.groups.metadata w.groups.metadata_unique;
    metadata_keyed =
        put-AllEntries (λ k m. k ≡ m.group) _ _ s.groups.metadata refl w.groups.metadata_keyed;
  })

  pub register-IsWellFormed : (count : ℤ) → IsWellFormed (register_partitions count s)
  unfolding register_partitions
  register-IsWellFormed count = record {
    groups = w.groups;
    low = w.low;
    high = w.high;
    configs_unique = w.configs_unique;
    configs_keyed = w.configs_keyed;
  }

  pub mark_ready-IsWellFormed : (partition : ℤ) → IsWellFormed (mark_partition_ready partition s)
  unfolding mark_partition_ready
  mark_ready-IsWellFormed partition = record {
    groups = w.groups;
    low = w.low;
    high = w.high;
    configs_unique = w.configs_unique;
    configs_keyed = w.configs_keyed;
  }
