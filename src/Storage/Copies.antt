-- ===== src/Storage/Copies.antt =====
-- The copies that the readers return are the maps of a well-formed storage.
use kafka_minion.GoMap.{GoMap, put, copy_onto, copy}
use kafka_minion.GoMap.Copy.{copy_lem}
use kafka_minion.GoMap.Laws.{IsUnique, AllEntries, get_here, AllEntries-tail}
use kafka_minion.Prelude.{◌≡◌, refl, ◌∙◌, Bytes, bytes_eq, int_eq, [], ◌∷◌}
use kafka_minion.Storage.{PartitionWaterMarks, MemoryStorage}
use kafka_minion.Storage.Invariant.{WaterMarksFit, IsWellFormed}
use kafka_minion.Storage.Readers.{
  consumer_offsets, group_metadata, topic_configs, copy_marks_onto, partition_high_water_marks,
  partition_low_water_marks,
}

-- Copying the inner maps changes none of them, so the outer copy is the plain one.
copy_marks_onto-copy_onto :
    (acc marks : GoMap Bytes PartitionWaterMarks)
    → IsUnique marks
    → AllEntries (λ _ inner. IsUnique inner) marks
    → copy_marks_onto acc marks ≡ copy_onto acc marks
unfolding copy_marks_onto copy_onto
copy_marks_onto-copy_onto acc [] u each = refl
copy_marks_onto-copy_onto acc ((topic, inner) ∷ rest) u each =
    rw (copy_lem inner (each topic inner (get_here topic inner rest))) (
      copy_marks_onto-copy_onto (put topic inner acc) rest u.1
        (AllEntries-tail (λ _ inner. IsUnique inner) topic inner rest u.0 each))

copy_marks_lem :
    (marks : GoMap Bytes PartitionWaterMarks)
    → WaterMarksFit marks
    → copy_marks_onto [] marks ≡ marks
copy_marks_lem marks f =
    copy_marks_onto-copy_onto [] marks f.unique (λ k inner e. (f.each k inner e).unique)
    ∙ (unfold copy in copy_lem marks f.unique)

-- On a well-formed storage all five readers return what the storage holds, entry by entry and, for
-- the water marks, down to the inner maps.
pub readers_return_the_maps :
    (s : MemoryStorage)
    → IsWellFormed s
    → (consumer_offsets s ≡ s.groups.offsets)
      × (group_metadata s ≡ s.groups.metadata)
      × (topic_configs s ≡ s.topics.configs)
      × (partition_high_water_marks s ≡ s.partitions.high_water_marks)
      × (partition_low_water_marks s ≡ s.partitions.low_water_marks)
unfolding consumer_offsets group_metadata topic_configs partition_high_water_marks
    partition_low_water_marks
readers_return_the_maps s w = (
  copy_lem s.groups.offsets w.groups.offsets_unique,
  copy_lem s.groups.metadata w.groups.metadata_unique,
  copy_lem s.topics.configs w.configs_unique,
  copy_marks_lem s.partitions.high_water_marks w.high,
  copy_marks_lem s.partitions.low_water_marks w.low,
)
