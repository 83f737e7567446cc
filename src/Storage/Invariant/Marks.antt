-- ===== src/Storage/Invariant/Marks.antt =====
-- The methods of the cluster worker keep the storage well formed.
use kafka_minion.GoMap.{GoMap, get, put, delete}
use kafka_minion.GoMap.Laws.{
  empty-AllEntries, put-IsUnique, delete-IsUnique, put-AllEntries, delete-AllEntries,
}
use kafka_minion.Kafka.Request.{PartitionWaterMark, TopicConfiguration}
use kafka_minion.Prelude.{◌≡◌, refl, [], Bytes, bytes_eq, int_eq, Option-cases, inl, inr}
use kafka_minion.Storage.{
  PartitionWaterMarks, MemoryStorage, delete_topic_data, store_mark,
  store_partition_high_water_mark, store_partition_low_water_mark, store_topic_config,
}
use kafka_minion.Storage.Invariant.{
  MarksFit, WaterMarksFit, IsWellFormed, with_partitions, with_topics,
}

put-MarksFit :
    (mark : PartitionWaterMark) (marks : PartitionWaterMarks)
    → MarksFit mark.topic_name marks
    → MarksFit mark.topic_name (put mark.partition_id mark marks)
put-MarksFit mark marks f = record {
  unique = put-IsUnique mark.partition_id mark marks f.unique;
  keyed = put-AllEntries _ mark.partition_id mark marks (refl, refl) f.keyed;
}

store_mark-WaterMarksFit :
    (mark : PartitionWaterMark) (marks : GoMap Bytes PartitionWaterMarks)
    → WaterMarksFit marks
    → WaterMarksFit (store_mark mark marks)
unfolding store_mark
store_mark-WaterMarksFit mark marks f = elim (Option-cases (get mark.topic_name marks)) [
  | inl new ↦
      rw (new, store_mark)
        (put_topic (put-MarksFit mark [] (record { unique = tt; keyed = empty-AllEntries _ })))
  | inr (old, found) ↦
      rw (found, store_mark) (put_topic (put-MarksFit mark old (f.each _ old found)))
]
  where
    put_topic :
        {inner : PartitionWaterMarks}
        → MarksFit mark.topic_name inner
        → WaterMarksFit (put mark.topic_name inner marks)
    put_topic {inner} fi = record {
      unique = put-IsUnique mark.topic_name inner marks f.unique;
      each = put-AllEntries MarksFit mark.topic_name inner marks fi f.each;
    }

delete-WaterMarksFit :
    (topic : Bytes) (marks : GoMap Bytes PartitionWaterMarks)
    → WaterMarksFit marks
    → WaterMarksFit (delete topic marks)
delete-WaterMarksFit topic marks f = record {
  unique = delete-IsUnique topic marks f.unique;
  each = delete-AllEntries MarksFit topic marks f.each;
}

module _ (s : MemoryStorage) (w : IsWellFormed s) where
  pub store_high-IsWellFormed :
      (mark : PartitionWaterMark) → IsWellFormed (store_partition_high_water_mark mark s)
  unfolding store_partition_high_water_mark
  store_high-IsWellFormed mark =
      with_partitions w w.low (store_mark-WaterMarksFit mark s.partitions.high_water_marks w.high)

  pub store_low-IsWellFormed :
      (mark : PartitionWaterMark) → IsWellFormed (store_partition_low_water_mark mark s)
  unfolding store_partition_low_water_mark
  store_low-IsWellFormed mark =
      with_partitions w (store_mark-WaterMarksFit mark s.partitions.low_water_marks w.low) w.high

  pub store_config-IsWellFormed :
      (config : TopicConfiguration) → IsWellFormed (store_topic_config config s)
  unfolding store_topic_config
  store_config-IsWellFormed config =
      with_topics w (put-IsUnique _ _ s.topics.configs w.configs_unique)
        (put-AllEntries (λ k c. k ≡ c.topic_name) _ _ s.topics.configs refl w.configs_keyed)

  pub delete_topic-IsWellFormed : (topic : Bytes) → IsWellFormed (delete_topic_data topic s)
  unfolding delete_topic_data
  delete_topic-IsWellFormed topic =
      let marks =
        with_partitions w (delete-WaterMarksFit topic s.partitions.low_water_marks w.low)
          (delete-WaterMarksFit topic s.partitions.high_water_marks w.high) in
      with_topics marks (delete-IsUnique topic s.topics.configs w.configs_unique)
        (delete-AllEntries (λ k c. k ≡ c.topic_name) topic s.topics.configs w.configs_keyed)
