-- ===== src/Storage/Worker.antt =====
-- The two workers of storage/memory.go: each handles the requests of its channel in order. `none` is
-- the panic of a nil pointer, where a request lacks what its type promises. The channels are never
-- closed, so the code behind the loops is not reached.
use kafka_minion.Kafka.Request.{
  StorageRequest, StorageRequestType, add_partition_high_water_mark, add_partition_low_water_mark,
  add_consumer_offset, add_group_metadata, add_topic_configuration, delete_consumer_group,
  register_offset_partitions, mark_offset_partition_ready, delete_topic,
}
use kafka_minion.Prelude.{Option, none, some, List, [], ◌∷◌}
use kafka_minion.Storage.{
  MemoryStorage, delete_topic_data, store_partition_high_water_mark, store_partition_low_water_mark,
  store_group_metadata, store_topic_config, register_partitions, mark_partition_ready,
  store_offset_entry, delete_offset_entry,
}

-- `*p`
abbrev pub deref : {A : Type 0} → Option A → (A → MemoryStorage) → Option MemoryStorage
deref none f = none
deref (some a) f = some (f a)

-- The switch of `consumerOffsetWorker`; the type is passed apart so that it can be matched.
unfoldable pub consumer_switch :
    StorageRequestType → StorageRequest → MemoryStorage → Option MemoryStorage
consumer_switch add_consumer_offset r s = deref r.consumer_offset (λ c. store_offset_entry c s)
consumer_switch add_group_metadata r s = deref r.group_metadata (λ m. store_group_metadata m s)
consumer_switch delete_consumer_group r s =
    some (delete_offset_entry r.consumer_group_name r.topic_name r.partition_id s)
consumer_switch register_offset_partitions r s = some (register_partitions r.partition_count s)
consumer_switch mark_offset_partition_ready r s = some (mark_partition_ready r.partition_id s)
consumer_switch _ r s = some s

unfoldable pub handle_consumer_offset : StorageRequest → MemoryStorage → Option MemoryStorage
unfolding consumer_switch
handle_consumer_offset r s = consumer_switch r.request_type r s

-- The switch of `clusterWorker`.
unfoldable pub cluster_switch :
    StorageRequestType → StorageRequest → MemoryStorage → Option MemoryStorage
cluster_switch add_partition_low_water_mark r s =
    deref r.partition_water_mark (λ m. store_partition_low_water_mark m s)
cluster_switch add_partition_high_water_mark r s =
    deref r.partition_water_mark (λ m. store_partition_high_water_mark m s)
cluster_switch add_topic_configuration r s = deref r.topic_config (λ c. store_topic_config c s)
cluster_switch delete_topic r s = some (delete_topic_data r.topic_name s)
cluster_switch _ r s = some s

unfoldable pub handle_cluster : StorageRequest → MemoryStorage → Option MemoryStorage
unfolding cluster_switch
handle_cluster r s = cluster_switch r.request_type r s

infixl 5 ◌>>=◌
abbrev pub ◌>>=◌ :
    Option MemoryStorage → (MemoryStorage → Option MemoryStorage) → Option MemoryStorage
none >>= f = none
some s >>= f = f s

-- `for request := range module.consumerOffsetCh`
unfoldable pub consumer_offset_worker : List StorageRequest → MemoryStorage → Option MemoryStorage
consumer_offset_worker [] s = some s
consumer_offset_worker (r ∷ rs) s = handle_consumer_offset r s >>= consumer_offset_worker rs

-- `for request := range module.clusterCh`
unfoldable pub cluster_worker : List StorageRequest → MemoryStorage → Option MemoryStorage
cluster_worker [] s = some s
cluster_worker (r ∷ rs) s = handle_cluster r s >>= cluster_worker rs
