-- ===== src/Storage/Action.antt =====
-- What the offset consumer asks of the storage, by the constructors of kafka/storage_request.go. A
-- request that they build has what its type promises.
use kafka_minion.Kafka.Metadata.Types.{ConsumerGroupMetadata}
use kafka_minion.Kafka.Offset.{ConsumerPartitionOffset}
use kafka_minion.Kafka.Request.{
  StorageRequest, new_add_consumer_offset_request, new_add_group_metadata,
  new_delete_consumer_group_request, new_register_offset_partitions_request,
  new_mark_offset_partition_ready_request,
}
use kafka_minion.Prelude.{◌≡◌, refl, some, Bytes, List, [], ◌∷◌}
use kafka_minion.Prelude.Int.{ℤ}
use kafka_minion.Storage.{
  MemoryStorage, store_group_metadata, register_partitions, mark_partition_ready,
  store_offset_entry, delete_offset_entry,
}
use kafka_minion.Storage.Worker.{handle_consumer_offset, consumer_offset_worker}

pub data Action : Type 0 where
  commit : ConsumerPartitionOffset → Action
  tombstone : Bytes → Bytes → ℤ → Action
  describe_group : ConsumerGroupMetadata → Action
  register : ℤ → Action
  mark_ready : ℤ → Action

abbrev pub request_of : Action → StorageRequest
request_of (commit c) = new_add_consumer_offset_request c
request_of (tombstone group topic partition) =
    new_delete_consumer_group_request group topic partition
request_of (describe_group m) = new_add_group_metadata m
request_of (register count) = new_register_offset_partitions_request count
request_of (mark_ready partition) = new_mark_offset_partition_ready_request partition

abbrev pub requests_of : List Action → List StorageRequest
requests_of [] = []
requests_of (a ∷ actions) = request_of a ∷ requests_of actions

-- The method that the worker's switch picks.
unfoldable pub method : Action → MemoryStorage → MemoryStorage
method (commit c) s = store_offset_entry c s
method (tombstone group topic partition) s = delete_offset_entry group topic partition s
method (describe_group m) s = store_group_metadata m s
method (register count) s = register_partitions count s
method (mark_ready partition) s = mark_partition_ready partition s

unfoldable pub methods : List Action → MemoryStorage → MemoryStorage
methods [] s = s
methods (a ∷ actions) s = methods actions (method a s)

handle-method :
    (a : Action) (s : MemoryStorage) → handle_consumer_offset (request_of a) s ≡ some (method a s)
unfolding handle_consumer_offset method new_add_consumer_offset_request new_add_group_metadata
    new_delete_consumer_group_request new_register_offset_partitions_request
    new_mark_offset_partition_ready_request
handle-method (commit c) s = refl
handle-method (tombstone group topic partition) s = refl
handle-method (describe_group m) s = refl
handle-method (register count) s = refl
handle-method (mark_ready partition) s = refl

-- Requests that the constructors built never meet a nil pointer, and each is handled by the method of
-- its type.
pub worker-methods :
    (actions : List Action) (s : MemoryStorage)
    → consumer_offset_worker (requests_of actions) s ≡ some (methods actions s)
unfolding consumer_offset_worker methods
worker-methods [] s = refl
worker-methods (a ∷ actions) s = rw (handle-method a s) (worker-methods actions (method a s))
