-- ===== src/Storage/Tests.antt =====
-- The theorems on storage/memory.go at concrete requests: two commits, a tombstone and a third commit
-- of the partition "orders" 0 of the group "g".
use kafka_minion.GoMap.{get}
use kafka_minion.Kafka.Offset.{ConsumerPartitionOffset}
use kafka_minion.Kafka.Request.{
  PartitionWaterMark, StorageRequest, new_add_consumer_offset_request,
  new_add_partition_low_water_mark_request,
}
use kafka_minion.Prelude.{
  ◌≡◌, ◌↔◌, ◌<◌, ◌≤◌, refl, Bytes, bytes_eq, int_eq, true, some, List, [], ◌∷◌, arith,
}
use kafka_minion.Prelude.Int.{ℤ, pos}
use kafka_minion.Storage.{
  ConsumerPartitionOffsetMetric, MemoryStorage, new_memory_storage, offset_key,
}
use kafka_minion.Storage.Action.{Action, commit, tombstone, register, mark_ready, requests_of}
use kafka_minion.Storage.Copies.{readers_return_the_maps}
use kafka_minion.Storage.History.{live, is, entry_of, metric}
use kafka_minion.Storage.History.Shown.{offsets_history}
use kafka_minion.Storage.Interleaving.{
  Event, on_consumer_offset, on_cluster, run, run_schedule, run-IsWellFormed,
}
use kafka_minion.Storage.Invariant.{IsWellFormed}
use kafka_minion.Storage.OffsetKey.{NoColon}
use kafka_minion.Storage.Readers.{
  consumer_offsets, group_metadata, topic_configs, partition_high_water_marks,
  partition_low_water_marks, is_consumed,
}
use kafka_minion.Storage.Ready.{consumed_iff, ready_reports}
use kafka_minion.Storage.Worker.{consumer_offset_worker}

abbrev group : Bytes
group = b'g' ∷ []

abbrev orders : Bytes
orders = b'o' ∷ b'r' ∷ b'd' ∷ b'e' ∷ b'r' ∷ b's' ∷ []

abbrev commit_at : ℤ → ℤ → ConsumerPartitionOffset
commit_at offset timestamp = record {
  group = group;
  topic = orders;
  partition = pos 0;
  offset = offset;
  timestamp = timestamp;
}

abbrev actions : List Action
actions =
    commit (commit_at (pos 4) (pos 100))
    ∷ tombstone group orders (pos 0)
    ∷ commit (commit_at (pos 5) (pos 101))
    ∷ commit (commit_at (pos 9) (pos 102))
    ∷ []

orders-NoColon : NoColon orders
orders-NoColon = ground arith

-- What the history says of these actions: the last commit, counted twice.
history_shows :
    entry_of (live (is group orders (pos 0)) actions)
    ≡ some (metric (commit_at (pos 9) (pos 102)) 2)
history_shows = refl

offsets_history_example :
    (s : MemoryStorage) × (consumer_offset_worker (requests_of actions) new_memory_storage ≡ some s)
    × (get (offset_key group orders (pos 0)) s.groups.offsets
        ≡ entry_of (live (is group orders (pos 0)) actions))
offsets_history_example =
    offsets_history group orders (pos 0) actions orders-NoColon
      (orders-NoColon, (orders-NoColon, (orders-NoColon, (orders-NoColon, tt))))

abbrev reports : List Action
reports = mark_ready (pos 0) ∷ commit (commit_at (pos 4) (pos 100)) ∷ mark_ready (pos 1) ∷ []

consumed_iff_example :
    (s : MemoryStorage) × (consumer_offset_worker
        (requests_of (register (pos 2) ∷ reports))
        new_memory_storage
      ≡ some s)
    × ((is_consumed s ≡ true) ↔ ((0 < 2) × (2 ≤ ready_reports reports)))
consumed_iff_example = consumed_iff 2 reports (tt, (tt, (tt, tt))) (omega arith)

abbrev low_mark : PartitionWaterMark
low_mark = record {
  topic_name = orders;
  partition_id = pos 0;
  water_mark = pos 3;
  timestamp = pos 100;
}

abbrev low_request : StorageRequest
low_request = new_add_partition_low_water_mark_request low_mark

abbrev commit_request : StorageRequest
commit_request = new_add_consumer_offset_request (commit_at (pos 4) (pos 100))

abbrev cluster_first : List Event
cluster_first = on_cluster low_request ∷ on_consumer_offset commit_request ∷ []

abbrev cluster_last : List Event
cluster_last = on_consumer_offset commit_request ∷ on_cluster low_request ∷ []

run_schedule_example : run cluster_first new_memory_storage ≡ run cluster_last new_memory_storage
run_schedule_example = run_schedule cluster_first cluster_last new_memory_storage refl refl

-- The storage that these two requests leave.
after_requests : (s : MemoryStorage) × (run cluster_first new_memory_storage ≡ some s)
unfolding run kafka_minion.Storage.Worker.handle_cluster
    kafka_minion.Storage.Worker.handle_consumer_offset new_add_partition_low_water_mark_request
    new_add_consumer_offset_request
after_requests = (_, refl)

run-IsWellFormed_example : IsWellFormed after_requests.0
run-IsWellFormed_example = run-IsWellFormed cluster_first (after_requests.1)

abbrev stored : MemoryStorage
stored = after_requests.0

readers_return_the_maps_example :
    (consumer_offsets stored ≡ stored.groups.offsets)
    × (group_metadata stored ≡ stored.groups.metadata)
    × (topic_configs stored ≡ stored.topics.configs)
    × (partition_high_water_marks stored ≡ stored.partitions.high_water_marks)
    × (partition_low_water_marks stored ≡ stored.partitions.low_water_marks)
readers_return_the_maps_example =
    readers_return_the_maps stored (run-IsWellFormed cluster_first (after_requests.1))
