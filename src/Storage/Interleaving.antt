-- ===== src/Storage/Interleaving.antt =====
-- The two workers run side by side. Each method is one step under its locks, so a run of both is some
-- interleaving of the two channels' requests.
use kafka_minion.Kafka.Request.{
  StorageRequest, StorageRequestType, add_consumer_offset, add_topic_configuration,
}
use kafka_minion.Prelude.{◌≡◌, refl, sym, ap, ◌∙◌, Option, none, some, List, [], ◌∷◌, arith}
use kafka_minion.Storage.{
  MemoryStorage, new_memory_storage, delete_topic_data, store_partition_high_water_mark,
  store_partition_low_water_mark, store_group_metadata, store_topic_config, register_partitions,
  mark_partition_ready, store_offset_entry, delete_offset_entry,
}
use kafka_minion.Storage.Invariant.{IsWellFormed, new-IsWellFormed}
use kafka_minion.Storage.Invariant.Workers.{
  consumer_worker-IsWellFormed, cluster_worker-IsWellFormed,
}
use kafka_minion.Storage.Worker.{
  consumer_switch, handle_consumer_offset, cluster_switch, handle_cluster, ◌>>=◌,
  consumer_offset_worker, cluster_worker,
}

-- One step of either worker.
pub data Event : Type 0 where
  on_consumer_offset : StorageRequest → Event
  on_cluster : StorageRequest → Event

handle : Event → MemoryStorage → Option MemoryStorage
handle (on_consumer_offset r) s = handle_consumer_offset r s
handle (on_cluster r) s = handle_cluster r s

unfoldable pub run : List Event → MemoryStorage → Option MemoryStorage
unfolding handle
run [] s = some s
run (e ∷ es) s = handle e s >>= run es

-- What each channel has delivered.
abbrev pub consumer_requests : List Event → List StorageRequest
consumer_requests [] = []
consumer_requests (on_consumer_offset r ∷ es) = r ∷ consumer_requests es
consumer_requests (on_cluster r ∷ es) = consumer_requests es

abbrev pub cluster_requests : List Event → List StorageRequest
cluster_requests [] = []
cluster_requests (on_consumer_offset r ∷ es) = cluster_requests es
cluster_requests (on_cluster r ∷ es) = r ∷ cluster_requests es

bind_assoc :
    (o : Option MemoryStorage) (f g : MemoryStorage → Option MemoryStorage)
    → (o >>= f >>= g) ≡ (o >>= λ s. f s >>= g)
bind_assoc none f g = refl
bind_assoc (some s) f g = refl

bind_ext :
    (o : Option MemoryStorage) (f g : MemoryStorage → Option MemoryStorage)
    → ((s : MemoryStorage) → f s ≡ g s)
    → (o >>= f) ≡ (o >>= g)
bind_ext none f g h = refl
bind_ext (some s) f g h = h s

module _ (r q : StorageRequest) (s : MemoryStorage) where
  switches_commute :
      (t u : StorageRequestType)
      → (cluster_switch u q s >>= consumer_switch t r)
        ≡ (consumer_switch t r s >>= cluster_switch u q)
  unfolding consumer_switch cluster_switch store_offset_entry store_group_metadata
      delete_offset_entry register_partitions mark_partition_ready store_partition_low_water_mark
      store_partition_high_water_mark store_topic_config delete_topic_data
  switches_commute add_consumer_offset add_topic_configuration = ground arith
  switches_commute _ _ = ground arith

handlers_commute :
    (r q : StorageRequest) (s : MemoryStorage)
    → (handle_cluster q s >>= handle_consumer_offset r)
      ≡ (handle_consumer_offset r s >>= handle_cluster q)
unfolding handle_cluster handle_consumer_offset
handlers_commute r q s = switches_commute r q s r.request_type q.request_type

-- A cluster request may as well be handled behind all the offset requests.
worker_commutes :
    (rs : List StorageRequest) (q : StorageRequest) (s : MemoryStorage)
    → (handle_cluster q s >>= consumer_offset_worker rs)
      ≡ (consumer_offset_worker rs s >>= handle_cluster q)
unfolding consumer_offset_worker
worker_commutes [] q s = bind_some (handle_cluster q s)
  where
    bind_some : (o : Option MemoryStorage) → (o >>= λ t. some t) ≡ o
    bind_some none = refl
    bind_some (some t) = refl
worker_commutes (r ∷ rs) q s =
    sym (bind_assoc (handle_cluster q s) (handle_consumer_offset r) (consumer_offset_worker rs))
    ∙ ap (λ o. o >>= consumer_offset_worker rs) (handlers_commute r q s)
    ∙ bind_assoc (handle_consumer_offset r s) (handle_cluster q) (consumer_offset_worker rs)
    ∙ bind_ext (handle_consumer_offset r s) _ _ (worker_commutes rs q)
    ∙ sym (bind_assoc (handle_consumer_offset r s) (consumer_offset_worker rs) (handle_cluster q))

-- Every interleaving comes to what the offset worker does alone, followed by the cluster worker.
pub run-workers :
    (es : List Event) (s : MemoryStorage)
    → run es s
      ≡ (consumer_offset_worker (consumer_requests es) s >>= cluster_worker (cluster_requests es))
unfolding run consumer_offset_worker cluster_worker
run-workers [] s = refl
run-workers (on_consumer_offset r ∷ es) s =
    bind_ext (handle_consumer_offset r s) _ _ (run-workers es)
    ∙ sym (bind_assoc (handle_consumer_offset r s) _ _)
run-workers (on_cluster q ∷ es) s =
    bind_ext (handle_cluster q s) _ _ (run-workers es)
    ∙ sym (bind_assoc (handle_cluster q s) _ _)
    ∙ ap (λ o. o >>= cluster_worker (cluster_requests es))
        (worker_commutes (consumer_requests es) q s)
    ∙ bind_assoc (consumer_offset_worker (consumer_requests es) s) (handle_cluster q) _

-- Two interleavings of the same requests on each channel leave the same storage, or both meet a nil
-- pointer: the outcome does not depend on how the two workers are scheduled.
pub run_schedule :
    (es fs : List Event) (s : MemoryStorage)
    → consumer_requests es ≡ consumer_requests fs
    → cluster_requests es ≡ cluster_requests fs
    → run es s ≡ run fs s
run_schedule es fs s c q = rw (run-workers es s, run-workers fs s, c, q)

-- After any interleaving of any requests from the empty storage that meets no nil pointer, every map
-- has one entry to a key, every entry is filed under the key that it names, and every commit count
-- is at most 2^53.
pub run-IsWellFormed :
    (es : List Event) {s : MemoryStorage} → run es new_memory_storage ≡ some s → IsWellFormed s
run-IsWellFormed es {s} e =
    both (consumer_offset_worker (consumer_requests es) new_memory_storage) refl
      (sym (run-workers es new_memory_storage) ∙ e)
  where
    both :
        (o : Option MemoryStorage)
        → consumer_offset_worker (consumer_requests es) new_memory_storage ≡ o
        → (o >>= cluster_worker (cluster_requests es)) ≡ some s
        → IsWellFormed s
    both none h e = cc
    both (some t) h e =
        cluster_worker-IsWellFormed (cluster_requests es) t
          (consumer_worker-IsWellFormed (consumer_requests es) new_memory_storage new-IsWellFormed
            h)
          e
