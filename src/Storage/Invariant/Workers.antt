-- ===== src/Storage/Invariant/Workers.antt =====
-- Every request, on either channel, keeps the storage well formed.
use kafka_minion.Kafka.Request.{
  StorageRequest, StorageRequestType, add_partition_high_water_mark, add_partition_low_water_mark,
  add_consumer_offset, add_group_metadata, add_topic_configuration, delete_consumer_group,
  register_offset_partitions, mark_offset_partition_ready, delete_topic,
}
use kafka_minion.Prelude.{
  some-eq, ◌≡◌, subst, Option, none, some, List, [], ◌∷◌, Option-cases, inl, inr,
}
use kafka_minion.Storage.{MemoryStorage}
use kafka_minion.Storage.Invariant.{IsWellFormed}
use kafka_minion.Storage.Invariant.Groups.{
  store_offset-IsWellFormed, delete_offset-IsWellFormed, store_metadata-IsWellFormed,
  register-IsWellFormed, mark_ready-IsWellFormed,
}
use kafka_minion.Storage.Invariant.Marks.{
  store_high-IsWellFormed, store_low-IsWellFormed, store_config-IsWellFormed,
  delete_topic-IsWellFormed,
}
use kafka_minion.Storage.Worker.{
  deref, consumer_switch, handle_consumer_offset, cluster_switch, handle_cluster,
  consumer_offset_worker, cluster_worker,
}

keep : {s t : MemoryStorage} → some s ≡ some t → IsWellFormed s → IsWellFormed t
keep e w = subst IsWellFormed (some-eq e) w

deref-IsWellFormed :
    {A : Type 0} (o : Option A) (f : A → MemoryStorage) {t : MemoryStorage}
    → ((a : A) → IsWellFormed (f a))
    → deref o f ≡ some t
    → IsWellFormed t
deref-IsWellFormed none f h e = cc
deref-IsWellFormed (some a) f h e = keep e (h a)

module _ (r : StorageRequest) (s : MemoryStorage) {t : MemoryStorage} (w : IsWellFormed s) where
  consumer_switch-IsWellFormed :
      (type : StorageRequestType) → consumer_switch type r s ≡ some t → IsWellFormed t
  unfolding consumer_switch
  consumer_switch-IsWellFormed add_consumer_offset e =
      deref-IsWellFormed r.consumer_offset _ (store_offset-IsWellFormed s w) e
  consumer_switch-IsWellFormed add_group_metadata e =
      deref-IsWellFormed r.group_metadata _ (store_metadata-IsWellFormed s w) e
  consumer_switch-IsWellFormed delete_consumer_group e =
      keep e (delete_offset-IsWellFormed s w _ _ _)
  consumer_switch-IsWellFormed register_offset_partitions e =
      keep e (register-IsWellFormed s w r.partition_count)
  consumer_switch-IsWellFormed mark_offset_partition_ready e =
      keep e (mark_ready-IsWellFormed s w r.partition_id)
  consumer_switch-IsWellFormed _ e = keep e w

  cluster_switch-IsWellFormed :
      (type : StorageRequestType) → cluster_switch type r s ≡ some t → IsWellFormed t
  unfolding cluster_switch
  cluster_switch-IsWellFormed add_partition_low_water_mark e =
      deref-IsWellFormed r.partition_water_mark _ (store_low-IsWellFormed s w) e
  cluster_switch-IsWellFormed add_partition_high_water_mark e =
      deref-IsWellFormed r.partition_water_mark _ (store_high-IsWellFormed s w) e
  cluster_switch-IsWellFormed add_topic_configuration e =
      deref-IsWellFormed r.topic_config _ (store_config-IsWellFormed s w) e
  cluster_switch-IsWellFormed delete_topic e = keep e (delete_topic-IsWellFormed s w r.topic_name)
  cluster_switch-IsWellFormed _ e = keep e w

pub consumer_worker-IsWellFormed :
    (rs : List StorageRequest) (s : MemoryStorage) {t : MemoryStorage}
    → IsWellFormed s
    → consumer_offset_worker rs s ≡ some t
    → IsWellFormed t
unfolding consumer_offset_worker handle_consumer_offset
consumer_worker-IsWellFormed [] s w e = keep e w
consumer_worker-IsWellFormed (r ∷ rs) s w e = elim (Option-cases (handle_consumer_offset r s)) [
  | inl fault ↦ cc (fault, e)
  | inr (next, step) ↦
      consumer_worker-IsWellFormed rs next (consumer_switch-IsWellFormed r s w r.request_type step)
        (rw step at e)
]

pub cluster_worker-IsWellFormed :
    (rs : List StorageRequest) (s : MemoryStorage) {t : MemoryStorage}
    → IsWellFormed s
    → cluster_worker rs s ≡ some t
    → IsWellFormed t
unfolding cluster_worker handle_cluster
cluster_worker-IsWellFormed [] s w e = keep e w
cluster_worker-IsWellFormed (r ∷ rs) s w e = elim (Option-cases (handle_cluster r s)) [
  | inl fault ↦ cc (fault, e)
  | inr (next, step) ↦
      cluster_worker-IsWellFormed rs next (cluster_switch-IsWellFormed r s w r.request_type step)
        (rw step at e)
]
