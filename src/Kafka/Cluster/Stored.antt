-- ===== src/Kafka/Cluster/Stored.antt =====
-- The water marks that the storage shows after it has handled what a broker's answer was turned into.
use kafka_minion.Collector.Offsets.{water_mark}
use kafka_minion.GoMap.{GoMap}
use kafka_minion.Kafka.Cluster.{OffsetResponse}
use kafka_minion.Kafka.Cluster.WaterMarks.{
  OffsetMarks, Blocks, mark_of, process_high_water_marks, process_low_water_marks,
}
use kafka_minion.Kafka.Request.{
  PartitionWaterMark, StorageRequest, new_add_partition_high_water_mark_request,
  new_add_partition_low_water_mark_request,
}
use kafka_minion.Kafka.Topics.{is_topic_allowed}
use kafka_minion.Options.{Options}
use kafka_minion.Prelude.{
  some-eq, ◌≡◌, refl, ap, ◌∙◌, Bool, true, false, ◌&&◌, Bytes, bytes_eq, int_eq, Option, none, some,
  List, [], ◌∷◌, ◌++◌, ◌==◌, if◌then◌else◌, Bool-cases, inl, inr,
}
use kafka_minion.Prelude.Int.{ℤ}
use kafka_minion.Storage.{
  MemoryStorage, store_partition_high_water_mark, store_partition_low_water_mark,
}
use kafka_minion.Storage.Worker.{handle_cluster, cluster_worker, ◌>>=◌}
use kafka_minion.Kafka.Cluster.Answers.{
  IsAnswered, answer, answers_in, answered, sent_one, sent_in, sent_for, high_topics-sent,
  low_topics-sent,
}
use kafka_minion.Kafka.Cluster.StoreMark.{store_mark-water_mark}

pub worker-append :
    (rs qs : List StorageRequest) (s : MemoryStorage) {s' : MemoryStorage}
    → cluster_worker rs s ≡ some s'
    → cluster_worker (rs ++ qs) s ≡ cluster_worker qs s'
unfolding cluster_worker
worker-append [] qs s e = ap (cluster_worker qs) (some-eq e)
worker-append (r ∷ rs) qs s {s'} e = by_handle (handle_cluster r s) (λ t. worker-append rs qs t) e
  where
    by_handle :
        (o : Option MemoryStorage)
        → ((t : MemoryStorage)
            → cluster_worker rs t ≡ some s'
            → cluster_worker (rs ++ qs) t ≡ cluster_worker qs s')
        → (o >>= cluster_worker rs) ≡ some s'
        → (o >>= cluster_worker (rs ++ qs)) ≡ cluster_worker qs s'
    by_handle none later e = cc
    by_handle (some t) later e = later t e

module _ (opts : Options) (ts : ℤ) (request : PartitionWaterMark → StorageRequest)
    (store : PartitionWaterMark → MemoryStorage → MemoryStorage)
    (shown : Bytes → ℤ → MemoryStorage → Option PartitionWaterMark)
    (handled : (m : PartitionWaterMark) (s : MemoryStorage)
      → handle_cluster (request m) s ≡ some (store m s))
    (stored : (m : PartitionWaterMark) (s : MemoryStorage) (t : Bytes) (p : ℤ)
      → shown t p (store m s)
        ≡ (if m.topic_name == t && m.partition_id == p then some m else shown t p s)) where
  -- Handling requests leaves a storage that shows o for the partition.
  abbrev Shows :
      Bytes → ℤ → List StorageRequest → MemoryStorage → Option PartitionWaterMark → Type 0
  Shows t p rs s o = (s' : MemoryStorage) × (cluster_worker rs s ≡ some s') × (shown t p s' ≡ o)

  one-Shows :
      (t : Bytes) (p : ℤ) (topic : Bytes) (q : ℤ) (fine : Bool) (os : List ℤ) (s : MemoryStorage)
      → Shows t p
          (sent_one opts ts request topic q fine os)
          s
          (answer opts ts t p topic q fine os (shown t p s))
  unfolding cluster_worker
  one-Shows t p topic q true (offset ∷ os) s = elim (Bool-cases (is_topic_allowed opts topic)) [
    | inl allowed ↦
        let m = mark_of opts ts topic q offset in
        (store m s, rw (allowed, handled m s), stored m s t p ∙ (rw allowed refl))
    | inr barred ↦ (s, rw barred refl, rw barred refl)
  ]
  one-Shows t p topic q true [] s = (s, refl, refl)
  one-Shows t p topic q false os s = (s, refl, refl)

  in-Shows :
      (t : Bytes) (p : ℤ) (topic : Bytes) (rs : GoMap ℤ OffsetResponse) (s : MemoryStorage)
      → Shows t p
          (sent_in opts ts request topic rs)
          s
          (answers_in opts ts t p topic rs (shown t p s))
  in-Shows t p topic [] s = unfold cluster_worker in (s, refl, refl)
  in-Shows t p topic ((q, r) ∷ rs) s =
      let (s1, run, first) = one-Shows t p topic q r.no_error r.offsets s in
      let (s2, run', more) = in-Shows t p topic rs s1 in
      (
        s2,
        worker-append (sent_one opts ts request topic q r.no_error r.offsets)
              (sent_in opts ts request topic rs) s run
            ∙ run',
        more ∙ ap (answers_in opts ts t p topic rs) first,
      )

  for-Shows :
      (t : Bytes) (p : ℤ) (blocks : Blocks) (s : MemoryStorage)
      → Shows t p (sent_for opts ts request blocks) s (answered opts ts t p blocks (shown t p s))
  for-Shows t p [] s = unfold cluster_worker in (s, refl, refl)
  for-Shows t p ((topic, rs) ∷ blocks) s =
      let (s1, run, first) = in-Shows t p topic rs s in
      let (s2, run', more) = for-Shows t p blocks s1 in
      (
        s2,
        worker-append (sent_in opts ts request topic rs) (sent_for opts ts request blocks) s run
            ∙ run',
        more ∙ ap (answered opts ts t p blocks) first,
      )

abbrev pub high_mark : Bytes → ℤ → MemoryStorage → Option PartitionWaterMark
high_mark t p s = water_mark s.partitions.high_water_marks t p

abbrev pub low_mark : Bytes → ℤ → MemoryStorage → Option PartitionWaterMark
low_mark t p s = water_mark s.partitions.low_water_marks t p

pub handle_high :
    (m : PartitionWaterMark) (s : MemoryStorage)
    → handle_cluster (new_add_partition_high_water_mark_request m) s
      ≡ some (store_partition_high_water_mark m s)
unfolding handle_cluster new_add_partition_high_water_mark_request
handle_high m s = refl

pub handle_low :
    (m : PartitionWaterMark) (s : MemoryStorage)
    → handle_cluster (new_add_partition_low_water_mark_request m) s
      ≡ some (store_partition_low_water_mark m s)
unfolding handle_cluster new_add_partition_low_water_mark_request
handle_low m s = refl

pub stored_high :
    (m : PartitionWaterMark) (s : MemoryStorage) (t : Bytes) (p : ℤ)
    → high_mark t p (store_partition_high_water_mark m s)
      ≡ (if m.topic_name == t && m.partition_id == p then some m else high_mark t p s)
unfolding store_partition_high_water_mark
stored_high m s t p = store_mark-water_mark m s.partitions.high_water_marks t p

pub stored_low :
    (m : PartitionWaterMark) (s : MemoryStorage) (t : Bytes) (p : ℤ)
    → low_mark t p (store_partition_low_water_mark m s)
      ≡ (if m.topic_name == t && m.partition_id == p then some m else low_mark t p s)
unfolding store_partition_low_water_mark
stored_low m s t p = store_mark-water_mark m s.partitions.low_water_marks t p

-- If every response without an error has an offset, the high water marks of a broker's answer are sent
-- without a panic and handled by the cluster worker without a fault, and the storage then shows for
-- each partition the mark that the answer has for it; a partition with an error, of a topic that is
-- not allowed or not in the answer keeps what it had.
pub high_marks-answered :
    (opts : Options) (ts : ℤ) (blocks : Blocks) (known : OffsetMarks) (s : MemoryStorage)
    (t : Bytes) (p : ℤ)
    → IsAnswered blocks
    → (marks : OffsetMarks) × (sent : List StorageRequest) × (s' : MemoryStorage)
      × (process_high_water_marks opts ts (some blocks) known ≡ some (marks, sent))
      × (cluster_worker sent s ≡ some s')
      × (high_mark t p s' ≡ answered opts ts t p blocks (high_mark t p s))
unfolding process_high_water_marks
high_marks-answered opts ts blocks known s t p h =
    let (marks, sends) = high_topics-sent opts ts blocks (known, []) h in
    let (s', run, shows) =
      for-Shows opts ts new_add_partition_high_water_mark_request store_partition_high_water_mark
        high_mark handle_high stored_high t p blocks s in
    (
      marks,
      sent_for opts ts new_add_partition_high_water_mark_request blocks,
      s',
      sends,
      run,
      shows,
    )

-- If every response without an error has an offset, the low water marks of a broker's answer are sent
-- without a panic and handled by the cluster worker without a fault, and the storage then shows for
-- each partition the low mark that the answer has for it; a partition with an error, of a topic that
-- is not allowed or not in the answer keeps what it had.
pub low_marks-answered :
    (opts : Options) (ts : ℤ) (blocks : Blocks) (s : MemoryStorage) (t : Bytes) (p : ℤ)
    → IsAnswered blocks
    → (sent : List StorageRequest) × (s' : MemoryStorage) × (process_low_water_marks opts ts
          (some blocks)
        ≡ some sent)
      × (cluster_worker sent s ≡ some s')
      × (low_mark t p s' ≡ answered opts ts t p blocks (low_mark t p s))
unfolding process_low_water_marks
low_marks-answered opts ts blocks s t p h =
    let (s', run, shows) =
      for-Shows opts ts new_add_partition_low_water_mark_request store_partition_low_water_mark
        low_mark handle_low stored_low t p blocks s in
    (
      sent_for opts ts new_add_partition_low_water_mark_request blocks,
      s',
      low_topics-sent opts ts blocks h,
      run,
      shows,
    )
