-- ===== src/Kafka/Cluster/Refresh/Handled.antt =====
-- What the steps of a phase send, and what the storage shows after it has handled that.
use kafka_minion.GoMap.{GoMap}
use kafka_minion.Goroutines.{fold}
use kafka_minion.Kafka.Cluster.{OffsetResponse}
use kafka_minion.Kafka.Cluster.Answers.{
  HasOffset, AllAnswered, IsAnswered, answer, sent_one, high_response-sent, low_response-sent,
}
use kafka_minion.Kafka.Cluster.Refresh.{
  Received, received_in, received_for, process_high, process_low,
}
use kafka_minion.Kafka.Cluster.Stored.{worker-append}
use kafka_minion.Kafka.Cluster.WaterMarks.{OffsetMarks, Blocks, Sending, mark_of}
use kafka_minion.Kafka.Request.{
  PartitionWaterMark, StorageRequest, new_add_partition_high_water_mark_request,
  new_add_partition_low_water_mark_request,
}
use kafka_minion.Kafka.Topics.{is_topic_allowed}
use kafka_minion.Options.{Options}
use kafka_minion.Prelude.{
  ◌≡◌, refl, sym, ap, ◌∙◌, Bool, true, false, ◌&&◌, Bytes, bytes_eq, int_eq, Option, some, List, [],
  ◌∷◌, ◌++◌, ◌==◌, All, append_assoc, append-nil, Bool-cases, inl, inr, if◌then◌else◌,
}
use kafka_minion.Prelude.Int.{ℤ}
use kafka_minion.Storage.{MemoryStorage}
use kafka_minion.Storage.Worker.{handle_cluster, cluster_worker}

-- A response without an error has an offset.
abbrev pub Answers : Received → Type 0
Answers r = HasOffset r.response

received_in-Answers :
    (ts : ℤ) (topic : Bytes) (rs : GoMap ℤ OffsetResponse) (more : List Received)
    → AllAnswered rs
    → All Answers more
    → All Answers (received_in ts topic rs ++ more)
received_in-Answers ts topic [] more h m = m
received_in-Answers ts topic ((q, r) ∷ rs) more h m =
    (h.0, received_in-Answers ts topic rs more h.1 m)

pub received_for-Answers :
    (ts : ℤ) (blocks : Blocks) → IsAnswered blocks → All Answers (received_for ts blocks)
received_for-Answers ts [] h = tt
received_for-Answers ts ((topic, rs) ∷ blocks) h =
    received_in-Answers ts topic rs _ h.0 (received_for-Answers ts blocks h.1)

module _ (opts : Options) where
  abbrev pub sent_at : (PartitionWaterMark → StorageRequest) → Received → List StorageRequest
  sent_at request r =
      sent_one opts r.time request r.topic r.partition r.response.no_error r.response.offsets

  abbrev pub sent_all : (PartitionWaterMark → StorageRequest) → List Received → List StorageRequest
  sent_all request [] = []
  sent_all request (r ∷ rs) = sent_at request r ++ sent_all request rs

  pub process_high-sent :
      (run : List Received) (s : Sending)
      → All Answers run
      → (marks : OffsetMarks) × (process_high opts run s
          ≡ some (marks, s.1 ++ sent_all new_add_partition_high_water_mark_request run))
  unfolding process_high
  process_high-sent [] s h = (s.0, ap (λ l. some (s.0, l)) (sym (append-nil s.1)))
  process_high-sent (r ∷ rs) s h =
      let (m, run) =
        high_response-sent opts r.time r.topic r.partition r.response r.response.offsets s h.0 in
      let first = sent_at new_add_partition_high_water_mark_request r in
      let (n, run') = process_high-sent rs (m, s.1 ++ first) h.1 in
      (n, rw run (run' ∙ ap (λ l. some (n, l)) (append_assoc s.1 first _)))

  barred_nothing :
      (request : PartitionWaterMark → StorageRequest) (ts : ℤ) (topic : Bytes) (q : ℤ) (fine : Bool)
      (os : List ℤ)
      → is_topic_allowed opts topic ≡ false
      → sent_one opts ts request topic q fine os ≡ []
  barred_nothing request ts topic q true [] barred = refl
  barred_nothing request ts topic q true (offset ∷ os) barred = rw barred refl
  barred_nothing request ts topic q false os barred = refl

  pub process_low-sent :
      (run : List Received)
      → All Answers run
      → process_low opts run ≡ some (sent_all new_add_partition_low_water_mark_request run)
  unfolding process_low
  process_low-sent [] h = refl
  process_low-sent (r ∷ rs) h = elim (Bool-cases (is_topic_allowed opts r.topic)) [
    | inl allowed ↦ rw (
      allowed,
      low_response-sent opts r.time r.topic r.partition r.response r.response.offsets allowed h.0,
      process_low-sent rs h.1,
    )
    | inr barred ↦
        rw (barred, process_low-sent rs h.1)
          (ap (λ l. some (l ++ sent_all new_add_partition_low_water_mark_request rs))
            (sym (
              barred_nothing new_add_partition_low_water_mark_request r.time r.topic r.partition
                r.response.no_error r.response.offsets barred)))
  ]

  -- What a step says of the water mark of a partition.
  abbrev pub says : Bytes → ℤ → Received → Option PartitionWaterMark → Option PartitionWaterMark
  says t p r o = answer opts r.time t p r.topic r.partition r.response.no_error r.response.offsets o

-- For each kind of water mark: how the storage handles it, shows it and keeps the other kind.
module _ (opts : Options) (request : PartitionWaterMark → StorageRequest)
    (store : PartitionWaterMark → MemoryStorage → MemoryStorage)
    (shown kept : Bytes → ℤ → MemoryStorage → Option PartitionWaterMark)
    (handled : (m : PartitionWaterMark) (s : MemoryStorage)
      → handle_cluster (request m) s ≡ some (store m s))
    (stored : (m : PartitionWaterMark) (s : MemoryStorage) (t : Bytes) (p : ℤ)
      → shown t p (store m s)
        ≡ (if m.topic_name == t && m.partition_id == p then some m else shown t p s))
    (keeps : (m : PartitionWaterMark) (s : MemoryStorage) (t : Bytes) (p : ℤ)
      → kept t p (store m s) ≡ kept t p s)
    (t : Bytes) (p : ℤ) where
  -- Handling requests leaves a storage that shows o for the partition, and keeps the other mark.
  abbrev pub Leaves : List StorageRequest → MemoryStorage → Option PartitionWaterMark → Type 0
  Leaves rs s o =
      (s' : MemoryStorage) × (cluster_worker rs s ≡ some s')
      × (shown t p s' ≡ o)
      × (kept t p s' ≡ kept t p s)

  one-Leaves :
      (ts : ℤ) (topic : Bytes) (q : ℤ) (fine : Bool) (os : List ℤ) (s : MemoryStorage)
      → Leaves
          (sent_one opts ts request topic q fine os)
          s
          (answer opts ts t p topic q fine os (shown t p s))
  unfolding cluster_worker
  one-Leaves ts topic q true (offset ∷ os) s = elim (Bool-cases (is_topic_allowed opts topic)) [
    | inl allowed ↦
        let m = mark_of opts ts topic q offset in
        (store m s, rw (allowed, handled m s), stored m s t p ∙ (rw allowed refl), keeps m s t p)
    | inr barred ↦ (s, rw barred refl, rw barred refl, refl)
  ]
  one-Leaves ts topic q true [] s = (s, refl, refl, refl)
  one-Leaves ts topic q false os s = (s, refl, refl, refl)

  pub run-Leaves :
      (run : List Received) (s : MemoryStorage)
      → Leaves (sent_all opts request run) s (fold (says opts t p) run (shown t p s))
  run-Leaves [] s = unfold cluster_worker in (s, refl, refl, refl)
  run-Leaves (r ∷ rs) s =
      let (s1, run, first, same) =
        one-Leaves r.time r.topic r.partition r.response.no_error r.response.offsets s in
      let (s2, run', more, same') = run-Leaves rs s1 in
      (
        s2,
        worker-append (sent_at opts request r) (sent_all opts request rs) s run ∙ run',
        more ∙ ap (fold (says opts t p) rs) first,
        same' ∙ same,
      )
