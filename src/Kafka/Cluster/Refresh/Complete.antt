-- ===== src/Kafka/Cluster/Refresh/Complete.antt =====
-- A whole refresh: no order of the goroutines panics, and all leave the same marks.
use kafka_minion.GoMap.{GoMap, get}
use kafka_minion.Goroutines.{Schedule, routines, fold}
use kafka_minion.Kafka.Cluster.{Client, newest, oldest}
use kafka_minion.Kafka.Cluster.Refresh.{
  Received, process_high, process_low, Network, launch, Phases, Refresh, no_topics, collected,
}
use kafka_minion.Kafka.Cluster.Refresh.Begun.{
  generate-Started, started_for, high_run-Answers, low_run-Answers, fold-high_run, fold-low_run,
  high_order, low_order, Phases-sent,
}
use kafka_minion.Kafka.Cluster.Refresh.Handled.{
  says, sent_all, process_high-sent, process_low-sent, run-Leaves,
}
use kafka_minion.Kafka.Cluster.Refresh.Marks.{process_high-marks}
use kafka_minion.Kafka.Cluster.Refresh.Replies.{IsReply, says-Silent, notes, notes-Silent}
use kafka_minion.Kafka.Cluster.Refresh.Shown.{by_leader}
use kafka_minion.Kafka.Cluster.Requests.{Buckets, generate_offset_requests}
use kafka_minion.Kafka.Cluster.Stored.{
  worker-append, high_mark, low_mark, handle_high, handle_low, stored_high, stored_low,
}
use kafka_minion.Kafka.Cluster.TopicPartitions.{topic_partitions}
use kafka_minion.Kafka.Cluster.WaterMarks.{OffsetMarks}
use kafka_minion.Kafka.Request.{
  PartitionWaterMark, StorageRequest, new_add_partition_high_water_mark_request,
  new_add_partition_low_water_mark_request,
}
use kafka_minion.Options.{Options}
use kafka_minion.Prelude.{
  ◌≡◌, refl, sym, ap, ◌∙◌, subst, Bytes, bytes_eq, int_eq, some, some-eq, List, [],
}
use kafka_minion.Prelude.Int.{ℤ}
use kafka_minion.Storage.{
  MemoryStorage, store_partition_high_water_mark, store_partition_low_water_mark,
}
use kafka_minion.Storage.Worker.{cluster_worker}

keeps_low :
    (m : PartitionWaterMark) (s : MemoryStorage) (t : Bytes) (p : ℤ)
    → low_mark t p (store_partition_high_water_mark m s) ≡ low_mark t p s
unfolding store_partition_high_water_mark
keeps_low m s t p = refl

keeps_high :
    (m : PartitionWaterMark) (s : MemoryStorage) (t : Bytes) (p : ℤ)
    → high_mark t p (store_partition_low_water_mark m s) ≡ high_mark t p s
unfolding store_partition_low_water_mark
keeps_high m s t p = refl

module _ {Broker : Type 0} (client : Client Broker) (network : Network Broker) (opts : Options)
    (reply : IsReply client network) (topics : GoMap Bytes (List ℤ)) where
  -- Kafka answers only for the partitions that a request asks for, with an offset where there is no
  -- error, and a broker is known by its ID. Then a request is made for every broker without a nil
  -- pointer, each has its goroutine, and in whatever order the goroutines of the two phases run, none
  -- of them panics.
  pub refresh_total :
      (known : OffsetMarks)
      → (buckets : Buckets Broker) × (generate_offset_requests client topics ≡ some buckets)
        × (high : GoMap ℤ (List Received)) × (low : GoMap ℤ (List Received)) × (launch client
              network network.high_time buckets.leaders buckets.high
            ≡ some high)
        × (launch client network network.low_time buckets.leaders buckets.low ≡ some low)
        × ((high_run low_run : List Received)
            → Schedule (routines high) high_run
            → Schedule (routines low) low_run
            → (marks : OffsetMarks) × (high_sent : List StorageRequest) × (low_sent : List
                StorageRequest)
              × (process_high opts high_run (known, []) ≡ some (marks, high_sent))
              × (process_low opts low_run ≡ some low_sent))
  refresh_total known =
      let (buckets, s) = generate-Started client network reply topics in
      (
        buckets,
        s.generated,
        s.high,
        s.low,
        s.high_launched.launched,
        s.low_launched.launched,
        λ high_run low_run high low.
            let (marks, sent) =
              process_high-sent opts high_run (known, [])
                (high_run-Answers client network reply topics s high) in
            let low_sent =
              process_low-sent opts low_run (low_run-Answers client network reply topics s low) in
            (marks, _, _, sent, low_sent),
      )

  -- What a refresh leaves of the two water marks of a partition.
  abbrev pub Shown : List StorageRequest → MemoryStorage → Bytes → ℤ → Type 0
  Shown sent s t p =
      (s' : MemoryStorage) × (cluster_worker sent s ≡ some s')
      × (high_mark t p s'
          ≡ by_leader (says opts t p) client network network.high_time newest topics
              (client.leader t p) (high_mark t p s))
      × (low_mark t p s'
          ≡ by_leader (says opts t p) client network network.low_time oldest topics
              (client.leader t p) (low_mark t p s))

  Phases-Shown :
      (buckets : Buckets Broker) (known : OffsetMarks) (marks : OffsetMarks)
      (sent : List StorageRequest) (s : MemoryStorage) (t : Bytes) (p : ℤ)
      → generate_offset_requests client topics ≡ some buckets
      → Phases client network buckets opts known marks sent
      → Shown sent s t p
  Phases-Shown buckets known marks sent s t p generated phases =
      let started = started_for client network reply topics buckets generated in
      let (s1, run1, high1, low1) =
        run-Leaves opts new_add_partition_high_water_mark_request store_partition_high_water_mark
          high_mark low_mark handle_high stored_high keeps_low t p phases.high_run s in
      let (s2, run2, low2, high2) =
        run-Leaves opts new_add_partition_low_water_mark_request store_partition_low_water_mark
          low_mark high_mark handle_low stored_low keeps_high t p phases.low_run s1 in
      (
        s2,
        ap (λ l. cluster_worker l s) (Phases-sent client network reply topics started phases)
            ∙ worker-append
                (sent_all opts new_add_partition_high_water_mark_request phases.high_run)
                (sent_all opts new_add_partition_low_water_mark_request phases.low_run) s run1
            ∙ run2,
        high2
            ∙ high1
            ∙ fold-high_run client network reply topics started (says opts t p) t p
                (says-Silent opts t p) (high_mark t p s)
                (high_order client network reply topics started phases),
        low2
            ∙ ap (fold (says opts t p) phases.low_run) low1
            ∙ fold-low_run client network reply topics started (says opts t p) t p
                (says-Silent opts t p) (low_mark t p s)
                (low_order client network reply topics started phases),
      )

  -- Kafka answers only for the partitions that a request asks for, with an offset where there is no
  -- error, and a broker is known by its ID. Then what a refresh of the listed topics has sent, the
  -- cluster worker handles without a fault, and the storage shows for each partition the high and
  -- the low water mark that its leader's answer has for it, in whatever order the goroutines ran. A
  -- partition without a leader keeps what it had, and so does one whose leader's request failed or
  -- answered with an error for it, and one of a topic that is not allowed.
  pub Refresh-Shown :
      (known : OffsetMarks) (marks : OffsetMarks) (sent : List StorageRequest) (s : MemoryStorage)
      (t : Bytes) (p : ℤ)
      → topic_partitions client ≡ some topics
      → Refresh client network opts known marks sent
      → Shown sent s t p
  Refresh-Shown known marks sent s t p listed (no_topics missing) = cc (listed, missing)
  Refresh-Shown known marks sent s t p listed (collected {buckets = buckets} e generated phases) =
      Phases-Shown buckets known marks sent s t p
        (subst (λ x. generate_offset_requests client x ≡ some buckets) (some-eq (sym e ∙ listed))
          generated)
        phases

  -- Kafka answers only for the partitions that a request asks for, with an offset where there is no
  -- error, and a broker is known by its ID. Then, after a refresh of the listed topics, the high
  -- water mark of a partition of the offsets topic, with which its partition consumer compares, is
  -- the one that the partition's leader answered, in whatever order the goroutines ran. It is the
  -- one before if there is no leader, or no answer without an error.
  pub Refresh-marks :
      (known : OffsetMarks) (marks : OffsetMarks) (sent : List StorageRequest) (p : ℤ)
      → topic_partitions client ≡ some topics
      → Refresh client network opts known marks sent
      → get p marks
        ≡ by_leader
            (notes opts p)
            client
            network
            network.high_time
            newest
            topics
            (client.leader opts.consumer_offsets_topic_name p)
            (get p known)
  Refresh-marks known marks sent p listed (no_topics missing) = cc (listed, missing)
  Refresh-marks known marks sent p listed (collected {buckets = buckets} e generated phases) =
      let started =
        started_for client network reply topics buckets
          (ap (generate_offset_requests client) (some-eq (sym listed ∙ e)) ∙ generated) in
      process_high-marks opts p phases.high_run (known, []) phases.high_processed
      ∙ fold-high_run client network reply topics started (notes opts p)
          opts.consumer_offsets_topic_name p (notes-Silent opts p) (get p known)
          (high_order client network reply topics started phases)
