-- ===== src/System/Scrape.antt =====
-- From the brokers' answers to the metrics: the cluster module, the storage and the collector together
-- (kafka/cluster.go, storage/memory.go, collector/collector.go).
mod Tests
use kafka_minion.Collector.{
  partition_high_water_mark, partition_low_water_mark, partition_message_count, Metric,
}
use kafka_minion.Collector.Scrape.{Reads, collect}
use kafka_minion.Collector.Scrape.Complete.{metric_of, scrape_shows_partition}
use kafka_minion.Collector.Scrape.Found.{Holds}
use kafka_minion.GoMap.{GoMap}
use kafka_minion.Kafka.Cluster.{Client, newest, oldest}
use kafka_minion.Kafka.Cluster.Refresh.{Network, Refresh}
use kafka_minion.Kafka.Cluster.Refresh.Complete.{Refresh-Shown}
use kafka_minion.Kafka.Cluster.Refresh.Handled.{says}
use kafka_minion.Kafka.Cluster.Refresh.Replies.{IsReply}
use kafka_minion.Kafka.Cluster.Refresh.Shown.{by_leader}
use kafka_minion.Kafka.Cluster.Stored.{high_mark, low_mark}
use kafka_minion.Kafka.Cluster.TopicPartitions.{topic_partitions}
use kafka_minion.Kafka.Cluster.WaterMarks.{OffsetMarks}
use kafka_minion.Kafka.Request.{PartitionWaterMark, StorageRequest}
use kafka_minion.Options.{Options}
use kafka_minion.Prelude.{◌≡◌, sym, ap, ◌∙◌, true, Bytes, some, some-eq, List}
use kafka_minion.Prelude.Int.{ℤ}
use kafka_minion.Prelude.Words.{sub64}
use kafka_minion.Storage.{MemoryStorage}
use kafka_minion.Storage.Invariant.{IsWellFormed}
use kafka_minion.Storage.Invariant.Workers.{cluster_worker-IsWellFormed}
use kafka_minion.Storage.Readers.{is_consumed}
use kafka_minion.Storage.Worker.{cluster_worker}

module _ {Broker : Type 0} (client : Client Broker) (network : Network Broker) (opts : Options)
    (reply : IsReply client network) (topics : GoMap Bytes (List ℤ)) where
  -- Kafka answers only for the partitions that a request asks for, with an offset where there is no
  -- error, and a broker is known by its ID. When a well-formed storage has handled what a refresh
  -- sent, in whatever order its goroutines ran, a scrape that reads the water marks then, is past
  -- the readiness and returns, shows for each partition the high and the low water mark that the
  -- partition's leader answered and, as the number of its messages, their difference. For a partition
  -- of a topic that is not allowed, one without a leader, and one whose leader's request failed or
  -- answered with an error for it, these are the marks known before. It is so for each partition of
  -- which both marks are then known.
  pub Refresh-scraped :
      (known marks : OffsetMarks) (sent : List StorageRequest) (s : MemoryStorage)
      {s' : MemoryStorage} (at_status at_offsets at_configs : MemoryStorage) (t : Bytes) (p : ℤ)
      {low high : PartitionWaterMark} {ms : List Metric}
      → IsWellFormed s
      → topic_partitions client ≡ some topics
      → Refresh client network opts known marks sent
      → cluster_worker sent s ≡ some s'
      → by_leader
          (says opts t p)
          client
          network
          network.low_time
          oldest
          topics
          (client.leader t p)
          (low_mark t p s)
        ≡ some low
      → by_leader
          (says opts t p)
          client
          network
          network.high_time
          newest
          topics
          (client.leader t p)
          (high_mark t p s)
        ≡ some high
      → is_consumed at_status ≡ true
      → collect (record {
        at_status = at_status;
        at_offsets = at_offsets;
        at_low = s';
        at_high = s';
        at_configs = at_configs;
      })
        ≡ some ms
      → Holds (metric_of partition_low_water_mark t p low.water_mark) ms
        × Holds (metric_of partition_high_water_mark t p high.water_mark) ms
        × Holds (metric_of partition_message_count t p (sub64 high.water_mark low.water_mark)) ms
  Refresh-scraped known marks sent s {s'} at_status at_offsets at_configs t p fits listed refreshed
        run low high consumed e =
      let (s1, run1, high1, low1) =
        Refresh-Shown client network opts reply topics known marks sent s t p listed refreshed in
      let same : s1 ≡ s' = some-eq (sym run1 ∙ run) in
      let fits' = cluster_worker-IsWellFormed sent s fits run in
      scrape_shows_partition _ t p fits' fits' consumed (ap (low_mark t p) (sym same) ∙ low1 ∙ low)
        (ap (high_mark t p) (sym same) ∙ high1 ∙ high) e
