-- ===== src/System/Scrape/Tests.antt =====
-- A scrape behind the refresh of two brokers.
use kafka_minion.Collector.{
  Metric, partition_high_water_mark, partition_low_water_mark, partition_message_count,
}
use kafka_minion.Collector.Scrape.{collect}
use kafka_minion.Collector.Scrape.Complete.{metric_of}
use kafka_minion.Collector.Scrape.Labels.{IsLabelled, collect-IsLabelled}
use kafka_minion.Collector.Scrape.Found.{Holds}
use kafka_minion.Kafka.Cluster.Refresh.{collected}
use kafka_minion.Kafka.Cluster.Refresh.Example.{
  t, client, network, network-IsReply, opts, topics, topics_listed, generated, marks, sent, phases,
}
use kafka_minion.Prelude.{◌≡◌, refl, true, some, List, [], ◌∷◌, ◌++◌, All, Bytes}
use kafka_minion.Prelude.Int.{pos}
use kafka_minion.Prelude.Words.{sub64}
use kafka_minion.Storage.{MemoryStorage, new_memory_storage}
use kafka_minion.Storage.Invariant.{new-IsWellFormed}
use kafka_minion.Storage.Readers.{consumer_offsets, is_consumed}
use kafka_minion.Storage.Worker.{cluster_worker}
use kafka_minion.System.Scrape.{Refresh-scraped}

handled : (s' : MemoryStorage) × (cluster_worker sent new_memory_storage ≡ some s')
unfolding cluster_worker new_memory_storage kafka_minion.Storage.Worker.handle_cluster
    kafka_minion.Kafka.Request.new_add_partition_high_water_mark_request
    kafka_minion.Kafka.Request.new_add_partition_low_water_mark_request
handled = (_, refl)

abbrev ready : MemoryStorage
ready = record new_memory_storage {
  status = record { not_ready_partition_consumers = pos 0; offset_topic_consumed = true };
}

scraped :
    (ms : List Metric) × (collect (record {
      at_status = ready;
      at_offsets = new_memory_storage;
      at_low = handled.0;
      at_high = handled.0;
      at_configs = new_memory_storage;
    })
      ≡ some ms)
unfolding collect handled new_memory_storage is_consumed
    kafka_minion.Collector.Offsets.collect_consumer_offsets
    kafka_minion.Collector.Groups.get_versioned_consumer_groups kafka_minion.Collector.Groups.scan
    consumer_offsets kafka_minion.GoMap.copy kafka_minion.Collector.Groups.mark_latest
scraped = (_, refl)

Refresh-scraped_example :
    Holds (metric_of partition_low_water_mark t (pos 1) (pos 3)) scraped.0
    × Holds (metric_of partition_high_water_mark t (pos 1) (pos 12)) scraped.0
    × Holds (metric_of partition_message_count t (pos 1) (sub64 (pos 12) (pos 3))) scraped.0
unfolding kafka_minion.Kafka.Topics.is_topic_allowed is_consumed
Refresh-scraped_example =
    Refresh-scraped client network opts network-IsReply topics [] marks sent new_memory_storage
      ready new_memory_storage new_memory_storage t (pos 1) new-IsWellFormed topics_listed
      (collected topics_listed generated phases) handled.1 refl refl refl scraped.1

-- The parts of a name, joined as `BuildFQName` does where none of them is empty.
abbrev join_name : Bytes → Bytes → Bytes → Bytes
join_name namespace subsystem name = namespace ++ b'_' ∷ subsystem ++ b'_' ∷ name

collect-IsLabelled_example : All (IsLabelled join_name opts) scraped.0
collect-IsLabelled_example = collect-IsLabelled join_name opts _ scraped.1
