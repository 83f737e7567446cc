-- ===== src/Lib.antt =====
-- Kafka Minion: an exporter of Prometheus metrics about the consumer groups of a Kafka cluster.
--
-- The parts of the program and how they interact. The offset consumer (kafka/offset_consumer.go)
-- reads every partition of the topic __consumer_offsets, decodes its messages with the decoders of
-- kafka/consumer_partition_offset.go, kafka/consumer_group_metadata.go and kafka/protocol_helper.go,
-- and sends requests (kafka/storage_request.go) into one channel. The cluster module
-- (kafka/cluster.go) asks the brokers for topics and water marks and sends its requests into another
-- channel. The storage (storage/memory.go) has one worker for each channel and keeps the maps behind
-- locks. The collector (collector/collector.go) reads copies of those maps on each scrape and turns
-- them into metrics, once the storage says that the offsets topic has been consumed.
--
-- Which file models which part:
--   Storage              the maps of MemoryStorage and its writers (storeOffsetEntry is
--                        store_offset_entry, deleteTopic is delete_topic_data, and so on)
--   Storage.Worker       consumerOffsetWorker and clusterWorker, Storage.Readers the readers
--   Storage.Action       the requests of the offset consumer, Storage.History what they amount to,
--                        Storage.Interleaving both workers side by side, Storage.Ready the readiness
--   Kafka.Wire           readString and binary.Read, Kafka.Wire.Encode the encoding they read
--   Kafka.Offset         newConsumerPartitionOffset and the value decoders
--   Kafka.Metadata       newConsumerGroupMetadata and the decoders of members and assignments
--   Kafka.Request        the requests and their constructors
--   Kafka.Consumer       processMessage and what it calls; Kafka.Consumer.Partition the goroutine of
--                        one partition as a step relation, with its ticker
--   Kafka.Topics         isTopicAllowed
--   Kafka.Cluster        getAnyBroker and IsHealthy; its children deleteTopicIfNeeded and
--                        refreshAndSendTopicConfig (Config; its repetition by mainLoop is
--                        Config.Known), topicPartitions (TopicPartitions),
--                        generateOffsetRequests (Requests), processHighWaterMarks and
--                        processLowWaterMarks (WaterMarks), refreshAndSendTopicMetadata (Refresh)
--   Kafka.Connection     saramaClientConfig and the functions that read the key files
--   Kafka.Start          NewCluster, NewOffsetConsumer and Start
--   Collector.Version    parseVersion and parseConsumerGroupName
--   Collector.Groups     getVersionedConsumerGroups
--   Collector.Lag, Collector.Offsets   collectConsumerOffsets
--   Collector.Scrape     Collect, Collector.Descriptions NewCollector and Describe
--   System               the offset consumer and the storage together; System.Readiness the partition
--                        consumers of Start beside the storage, System.Scrape the way from a
--                        broker's answer to the metrics
--   Http                 the check handlers of main.go
--   Options              options/options.go
-- Prelude, Outcome, GoMap, Goroutines, Strconv and Float64 hold what the program uses of Go and its
-- library.
--
-- How Go is modelled:
--   * A string or a byte slice is the list of its bytes, a signed integer an integer of Prelude.Int
--     with the wrap-around of Prelude.Words written out where the code computes with it.
--   * A map is an association list whose order is the order of one iteration. The theorems are about
--     every such list, so about every order in which `range` may visit a map.
--   * A float64 is the integer that it is: the program makes them of integers and adds one. The
--     rounding to 53 bits is that of IEEE 754, ties to even.
--   * A call that may fail returns an Outcome: a value, an error or a panic. Where a panic alone is
--     possible, an Option. Errors carry the field and the cause and not their text.
--   * Each method of the storage holds its locks while it runs, so it is one step. A scrape reads the
--     storage at several moments, each with a state of its own.
--   * Goroutines that a function starts and waits for are given by what each does step by step, and
--     a run of them is any order that keeps the order of each (Goroutines.Schedule). In a refresh one
--     partition's response is one step: the mark that is stored under its lock and the request that
--     is sent touch different state, so it does not matter what comes between the two.
--   * A channel is the list of what has been sent through it. Its capacity only delays a send.
-- Loops are recursion on lists or on the count that bounds them. Fuel is used twice: digits_of has
-- n + 1 for the digits of n, and round_at has 11 doublings, enough for numbers of 64 bits.
--
-- Not modelled: log calls, and the counters of kafka/metrics.go, which nothing reads back; the code
-- behind the loops over channels, which are never closed; mainLoop of cluster.go, which calls the
-- two refreshes on tickers; main, which wires the parts and starts the server; the reading of the
-- environment by envconfig. What sarama, the file system and the packages for PEM, TLS and X.509
-- return is a parameter wherever the code uses it: Client, Network, Sarama and Platform are the
-- records of these functions. Of client_golang, the panic of MustNewConstMetric on a label value that
-- is not valid UTF-8 is left out. The mark that a tick of a partition consumer finds is given with
-- the step: Kafka.Consumer.Partition.ReadUp and Progress say which marks these are.
pub mod Prelude
pub mod Outcome
pub mod Options
pub mod Goroutines
pub mod GoMap
pub mod Strconv
pub mod Float64
pub mod Kafka
pub mod Storage
pub mod Collector
pub mod Http
pub mod System
