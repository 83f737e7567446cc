-- ===== src/Kafka/Start.antt =====
-- NewCluster of kafka/cluster.go, NewOffsetConsumer and the beginning of Start of
-- kafka/offset_consumer.go: how the modules get their clients. `none` is a panic.
use kafka_minion.Kafka.Cluster.Config.{Topics}
use kafka_minion.Kafka.Connection.{ClientConfig, Platform, ◌>>=◌, sarama_client_config}
use kafka_minion.Kafka.Consumer.Partition.{start_requests}
use kafka_minion.Kafka.Request.{StorageRequest}
use kafka_minion.Options.{Options}
use kafka_minion.Prelude.{Bytes, Option, none, some, List}
use kafka_minion.Prelude.Int.{ℤ}

-- The functions of sarama that make the clients.
pub record Sarama (Cert Client Admin Reader : Type 0) : Type 0 where
  pub new_client : List Bytes → ClientConfig Cert → Option Client
  pub new_cluster_admin : List Bytes → ClientConfig Cert → Option Admin
  pub new_consumer_from_client : Client → Option Reader
  pub partitions : Client → Bytes → Option (List ℤ)

-- Without the logger and the channel.
pub record ClusterModule (Client Admin : Type 0) : Type 0 where
  pub client : Client
  pub admin : Admin
  pub options : Options
  pub topic_by_name : Option Topics

pub record OffsetConsumer (Client : Type 0) : Type 0 where
  pub client : Client
  pub offsets_topic_name : Bytes
  pub options : Options

-- What `Start` sends, and the partitions for which it starts a partition consumer each.
pub record Started (Reader : Type 0) : Type 0 where
  pub reader : Reader
  pub sent : List StorageRequest
  pub consumers : List ℤ

module _ {Pem Cert Client Admin Reader : Type 0} (os : Platform Pem Cert)
    (sarama : Sarama Cert Client Admin Reader) where
  unfoldable pub new_cluster : Options → Option (ClusterModule Client Admin)
  new_cluster opts = sarama_client_config os opts >>= λ config.
      sarama.new_client opts.kafka_brokers config >>= λ client.
      sarama.new_cluster_admin opts.kafka_brokers config >>= λ admin.
      some (record { client = client; admin = admin; options = opts; topic_by_name = none })

  unfoldable pub new_offset_consumer : Options → Option (OffsetConsumer Client)
  new_offset_consumer opts = sarama_client_config os opts >>= λ config.
      sarama.new_client opts.kafka_brokers config >>= λ client. some (record {
        client = client;
        offsets_topic_name = opts.consumer_offsets_topic_name;
        options = opts;
      })

  unfoldable pub start : OffsetConsumer Client → Option (Started Reader)
  start consumer = sarama.new_consumer_from_client consumer.client >>= λ reader.
      sarama.partitions consumer.client consumer.offsets_topic_name >>= λ partitions.
      some (record { reader = reader; sent = start_requests partitions; consumers = partitions })
