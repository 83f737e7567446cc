-- ===== src/Kafka/Cluster.antt =====
-- kafka/cluster.go: what the cluster module asks of the brokers and sends to the storage. The client
-- and the brokers of sarama are a parameter; log calls are left out, and an error is `none`.
pub mod Config
pub mod Deletions
pub mod TopicPartitions
pub mod Requests
pub mod Asked
pub mod WaterMarks
pub mod Answers
pub mod StoreMark
pub mod Stored
pub mod Refresh
mod Tests
use kafka_minion.GoMap.{GoMap}
use kafka_minion.Prelude.{
  ℕ, ◌%◌, Bool, true, false, Bytes, Option, none, some, List, [], ◌∷◌, length, get_elem?,
  if◌then◌else◌, ltb,
}
use kafka_minion.Prelude.Int.{ℤ}

-- The fields of `sarama.TopicMetadata` that are used.
pub record TopicMetadata : Type 0 where
  pub name : Bytes
  pub partitions : List ℤ

-- A resource of a `DescribeConfigs` response: its error code, and the values of its configs.
pub record ConfigResponse : Type 0 where
  pub error_code : ℤ
  pub name : Bytes
  pub config_values : List Bytes

-- A partition's answer to an offset request.
pub record OffsetResponse : Type 0 where
  pub no_error : Bool
  pub offsets : List ℤ

-- The time of an offset request: `sarama.OffsetNewest` or `sarama.OffsetOldest`.
pub data OffsetTime : Type 0 where
  newest oldest : OffsetTime

-- A call of `AddBlock` on an offset request.
pub record Block : Type 0 where
  pub topic : Bytes
  pub partition : ℤ
  pub time : OffsetTime

-- What the module uses of `sarama.Client` and `sarama.Broker`.
pub record Client (Broker : Type 0) : Type 0 where
  pub brokers : List Broker
  -- `connected, err := broker.Connected()`, and whether there is no error and it is true
  pub connected : Broker → Bool
  pub id : Broker → ℤ
  pub topics : Option (List Bytes)
  pub partitions : Bytes → Option (List ℤ)
  pub leader : Bytes → ℤ → Option Broker
  pub get_metadata : Broker → Option (List TopicMetadata)
  pub describe_configs : Broker → List Bytes → Option (List ConfigResponse)

module _ {Broker : Type 0} (client : Client Broker) where
  connected_brokers : List Broker → List Broker
  connected_brokers [] = []
  connected_brokers (b ∷ bs) =
      let rest = connected_brokers bs in if client.connected b then b ∷ rest else rest

  -- `rand.Int() % len(connectedBrokers)`, where the random number is a parameter.
  unfoldable pub get_any_broker : ℕ → Option Broker
  unfolding connected_brokers
  get_any_broker random =
      let bs = connected_brokers client.brokers in get_elem? bs (random % length bs)

  unfoldable pub is_healthy : Bool
  is_healthy = ltb 0 (length client.brokers)
