-- ===== src/Kafka/Cluster/Tests.antt =====
-- The theorems on kafka/cluster.go at a cluster of one broker, which leads the partitions 0 and 1 of
-- the topic "t" and none of the topic "u".
use kafka_minion.GoMap.{GoMap, get}
use kafka_minion.Kafka.Cluster.{
  TopicMetadata, OffsetResponse, Block, OffsetTime, newest, oldest, Client,
}
use kafka_minion.Kafka.Cluster.Answers.{IsAnswered}
use kafka_minion.Kafka.Cluster.Asked.{asked, blocks_for, generate-asked}
use kafka_minion.Kafka.Cluster.Config.{Topics, delete_topic_if_needed}
use kafka_minion.Kafka.Cluster.Deletions.{topic_data, is_gone, nothing, worker-delete_missing}
use kafka_minion.Kafka.Cluster.Requests.{Buckets, block, generate_offset_requests}
use kafka_minion.Kafka.Cluster.TopicPartitions.{
  member, listed, list_partitions, topic_partitions, topic_partitions-zeros,
}
use kafka_minion.Kafka.Cluster.WaterMarks.{Blocks}
use kafka_minion.Options.{Options}
use kafka_minion.Prelude.{
  ◌≡◌, refl, true, false, Bytes, bytes_eq, int_eq, none, some, List, [], ◌∷◌, ◌==◌, if◌then◌else◌,
}
use kafka_minion.Prelude.Int.{ℤ, pos}
use kafka_minion.Storage.{MemoryStorage, new_memory_storage}
use kafka_minion.Storage.Worker.{cluster_worker}

abbrev t : Bytes
t = b't' ∷ []

abbrev u : Bytes
u = b'u' ∷ []

-- The broker is given by its id.
abbrev client : Client ℤ
client = record {
  brokers = pos 7 ∷ [];
  connected = λ _. true;
  id = λ b. b;
  topics = some (t ∷ []);
  partitions = λ topic. if topic == t then some (pos 0 ∷ pos 1 ∷ []) else none;
  leader = λ topic _. if topic == t then some (pos 7) else none;
  get_metadata = λ _. none;
  describe_configs = λ _ _. none;
}

-- The partitions 0 and 1 are listed behind two zeros.
two_zeros : list_partitions (pos 0 ∷ pos 1 ∷ []) ≡ pos 0 ∷ pos 0 ∷ pos 0 ∷ pos 1 ∷ []
unfolding list_partitions kafka_minion.Kafka.Cluster.TopicPartitions.append_partitions
two_zeros = refl

topic_partitions-zeros_example :
    (m : GoMap Bytes (List ℤ)) × (topic_partitions client ≡ some m)
    × ((topic : Bytes)
        → get topic m ≡ (if member topic (t ∷ []) then some (listed client topic) else none))
topic_partitions-zeros_example = topic_partitions-zeros client (t ∷ []) refl

abbrev partition_lists : GoMap Bytes (List ℤ)
partition_lists = (t, pos 0 ∷ pos 1 ∷ []) ∷ (u, pos 0 ∷ []) ∷ []

-- The partition of "u" has no leader and is left out.
two_blocks :
    blocks_for client (pos 7) newest partition_lists
    ≡ block t (pos 0) newest ∷ block t (pos 1) newest ∷ []
two_blocks = refl

generate-asked_example :
    (s : Buckets ℤ) × (generate_offset_requests client partition_lists ≡ some s)
    × (asked (pos 7) s.high ≡ blocks_for client (pos 7) newest partition_lists)
    × (asked (pos 7) s.low ≡ blocks_for client (pos 7) oldest partition_lists)
generate-asked_example = generate-asked client (pos 7) partition_lists

abbrev before : Topics
before =
    (t, record { name = t; partitions = pos 0 ∷ [] })
    ∷ (u, record { name = u; partitions = [] })
    ∷ []

abbrev now : Topics
now = (t, record { name = t; partitions = pos 0 ∷ [] }) ∷ []

worker-delete_missing_example :
    (s' : MemoryStorage) × (cluster_worker
        (delete_topic_if_needed now (some before)).0
        new_memory_storage
      ≡ some s')
    × (topic_data u s'
        ≡ (if is_gone u now before then nothing else topic_data u new_memory_storage))
worker-delete_missing_example = worker-delete_missing u now before new_memory_storage

abbrev opts : Options
opts = record {
  telemetry_host = [];
  telemetry_port = pos 8080;
  log_level = [];
  version = [];
  ignore_system_topics = true;
  kafka_brokers = [];
  consumer_offsets_topic_name = b'_' ∷ b'_' ∷ [];
  sasl_enabled = false;
  use_sasl_handshake = true;
  sasl_username = [];
  sasl_password = [];
  tls_enabled = false;
  tls_ca_file_path = [];
  tls_key_file_path = [];
  tls_cert_file_path = [];
  tls_insecure_skip_tls_verify = true;
  tls_passphrase = [];
  metrics_prefix = [];
}

abbrev response : Blocks
response =
    (
      t,
      (pos 0, record { no_error = true; offsets = pos 12 ∷ [] })
          ∷ (pos 1, record { no_error = false; offsets = [] })
          ∷ [],
    )
    ∷ []

response-IsAnswered : IsAnswered response
response-IsAnswered = (((λ fine e. cc), ((λ fine e. cc), tt)), tt)
