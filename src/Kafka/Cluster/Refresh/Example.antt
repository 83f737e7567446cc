-- ===== src/Kafka/Cluster/Refresh/Example.antt =====
-- A refresh of two brokers that lead a partition each: the second one's goroutine is the first to run.
use kafka_minion.GoMap.{GoMap, get}
use kafka_minion.Goroutines.{Schedule, idle, started, over, left, right, routines}
use kafka_minion.Kafka.Cluster.{Client, Block, OffsetTime, OffsetResponse, newest, oldest}
use kafka_minion.Kafka.Cluster.Answers.{IsAnswered}
use kafka_minion.Kafka.Cluster.Refresh.{
  Received, received_for, process_high, process_low, Network, launch, Phases,
}
use kafka_minion.Kafka.Cluster.Refresh.Replies.{IsReply, AsksFor}
use kafka_minion.Kafka.Cluster.Requests.{Buckets, generate_offset_requests}
use kafka_minion.Kafka.Cluster.TopicPartitions.{topic_partitions}
use kafka_minion.Kafka.Cluster.WaterMarks.{OffsetMarks, Blocks}
use kafka_minion.Kafka.Request.{
  PartitionWaterMark, StorageRequest, new_add_partition_high_water_mark_request,
  new_add_partition_low_water_mark_request,
}
use kafka_minion.Options.{Options}
use kafka_minion.Prelude.{
  ◌≡◌, refl, true, false, Bytes, bytes_eq, int_eq, subst, none, some, some-eq, List, [], ◌∷◌, All,
  Any, inl, ◌==◌, if◌then◌else◌,
}
use kafka_minion.Prelude.Int.{ℤ, pos}

abbrev pub t : Bytes
t = b't' ∷ []

-- The brokers 7 and 8, given by their IDs; 8 leads partition 1.
abbrev pub client : Client ℤ
client = record {
  brokers = pos 7 ∷ pos 8 ∷ [];
  connected = λ _. true;
  id = λ b. b;
  topics = some (t ∷ []);
  partitions = λ _. some (pos 0 ∷ pos 1 ∷ []);
  leader = λ _ p. if p == pos 1 then some (pos 8) else some (pos 7);
  get_metadata = λ _. none;
  describe_configs = λ _ _. none;
}

abbrev pub offset_at : OffsetTime → ℤ
offset_at newest = pos 12
offset_at oldest = pos 3

abbrev pub answer_of : Block → Received
answer_of b = record {
  time = pos 0;
  topic = b.topic;
  partition = b.partition;
  response = record { no_error = true; offsets = offset_at b.time ∷ [] };
}

-- The first block is answered.
abbrev pub reply_to : List Block → Blocks
reply_to [] = []
reply_to (b ∷ bs) = (b.topic, (b.partition, (answer_of b).response) ∷ []) ∷ []

abbrev pub network : Network ℤ
network = record {
  available = λ _ blocks. some (reply_to blocks);
  high_time = λ _. pos 1000;
  low_time = λ _. pos 2000;
}

reply_to-IsAnswered : (blocks : List Block) → IsAnswered (reply_to blocks)
reply_to-IsAnswered [] = tt
reply_to-IsAnswered (b ∷ bs) = (((λ fine e. cc), tt), tt)

reply_to-asked :
    (ts : ℤ) (blocks : List Block)
    → All (λ r. Any (AsksFor r) blocks) (received_for ts (reply_to blocks))
reply_to-asked ts [] = tt
reply_to-asked ts (b ∷ bs) = (inl (refl, refl), tt)

pub network-IsReply : IsReply client network
network-IsReply = record {
  has_offsets = λ broker blocks answer e. subst IsAnswered (some-eq e) (reply_to-IsAnswered blocks);
  only_asked = λ ts broker blocks. reply_to-asked ts blocks;
  one_broker = λ b c e. e;
}

abbrev pub opts : Options
opts = record {
  telemetry_host = [];
  telemetry_port = pos 8080;
  log_level = [];
  version = [];
  ignore_system_topics = true;
  kafka_brokers = [];
  consumer_offsets_topic_name = b't' ∷ [];
  sasl_enabled = false;
  use_sasl_handshake = true;
  sasl_username = [];
  sasl_password = [];
  tls_enabled = false;
  tls_ca_file_path = [];
  tls_key_file_path = [];
  tls_cert_file_path = [];
  tls_insecure_skip_tls_verify = true;
  tls_passphrase = [];
  metrics_prefix = [];
}

-- The partitions stand behind two zeros.
abbrev pub topics : GoMap Bytes (List ℤ)
topics = (t, pos 0 ∷ pos 0 ∷ pos 0 ∷ pos 1 ∷ []) ∷ []

pub topics_listed : topic_partitions client ≡ some topics
unfolding topic_partitions kafka_minion.Kafka.Cluster.TopicPartitions.append_partitions
    kafka_minion.GoMap.put
topics_listed = refl

abbrev pub block_at : OffsetTime → ℤ → Block
block_at time p = record { topic = t; partition = p; time = time }

abbrev pub requests : OffsetTime → GoMap ℤ (List Block)
requests time =
    (pos 7, block_at time (pos 0) ∷ block_at time (pos 0) ∷ block_at time (pos 0) ∷ [])
    ∷ (pos 8, block_at time (pos 1) ∷ [])
    ∷ []

abbrev pub buckets : Buckets ℤ
buckets = record {
  high = requests newest;
  low = requests oldest;
  leaders = (pos 7, pos 7) ∷ (pos 8, pos 8) ∷ [];
}

pub generated : generate_offset_requests client topics ≡ some buckets
unfolding generate_offset_requests get kafka_minion.GoMap.has kafka_minion.GoMap.put
generated = refl

abbrev pub step_of : ℤ → OffsetTime → ℤ → Received
step_of ts time p = record {
  time = ts;
  topic = t;
  partition = p;
  response = record { no_error = true; offsets = offset_at time ∷ [] };
}

abbrev pub steps : ℤ → OffsetTime → GoMap ℤ (List Received)
steps ts time = (pos 7, step_of ts time (pos 0) ∷ []) ∷ (pos 8, step_of ts time (pos 1) ∷ []) ∷ []

second_first :
    (ts : ℤ) (time : OffsetTime)
    → Schedule (routines (steps ts time)) (step_of ts time (pos 1) ∷ step_of ts time (pos 0) ∷ [])
second_first ts time = started (started idle (left _ over)) (right _ (left _ over))

abbrev pub marks : OffsetMarks
marks =
    (pos 1, record { partition_id = pos 1; high_water_mark = pos 12 })
    ∷ (pos 0, record { partition_id = pos 0; high_water_mark = pos 12 })
    ∷ []

abbrev pub mark_at : ℤ → OffsetTime → ℤ → PartitionWaterMark
mark_at ts time p = record {
  topic_name = t;
  partition_id = p;
  water_mark = offset_at time;
  timestamp = ts;
}

abbrev pub sent : List StorageRequest
sent =
    new_add_partition_high_water_mark_request (mark_at (pos 1000) newest (pos 1))
    ∷ new_add_partition_high_water_mark_request (mark_at (pos 1000) newest (pos 0))
    ∷ new_add_partition_low_water_mark_request (mark_at (pos 2000) oldest (pos 1))
    ∷ new_add_partition_low_water_mark_request (mark_at (pos 2000) oldest (pos 0))
    ∷ []

pub phases : Phases client network buckets opts [] marks sent
unfolding launch process_high process_low get kafka_minion.GoMap.put
    kafka_minion.Kafka.Topics.is_topic_allowed
phases = record {
  high_routines = steps (pos 1000) newest;
  high_run = _;
  high_sent = _;
  high_launched = refl;
  high_scheduled = second_first (pos 1000) newest;
  high_processed = refl;
  low_routines = steps (pos 2000) oldest;
  low_run = _;
  low_sent = _;
  low_launched = refl;
  low_scheduled = second_first (pos 2000) oldest;
  low_processed = refl;
  all_sent = refl;
}
