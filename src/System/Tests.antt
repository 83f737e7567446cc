-- ===== src/System/Tests.antt =====
-- Two records of one partition: a deletion and a commit behind it.
use kafka_minion.GoMap.{get}
use kafka_minion.Kafka.Consumer.Messages.{v3}
use kafka_minion.Kafka.Offset.{ConsumerPartitionOffset}
use kafka_minion.Kafka.Offset.RoundTrip.{IsEncodable}
use kafka_minion.Kafka.Request.{StorageRequest}
use kafka_minion.Options.{Options}
use kafka_minion.Prelude.{
  ◌≡◌, refl, true, false, Bytes, bytes_eq, some, List, [], ◌∷◌, All, inr, arith,
}
use kafka_minion.Prelude.Int.{pos}
use kafka_minion.Storage.{MemoryStorage, new_memory_storage, offset_key}
use kafka_minion.Storage.History.{live, is, entry_of}
use kafka_minion.Storage.OffsetKey.{NoColon}
use kafka_minion.Storage.Worker.{consumer_offset_worker}
use kafka_minion.System.{
  Record, committed, deleted, IsWritable, all_written, actions_of, process_messages, messages_shown,
}

abbrev opts : Options
opts = record {
  telemetry_host = [];
  telemetry_port = pos 8080;
  log_level = [];
  version = [];
  ignore_system_topics = true;
  kafka_brokers = [];
  consumer_offsets_topic_name = [];
  sasl_enabled = false;
  use_sasl_handshake = true;
  sasl_username = [];
  sasl_password = [];
  tls_enabled = false;
  tls_ca_file_path = [];
  tls_key_file_path = [];
  tls_cert_file_path = [];
  tls_insecure_skip_tls_verify = true;
  tls_passphrase = [];
  metrics_prefix = [];
}

abbrev topic : Bytes
topic = b't' ∷ []

abbrev a_commit : ConsumerPartitionOffset
a_commit = record {
  group = b'g' ∷ [];
  topic = topic;
  partition = pos 2;
  offset = pos 41;
  timestamp = pos 1000;
}

abbrev records : List Record
records =
    deleted (pos 1) a_commit []
    ∷ committed (pos 1) (v3 (pos 0) (omega arith)) a_commit [] [] []
    ∷ []

topic-NoColon : NoColon topic
topic-NoColon = ground arith

a_commit-IsEncodable : IsEncodable a_commit
a_commit-IsEncodable = record {
  group_short = omega arith;
  topic_short = omega arith;
  partition_fits = omega arith;
  offset_fits = omega arith;
  timestamp_fits = omega arith;
}

records-IsWritable : All IsWritable records
records-IsWritable = (
  (inr refl, a_commit-IsEncodable, topic-NoColon),
  ((inr refl, a_commit-IsEncodable, omega arith, topic-NoColon), tt),
)

messages_shown_example :
    (sent : List StorageRequest) × (s : MemoryStorage) × (process_messages opts
        (all_written records)
      ≡ some sent)
    × (consumer_offset_worker sent new_memory_storage ≡ some s)
    × (get (offset_key (b'g' ∷ []) topic (pos 2)) s.groups.offsets
        ≡ entry_of (live (is (b'g' ∷ []) topic (pos 2)) (actions_of opts records)))
messages_shown_example =
    messages_shown opts (b'g' ∷ []) topic (pos 2) records topic-NoColon records-IsWritable
