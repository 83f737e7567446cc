-- ===== src/Kafka/Tests.antt =====
-- The theorems on the package kafka at concrete messages.
use kafka_minion.GoMap.{GoMap, get}
use kafka_minion.Kafka.Consumer.{ConsumerMessage, process_message}
use kafka_minion.Kafka.Consumer.Messages.{
  v3, write_value, process_commit, process_tombstone, process_other,
}
use kafka_minion.Kafka.Consumer.Partition.{
  new_partition_consumer, caught_up, Run, here, more, fire, tick_ready,
}
use kafka_minion.Kafka.Consumer.Partition.Reports.{reports, reports_at_most_twice, reports_twice}
use kafka_minion.Kafka.Metadata.{new_consumer_group_metadata}
use kafka_minion.Kafka.Metadata.Encode.{write_group, Extras, AssignmentFits, MemberFits, GroupFits}
use kafka_minion.Kafka.Metadata.ReadGroup.{decode_metadata-write}
use kafka_minion.Kafka.Metadata.Types.{MetadataHeader, MetadataMember}
use kafka_minion.Kafka.Offset.{
  ConsumerPartitionOffset, unknown_value_version, new_consumer_partition_offset,
}
use kafka_minion.Kafka.Offset.RoundTrip.{IsEncodable, write_key, decode_commit_unknown}
use kafka_minion.Kafka.Request.{
  new_add_consumer_offset_request, new_delete_consumer_group_request,
  new_mark_offset_partition_ready_request,
}
use kafka_minion.Kafka.Topics.{is_topic_allowed}
use kafka_minion.Kafka.Wire.{read_int, read_string}
use kafka_minion.Kafka.Wire.Encode.{write_int, write_int16, write_string}
use kafka_minion.Kafka.Wire.ReadInt.{read_int-write_int}
use kafka_minion.Kafka.Wire.Strings.{IsEncoding, IsNegative, read_string_iff}
use kafka_minion.Options.{Options}
use kafka_minion.Outcome.{ok, err, panic}
use kafka_minion.Prelude.{
  ℕ, ◌+◌, ◌*◌, ◌≤◌, ◌≡◌, ◌↔◌, ◌⊎◌, refl, Bool, true, false, Bytes, bytes_eq, Option, none, some,
  List, [], ◌∷◌, ◌++◌, inl, inr, length, if◌then◌else◌, arith,
}
use kafka_minion.Prelude.Int.{ℤ, pos, negsuc}
use kafka_minion.Prelude.Words.{half32}

abbrev opts : Options
opts = record {
  telemetry_host = [];
  telemetry_port = pos 8080;
  log_level = [];
  version = [];
  ignore_system_topics = true;
  kafka_brokers = [];
  consumer_offsets_topic_name = [];
  sasl_enabled = false;
  use_sasl_handshake = true;
  sasl_username = [];
  sasl_password = [];
  tls_enabled = false;
  tls_ca_file_path = [];
  tls_key_file_path = [];
  tls_cert_file_path = [];
  tls_insecure_skip_tls_verify = true;
  tls_passphrase = [];
  metrics_prefix = [];
}

abbrev an_offset : ConsumerPartitionOffset
an_offset = record {
  group = b'g' ∷ [];
  topic = b't' ∷ b'o' ∷ [];
  partition = pos 3;
  offset = pos 70000;
  timestamp = pos 1552723003465;
}

an_offset-IsEncodable : IsEncodable an_offset
an_offset-IsEncodable = record {
  group_short = omega arith;
  topic_short = omega arith;
  partition_fits = omega arith;
  offset_fits = omega arith;
  timestamp_fits = omega arith;
}

abbrev meta : Bytes
meta = b'm' ∷ []

int_read_back :
    read_int half32 4 (write_int half32 4 (negsuc 6) ++ (1 ∷ [])) ≡ ok (negsuc 6, 1 ∷ [])
int_read_back =
    read_int-write_int half32 4 (negsuc 6) (1 ∷ []) (omega arith) (omega arith) (omega arith)

read_string_iff_example :
    ((read_string (0 ∷ 1 ∷ b't' ∷ b'e' ∷ []) ≡ ok (b't' ∷ [], b'e' ∷ []))
      ↔ IsEncoding (b't' ∷ []) (b'e' ∷ []) (0 ∷ 1 ∷ b't' ∷ b'e' ∷ []))
    × ((read_string (0 ∷ 1 ∷ b't' ∷ b'e' ∷ []) ≡ panic) ↔ IsNegative (0 ∷ 1 ∷ b't' ∷ b'e' ∷ []))
read_string_iff_example =
    read_string_iff (0 ∷ 1 ∷ b't' ∷ b'e' ∷ []) (b'e' ∷ []) (b't' ∷ [])
      (omega arith, (omega arith, (omega arith, (omega arith, tt))))

two_read : read_string (0 ∷ 1 ∷ b't' ∷ b'e' ∷ []) ≡ ok (b't' ∷ [], b'e' ∷ [])
unfolding read_string read_int
two_read = refl

decode_commit_unknown_example :
    new_consumer_partition_offset (write_key an_offset []) (write_int16 (pos 2) ++ [])
    ≡ err (unknown_value_version (pos 2))
decode_commit_unknown_example =
    decode_commit_unknown an_offset (pos 2) [] [] an_offset-IsEncodable (omega arith) (λ e. cc)
      (λ e. cc) (λ e. cc)

abbrev commit_message : ConsumerMessage
commit_message = record {
  topic = [];
  key = write_int16 (pos 1) ++ write_key an_offset [];
  value = write_value (v3 (pos 5) (omega arith)) an_offset meta [];
  partition = pos 0;
  offset = pos 12;
}

process_commit_example :
    process_message opts commit_message
    ≡ some (
        if is_topic_allowed opts an_offset.topic
        then new_add_consumer_offset_request an_offset ∷ []
        else [])
process_commit_example =
    process_commit opts commit_message (pos 1) (v3 (pos 5) (omega arith)) an_offset meta [] []
      (inr refl) an_offset-IsEncodable (omega arith) refl refl

abbrev tombstone_message : ConsumerMessage
tombstone_message = record commit_message { value = [] }

process_tombstone_example :
    process_message opts tombstone_message
    ≡ some
        (new_delete_consumer_group_request an_offset.group an_offset.topic an_offset.partition ∷ [])
process_tombstone_example =
    process_tombstone opts tombstone_message (pos 1) an_offset [] (inr refl) (omega arith)
      (omega arith) (omega arith) refl refl

abbrev metadata_message : ConsumerMessage
metadata_message = record commit_message { key = write_int16 (pos 2) ++ write_string (b'g' ∷ []) }

metadata_sends_nothing : process_message opts metadata_message ≡ some []
metadata_sends_nothing =
    process_other opts metadata_message (pos 2) (write_string (b'g' ∷ [])) (omega arith) (λ e. cc)
      (λ e. cc) refl

at_once : caught_up (pos 0) (some (pos 0)) ≡ true
unfolding caught_up kafka_minion.Prelude.Words.sub64 kafka_minion.Prelude.Int.◌-ℤ◌
at_once = refl

reports_twice_example :
    (s : _) × Run opts
      (pos 4)
      new_partition_consumer
      (new_mark_offset_partition_ready_request (pos 4)
        ∷ new_mark_offset_partition_ready_request (pos 4)
        ∷ [])
      s
reports_twice_example = reports_twice opts (pos 4) (some (pos 0)) at_once

reports_at_most_twice_example : reports (new_mark_offset_partition_ready_request (pos 4) ∷ []) ≤ 2
reports_at_most_twice_example = reports_at_most_twice opts (pos 4) (
    more (more here (fire refl refl) refl) (tick_ready (some (pos 0)) refl refl at_once refl refl)
      refl)

abbrev topics : GoMap Bytes (List ℤ)
topics = (b't' ∷ [], pos 0 ∷ pos 2 ∷ []) ∷ (b'u' ∷ [], pos 1 ∷ []) ∷ []

topics-AssignmentFits : AssignmentFits topics
unfolding get
topics-AssignmentFits = record {
  count = omega arith;
  each = (
    (omega arith, omega arith, (omega arith, (omega arith, tt))),
    ((omega arith, omega arith, (omega arith, tt)), tt),
  );
  unique = (refl, (refl, tt));
}

abbrev member : MetadataMember
member = record {
  member_id = b'm' ∷ b'1' ∷ [];
  client_id = b'c' ∷ [];
  client_host = b'h' ∷ [];
  rebalance_timeout = pos 60000;
  session_timeout = pos 10000;
  assignment = topics;
}

abbrev extras : Extras
extras = record {
  subscription = 0 ∷ 1 ∷ 2 ∷ [];
  protocol_version = pos 0;
  user_data_len = negsuc 0;
  user_data = [];
}

member-MemberFits : MemberFits (pos 2) member extras
unfolding write_int kafka_minion.Kafka.Wire.Encode.write_string
member-MemberFits = record {
  id_short = omega arith;
  client_short = omega arith;
  host_short = omega arith;
  rebalance_fits = omega arith;
  rebalance_zero = λ old. cc;
  session_fits = omega arith;
  subscription_fits = omega arith;
  protocol_fits = omega arith;
  protocol_nonneg = refl;
  user_data_fits = omega arith;
  data_fits = omega arith;
  assignment_fits = topics-AssignmentFits;
}

abbrev header : MetadataHeader
header = record {
  protocol_type = b'c' ∷ [];
  generation = pos 4;
  protocol = b'r' ∷ [];
  leader = b'm' ∷ b'1' ∷ [];
  timestamp = pos 1552723003465;
}

group-GroupFits : GroupFits (pos 2) header ((member, extras) ∷ [])
group-GroupFits = record {
  kind_short = omega arith;
  generation_fits = omega arith;
  protocol_short = omega arith;
  leader_short = omega arith;
  timestamp_fits = omega arith;
  timestamp_zero = λ old. cc;
  count_fits = omega arith;
  each = (member-MemberFits, tt);
}

decode_metadata-write_example :
    new_consumer_group_metadata
      (write_string (b'g' ∷ []) ++ [])
      (write_int16 (pos 2) ++ write_group (pos 2) header ((member, extras) ∷ []) [])
    ≡ ok (record { group = b'g' ∷ []; header = header; members = member ∷ [] })
decode_metadata-write_example =
    decode_metadata-write (pos 2) (b'g' ∷ []) header ((member, extras) ∷ []) [] [] (omega arith)
      group-GroupFits (inr (inr refl))
