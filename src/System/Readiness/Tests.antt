-- ===== src/System/Readiness/Tests.antt =====
-- Two partition consumers of empty partitions, of which the second reports first.
use kafka_minion.Goroutines.{Schedule, idle, started, over, left, right}
use kafka_minion.Kafka.Consumer.{ConsumerMessage, process_message}
use kafka_minion.Kafka.Consumer.Partition.{
  message, new_partition_consumer, caught_up, fire, tick_ready, here, more, start_requests,
}
use kafka_minion.Kafka.Consumer.Partition.Ready.{caught_up_known}
use kafka_minion.Kafka.Request.{StorageRequest, new_mark_offset_partition_ready_request}
use kafka_minion.Options.{Options}
use kafka_minion.Prelude.{
  inr, ◌==◌, int_eq, if◌then◌else◌, ◌<◌, ◌≤◌, ◌*◌, ◌≡◌, ◌↔◌, refl, true, false, Option, some, List,
  [], ◌∷◌, ◌++◌, All, length, arith,
}
use kafka_minion.Prelude.Int.{ℤ, pos}
use kafka_minion.Storage.{MemoryStorage, new_memory_storage}
use kafka_minion.Storage.Readers.{is_consumed}
use kafka_minion.Storage.Worker.{consumer_offset_worker}
use kafka_minion.System.Readiness.{
  Punctual, Consumer, partitions, all_sent, CaughtUp, have_reported, consumed-half_reported,
}
use kafka_minion.Http.{ready_check}
use kafka_minion.System.Readiness.Checked.{
  ready_check-All-CaughtUp, Reads, IsReadUp, ready_check-All-IsReadUp,
}
use kafka_minion.System.Readiness.Reached.{IsDone, BecomesReady, can_become_ready}

abbrev opts : Options
opts = record {
  telemetry_host = [];
  telemetry_port = pos 8080;
  log_level = [];
  version = [];
  ignore_system_topics = true;
  kafka_brokers = [];
  consumer_offsets_topic_name = [];
  sasl_enabled = false;
  use_sasl_handshake = true;
  sasl_username = [];
  sasl_password = [];
  tls_enabled = false;
  tls_ca_file_path = [];
  tls_key_file_path = [];
  tls_cert_file_path = [];
  tls_insecure_skip_tls_verify = true;
  tls_passphrase = [];
  metrics_prefix = [];
}

empty_read : caught_up (pos 0) (some (pos 0)) ≡ true
empty_read = (caught_up_known 0 0 (omega arith)).1 (omega arith)

abbrev reported : ℤ → Consumer opts
reported p = record {
  partition = p;
  state = record new_partition_consumer { reporting = true };
  sent = new_mark_offset_partition_ready_request p ∷ [];
  run =
      more (more here (fire refl refl) refl)
        (tick_ready (some (pos 0)) refl refl empty_read refl refl) refl;
}

abbrev new : ℤ → Consumer opts
new p = record { partition = p; state = new_partition_consumer; sent = []; run = here }

abbrev both : List (Consumer opts)
both = reported (pos 0) ∷ reported (pos 1) ∷ []

abbrev one_new : List (Consumer opts)
one_new = reported (pos 0) ∷ new (pos 1) ∷ []

abbrev ready_of : ℤ → StorageRequest
ready_of p = new_mark_offset_partition_ready_request p

second_first : Schedule (all_sent opts both) (ready_of (pos 1) ∷ ready_of (pos 0) ∷ [])
second_first = started (started idle (left _ over)) (right _ (left _ over))

consumed-half_reported_example :
    (s : MemoryStorage) × (consumer_offset_worker
        (start_requests (partitions opts both) ++ ready_of (pos 1) ∷ ready_of (pos 0) ∷ [])
        new_memory_storage
      ≡ some s)
    × (is_consumed s ≡ true → length both ≤ 2 * have_reported opts both)
consumed-half_reported_example =
    consumed-half_reported opts both (ready_of (pos 1) ∷ ready_of (pos 0) ∷ []) second_first
      (omega arith)

ready_check-All-CaughtUp_example :
    (s : MemoryStorage) × (consumer_offset_worker
        (start_requests (partitions opts both) ++ ready_of (pos 1) ∷ ready_of (pos 0) ∷ [])
        new_memory_storage
      ≡ some s)
    × (((ready_check s).status ≡ 200) ↔ ((0 < length both) × All (CaughtUp opts) both))
ready_check-All-CaughtUp_example =
    ready_check-All-CaughtUp opts both (ready_of (pos 1) ∷ ready_of (pos 0) ∷ [])
      (((tt, refl), tt), (((tt, refl), tt), tt)) second_first (omega arith)

-- The first partition is empty, and the second has a message with the offset 0.
abbrev marks : ℤ → Option ℤ
marks p = if p == pos 0 then some (pos 0) else some (pos 1)

can_become_ready_example :
    BecomesReady opts marks one_new ↔ ((0 < length one_new) × All (IsDone opts marks) one_new)
can_become_ready_example =
    can_become_ready opts marks one_new (((tt, refl), tt), (tt, tt))
      (
        ((0, refl, omega arith), (0, refl, omega arith)),
        (((0, refl, omega arith), (1, refl, omega arith)), tt),
      )
      (omega arith)

abbrev at_offset : ℤ → ConsumerMessage
at_offset offset = record { topic = []; key = []; value = []; partition = pos 1; offset = offset }

unread : (offset : ℤ) → process_message opts (at_offset offset) ≡ some []
unfolding process_message kafka_minion.Kafka.Wire.read_int
unread offset = refl

read_three : caught_up (pos 3) (some (pos 4)) ≡ true
read_three = (caught_up_known 3 4 (omega arith)).1 (omega arith)

-- It has read the message at offset 3 and found the mark 4.
abbrev reader : Consumer opts
reader = record {
  partition = pos 1;
  state = record new_partition_consumer { consumed_offset = pos 3; reporting = true };
  sent = ready_of (pos 1) ∷ [];
  run =
      more
        (more (more here (message (at_offset (pos 3)) [] refl (unread (pos 3)) refl) refl)
          (fire refl refl) refl)
        (tick_ready (some (pos 4)) refl refl read_three refl refl) refl;
}

abbrev left_over : ℤ → List ConsumerMessage
left_over p = if p == pos 1 then at_offset (pos 6) ∷ [] else []

abbrev log : ℤ → List ConsumerMessage
log p = if p == pos 1 then at_offset (pos 3) ∷ at_offset (pos 6) ∷ [] else []

abbrev readers : List (Consumer opts)
readers = reported (pos 0) ∷ reader ∷ []

readers-Punctual : All (Punctual opts) readers
readers-Punctual = (((tt, refl), tt), ((((tt, tt), refl), tt), tt))

readers-Reads : All (Reads opts log left_over) readers
readers-Reads = (
  record { order = tt; below_max = tt; split = refl; marks = ((tt, tt), (0, refl, omega arith)) },
  (
    record {
      order = (3, refl, omega arith, (6, refl, omega arith, tt));
      below_max = ((3, refl, omega arith), ((6, refl, omega arith), tt));
      split = refl;
      marks = (((tt, tt), tt), (4, refl, omega arith));
    },
    tt,
  ),
)

readers_scheduled : Schedule (all_sent opts readers) (ready_of (pos 1) ∷ ready_of (pos 0) ∷ [])
readers_scheduled = started (started idle (left _ over)) (right _ (left _ over))

readers_ready :
    (s : MemoryStorage) × (consumer_offset_worker
        (start_requests (partitions opts readers) ++ ready_of (pos 1) ∷ ready_of (pos 0) ∷ [])
        new_memory_storage
      ≡ some s)
    × (((ready_check s).status ≡ 200) ↔ ((0 < length readers) × All (CaughtUp opts) readers))
readers_ready =
    ready_check-All-CaughtUp opts readers (ready_of (pos 1) ∷ ready_of (pos 0) ∷ [])
      readers-Punctual readers_scheduled (omega arith)

answers_ready : (ready_check readers_ready.0).status ≡ 200
answers_ready = readers_ready.2.1 (omega arith, (inr tt, (inr tt, tt)))

ready_check-All-IsReadUp_example : All (IsReadUp opts log left_over) readers
ready_check-All-IsReadUp_example =
    ready_check-All-IsReadUp opts log left_over readers (ready_of (pos 1) ∷ ready_of (pos 0) ∷ [])
      readers_ready.0 readers-Punctual readers-Reads readers_scheduled (omega arith) readers_ready.1
      answers_ready
