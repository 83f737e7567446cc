-- ===== src/Kafka/Consumer/Partition/Reports.antt =====
-- How often a partition consumer reports that it is ready.
use kafka_minion.Kafka.Consumer.{
  ConsumerMessage, send_ok, read_tombstone, send_offset, process_offset_commit, process_version,
  process_message,
}
use kafka_minion.Kafka.Consumer.Partition.{
  PartitionConsumer, new_partition_consumer, caught_up, Step, message, failure, fire, tick_behind,
  tick_ready, stop, Run, here, more,
}
use kafka_minion.Kafka.Offset.{ConsumerPartitionOffset, new_consumer_partition_offset}
use kafka_minion.Kafka.Request.{
  StorageRequest, StorageRequestType, mark_offset_partition_ready, new_add_consumer_offset_request,
  new_mark_offset_partition_ready_request, new_delete_consumer_group_request,
}
use kafka_minion.Kafka.Wire.{Buffer, ReadError, read_int16}
use kafka_minion.Options.{Options}
use kafka_minion.Outcome.{Outcome, ok, err, panic}
use kafka_minion.Prelude.{
  ℕ, ◌+◌, ◌≤◌, ◌≡◌, refl, Bool, true, false, Option, some, List, [], ◌∷◌, ◌++◌, arith,
}
use kafka_minion.Prelude.Int.{ℤ}

abbrev pub is_report : StorageRequestType → ℕ
is_report mark_offset_partition_ready = 1
is_report _ = 0

abbrev pub reports : List StorageRequest → ℕ
reports [] = 0
reports (r ∷ rs) = is_report r.request_type + reports rs

pub reports-append : (xs ys : List StorageRequest) → reports (xs ++ ys) ≡ reports xs + reports ys
reports-append [] ys = omega arith
reports-append (x ∷ xs) ys = omega (arith, reports-append xs ys)

tombstone_no_report :
    (o : Outcome ReadError StorageRequest) (sent : List StorageRequest)
    → ((r : StorageRequest) → o ≡ ok r → is_report r.request_type ≡ 0)
    → send_ok (λ r. r ∷ []) o ≡ some sent
    → reports sent ≡ 0
tombstone_no_report (ok r) sent h e = ground (arith, h r refl)
tombstone_no_report (err x) sent h e = ground arith
tombstone_no_report panic sent h e = cc

read_tombstone_no_report :
    (key : Buffer) (r : StorageRequest) → read_tombstone key ≡ ok r → is_report r.request_type ≡ 0
unfolding read_tombstone new_delete_consumer_group_request
read_tombstone_no_report key r e = ground arith

commit_no_report :
    (opts : Options) {E : Type 0} (o : Outcome E ConsumerPartitionOffset)
    (sent : List StorageRequest)
    → send_ok (send_offset opts) o ≡ some sent
    → reports sent ≡ 0
unfolding send_offset new_add_consumer_offset_request
commit_no_report opts (ok c) sent e = ground arith
commit_no_report opts (err x) sent e = ground arith
commit_no_report opts panic sent e = cc

offset_commit_no_report :
    (opts : Options) (key value : Buffer) (sent : List StorageRequest)
    → process_offset_commit opts key value ≡ some sent
    → reports sent ≡ 0
unfolding process_offset_commit
offset_commit_no_report opts key [] sent e =
    tombstone_no_report (read_tombstone key) sent (read_tombstone_no_report key) e
offset_commit_no_report opts key (b ∷ bs) sent e =
    commit_no_report opts (new_consumer_partition_offset key (b ∷ bs)) sent e

version_no_report :
    (opts : Options) (value : Buffer) (o : Outcome ReadError (ℤ × Buffer))
    (sent : List StorageRequest)
    → process_version opts value o ≡ some sent
    → reports sent ≡ 0
unfolding process_version
version_no_report opts value (ok (version, key)) sent e =
    ground (arith, offset_commit_no_report opts key value sent)
version_no_report opts value (err x) sent e = ground arith
version_no_report opts value panic sent e = cc

pub message_no_report :
    (opts : Options) (msg : ConsumerMessage) (sent : List StorageRequest)
    → process_message opts msg ≡ some sent
    → reports sent ≡ 0
unfolding process_message
message_no_report opts msg sent e = version_no_report opts msg.value (read_int16 msg.key) sent e

abbrev bit : Bool → ℕ
bit true = 1
bit false = 0

-- What the reports so far and the state of the goroutine say of one another.
abbrev Counted : PartitionConsumer → ℕ → Type 0
Counted s n =
    (s.stopped ≡ false → n ≡ bit s.reporting)
    × (s.stopped ≡ true → n + bit s.tick_waits ≤ 2)
    × (n ≤ 2)

module _ (opts : Options) (partition : ℤ) where
  Step-Counted :
      {s t : PartitionConsumer} {sent : List StorageRequest} (n : ℕ)
      → Step opts partition s sent t
      → Counted s n
      → Counted t (n + reports sent)
  unfolding new_mark_offset_partition_ready_request
  Step-Counted n (message msg sent idle e u) c =
      let none_sent = message_no_report opts msg sent e in ground arith
  Step-Counted n (failure idle u) c = ground arith
  Step-Counted n (fire running u) c = ground arith
  Step-Counted n (tick_behind val idle tick behind u) c = ground arith
  Step-Counted n (tick_ready val idle tick ready w u) c = ground arith
  Step-Counted n (stop place u) c = ground arith

  Run-Counted :
      {s t : PartitionConsumer} {sent : List StorageRequest}
      → Counted s 0
      → Run opts partition s sent t
      → Counted t (reports sent)
  Run-Counted c here = c
  Run-Counted c (more {before} {sent} r st e) =
      rw (e, reports-append before sent) (Step-Counted (reports before) st (Run-Counted c r))

  -- Over its whole life a partition consumer reports itself ready at most twice.
  pub reports_at_most_twice :
      {s : PartitionConsumer} {sent : List StorageRequest}
      → Run opts partition new_partition_consumer sent s
      → reports sent ≤ 2
  reports_at_most_twice r = (Run-Counted ((λ h. refl), (λ h. omega arith), omega arith) r).2

  -- A tick that falls between the send of the report and `ticker.Stop()` stays in the channel and is
  -- read behind it. So a consumer that a tick finds caught up may report itself ready twice.
  pub reports_twice :
      (val : Option ℤ)
      → caught_up new_partition_consumer.consumed_offset val ≡ true
      → (s : PartitionConsumer) × Run opts partition new_partition_consumer
          (new_mark_offset_partition_ready_request partition
            ∷ new_mark_offset_partition_ready_request partition
            ∷ [])
          s
  reports_twice val ready = (
    _,
    more
        (more
          (more
            (more (more here (fire refl refl) refl) (tick_ready val refl refl ready refl refl) refl)
            (fire refl refl) refl)
          (stop refl refl) refl)
        (tick_ready val refl refl ready refl refl) refl,
  )
