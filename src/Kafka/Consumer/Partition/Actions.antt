-- ===== src/Kafka/Consumer/Partition/Actions.antt =====
-- What a partition consumer sends, by the actions that the storage takes for it.
use kafka_minion.Kafka.Consumer.{
  ConsumerMessage, send_ok, read_tombstone, send_offset, process_offset_commit, process_version,
  process_message,
}
use kafka_minion.Kafka.Consumer.Partition.{
  PartitionConsumer, Step, message, failure, fire, tick_behind, tick_ready, stop, Run, here, more,
}
use kafka_minion.Kafka.Consumer.Partition.Reports.{reports, is_report}
use kafka_minion.Kafka.Offset.{ConsumerPartitionOffset, new_consumer_partition_offset}
use kafka_minion.Kafka.Request.{
  StorageRequest, new_add_consumer_offset_request, new_delete_consumer_group_request,
  new_add_group_metadata, new_mark_offset_partition_ready_request,
}
use kafka_minion.Kafka.Topics.{is_topic_allowed}
use kafka_minion.Kafka.Wire.{Buffer, ReadError, read_int16, read_string, read_int32}
use kafka_minion.Options.{Options}
use kafka_minion.Outcome.{Outcome, ok, err, panic, bind-eq-ok}
use kafka_minion.Prelude.{
  ◌+◌, suc, ◌≡◌, refl, sym, ap, ◌∙◌, subst, ◌||◌, ◌==◌, int_eq, some, some-eq, List, [], ◌∷◌, ◌++◌,
  All, length, Bool-cases, inl, inr, arith,
}
use kafka_minion.Prelude.Int.{ℤ, pos}
use kafka_minion.Storage.Action.{
  Action, commit, tombstone, describe_group, register, mark_ready, request_of, requests_of,
}
use kafka_minion.Storage.Ready.{ready_reports, NoRegister}

-- A request for one of the actions but the registration.
abbrev pub IsAction : StorageRequest → Type 0
IsAction r = (a : Action) × (r ≡ request_of a) × NoRegister a

read_tombstone-IsAction :
    (key : Buffer) (r : StorageRequest) → read_tombstone key ≡ ok r → IsAction r
unfolding read_tombstone
read_tombstone-IsAction key r e =
    let ((group, key1), _, e1) = bind-eq-ok (read_string key) _ e in
    let ((topic, key2), _, e2) = bind-eq-ok (read_string key1) _ e1 in
    let ((partition, key3), _, e3) = bind-eq-ok (read_int32 key2) _ e2 in
    let made : r ≡ request_of (tombstone group topic partition) = cc (e3) in
    (tombstone group topic partition, made, tt)

commit-IsAction :
    (opts : Options) {E : Type 0} (o : Outcome E ConsumerPartitionOffset)
    (sent : List StorageRequest)
    → send_ok (send_offset opts) o ≡ some sent
    → All IsAction sent
unfolding send_offset
commit-IsAction opts (ok c) sent e = elim (Bool-cases (is_topic_allowed opts c.topic)) [
  | inl allowed ↦ subst (All IsAction) (some-eq (rw allowed at e)) ((commit c, refl, tt), tt)
  | inr barred ↦ subst (All IsAction) (some-eq (rw barred at e)) tt
]
commit-IsAction opts (err x) sent e = subst (All IsAction) (some-eq e) tt
commit-IsAction opts panic sent e = cc

offset_commit-IsAction :
    (opts : Options) (key value : Buffer) (sent : List StorageRequest)
    → process_offset_commit opts key value ≡ some sent
    → All IsAction sent
unfolding process_offset_commit
offset_commit-IsAction opts key [] sent e =
    deleted (read_tombstone key) (read_tombstone-IsAction key) e
  where
    deleted :
        (o : Outcome ReadError StorageRequest)
        → ((r : StorageRequest) → o ≡ ok r → IsAction r)
        → send_ok (λ r. r ∷ []) o ≡ some sent
        → All IsAction sent
    deleted (ok r) made e = subst (All IsAction) (some-eq e) (made r refl, tt)
    deleted (err x) made e = subst (All IsAction) (some-eq e) tt
    deleted panic made e = cc
offset_commit-IsAction opts key (b ∷ bs) sent e =
    commit-IsAction opts (new_consumer_partition_offset key (b ∷ bs)) sent e

message-IsAction :
    (opts : Options) (msg : ConsumerMessage) (sent : List StorageRequest)
    → process_message opts msg ≡ some sent
    → All IsAction sent
unfolding process_message process_version
message-IsAction opts msg sent e = by_version (read_int16 msg.key) e
  where
    by_version :
        (o : Outcome ReadError (ℤ × Buffer))
        → process_version opts msg.value o ≡ some sent
        → All IsAction sent
    by_version (ok (version, key)) e = elim (Bool-cases (version == pos 0 || version == pos 1)) [
      | inl offset ↦ offset_commit-IsAction opts key msg.value sent (rw offset at e)
      | inr other ↦ subst (All IsAction) (some-eq (rw other at e)) tt
    ]
    by_version (err x) e = subst (All IsAction) (some-eq e) tt
    by_version panic e = cc

append-IsAction :
    (xs ys : List StorageRequest) → All IsAction xs → All IsAction ys → All IsAction (xs ++ ys)
append-IsAction [] ys a b = b
append-IsAction (x ∷ xs) ys a b = (a.0, append-IsAction xs ys a.1 b)

module _ (opts : Options) (partition : ℤ) where
  Step-IsAction :
      {s t : PartitionConsumer} {sent : List StorageRequest}
      → Step opts partition s sent t
      → All IsAction sent
  Step-IsAction (message msg sent idle e u) = message-IsAction opts msg sent e
  Step-IsAction (failure idle u) = tt
  Step-IsAction (fire running u) = tt
  Step-IsAction (tick_behind val idle tick behind u) = tt
  Step-IsAction (tick_ready val idle tick ready w u) =
      subst (All IsAction) (sym w) ((mark_ready partition, refl, tt), tt)
  Step-IsAction (stop place u) = tt

  -- A partition consumer sends commits, tombstones and its own ready report.
  pub run-IsAction :
      {s t : PartitionConsumer} {sent : List StorageRequest}
      → Run opts partition s sent t
      → All IsAction sent
  run-IsAction here = tt
  run-IsAction (more {before} {sent} run step e) =
      subst (All IsAction) (sym e)
        (append-IsAction before sent (run-IsAction run) (Step-IsAction step))

request_of-reports : (a : Action) → is_report (request_of a).request_type ≡ ready_reports (a ∷ [])
unfolding new_add_consumer_offset_request new_delete_consumer_group_request new_add_group_metadata
    new_mark_offset_partition_ready_request
    kafka_minion.Kafka.Request.new_register_offset_partitions_request
request_of-reports (commit c) = refl
request_of-reports (tombstone g t p) = refl
request_of-reports (describe_group m) = refl
request_of-reports (register n) = refl
request_of-reports (mark_ready p) = refl

-- The requests by their actions.
pub record ByActions (rs : List StorageRequest) : Type 0 where
  pub actions : List Action
  pub made : rs ≡ requests_of actions
  pub unregistered : All NoRegister actions
  pub reported : ready_reports actions ≡ reports rs
  pub size : length actions ≡ length rs

ready_reports-cons :
    (a : Action) (actions : List Action)
    → ready_reports (a ∷ actions) ≡ ready_reports (a ∷ []) + ready_reports actions
ready_reports-cons (commit c) actions = omega arith
ready_reports-cons (tombstone g t p) actions = omega arith
ready_reports-cons (describe_group m) actions = omega arith
ready_reports-cons (register n) actions = omega arith
ready_reports-cons (mark_ready p) actions = omega arith

pub by_actions : (rs : List StorageRequest) → All IsAction rs → ByActions rs
by_actions [] h = record {
  actions = [];
  made = refl;
  unregistered = tt;
  reported = refl;
  size = refl;
}
by_actions (r ∷ rs) ((a, made, free), later) =
    let rest = by_actions rs later in
    record {
      actions = a ∷ rest.actions;
      made = ap (λ x. x ∷ rs) made ∙ ap (◌∷◌ (request_of a)) rest.made;
      unregistered = (free, rest.unregistered);
      reported =
          ready_reports-cons a rest.actions
          ∙ ap (λ n. n + ready_reports rest.actions)
              (sym (request_of-reports a)
                ∙ ap (λ (x : StorageRequest). is_report x.request_type) (sym made))
          ∙ ap (λ n. is_report r.request_type + n) rest.reported;
      size = ap suc rest.size;
    }
