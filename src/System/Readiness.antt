-- ===== src/System/Readiness.antt =====
-- `Start` of kafka/offset_consumer.go: the partition consumers side by side, and the storage that
-- counts their reports (storage/memory.go). What comes out of the channel is the registration and,
-- behind it, the consumers' requests in an order that keeps each one's.
pub mod Reached
pub mod Checked
mod Tests
use kafka_minion.Goroutines.{Merge, over, left, right, Schedule, idle, started, Schedule-All_each}
use kafka_minion.Kafka.Consumer.Partition.{
  PartitionConsumer, new_partition_consumer, Run, start_requests,
}
use kafka_minion.Kafka.Consumer.Partition.Actions.{IsAction, run-IsAction, ByActions, by_actions}
use kafka_minion.Kafka.Consumer.Partition.Punctual.{
  IsPunctual, HasCaughtUp, Reported, reports-HasCaughtUp, punctual-Reported,
}
use kafka_minion.Kafka.Consumer.Partition.Reports.{reports, is_report, reports_at_most_twice}
use kafka_minion.Kafka.Request.{StorageRequest, new_register_offset_partitions_request}
use kafka_minion.Options.{Options}
use kafka_minion.Prelude.{
  ℕ, zero, suc, ◌+◌, ◌*◌, ◌<◌, ◌≤◌, ◌≡◌, ◌↔◌, refl, sym, ap, ◌∙◌, subst, Bool, true, false, ltb,
  some, List, [], ◌∷◌, ◌++◌, All, length, if◌then◌else◌, arith,
}
use kafka_minion.Prelude.Int.{ℤ, pos}
use kafka_minion.Prelude.Words.{half64}
use kafka_minion.Storage.{MemoryStorage, new_memory_storage}
use kafka_minion.Storage.Action.{register, requests_of}
use kafka_minion.Storage.Readers.{is_consumed}
use kafka_minion.Storage.Ready.{consumed_iff, ready_reports}
use kafka_minion.Storage.Worker.{consumer_offset_worker}

merge-reports :
    {xs ys zs : List StorageRequest} → Merge xs ys zs → reports zs ≡ reports xs + reports ys
merge-reports over = refl
merge-reports (left x m) = omega (arith, merge-reports m)
merge-reports (right y m) = omega (arith, merge-reports m)

module _ (opts : Options) where
  -- One of the goroutines: its partition and what it has done so far.
  pub record Consumer : Type 0 where
    pub partition : ℤ
    pub state : PartitionConsumer
    pub sent : List StorageRequest
    pub run : Run opts partition new_partition_consumer sent state

  abbrev pub partitions : List Consumer → List ℤ
  partitions [] = []
  partitions (c ∷ cs) = c.partition ∷ partitions cs

  abbrev pub all_sent : List Consumer → List (List StorageRequest)
  all_sent [] = []
  all_sent (c ∷ cs) = c.sent ∷ all_sent cs

  abbrev pub CaughtUp : Consumer → Type 0
  CaughtUp c = HasCaughtUp opts c.partition c.run

  abbrev pub Punctual : Consumer → Type 0
  Punctual c = IsPunctual opts c.partition c.run

  -- How many of the consumers have reported.
  abbrev pub have_reported : List Consumer → ℕ
  have_reported [] = 0
  have_reported (c ∷ cs) =
      let rest = have_reported cs in if ltb 0 (reports c.sent) then suc rest else rest

  abbrev total : List Consumer → ℕ
  total [] = 0
  total (c ∷ cs) = reports c.sent + total cs

  Schedule-total :
      (cs : List Consumer) {run : List StorageRequest}
      → Schedule (all_sent cs) run
      → reports run ≡ total cs
  Schedule-total [] idle = refl
  Schedule-total (c ∷ cs) (started later merged) =
      merge-reports merged ∙ ap (λ n. reports c.sent + n) (Schedule-total cs later)

  all_sent-IsAction : (cs : List Consumer) → All (All IsAction) (all_sent cs)
  all_sent-IsAction [] = tt
  all_sent-IsAction (c ∷ cs) = (run-IsAction opts c.partition c.run, all_sent-IsAction cs)

  length-partitions : (cs : List Consumer) → length (partitions cs) ≡ length cs
  length-partitions [] = refl
  length-partitions (c ∷ cs) = ap suc (length-partitions cs)

  -- The storage has counted the reports of all consumers.
  counted :
      (cs : List Consumer) (handled : List StorageRequest)
      → Schedule (all_sent cs) handled
      → length cs + length handled < half64
      → (s : MemoryStorage) × (consumer_offset_worker
            (start_requests (partitions cs) ++ handled)
            new_memory_storage
          ≡ some s)
        × ((is_consumed s ≡ true) ↔ ((0 < length cs) × (length cs ≤ total cs)))
  unfolding start_requests
  counted cs handled scheduled fits =
      let actions =
        by_actions handled (Schedule-All_each IsAction (all_sent-IsAction cs) scheduled) in
      let bound : length cs + length actions.actions < half64 = rw actions.size fits in
      let (s, run, consumed) =
        consumed_iff (length cs) actions.actions actions.unregistered bound in
      let first = ap (λ n. new_register_offset_partitions_request (pos n)) (length-partitions cs) in
      let sum : ready_reports actions.actions ≡ total cs =
        actions.reported ∙ Schedule-total cs scheduled in
      (
        s,
        ap (λ l. consumer_offset_worker l new_memory_storage)
              (ap (λ r. r ∷ handled) first
                ∙ ap (◌∷◌ (new_register_offset_partitions_request (pos (length cs)))) actions.made)
            ∙ run,
        subst (λ n. (is_consumed s ≡ true) ↔ ((0 < length cs) × (length cs ≤ n))) sum consumed,
      )

  total-twice : (cs : List Consumer) → total cs ≤ 2 * have_reported cs
  total-twice [] = omega arith
  total-twice (c ∷ cs) =
      let rest = total-twice cs in
      let two = reports_at_most_twice opts c.partition c.run in ground arith

  -- Whatever the ticks, the storage says that the offsets topic has been consumed only if at least half
  -- of the partition consumers have reported.
  pub consumed-half_reported :
      (cs : List Consumer) (handled : List StorageRequest)
      → Schedule (all_sent cs) handled
      → length cs + length handled < half64
      → (s : MemoryStorage) × (consumer_offset_worker
            (start_requests (partitions cs) ++ handled)
            new_memory_storage
          ≡ some s)
        × (is_consumed s ≡ true → length cs ≤ 2 * have_reported cs)
  consumed-half_reported cs handled scheduled fits =
      let (s, run, consumed) = counted cs handled scheduled fits in
      let twice = total-twice cs in (s, run, λ e. let (_, le) = consumed.0 e in omega arith)

  once : (c : Consumer) → Punctual c → reports c.sent ≤ 1
  once c p = let count = (punctual-Reported opts c.partition c.run p).0 in ground arith

  total-caught : (cs : List Consumer) → All Punctual cs → length cs ≤ total cs → All CaughtUp cs
  total-caught [] p h = tt
  total-caught (c ∷ cs) p h =
      let one = once c p.0 in
      let below = total-once cs p.1 in
      (
        (reports-HasCaughtUp opts c.partition c.run).0 (omega arith),
        total-caught cs p.1 (omega arith),
      )
    where
      total-once : (cs : List Consumer) → All Punctual cs → total cs ≤ length cs
      total-once [] p = omega arith
      total-once (c ∷ cs) p = let one = once c p.0 in let rest = total-once cs p.1 in omega arith

  caught-total : (cs : List Consumer) → All CaughtUp cs → length cs ≤ total cs
  caught-total [] h = omega arith
  caught-total (c ∷ cs) h =
      let one = (reports-HasCaughtUp opts c.partition c.run).1 h.0 in
      let rest = caught-total cs h.1 in omega arith

  -- If no tick falls between a consumer's report and `ticker.Stop()`, the storage, once it has handled
  -- what was sent, says that the offsets topic has been consumed just when it has a partition and a tick
  -- of every partition consumer has found its partition read to the end.
  pub consumed-All-CaughtUp :
      (cs : List Consumer) (handled : List StorageRequest)
      → All Punctual cs
      → Schedule (all_sent cs) handled
      → length cs + length handled < half64
      → (s : MemoryStorage) × (consumer_offset_worker
            (start_requests (partitions cs) ++ handled)
            new_memory_storage
          ≡ some s)
        × ((is_consumed s ≡ true) ↔ ((0 < length cs) × All CaughtUp cs))
  consumed-All-CaughtUp cs handled p scheduled fits =
      let (s, run, consumed) = counted cs handled scheduled fits in
      (
        s,
        run,
        (
          (λ e. let (some_there, le) = consumed.0 e in (some_there, total-caught cs p le)),
          (λ h. consumed.1 (h.0, caught-total cs h.1)),
        ),
      )
