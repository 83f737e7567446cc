-- ===== src/Kafka/Consumer/Partition/Progress.antt =====
-- What a partition consumer does without a further message while its high water mark stays the same:
-- if it has read up to the mark it can report, and only then.
use kafka_minion.Kafka.Consumer.Partition.{
  PartitionConsumer, new_partition_consumer, caught_up, Step, message, failure, fire, tick_behind,
  tick_ready, stop, Run, here, more,
}
use kafka_minion.Kafka.Consumer.Partition.Punctual.{
  IsPunctual, HasCaughtUp, IsReady, reports-HasCaughtUp, punctual-Reported,
}
use kafka_minion.Kafka.Request.{StorageRequest, new_mark_offset_partition_ready_request}
use kafka_minion.Options.{Options}
use kafka_minion.Prelude.{
  ◌≤◌, length, ◌≡◌, ◌⊎◌, inl, inr, refl, sym, ap, ◌∙◌, append-nil, append_assoc, true, false, ◌||◌,
  Bool-cases, Option, List, [], ◌∷◌, ◌++◌, arith,
}
use kafka_minion.Prelude.Int.{ℤ}

module _ (opts : Options) (partition : ℤ) (mark : Option ℤ) where
  -- The step reads no message, and a tick finds the given mark.
  abbrev pub IsQuietStep :
      {s t : PartitionConsumer} {sent : List StorageRequest} → Step opts partition s sent t → Type 0
  IsQuietStep {s} (message msg sent idle e u) = ⊥
  IsQuietStep {s} (tick_behind val idle tick behind u) = val ≡ mark
  IsQuietStep {s} (tick_ready val idle tick ready w u) = val ≡ mark
  IsQuietStep {s} _ = Unit

  abbrev pub IsQuiet :
      {s t : PartitionConsumer} {sent : List StorageRequest} → Run opts partition s sent t → Type 0
  IsQuiet here = Unit
  IsQuiet (more run step e) = IsQuiet run × IsQuietStep step

  offset_kept :
      {s t : PartitionConsumer} {sent : List StorageRequest} (step : Step opts partition s sent t)
      → IsQuietStep step
      → t.consumed_offset ≡ s.consumed_offset
  offset_kept (message msg sent idle e u) q = absurd q
  offset_kept (failure idle u) q = ap (λ (x : PartitionConsumer). x.consumed_offset) u
  offset_kept (fire running u) q = ap (λ (x : PartitionConsumer). x.consumed_offset) u
  offset_kept (tick_behind val idle tick behind u) q =
      ap (λ (x : PartitionConsumer). x.consumed_offset) u
  offset_kept (tick_ready val idle tick ready w u) q =
      ap (λ (x : PartitionConsumer). x.consumed_offset) u
  offset_kept (stop place u) q = ap (λ (x : PartitionConsumer). x.consumed_offset) u

  quiet_offset :
      {s t : PartitionConsumer} {sent : List StorageRequest} (run : Run opts partition s sent t)
      → IsQuiet run
      → t.consumed_offset ≡ s.consumed_offset
  quiet_offset here q = refl
  quiet_offset (more run step e) q = offset_kept step q.1 ∙ quiet_offset run q.0

  found_ready :
      {s t : PartitionConsumer} {sent : List StorageRequest} (step : Step opts partition s sent t)
      → IsQuietStep step
      → IsReady opts partition step
      → caught_up s.consumed_offset mark ≡ true
  found_ready {s} (tick_ready val idle tick ready w u) q now =
      ap (caught_up s.consumed_offset) (sym q) ∙ ready
  found_ready (message msg sent idle e u) q now = absurd now
  found_ready (failure idle u) q now = absurd now
  found_ready (fire running u) q now = absurd now
  found_ready (tick_behind val idle tick behind u) q now = absurd now
  found_ready (stop place u) q now = absurd now

  -- A quiet run in which a tick finds the partition read to its end began with it read to its end.
  pub quiet-caught_up :
      {s t : PartitionConsumer} {sent : List StorageRequest} (run : Run opts partition s sent t)
      → IsQuiet run
      → HasCaughtUp opts partition run
      → caught_up s.consumed_offset mark ≡ true
  quiet-caught_up here q caught = absurd caught
  quiet-caught_up (more run step e) q (inl earlier) = quiet-caught_up run q.0 earlier
  quiet-caught_up (more run step e) q (inr now) =
      ap (λ o. caught_up o mark) (sym (quiet_offset run q.0)) ∙ found_ready step q.1 now

  -- A longer punctual run that has reported.
  pub record Progress {t : PartitionConsumer} {sent : List StorageRequest}
      (run : Run opts partition new_partition_consumer sent t) : Type 0 where
    pub state : PartitionConsumer
    pub further : List StorageRequest
    pub short : length further ≤ 1
    pub step_by_step : Run opts partition t further state
    pub quiet : IsQuiet step_by_step
    pub all_sent : List StorageRequest
    pub joined : all_sent ≡ sent ++ further
    pub whole : Run opts partition new_partition_consumer all_sent state
    pub punctual : IsPunctual opts partition whole
    pub caught : HasCaughtUp opts partition whole

  already :
      {t : PartitionConsumer} {sent : List StorageRequest}
      (run : Run opts partition new_partition_consumer sent t)
      → IsPunctual opts partition run
      → HasCaughtUp opts partition run
      → Progress run
  already {t} {sent} run p caught = record {
    state = t;
    further = [];
    short = omega arith;
    step_by_step = here;
    quiet = tt;
    all_sent = sent;
    joined = sym (append-nil sent);
    whole = run;
    punctual = p;
    caught = caught;
  }

  waiting :
      {t : PartitionConsumer} {sent : List StorageRequest}
      (run : Run opts partition new_partition_consumer sent t)
      → IsPunctual opts partition run
      → caught_up t.consumed_offset mark ≡ true
      → t.reporting ≡ false
      → t.stopped ≡ false
      → Progress run
  waiting {t} {sent} run p ready idle running =
      let request = new_mark_offset_partition_ready_request partition in
      record {
        state = record t { tick_waits = false; reporting = true };
        further = request ∷ [];
        short = omega arith;
        step_by_step =
            more (more here (fire running refl) refl) (tick_ready mark idle refl ready refl refl)
              refl;
        quiet = ((tt, tt), refl);
        all_sent = (sent ++ []) ++ request ∷ [];
        joined = append_assoc sent [] (request ∷ []);
        whole =
            more (more run (fire running refl) refl) (tick_ready mark idle refl ready refl refl)
              refl;
        punctual = ((p, idle), tt);
        caught = inr tt;
      }

  -- A punctual run that has reported, or has read up to the mark, can be continued quietly to one that
  -- has reported.
  pub can_report :
      {t : PartitionConsumer} {sent : List StorageRequest}
      (run : Run opts partition new_partition_consumer sent t)
      → IsPunctual opts partition run
      → HasCaughtUp opts partition run ⊎ (caught_up t.consumed_offset mark ≡ true)
      → Progress run
  can_report run p (inl caught) = already run p caught
  can_report {t} run p (inr ready) = elim (Bool-cases (t.reporting || t.stopped)) [
    | inl busy ↦
        let c = (punctual-Reported opts partition run p).0 in
        already run p ((reports-HasCaughtUp opts partition run).0 (ground arith))
    | inr free ↦ waiting run p ready (ground (arith, free)) (ground (arith, free))
  ]
