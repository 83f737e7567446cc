-- ===== src/Kafka/Consumer/Partition/Punctual.antt =====
-- The runs of a partition consumer in which no tick falls between its report and `ticker.Stop()`.
use kafka_minion.Kafka.Consumer.Partition.{
  PartitionConsumer, new_partition_consumer, Step, message, failure, fire, tick_behind, tick_ready,
  stop, Run, here, more,
}
use kafka_minion.Kafka.Consumer.Partition.Reports.{reports, reports-append, message_no_report}
use kafka_minion.Kafka.Request.{StorageRequest, new_mark_offset_partition_ready_request}
use kafka_minion.Options.{Options}
use kafka_minion.Prelude.{
  ℕ, ◌+◌, ◌<◌, ◌≡◌, ◌↔◌, ◌⊎◌, inl, inr, refl, true, false, ◌||◌, if◌then◌else◌, List, arith,
}
use kafka_minion.Prelude.Int.{ℤ}

module _ (opts : Options) (partition : ℤ) where
  abbrev pub OnTime :
      {s t : PartitionConsumer} {sent : List StorageRequest} → Step opts partition s sent t → Type 0
  OnTime {s} (fire running e) = s.reporting ≡ false
  OnTime {s} _ = Unit

  abbrev pub IsPunctual :
      {s t : PartitionConsumer} {sent : List StorageRequest} → Run opts partition s sent t → Type 0
  IsPunctual here = Unit
  IsPunctual (more run step e) = IsPunctual run × OnTime step

  -- The step is a tick that finds the partition read to its end.
  abbrev pub IsReady :
      {s t : PartitionConsumer} {sent : List StorageRequest} → Step opts partition s sent t → Type 0
  IsReady {s} (tick_ready val idle tick ready w e) = Unit
  IsReady {s} _ = ⊥

  -- Some tick of the run has found the partition read to its end.
  abbrev pub HasCaughtUp :
      {s t : PartitionConsumer} {sent : List StorageRequest} → Run opts partition s sent t → Type 0
  HasCaughtUp here = ⊥
  HasCaughtUp (more run step e) = HasCaughtUp run ⊎ IsReady step

  Step-reports :
      {s t : PartitionConsumer} {sent : List StorageRequest} (step : Step opts partition s sent t)
      → ((0 < reports sent) → IsReady step) × (IsReady step → 0 < reports sent)
  unfolding new_mark_offset_partition_ready_request
  Step-reports (message msg sent idle e u) =
      let none_sent = message_no_report opts msg sent e in ((λ h. omega arith), λ bad. absurd bad)
  Step-reports (failure idle u) = ((λ h. omega arith), λ bad. absurd bad)
  Step-reports (fire running u) = ((λ h. omega arith), λ bad. absurd bad)
  Step-reports (tick_behind val idle tick behind u) = ((λ h. omega arith), λ bad. absurd bad)
  Step-reports (tick_ready val idle tick ready w u) = ((λ h. tt), λ good. rw w (omega arith))
  Step-reports (stop place u) = ((λ h. omega arith), λ bad. absurd bad)

  positive : {a b : ℕ} → (0 < a + b) → (0 < a) ⊎ (0 < b)
  positive {a} {b} h = ground arith

  -- A run has reported just when a tick has found the partition read to its end.
  pub reports-HasCaughtUp :
      {s t : PartitionConsumer} {sent : List StorageRequest} (run : Run opts partition s sent t)
      → (0 < reports sent) ↔ HasCaughtUp run
  reports-HasCaughtUp run = (to run, from run)
    where
      to :
          {s t : PartitionConsumer} {sent : List StorageRequest} (run : Run opts partition s sent t)
          → 0 < reports sent
          → HasCaughtUp run
      to here h = omega arith
      to (more {before} {sent} run step e) h =
          elim (positive (rw (e, reports-append before sent) at h)) [
            | inl earlier ↦ inl (to run earlier)
            | inr now ↦ inr ((Step-reports step).0 now)
          ]

      from :
          {s t : PartitionConsumer} {sent : List StorageRequest} (run : Run opts partition s sent t)
          → HasCaughtUp run
          → 0 < reports sent
      from here bad = absurd bad
      from (more {before} {sent} run step e) (inl earlier) =
          let n = from run earlier in rw (e, reports-append before sent) (omega arith)
      from (more {before} {sent} run step e) (inr now) =
          let n = (Step-reports step).1 now in rw (e, reports-append before sent) (omega arith)

  -- What a punctual run has reported is seen in the state of the goroutine.
  abbrev pub Reported : PartitionConsumer → ℕ → Type 0
  Reported s n =
      (n ≡ (if s.reporting || s.stopped then 1 else 0))
      × (s.reporting ≡ true → s.tick_waits ≡ false)
      × (s.stopped ≡ true → (s.tick_waits ≡ false) × (s.reporting ≡ false))

  Step-Reported :
      {s t : PartitionConsumer} {sent : List StorageRequest} (n : ℕ)
      (step : Step opts partition s sent t)
      → OnTime step
      → Reported s n
      → Reported t (n + reports sent)
  unfolding new_mark_offset_partition_ready_request
  Step-Reported n (message msg sent idle e u) on r =
      let none_sent = message_no_report opts msg sent e in ground arith
  Step-Reported n (failure idle u) on r = ground arith
  Step-Reported n (fire running u) on r = ground arith
  Step-Reported n (tick_behind val idle tick behind u) on r = ground arith
  Step-Reported n (tick_ready val idle tick ready w u) on r = ground arith
  Step-Reported n (stop place u) on r = ground arith

  Run-Reported :
      {s t : PartitionConsumer} {sent : List StorageRequest} (run : Run opts partition s sent t)
      → IsPunctual run
      → Reported s 0
      → Reported t (reports sent)
  Run-Reported here p r = r
  Run-Reported (more {before} {sent} run step e) p r =
      rw (e, reports-append before sent)
        (Step-Reported (reports before) step p.1 (Run-Reported run p.0 r))

  pub punctual-Reported :
      {t : PartitionConsumer} {sent : List StorageRequest}
      (run : Run opts partition new_partition_consumer sent t)
      → IsPunctual run
      → Reported t (reports sent)
  punctual-Reported run p = Run-Reported run p (refl, (λ e. refl), (λ e. (refl, refl)))
