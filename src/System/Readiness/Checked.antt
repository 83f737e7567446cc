-- ===== src/System/Readiness/Checked.antt =====
-- What the ready check of main.go promises.
use kafka_minion.Goroutines.{Schedule}
use kafka_minion.Http.{Response, ready_check}
use kafka_minion.Kafka.Consumer.{ConsumerMessage}
use kafka_minion.Kafka.Consumer.Partition.{start_requests}
use kafka_minion.Kafka.Consumer.Partition.Log.{InOrder, messages_read}
use kafka_minion.Kafka.Consumer.Partition.ReadUp.{IsBelowMax, MarksFit, ReadUp, run-ReadUp}
use kafka_minion.Kafka.Request.{StorageRequest}
use kafka_minion.Options.{Options}
use kafka_minion.Prelude.{
  ◌+◌, ◌<◌, ◌≡◌, ◌↔◌, refl, sym, ap, ◌∙◌, [], ◌∷◌, some-eq, Bool, true, false, if◌then◌else◌, some,
  List, ◌++◌, All, length, arith,
}
use kafka_minion.Prelude.Int.{ℤ}
use kafka_minion.Prelude.Words.{half64}
use kafka_minion.Storage.{MemoryStorage, new_memory_storage}
use kafka_minion.Storage.Readers.{is_consumed}
use kafka_minion.Storage.Worker.{consumer_offset_worker}
use kafka_minion.System.Readiness.{
  Consumer, partitions, all_sent, CaughtUp, Punctual, consumed-All-CaughtUp,
}

either_status :
    (b : Bool) (a c : Response)
    → a.status ≡ 200
    → c.status ≡ 503
    → ((if b then a else c).status ≡ 200) ↔ (b ≡ true)
either_status true a c good bad = ((λ e. refl), (λ e. good))
either_status false a c good bad = ((λ e. absurd (omega arith)), (λ e. cc))

status_of : (s : MemoryStorage) → ((ready_check s).status ≡ 200) ↔ (is_consumed s ≡ true)
unfolding ready_check
status_of s = either_status (is_consumed s) _ _ refl refl

module _ (opts : Options) where
  -- If no tick falls between a partition consumer's report and `ticker.Stop()`, the ready check answers
  -- with 200, once the storage has handled what was sent, just when there is a partition and a tick of
  -- every partition consumer has found its partition read to the end.
  pub ready_check-All-CaughtUp :
      (cs : List (Consumer opts)) (handled : List StorageRequest)
      → All (Punctual opts) cs
      → Schedule (all_sent opts cs) handled
      → length cs + length handled < half64
      → (s : MemoryStorage) × (consumer_offset_worker
            (start_requests (partitions opts cs) ++ handled)
            new_memory_storage
          ≡ some s)
        × (((ready_check s).status ≡ 200) ↔ ((0 < length cs) × All (CaughtUp opts) cs))
  ready_check-All-CaughtUp cs handled p scheduled fits =
      let (s, run, consumed) = consumed-All-CaughtUp opts cs handled p scheduled fits in
      (s, run, ((λ e. consumed.0 ((status_of s).0 e)), (λ h. (status_of s).1 (consumed.1 h))))

-- The partitions' messages, and what of them has not been read.
module _ (opts : Options) (log left : ℤ → List ConsumerMessage) where
  -- The consumer has read its partition in the order of the offsets, and its ticks found proper marks.
  pub record Reads (c : Consumer opts) : Type 0 where
    pub order : InOrder 0 (log c.partition)
    pub below_max : All IsBelowMax (log c.partition)
    pub split : log c.partition ≡ messages_read opts c.partition c.run ++ left c.partition
    pub marks : MarksFit opts c.partition c.run

  abbrev pub IsReadUp : Consumer opts → Type 0
  IsReadUp c = ReadUp opts c.partition c.run (left c.partition)

  all-IsReadUp :
      (cs : List (Consumer opts)) → All Reads cs → All (CaughtUp opts) cs → All IsReadUp cs
  all-IsReadUp [] reads caught = tt
  all-IsReadUp (c ∷ cs) reads caught =
      let r = reads.0 in
      (
        run-ReadUp opts c.partition c.run (log c.partition) (left c.partition) r.order r.below_max
            r.split r.marks caught.0,
        all-IsReadUp cs reads.1 caught.1,
      )

  -- When the ready check answers with 200, each partition consumer of the offsets topic has read every
  -- message below the high water mark that one of its ticks found, unless that mark is 1. This is so if
  -- the consumers read in the order of the offsets, the marks are not negative, and no tick falls between
  -- a consumer's report and `ticker.Stop()`.
  pub ready_check-All-IsReadUp :
      (cs : List (Consumer opts)) (handled : List StorageRequest) (s : MemoryStorage)
      → All (Punctual opts) cs
      → All Reads cs
      → Schedule (all_sent opts cs) handled
      → length cs + length handled < half64
      → consumer_offset_worker (start_requests (partitions opts cs) ++ handled) new_memory_storage
        ≡ some s
      → (ready_check s).status ≡ 200
      → All IsReadUp cs
  ready_check-All-IsReadUp cs handled s p reads scheduled fits run ready =
      let (s1, run1, consumed) = consumed-All-CaughtUp opts cs handled p scheduled fits in
      let now : is_consumed s1 ≡ true =
        ap is_consumed (some-eq (sym run1 ∙ run)) ∙ (status_of s).0 ready in
      all-IsReadUp cs reads (consumed.0 now).1
