-- ===== src/Kafka/Consumer/Partition/Log.antt =====
-- What a partition consumer has read of its partition when a tick finds it caught up.
use kafka_minion.Kafka.Consumer.{ConsumerMessage}
use kafka_minion.Kafka.Consumer.Partition.{
  PartitionConsumer, new_partition_consumer, caught_up, Step, message, failure, fire, tick_behind,
  tick_ready, stop, Run, here, more,
}
use kafka_minion.Kafka.Consumer.Partition.Ready.{caught_up_known}
use kafka_minion.Kafka.Request.{StorageRequest}
use kafka_minion.Options.{Options}
use kafka_minion.Prelude.{
  ℕ, suc, ◌+◌, ◌<◌, ◌≤◌, ◌≡◌, ◌≢◌, refl, sym, ap, ◌∙◌, true, some, List, [], ◌∷◌, ◌++◌, All,
  append_assoc, append-nil, subst, arith,
}
use kafka_minion.Prelude.Int.{ℤ, pos}
use kafka_minion.Prelude.Words.{half64}

-- The messages have increasing offsets, from lo on.
abbrev pub InOrder : ℕ → List ConsumerMessage → Type 0
InOrder lo [] = Unit
InOrder lo (m ∷ ms) = (o : ℕ) × (m.offset ≡ pos o) × (lo ≤ o) × InOrder (suc o) ms

abbrev pub IsFrom : ℕ → ConsumerMessage → Type 0
IsFrom v m = (o : ℕ) × (m.offset ≡ pos o) × (v ≤ o)

InOrder-IsFrom : (lo v : ℕ) (ms : List ConsumerMessage) → v ≤ lo → InOrder lo ms → All (IsFrom v) ms
InOrder-IsFrom lo v [] h order = tt
InOrder-IsFrom lo v (m ∷ ms) h (o, e, le, later) =
    ((o, e, omega arith), InOrder-IsFrom (suc o) v ms (omega arith) later)

-- What is left behind the last message read starts behind its offset.
InOrder-rest :
    (lo : ℕ) (ms : List ConsumerMessage) (m : ConsumerMessage) (rest : List ConsumerMessage)
    → InOrder lo (ms ++ m ∷ rest)
    → (o : ℕ) × (m.offset ≡ pos o) × InOrder (suc o) rest
InOrder-rest lo [] m rest (o, e, le, later) = (o, e, later)
InOrder-rest lo (n ∷ ms) m rest (o, e, le, later) = InOrder-rest (suc o) ms m rest later

module _ (opts : Options) (partition : ℤ) where
  -- The messages of a run, in order.
  abbrev pub read_in :
      {s t : PartitionConsumer} {sent : List StorageRequest}
      → Step opts partition s sent t
      → List ConsumerMessage
  read_in (message msg sent idle e u) = msg ∷ []
  read_in _ = []

  abbrev pub messages_read :
      {s t : PartitionConsumer} {sent : List StorageRequest}
      → Run opts partition s sent t
      → List ConsumerMessage
  messages_read here = []
  messages_read (more run step e) = messages_read run ++ read_in step

  -- The last message and those before, or none.
  pub data LastRead (t : PartitionConsumer) : List ConsumerMessage → Type 0 where
    nothing_read : t.consumed_offset ≡ pos 0 → LastRead t []
    last_read :
        (ms : List ConsumerMessage) (m : ConsumerMessage) {all : List ConsumerMessage}
        → t.consumed_offset ≡ m.offset
        → all ≡ ms ++ m ∷ []
        → LastRead t all

  LastRead-kept :
      {s t : PartitionConsumer} {read : List ConsumerMessage}
      → t.consumed_offset ≡ s.consumed_offset
      → LastRead s read
      → LastRead t (read ++ [])
  LastRead-kept same (nothing_read e) = nothing_read (same ∙ e)
  LastRead-kept same (last_read ms m {all = all} e f) =
      last_read ms m (same ∙ e) (append-nil all ∙ f)

  pub run-LastRead :
      {t : PartitionConsumer} {sent : List StorageRequest}
      (run : Run opts partition new_partition_consumer sent t)
      → LastRead t (messages_read run)
  run-LastRead here = nothing_read refl
  run-LastRead (more run step f) = after step (run-LastRead run)
    where
      after :
          {s t : PartitionConsumer} {sent : List StorageRequest} {read : List ConsumerMessage}
          (step : Step opts partition s sent t)
          → LastRead s read
          → LastRead t (read ++ read_in step)
      after {read = read} (message msg sent idle e u) last =
          last_read read msg (ap (λ (x : PartitionConsumer). x.consumed_offset) u) refl
      after (failure idle u) last =
          LastRead-kept (ap (λ (x : PartitionConsumer). x.consumed_offset) u) last
      after (fire running u) last =
          LastRead-kept (ap (λ (x : PartitionConsumer). x.consumed_offset) u) last
      after (tick_behind val idle tick behind u) last =
          LastRead-kept (ap (λ (x : PartitionConsumer). x.consumed_offset) u) last
      after (tick_ready val idle tick ready w u) last =
          LastRead-kept (ap (λ (x : PartitionConsumer). x.consumed_offset) u) last
      after (stop place u) last =
          LastRead-kept (ap (λ (x : PartitionConsumer). x.consumed_offset) u) last

  -- A consumer that has read a partition's messages in the order of their offsets and is found caught
  -- up at the high water mark v has left no message with an offset below v unread. If v is 1 this holds
  -- only if it has read a message.
  pub caught_up_read :
      {t : PartitionConsumer} {sent : List StorageRequest}
      (run : Run opts partition new_partition_consumer sent t) (v : ℕ)
      (log rest : List ConsumerMessage)
      → v < half64
      → InOrder 0 log
      → log ≡ messages_read run ++ rest
      → (v ≡ 1 → messages_read run ≢ [])
      → caught_up t.consumed_offset (some (pos v)) ≡ true
      → All (IsFrom v) rest
  caught_up_read {t} run v log rest fits order split read ready =
      by_last (messages_read run) (run-LastRead run) split read
    where
      zero_or_one : (v : ℕ) → v ≤ 0 + 1 → (v ≡ 1 → ⊥) → v ≤ 0
      zero_or_one v le h = ground arith

      by_last :
          (all : List ConsumerMessage)
          → LastRead t all
          → log ≡ all ++ rest
          → (v ≡ 1 → all ≢ [])
          → All (IsFrom v) rest
      by_last [] (nothing_read e) split read =
          let le : v ≤ 0 + 1 =
            (caught_up_known 0 v fits).0 (ap (λ c. caught_up c (some (pos v))) (sym e) ∙ ready) in
          let none_below : v ≤ 0 = zero_or_one v le (λ one. read one refl) in
          InOrder-IsFrom 0 v rest none_below (subst (InOrder 0) split order)
      by_last all (last_read ms m e f) split read =
          let joined : log ≡ ms ++ m ∷ rest =
            split ∙ ap (λ l. l ++ rest) f ∙ append_assoc ms (m ∷ []) rest in
          let (o, at, later) = InOrder-rest 0 ms m rest (subst (InOrder 0) joined order) in
          let le : v ≤ o + 1 =
            (caught_up_known o v fits).0
              (ap (λ c. caught_up c (some (pos v))) (sym at ∙ sym e) ∙ ready) in
          InOrder-IsFrom (suc o) v rest (omega arith) later
