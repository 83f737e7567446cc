-- ===== src/Kafka/Consumer/Partition/ReadUp.antt =====
-- How far a partition consumer that has caught up has read: up to the high water mark of that tick.
use kafka_minion.Kafka.Consumer.{ConsumerMessage}
use kafka_minion.Kafka.Consumer.Partition.{
  PartitionConsumer, new_partition_consumer, caught_up, Step, message, failure, fire, tick_behind,
  tick_ready, stop, Run, here, more,
}
use kafka_minion.Kafka.Consumer.Partition.Log.{
  InOrder, IsFrom, LastRead, nothing_read, last_read, run-LastRead, read_in, messages_read,
  caught_up_read,
}
use kafka_minion.Kafka.Consumer.Partition.Punctual.{HasCaughtUp, IsReady}
use kafka_minion.Kafka.Consumer.Partition.Ready.{caught_up_unknown}
use kafka_minion.Kafka.Request.{StorageRequest}
use kafka_minion.Options.{Options}
use kafka_minion.Prelude.{
  ℕ, ◌+◌, ◌<◌, ◌≡◌, ◌⊎◌, inl, inr, sym, ap, ◌∙◌, subst, true, Option, none, some, List, [], ◌∷◌,
  ◌++◌, All, append_assoc, arith,
}
use kafka_minion.Prelude.Int.{ℤ, pos}
use kafka_minion.Prelude.Words.{half64}

-- An offset that is not the largest of the type.
abbrev pub IsBelowMax : ConsumerMessage → Type 0
IsBelowMax m = (o : ℕ) × (m.offset ≡ pos o) × (o + 1 < half64)

All-left : {A : Type 0} (P : A → Type 0) (xs ys : List A) → All P (xs ++ ys) → All P xs
All-left P [] ys h = tt
All-left P (x ∷ xs) ys h = (h.0, All-left P xs ys h.1)

All-right : {A : Type 0} (P : A → Type 0) (xs ys : List A) → All P (xs ++ ys) → All P ys
All-right P [] ys h = h
All-right P (x ∷ xs) ys h = All-right P xs ys h.1

one_or_not : (v : ℕ) → (v ≡ 1) ⊎ (v ≡ 1 → ⊥)
one_or_not v = ground arith

-- A mark that the cluster module may note: none yet, or one that is not negative.
abbrev pub IsMark : Option ℤ → Type 0
IsMark none = Unit
IsMark (some val) = (v : ℕ) × (val ≡ pos v) × (v < half64)

module _ (opts : Options) (partition : ℤ) where
  abbrev pub MarkFits :
      {s t : PartitionConsumer} {sent : List StorageRequest} → Step opts partition s sent t → Type 0
  MarkFits {s} (tick_ready val idle tick ready w e) = IsMark val
  MarkFits {s} _ = Unit

  -- The marks that the ticks of a run find are such marks.
  abbrev pub MarksFit :
      {s t : PartitionConsumer} {sent : List StorageRequest} → Run opts partition s sent t → Type 0
  MarksFit here = Unit
  MarksFit (more run step e) = MarksFit run × MarkFits step

  abbrev pub Sees :
      ℕ
      → {s t : PartitionConsumer} {sent : List StorageRequest} → Step opts partition s sent t
      → Type 0
  Sees v {s} (tick_ready val idle tick ready w e) = val ≡ some (pos v)
  Sees v {s} _ = ⊥

  -- A tick that found the partition read to its end found this mark.
  abbrev pub HasSeen :
      ℕ
      → {s t : PartitionConsumer} {sent : List StorageRequest} → Run opts partition s sent t
      → Type 0
  HasSeen v here = ⊥
  HasSeen v (more run step e) = HasSeen v run ⊎ Sees v step

  -- The mark v was found by a tick, and no message with a lower offset is left; or it is 1.
  abbrev pub ReadUp :
      {s t : PartitionConsumer} {sent : List StorageRequest}
      → Run opts partition s sent t
      → List ConsumerMessage
      → Type 0
  ReadUp run rest = (v : ℕ) × HasSeen v run × ((v ≡ 1) ⊎ All (IsFrom v) rest)

  last_below :
      {t : PartitionConsumer} (read : List ConsumerMessage)
      → LastRead opts partition t read
      → All IsBelowMax read
      → (o : ℕ) × (t.consumed_offset ≡ pos o) × (o + 1 < half64)
  last_below read (nothing_read e) fits = (0, e, omega arith)
  last_below read (last_read ms m e f) fits =
      let (o, at, below) = (All-right IsBelowMax ms (m ∷ []) (subst (All IsBelowMax) f fits)).0 in
      (o, e ∙ at, below)

  tick-ReadUp :
      {s : PartitionConsumer} {sent : List StorageRequest}
      (run : Run opts partition new_partition_consumer sent s) (val : Option ℤ)
      (log rest : List ConsumerMessage)
      → InOrder 0 log
      → All IsBelowMax log
      → log ≡ messages_read opts partition run ++ rest
      → IsMark val
      → caught_up s.consumed_offset val ≡ true
      → (v : ℕ) × (val ≡ some (pos v)) × ((v ≡ 1) ⊎ All (IsFrom v) rest)
  tick-ReadUp {s} run none log rest order fits split known ready =
      let read =
        All-left IsBelowMax (messages_read opts partition run) rest
          (subst (All IsBelowMax) split fits) in
      let (o, at, below) = last_below _ (run-LastRead opts partition run) read in
      absurd (cc (ready, ap (λ c. caught_up c none) at, caught_up_unknown o below))
  tick-ReadUp {s} run (some val) log rest order fits split (v, same, below) ready = (
    v,
    ap some same,
    elim (one_or_not v) [
      | inl one ↦ inl one
      | inr other ↦ inr (
          caught_up_read opts partition run v log rest below order split (λ e. absurd (other e))
            (ap (λ x. caught_up s.consumed_offset (some x)) (sym same) ∙ ready))
    ],
  )

  -- With what a further step reads, less is left.
  fewer :
      {s t u : PartitionConsumer} {before sent after : List StorageRequest}
      (run : Run opts partition s before t) (step : Step opts partition t sent u)
      (e : after ≡ before ++ sent) (rest : List ConsumerMessage)
      → ReadUp run (read_in opts partition step ++ rest)
      → ReadUp (more run step e) rest
  fewer run step e rest (v, seen, inl one) = (v, inl seen, inl one)
  fewer run step e rest (v, seen, inr above) =
      (v, inl seen, inr (All-right (IsFrom v) (read_in opts partition step) rest above))

  -- The run that ends in the tick that found the partition read to its end.
  more-ReadUp :
      {s t : PartitionConsumer} {before sent after : List StorageRequest}
      (run : Run opts partition new_partition_consumer before s)
      (step : Step opts partition s sent t) (e : after ≡ before ++ sent)
      (log rest : List ConsumerMessage)
      → InOrder 0 log
      → All IsBelowMax log
      → log ≡ messages_read opts partition run ++ (read_in opts partition step ++ rest)
      → MarkFits step
      → IsReady opts partition step
      → ReadUp (more run step e) rest
  more-ReadUp run (tick_ready val idle tick ready w u) e log rest order fits split mark now =
      let (v, seen, all) = tick-ReadUp run val log rest order fits split mark ready in
      (v, inr seen, all)
  more-ReadUp run (message msg sent idle p u) e log rest order fits split mark now = absurd now
  more-ReadUp run (failure idle u) e log rest order fits split mark now = absurd now
  more-ReadUp run (fire running u) e log rest order fits split mark now = absurd now
  more-ReadUp run (tick_behind val idle tick behind u) e log rest order fits split mark now =
      absurd now
  more-ReadUp run (stop place u) e log rest order fits split mark now = absurd now

  -- A run that has caught up has read its partition up to a mark that one of its ticks found.
  pub run-ReadUp :
      {t : PartitionConsumer} {sent : List StorageRequest}
      (run : Run opts partition new_partition_consumer sent t) (log rest : List ConsumerMessage)
      → InOrder 0 log
      → All IsBelowMax log
      → log ≡ messages_read opts partition run ++ rest
      → MarksFit run
      → HasCaughtUp opts partition run
      → ReadUp run rest
  run-ReadUp here log rest order fits split marks caught = absurd caught
  run-ReadUp (more run step e) log rest order fits split marks (inl earlier) =
      let split' =
        split
        ∙ append_assoc (messages_read opts partition run) (read_in opts partition step) rest in
      fewer run step e rest (run-ReadUp run log _ order fits split' marks.0 earlier)
  run-ReadUp (more run step e) log rest order fits split marks (inr now) =
      let split' =
        split
        ∙ append_assoc (messages_read opts partition run) (read_in opts partition step) rest in
      more-ReadUp run step e log rest order fits split' marks.1 now
