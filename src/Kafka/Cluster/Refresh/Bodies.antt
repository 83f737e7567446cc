-- ===== src/Kafka/Cluster/Refresh/Bodies.antt =====
-- The body that a goroutine runs: its steps one after the other, and what it sends and notes.
use kafka_minion.GoMap.{GoMap, get}
use kafka_minion.Goroutines.{fold}
use kafka_minion.Kafka.Cluster.{OffsetResponse}
use kafka_minion.Kafka.Cluster.Refresh.{
  Received, received_in, received_for, received, process_high, process_low,
}
use kafka_minion.Kafka.Cluster.Refresh.Handled.{
  Answers, sent_all, process_high-sent, process_low-sent,
}
use kafka_minion.Kafka.Cluster.Refresh.Marks.{process_high-marks}
use kafka_minion.Kafka.Cluster.Refresh.Replies.{notes}
use kafka_minion.Kafka.Cluster.WaterMarks.{
  OffsetMarks, Blocks, Sending, high_response, high_partitions, high_topics,
  process_high_water_marks, low_response, low_partitions, low_topics, process_low_water_marks,
  ◌then◌, behind,
}
use kafka_minion.Kafka.Request.{
  StorageRequest, new_add_partition_high_water_mark_request,
  new_add_partition_low_water_mark_request,
}
use kafka_minion.Kafka.Topics.{is_topic_allowed}
use kafka_minion.Options.{Options}
use kafka_minion.Prelude.{
  ◌≡◌, refl, sym, ap, ◌∙◌, not, Bytes, bytes_eq, int_eq, Option, none, some, List, [], ◌∷◌, ◌++◌,
  All, append_assoc, Bool-cases, inl, inr, if◌then◌else◌,
}
use kafka_minion.Prelude.Int.{ℤ}

module _ (opts : Options) (ts : ℤ) where
  then_assoc :
      (a : Option Sending) (f g : Sending → Option Sending)
      → ◌then◌ opts ts (◌then◌ opts ts a f) g ≡ ◌then◌ opts ts a (λ s. ◌then◌ opts ts (f s) g)
  then_assoc none f g = refl
  then_assoc (some s) f g = refl

  then_ext :
      (a : Option Sending) (f g : Sending → Option Sending)
      → ((s : Sending) → f s ≡ g s)
      → ◌then◌ opts ts a f ≡ ◌then◌ opts ts a g
  then_ext none f g h = refl
  then_ext (some s) f g h = h s

  process_high-partitions :
      (topic : Bytes) (rs : GoMap ℤ OffsetResponse) (more : List Received) (s : Sending)
      → process_high opts (received_in ts topic rs ++ more) s
        ≡ ◌then◌ opts ts (high_partitions opts ts topic rs s) (process_high opts more)
  unfolding process_high high_partitions
  process_high-partitions topic [] more s = refl
  process_high-partitions topic ((q, r) ∷ rs) more s =
      then_ext (high_response opts ts topic q r r.offsets s) _ _
        (process_high-partitions topic rs more)
      ∙ sym (
          then_assoc (high_response opts ts topic q r r.offsets s)
            (high_partitions opts ts topic rs) (process_high opts more))

  process_high-topics :
      (blocks : Blocks) (s : Sending)
      → process_high opts (received_for ts blocks) s ≡ high_topics opts ts blocks s
  unfolding high_topics
  process_high-topics [] s = unfold process_high in refl
  process_high-topics ((topic, rs) ∷ blocks) s =
      process_high-partitions topic rs (received_for ts blocks) s
      ∙ then_ext (high_partitions opts ts topic rs s) _ _ (process_high-topics blocks)

  process_high_water_marks-steps :
      (answer : Option Blocks) (known : OffsetMarks)
      → process_high_water_marks opts ts answer known
        ≡ process_high opts (received ts answer) (known, [])
  unfolding process_high_water_marks
  process_high_water_marks-steps none known = unfold process_high in refl
  process_high_water_marks-steps (some blocks) known = sym (process_high-topics blocks (known, []))

  behind_assoc :
      (a b c : Option (List StorageRequest))
      → behind opts ts a (behind opts ts b c) ≡ behind opts ts (behind opts ts a b) c
  behind_assoc none b c = refl
  behind_assoc (some a) none c = refl
  behind_assoc (some a) (some b) none = refl
  behind_assoc (some a) (some b) (some c) = ap some (sym (append_assoc a b c))

  behind_nil : (a : Option (List StorageRequest)) → behind opts ts (some []) a ≡ a
  behind_nil none = refl
  behind_nil (some a) = refl

  process_low-partitions :
      (topic : Bytes) (rs : GoMap ℤ OffsetResponse) (more : List Received)
      → process_low opts (received_in ts topic rs ++ more)
        ≡ behind opts ts
            (if not (is_topic_allowed opts topic) then some [] else low_partitions opts ts topic rs)
            (process_low opts more)
  unfolding process_low low_partitions
  process_low-partitions topic [] more = elim (Bool-cases (is_topic_allowed opts topic)) [
    | inl allowed ↦ rw allowed (sym (behind_nil (process_low opts more)))
    | inr barred ↦ rw barred (sym (behind_nil (process_low opts more)))
  ]
  process_low-partitions topic ((q, r) ∷ rs) more =
      let later = process_low-partitions topic rs more in
      let one = low_response opts ts topic q r r.offsets in
      elim (Bool-cases (is_topic_allowed opts topic)) [
        | inl allowed ↦ rw allowed (
            ap (behind opts ts one) (rw allowed at later)
            ∙ behind_assoc one (low_partitions opts ts topic rs) (process_low opts more))
        | inr barred ↦
            rw barred
              (behind_nil (process_low opts (received_in ts topic rs ++ more)) ∙ rw barred at later)
      ]

  process_low-topics :
      (blocks : Blocks) → process_low opts (received_for ts blocks) ≡ low_topics opts ts blocks
  unfolding low_topics
  process_low-topics [] = unfold process_low in refl
  process_low-topics ((topic, rs) ∷ blocks) =
      process_low-partitions topic rs (received_for ts blocks)
      ∙ ap
          (behind opts ts (
            if not (is_topic_allowed opts topic) then some [] else low_partitions opts ts topic rs))
          (process_low-topics blocks)

  process_low_water_marks-steps :
      (answer : Option Blocks)
      → process_low_water_marks opts ts answer ≡ process_low opts (received ts answer)
  unfolding process_low_water_marks
  process_low_water_marks-steps none = unfold process_low in refl
  process_low_water_marks-steps (some blocks) = sym (process_low-topics blocks)

  -- A broker's answer has an offset wherever there is no error. Then neither body panics: each sends the
  -- storage, in order, one request for each response without an error to a topic that is allowed, with
  -- the first offset and the time; and the high one notes for the partition consumers the first offset
  -- of each response without an error to the offsets topic, allowed or not. A request that failed sends
  -- and notes nothing.
  pub bodies_send_and_note :
      (answer : Option Blocks) (known : OffsetMarks)
      → All Answers (received ts answer)
      → (marks : OffsetMarks) × (process_high_water_marks opts ts answer known
          ≡ some
              (marks, sent_all opts new_add_partition_high_water_mark_request (received ts answer)))
        × ((p : ℤ) → get p marks ≡ fold (notes opts p) (received ts answer) (get p known))
        × (process_low_water_marks opts ts answer
            ≡ some (sent_all opts new_add_partition_low_water_mark_request (received ts answer)))
  bodies_send_and_note answer known h =
      let (marks, high) = process_high-sent opts (received ts answer) (known, []) h in
      (
        marks,
        process_high_water_marks-steps answer known ∙ high,
        (λ p. process_high-marks opts p (received ts answer) (known, []) high),
        process_low_water_marks-steps answer ∙ process_low-sent opts (received ts answer) h,
      )
