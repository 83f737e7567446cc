-- ===== src/Kafka/Cluster/Answers.antt =====
-- The requests that a broker's answer is turned into.
use kafka_minion.GoMap.{GoMap}
use kafka_minion.Kafka.Cluster.{OffsetResponse}
use kafka_minion.Kafka.Cluster.WaterMarks.{
  OffsetMarks, Blocks, Sending, mark_of, store_high, high_response, high_partitions, high_topics,
  low_response, low_partitions, low_topics,
}
use kafka_minion.Kafka.Request.{
  PartitionWaterMark, StorageRequest, new_add_partition_high_water_mark_request,
  new_add_partition_low_water_mark_request,
}
use kafka_minion.Kafka.Topics.{is_topic_allowed}
use kafka_minion.Options.{Options}
use kafka_minion.Prelude.{
  ◌≡◌, ◌≢◌, refl, ap, sym, ◌∙◌, Bool, true, false, ◌&&◌, ◌⊎◌, not, Bytes, bytes_eq, int_eq, Option,
  some, List, [], ◌∷◌, ◌++◌, ◌==◌, if◌then◌else◌, append_assoc, append-nil, Bool-cases, inl, inr,
}
use kafka_minion.Prelude.Int.{ℤ}

-- A response without an error has an offset.
abbrev pub HasOffset : OffsetResponse → Type 0
HasOffset r = r.no_error ≡ true → r.offsets ≢ []

abbrev pub AllAnswered : GoMap ℤ OffsetResponse → Type 0
AllAnswered [] = Unit
AllAnswered ((_, r) ∷ rs) = HasOffset r × AllAnswered rs

abbrev pub IsAnswered : Blocks → Type 0
IsAnswered [] = Unit
IsAnswered ((_, rs) ∷ blocks) = AllAnswered rs × IsAnswered blocks

module _ (opts : Options) (ts : ℤ) where
  -- What one response says of a partition's water mark, where o is what was known.
  abbrev pub answer :
      Bytes → ℤ → Bytes → ℤ → Bool → List ℤ → Option PartitionWaterMark → Option PartitionWaterMark
  answer t p topic q true (offset ∷ _) o =
      if is_topic_allowed opts topic && (topic == t && q == p)
      then some (mark_of opts ts topic q offset)
      else o
  answer t p topic q _ _ o = o

  abbrev pub answers_in :
      Bytes
      → ℤ
      → Bytes
      → GoMap ℤ OffsetResponse
      → Option PartitionWaterMark
      → Option PartitionWaterMark
  answers_in t p topic [] o = o
  answers_in t p topic ((q, r) ∷ rs) o =
      answers_in t p topic rs (answer t p topic q r.no_error r.offsets o)

  -- The water mark of a partition after an answer: the one that the answer has for it, if its topic is
  -- allowed and there is no error; and else the one before.
  abbrev pub answered : Bytes → ℤ → Blocks → Option PartitionWaterMark → Option PartitionWaterMark
  answered t p [] o = o
  answered t p ((topic, rs) ∷ blocks) o = answered t p blocks (answers_in t p topic rs o)

  module _ (request : PartitionWaterMark → StorageRequest) where
    abbrev pub sent_one : Bytes → ℤ → Bool → List ℤ → List StorageRequest
    sent_one topic q true (offset ∷ _) =
        if is_topic_allowed opts topic then request (mark_of opts ts topic q offset) ∷ [] else []
    sent_one topic q _ _ = []

    abbrev pub sent_in : Bytes → GoMap ℤ OffsetResponse → List StorageRequest
    sent_in topic [] = []
    sent_in topic ((q, r) ∷ rs) = sent_one topic q r.no_error r.offsets ++ sent_in topic rs

    abbrev pub sent_for : Blocks → List StorageRequest
    sent_for [] = []
    sent_for ((topic, rs) ∷ blocks) = sent_in topic rs ++ sent_for blocks

  pub high_response-sent :
      (topic : Bytes) (q : ℤ) (r : OffsetResponse) (os : List ℤ) (s : Sending)
      → (r.no_error ≡ true → os ≢ [])
      → (marks : OffsetMarks) × (high_response opts ts topic q r os s
          ≡ some (
            marks,
            s.1 ++ sent_one new_add_partition_high_water_mark_request topic q r.no_error os,
          ))
  unfolding high_response store_high
  high_response-sent topic q r os s h = by_error (Bool-cases r.no_error) os h
    where
      by_error :
          (r.no_error ≡ true) ⊎ (r.no_error ≡ false)
          → (os : List ℤ) → (r.no_error ≡ true → os ≢ [])
          → (marks : OffsetMarks) × (high_response opts ts topic q r os s
              ≡ some (
                marks,
                s.1 ++ sent_one new_add_partition_high_water_mark_request topic q r.no_error os,
              ))
      by_error (inl fine) [] h = absurd (h fine refl)
      by_error (inl fine) (offset ∷ os) h = (
        (store_high opts ts topic q offset s).0,
        rw fine (
            ap (λ l. some ((store_high opts ts topic q offset s).0, l))
              (either (is_topic_allowed opts topic) s.1
                (new_add_partition_high_water_mark_request (mark_of opts ts topic q offset)))),
      )
        where
          either :
              (b : Bool) (sent : List StorageRequest) (x : StorageRequest)
              → (if not b then sent else sent ++ x ∷ []) ≡ sent ++ (if b then x ∷ [] else [])
          either true sent x = refl
          either false sent x = sym (append-nil sent)
      by_error (inr failed) [] h = (s.0, rw failed (ap (λ l. some (s.0, l)) (sym (append-nil s.1))))
      by_error (inr failed) (offset ∷ os) h =
          (s.0, rw failed (ap (λ l. some (s.0, l)) (sym (append-nil s.1))))

  abbrev SendsMore : Sending → List StorageRequest → Option Sending → Type 0
  SendsMore s more r = (marks : OffsetMarks) × (r ≡ some (marks, s.1 ++ more))

  high_partitions-sent :
      (topic : Bytes) (rs : GoMap ℤ OffsetResponse) (s : Sending)
      → AllAnswered rs
      → SendsMore s
          (sent_in new_add_partition_high_water_mark_request topic rs)
          (high_partitions opts ts topic rs s)
  unfolding high_partitions
  high_partitions-sent topic [] s h = (s.0, ap (λ l. some (s.0, l)) (sym (append-nil s.1)))
  high_partitions-sent topic ((q, r) ∷ rs) s h =
      let (m, run) = high_response-sent topic q r r.offsets s h.0 in
      let first = sent_one new_add_partition_high_water_mark_request topic q r.no_error r.offsets in
      let (n, run') = high_partitions-sent topic rs (m, s.1 ++ first) h.1 in
      (n, rw run (run' ∙ ap (λ l. some (n, l)) (append_assoc s.1 first _)))

  pub high_topics-sent :
      (blocks : Blocks) (s : Sending)
      → IsAnswered blocks
      → SendsMore s
          (sent_for new_add_partition_high_water_mark_request blocks)
          (high_topics opts ts blocks s)
  unfolding high_topics
  high_topics-sent [] s h = (s.0, ap (λ l. some (s.0, l)) (sym (append-nil s.1)))
  high_topics-sent ((topic, rs) ∷ blocks) s h =
      let (m, run) = high_partitions-sent topic rs s h.0 in
      let first = sent_in new_add_partition_high_water_mark_request topic rs in
      let (n, run') = high_topics-sent blocks (m, s.1 ++ first) h.1 in
      (n, rw run (run' ∙ ap (λ l. some (n, l)) (append_assoc s.1 first _)))

  pub low_response-sent :
      (topic : Bytes) (q : ℤ) (r : OffsetResponse) (os : List ℤ)
      → is_topic_allowed opts topic ≡ true
      → (r.no_error ≡ true → os ≢ [])
      → low_response opts ts topic q r os
        ≡ some (sent_one new_add_partition_low_water_mark_request topic q r.no_error os)
  unfolding low_response
  low_response-sent topic q r [] allowed h = elim (Bool-cases r.no_error) [
    | inl fine ↦ absurd (h fine refl)
    | inr failed ↦ rw failed refl
  ]
  low_response-sent topic q r (offset ∷ os) allowed h = elim (Bool-cases r.no_error) [
    | inl fine ↦ rw (fine, allowed) refl
    | inr failed ↦ rw failed refl
  ]

  low_partitions-sent :
      (topic : Bytes) (rs : GoMap ℤ OffsetResponse)
      → is_topic_allowed opts topic ≡ true
      → AllAnswered rs
      → low_partitions opts ts topic rs
        ≡ some (sent_in new_add_partition_low_water_mark_request topic rs)
  unfolding low_partitions
  low_partitions-sent topic [] allowed h = refl
  low_partitions-sent topic ((q, r) ∷ rs) allowed h =
      rw (
        low_response-sent topic q r r.offsets allowed h.0,
        low_partitions-sent topic rs allowed h.1,
      )

  -- A topic that is not allowed has nothing sent.
  sent_in-disallowed :
      (request : PartitionWaterMark → StorageRequest) (topic : Bytes) (rs : GoMap ℤ OffsetResponse)
      → is_topic_allowed opts topic ≡ false
      → sent_in request topic rs ≡ []
  sent_in-disallowed request topic [] barred = refl
  sent_in-disallowed request topic ((q, r) ∷ rs) barred =
      ap (λ l. l ++ sent_in request topic rs) (one r.no_error r.offsets)
      ∙ sent_in-disallowed request topic rs barred
    where
      one : (fine : Bool) (os : List ℤ) → sent_one request topic q fine os ≡ []
      one true [] = refl
      one true (offset ∷ os) = rw barred refl
      one false os = refl

  pub low_topics-sent :
      (blocks : Blocks)
      → IsAnswered blocks
      → low_topics opts ts blocks ≡ some (sent_for new_add_partition_low_water_mark_request blocks)
  unfolding low_topics
  low_topics-sent [] h = refl
  low_topics-sent ((topic, rs) ∷ blocks) h = elim (Bool-cases (is_topic_allowed opts topic)) [
    | inl allowed ↦
        rw (allowed, low_partitions-sent topic rs allowed h.0, low_topics-sent blocks h.1)
    | inr barred ↦
        rw
          (
            barred,
            low_topics-sent blocks h.1,
            sent_in-disallowed new_add_partition_low_water_mark_request topic rs barred,
          )
          refl
  ]
