-- ===== src/Kafka/Cluster/StoreMark.antt =====
-- Storing a water mark, by what is shown of each partition (storage/memory.go).
use kafka_minion.Collector.Offsets.{water_mark}
use kafka_minion.GoMap.{GoMap, get, put}
use kafka_minion.GoMap.Laws.{get-put}
use kafka_minion.Kafka.Request.{PartitionWaterMark}
use kafka_minion.Prelude.{
  ◌≡◌, refl, ap, ◌∙◌, ◌&&◌, Bytes, bytes_eq, int_eq, Option, none, some, [], ◌==◌, ==_iff,
  if◌then◌else◌, Bool-cases, inl, inr,
}
use kafka_minion.Prelude.Int.{ℤ}
use kafka_minion.Storage.{PartitionWaterMarks, store_mark}

abbrev or_empty : Option PartitionWaterMarks → PartitionWaterMarks
or_empty none = []
or_empty (some inner) = inner

store_mark-put :
    (m : PartitionWaterMark) (marks : GoMap Bytes PartitionWaterMarks)
    (o : Option PartitionWaterMarks)
    → get m.topic_name marks ≡ o
    → store_mark m marks ≡ put m.topic_name (put m.partition_id m (or_empty o)) marks
unfolding store_mark
store_mark-put m marks none e = rw (e, store_mark)
store_mark-put m marks (some inner) e = rw (e, store_mark)

water_mark-inner :
    (marks : GoMap Bytes PartitionWaterMarks) (t : Bytes) (p : ℤ) (o : Option PartitionWaterMarks)
    → get t marks ≡ o
    → get p (or_empty o) ≡ water_mark marks t p
unfolding water_mark
water_mark-inner marks t p none e = rw (e, water_mark) (unfold get in refl)
water_mark-inner marks t p (some inner) e = rw (e, water_mark)

water_mark-put :
    (topic : Bytes) (inner : PartitionWaterMarks) (marks : GoMap Bytes PartitionWaterMarks)
    (t : Bytes) (p : ℤ)
    → water_mark (put topic inner marks) t p
      ≡ (if topic == t then get p inner else water_mark marks t p)
unfolding water_mark
water_mark-put topic inner marks t p = elim (Bool-cases (topic == t)) [
  | inl same ↦ rw (get-put topic t inner marks, same, water_mark)
  | inr other ↦ rw (get-put topic t inner marks, other, water_mark) refl
]

-- Storing a water mark changes just that of its partition.
pub store_mark-water_mark :
    (m : PartitionWaterMark) (marks : GoMap Bytes PartitionWaterMarks) (t : Bytes) (p : ℤ)
    → water_mark (store_mark m marks) t p
      ≡ (if m.topic_name == t && m.partition_id == p then some m else water_mark marks t p)
store_mark-water_mark m marks t p =
    ap (λ x. water_mark x t p) (store_mark-put m marks (get m.topic_name marks) refl)
    ∙ water_mark-put m.topic_name (put m.partition_id m (or_empty (get m.topic_name marks))) marks t
        p
    ∙ elim (Bool-cases (m.topic_name == t)) [
      | inl same ↦
          let inner : get p (or_empty (get m.topic_name marks)) ≡ water_mark marks t p =
            ap (λ u. get p (or_empty (get u marks))) ((==_iff m.topic_name t).0 same)
            ∙ water_mark-inner marks t p (get t marks) refl in
          rw same (
            get-put m.partition_id p m (or_empty (get m.topic_name marks))
            ∙ ap (λ o. if m.partition_id == p then some m else o) inner)
      | inr other ↦ rw other refl
    ]
