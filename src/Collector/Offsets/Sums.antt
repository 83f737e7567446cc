-- ===== src/Collector/Offsets/Sums.antt =====
-- The lags that the offsets of a group in a topic have, and what one turn of the loop adds to them.
use kafka_minion.Collector.{VersionedConsumerGroup}
use kafka_minion.Collector.Lag.{partition_lag}
use kafka_minion.Collector.Offsets.{
  GroupLag, Aggregation, Marks, water_mark, or_zero, add_lag, add_error, collect_lag,
}
use kafka_minion.GoMap.{GoMap, get, put, has}
use kafka_minion.GoMap.Laws.{get-put, has-put}
use kafka_minion.Kafka.Request.{PartitionWaterMark}
use kafka_minion.Prelude.{
  ◌≡◌, refl, ◌∙◌, Bool, true, false, ◌&&◌, ◌||◌, Bytes, bytes_eq, int_eq, Option, none, some, List,
  [], ◌∷◌, ◌==◌, ==_iff, if◌then◌else◌, Bool-cases, inl, inr, arith,
}
use kafka_minion.Prelude.Int.{ℤ, pos}
use kafka_minion.Prelude.Words.{add64}
use kafka_minion.Storage.{ConsumerPartitionOffsetMetric}

abbrev pub lag_between : ℤ → Option PartitionWaterMark → Option PartitionWaterMark → Option ℤ
lag_between offset none high = none
lag_between offset (some low) none = none
lag_between offset (some low) (some high) =
    some (partition_lag offset low.water_mark high.water_mark)

-- The lag of one offset, if both its water marks are known.
abbrev pub lag_of : Marks → Marks → ConsumerPartitionOffsetMetric → Option ℤ
lag_of low high o =
    lag_between o.offset (water_mark low o.topic o.partition) (water_mark high o.topic o.partition)

abbrev pub cons? : Bool → Option ℤ → List ℤ → List ℤ
cons? false o ls = ls
cons? true none ls = ls
cons? true (some l) ls = l ∷ ls

-- The lags of a group's partitions in a topic, in the order of the visits.
abbrev pub lags_for :
    Bytes → Bytes → Marks → Marks → GoMap Bytes ConsumerPartitionOffsetMetric → List ℤ
lags_for g t low high [] = []
lags_for g t low high ((_, o) ∷ offsets) =
    cons? (o.group == g && o.topic == t) (lag_of low high o) (lags_for g t low high offsets)

abbrev pub is_none {ℓ} : {A : Type ℓ} → Option A → Bool
is_none none = true
is_none (some _) = false

-- Whether some offset of the topic has a water mark missing, in whatever group.
abbrev pub missing : Bytes → Marks → Marks → GoMap Bytes ConsumerPartitionOffsetMetric → Bool
missing t low high [] = false
missing t low high ((_, o) ∷ offsets) =
    (o.topic == t && is_none (lag_of low high o)) || missing t low high offsets

abbrev pub in_topic : Bytes → Option GroupLag → Option ℤ
in_topic t none = none
in_topic t (some old) = get t old.lag_by_topic

abbrev pub topic_lag : Bytes → Bytes → GoMap Bytes GroupLag → Option ℤ
topic_lag g t lags = in_topic t (get g lags)

abbrev pub sums : Option ℤ → List ℤ → Option ℤ
sums o [] = o
sums o (l ∷ ls) = sums (some (add64 (or_zero o) l)) ls

-- The entry of the offset's group, after `add_lag`.
abbrev grown :
    ConsumerPartitionOffsetMetric → VersionedConsumerGroup → ℤ → Option GroupLag → GroupLag
grown o group lag none = record {
  versioned_group = group;
  lag_by_topic = put o.topic (add64 (pos 0) lag) [];
}
grown o group lag (some old) = record old {
  lag_by_topic = put o.topic (add64 (or_zero (get o.topic old.lag_by_topic)) lag) old.lag_by_topic;
}

add_lag-eq :
    (o : ConsumerPartitionOffsetMetric) (group : VersionedConsumerGroup) (lag : ℤ)
    (lags : GoMap Bytes GroupLag)
    → add_lag o group lag lags ≡ put o.group (grown o group lag (get o.group lags)) lags
unfolding add_lag
add_lag-eq o group lag lags = go (get o.group lags)
  where
    go :
        (old : Option GroupLag)
        → (elim old [
          | none ↦
              put o.group
                (record {
                  versioned_group = group;
                  lag_by_topic = put o.topic (add64 (pos 0) lag) [];
                })
                lags
          | some sums ↦
              put o.group
                (record sums {
                  lag_by_topic =
                      put o.topic
                        (add64 (or_zero (get o.topic sums.lag_by_topic)) lag)
                        sums.lag_by_topic;
                })
                lags
        ])
          ≡ put o.group (grown o group lag old) lags
    go none = refl
    go (some _) = refl

grown_lag :
    (t : Bytes) (o : ConsumerPartitionOffsetMetric) (group : VersionedConsumerGroup) (lag : ℤ)
    (old : Option GroupLag)
    → get t (grown o group lag old).lag_by_topic
      ≡ (if o.topic == t then some (add64 (or_zero (in_topic t old)) lag) else in_topic t old)
grown_lag t o group lag none = get-put o.topic t (add64 (pos 0) lag) [] ∙ (unfold get in refl)
grown_lag t o group lag (some old) = elim (Bool-cases (o.topic == t)) [
  | inl same ↦ rw (get-put, same) (rw ((==_iff o.topic t).0 same) refl)
  | inr other ↦ rw (get-put, other) refl
]

topic_lag-add_lag :
    (g t : Bytes) (o : ConsumerPartitionOffsetMetric) (group : VersionedConsumerGroup) (lag : ℤ)
    (lags : GoMap Bytes GroupLag)
    → topic_lag g t (add_lag o group lag lags) ≡ (
        if o.group == g && o.topic == t
        then some (add64 (or_zero (topic_lag g t lags)) lag)
        else topic_lag g t lags)
topic_lag-add_lag g t o group lag lags = elim (Bool-cases (o.group == g)) [
  | inl same ↦
      rw (add_lag-eq, get-put, same)
        (rw ((==_iff o.group g).0 same) (grown_lag t o group lag (get g lags)))
  | inr other ↦ rw (add_lag-eq, get-put, other) refl
]

pub step_lag :
    (g t : Bytes) (o : ConsumerPartitionOffsetMetric) (group : VersionedConsumerGroup)
    (low high : Option PartitionWaterMark) (agg : Aggregation) (ls : List ℤ)
    → sums (topic_lag g t (collect_lag o group low high agg).1.group_lags) ls
      ≡ sums
          (topic_lag g t agg.group_lags)
          (cons? (o.group == g && o.topic == t) (lag_between o.offset low high) ls)
unfolding collect_lag add_error
step_lag g t o group none high agg ls = ground arith
step_lag g t o group (some low) none agg ls = ground arith
step_lag g t o group (some low) (some high) agg ls = rw topic_lag-add_lag (ground arith)

pub step_error :
    (t : Bytes) (o : ConsumerPartitionOffsetMetric) (group : VersionedConsumerGroup)
    (low high : Option PartitionWaterMark) (agg : Aggregation)
    → has t (collect_lag o group low high agg).1.error_topics
      ≡ (has t agg.error_topics || (o.topic == t && is_none (lag_between o.offset low high)))
unfolding collect_lag add_error
step_error t o group none high agg = ground (arith, has-put o.topic t true agg.error_topics)
step_error t o group (some low) none agg = ground (arith, has-put o.topic t true agg.error_topics)
step_error t o group (some low) (some high) agg = ground arith
