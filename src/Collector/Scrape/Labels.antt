-- ===== src/Collector/Scrape/Labels.antt =====
-- The label values of the metrics, against the label names of their descriptions.
use kafka_minion.Collector.{Metric, VersionedConsumerGroup}
use kafka_minion.Collector.Descriptions.{new_collector}
use kafka_minion.Collector.Groups.{Groups, get_versioned_consumer_groups}
use kafka_minion.Collector.Offsets.{
  Aggregation, Marks, GroupLag, offset_metrics, collect_lag, collect_offsets, topic_lags,
  group_lags, empty_aggregation, with_group_lags, collect_consumer_offsets, water_mark, prepend,
}
use kafka_minion.Collector.Scrape.{
  config_metrics, low_metric, high_metric, count_metric, each_partition, each_mark, behind, Reads,
  collect,
}
use kafka_minion.GoMap.{GoMap, get, has}
use kafka_minion.Kafka.Request.{PartitionWaterMark, TopicConfiguration}
use kafka_minion.Options.{Options}
use kafka_minion.Prelude.{
  ◌≡◌, refl, sym, ap, subst, Bool, Bytes, bytes_eq, int_eq, Option, none, some, some-eq, List, [],
  ◌∷◌, ◌++◌, All, length, Bool-cases, Option-cases, inl, inr,
}
use kafka_minion.Prelude.Int.{ℤ}
use kafka_minion.Storage.{PartitionWaterMarks, ConsumerPartitionOffsetMetric}
use kafka_minion.Storage.Readers.{
  consumer_offsets, topic_configs, partition_high_water_marks, partition_low_water_marks,
  is_consumed,
}

All-append : {A : Type 0} (P : A → Type 0) (xs ys : List A) → All P xs → All P ys → All P (xs ++ ys)
All-append P [] ys h k = k
All-append P (x ∷ xs) ys h k = (h.0, All-append P xs ys h.1 k)

prepend-some :
    (first : List Metric) (o : Option (List Metric × Aggregation)) {ms : List Metric}
    {agg : Aggregation}
    → prepend first o ≡ some (ms, agg)
    → (rest : List Metric) × (o ≡ some (rest, agg)) × (ms ≡ first ++ rest)
prepend-some first none e = cc
prepend-some first (some (rest, before)) e = (
  rest,
  ap (λ (r : List Metric × Aggregation). some (rest, r.1)) (some-eq e),
  sym (ap (λ (r : List Metric × Aggregation). r.0) (some-eq e)),
)

module _ (build_fq_name : Bytes → Bytes → Bytes → Bytes) (opts : Options) where
  -- As many label values as the description has label names: else `MustNewConstMetric` panics.
  abbrev pub IsLabelled : Metric → Type 0
  IsLabelled m = length m.labels ≡ length (new_collector build_fq_name opts m.desc).variable_labels

  abbrev Labelled : List Metric → Type 0
  Labelled ms = All IsLabelled ms

  offset_metrics-Labelled :
      (offset : ConsumerPartitionOffsetMetric) (group : VersionedConsumerGroup)
      → Labelled (offset_metrics offset group)
  unfolding offset_metrics new_collector
  offset_metrics-Labelled offset group = (refl, (refl, (refl, tt)))

  collect_lag-Labelled :
      (offset : ConsumerPartitionOffsetMetric) (group : VersionedConsumerGroup)
      (low high : Option PartitionWaterMark) (agg : Aggregation)
      → Labelled (collect_lag offset group low high agg).0
  unfolding collect_lag new_collector
  collect_lag-Labelled offset group none high agg = tt
  collect_lag-Labelled offset group (some low) none agg = tt
  collect_lag-Labelled offset group (some low) (some high) agg = (refl, tt)

  collect_offsets-Labelled :
      (low high : Marks) (groups : Groups) (offsets : GoMap Bytes ConsumerPartitionOffsetMetric)
      (agg : Aggregation) {ms : List Metric} {next : Aggregation}
      → collect_offsets low high groups offsets agg ≡ some (ms, next)
      → Labelled ms
  unfolding collect_offsets
  collect_offsets-Labelled low high groups [] agg e =
      subst Labelled (ap (λ (r : List Metric × Aggregation). r.0) (some-eq e)) tt
  collect_offsets-Labelled low high groups ((key, offset) ∷ offsets) agg e =
      elim (Option-cases (get offset.group groups)) [
        | inl missing ↦ cc (rw (missing, collect_offsets) at e)
        | inr (group, found) ↦
            let here =
              collect_lag offset group (water_mark low offset.topic offset.partition)
                (water_mark high offset.topic offset.partition) agg in
            let (rest, later, joined) =
              prepend-some (offset_metrics offset group ++ here.0)
                (collect_offsets low high groups offsets here.1)
                (rw (found, collect_offsets) at e) in
            subst Labelled (sym joined) (
              All-append IsLabelled (offset_metrics offset group ++ here.0) rest
                (All-append IsLabelled (offset_metrics offset group) here.0
                  (offset_metrics-Labelled offset group)
                  (collect_lag-Labelled offset group _ _ agg))
                (collect_offsets-Labelled low high groups offsets here.1 later))
      ]

  topic_lags-Labelled :
      (errors : GoMap Bytes Bool) (group : VersionedConsumerGroup) (lags : GoMap Bytes ℤ)
      → Labelled (topic_lags errors group lags)
  unfolding topic_lags new_collector
  topic_lags-Labelled errors group [] = tt
  topic_lags-Labelled errors group ((topic, lag) ∷ lags) = elim (Bool-cases (has topic errors)) [
    | inl missing ↦ rw missing (topic_lags-Labelled errors group lags)
    | inr known ↦ rw known (refl, topic_lags-Labelled errors group lags)
  ]

  group_lags-Labelled :
      (errors : GoMap Bytes Bool) (lags : GoMap Bytes GroupLag) → Labelled (group_lags errors lags)
  unfolding group_lags
  group_lags-Labelled errors [] = tt
  group_lags-Labelled errors ((key, sums) ∷ lags) =
      All-append IsLabelled (topic_lags errors sums.versioned_group sums.lag_by_topic) _
        (topic_lags-Labelled errors sums.versioned_group sums.lag_by_topic)
        (group_lags-Labelled errors lags)

  config_metrics-Labelled :
      (configs : GoMap Bytes TopicConfiguration) → Labelled (config_metrics configs)
  unfolding config_metrics new_collector
  config_metrics-Labelled [] = tt
  config_metrics-Labelled ((key, config) ∷ configs) = (refl, config_metrics-Labelled configs)

  module _ (f : PartitionWaterMark → List Metric)
      (each : (m : PartitionWaterMark) → Labelled (f m)) where
    each_partition-Labelled : (marks : PartitionWaterMarks) → Labelled (each_partition f marks)
    unfolding each_partition
    each_partition-Labelled [] = tt
    each_partition-Labelled ((p, mark) ∷ marks) =
        All-append IsLabelled (f mark) _ (each mark) (each_partition-Labelled marks)

    each_mark-Labelled : (marks : Marks) → Labelled (each_mark f marks)
    unfolding each_mark
    each_mark-Labelled [] = tt
    each_mark-Labelled ((t, partitions) ∷ marks) =
        All-append IsLabelled (each_partition f partitions) _ (each_partition-Labelled partitions)
          (each_mark-Labelled marks)

  low_metric-Labelled : (m : PartitionWaterMark) → Labelled (low_metric m)
  unfolding low_metric new_collector
  low_metric-Labelled m = (refl, tt)

  high_metric-Labelled : (m : PartitionWaterMark) → Labelled (high_metric m)
  unfolding high_metric new_collector
  high_metric-Labelled m = (refl, tt)

  count_metric-Labelled : (low : Marks) (m : PartitionWaterMark) → Labelled (count_metric low m)
  unfolding count_metric new_collector
  count_metric-Labelled low m = elim (Option-cases (water_mark low m.topic_name m.partition_id)) [
    | inl missing ↦ rw (missing, count_metric) tt
    | inr (mark, found) ↦ rw (found, count_metric) (refl, tt)
  ]

  with_group_lags-Labelled :
      (o : Option (List Metric × Aggregation)) {ms : List Metric}
      → ((first : List Metric) (agg : Aggregation) → o ≡ some (first, agg) → Labelled first)
      → with_group_lags o ≡ some ms
      → Labelled ms
  with_group_lags-Labelled none h e = cc
  with_group_lags-Labelled (some (first, agg)) h e = subst Labelled (some-eq e) (
      All-append IsLabelled first _ (h first agg refl)
        (group_lags-Labelled agg.error_topics agg.group_lags))

  collect_consumer_offsets-Labelled :
      (offsets : GoMap Bytes ConsumerPartitionOffsetMetric) (low high : Marks) {ms : List Metric}
      → collect_consumer_offsets offsets low high ≡ some ms
      → Labelled ms
  unfolding collect_consumer_offsets
  collect_consumer_offsets-Labelled offsets low high e =
      elim (Option-cases (get_versioned_consumer_groups offsets)) [
        | inl fault ↦ cc (rw (fault, collect_consumer_offsets) at e)
        | inr (groups, found) ↦
            with_group_lags-Labelled _
              (λ first agg made.
                collect_offsets-Labelled low high groups offsets empty_aggregation made)
              (rw (found, collect_consumer_offsets) at e)
      ]

  behind-Labelled :
      (o : Option (List Metric)) (rest : List Metric) {ms : List Metric}
      → ((first : List Metric) → o ≡ some first → Labelled first)
      → Labelled rest
      → behind o rest ≡ some ms
      → Labelled ms
  behind-Labelled none rest h k e = cc
  behind-Labelled (some first) rest h k e =
      subst Labelled (some-eq e) (All-append IsLabelled first rest (h first refl) k)

  -- Every metric that a scrape sends has as many label values as `NewCollector` gave label names to its
  -- description, as `MustNewConstMetric` demands.
  pub collect-IsLabelled : (r : Reads) {ms : List Metric} → collect r ≡ some ms → All IsLabelled ms
  unfolding collect
  collect-IsLabelled r e = elim (Bool-cases (is_consumed r.at_status)) [
    | inr waiting ↦ subst Labelled (some-eq (rw (waiting, collect) at e)) tt
    | inl consumed ↦
        let low = partition_low_water_marks r.at_low in
        let high = partition_high_water_marks r.at_high in
        behind-Labelled _ _
          (λ first made.
            collect_consumer_offsets-Labelled (consumer_offsets r.at_offsets) low high made)
          (All-append IsLabelled (config_metrics (topic_configs r.at_configs)) _
            (config_metrics-Labelled (topic_configs r.at_configs))
            (All-append IsLabelled (each_mark low_metric low) _
              (each_mark-Labelled low_metric low_metric-Labelled low)
              (All-append IsLabelled (each_mark high_metric high) _
                (each_mark-Labelled high_metric high_metric-Labelled high)
                (each_mark-Labelled (count_metric low) (count_metric-Labelled low) high))))
          (rw (consumed, collect) at e)
  ]
