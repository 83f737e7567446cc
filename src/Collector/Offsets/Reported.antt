-- ===== src/Collector/Offsets/Reported.antt =====
-- Which lags of groups in topics `collectConsumerOffsets` reports.
use kafka_minion.Collector.{VersionedConsumerGroup, Metric, group_topic_lag}
use kafka_minion.Collector.Groups.{Groups, get_versioned_consumer_groups}
use kafka_minion.Collector.Offsets.{
  GroupLag, Aggregation, Marks, water_mark, collect_lag, offset_metrics, lag_metric,
  collect_offsets, empty_aggregation, topic_lag_metric, topic_lags, group_lags,
  collect_consumer_offsets, with_group_lags,
}
use kafka_minion.Collector.Offsets.Sums.{missing}
use kafka_minion.Collector.Offsets.Totals.{collect_offsets_step, no_error, errors}
use kafka_minion.GoMap.{GoMap, has}
use kafka_minion.Kafka.Request.{PartitionWaterMark}
use kafka_minion.Prelude.{
  some-eq, ◌≡◌, refl, sym, ap, ◌∙◌, Bool, false, ◌||◌, Bytes, bytes_eq, int_eq, Option, none, some,
  List, [], ◌∷◌, ◌++◌, subst, All, Any, Bool-cases, inl, inr,
}
use kafka_minion.Prelude.Int.{ℤ}
use kafka_minion.Storage.{ConsumerPartitionOffsetMetric}

-- A metric is the lag of a group in this topic.
abbrev pub IsTopicLag : Bytes → Metric → Type 0
IsTopicLag t m = (group : VersionedConsumerGroup) × (lag : ℤ) × (m ≡ topic_lag_metric group t lag)

-- A lag of a group in a topic is reported only if the topic is not among the errors.
abbrev IsClean : GoMap Bytes Bool → Metric → Type 0
IsClean bad m = m.desc ≡ group_topic_lag → (t : Bytes) × IsTopicLag t m × (has t bad ≡ false)

All-append : (P : Metric → Type 0) (xs ys : List Metric) → All P xs → All P ys → All P (xs ++ ys)
All-append P [] ys p q = q
All-append P (x ∷ xs) ys p q = (p.0, All-append P xs ys p.1 q)

topic_lags-IsClean :
    (bad : GoMap Bytes Bool) (group : VersionedConsumerGroup) (lags : GoMap Bytes ℤ)
    → All (IsClean bad) (topic_lags bad group lags)
unfolding topic_lags
topic_lags-IsClean bad group [] = tt
topic_lags-IsClean bad group ((t, lag) ∷ lags) = elim (Bool-cases (has t bad)) [
  | inl error ↦ rw error (topic_lags-IsClean bad group lags)
  | inr fine ↦ rw fine ((λ _. (t, (group, lag, refl), fine)), topic_lags-IsClean bad group lags)
]

group_lags-IsClean :
    (bad : GoMap Bytes Bool) (lags : GoMap Bytes GroupLag) → All (IsClean bad) (group_lags bad lags)
unfolding group_lags
group_lags-IsClean bad [] = tt
group_lags-IsClean bad ((_, sums) ∷ lags) =
    All-append (IsClean bad) (topic_lags bad sums.versioned_group sums.lag_by_topic)
      (group_lags bad lags) (topic_lags-IsClean bad sums.versioned_group sums.lag_by_topic)
      (group_lags-IsClean bad lags)

-- The metrics of the offsets themselves are no lags of groups in topics.
own_metrics-IsClean :
    (bad : GoMap Bytes Bool) (o : ConsumerPartitionOffsetMetric) (group : VersionedConsumerGroup)
    (low high : Option PartitionWaterMark) (agg : Aggregation)
    → All (IsClean bad) (offset_metrics o group ++ (collect_lag o group low high agg).0)
unfolding offset_metrics collect_lag lag_metric
own_metrics-IsClean bad o group none high agg = ((λ e. cc), ((λ e. cc), ((λ e. cc), tt)))
own_metrics-IsClean bad o group (some low) none agg = ((λ e. cc), ((λ e. cc), ((λ e. cc), tt)))
own_metrics-IsClean bad o group (some low) (some high) agg =
    ((λ e. cc), ((λ e. cc), ((λ e. cc), ((λ e. cc), tt))))

collect_offsets-IsClean :
    (bad : GoMap Bytes Bool) (low high : Marks) (groups : Groups)
    (offsets : GoMap Bytes ConsumerPartitionOffsetMetric) (agg last : Aggregation)
    (ms : List Metric)
    → collect_offsets low high groups offsets agg ≡ some (ms, last)
    → All (IsClean bad) ms
unfolding collect_offsets
collect_offsets-IsClean bad low high groups [] agg last [] h = tt
collect_offsets-IsClean bad low high groups [] agg last (m ∷ ms) h = cc
collect_offsets-IsClean bad low high groups ((key, o) ∷ offsets) agg last ms h =
    let (group, rest, run, all) =
      collect_offsets_step low high groups key o offsets agg last ms h in
    subst (All (IsClean bad)) (sym all) (
      All-append (IsClean bad)
        (offset_metrics o group
          ++ (collect_lag o group (water_mark low o.topic o.partition)
              (water_mark high o.topic o.partition) agg).0)
        rest
        (own_metrics-IsClean bad o group (water_mark low o.topic o.partition)
          (water_mark high o.topic o.partition) agg)
        (collect_offsets-IsClean bad low high groups offsets _ last rest run))

All-Any :
    (P : Metric → Type 0) (m : Metric) (ms : List Metric) → All P ms → Any (λ x. x ≡ m) ms → P m
All-Any P m [] a h = absurd h
All-Any P m (x ∷ ms) a (inl here) = subst P here a.0
All-Any P m (x ∷ ms) a (inr later) = All-Any P m ms a.1 later

-- A metric of the whole scrape, given what the loop over the offsets came to.
module _ (offsets : GoMap Bytes ConsumerPartitionOffsetMetric) (low high : Marks) (ms : List Metric)
    (m : Metric) (there : Any (λ x. x ≡ m) ms) (lag : m.desc ≡ group_topic_lag) where
  Complete : Type 0
  Complete = (t : Bytes) × IsTopicLag t m × (missing t low high offsets ≡ false)

  looped-Complete :
      (groups : Groups) (r : Option (List Metric × Aggregation))
      → collect_offsets low high groups offsets empty_aggregation ≡ r
      → with_group_lags r ≡ some ms
      → Complete
  unfolding Complete
  looped-Complete groups none run e = cc
  looped-Complete groups (some (own, agg)) run e =
      let bad = agg.error_topics in
      let clean : All (IsClean bad) ms = subst (All (IsClean bad)) (some-eq e) (
        All-append (IsClean bad) own (group_lags bad agg.group_lags)
          (collect_offsets-IsClean bad low high groups offsets empty_aggregation agg own run)
          (group_lags-IsClean bad agg.group_lags)) in
      let (t, is_lag, fine) = All-Any (IsClean bad) m ms clean there lag in
      (
        t,
        is_lag,
        ap (λ b. b || missing t low high offsets) (sym (no_error t))
            ∙ sym (errors t low high groups offsets empty_aggregation agg own run)
            ∙ fine,
      )

  found-Complete :
      (o : Option Groups)
      → (elim o [
        | none ↦ none
        | some groups ↦ with_group_lags (collect_offsets low high groups offsets empty_aggregation)
      ])
        ≡ some ms
      → Complete
  found-Complete none e = cc
  found-Complete (some groups) e =
      looped-Complete groups (collect_offsets low high groups offsets empty_aggregation) refl e

-- Every lag of a group in a topic that is reported is of a topic of which no offset, of whatever
-- group, has a water mark missing.
pub reported_complete :
    (offsets : GoMap Bytes ConsumerPartitionOffsetMetric) (low high : Marks) (ms : List Metric)
    (m : Metric)
    → collect_consumer_offsets offsets low high ≡ some ms
    → Any (λ x. x ≡ m) ms
    → m.desc ≡ group_topic_lag
    → (t : Bytes) × IsTopicLag t m × (missing t low high offsets ≡ false)
unfolding collect_consumer_offsets Complete
reported_complete offsets low high ms m run there lag =
    found-Complete offsets low high ms m there lag (get_versioned_consumer_groups offsets) run
