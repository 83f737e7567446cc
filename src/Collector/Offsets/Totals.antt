-- ===== src/Collector/Offsets/Totals.antt =====
-- The sums that the loop over the offsets keeps, and the topics that it finds in error.
use kafka_minion.Collector.{VersionedConsumerGroup, Metric}
use kafka_minion.Collector.Groups.{Groups}
use kafka_minion.Collector.Offsets.{
  Aggregation, Marks, water_mark, collect_lag, prepend, offset_metrics, collect_offsets,
  empty_aggregation,
}
use kafka_minion.GoMap.{GoMap, get, has}
use kafka_minion.Prelude.{
  ◌≡◌, refl, sym, ap, ◌∙◌, Bool, true, false, ◌||◌, Bytes, bytes_eq, int_eq, Option, none, some,
  List, [], ◌∷◌, ◌++◌, subst, Option-cases, inl, inr, arith,
}
use kafka_minion.Prelude.Int.{ℤ, pos, ◌+ℤ◌, +ℤ_zero, +ℤ_assoc}
use kafka_minion.Prelude.Words.{half64, wrap, add64-wrap, add64-zero}
use kafka_minion.Storage.{ConsumerPartitionOffsetMetric}
use kafka_minion.Collector.Offsets.Sums.{lags_for, missing, topic_lag, sums, step_lag, step_error}

prepend-eq-some :
    (ms : List Metric) (r : Option (List Metric × Aggregation)) (all : List Metric)
    (agg : Aggregation)
    → prepend ms r ≡ some (all, agg)
    → (rest : List Metric) × (r ≡ some (rest, agg)) × (all ≡ ms ++ rest)
prepend-eq-some ms none all agg h = cc
prepend-eq-some ms (some (rest, next)) all agg h = (rest, cc, cc)

-- One turn of the loop over the offsets.
pub collect_offsets_step :
    (low high : Marks) (groups : Groups) (key : Bytes) (o : ConsumerPartitionOffsetMetric)
    (offsets : GoMap Bytes ConsumerPartitionOffsetMetric) (agg last : Aggregation)
    (ms : List Metric)
    → collect_offsets low high groups ((key, o) ∷ offsets) agg ≡ some (ms, last)
    → (group : VersionedConsumerGroup) × (rest : List Metric) × (collect_offsets low high groups
          offsets
          (collect_lag o group
            (water_mark low o.topic o.partition)
            (water_mark high o.topic o.partition)
            agg).1
        ≡ some (rest, last))
      × (ms
          ≡ (offset_metrics o group
              ++ (collect_lag o group
                  (water_mark low o.topic o.partition)
                  (water_mark high o.topic o.partition)
                  agg).0)
            ++ rest)
unfolding collect_offsets
collect_offsets_step low high groups key o offsets agg last ms h =
    elim (Option-cases (get o.group groups)) [
      | inl unknown ↦ absurd (ground (arith, unknown, h))
      | inr (group, found) ↦
          let turn = λ (g : VersionedConsumerGroup).
            collect_lag o g (water_mark low o.topic o.partition)
              (water_mark high o.topic o.partition) agg in
          let after = λ (g : VersionedConsumerGroup).
            prepend (offset_metrics o g ++ (turn g).0)
              (collect_offsets low high groups offsets (turn g).1) in
          let (rest, h', all) =
            prepend-eq-some (offset_metrics o group ++ (turn group).0)
              (collect_offsets low high groups offsets (turn group).1) ms last
              (subst (λ x. (elim x [ none ↦ none | some g ↦ after g ]) ≡ some (ms, last)) found
                h) in
          (group, rest, h', all)
    ]

pub no_offsets :
    (low high : Marks) (groups : Groups) (agg last : Aggregation) (ms : List Metric)
    → collect_offsets low high groups [] agg ≡ some (ms, last)
    → agg ≡ last
unfolding collect_offsets
no_offsets low high groups agg last ms h = cc

totals :
    (g t : Bytes) (low high : Marks) (groups : Groups)
    (offsets : GoMap Bytes ConsumerPartitionOffsetMetric) (agg last : Aggregation)
    (ms : List Metric)
    → collect_offsets low high groups offsets agg ≡ some (ms, last)
    → topic_lag g t last.group_lags
      ≡ sums (topic_lag g t agg.group_lags) (lags_for g t low high offsets)
totals g t low high groups [] agg last ms h =
    ap (λ a. topic_lag g t a.group_lags) (sym (no_offsets low high groups agg last ms h))
totals g t low high groups ((key, o) ∷ offsets) agg last ms h =
    let (group, rest, h', _) = collect_offsets_step low high groups key o offsets agg last ms h in
    totals g t low high groups offsets _ last rest h'
    ∙ step_lag g t o group _ _ agg (lags_for g t low high offsets)

pub errors :
    (t : Bytes) (low high : Marks) (groups : Groups)
    (offsets : GoMap Bytes ConsumerPartitionOffsetMetric) (agg last : Aggregation)
    (ms : List Metric)
    → collect_offsets low high groups offsets agg ≡ some (ms, last)
    → has t last.error_topics ≡ (has t agg.error_topics || missing t low high offsets)
errors t low high groups [] agg last ms h =
    ap (λ a. has t a.error_topics) (sym (no_offsets low high groups agg last ms h))
    ∙ or_false (has t agg.error_topics)
  where
    or_false : (b : Bool) → b ≡ (b || false)
    or_false true = refl
    or_false false = refl
errors t low high groups ((key, o) ∷ offsets) agg last ms h =
    let (group, rest, h', _) = collect_offsets_step low high groups key o offsets agg last ms h in
    errors t low high groups offsets _ last rest h'
    ∙ ap (λ b. b || missing t low high offsets) (step_error t o group _ _ agg)
    ∙ or_assoc (has t agg.error_topics) _ _
  where
    or_assoc : (a b c : Bool) → ((a || b) || c) ≡ (a || (b || c))
    or_assoc true b c = refl
    or_assoc false b c = refl

-- The exact sum.
abbrev pub total : List ℤ → ℤ
total [] = pos 0
total (l ∷ ls) = l +ℤ total ls

-- The exact sum as an int64, if there is something to sum.
abbrev pub kept_lag : List ℤ → Option ℤ
kept_lag [] = none
kept_lag (l ∷ ls) = some (wrap half64 (total (l ∷ ls)))

sums-total :
    (z : ℤ) (ls : List ℤ) → sums (some (wrap half64 z)) ls ≡ some (wrap half64 (z +ℤ total ls))
sums-total z [] = ap (λ (x : ℤ). some (wrap half64 x)) (sym (+ℤ_zero z))
sums-total z (l ∷ ls) =
    ap (λ (x : ℤ). sums (some x) ls) (add64-wrap z l)
    ∙ sums-total (z +ℤ l) ls
    ∙ ap (λ (x : ℤ). some (wrap half64 x)) (+ℤ_assoc z l (total ls))

sums-kept_lag : (ls : List ℤ) → sums none ls ≡ kept_lag ls
sums-kept_lag [] = refl
sums-kept_lag (l ∷ ls) = ap (λ (x : ℤ). sums (some x) ls) (add64-zero l) ∙ sums-total l ls

nothing : (g t : Bytes) → topic_lag g t [] ≡ none
unfolding get
nothing g t = refl

pub no_error : (t : Bytes) → has t (empty_aggregation.error_topics) ≡ false
unfolding has
no_error t = refl

-- After the loop over the offsets, the lag kept for a group and a topic is the exact sum, cut to an
-- int64, of the lags, negative ones too, of those offsets of the group in that topic of which both water
-- marks are known, and there is none if there is no such offset. A topic is marked as an error exactly
-- if an offset of it, in any group, has a water mark missing.
pub collect_offsets-totals :
    (g t : Bytes) (low high : Marks) (groups : Groups)
    (offsets : GoMap Bytes ConsumerPartitionOffsetMetric) (ms : List Metric) (agg : Aggregation)
    → collect_offsets low high groups offsets empty_aggregation ≡ some (ms, agg)
    → (topic_lag g t agg.group_lags ≡ kept_lag (lags_for g t low high offsets))
      × (has t agg.error_topics ≡ missing t low high offsets)
collect_offsets-totals g t low high groups offsets ms agg run = (
  totals g t low high groups offsets empty_aggregation agg ms run
      ∙ ap (λ o. sums o (lags_for g t low high offsets)) (nothing g t)
      ∙ sums-kept_lag (lags_for g t low high offsets),
  errors t low high groups offsets empty_aggregation agg ms run
      ∙ ap (λ b. b || missing t low high offsets) (no_error t),
)
