-- ===== src/Collector/Scrape/Complete.antt =====
-- What a scrape holds for a partition whose water marks the storage has.
use kafka_minion.Collector.{
  Metric, Desc, partition_high_water_mark, partition_low_water_mark, partition_message_count,
}
use kafka_minion.Collector.Offsets.{Marks, water_mark}
use kafka_minion.Collector.Scrape.{
  config_metrics, mark_labels, low_metric, high_metric, count_metric, each_mark, behind, Reads,
  collect,
}
use kafka_minion.Float64.{float_of_int}
use kafka_minion.Kafka.Request.{PartitionWaterMark}
use kafka_minion.Prelude.{
  ◌≡◌, sym, ap, ◌∙◌, subst, true, Bytes, bytes_eq, int_eq, Option, none, some, some-eq, List, [],
  ◌∷◌, ◌++◌, inl,
}
use kafka_minion.Prelude.Int.{ℤ}
use kafka_minion.Prelude.Words.{sub64}
use kafka_minion.Storage.Copies.{readers_return_the_maps}
use kafka_minion.Storage.Invariant.{IsWellFormed}
use kafka_minion.Storage.Readers.{
  topic_configs, partition_high_water_marks, partition_low_water_marks, is_consumed,
}
use kafka_minion.Strconv.{show_int}
use kafka_minion.Collector.Scrape.Found.{
  Holds, Holds-left, Holds-right, each_mark-Holds, Found, find,
}

behind-some :
    (o : Option (List Metric)) (rest : List Metric) {ms : List Metric}
    → behind o rest ≡ some ms
    → (first : List Metric) × (ms ≡ first ++ rest)
behind-some none rest e = cc
behind-some (some first) rest e = (first, sym (some-eq e))

-- What a scrape says of the water marks, of what the readers returned.
abbrev of_marks : Marks → Marks → List Metric
of_marks low high =
    each_mark low_metric low ++ (each_mark high_metric high ++ each_mark (count_metric low) high)

collect-of_marks :
    (r : Reads) (m : Metric) {ms : List Metric}
    → is_consumed r.at_status ≡ true
    → collect r ≡ some ms
    → Holds m (of_marks (partition_low_water_marks r.at_low) (partition_high_water_marks r.at_high))
    → Holds m ms
unfolding collect
collect-of_marks r m consumed e holds =
    let (first, split) = behind-some _ _ (rw (consumed, collect) at e) in
    subst (Holds m) (sym split)
      (Holds-right m first _ (Holds-right m (config_metrics (topic_configs r.at_configs)) _ holds))

abbrev pub metric_of : Desc → Bytes → ℤ → ℤ → Metric
metric_of desc t p value = record {
  desc = desc;
  value = float_of_int value;
  labels = t ∷ show_int p ∷ [];
}

module _ {marks : Marks} {t : Bytes} {p : ℤ} {mark : PartitionWaterMark}
    (f : Found marks t p mark) where
  -- The labels are those of the mark.
  named :
      (desc : Desc) (value : ℤ)
      → record { desc = desc; value = float_of_int value; labels = mark_labels mark }
        ≡ metric_of desc t p value
  named desc value =
      ap (λ t. metric_of desc t mark.partition_id value) (sym f.topic_same)
      ∙ ap (λ p. metric_of desc t p value) (sym f.partition_same)

  low-Holds :
      Holds (metric_of partition_low_water_mark t p mark.water_mark) (each_mark low_metric marks)
  unfolding low_metric
  low-Holds =
      each_mark-Holds low_metric _ mark (inl (named partition_low_water_mark mark.water_mark)) t p
        marks f.inner f.topic_found f.mark_found

  high-Holds :
      Holds (metric_of partition_high_water_mark t p mark.water_mark) (each_mark high_metric marks)
  unfolding high_metric
  high-Holds =
      each_mark-Holds high_metric _ mark (inl (named partition_high_water_mark mark.water_mark)) t p
        marks f.inner f.topic_found f.mark_found

  count-Holds :
      (lows : Marks) {low : PartitionWaterMark}
      → water_mark lows t p ≡ some low
      → Holds
          (metric_of partition_message_count t p (sub64 mark.water_mark low.water_mark))
          (each_mark (count_metric lows) marks)
  unfolding count_metric
  count-Holds lows {low} e =
      let there : water_mark lows mark.topic_name mark.partition_id ≡ some low =
        ap (λ t. water_mark lows t mark.partition_id) (sym f.topic_same)
        ∙ ap (λ p. water_mark lows t p) (sym f.partition_same)
        ∙ e in
      each_mark-Holds (count_metric lows) _ mark
        (rw (there, count_metric)
          (inl (named partition_message_count (sub64 mark.water_mark low.water_mark))))
        t p marks f.inner f.topic_found f.mark_found

-- A scrape that the readiness allows and that returns shows each partition that has both water marks
-- when they are read: its low water mark, its high water mark and, as its number of messages, their
-- difference. The topic and the partition are the labels.
pub scrape_shows_partition :
    (r : Reads) (t : Bytes) (p : ℤ) {low high : PartitionWaterMark} {ms : List Metric}
    → IsWellFormed r.at_low
    → IsWellFormed r.at_high
    → is_consumed r.at_status ≡ true
    → water_mark r.at_low.partitions.low_water_marks t p ≡ some low
    → water_mark r.at_high.partitions.high_water_marks t p ≡ some high
    → collect r ≡ some ms
    → Holds (metric_of partition_low_water_mark t p low.water_mark) ms
      × Holds (metric_of partition_high_water_mark t p high.water_mark) ms
      × Holds (metric_of partition_message_count t p (sub64 high.water_mark low.water_mark)) ms
scrape_shows_partition r t p {low} {high} {ms} low_fits high_fits consumed low_there high_there e =
    let (_, _, _, _, read_low) = readers_return_the_maps r.at_low low_fits in
    let (_, _, _, read_high, _) = readers_return_the_maps r.at_high high_fits in
    let lows = r.at_low.partitions.low_water_marks in
    let highs = r.at_high.partitions.high_water_marks in
    let low_found = find lows t p low_fits.low low_there in
    let high_found = find highs t p high_fits.high high_there in
    (
      shown _ read_low read_high (Holds-left _ (each_mark low_metric lows) _ (low-Holds low_found)),
      shown _ read_low read_high (
          Holds-right _ (each_mark low_metric lows) _
            (Holds-left _ (each_mark high_metric highs) _ (high-Holds high_found))),
      shown _ read_low read_high (
          Holds-right _ (each_mark low_metric lows) _ (
            Holds-right _ (each_mark high_metric highs) _ (count-Holds high_found lows low_there))),
    )
  where
    shown :
        (m : Metric)
        → partition_low_water_marks r.at_low ≡ r.at_low.partitions.low_water_marks
        → partition_high_water_marks r.at_high ≡ r.at_high.partitions.high_water_marks
        → Holds m
            (of_marks r.at_low.partitions.low_water_marks r.at_high.partitions.high_water_marks)
        → Holds m ms
    shown m read_low read_high holds = collect-of_marks r m consumed e (
        subst (λ (x : Marks). Holds m (of_marks x (partition_high_water_marks r.at_high)))
          (sym read_low)
          (subst (λ (y : Marks). Holds m (of_marks r.at_low.partitions.low_water_marks y))
            (sym read_high) holds))
