-- ===== src/Collector/Scrape/Found.antt =====
-- A water mark that is found among the marks, and the metrics that are made of it.
use kafka_minion.Collector.{Metric}
use kafka_minion.Collector.Offsets.{Marks, water_mark}
use kafka_minion.Collector.Scrape.{each_partition, each_mark}
use kafka_minion.GoMap.{get}
use kafka_minion.Kafka.Request.{PartitionWaterMark}
use kafka_minion.Prelude.{
  ◌≡◌, sym, ap, ◌∙◌, subst, Bytes, bytes_eq, int_eq, some, some-eq, List, [], ◌∷◌, ◌++◌, ◌==◌, Any,
  Bool-cases, Option-cases, inl, inr,
}
use kafka_minion.Prelude.Int.{ℤ}
use kafka_minion.Storage.{PartitionWaterMarks}
use kafka_minion.Storage.Invariant.{WaterMarksFit}

abbrev pub Holds : Metric → List Metric → Type 0
Holds m ms = Any (λ n. n ≡ m) ms

pub Holds-left : (m : Metric) (xs ys : List Metric) → Holds m xs → Holds m (xs ++ ys)
Holds-left m [] ys h = absurd h
Holds-left m (x ∷ xs) ys (inl here) = inl here
Holds-left m (x ∷ xs) ys (inr later) = inr (Holds-left m xs ys later)

pub Holds-right : (m : Metric) (xs ys : List Metric) → Holds m ys → Holds m (xs ++ ys)
Holds-right m [] ys h = h
Holds-right m (x ∷ xs) ys h = inr (Holds-right m xs ys h)

module _ (f : PartitionWaterMark → List Metric) (m : Metric) (mark : PartitionWaterMark)
    (made : Holds m (f mark)) where
  each_partition-Holds :
      (p : ℤ) (marks : PartitionWaterMarks)
      → get p marks ≡ some mark
      → Holds m (each_partition f marks)
  unfolding each_partition get
  each_partition-Holds p [] e = cc
  each_partition-Holds p ((q, other) ∷ marks) e = elim (Bool-cases (q == p)) [
    | inl same ↦
        Holds-left m (f other) (each_partition f marks)
          (subst (λ x. Holds m (f x)) (sym (some-eq (rw same at e))) made)
    | inr different ↦
        Holds-right m (f other) (each_partition f marks)
          (each_partition-Holds p marks (rw different at e))
  ]

  pub each_mark-Holds :
      (t : Bytes) (p : ℤ) (marks : Marks) (inner : PartitionWaterMarks)
      → get t marks ≡ some inner
      → get p inner ≡ some mark
      → Holds m (each_mark f marks)
  unfolding each_mark get
  each_mark-Holds t p [] inner e g = cc
  each_mark-Holds t p ((u, other) ∷ marks) inner e g = elim (Bool-cases (u == t)) [
    | inl same ↦ Holds-left m (each_partition f other) (each_mark f marks) (
        each_partition-Holds p other
          (ap (λ (x : PartitionWaterMarks). get p x) (some-eq (rw same at e)) ∙ g))
    | inr different ↦
        Holds-right m (each_partition f other) (each_mark f marks)
          (each_mark-Holds t p marks inner (rw different at e) g)
  ]

-- A mark that is found stands under its topic, with the names of its keys.
pub record Found (marks : Marks) (t : Bytes) (p : ℤ) (mark : PartitionWaterMark) : Type 0 where
  pub inner : PartitionWaterMarks
  pub topic_found : get t marks ≡ some inner
  pub mark_found : get p inner ≡ some mark
  pub topic_same : t ≡ mark.topic_name
  pub partition_same : p ≡ mark.partition_id

pub find :
    (marks : Marks) (t : Bytes) (p : ℤ) {mark : PartitionWaterMark}
    → WaterMarksFit marks
    → water_mark marks t p ≡ some mark
    → Found marks t p mark
unfolding water_mark
find marks t p fit e = elim (Option-cases (get t marks)) [
  | inl missing ↦ cc (rw (missing, water_mark) at e)
  | inr (inner, found) ↦
      let there : get p inner ≡ some _ = rw (found, water_mark) at e in
      let keyed = (fit.each t inner found).keyed p _ there in
      record {
        inner = inner;
        topic_found = found;
        mark_found = there;
        topic_same = keyed.1;
        partition_same = keyed.0;
      }
]
