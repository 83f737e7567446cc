-- ===== src/Kafka/Cluster/Refresh/Marks.antt =====
-- The high water marks of the offsets topic, with which the partition consumers compare.
use kafka_minion.GoMap.{get}
use kafka_minion.GoMap.Laws.{get-put}
use kafka_minion.Goroutines.{fold}
use kafka_minion.Kafka.Cluster.{OffsetResponse}
use kafka_minion.Kafka.Cluster.Refresh.{Received, process_high}
use kafka_minion.Kafka.Cluster.Refresh.Replies.{note, notes}
use kafka_minion.Kafka.Cluster.WaterMarks.{Sending, high_response, store_high, ◌then◌}
use kafka_minion.Options.{Options}
use kafka_minion.Prelude.{
  ◌≡◌, refl, sym, ap, ◌∙◌, Bool, true, false, ◌&&◌, Bytes, bytes_eq, int_eq, Option, none, some,
  some-eq, List, [], ◌∷◌, ◌==◌, Bool-cases, inl, inr, if◌then◌else◌,
}
use kafka_minion.Prelude.Int.{ℤ}

module _ (opts : Options) (p : ℤ) where
  store_high-note :
      (ts : ℤ) (topic : Bytes) (q offset : ℤ) (s : Sending)
      → get p (store_high opts ts topic q offset s).0 ≡ (
          if topic == opts.consumer_offsets_topic_name && q == p
          then some (record { partition_id = q; high_water_mark = offset })
          else get p s.0)
  unfolding store_high
  store_high-note ts topic q offset s =
      elim (Bool-cases (topic == opts.consumer_offsets_topic_name)) [
        | inl same ↦
            rw same (get-put q p (record { partition_id = q; high_water_mark = offset }) s.0)
        | inr other ↦ rw other refl
      ]

  high_response-note :
      (ts : ℤ) (topic : Bytes) (q : ℤ) (r : OffsetResponse) (os : List ℤ) (s : Sending)
      {s' : Sending}
      → high_response opts ts topic q r os s ≡ some s'
      → get p s'.0 ≡ note opts p topic q r.no_error os (get p s.0)
  unfolding high_response
  high_response-note ts topic q r os s {s'} e = by_error r.no_error os refl e
    where
      unread : (reads : Bool) → (if reads then none else some s) ≡ some s' → get p s'.0 ≡ get p s.0
      unread true e = cc
      unread false e = ap (λ (x : Sending). get p x.0) (sym (some-eq e))

      by_error :
          (fine : Bool) (os : List ℤ)
          → r.no_error ≡ fine
          → high_response opts ts topic q r os s ≡ some s'
          → get p s'.0 ≡ note opts p topic q fine os (get p s.0)
      by_error true (offset ∷ os) f e =
          ap (λ (x : Sending). get p x.0) (sym (some-eq (rw f at e)))
          ∙ store_high-note ts topic q offset s
      by_error false (offset ∷ os) f e = ap (λ (x : Sending). get p x.0) (sym (some-eq (rw f at e)))
      by_error true [] f e = unread _ (rw f at e)
      by_error false [] f e = ap (λ (x : Sending). get p x.0) (sym (some-eq (rw f at e)))

  pub process_high-marks :
      (run : List Received) (s : Sending) {s' : Sending}
      → process_high opts run s ≡ some s'
      → get p s'.0 ≡ fold (notes opts p) run (get p s.0)
  unfolding process_high
  process_high-marks [] s e = ap (λ (x : Sending). get p x.0) (sym (some-eq e))
  process_high-marks (r ∷ rs) s {s'} e =
      by_step (high_response opts r.time r.topic r.partition r.response r.response.offsets s) refl e
        (λ u. process_high-marks rs u)
    where
      by_step :
          (o : Option Sending)
          → high_response opts r.time r.topic r.partition r.response r.response.offsets s ≡ o
          → ◌then◌ opts r.time o (process_high opts rs) ≡ some s'
          → ((u : Sending)
              → process_high opts rs u ≡ some s'
              → get p s'.0 ≡ fold (notes opts p) rs (get p u.0))
          → get p s'.0 ≡ fold (notes opts p) rs (notes opts p r (get p s.0))
      by_step none f e later = cc
      by_step (some u) f e later =
          later u e
          ∙ ap (fold (notes opts p) rs)
              (high_response-note r.time r.topic r.partition r.response r.response.offsets s f)
