-- ===== src/Kafka/Consumer/Partition/Ready.antt =====
-- When a tick finds that a partition of the offsets topic has been read to its end.
use kafka_minion.Kafka.Consumer.Partition.{high_water_mark, caught_up}
use kafka_minion.Prelude.{
  ℕ, zero, suc, ◌+◌, ◌-◌, ◌<◌, ◌≤◌, ◌≡◌, ◌↔◌, true, false, none, some, refl, ◌∙◌, arith,
}
use kafka_minion.Prelude.Int.{pos, ◌-ℤ◌, int_laws}
use kafka_minion.Prelude.Words.{half64, sub64, sub64-eq}

minus_one : (v : ℕ) → suc v < half64 → sub64 (pos (suc v)) (pos 1) ≡ pos v
minus_one v h =
    let e : pos (suc v) -ℤ pos 1 ≡ pos v = omega int_laws in
    sub64-eq (pos (suc v)) (pos 1) (rw e (omega arith)) ∙ e

bound_known : (v : ℕ) → v < half64 → high_water_mark (some (pos v)) ≡ pos (v - 1)
unfolding high_water_mark
bound_known zero h = unfold sub64 ◌-ℤ◌ in refl
bound_known (suc v) h = rw (minus_one v h) (ground arith)

-- With the high water mark v known, a consumer whose last offset is c counts as caught up just when
-- v ≤ c + 1: every offset below v has been read. At the start c is 0, whether or not offset 0 has been
-- read.
pub caught_up_known :
    (c v : ℕ) → v < half64 → (caught_up (pos c) (some (pos v)) ≡ true) ↔ (v ≤ c + 1)
unfolding caught_up
caught_up_known c v h = rw (bound_known v h) (ground arith)

-- With no high water mark known no offset below the largest int64 counts as caught up.
pub caught_up_unknown : (c : ℕ) → c + 1 < half64 → caught_up (pos c) none ≡ false
unfolding caught_up high_water_mark
caught_up_unknown c h = ground arith
