-- ===== src/Collector/Lag.antt =====
-- The lag of one partition, from `collectConsumerOffsets` of collector/collector.go.
use kafka_minion.Prelude.{
  ℕ, ◌-◌, ◌<◌, ◌≤◌, ◌≡◌, ◌∙◌, true, false, if◌then◌else◌, min, arith, Bool-cases, inl, inr,
}
use kafka_minion.Prelude.Int.{ℤ, pos, negsuc, ◌-ℤ◌, int_laws, ltb_ℤ}
use kafka_minion.Prelude.Words.{half64, sub64, sub64-eq}

-- A commit beyond the high water mark counts as no lag; one below the low water mark is behind by all
-- that the partition still holds.
unfoldable pub partition_lag : ℤ → ℤ → ℤ → ℤ
partition_lag offset low high =
    if ltb_ℤ high offset
    then pos 0
    else if ltb_ℤ offset low
    then sub64 high low
    else sub64 high offset

sub64_pos : (a b : ℕ) → b ≤ a → a < half64 → sub64 (pos a) (pos b) ≡ pos (a - b)
sub64_pos a b h f =
    let e : pos a -ℤ pos b ≡ pos (a - b) = omega int_laws in
    sub64-eq (pos a) (pos b) (rw e (omega arith)) ∙ e

-- With the low mark at most the high mark, the lag is the number of messages that the partition holds
-- at the committed offset or behind it.
pub partition_lag-min :
    (offset low high : ℕ)
    → low ≤ high
    → high < half64
    → partition_lag (pos offset) (pos low) (pos high) ≡ pos (min (high - offset) (high - low))
unfolding partition_lag
partition_lag-min offset low high h f = elim (Bool-cases (ltb_ℤ (pos high) (pos offset))) [
  | inl ahead ↦ rw ahead (ground arith)
  | inr known ↦ rw known (elim (Bool-cases (ltb_ℤ (pos offset) (pos low))) [
    | inl lost ↦ rw lost (sub64_pos high low h f ∙ (ground arith))
    | inr held ↦ rw held (sub64_pos high offset (ground arith) f ∙ (ground arith))
  ])
]

sub64_neg : (a b : ℕ) → a < b → b < half64 → sub64 (pos a) (pos b) ≡ negsuc (b - a - 1)
sub64_neg a b h f =
    let e : pos a -ℤ pos b ≡ negsuc (b - a - 1) = omega int_laws in
    sub64-eq (pos a) (pos b) (rw e (omega arith)) ∙ e

-- The two marks are fetched one after the other. Where the low mark has passed the stored high mark,
-- a commit at or below the high mark is given a negative lag.
pub partition_lag_negative :
    (offset low high : ℕ)
    → high < low
    → low < half64
    → offset ≤ high
    → partition_lag (pos offset) (pos low) (pos high) ≡ negsuc (low - high - 1)
unfolding partition_lag
partition_lag_negative offset low high h f o =
    let behind : ltb_ℤ (pos high) (pos offset) ≡ false = ground arith in
    let lost : ltb_ℤ (pos offset) (pos low) ≡ true = ground arith in
    rw (behind, lost) (sub64_neg high low h f)
