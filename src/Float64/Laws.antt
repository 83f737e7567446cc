-- ===== src/Float64/Laws.antt =====
-- Up to 2^53 a float64 is exact; a counter that has come there stays there.
use kafka_minion.Float64.{nearest, round_at, float_of_nat, float_of_int, increment}
use kafka_minion.Prelude.{
  ℕ, suc, ◌+◌, ◌^◌, ◌<◌, ◌≤◌, ◌≡◌, ◌⊎◌, inl, inr, refl, ltb, min, arith, lt→ltb, Bool-cases,
}
use kafka_minion.Prelude.Int.{ℤ, pos, negsuc}

abbrev pub max_exact : ℕ
max_exact = 2 ^ 53

nearest-one : (m : ℕ) → nearest 1 m ≡ m
unfolding nearest
nearest-one m = ground arith

-- The number after 2^53 is as near to 2^53 as to 2^53 + 2, and 2^53 has the even significand.
float_of_nat_tie : float_of_nat (max_exact + 1) ≡ max_exact
unfolding float_of_nat round_at nearest
float_of_nat_tie = refl

float_of_nat_top : float_of_nat max_exact ≡ max_exact
unfolding float_of_nat round_at nearest
float_of_nat_top = refl

float_of_nat_small : (m : ℕ) → m < max_exact → float_of_nat m ≡ m
unfolding float_of_nat round_at
float_of_nat_small m h = rw (lt→ltb m max_exact h) (nearest-one m)

le_cases : (m n : ℕ) → m ≤ n → (m ≡ n) ⊎ (m < n)
le_cases m n h = omega arith

pub float_of_nat_exact : (m : ℕ) → m ≤ max_exact → float_of_nat m ≡ m
float_of_nat_exact m h = elim (le_cases m max_exact h) [
  | inl top ↦ rw top float_of_nat_top
  | inr below ↦ float_of_nat_small m below
]

-- A counter that starts at 0 and is incremented n times is n, up to 2^53, and then stays at 2^53:
-- the sum 2^53 + 1 is rounded back.
pub increment-min : (n : ℕ) → increment (min n max_exact) ≡ min (n + 1) max_exact
unfolding increment
increment-min n = elim (Bool-cases (ltb n max_exact)) [
  | inl below ↦
      let a : min n max_exact ≡ n = ground arith in
      let b : min (n + 1) max_exact ≡ n + 1 = ground arith in
      rw (a, b) (float_of_nat_exact (n + 1) (ground arith))
  | inr above ↦
      let a : min n max_exact ≡ max_exact = ground arith in
      let b : min (n + 1) max_exact ≡ max_exact = ground arith in rw (a, b) float_of_nat_tie
]

-- An int64 of at most 2^53 in size is converted exactly.
abbrev pub IsExact : ℤ → Type 0
IsExact (pos n) = n ≤ max_exact
IsExact (negsuc n) = suc n ≤ max_exact

pub float_of_int_exact : (z : ℤ) → IsExact z → float_of_int z ≡ z
unfolding float_of_int
float_of_int_exact (pos n) h = rw (float_of_nat_exact n h)
float_of_int_exact (negsuc n) h = rw (float_of_nat_exact (suc n) h) (ground arith)
