-- ===== src/Float64.antt =====
-- The float64 values that the program computes: integers converted to float64, and a counter that
-- grows by one. All of them are integers, so a float64 is given here by the integer that it is.
pub mod Laws
use kafka_minion.Prelude.{ℕ, zero, suc, ◌+◌, ◌*◌, ◌/◌, ◌%◌, ◌^◌, eqb, ltb, if◌then◌else◌}
use kafka_minion.Prelude.Int.{ℤ, pos, negsuc, sub_ℕ}

-- The multiple of `scale` that is nearest to m, and of two that are as near the even one.
unfoldable pub nearest : ℕ → ℕ → ℕ
nearest scale m =
    let q = m / scale in
    let r = m % scale in
    if ltb (2 * r) scale
    then q * scale
    else if ltb scale (2 * r)
    then (q + 1) * scale
    else if eqb (q % 2) 0
    then q * scale
    else (q + 1) * scale

-- A significand has 53 bits: the scale doubles until the number has at most so many of them.
unfoldable pub round_at : ℕ → ℕ → ℕ → ℕ
unfolding nearest
round_at zero scale m = nearest scale m
round_at (suc fuel) scale m =
    let more = round_at fuel (2 * scale) m in
    if ltb m (2 ^ 53 * scale) then nearest scale m else more

-- 11 doublings are enough for every number of 64 bits.
unfoldable pub float_of_nat : ℕ → ℕ
unfolding round_at
float_of_nat m = round_at 11 1 m

-- `float64(x)` of an int64.
unfoldable pub float_of_int : ℤ → ℤ
float_of_int (pos n) = pos (float_of_nat n)
float_of_int (negsuc n) = sub_ℕ 0 (float_of_nat (suc n))

-- `f++` of a float64 that is a number of ℕ.
unfoldable pub increment : ℕ → ℕ
increment f = float_of_nat (f + 1)
