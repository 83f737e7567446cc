-- ===== src/Prelude/Words.antt =====
-- Two's complement: the signed integers of Go with their wrap-around. A type of w bits is given by
-- h = 2 ^ (w - 1), so that its patterns are the numbers below h + h.
use Prim.Native.Nat.{ℕ, ◌+◌, ◌-◌, ◌%◌, ◌<◌, ◌^◌}
use mathlib.Core.Path.{◌≡◌}
use native.Mathlib.Omega.{arith}
use native.Mathlib.Nat.{mod-eq_of_lt, mod-lt}
use kafka_minion.Prelude.Int.{ℤ, pos, negsuc, ◌+ℤ◌, ◌-ℤ◌}
use kafka_minion.Prelude.Tests.{ltb, if◌then◌else◌}

-- The signed value of a bit pattern.
abbrev pub signed : ℕ → ℕ → ℤ
signed h n = if ltb n h then pos n else negsuc (h + h - 1 - n)

-- The bit pattern of an integer, which drops the bits above the word.
abbrev pub pattern_of : ℕ → ℤ → ℕ
pattern_of h (pos n) = n % (h + h)
pattern_of h (negsuc n) = h + h - 1 - n % (h + h)

abbrev pub wrap : ℕ → ℤ → ℤ
wrap h z = signed h (pattern_of h z)

-- The range of the type: -h .. h - 1.
abbrev pub Fits : ℕ → ℤ → Type 0
Fits h (pos n) = n < h
Fits h (negsuc n) = n < h

abbrev pub half16 : ℕ
half16 = 2 ^ 15

abbrev pub half32 : ℕ
half32 = 2 ^ 31

abbrev pub half64 : ℕ
half64 = 2 ^ 63

pub signed-pattern_of : (h : ℕ) (z : ℤ) → Fits h z → signed h (pattern_of h z) ≡ z
signed-pattern_of h (pos n) f = rw (mod-eq_of_lt {n = n} {m = h + h} (omega arith)) (ground arith)
signed-pattern_of h (negsuc n) f =
    rw (mod-eq_of_lt {n = n} {m = h + h} (omega arith)) (ground arith)

pub pattern_of-lt : (h : ℕ) (z : ℤ) → 0 < h → pattern_of h z < h + h
pattern_of-lt h (pos n) p = mod-lt n (omega arith)
pattern_of-lt h (negsuc n) p = omega arith

pub signed-Fits : (h n : ℕ) → n < h + h → Fits h (signed h n)
signed-Fits h n p = ground arith

-- int64 `a - b`, `a + b`.
unfoldable pub sub64 : ℤ → ℤ → ℤ
sub64 a b = wrap half64 (a -ℤ b)

unfoldable pub add64 : ℤ → ℤ → ℤ
add64 a b = wrap half64 (a +ℤ b)

pub sub64-eq : (a b : ℤ) → Fits half64 (a -ℤ b) → sub64 a b ≡ a -ℤ b
unfolding sub64
sub64-eq a b f = signed-pattern_of half64 (a -ℤ b) f

pub add64-eq : (a b : ℤ) → Fits half64 (a +ℤ b) → add64 a b ≡ a +ℤ b
unfolding add64
add64-eq a b f = signed-pattern_of half64 (a +ℤ b) f

-- An int64 sum is the same whether its first term has been cut to the word or not.
pub add64-wrap : (a b : ℤ) → add64 (wrap half64 a) b ≡ wrap half64 (a +ℤ b)
unfolding add64 ◌+ℤ◌
add64-wrap (pos a) (pos b) = ground arith
add64-wrap (pos a) (negsuc b) = ground arith
add64-wrap (negsuc a) (pos b) = ground arith
add64-wrap (negsuc a) (negsuc b) = ground arith

pub add64-zero : (a : ℤ) → add64 (pos 0) a ≡ wrap half64 a
unfolding add64 ◌+ℤ◌
add64-zero (pos a) = ground arith
add64-zero (negsuc a) = ground arith
