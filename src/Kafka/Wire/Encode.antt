-- ===== src/Kafka/Wire/Encode.antt =====
-- The wire format of Kafka's protocol guide, written the other way: how a broker encodes the
-- primitive types that the package decodes.
use kafka_minion.Prelude.{
  ℕ, zero, suc, ◌/◌, ◌%◌, ◌<◌, ◌≡◌, refl, Bytes, [], ◌∷◌, ◌++◌, length, length-append, arith,
}
use kafka_minion.Prelude.Int.{ℤ, pos}
use kafka_minion.Prelude.Words.{pattern_of, half16, half32, half64}

-- The n low bytes of v, the highest first.
unfoldable pub be_bytes : ℕ → ℕ → Bytes
be_bytes zero v = []
be_bytes (suc n) v = be_bytes n (v / 256) ++ (v % 256 ∷ [])

pub length-be_bytes : (n v : ℕ) → length (be_bytes n v) ≡ n
unfolding be_bytes
length-be_bytes zero v = refl
length-be_bytes (suc n) v =
    omega (arith, length-append (be_bytes n (v / 256)) (v % 256 ∷ []), length-be_bytes n (v / 256))

unfoldable pub write_int : ℕ → ℕ → ℤ → Bytes
unfolding be_bytes
write_int h n z = be_bytes n (pattern_of h z)

abbrev pub write_int16 : ℤ → Bytes
write_int16 = write_int half16 2

abbrev pub write_int32 : ℤ → Bytes
write_int32 = write_int half32 4

abbrev pub write_int64 : ℤ → Bytes
write_int64 = write_int half64 8

unfoldable pub write_string : Bytes → Bytes
write_string s = write_int16 (pos (length s)) ++ s

-- The length of a string is an int16.
abbrev pub IsShort : Bytes → Type 0
IsShort s = length s < half16

pub length-write_int : (h n : ℕ) (z : ℤ) → length (write_int h n z) ≡ n
unfolding write_int
length-write_int h n z = length-be_bytes n (pattern_of h z)
