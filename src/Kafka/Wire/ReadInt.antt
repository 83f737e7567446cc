-- ===== src/Kafka/Wire/ReadInt.antt =====
-- A fixed-size integer is read back from its encoding, and a short buffer is an error.
use native.Mathlib.Nat.{pow-suc, le_trans}
use kafka_minion.Kafka.Wire.{
  Buffer, short_read, read_full, big_endian, read_int, read_int16, read_int32, read_int64,
}
use kafka_minion.Kafka.Wire.Encode.{
  be_bytes, length-be_bytes, write_int, write_int16, write_int32, write_int64,
}
use kafka_minion.Outcome.{ok, err}
use kafka_minion.Prelude.{
  ℕ, zero, suc, ◌+◌, ◌*◌, ◌/◌, ◌^◌, ◌<◌, ◌≤◌, ◌≡◌, refl, Bytes, [], ◌∷◌, ◌++◌, length,
  length-append, length-drop, take-length-append, drop-length-append, le→ltb, lt→ltb, arith,
}
use kafka_minion.Prelude.Int.{ℤ}
use kafka_minion.Prelude.Words.{
  Fits, half16, half32, half64, pattern_of, pattern_of-lt, signed-pattern_of,
}

big_endian-snoc :
    (acc : ℕ) (bs : Bytes) (b : ℕ) → big_endian acc (bs ++ b ∷ []) ≡ big_endian acc bs * 256 + b
unfolding big_endian
big_endian-snoc acc [] b = refl
big_endian-snoc acc (c ∷ bs) b = big_endian-snoc (acc * 256 + c) bs b

big_endian-be_bytes : (n v : ℕ) → v < 256 ^ n → big_endian 0 (be_bytes n v) ≡ v
unfolding be_bytes
big_endian-be_bytes zero v h = unfold big_endian in omega arith
big_endian-be_bytes (suc n) v h =
    rw (big_endian-snoc, big_endian-be_bytes n (v / 256) (omega (arith, pow-suc 256 n)))
      (omega arith)

read_full-append : (bs rest : Bytes) → read_full (length bs) (bs ++ rest) ≡ ok (bs, rest)
unfolding read_full
read_full-append bs rest = rw (
  le→ltb (length (bs ++ rest)) (length bs) (omega (arith, length-append bs rest)),
  take-length-append,
  drop-length-append,
)

read_full-be_bytes :
    (n v : ℕ) (rest : Bytes) → read_full n (be_bytes n v ++ rest) ≡ ok (be_bytes n v, rest)
read_full-be_bytes n v rest = rw (length-be_bytes n v) at (read_full-append (be_bytes n v) rest)

-- The encoding of an integer that fits its type is read back, whatever follows it.
pub read_int-write_int :
    (h n : ℕ) (z : ℤ) (rest : Bytes)
    → 0 < h
    → h + h ≤ 256 ^ n
    → Fits h z
    → read_int h n (write_int h n z ++ rest) ≡ ok (z, rest)
unfolding read_int
read_int-write_int h n z rest p w f =
    let small : pattern_of h z < 256 ^ n = le_trans (pattern_of-lt h z p) w in
    unfold write_int in
    rw (read_full-be_bytes n (pattern_of h z) rest, read_int)
      (rw (big_endian-be_bytes n (pattern_of h z) small, signed-pattern_of h z f))

pub read_int16-write :
    (z : ℤ) (rest : Bytes) → Fits half16 z → read_int16 (write_int16 z ++ rest) ≡ ok (z, rest)
read_int16-write z rest f = read_int-write_int half16 2 z rest (omega arith) (omega arith) f

pub read_int32-write :
    (z : ℤ) (rest : Bytes) → Fits half32 z → read_int32 (write_int32 z ++ rest) ≡ ok (z, rest)
read_int32-write z rest f = read_int-write_int half32 4 z rest (omega arith) (omega arith) f

pub read_int64-write :
    (z : ℤ) (rest : Bytes) → Fits half64 z → read_int64 (write_int64 z ++ rest) ≡ ok (z, rest)
read_int64-write z rest f = read_int-write_int half64 8 z rest (omega arith) (omega arith) f

-- With fewer bytes left than the integer has, the read fails: by `EOF` on an empty buffer and by
-- `ErrUnexpectedEOF` on any other.
pub read_int_short :
    (h n : ℕ) (buf : Buffer) → length buf < n → read_int h n buf ≡ err (short_read buf)
unfolding read_int
read_int_short h n buf p = rw (lt→ltb (length buf) n p)

-- A read takes just its bytes off the buffer.
pub read_int-length :
    (h n : ℕ) (buf rest : Buffer) (z : ℤ)
    → read_int h n buf ≡ ok (z, rest)
    → length buf ≡ n + length rest
unfolding read_int read_full
read_int-length h n buf rest z e = ground (arith, length-drop n buf)
