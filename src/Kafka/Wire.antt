-- ===== src/Kafka/Wire.antt =====
-- kafka/protocol_helper.go, over `bytes.Buffer` and `binary.Read` of the standard library. A buffer
-- is its unread bytes, and each read returns the buffer that it leaves.
pub mod Encode
pub mod ReadInt
pub mod ReadString
pub mod Strings
use kafka_minion.Outcome.{Outcome, ok, err, panic, ◌>>=◌}
use kafka_minion.Prelude.{
  ℕ, zero, suc, ◌+◌, ◌*◌, Bytes, [], ◌∷◌, length, take, drop, ltb, if◌then◌else◌,
}
use kafka_minion.Prelude.Int.{ℤ, pos, negsuc}
use kafka_minion.Prelude.Words.{signed, half16, half32, half64}

abbrev pub Buffer : Type 0
Buffer = Bytes

pub data ReadError : Type 0 where
  eof unexpected_eof string_underflow : ReadError

abbrev pub Read : Type 0 → Type 0
Read A = Outcome ReadError (A × Buffer)

-- `io.ReadFull` of n bytes, n > 0: how `binary.Read` fills its scratch space.
pub short_read : Buffer → ReadError
short_read [] = eof
short_read (_ ∷ _) = unexpected_eof

read_full : ℕ → Buffer → Read Bytes
unfolding short_read
read_full n buf = if ltb (length buf) n then err (short_read buf) else ok (take n buf, drop n buf)

big_endian : ℕ → Bytes → ℕ
big_endian acc [] = acc
big_endian acc (b ∷ bs) = big_endian (acc * 256 + b) bs

-- `binary.Read(buf, binary.BigEndian, &x)` for a signed `x` of n bytes.
unfoldable pub read_int : ℕ → ℕ → Buffer → Read ℤ
unfolding read_full big_endian
read_int h n buf = do (bs, rest) ← read_full n buf; ok (signed h (big_endian 0 bs), rest)

abbrev pub read_int16 : Buffer → Read ℤ
read_int16 = read_int half16 2

abbrev pub read_int32 : Buffer → Read ℤ
read_int32 = read_int half32 4

abbrev pub read_int64 : Buffer → Read ℤ
read_int64 = read_int half64 8

-- `buf.Next(n)`: the next n bytes, or all that are left.
abbrev pub next : ℕ → Buffer → Bytes × Buffer
next n buf = (take n buf, drop n buf)

-- `make([]byte, strlen)` panics at a negative length; `buf.Read` may fill less than it was given.
string_body : ℤ → Buffer → Read Bytes
string_body (negsuc zero) buf = ok ([], buf)
string_body (negsuc (suc n)) buf = panic
string_body (pos n) buf =
    if ltb (length buf) n then err string_underflow else ok (take n buf, drop n buf)

unfoldable pub read_string : Buffer → Read Bytes
unfolding string_body
read_string buf = do (strlen, rest) ← read_int16 buf; string_body strlen rest
