-- ===== src/Kafka/Wire/ReadString.antt =====
-- `readString`: what it returns on every length prefix, and its round trip.
use kafka_minion.Kafka.Wire.{
  Buffer, Read, string_underflow, read_int, read_int16, string_body, read_string,
}
use kafka_minion.Kafka.Wire.Encode.{write_string, IsShort}
use kafka_minion.Kafka.Wire.ReadInt.{read_int-write_int, read_int-length}
use kafka_minion.Outcome.{ok, err, panic, bind-eq-ok}
use kafka_minion.Prelude.{
  ℕ, zero, suc, ◌+◌, ◌*◌, ◌<◌, ◌≤◌, ◌≡◌, ◌≢◌, Bytes, [], ◌∷◌, ◌++◌, length, take, drop, ltb,
  if◌then◌else◌, append_assoc, length-append, length-take-le, length-drop, take-length-append,
  drop-length-append, le→ltb, arith,
}
use kafka_minion.Prelude.Int.{ℤ, pos, negsuc}
use kafka_minion.Prelude.Words.{half16}

string_body-append : (s rest : Bytes) → string_body (pos (length s)) (s ++ rest) ≡ ok (s, rest)
unfolding string_body
string_body-append s rest = rw (
  le→ltb (length (s ++ rest)) (length s) (omega (arith, length-append s rest)),
  take-length-append,
  drop-length-append,
)

-- A string of at most 32767 bytes is read back from its encoding, whatever follows it.
pub read_string-write_string :
    (s rest : Bytes) → IsShort s → read_string (write_string s ++ rest) ≡ ok (s, rest)
unfolding read_string write_string
read_string-write_string s rest f =
    rw
      (
        append_assoc,
        read_int-write_int half16 2 (pos (length s)) (s ++ rest) (omega arith) (omega arith) f,
      )
      (string_body-append s rest)

-- The result by the two bytes of the length prefix, as an unsigned number `n`: below 2^15 it is the
-- size of the string, all ones stand for the null string, and any other pattern panics.
unfoldable pub string_of : ℕ → Buffer → Read Bytes
string_of n rest =
    if ltb n half16
    then (if ltb (length rest) n then err string_underflow else ok (take n rest, drop n rest))
    else if ltb n 65535
    then panic
    else ok ([], rest)

-- `readString` on every buffer that holds a length prefix.
pub read_string-string_of :
    (hi lo : ℕ) (rest : Buffer)
    → hi < 256
    → lo < 256
    → read_string (hi ∷ lo ∷ rest) ≡ string_of (hi * 256 + lo) rest
unfolding read_string string_body string_of read_int
read_string-string_of hi lo rest p q = ground arith

-- A length prefix below -1 makes `readString` panic: `make` is given a negative length.
pub read_string_panics :
    (hi lo : ℕ) (rest : Buffer)
    → 128 ≤ hi
    → hi < 256
    → lo < 256
    → hi + lo ≢ 510
    → read_string (hi ∷ lo ∷ rest) ≡ panic
unfolding string_of
read_string_panics hi lo rest a b c d = rw (read_string-string_of hi lo rest b c) (ground arith)

string_body-length :
    (z : ℤ) (mid rest : Buffer) (s : Bytes)
    → string_body z mid ≡ ok (s, rest)
    → length s + length rest ≤ length mid
unfolding string_body
string_body-length (negsuc zero) mid rest s e = ground arith
string_body-length (negsuc (suc n)) mid rest s e = cc
string_body-length (pos n) mid rest s e = ground (arith, length-take-le n mid, length-drop n mid)

-- A successful `readString` takes at least its length prefix, so that what is left is shorter.
pub read_string-length :
    (buf rest : Buffer) (s : Bytes)
    → read_string buf ≡ ok (s, rest)
    → length s + length rest + 2 ≤ length buf
unfolding read_string
read_string-length buf rest s e =
    let (r, read, body) = bind-eq-ok (read_int16 buf) (λ r. string_body r.0 r.1) e in
    omega (arith, string_body-length r.0 r.1 rest s body, read_int-length half16 2 buf r.1 r.0 read)
