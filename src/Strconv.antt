-- ===== src/Strconv.antt =====
-- What the program uses of strconv, and of `%v` in fmt, on numbers: decimal text, both ways.
pub mod Laws
use kafka_minion.Prelude.{
  ℕ, zero, suc, ◌+◌, ◌-◌, ◌*◌, ◌/◌, ◌%◌, ◌^◌, Bool, true, false, ◌&&◌, Bytes, [], ◌∷◌, ◌++◌, Option,
  none, some, ltb, leb, if◌then◌else◌,
}
use kafka_minion.Prelude.Int.{ℤ, pos, negsuc}

-- The last digit behind the digits of n / 10. The fuel n + 1 is more than n has digits.
digits_of : ℕ → ℕ → Bytes
digits_of zero n = []
digits_of (suc fuel) n =
    let front = digits_of fuel (n / 10) in
    if ltb n 10 then (48 + n) ∷ [] else front ++ (48 + n % 10) ∷ []

unfoldable pub show_nat : ℕ → Bytes
unfolding digits_of
show_nat n = digits_of (suc n) n

-- `strconv.Itoa`
unfoldable pub show_int : ℤ → Bytes
unfolding show_nat
show_int (pos n) = show_nat n
show_int (negsuc n) = b'-' ∷ show_nat (suc n)

-- `strconv.FormatBool`
unfoldable pub show_bool : Bool → Bytes
show_bool true = b't' ∷ b'r' ∷ b'u' ∷ b'e' ∷ []
show_bool false = b'f' ∷ b'a' ∷ b'l' ∷ b's' ∷ b'e' ∷ []

-- Whether `strconv.Atoi` takes a text of one byte: a sign alone is no number.
unfoldable pub is_digit : ℕ → Bool
is_digit c = leb b'0' c && leb c b'9'

abbrev pub number : ℕ → Bytes → ℕ
number acc [] = acc
number acc (c ∷ cs) = number (acc * 10 + (c - 48)) cs

abbrev pub all_digits : Bytes → Bool
all_digits [] = true
all_digits (c ∷ cs) = is_digit c && all_digits cs

-- `strconv.ParseUint(s, 10, 0)`, where an uint has 64 bits: `none` is a non-nil error, of the syntax
-- or of the range.
unfoldable pub parse_uint : Bytes → Option ℕ
parse_uint [] = none
parse_uint (c ∷ cs) =
    if all_digits (c ∷ cs) && ltb (number 0 (c ∷ cs)) (2 ^ 64)
    then some (number 0 (c ∷ cs))
    else none
