-- ===== src/Kafka/Wire/Strings.antt =====
-- `readString` against the encoding of the protocol guide: which buffers it reads, and which make it
-- panic.
use kafka_minion.Kafka.Wire.{Buffer, Read, read_int, string_body, read_string}
use kafka_minion.Kafka.Wire.Encode.{be_bytes, write_int, write_int16, write_string, IsShort}
use kafka_minion.Kafka.Wire.ReadInt.{read_int16-write}
use kafka_minion.Kafka.Wire.ReadString.{read_string-write_string, string_of, read_string-string_of}
use kafka_minion.Outcome.{ok, panic}
use kafka_minion.Prelude.{
  ℕ, zero, suc, ◌+◌, ◌-◌, ◌*◌, ◌<◌, ◌≤◌, ◌≡◌, ◌↔◌, ◌⊎◌, inl, inr, refl, sym, ap, ◌∙◌, Bytes, [],
  ◌∷◌, ◌++◌, length, take, drop, length-take-le, append_assoc, subst, Bool-cases, All, ltb, arith,
}
use kafka_minion.Prelude.Int.{ℤ, pos, negsuc}
use kafka_minion.Prelude.Words.{half16, pattern_of}

-- The buffer is the encoding of the string, or of the null string, which is read as the empty one.
abbrev pub IsEncoding : Bytes → Buffer → Buffer → Type 0
IsEncoding s rest buf =
    (IsShort s × (buf ≡ write_string s ++ rest))
    ⊎ ((s ≡ []) × (buf ≡ write_int16 (negsuc 0) ++ rest))

-- The buffer starts with a length below -1.
abbrev pub IsNegative : Buffer → Type 0
IsNegative buf =
    (k : ℕ) × (suc k < half16) × (more : Buffer) × (buf ≡ write_int16 (negsuc (suc k)) ++ more)

abbrev pub AreBytes : Buffer → Type 0
AreBytes buf = All (λ b. b < 256) buf

null_read : (rest : Buffer) → read_string (write_int16 (negsuc 0) ++ rest) ≡ ok ([], rest)
unfolding read_string string_body
null_read rest = rw (read_int16-write (negsuc 0) rest (omega arith), read_string) refl

negative_panics :
    (k : ℕ) (more : Buffer)
    → suc k < half16
    → read_string (write_int16 (negsuc (suc k)) ++ more) ≡ panic
unfolding read_string string_body
negative_panics k more h = rw (read_int16-write (negsuc (suc k)) more h, read_string) refl

-- A prefix, by its two bytes.
prefix_of : (hi lo : ℕ) → hi < 256 → lo < 256 → be_bytes 2 (hi * 256 + lo) ≡ hi ∷ lo ∷ []
unfolding be_bytes
prefix_of hi lo p q = ground arith

take-drop : (n : ℕ) (xs : Bytes) → take n xs ++ drop n xs ≡ xs
take-drop zero xs = refl
take-drop (suc n) [] = refl
take-drop (suc n) (x ∷ xs) = ap (◌∷◌ x) (take-drop n xs)

module _ (hi lo : ℕ) (rest : Buffer) (p : hi < 256) (q : lo < 256) where
  -- The prefix as the encoding of a number.
  encoded : (z : ℤ) → pattern_of half16 z ≡ hi * 256 + lo → write_int16 z ++ rest ≡ hi ∷ lo ∷ rest
  unfolding write_int
  encoded z e = ap (λ n. be_bytes 2 n ++ rest) e ∙ ap (λ x. x ++ rest) (prefix_of hi lo p q)

  taken-IsEncoding :
      (n : ℕ)
      → n ≡ hi * 256 + lo
      → n < half16
      → n ≤ length rest
      → IsEncoding (take n rest) (drop n rest) (hi ∷ lo ∷ rest)
  unfolding write_string
  taken-IsEncoding n e small enough =
      let size : length (take n rest) ≡ n = length-take-le n rest enough in
      let same : pattern_of half16 (pos (length (take n rest))) ≡ hi * 256 + lo =
        rw size (ground (arith, e, small)) in
      inl (
        omega (arith, size, small),
        sym (encoded (pos (length (take n rest))) same)
            ∙ ap (λ x. write_int16 (pos (length (take n rest))) ++ x) (sym (take-drop n rest))
            ∙ sym (
                append_assoc (write_int16 (pos (length (take n rest)))) (take n rest)
                  (drop n rest)),
      )

  null-IsEncoding : hi * 256 + lo ≡ 65535 → IsEncoding [] rest (hi ∷ lo ∷ rest)
  null-IsEncoding e = inr (refl, sym (encoded (negsuc 0) (omega (arith, e))))

  moved :
      {s s' rest' rest1 : Bytes}
      → ◌≡◌ {A = Read Bytes} (ok (s, rest1)) (ok (s', rest'))
      → IsEncoding s rest1 (hi ∷ lo ∷ rest)
      → IsEncoding s' rest' (hi ∷ lo ∷ rest)
  moved {s} {s'} {rest'} {rest1} e is =
      let left : s ≡ s' = cc (e) in
      let right : rest1 ≡ rest' = cc (e) in
      subst (λ x. IsEncoding x rest' (hi ∷ lo ∷ rest)) left
        (subst (λ y. IsEncoding s y (hi ∷ lo ∷ rest)) right is)

  string-IsEncoding :
      {s rest' : Bytes}
      → string_of (hi * 256 + lo) rest ≡ ok (s, rest')
      → IsEncoding s rest' (hi ∷ lo ∷ rest)
  unfolding string_of
  string-IsEncoding e = elim (Bool-cases (ltb (hi * 256 + lo) half16)) [
    | inl small ↦ elim (Bool-cases (ltb (length rest) (hi * 256 + lo))) [
      | inl short ↦ cc (rw (small, short) at e)
      | inr enough ↦
          moved (rw (small, enough) at e)
            (taken-IsEncoding (hi * 256 + lo) refl (ground (arith, small)) (ground (arith, enough)))
    ]
    | inr large ↦ elim (Bool-cases (ltb (hi * 256 + lo) 65535)) [
      | inl bad ↦ cc (rw (large, bad) at e)
      | inr null ↦ moved (rw (large, null) at e) (null-IsEncoding (ground (arith, null)))
    ]
  ]

  negative : half16 ≤ hi * 256 + lo → hi * 256 + lo < 65535 → IsNegative (hi ∷ lo ∷ rest)
  negative low high =
      let k = 65534 - (hi * 256 + lo) in
      (k, omega arith, rest, sym (encoded (negsuc (suc k)) (ground arith)))

  string-IsNegative : string_of (hi * 256 + lo) rest ≡ panic → IsNegative (hi ∷ lo ∷ rest)
  unfolding string_of
  string-IsNegative e = elim (Bool-cases (ltb (hi * 256 + lo) half16)) [
    | inl small ↦ elim (Bool-cases (ltb (length rest) (hi * 256 + lo))) [
      | inl short ↦ cc (rw (small, short) at e)
      | inr enough ↦ cc (rw (small, enough) at e)
    ]
    | inr large ↦ elim (Bool-cases (ltb (hi * 256 + lo) 65535)) [
      | inl bad ↦ negative (ground (arith, large)) (ground (arith, bad))
      | inr null ↦ cc (rw (large, null) at e)
    ]
  ]

read-IsEncoding :
    (buf rest : Buffer) (s : Bytes)
    → AreBytes buf
    → read_string buf ≡ ok (s, rest)
    → IsEncoding s rest buf
unfolding read_string read_int
read-IsEncoding [] rest s b e = cc
read-IsEncoding (hi ∷ []) rest s b e = cc
read-IsEncoding (hi ∷ lo ∷ more) rest s b e =
    string-IsEncoding hi lo more b.0 b.1.0 (sym (read_string-string_of hi lo more b.0 b.1.0) ∙ e)

read-IsNegative : (buf : Buffer) → AreBytes buf → read_string buf ≡ panic → IsNegative buf
unfolding read_string read_int
read-IsNegative [] b e = cc
read-IsNegative (hi ∷ []) b e = cc
read-IsNegative (hi ∷ lo ∷ more) b e =
    string-IsNegative hi lo more b.0 b.1.0 (sym (read_string-string_of hi lo more b.0 b.1.0) ∙ e)

encoding-read :
    (buf rest : Buffer) (s : Bytes) → IsEncoding s rest buf → read_string buf ≡ ok (s, rest)
encoding-read buf rest s (inl (short, e)) = ap read_string e ∙ read_string-write_string s rest short
encoding-read buf rest s (inr (empty, e)) =
    ap read_string e ∙ null_read rest ∙ ap (λ x. ok (x, rest)) (sym empty)

-- `readString` on any buffer of bytes: it returns a string just when the buffer starts with the
-- encoding of that string, of at most 32767 bytes, or of the null string, for which it returns the
-- empty one, and it leaves what follows; it panics just when the buffer starts with a length below -1,
-- although its comment says that it returns an error if it cannot read a string. So it returns an
-- error on every other buffer.
pub read_string_iff :
    (buf rest : Buffer) (s : Bytes)
    → AreBytes buf
    → ((read_string buf ≡ ok (s, rest)) ↔ IsEncoding s rest buf)
      × ((read_string buf ≡ panic) ↔ IsNegative buf)
read_string_iff buf rest s b = (
  (read-IsEncoding buf rest s b, encoding-read buf rest s),
  (
    read-IsNegative buf b,
    λ h. let (k, small, more, e) = h in ap read_string e ∙ negative_panics k more small,
  ),
)
