-- ===== src/Strconv/Laws.antt =====
-- Decimal text determines its number, and has digits and a sign only.
use kafka_minion.Strconv.{digits_of, show_nat, show_int, number}
use kafka_minion.Prelude.{
  ℕ, zero, suc, ◌+◌, ◌-◌, ◌*◌, ◌/◌, ◌%◌, ◌<◌, ◌≤◌, ◌≡◌, ◌≢◌, refl, sym, ap, ◌∙◌, Bytes, [], ◌∷◌,
  ◌++◌, ltb, Bool-cases, inl, inr, All, arith, subst, drop,
}
use kafka_minion.Prelude.Int.{ℤ, pos, negsuc}

number-snoc :
    (acc : ℕ) (cs : Bytes) (c : ℕ) → number acc (cs ++ c ∷ []) ≡ number acc cs * 10 + (c - 48)
number-snoc acc [] c = refl
number-snoc acc (d ∷ cs) c = number-snoc (acc * 10 + (d - 48)) cs c

number-digits_of : (fuel n : ℕ) → n < fuel → number 0 (digits_of fuel n) ≡ n
unfolding digits_of
number-digits_of zero n h = elim h [ ]
number-digits_of (suc fuel) n h = elim (Bool-cases (ltb n 10)) [
  | inl one ↦ rw one (omega arith)
  | inr more ↦
      rw more (rw (number-snoc, number-digits_of fuel (n / 10) (ground arith)) (omega arith))
]

-- The digits of a number have the number for their value.
pub number-show_nat : (n : ℕ) → number 0 (show_nat n) ≡ n
unfolding show_nat
number-show_nat n = number-digits_of (suc n) n (omega arith)

abbrev pub IsDigit : ℕ → Type 0
IsDigit c = (48 ≤ c) × (c ≤ 57)

All-snoc : (cs : Bytes) (c : ℕ) → All IsDigit cs → IsDigit c → All IsDigit (cs ++ c ∷ [])
All-snoc [] c a d = (d, tt)
All-snoc (x ∷ cs) c a d = (a.0, All-snoc cs c a.1 d)

digits_of-IsDigit : (fuel n : ℕ) → All IsDigit (digits_of fuel n)
unfolding digits_of
digits_of-IsDigit zero n = tt
digits_of-IsDigit (suc fuel) n = elim (Bool-cases (ltb n 10)) [
  | inl one ↦ rw one ((ground arith), tt)
  | inr more ↦ rw more (
      All-snoc (digits_of fuel (n / 10)) (48 + n % 10) (digits_of-IsDigit fuel (n / 10))
        (omega arith))
]

pub show_nat-IsDigit : (n : ℕ) → All IsDigit (show_nat n)
unfolding show_nat
show_nat-IsDigit n = digits_of-IsDigit (suc n) n

no_colon : (cs : Bytes) → All IsDigit cs → All (λ c. c ≢ b':') cs
no_colon [] a = tt
no_colon (c ∷ cs) a = (omega (arith, a.0), no_colon cs a.1)

show_nat-ne-minus : (n : ℕ) (cs : Bytes) → show_nat n ≢ b'-' ∷ cs
show_nat-ne-minus n cs e = absurd (omega (arith, (subst (All IsDigit) e (show_nat-IsDigit n)).0))

show_nat-injective : (m n : ℕ) → show_nat m ≡ show_nat n → m ≡ n
show_nat-injective m n e = sym (number-show_nat m) ∙ ap (number 0) e ∙ number-show_nat n

-- Two integers with the same decimal text are equal.
pub show_int-injective : (a b : ℤ) → show_int a ≡ show_int b → a ≡ b
unfolding show_int
show_int-injective (pos m) (pos n) e = ap pos (show_nat-injective m n e)
show_int-injective (pos m) (negsuc n) e = absurd (show_nat-ne-minus m _ e)
show_int-injective (negsuc m) (pos n) e = absurd (show_nat-ne-minus n _ (sym e))
show_int-injective (negsuc m) (negsuc n) e = cc (show_nat-injective (suc m) (suc n) (ap (drop 1) e))

-- Decimal text has no byte below the minus sign or above the digit 9, so no colon.
pub show_int-no_colon : (z : ℤ) → All (λ c. c ≢ b':') (show_int z)
unfolding show_int
show_int-no_colon (pos n) = no_colon (show_nat n) (show_nat-IsDigit n)
show_int-no_colon (negsuc n) = (omega arith, no_colon (show_nat (suc n)) (show_nat-IsDigit (suc n)))
