-- ===== src/Collector/Version/Split.antt =====
-- Where a group name is split into its base name and its version.
use kafka_minion.Collector.Version.{end_of_version, parse_version_at, parse_version}
use kafka_minion.Prelude.{
  ℕ, suc, ◌+◌, ◌%◌, ◌^◌, ◌≡◌, ◌≢◌, ◌↔◌, ◌⊎◌, inl, inr, refl, ap, ap₂, ◌∙◌, subst, true, false,
  Bytes, [], ◌∷◌, ◌++◌, none, some, length, take, get_elem?, if◌then◌else◌, ltb, append_assoc,
  append-nil, length-append, arith, Bool-cases,
}
use kafka_minion.Strconv.{is_digit, number, all_digits, parse_uint}

get_elem?-middle : (xs : Bytes) (c : ℕ) (ys : Bytes) → get_elem? (xs ++ c ∷ ys) (length xs) ≡ some c
get_elem?-middle [] c ys = refl
get_elem?-middle (x ∷ xs) c ys = get_elem?-middle xs c ys

take-middle :
    (xs : Bytes) (c : ℕ) (ys : Bytes) → take (suc (length xs)) (xs ++ c ∷ ys) ≡ xs ++ c ∷ []
take-middle [] c ys = refl
take-middle (x ∷ xs) c ys = ap (◌∷◌ x) (take-middle xs c ys)

-- One round on a digit, and on a byte that is none.
parse-digit :
    (pre : Bytes) (d : ℕ) (rest vs : Bytes)
    → is_digit d ≡ true
    → parse_version_at (pre ++ d ∷ rest) vs (suc (length pre))
      ≡ parse_version_at (pre ++ d ∷ rest) (d ∷ vs) (length pre)
unfolding parse_version_at
parse-digit pre d rest vs h = rw (get_elem?-middle pre d rest, parse_version_at) (rw h)

parse-no_digit :
    (pre : Bytes) (c : ℕ) (rest vs : Bytes)
    → is_digit c ≡ false
    → parse_version_at (pre ++ c ∷ rest) vs (suc (length pre))
      ≡ some (end_of_version (pre ++ c ∷ rest) vs (length pre))
unfolding parse_version_at
parse-no_digit pre c rest vs h = rw (get_elem?-middle pre c rest, parse_version_at) (rw h)

length-snoc : (pre : Bytes) (d : ℕ) → length (pre ++ d ∷ []) ≡ suc (length pre)
length-snoc pre d = omega (arith, length-append pre (d ∷ []))

-- The digits behind a place are moved into the version string, one by one.
parse-digits :
    (pre ds rest vs : Bytes)
    → all_digits ds ≡ true
    → parse_version_at (pre ++ (ds ++ rest)) vs (length ds + length pre)
      ≡ parse_version_at (pre ++ (ds ++ rest)) (ds ++ vs) (length pre)
parse-digits pre [] rest vs h = ap (parse_version_at (pre ++ rest) vs) (omega arith)
parse-digits pre (d ∷ ds) rest vs h =
    let both : (is_digit d ≡ true) × (all_digits ds ≡ true) = ground arith in
    let place : suc (length ds) + length pre ≡ length ds + length (pre ++ d ∷ []) =
      omega (arith, length-snoc pre d) in
    let moved = parse-digits (pre ++ d ∷ []) ds rest vs both.1 in
    let same : (pre ++ d ∷ []) ++ (ds ++ rest) ≡ pre ++ d ∷ (ds ++ rest) =
      append_assoc pre (d ∷ []) (ds ++ rest) in
    ap (parse_version_at (pre ++ d ∷ (ds ++ rest)) vs) place
    ∙ subst
        (λ n.
          parse_version_at n vs (length ds + length (pre ++ d ∷ []))
          ≡ parse_version_at n (ds ++ vs) (length (pre ++ d ∷ [])))
        same moved
    ∙ ap (parse_version_at (pre ++ d ∷ (ds ++ rest)) (ds ++ vs)) (length-snoc pre d)
    ∙ parse-digit pre d (ds ++ rest) (ds ++ vs) both.0

-- The whole version string of a name that ends in digits.
parse-end :
    (base : Bytes) (c : ℕ) (ds : Bytes)
    → is_digit c ≡ false
    → all_digits ds ≡ true
    → parse_version_at (base ++ c ∷ ds) [] (length (base ++ c ∷ ds))
      ≡ some (end_of_version (base ++ c ∷ ds) ds (length base))
parse-end base c ds h a =
    let name = base ++ c ∷ ds in
    let place : length name ≡ length ds + length (base ++ c ∷ []) =
      omega (arith, length-append base (c ∷ ds), length-snoc base c) in
    let same : (base ++ c ∷ []) ++ (ds ++ []) ≡ name =
      append_assoc base (c ∷ []) (ds ++ []) ∙ ap (λ (e : Bytes). base ++ c ∷ e) (append-nil ds) in
    let moved = parse-digits (base ++ c ∷ []) ds [] [] a in
    ap (parse_version_at name []) place
    ∙ subst
        (λ n.
          parse_version_at n [] (length ds + length (base ++ c ∷ []))
          ≡ parse_version_at n (ds ++ []) (length (base ++ c ∷ [])))
        same moved
    ∙ ap₂ (parse_version_at name) (append-nil ds) (length-snoc base c)
    ∙ parse-no_digit base c ds ds h

-- What `parseVersion` makes of a name that is a base and digits: without digits the version is 0; a
-- number below 2^64 is taken modulo 2^32, and the base is the name without it; and with a larger
-- number the version is 0 and the base loses its last byte too.
pub version_of : Bytes → ℕ → Bytes → ℕ × Bytes
version_of base c [] = (0, base ++ c ∷ [])
version_of base c (d ∷ ds) =
    if ltb (number 0 (d ∷ ds)) (2 ^ 64)
    then (number 0 (d ∷ ds) % 2 ^ 32, base ++ c ∷ [])
    else (0, base)

take-exact : (xs ys : Bytes) → take (length xs) (xs ++ ys) ≡ xs
take-exact [] ys = refl
take-exact (x ∷ xs) ys = ap (◌∷◌ x) (take-exact xs ys)

end-version_of :
    (base : Bytes) (c : ℕ) (ds : Bytes)
    → all_digits ds ≡ true
    → end_of_version (base ++ c ∷ ds) ds (length base) ≡ version_of base c ds
unfolding end_of_version version_of parse_uint
end-version_of base c [] a = ap (λ (e : Bytes). (0, e)) (take-middle base c [])
end-version_of base c (d ∷ ds) a =
    ground (arith, a, take-middle base c (d ∷ ds), take-exact base (c ∷ d ∷ ds))

-- A group name is a base, a byte that is no digit, and digits behind it. If the digits are a number
-- below 2^64, the version is that number modulo 2^32 and the base name is all that stands before the
-- digits, a trailing dash included. Without digits the version is 0 and the base name is the whole
-- name. From 2^64 on the version is 0 and the base name is without the byte before the digits too.
pub parse_version-version_of :
    (base : Bytes) (c : ℕ) (ds : Bytes)
    → is_digit c ≡ false
    → all_digits ds ≡ true
    → parse_version (base ++ c ∷ ds) ≡ some (version_of base c ds)
unfolding parse_version
parse_version-version_of [] c ds h a = parse-end [] c ds h a ∙ ap some (end-version_of [] c ds a)
parse_version-version_of (x ∷ base) c ds h a =
    parse-end (x ∷ base) c ds h a ∙ ap some (end-version_of (x ∷ base) c ds a)

parse-all_digits : (ds : Bytes) → all_digits ds ≡ true → parse_version_at ds [] (length ds) ≡ none
parse-all_digits ds a =
    let moved = parse-digits [] ds [] [] a in
    let same : ds ++ [] ≡ ds = append-nil ds in
    ap (parse_version_at ds []) (omega arith)
    ∙ subst (λ n. parse_version_at n [] (length ds + 0) ≡ parse_version_at n (ds ++ []) 0) same
        moved
    ∙ unfold parse_version_at in refl

-- Every name is all digits, or has a last byte that is none.
pub splits :
    (name : Bytes)
    → (all_digits name ≡ true)
      ⊎ ((base : Bytes) × (c : ℕ) × (ds : Bytes) × (name ≡ base ++ c ∷ ds)
          × (is_digit c ≡ false)
          × (all_digits ds ≡ true))
splits [] = inl refl
splits (x ∷ xs) = elim (splits xs) [
  | inl digits ↦ elim (Bool-cases (is_digit x)) [
    | inl one ↦ inl (rw (one, digits))
    | inr other ↦ inr ([], x, xs, refl, other, digits)
  ]
  | inr (base, c, ds, e, h, a) ↦ inr (x ∷ base, c, ds, ap (◌∷◌ x) e, h, a)
]

-- `parseVersion` panics just on the group names that are made of digits alone.
pub parse_version_panics_iff :
    (name : Bytes) → (parse_version name ≡ none) ↔ ((name ≢ []) × (all_digits name ≡ true))
parse_version_panics_iff name = (forward, backward name)
  where
    backward : (name : Bytes) → (name ≢ []) × (all_digits name ≡ true) → parse_version name ≡ none
    backward [] h = absurd (h.0 refl)
    backward (c ∷ cs) h = unfold parse_version in parse-all_digits (c ∷ cs) h.1

    not_empty : (n : Bytes) → parse_version n ≡ none → n ≢ []
    not_empty [] e = unfold parse_version in cc
    not_empty (c ∷ cs) e = λ q. cc

    forward : parse_version name ≡ none → (name ≢ []) × (all_digits name ≡ true)
    forward e = elim (splits name) [
      | inl digits ↦ (not_empty name e, digits)
      | inr (base, c, ds, same, h, a) ↦ cc (e, same, parse_version-version_of base c ds h a)
    ]
