-- ===== src/Storage/OffsetKey.antt =====
-- The key under which memory.go files a commit, and when it tells two partitions apart.
use kafka_minion.Prelude.{ℕ, ◌≡◌, ◌≢◌, refl, sym, subst, Bytes, [], ◌∷◌, ◌++◌, All, append_assoc}
use kafka_minion.Prelude.Int.{ℤ}
use kafka_minion.Storage.{offset_key}
use kafka_minion.Strconv.Laws.{show_int-injective, show_int-no_colon}

abbrev pub NoColon : Bytes → Type 0
NoColon = All (λ c. c ≢ b':')

colon-absent : (xs ys : Bytes) → ¬ NoColon (xs ++ (b':' ∷ ys))
colon-absent [] ys h = h.0 refl
colon-absent (x ∷ xs) ys h = colon-absent xs ys h.1

head-eq : {x y : ℕ} {xs ys : Bytes} → ◌≡◌ {A = Bytes} (x ∷ xs) (y ∷ ys) → x ≡ y
head-eq e = cc

tail-eq : {x y : ℕ} {xs ys : Bytes} → ◌≡◌ {A = Bytes} (x ∷ xs) (y ∷ ys) → xs ≡ ys
tail-eq e = cc

-- Two texts that are equal and have no colon behind the one that is shown split at the same place.
split_at_last_colon :
    (a b c d : Bytes)
    → NoColon c
    → NoColon d
    → a ++ (b':' ∷ c) ≡ b ++ (b':' ∷ d)
    → (a ≡ b) × (c ≡ d)
split_at_last_colon [] [] c d nc nd e = (refl, tail-eq e)
split_at_last_colon [] (y ∷ b) c d nc nd e =
    absurd (colon-absent b d (subst NoColon (tail-eq e) nc))
split_at_last_colon (x ∷ a) [] c d nc nd e =
    absurd (colon-absent a c (subst NoColon (sym (tail-eq e)) nd))
split_at_last_colon (x ∷ a) (y ∷ b) c d nc nd e =
    let (same, rest) = split_at_last_colon a b c d nc nd (tail-eq e) in (cc (head-eq e, same), rest)

-- Kafka allows no colon in a topic name. Then the key determines the group, the topic and the
-- partition, whatever the bytes of the group name.
pub offset_key-injective :
    (g h t u : Bytes) (p q : ℤ)
    → NoColon t
    → NoColon u
    → offset_key g t p ≡ offset_key h u q
    → (g ≡ h) × (t ≡ u) × (p ≡ q)
unfolding offset_key
offset_key-injective g h t u p q nt nu e =
    let (front, number) =
      split_at_last_colon (g ++ (b':' ∷ t)) (h ++ (b':' ∷ u)) _ _ (show_int-no_colon p)
        (show_int-no_colon q) (rw (append_assoc, append_assoc) e) in
    let (group, topic) = split_at_last_colon g h t u nt nu front in
    (group, topic, show_int-injective p q number)

-- With a colon in a topic name two partitions of different groups share one key.
pub offset_key_collision :
    (g t u : Bytes) (p : ℤ) → offset_key (g ++ (b':' ∷ t)) u p ≡ offset_key g (t ++ (b':' ∷ u)) p
unfolding offset_key
offset_key_collision g t u p = simp append_assoc
