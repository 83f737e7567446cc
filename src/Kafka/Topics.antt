-- ===== src/Kafka/Topics.antt =====
-- `isTopicAllowed` of kafka/offset_consumer.go, and its copy in kafka/cluster.go.
use kafka_minion.Options.{Options}
use kafka_minion.Prelude.{
  Bool, true, false, ◌&&◌, ◌||◌, Bytes, [], ◌∷◌, ◌++◌, eqb, if◌then◌else◌, ◌≡◌, ◌↔◌, ◌⊎◌, inl, inr,
  refl, arith,
}

-- `strings.HasPrefix(s, prefix)`
unfoldable pub has_prefix : Bytes → Bytes → Bool
has_prefix s [] = true
has_prefix [] (p ∷ prefix) = false
has_prefix (c ∷ s) (p ∷ prefix) = eqb c p && has_prefix s prefix

abbrev pub dunder : Bytes
dunder = b'_' ∷ b'_' ∷ []

abbrev pub confluent : Bytes
confluent = b'_' ∷ b'c' ∷ b'o' ∷ b'n' ∷ b'f' ∷ b'l' ∷ b'u' ∷ b'e' ∷ b'n' ∷ b't' ∷ []

unfoldable pub is_topic_allowed : Options → Bytes → Bool
unfolding has_prefix
is_topic_allowed opts name =
    if opts.ignore_system_topics
    then (if has_prefix name dunder || has_prefix name confluent then false else true)
    else true

has_prefix_iff :
    (s prefix : Bytes) → (has_prefix s prefix ≡ true) ↔ ((rest : Bytes) × (s ≡ prefix ++ rest))
unfolding has_prefix
has_prefix_iff s [] = ((λ _. (s, refl)), (λ _. refl))
has_prefix_iff [] (p ∷ prefix) = ((λ h. cc), (λ h. cc (h.1)))
has_prefix_iff (c ∷ s) (p ∷ prefix) =
    let ih = has_prefix_iff s prefix in
    (
      (λ h. let (rest, e) = ih.0 (ground arith) in (rest, ground arith)),
      (λ h.
          let same : s ≡ prefix ++ h.0 = cc (h.1) in
          let head : c ≡ p = cc (h.1) in let tail = ih.1 (h.0, same) in ground arith),
    )

-- A topic is left out just when system topics are ignored and its name begins with "__" or with
-- "_confluent".
pub is_topic_allowed_iff :
    (opts : Options) (name : Bytes)
    → (is_topic_allowed opts name ≡ false) ↔ (
        (opts.ignore_system_topics ≡ true)
        × (((rest : Bytes) × (name ≡ dunder ++ rest))
            ⊎ ((rest : Bytes) × (name ≡ confluent ++ rest))))
unfolding is_topic_allowed
is_topic_allowed_iff opts name =
    by_tests opts.ignore_system_topics (has_prefix name dunder) (has_prefix name confluent)
      (has_prefix_iff name dunder) (has_prefix_iff name confluent)
  where
    by_tests :
        {P Q : Type 0} (ignore a b : Bool)
        → (a ≡ true) ↔ P
        → (b ≡ true) ↔ Q
        → ((if ignore then (if a || b then false else true) else true) ≡ false)
          ↔ ((ignore ≡ true) × (P ⊎ Q))
    by_tests false a b p q = ((λ h. cc), (λ h. cc (h.0)))
    by_tests true true b p q = ((λ h. (refl, inl (p.0 refl))), (λ h. refl))
    by_tests true false true p q = ((λ h. (refl, inr (q.0 refl))), (λ h. refl))
    by_tests true false false p q =
        ((λ h. cc), (λ h. elim (h.1) [ inl x ↦ cc (p.1 x) | inr y ↦ cc (q.1 y) ]))
