-- ===== src/Collector/Groups/Tests.antt =====
-- Two orders of the same offsets, and two groups that tie.
use kafka_minion.Collector.{VersionedConsumerGroup}
use kafka_minion.Collector.Groups.{Groups, get_versioned_consumer_groups}
use kafka_minion.Collector.Groups.Latest.{groups_parsed}
use kafka_minion.Collector.Groups.Order.{Offsets, IsGroup, NoTies, order_independent}
use kafka_minion.Collector.Version.{parse_consumer_group_name}
use kafka_minion.GoMap.{GoMap, get}
use kafka_minion.Prelude.{
  ℕ, ◌≡◌, refl, sym, ap, ◌∙◌, Bool, true, false, Bytes, bytes_eq, some, some-eq, [], ◌∷◌, inl, inr,
  arith,
}
use kafka_minion.Prelude.Int.{pos}
use kafka_minion.Storage.{ConsumerPartitionOffsetMetric}

abbrev name_1 : Bytes
name_1 = b'g' ∷ b'1' ∷ []

abbrev name_2 : Bytes
name_2 = b'g' ∷ b'2' ∷ []

abbrev name_01 : Bytes
name_01 = b'g' ∷ b'0' ∷ b'1' ∷ []

abbrev commit_of : Bytes → ConsumerPartitionOffsetMetric
commit_of group = record {
  group = group;
  topic = b't' ∷ [];
  partition = pos 0;
  offset = pos 5;
  timestamp = pos 0;
  total_commit_count = 1;
}

abbrev two : Bytes → Bytes → Offsets
two a b = (b'x' ∷ [], commit_of a) ∷ (b'y' ∷ [], commit_of b) ∷ []

abbrev group_with : Bytes → ℕ → Bool → VersionedConsumerGroup
group_with name version is_latest = record {
  base_name = b'g' ∷ [];
  name = name;
  version = version;
  is_latest = is_latest;
}

abbrev groups : Groups
groups = (name_1, group_with name_1 1 false) ∷ (name_2, group_with name_2 2 true) ∷ []

groups_found : get_versioned_consumer_groups (two name_1 name_2) ≡ some groups
unfolding get_versioned_consumer_groups kafka_minion.Collector.Groups.scan parse_consumer_group_name
    kafka_minion.Collector.Version.parse_version kafka_minion.Strconv.is_digit
    kafka_minion.Collector.Groups.mark_latest get kafka_minion.GoMap.put
    kafka_minion.Strconv.parse_uint
groups_found = refl

-- "g1" and "g01" have one base name and one version: the first that is visited is the latest.
tie :
    get_versioned_consumer_groups (two name_1 name_01)
    ≡ some ((name_1, group_with name_1 1 true) ∷ (name_01, group_with name_01 1 false) ∷ [])
unfolding get_versioned_consumer_groups kafka_minion.Collector.Groups.scan parse_consumer_group_name
    kafka_minion.Collector.Version.parse_version kafka_minion.Strconv.is_digit
    kafka_minion.Collector.Groups.mark_latest get kafka_minion.GoMap.put
    kafka_minion.Strconv.parse_uint
tie = refl

tie_swapped :
    get_versioned_consumer_groups (two name_01 name_1)
    ≡ some ((name_01, group_with name_01 1 true) ∷ (name_1, group_with name_1 1 false) ∷ [])
unfolding get_versioned_consumer_groups kafka_minion.Collector.Groups.scan parse_consumer_group_name
    kafka_minion.Collector.Version.parse_version kafka_minion.Strconv.is_digit
    kafka_minion.Collector.Groups.mark_latest get kafka_minion.GoMap.put
    kafka_minion.Strconv.parse_uint
tie_swapped = refl

parsed_1 : parse_consumer_group_name name_1 ≡ some (group_with name_1 1 false)
unfolding get
parsed_1 = groups_parsed (two name_1 name_2) groups_found name_1 (group_with name_1 1 false) refl

parsed_2 : parse_consumer_group_name name_2 ≡ some (group_with name_2 2 false)
unfolding get
parsed_2 = groups_parsed (two name_1 name_2) groups_found name_2 (group_with name_2 2 true) refl

apart :
    (a b : Bytes) (g h : VersionedConsumerGroup)
    → name_1 ≡ a
    → name_2 ≡ b
    → parse_consumer_group_name a ≡ some g
    → parse_consumer_group_name b ≡ some h
    → g.version ≡ h.version
    → ⊥
apart a b g h x y p q version =
    let one : 1 ≡ g.version =
      ap (λ (v : VersionedConsumerGroup). v.version)
        (some-eq (sym parsed_1 ∙ ap parse_consumer_group_name x ∙ p)) in
    let two : 2 ≡ h.version =
      ap (λ (v : VersionedConsumerGroup). v.version)
        (some-eq (sym parsed_2 ∙ ap parse_consumer_group_name y ∙ q)) in
    omega arith

untied : NoTies (two name_1 name_2)
untied a b g h (inl x) (inl y) p q base version = sym x ∙ y
untied a b g h (inr (inl x)) (inr (inl y)) p q base version = sym x ∙ y
untied a b g h (inl x) (inr (inl y)) p q base version = absurd (apart a b g h x y p q version)
untied a b g h (inr (inl x)) (inl y) p q base version = absurd (apart b a h g y x q p (sym version))
untied a b g h (inl x) (inr (inr never)) p q base version = elim never [ ]
untied a b g h (inr (inl x)) (inr (inr never)) p q base version = elim never [ ]
untied a b g h (inr (inr never)) y p q base version = elim never [ ]

swap : (a b k : Bytes) → IsGroup k (two a b) → IsGroup k (two b a)
swap a b k (inl x) = inr (inl x)
swap a b k (inr (inl x)) = inl x
swap a b k (inr (inr never)) = elim never [ ]

order_independent_example :
    (hs : Groups) × (get_versioned_consumer_groups (two name_2 name_1) ≡ some hs)
    × ((k : Bytes) → get k groups ≡ get k hs)
order_independent_example =
    order_independent (two name_1 name_2) (two name_2 name_1)
      (λ k. (swap name_1 name_2 k, swap name_2 name_1 k)) untied groups_found
