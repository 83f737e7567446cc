-- ===== src/Collector/Groups/Panics.antt =====
-- When `getVersionedConsumerGroups` returns, and when it panics.
use kafka_minion.Collector.{VersionedConsumerGroup}
use kafka_minion.Collector.Groups.{Groups, keep_latest, scan, get_versioned_consumer_groups}
use kafka_minion.Collector.Groups.Mark.{mark_latest-total}
use kafka_minion.Collector.Groups.Scan.{Scanned}
use kafka_minion.Collector.Version.{parse_version, parse_consumer_group_name}
use kafka_minion.Collector.Version.Split.{parse_version_panics_iff}
use kafka_minion.GoMap.{GoMap, put}
use kafka_minion.Prelude.{
  ◌≡◌, ◌≢◌, ◌⊎◌, refl, true, false, Bytes, bytes_eq, Option, none, some, [], ◌∷◌, inl, inr, All,
  Any,
}
use kafka_minion.Strconv.{all_digits}
use kafka_minion.Storage.{ConsumerPartitionOffsetMetric}
use kafka_minion.Collector.Groups.Covers.{Scanned-empty, scan-Scanned, scan-total}
use kafka_minion.Collector.Groups.Origin.{Scanned-IsKnown}

-- A name that is empty or has a byte that is no digit.
abbrev pub HasOther : Bytes → Type 0
HasOther name = (name ≡ []) ⊎ (all_digits name ≡ false)

named-parses : (name : Bytes) → HasOther name → parse_version name ≢ none
named-parses name (inl empty) = λ e. ((parse_version_panics_iff name).0 e).0 empty
named-parses name (inr other) = λ e. cc (other, ((parse_version_panics_iff name).0 e).1)

all-parse :
    (offsets : GoMap Bytes ConsumerPartitionOffsetMetric)
    → All (λ entry. HasOther (entry.1).group) offsets
    → All (λ entry. parse_version (entry.1).group ≢ none) offsets
all-parse [] h = tt
all-parse ((_, offset) ∷ offsets) h = (named-parses offset.group h.0, all-parse offsets h.1)

pub parsed_groups-total :
    (offsets : GoMap Bytes ConsumerPartitionOffsetMetric)
    → All (λ entry. parse_version (entry.1).group ≢ none) offsets
    → (gs : Groups) × (get_versioned_consumer_groups offsets ≡ some gs)
unfolding get_versioned_consumer_groups
parsed_groups-total offsets h =
    let (by_name, latest, scanned) = scan-total offsets [] [] h in
    let s : Scanned by_name latest = scan-Scanned offsets Scanned-empty scanned in
    let (gs, e) = mark_latest-total latest by_name s.unique (Scanned-IsKnown s) in
    (gs, rw scanned e)

-- If each consumer group's name is empty or has a byte that is no digit, the groups are found without
-- a panic.
pub versioned_groups-total :
    (offsets : GoMap Bytes ConsumerPartitionOffsetMetric)
    → All (λ entry. HasOther (entry.1).group) offsets
    → (gs : Groups) × (get_versioned_consumer_groups offsets ≡ some gs)
versioned_groups-total offsets h = parsed_groups-total offsets (all-parse offsets h)

pub parse_consumer_group_name-none :
    (name : Bytes) → parse_version name ≡ none → parse_consumer_group_name name ≡ none
unfolding parse_consumer_group_name
parse_consumer_group_name-none name e = rw e

scan-panics :
    (offsets : GoMap Bytes ConsumerPartitionOffsetMetric) (by_name latest : Groups)
    → Any (λ entry. parse_version (entry.1).group ≡ none) offsets
    → scan offsets by_name latest ≡ none
unfolding scan
scan-panics [] by_name latest h = absurd h
scan-panics ((key, offset) ∷ offsets) by_name latest (inl here) =
    rw (parse_consumer_group_name-none offset.group here, scan)
scan-panics ((key, offset) ∷ offsets) by_name latest (inr later) =
    by_parse (parse_consumer_group_name offset.group) (λ b l. scan-panics offsets b l later)
  where
    by_parse :
        (o : Option VersionedConsumerGroup)
        → ((b l : Groups) → scan offsets b l ≡ none)
        → elim o [
          | none ↦ none
          | some group ↦ scan offsets (put offset.group group by_name) (keep_latest group latest)
        ]
          ≡ none
    by_parse none h = refl
    by_parse (some g) h = h _ _

-- One consumer group with a name of digits alone, anywhere among the offsets, makes the scrape panic.
pub digit_name_panics :
    (offsets : GoMap Bytes ConsumerPartitionOffsetMetric)
    → Any (λ entry. ((entry.1).group ≢ []) × (all_digits (entry.1).group ≡ true)) offsets
    → get_versioned_consumer_groups offsets ≡ none
unfolding get_versioned_consumer_groups
digit_name_panics offsets h = rw (scan-panics offsets [] [] (each offsets h))
  where
    each :
        (entries : GoMap Bytes ConsumerPartitionOffsetMetric)
        → Any (λ entry. ((entry.1).group ≢ []) × (all_digits (entry.1).group ≡ true)) entries
        → Any (λ entry. parse_version (entry.1).group ≡ none) entries
    each [] h = absurd h
    each ((key, offset) ∷ entries) (inl here) = inl ((parse_version_panics_iff offset.group).1 here)
    each ((key, offset) ∷ entries) (inr later) = inr (each entries later)
