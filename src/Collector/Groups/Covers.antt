-- ===== src/Collector/Groups/Covers.antt =====
-- The scan as a whole: what it keeps, and that it covers every offset.
use kafka_minion.Collector.{VersionedConsumerGroup}
use kafka_minion.Collector.Groups.{Groups, keep_latest, scan}
use kafka_minion.Collector.Version.{parse_version, parse_consumer_group_name}
use kafka_minion.GoMap.{GoMap, get, put}
use kafka_minion.GoMap.Laws.{get-put, get-put_self, empty-AllEntries}
use kafka_minion.Prelude.{
  some-eq, ◌≡◌, refl, Bytes, bytes_eq, none, some, [], ◌∷◌, ◌==◌, ◌≢◌, All, Option-cases,
  Bool-cases, inl, inr, subst, arith,
}
use kafka_minion.Storage.{ConsumerPartitionOffsetMetric}
use kafka_minion.Collector.Groups.Scan.{Scanned, put-Scanned}

pub Scanned-empty : Scanned [] []
Scanned-empty = record {
  parsed = empty-AllEntries _;
  unique = tt;
  known = empty-AllEntries _;
  covered = empty-AllEntries _;
}

abbrev pub IsFiled : Bytes → Groups → Type 0
IsFiled k g = (v : VersionedConsumerGroup) × (get k g ≡ some v)

put-IsFiled :
    (j k : Bytes) (v : VersionedConsumerGroup) (g : Groups) → IsFiled k g → IsFiled k (put j v g)
put-IsFiled j k v g (w, e) = elim (Bool-cases (j == k)) [
  | inl same ↦ (v, rw (get-put j k v g, same))
  | inr other ↦ (w, rw (get-put j k v g, other) e)
]

parse-none : (name : Bytes) → parse_consumer_group_name name ≡ none → parse_version name ≡ none
unfolding parse_consumer_group_name
parse-none name e = ground arith

pub scan-Scanned :
    (offsets : GoMap Bytes ConsumerPartitionOffsetMetric) {by_name latest g l : Groups}
    → Scanned by_name latest
    → scan offsets by_name latest ≡ some (g, l)
    → Scanned g l
unfolding scan
scan-Scanned [] s e = subst (λ r. Scanned r.0 r.1) (some-eq e) s
scan-Scanned ((key, offset) ∷ offsets) {by_name} {latest} s e =
    elim (Option-cases (parse_consumer_group_name offset.group)) [
      | inl fault ↦ cc (rw (fault, scan) at e)
      | inr (group, p) ↦
          scan-Scanned offsets (put-Scanned offset.group group by_name latest p s)
            (rw (p, scan) at e)
    ]

-- A name that is filed stays filed, and every offset's group is.
scan-keeps :
    (offsets : GoMap Bytes ConsumerPartitionOffsetMetric) (k : Bytes) (by_name latest : Groups)
    {g l : Groups}
    → IsFiled k by_name
    → scan offsets by_name latest ≡ some (g, l)
    → IsFiled k g
unfolding scan
scan-keeps [] k by_name latest f e = subst (λ r. IsFiled k r.0) (some-eq e) f
scan-keeps ((key, offset) ∷ offsets) k by_name latest f e =
    elim (Option-cases (parse_consumer_group_name offset.group)) [
      | inl fault ↦ cc (rw (fault, scan) at e)
      | inr (group, p) ↦
          scan-keeps offsets k (put offset.group group by_name) (keep_latest group latest)
            (put-IsFiled offset.group k group by_name f) (rw (p, scan) at e)
    ]

pub scan-covers :
    (offsets : GoMap Bytes ConsumerPartitionOffsetMetric) (by_name latest : Groups) {g l : Groups}
    → scan offsets by_name latest ≡ some (g, l)
    → All (λ entry. IsFiled (entry.1).group g) offsets
unfolding scan
scan-covers [] by_name latest e = tt
scan-covers ((key, offset) ∷ offsets) by_name latest e =
    elim (Option-cases (parse_consumer_group_name offset.group)) [
      | inl fault ↦ cc (rw (fault, scan) at e)
      | inr (group, p) ↦ (
        scan-keeps offsets offset.group (put offset.group group by_name) (keep_latest group latest)
            (group, get-put_self offset.group group by_name) (rw (p, scan) at e),
        scan-covers offsets (put offset.group group by_name) (keep_latest group latest)
            (rw (p, scan) at e),
      )
    ]

-- The scan succeeds if no group name makes the parser panic.
pub scan-total :
    (offsets : GoMap Bytes ConsumerPartitionOffsetMetric) (by_name latest : Groups)
    → All (λ entry. parse_version (entry.1).group ≢ none) offsets
    → (g : Groups) × (l : Groups) × (scan offsets by_name latest ≡ some (g, l))
unfolding scan
scan-total [] by_name latest h = (by_name, latest, refl)
scan-total ((key, offset) ∷ offsets) by_name latest h =
    elim (Option-cases (parse_consumer_group_name offset.group)) [
      | inl fault ↦ absurd (h.0 (parse-none offset.group fault))
      | inr (group, p) ↦
          let (g, l, e) =
            scan-total offsets (put offset.group group by_name) (keep_latest group latest) h.1 in
          (g, l, rw (p, scan) e)
    ]
