-- ===== src/Collector/Groups/Latest.antt =====
-- What `getVersionedConsumerGroups` says of the groups of the offsets, for every order in which it may
-- visit them.
use kafka_minion.Collector.{VersionedConsumerGroup}
use kafka_minion.Collector.Groups.{Groups, get_versioned_consumer_groups}
use kafka_minion.Collector.Groups.Mark.{is_named, marked, map_marked}
use kafka_minion.Collector.Groups.Scan.{name-parse}
use kafka_minion.Collector.Version.{parse_consumer_group_name}
use kafka_minion.GoMap.{GoMap, get}
use kafka_minion.Prelude.{
  some-eq, ◌≤◌, ◌≡◌, sym, ap, ◌∙◌, Bool, true, false, ◌||◌, Bytes, bytes_eq, some, [], ◌∷◌, ==_refl,
  All, arith,
}
use kafka_minion.Storage.{ConsumerPartitionOffsetMetric}
use kafka_minion.Collector.Groups.Covers.{IsFiled}
use kafka_minion.Collector.Groups.Origin.{unmark, base_same, version_same, kept, scan_of, entry_of}

module _ (offsets : GoMap Bytes ConsumerPartitionOffsetMetric) {gs : Groups}
    (e : get_versioned_consumer_groups offsets ≡ some gs) where
  covered_marks :
      (entries : GoMap Bytes ConsumerPartitionOffsetMetric)
      → All (λ entry. IsFiled (entry.1).group (scan_of offsets e).by_name) entries
      → All (λ entry. IsFiled (entry.1).group gs) entries
  covered_marks [] h = tt
  covered_marks ((key, offset) ∷ entries) h = (
    (
      marked offset.group (scan_of offsets e).latest (h.0.0),
      (scan_of offsets e).marks offset.group
          ∙ ap (map_marked offset.group (scan_of offsets e).latest) (h.0.1),
    ),
    covered_marks entries h.1,
  )

  -- Every consumer group of the offsets has an entry under its name.
  pub groups_covered : All (λ entry. IsFiled (entry.1).group gs) offsets
  groups_covered = covered_marks offsets (scan_of offsets e).covers

  -- An entry has the base name and the version of the name under which it stands.
  pub groups_parsed :
      (k : Bytes) (v : VersionedConsumerGroup)
      → get k gs ≡ some v
      → parse_consumer_group_name k ≡ some (record v { is_latest = false })
  groups_parsed k v got =
      let n = entry_of offsets e k v got in
      n.named
      ∙ ap some (unmark k (scan_of offsets e).latest n.from (name-parse k n.from n.named).1 n.same)

  -- A group that is marked latest has the highest version of all groups with its base name.
  pub latest_is_highest :
      (k j : Bytes) (v w : VersionedConsumerGroup)
      → get k gs ≡ some v
      → get j gs ≡ some w
      → v.is_latest ≡ true
      → w.base_name ≡ v.base_name
      → w.version ≤ v.version
  latest_is_highest k j v w gv gw lat base =
      let n = entry_of offsets e k v gv in
      let m = entry_of offsets e j w gw in
      let s = (scan_of offsets e).scanned in
      let (top, got, le) = s.covered j m.from m.filed in
      let same_base : m.from.base_name ≡ n.from.base_name =
        base_same s m ∙ base ∙ sym (base_same s n) in
      let top_is_n : top ≡ n.from =
        some-eq (sym got ∙ ap (λ b. get b (scan_of offsets e).latest) same_base ∙ kept s n lat) in
      omega (arith, le, ap (λ g. g.version) top_is_n, version_same s n, version_same s m)

  -- Each group has one of its base name that is marked latest.
  pub latest_exists :
      (k : Bytes) (v : VersionedConsumerGroup)
      → get k gs ≡ some v
      → (j : Bytes) × (w : VersionedConsumerGroup) × (get j gs ≡ some w)
        × (w.base_name ≡ v.base_name)
        × (w.is_latest ≡ true)
  latest_exists k v got =
      let n = entry_of offsets e k v got in
      let s = (scan_of offsets e).scanned in
      let (top, kept_top, le) = s.covered k n.from n.filed in
      let (base, there) = s.known n.from.base_name top kept_top in
      (
        top.name,
        marked top.name (scan_of offsets e).latest top,
        (scan_of offsets e).marks top.name
            ∙ ap (map_marked top.name (scan_of offsets e).latest) there,
        sym base ∙ base_same s n,
        is_marked top.is_latest _ (
            ap (is_named top.name)
              (ap (λ b. get b (scan_of offsets e).latest) (sym base) ∙ kept_top)
            ∙ ==_refl top.name),
      )
    where
      is_marked : (a b : Bool) → b ≡ true → (a || b) ≡ true
      is_marked a b h = ground arith

  -- Any two groups of one base name that are marked latest are the same group.
  pub latest_unique :
      (k j : Bytes) (v w : VersionedConsumerGroup)
      → get k gs ≡ some v
      → get j gs ≡ some w
      → v.is_latest ≡ true
      → w.is_latest ≡ true
      → w.base_name ≡ v.base_name
      → k ≡ j
  latest_unique k j v w gv gw lv lw base =
      let n = entry_of offsets e k v gv in
      let m = entry_of offsets e j w gw in
      let s = (scan_of offsets e).scanned in
      let same_base : m.from.base_name ≡ n.from.base_name =
        base_same s m ∙ base ∙ sym (base_same s n) in
      let same_group : m.from ≡ n.from =
        some-eq (
          sym (kept s m lw) ∙ ap (λ b. get b (scan_of offsets e).latest) same_base ∙ kept s n lv) in
      sym (name-parse k n.from n.named).0
      ∙ ap (λ g. g.name) (sym same_group)
      ∙ (name-parse j m.from m.named).0
