-- ===== src/Collector/Groups/Origin.antt =====
-- Each entry that `getVersionedConsumerGroups` returns, traced to the scan that it comes from.
use kafka_minion.Collector.{VersionedConsumerGroup}
use kafka_minion.Collector.Groups.{
  Groups, scan, mark_latest, mark_scanned, get_versioned_consumer_groups,
}
use kafka_minion.Collector.Groups.Mark.{IsKnown, is_named, marked, map_marked, get-mark_latest}
use kafka_minion.Collector.Groups.Scan.{Scanned, name-parse}
use kafka_minion.Collector.Version.{parse_consumer_group_name}
use kafka_minion.GoMap.{GoMap, get}
use kafka_minion.Prelude.{
  some-eq, ◌≡◌, refl, sym, ap, ◌∙◌, Bool, true, false, ◌||◌, Bytes, bytes_eq, Option, none, some,
  [], ◌==◌, ==_iff, All, arith,
}
use kafka_minion.Storage.{ConsumerPartitionOffsetMetric}
use kafka_minion.Collector.Groups.Covers.{Scanned-empty, IsFiled, scan-Scanned, scan-covers}

-- How a result came about: the two maps of the scan, and each entry as the marking left it.
pub record Origin (offsets : GoMap Bytes ConsumerPartitionOffsetMetric) (gs : Groups) : Type 0 where
  pub by_name : Groups
  pub latest : Groups
  pub ran : scan offsets [] [] ≡ some (by_name, latest)
  pub scanned : Scanned by_name latest
  pub covers : All (λ entry. IsFiled (entry.1).group by_name) offsets
  pub marks : (k : Bytes) → get k gs ≡ map_marked k latest (get k by_name)

pub Scanned-IsKnown : {by_name latest : Groups} → Scanned by_name latest → IsKnown latest by_name
Scanned-IsKnown s b w e = let (base, got) = s.known b w e in (w, got, sym base)

origin_of :
    (offsets : GoMap Bytes ConsumerPartitionOffsetMetric) (by_name latest : Groups) {gs : Groups}
    → scan offsets [] [] ≡ some (by_name, latest)
    → mark_latest latest by_name ≡ some gs
    → Origin offsets gs
origin_of offsets by_name latest scanned e =
    let s : Scanned by_name latest = scan-Scanned offsets Scanned-empty scanned in
    record {
      by_name = by_name;
      latest = latest;
      ran = scanned;
      scanned = s;
      covers = scan-covers offsets [] [] scanned;
      marks = λ k. get-mark_latest latest by_name k s.unique (Scanned-IsKnown s) e;
    }

origin :
    (offsets : GoMap Bytes ConsumerPartitionOffsetMetric) {gs : Groups}
    → get_versioned_consumer_groups offsets ≡ some gs
    → Origin offsets gs
unfolding get_versioned_consumer_groups
origin offsets {gs} e = by_scan (scan offsets [] []) refl e
  where
    by_scan :
        (o : Option (Groups × Groups))
        → scan offsets [] [] ≡ o
        → mark_scanned o ≡ some gs
        → Origin offsets gs
    by_scan none h e = cc
    by_scan (some (by_name, latest)) h e = origin_of offsets by_name latest h e

unmarked :
    (k : Bytes) (latest : Groups) (o : Option VersionedConsumerGroup) {v : VersionedConsumerGroup}
    → map_marked k latest o ≡ some v
    → (g : VersionedConsumerGroup) × (o ≡ some g) × (marked k latest g ≡ v)
unmarked k latest none e = cc
unmarked k latest (some g) e = (g, refl, some-eq e)

-- An entry of the result beside the entry of the scan that it comes from.
pub record Entry (by_name latest : Groups) (k : Bytes) (v : VersionedConsumerGroup) : Type 0 where
  pub from : VersionedConsumerGroup
  pub filed : get k by_name ≡ some from
  pub same : marked k latest from ≡ v
  pub named : parse_consumer_group_name k ≡ some from

pub unmark :
    (k : Bytes) (latest : Groups) (g : VersionedConsumerGroup) {v : VersionedConsumerGroup}
    → g.is_latest ≡ false
    → marked k latest g ≡ v
    → g ≡ record v { is_latest = false }
unmark k latest g plain same =
    ap {A = Bool} {B = VersionedConsumerGroup} (λ c. record g { is_latest = c }) plain
    ∙ ap {A = VersionedConsumerGroup} {B = VersionedConsumerGroup}
        (λ x. record x { is_latest = false }) same

module _ {by_name latest : Groups} (s : Scanned by_name latest) {k : Bytes}
    {v : VersionedConsumerGroup} (n : Entry by_name latest k v) where
  pub base_same : n.from.base_name ≡ v.base_name
  base_same = ap (λ g. g.base_name) n.same

  pub version_same : n.from.version ≡ v.version
  version_same = ap (λ g. g.version) n.same

  -- A group that is marked is the one that is kept for its base name.
  pub kept : v.is_latest ≡ true → get n.from.base_name latest ≡ some n.from
  kept lat = by_kept (get n.from.base_name latest) refl (
      unmarked_before n.from.is_latest _ (name-parse k n.from n.named).1
        (ap (λ g. g.is_latest) n.same ∙ lat))
    where
      unmarked_before : (a b : Bool) → a ≡ false → (a || b) ≡ true → b ≡ true
      unmarked_before a b h t = ground arith

      by_kept :
          (o : Option VersionedConsumerGroup)
          → get n.from.base_name latest ≡ o
          → is_named k (get n.from.base_name latest) ≡ true
          → get n.from.base_name latest ≡ some n.from
      by_kept none h t = cc (rw h at t)
      by_kept (some w) h t =
          let its_name : (w.name == k) ≡ true = rw h at t in
          let there = (s.known n.from.base_name w h).1 in
          let at_k : get k by_name ≡ some w =
            ap (λ x. get x by_name) (sym ((==_iff w.name k).0 its_name)) ∙ there in
          h ∙ sym at_k ∙ n.filed

module _ (offsets : GoMap Bytes ConsumerPartitionOffsetMetric) {gs : Groups}
    (e : get_versioned_consumer_groups offsets ≡ some gs) where
  pub scan_of : Origin offsets gs
  scan_of = origin offsets e

  pub entry_of :
      (k : Bytes) (v : VersionedConsumerGroup)
      → get k gs ≡ some v
      → Entry scan_of.by_name scan_of.latest k v
  entry_of k v got =
      let (g, filed, same) =
        unmarked k scan_of.latest (get k scan_of.by_name) (sym (scan_of.marks k) ∙ got) in
      record { from = g; filed = filed; same = same; named = scan_of.scanned.parsed k g filed }
