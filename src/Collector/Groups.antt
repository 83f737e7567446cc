-- ===== src/Collector/Groups.antt =====
-- `getVersionedConsumerGroups` of collector/collector.go. A group's entry is reached by its name
-- wherever it is written, so the pointers of the source are values here; `none` is a panic.
pub mod Scan
pub mod Covers
pub mod Mark
pub mod Origin
pub mod Latest
pub mod Panics
pub mod Order
mod Tests
use kafka_minion.Collector.{VersionedConsumerGroup}
use kafka_minion.Collector.Version.{parse_consumer_group_name}
use kafka_minion.GoMap.{GoMap, get, put}
use kafka_minion.Prelude.{true, Bytes, bytes_eq, Option, none, some, [], ◌∷◌, ltb, if◌then◌else◌}
use kafka_minion.Storage.{ConsumerPartitionOffsetMetric}

abbrev pub Groups : Type 0
Groups = GoMap Bytes VersionedConsumerGroup

-- The entry of a base name is overwritten only by a higher version.
unfoldable pub keep_latest : VersionedConsumerGroup → Groups → Groups
keep_latest group latest = elim (get group.base_name latest) [
  | none ↦ put group.base_name group latest
  | some known ↦
      if ltb known.version group.version then put group.base_name group latest else latest
]

-- The loop over the offsets, on `groupsByName` and `latestGroupByBaseName`.
unfoldable pub scan :
    GoMap Bytes ConsumerPartitionOffsetMetric → Groups → Groups → Option (Groups × Groups)
unfolding keep_latest
scan [] by_name latest = some (by_name, latest)
scan ((_, offset) ∷ offsets) by_name latest = elim (parse_consumer_group_name offset.group) [
  | none ↦ none
  | some group ↦ scan offsets (put offset.group group by_name) (keep_latest group latest)
]

-- The loop over `latestGroupByBaseName`; a group that is missing is a nil pointer.
unfoldable pub mark_latest : Groups → Groups → Option Groups
mark_latest [] by_name = some by_name
mark_latest ((_, group) ∷ latest) by_name = elim (get group.name by_name) [
  | none ↦ none
  | some entry ↦ mark_latest latest (put group.name (record entry { is_latest = true }) by_name)
]

mark_scanned : Option (Groups × Groups) → Option Groups
mark_scanned none = none
mark_scanned (some (by_name, latest)) = mark_latest latest by_name

unfoldable pub get_versioned_consumer_groups :
    GoMap Bytes ConsumerPartitionOffsetMetric → Option Groups
unfolding mark_scanned
get_versioned_consumer_groups offsets = mark_scanned (scan offsets [] [])
