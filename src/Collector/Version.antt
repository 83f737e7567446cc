-- ===== src/Collector/Version.antt =====
-- `parseVersion` and `parseConsumerGroupName` of collector/collector.go. `none` is the panic of a
-- slice expression out of range.
pub mod Split
use kafka_minion.Collector.{VersionedConsumerGroup}
use kafka_minion.Prelude.{
  ℕ, zero, suc, ◌%◌, ◌^◌, false, Bytes, [], ◌∷◌, Option, none, some, length, take, get_elem?,
  if◌then◌else◌,
}
use kafka_minion.Strconv.{is_digit, parse_uint}

-- At a byte that is no digit, at index i: what stands behind it is the version string.
unfoldable pub end_of_version : Bytes → Bytes → ℕ → ℕ × Bytes
end_of_version name [] i = (0, take (suc i) name)
end_of_version name (d ∷ ds) i = elim (parse_uint (d ∷ ds)) [
  | none ↦ (0, take i name)
  | some version ↦ (version % 2 ^ 32, take (suc i) name)
]

-- The number is `digitIndexCursor + 1`: how many bytes are not yet read. At 0 the cursor is -1, and
-- the slice `groupName[-1:0]` is out of range.
unfoldable pub parse_version_at : Bytes → Bytes → ℕ → Option (ℕ × Bytes)
unfolding end_of_version
parse_version_at name version_string zero = none
parse_version_at name version_string (suc i) = elim (get_elem? name i) [
  | none ↦ none
  | some c ↦
      let further = parse_version_at name (c ∷ version_string) i in
      if is_digit c then further else some (end_of_version name version_string i)
]

unfoldable pub parse_version : Bytes → Option (ℕ × Bytes)
unfolding parse_version_at
parse_version [] = some (0, [])
parse_version (c ∷ cs) = parse_version_at (c ∷ cs) [] (length (c ∷ cs))

abbrev versioned : Bytes → Option (ℕ × Bytes) → Option VersionedConsumerGroup
versioned name none = none
versioned name (some (version, base)) =
    some (record { base_name = base; name = name; version = version; is_latest = false })

unfoldable pub parse_consumer_group_name : Bytes → Option VersionedConsumerGroup
parse_consumer_group_name name = versioned name (parse_version name)
