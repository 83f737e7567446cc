-- ===== src/Collector.antt =====
-- The package collector: what the exporter says of the storage on a scrape. The variables for the
-- descriptions are the constructors of `Desc`, and Descriptions says what NewCollector sets them to;
-- the metric type that each call passes beside its description is fixed by it and left out.
pub mod Version
pub mod Groups
pub mod Lag
pub mod Offsets
pub mod Scrape
pub mod Descriptions
mod Tests
use kafka_minion.Prelude.{Bool, Bytes, ℕ, List}
use kafka_minion.Prelude.Int.{ℤ}

pub record VersionedConsumerGroup : Type 0 where
  pub base_name : Bytes
  pub name : Bytes
  pub version : ℕ
  pub is_latest : Bool

pub data Desc : Type 0 where
  group_partition_offset group_partition_commit_count group_partition_last_commit : Desc
  group_partition_lag group_topic_lag : Desc
  partition_count : Desc
  partition_high_water_mark partition_low_water_mark partition_message_count : Desc

-- A metric sent to the registry: the float64 value is an integer (see Float64).
pub record Metric : Type 0 where
  pub desc : Desc
  pub value : ℤ
  pub labels : List Bytes
