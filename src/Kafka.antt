-- ===== src/Kafka.antt =====
-- The package kafka.
pub mod Wire
pub mod Offset
pub mod Metadata
pub mod Request
pub mod Topics
pub mod Cluster
pub mod Connection
pub mod Start
pub mod Consumer
mod Tests
