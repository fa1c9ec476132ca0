-- ===== src/Agent/Ages.antt =====
-- crates/spark-agent/src/main.rs: how old the readings of each collector are.
mod Tracker
pub mod Since
unfoldable pub use Tracker.*
