-- ===== src/Linux.antt =====
-- crates/spark-linux: the metrics and the inventory of a Linux node.
mod Snapshot
mod Points
pub mod Parse
mod State
pub mod Cpu
pub mod Vmstat
pub mod Network
pub mod Block
pub mod Memory
pub mod Filesystem
pub mod Temperature
pub mod Collector
pub mod Inventory
pub mod Validity
pub mod History
unfoldable pub use Snapshot.*
unfoldable pub use Points.*
unfoldable pub use State.*
