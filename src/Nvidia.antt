-- ===== src/Nvidia.antt =====
-- crates/spark-nvidia: the collector of GPU metrics.
pub mod Capabilities
pub mod Points
pub mod Smi
pub mod Xid
pub mod Collector
pub mod Inventory
pub mod Validity
