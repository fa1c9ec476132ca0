-- ===== src/Agent/Events.antt =====
-- crates/spark-agent/src/main.rs: the health events of the system metrics.
mod Detection
pub mod History
unfoldable pub use Detection.*
