-- ===== src/Agent/Nats.antt =====
-- crates/spark-agent/src/main.rs: the publication of the latest values to NATS.
mod Publisher
pub mod Newest
unfoldable pub use Publisher.*
