-- ===== src/Bridge/Receive.antt =====
-- crates/spark-otel-bridge/src/main.rs: the loop over the messages received.
mod Loop
pub mod Measured
pub mod Catalogued
pub mod Told
unfoldable pub use Loop.*
