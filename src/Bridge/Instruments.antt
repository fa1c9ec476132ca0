-- ===== src/Bridge/Instruments.antt =====
-- crates/spark-otel-bridge/src/main.rs: `Instruments`, and the recording of one point.
mod Recorder
pub mod History
pub mod Named
pub mod Lasting
unfoldable pub use Recorder.*
