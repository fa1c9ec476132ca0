-- ===== src/Bridge/UnavailableLog.antt =====
-- crates/spark-otel-bridge/src/unavailable_log.rs: the log records for points without a value, and
-- the set of unsupported capabilities that have been logged.
mod Emitter
pub mod Conversion
-- pub mod Deduplication
unfoldable pub use Emitter.*
