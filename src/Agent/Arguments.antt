-- ===== src/Agent/Arguments.antt =====
-- crates/spark-agent/src/main.rs: the checks on arguments and names.
mod Checks
pub mod Components
pub mod Durations
unfoldable pub use Checks.*
