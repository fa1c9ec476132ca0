-- ===== src/Agent/Discovery.antt =====
-- crates/spark-agent/src/discovery.rs: the timed discovery of series that do not change or never
-- have a value, and the policy file that it writes.
mod Tracker
pub mod Classes
pub mod Output
pub mod Installed
unfoldable pub use Tracker.*
