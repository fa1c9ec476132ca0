-- ===== src/Agent/Tick.antt =====
-- crates/spark-agent/src/main.rs: the main loop.
mod State
mod Reports
mod Samples
mod Loop
pub mod Numbering
pub mod Progress
pub mod Always
pub mod Activity
unfoldable pub use State.*
unfoldable pub use Reports.*
unfoldable pub use Samples.*
unfoldable pub use Loop.*
