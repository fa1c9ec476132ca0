-- ===== src/Agent/Policy.antt =====
-- crates/spark-agent/src/signal_policy.rs: which points of a batch are emitted.
mod Rules
mod Emitter
pub mod Load
pub mod Loaded
pub mod Accepted
pub mod Choice
pub mod Emission
unfoldable pub use Rules.*
unfoldable pub use Emitter.*
