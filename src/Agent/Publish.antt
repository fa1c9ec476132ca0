-- ===== src/Agent/Publish.antt =====
-- crates/spark-agent/src/main.rs: envelopes, the latest publication of each subject, and the queue
-- of health events.
mod Sender
pub mod Sending
unfoldable pub use Sender.*
