-- ===== src/Bridge/Targets.antt =====
-- crates/spark-otel-bridge/src/plugins: where the bridge exports to.
mod Maple
mod Selected
pub mod Endpoint
pub mod Naming
pub mod Credential
unfoldable pub use Maple.*
unfoldable pub use Selected.*
