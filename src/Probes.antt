-- ===== src/Probes.antt =====
-- crates/spark-probes: the metrics of LLM endpoints and of services.
mod Config
pub mod Parse
mod Fetch
pub mod Llm
pub mod Services
pub mod Validity
pub mod Totals
pub mod History
unfoldable pub use Config.*
unfoldable pub use Fetch.*
