-- ===== src/Nvidia/Capabilities.antt =====
-- crates/spark-nvidia/src/capabilities.rs: the hardware profiles, and what is asked of the GPU.
mod Profiles
pub mod Best
mod Runtime
pub mod Selection
pub mod Wanted
pub mod Lifecycle
unfoldable pub use Profiles.*
unfoldable pub use Runtime.*
