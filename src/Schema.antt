-- ===== src/Schema.antt =====
-- crates/spark-schema/src/lib.rs: the metric points and envelopes of the v1 schema, and the
-- decoding of one payload.
mod Types
mod Catalogue
mod Decode
pub mod Point
pub mod Validity
unfoldable pub use Types.*
unfoldable pub use Catalogue.*
unfoldable pub use Decode.*
