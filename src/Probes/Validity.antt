-- ===== src/Probes/Validity.antt =====
-- That the points of the probes are made, and the batches of them.
pub mod Llm
pub mod Services
pub mod Batch
