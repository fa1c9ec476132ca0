-- ===== src/Tests.antt =====
-- Concrete data, and the theorems at it.
pub mod Data
pub mod Schema
pub mod Policy
pub mod Discovery
pub mod Bridge
pub mod Agent
pub mod Arguments
pub mod Nvidia
pub mod Targets
pub mod Ages
pub mod Float
pub mod Linux
pub mod Probes
pub mod Loop
pub mod Gpus
