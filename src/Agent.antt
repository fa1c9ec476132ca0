-- ===== src/Agent.antt =====
-- crates/spark-agent: the program that collects the metrics of a node and publishes them.
pub mod Policy
pub mod Discovery
pub mod Publish
pub mod Events
pub mod Nats
pub mod Ages
pub mod Arguments
pub mod Tick
pub mod Inventory
