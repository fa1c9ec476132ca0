-- ===== src/Bridge.antt =====
-- crates/spark-otel-bridge: the program that turns signals from NATS into OTEL metrics and logs.
pub mod UnavailableLog
pub mod Instruments
pub mod Receive
pub mod Targets
