-- ===== src/Lib.antt =====
-- spark-signals. The agent (crates/spark-agent) collects points of a node, filters them by signal
-- policies and publishes them to NATS as envelopes of the v1 schema (crates/spark-schema). The bridge
-- (crates/spark-otel-bridge) receives the envelopes, decodes and checks them, and exports the points
-- as OTEL metrics and logs. The agent's collectors are crates/spark-nvidia, spark-linux and
-- spark-probes.
--
-- How the parts meet: a tick of the agent's main loop (Agent.Tick) composes the parts that follow. The
-- agent's points are values of Schema.MetricPoint. Agent.Policy.filter lets some of them through,
-- Agent.Publish wraps them in an Envelope and puts the publication of each subject into a map, from
-- which Agent.Nats publishes the newest; health events take the bounded queue of Agent.Publish.
-- Bridge.Receive decodes a payload by Schema.decode_v1 and records its points on the instruments of
-- Bridge.Instruments, which log points without a value by Bridge.UnavailableLog.
--
-- Schema: crates/spark-schema/src/lib.rs. Types has MetricPoint and Envelope, Catalogue the two lists
--   of names, Decode decode_v1 with its limits, Point the constructors of points; Validity proves.
-- Agent.Policy: crates/spark-agent/src/signal_policy.rs. Rules has SignalSelector and
--   SignalPolicySet::policy_for, Emitter the SignalEmitter, Load load_policy_directory.
-- Agent.Discovery: crates/spark-agent/src/discovery.rs. Tracker has DiscoveryTracker and its
--   output; Output proves what is written, Installed what it does once it is loaded.
-- Agent.Ages: crates/spark-agent/src/main.rs, CollectorAges.
-- Agent.Publish, Agent.Events, Agent.Nats, Agent.Arguments: parts of crates/spark-agent/src/main.rs,
--   in this order EnvelopeFactory, publish_state and send_event; detect_system_events; publish_latest
--   and the inner loop of nats_publisher; parse_duration, valid_subject_component,
--   sanitize_component and stable_jitter.
-- Agent.Tick: crates/spark-agent/src/main.rs, the main loop. State has its variables, Reports the health
--   events and the inventory, Samples the points of a tick, Loop the tick and the reload.
-- Bridge.UnavailableLog: crates/spark-otel-bridge/src/unavailable_log.rs.
-- Bridge.Instruments, Bridge.Receive: crates/spark-otel-bridge/src/main.rs, Instruments and the
--   receive loop.
-- Bridge.Targets: crates/spark-otel-bridge/src/plugins. Maple has MaplePlugin, Selected the choice of a
--   target.
-- Nvidia.Capabilities: crates/spark-nvidia/src/capabilities.rs. Profiles has load_directory, Runtime
--   the CapabilityRuntime, Wanted what can happen to it and what the rules then
--   want to be queried.
-- Nvidia: crates/spark-nvidia/src/lib.rs. Collector has NvidiaCollector, Xid the XidMonitor, Smi the
--   fallback to nvidia-smi, Inventory the inventory with that of the capabilities.
-- Linux: crates/spark-linux/src/lib.rs. Snapshot has what a collection reads of the system, Parse the
--   parsers, State the SystemCollector, Collector its collections, Inventory the inventory, and there is
--   one module for each of the collectors. Agent.Inventory adds what crates/spark-agent/src/main.rs
--   adds in host_inventory.
-- Probes: crates/spark-probes/src/lib.rs. Config has AgentConfig, Fetch the request to an endpoint and
--   its answer, Parse the parsers, Llm the LlmProbe, Services the ServiceProbe.
-- Points: the lists of points that the collectors make, and when the decoder takes the batch of one.
-- Prelude, Order, BTreeMap, Float, Text and Directory model what the source uses of the standard
--   library: results, orders, ordered maps, the bits, comparisons and arithmetic of f64, texts by
--   their bytes, and the TOML files of a directory.
--
-- State is passed: each operation takes the state and returns it with its result, and what goes to
-- a library (log records, measurements, publications) is returned as a list. A HashMap is read by
-- the functions of BTreeMap, since the code only inserts, removes and looks up. Numbers are natural
-- numbers with the bound of their width written where the code has one: u64 is saturated or wrapped as
-- the source does. Loops are recursion on their lists. Fuel is the width of the word whose highest bit
-- Float looks for, and the twenty digits that a u64 has at most.
--
-- Parameters: JSON (serde_json), TOML (toml), base64, the clock, the answers of the file system, the
-- printing of f64, the conversions of decimal text and of a duration to f64 where Agent.Events and
-- Agent.Ages stand alone, the HTTP client of the LLM probe, what NVML, nvidia-smi and
-- systemctl answer, the NATS client and
-- the queue of tokio, the last with the law that a publication that was sent stands at the end of the
-- queue.
--
-- Not modelled: file and network input and output (the directories and the messages are values), the
-- set-up of NATS, OTEL and tracing, the tasks that run the loops and wait for Xid events, and the
-- scripts under deploy.
pub mod Prelude
pub mod Order
pub mod BTreeMap
pub mod Float
pub mod Text
pub mod Directory
pub mod Schema
pub mod Agent
pub mod Tests
pub mod Bridge
pub mod Nvidia
pub mod Points
pub mod Linux
pub mod Probes
