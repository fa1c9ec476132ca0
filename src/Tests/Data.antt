-- ===== src/Tests/Data.antt =====
-- Points, envelopes and rules that the tests share.
use spark_signals.Prelude.{Option, none, some, [], ◌∷◌}
use spark_signals.Float.{F64, zero_f64}
use spark_signals.Schema.{MetricPoint, Quality, InstrumentKind, Node, Signal, Envelope, schema_v1}
use spark_signals.Agent.Policy.{SignalPolicy}
use spark_signals.Agent.Policy.Load.{PolicyEntry}

abbrev pub node : Node
node = record { site = "lab"; id = "spark-1"; host_name = "spark" }

abbrev pub envelope_of : Signal → Envelope
envelope_of signal = record {
  schema = schema_v1;
  node = node;
  boot_id = "boot-1";
  sequence = 7;
  observed_at = "2026-01-01T00:00:00Z";
  monotonic_ns = 1;
  collection_duration_ms = 1;
  valid_for_ms = 3000;
  signal = signal;
}

-- a reading of the errors of one GPU
abbrev pub xid_count : Option F64 → Quality → MetricPoint
xid_count value quality = record {
  name = "nvidia.gpu.xid.count";
  instrument = InstrumentKind.counter_delta;
  value = value;
  unit = "{event}";
  quality = quality;
  source = "nvml";
  attributes = ("gpu.id", "0") ∷ [];
  error_code = none;
}

abbrev pub quiet : MetricPoint
quiet = xid_count (some zero_f64) Quality.derived

abbrev pub failed : MetricPoint
failed = record (xid_count none Quality.error) { error_code = some "NVML_READ_FAILED" }

-- the errors of one kind
abbrev pub xid_79 : F64 → MetricPoint
xid_79 value = record (xid_count (some value) Quality.derived) {
  attributes = ("gpu.id", "0") ∷ ("nvidia.xid.code", "79") ∷ [];
}

abbrev pub entry : SignalPolicy → PolicyEntry
entry policy = record {
  source = "nvml";
  metric = "nvidia.gpu.xid.count";
  attributes = [];
  policy = policy;
  reason = "TEST";
}

abbrev pub gpu_entry : SignalPolicy → PolicyEntry
gpu_entry policy = record (entry policy) { attributes = ("gpu.id", "0") ∷ [] }
