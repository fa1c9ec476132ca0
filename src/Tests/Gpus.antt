-- ===== src/Tests/Gpus.antt =====
-- The NVIDIA collector at concrete answers.
use spark_signals.Prelude.{◌≡◌, refl, String, true, false, none, some, List, [], ◌∷◌, map, ok, err}
use spark_signals.Prelude.Optional.{collect_all, map_some}
use spark_signals.Float.{from_u64, zero_f64}
use spark_signals.Float.Parse.{parse_f64}
use spark_signals.Schema.{MetricPoint, metric_name_allowed}
use spark_signals.Schema.Point.{with_attribute}
use spark_signals.BTreeMap.{get, contains, insert}
use spark_signals.Nvidia.Inventory.{is_gb10, nvidia_inventory}
use spark_signals.Points.Batch.{IsAcceptable}
use spark_signals.Nvidia.Capabilities.{CapabilityRuntime, policy}
use spark_signals.Nvidia.Points.{NvmlError}
use spark_signals.Nvidia.Smi.{SmiOutput, parse_smi_csv}
use spark_signals.Nvidia.Xid.{XidMessage, new_monitor, collect_xids}
use spark_signals.Nvidia.Collector.{
  PerformanceState, Device, Nvml, NvidiaCollector, clock_points, collect_nvidia,
}
use spark_signals.Nvidia.Validity.Gpus.{collect_nvidia-IsAcceptable}

-- the fixture of the GB10, which has no memory clock
smi_fixture :
    map_some
      (map (λ (p : MetricPoint). p.value))
      (collect_all (parse_smi_csv "GPU-GB10-FIXTURE, 0, 0, 35, 5.15, 208, [N/A]\n"))
    ≡ some (
        some zero_f64
        ∷ some zero_f64
        ∷ some (from_u64 35)
        ∷ parse_f64 "5.15"
        ∷ some (from_u64 208)
        ∷ none
        ∷ [])
unfolding parse_smi_csv from_u64 parse_f64 metric_name_allowed with_attribute
smi_fixture = refl

abbrev messages : List XidMessage
messages =
    XidMessage.ready "a"
    ∷ XidMessage.ready "b"
    ∷ XidMessage.unsupported "c"
    ∷ XidMessage.event "a" "79"
    ∷ []

-- An event of one GPU, none of the other, and one that cannot tell.
xid_values :
    map_some
      (map (λ (p : MetricPoint). p.value))
      (collect_all (collect_xids new_monitor messages).1)
    ≡ some (some (from_u64 1) ∷ some zero_f64 ∷ none ∷ [])
unfolding collect_xids from_u64 metric_name_allowed with_attribute
xid_values = refl

abbrev refused : NvmlError
refused = record { is_not_supported = true; debug = "NotSupported" }

abbrev gpu : Device
gpu = record {
  uuid = some "GPU-1";
  name = some "NVIDIA GB10";
  pci_device_id = none;
  utilization_rates = ok (5, 7);
  temperature = ok 40;
  power_usage = ok 5150;
  clock_info = λ label. err refused;
  current_throttle_reasons = ok 0;
  performance_state = ok PerformanceState.unknown;
  encoder_utilization = err refused;
  decoder_utilization = ok 0;
  running_compute_processes = ok (record { pid = 7; used_gpu_memory = none } ∷ []);
}

abbrev runtime : CapabilityRuntime
runtime = record {
  identity = record { gpu_products = []; pci_device_ids = []; driver_version = none };
  resolved = [];
  automatic_unsupported = [];
}

abbrev collector : NvidiaCollector
collector = record { include_process_allocations = true; capabilities = runtime; xid = new_monitor }

abbrev nvml : Nvml
nvml = record {
  driver_version = some "580";
  cuda_version = some "13.0";
  devices = some (some gpu ∷ none ∷ []);
}

-- A clock that is refused once is not asked for again.
refused_clock : (clock_points gpu (clock_points gpu runtime "memory").0 "memory").1 ≡ []
unfolding clock_points policy get contains insert
refused_clock = refl

abbrev debug : PerformanceState → String
debug state = "Zero"

collect_nvidia-IsAcceptable_example :
    IsAcceptable (collect_nvidia debug (some nvml) SmiOutput.not_started messages collector).1
collect_nvidia-IsAcceptable_example =
    collect_nvidia-IsAcceptable debug (some nvml) SmiOutput.not_started messages collector

names_of_gb10 : map is_gb10 ("NVIDIA GB10" ∷ "NVIDIA H100 NVL" ∷ []) ≡ true ∷ false ∷ []
unfolding is_gb10
names_of_gb10 = refl

-- What an unsupported clock and a GPU leave in the inventory.
inventory_of_gpu :
    nvidia_inventory (some nvml) (clock_points gpu runtime "memory").0
    ≡ ("nvidia.cuda.driver_compatibility", "13.0")
      ∷ ("nvidia.driver.version", "580")
      ∷ ("nvidia.gpu.0.name", "NVIDIA GB10")
      ∷ ("nvidia.gpu.0.uuid", "GPU-1")
      ∷ ("nvidia.gpu.count", "2")
      ∷ ("spark.capability.0.attributes", "clock.domain=memory")
      ∷ ("spark.capability.0.metric", "nvidia.gpu.clock.frequency")
      ∷ ("spark.capability.0.reason", "NVML_NOTSUPPORTED")
      ∷ ("spark.capability.0.source", "nvml")
      ∷ ("spark.capability.0.state", "unsupported")
      ∷ ("spark.memory.architecture", "unified")
      ∷ ("spark.memory.bandwidth.capability_gbps", "273")
      ∷ []
unfolding nvidia_inventory clock_points policy get contains insert
inventory_of_gpu = refl
