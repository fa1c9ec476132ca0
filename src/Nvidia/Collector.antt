-- ===== src/Nvidia/Collector.antt =====
-- crates/spark-nvidia/src/lib.rs, `NvidiaCollector`. What NVML answers during a collection is a value;
-- what `{:?}` prints of its types and the two parts of a CUDA version are parameters.
use spark_signals.Prelude.{
  ◌>>=◌, ℕ, ◌+◌, String, Bool, true, false, Option, none, some, List, [], ◌∷◌, ◌++◌, map, map_or,
  unwrap_or, Result, ok, err, if◌then◌else◌,
}
use spark_signals.Order.{text_ord}
use spark_signals.BTreeMap.{BTreeSet, insert}
use spark_signals.Float.{F64, zero_f64, one_f64, from_u64}
use spark_signals.Float.Arithmetic.{div, sub}
use spark_signals.Text.{concat}
use spark_signals.Text.Decimal.{to_decimal}
use spark_signals.Schema.{MetricPoint}
use spark_signals.Points.{Points, attributed}
use spark_signals.Directory.{Directory}
use spark_signals.Nvidia.Capabilities.{
  ProfileFile, ProfileError, load, reload, CapabilityKey, HardwareIdentity, CapabilityRuntime,
  update_identity, should_query, observe_definitive_unsupported,
}
use spark_signals.Nvidia.Points.{gauge, unavailable, NvmlError, nvml_unavailable, measured_or}
use spark_signals.Nvidia.Smi.{SmiOutput, decorate_gpu, collect_smi_fallback}
use spark_signals.Nvidia.Xid.{XidMonitor, XidMessage, new_monitor, collect_xids}

-- the sixteen states by their numbers
pub data PerformanceState : Type 0 where
  numbered : (number : ℕ) → PerformanceState
  unknown : PerformanceState

pub record Process : Type 0 where
  pub pid : ℕ
  pub used_gpu_memory : Option ℕ

-- what a device answers
pub record Device : Type 0 where
  pub uuid : Option String
  pub name : Option String
  -- the PCI device id as eight hexadecimal digits
  pub pci_device_id : Option String
  pub utilization_rates : Result (ℕ × ℕ) NvmlError
  pub temperature : Result ℕ NvmlError
  pub power_usage : Result ℕ NvmlError
  pub clock_info : String → Result ℕ NvmlError
  pub current_throttle_reasons : Result ℕ NvmlError
  pub performance_state : Result PerformanceState NvmlError
  pub encoder_utilization : Result ℕ NvmlError
  pub decoder_utilization : Result ℕ NvmlError
  pub running_compute_processes : Result (List Process) NvmlError

-- what NVML answers: the devices of the indices below the count
pub record Nvml : Type 0 where
  pub driver_version : Option String
  -- the major and the minor version with a dot between them
  pub cuda_version : Option String
  pub devices : Option (List (Option Device))

pub record NvidiaCollector : Type 0 where
  pub include_process_allocations : Bool
  pub capabilities : CapabilityRuntime
  pub xid : XidMonitor

abbrev pub insert_some : Option String → BTreeSet String → BTreeSet String
unfolding insert
insert_some none set = set
insert_some (some text) set = insert text tt set

unfoldable pub identify : HardwareIdentity → List (Option Device) → HardwareIdentity
unfolding insert
identify identity [] = identity
identify identity (none ∷ devices) = identify identity devices
identify identity (some device ∷ devices) =
    identify
      (record identity {
        gpu_products = insert_some device.name identity.gpu_products;
        pci_device_ids = insert_some device.pci_device_id identity.pci_device_ids;
      })
      devices

-- `hardware_identity`
unfoldable pub hardware_identity : Nvml → HardwareIdentity
unfolding identify
hardware_identity nvml =
    identify
      (record { gpu_products = []; pci_device_ids = []; driver_version = nvml.driver_version })
      (unwrap_or nvml.devices [])

-- `performance_state_value`
unfoldable pub performance_state_value : PerformanceState → F64
unfolding from_u64 sub
performance_state_value (numbered number) = from_u64 number
performance_state_value unknown = sub zero_f64 one_f64

unfoldable pub rate_points : Result (ℕ × ℕ) NvmlError → Points
unfolding from_u64 gauge nvml_unavailable measured_or
rate_points rates =
    measured_or "nvidia.gpu.utilization" "%" (λ (r : ℕ × ℕ). from_u64 r.0) rates
    ∷ measured_or "nvidia.gpu.memory_controller.utilization" "%" (λ (r : ℕ × ℕ). from_u64 r.1) rates
    ∷ []

unfoldable pub heat_points : Device → Points
unfolding from_u64 div gauge nvml_unavailable measured_or
heat_points device =
    measured_or "nvidia.gpu.temperature" "Cel" from_u64 device.temperature
    ∷ measured_or "nvidia.gpu.power.draw" "W" (λ value. div (from_u64 value) (from_u64 1000))
        device.power_usage
    ∷ []

abbrev pub clock_key : String → CapabilityKey
clock_key label = record {
  source = "nvml";
  metric = "nvidia.gpu.clock.frequency";
  attributes = ("clock.domain", label) ∷ [];
}

abbrev pub is_refusal : {A : Type 0} → Result A NvmlError → Bool
is_refusal (ok value) = false
is_refusal (err error) = error.is_not_supported

-- one round of the loop over the clocks
unfoldable pub clock_points : Device → CapabilityRuntime → String → CapabilityRuntime × Points
unfolding should_query observe_definitive_unsupported attributed from_u64 gauge nvml_unavailable
    measured_or
clock_points device capabilities label =
    if should_query capabilities (clock_key label)
    then (
      if is_refusal (device.clock_info label)
          then observe_definitive_unsupported capabilities (clock_key label)
          else capabilities,
      attributed "clock.domain" label
            (measured_or "nvidia.gpu.clock.frequency" "MHz" from_u64 (device.clock_info label))
          ∷ [],
    )
    else (capabilities, [])

module _ (debug : PerformanceState → String) where
  unfoldable pub state_point : Result PerformanceState NvmlError → Option MetricPoint
  unfolding performance_state_value attributed gauge nvml_unavailable measured_or
  state_point (ok state) =
      attributed "nvidia.performance_state" (debug state)
        (gauge "nvidia.gpu.performance_state" (performance_state_value state) "1")
  state_point (err error) = nvml_unavailable "nvidia.gpu.performance_state" "1" error

  unfoldable pub load_points : Device → Points
  unfolding state_point from_u64 gauge nvml_unavailable measured_or
  load_points device =
      measured_or "nvidia.gpu.throttle" "1" from_u64 device.current_throttle_reasons
      ∷ state_point device.performance_state
      ∷ measured_or "nvidia.gpu.encoder.utilization" "%" from_u64 device.encoder_utilization
      ∷ measured_or "nvidia.gpu.decoder.utilization" "%" from_u64 device.decoder_utilization
      ∷ []

unfoldable pub process_point : Process → Option MetricPoint
unfolding gauge unavailable from_u64 attributed to_decimal
process_point process = attributed "process.pid" (to_decimal process.pid) (
    map_or process.used_gpu_memory
      (unavailable "nvidia.gpu.process.memory.allocation" "By" "NVML_MEMORY_UNAVAILABLE")
      (λ bytes. gauge "nvidia.gpu.process.memory.allocation" (from_u64 bytes) "By"))

unfoldable pub process_points : Bool → Result (List Process) NvmlError → Points
unfolding process_point nvml_unavailable
process_points false processes = []
process_points true (ok processes) = map process_point processes
process_points true (err error) =
    nvml_unavailable "nvidia.gpu.process.memory.allocation" "By" error ∷ []

module _ (debug : PerformanceState → String) where
  -- the body of the loop over the devices
  unfoldable pub device_points : Bool → ℕ → Device → CapabilityRuntime → CapabilityRuntime × Points
  unfolding decorate_gpu rate_points heat_points clock_points load_points process_points to_decimal
  device_points include index device capabilities =
      let uuid = unwrap_or device.uuid (concat ("index-" ∷ to_decimal index ∷ [])) in
      let (after_graphics, graphics) = clock_points device capabilities "graphics" in
      let (last, memory) = clock_points device after_graphics "memory" in
      (
        last,
        map (decorate_gpu uuid index) (
            rate_points device.utilization_rates
            ++ heat_points device
            ++ graphics
            ++ memory
            ++ load_points debug device
            ++ process_points include device.running_compute_processes),
      )

  unfoldable pub all_device_points :
      Bool → ℕ → List (Option Device) → CapabilityRuntime → CapabilityRuntime × Points
  unfolding device_points
  all_device_points include index [] capabilities = (capabilities, [])
  all_device_points include index (none ∷ devices) capabilities =
      all_device_points include (index + 1) devices capabilities
  all_device_points include index (some device ∷ devices) capabilities =
      let (next, points) = device_points include index device capabilities in
      let (last, more) = all_device_points include (index + 1) devices next in
      (last, points ++ more)

  -- `collect` with NVML, after the identity is updated
  unfoldable pub collect_devices :
      Option (List (Option Device)) → List XidMessage → NvidiaCollector → NvidiaCollector × Points
  unfolding all_device_points unavailable collect_xids
  collect_devices none messages collector =
      (collector, unavailable "nvidia.gpu.utilization" "%" "NVML_DEVICE_COUNT_FAILED" ∷ [])
  collect_devices (some devices) messages collector =
      let (capabilities, points) =
        all_device_points collector.include_process_allocations 0 devices collector.capabilities in
      let (xid, events) = collect_xids collector.xid messages in
      (record collector { capabilities = capabilities; xid = xid }, points ++ events)

  -- `NvidiaCollector::collect`
  unfoldable pub collect_nvidia :
      Option Nvml → SmiOutput → List XidMessage → NvidiaCollector → NvidiaCollector × Points
  unfolding collect_smi_fallback collect_devices update_identity hardware_identity
  collect_nvidia none smi messages collector = (collector, collect_smi_fallback smi)
  collect_nvidia (some nvml) smi messages collector =
      collect_devices nvml.devices messages (record collector {
        capabilities = update_identity collector.capabilities (hardware_identity nvml);
      })

-- `HardwareIdentity::default()` without NVML
unfoldable pub current_identity : Option Nvml → HardwareIdentity
unfolding hardware_identity
current_identity none = record { gpu_products = []; pci_device_ids = []; driver_version = none }
current_identity (some nvml) = hardware_identity nvml

module _ (from_str : String → Option ProfileFile) where
  -- `NvidiaCollector::new`, besides the workers
  unfoldable pub new_nvidia :
      Bool → Option Directory → Option Nvml → Result NvidiaCollector ProfileError
  unfolding current_identity load
  new_nvidia include directory nvml = do
    runtime ← load from_str directory (current_identity nvml)
    ok (record { include_process_allocations = include; capabilities = runtime; xid = new_monitor })

  -- `NvidiaCollector::reload_capabilities`
  unfoldable pub reload_capabilities :
      Option Directory
      → Option Nvml
      → NvidiaCollector
      → NvidiaCollector × Result (Unit {0}) ProfileError
  unfolding current_identity reload
  reload_capabilities directory nvml collector =
      let (runtime, result) =
        reload from_str collector.capabilities directory (current_identity nvml) in
      (record collector { capabilities = runtime }, result)
