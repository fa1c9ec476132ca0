-- ===== src/Nvidia/Validity/Gpus.antt =====
-- That the points from NVML are made, and the batch of a collection.
use spark_signals.Prelude.{
  ℕ, ◌+◌, String, ◌≡◌, refl, true, false, Bool, Option, none, some, List, [], ◌∷◌, ◌++◌, map,
  map_or, unwrap_or, All-append, Result, ok, err, if◌then◌else◌,
}
use spark_signals.Text.{concat}
use spark_signals.Text.Decimal.{to_decimal}
use spark_signals.Float.{F64, from_u64}
use spark_signals.Float.Arithmetic.{div}
use spark_signals.Schema.{MetricPoint, Quality, metric_name_allowed, attribute_name_allowed}
use spark_signals.Points.{Points, attributed}
use spark_signals.Points.Made.{
  IsMade, AllMade, gauge-IsMade, unavailable-IsMade, attributed-IsMade, map_or-IsMade, either,
}
use spark_signals.Points.Batch.{IsAcceptable, acceptable}
use spark_signals.Nvidia.Capabilities.{
  CapabilityRuntime, update_identity, should_query, observe_definitive_unsupported,
}
use spark_signals.Nvidia.Points.{gauge, unavailable, NvmlError, nvml_unavailable, measured_or}
use spark_signals.Nvidia.Smi.{SmiOutput, collect_smi_fallback}
use spark_signals.Nvidia.Xid.{XidMessage, collect_xids}
use spark_signals.Nvidia.Collector.{
  PerformanceState, Process, Device, Nvml, NvidiaCollector, hardware_identity,
  performance_state_value, rate_points, heat_points, clock_key, is_refusal, clock_points,
  state_point, load_points, process_point, process_points, device_points, all_device_points,
  collect_devices, collect_nvidia,
}
use spark_signals.Nvidia.Validity.Smi.{
  AllLabelled, labelled, decorate_gpu-AllMade, no_utilization, collect_smi_fallback-AllMade,
}
use spark_signals.Nvidia.Validity.Xid.{collect_xids-AllMade}

nvml_unavailable-IsMade :
    (name unit : String) (error : NvmlError)
    → metric_name_allowed name ≡ true
    → IsMade 0 (nvml_unavailable name unit error)
unfolding nvml_unavailable
nvml_unavailable-IsMade name unit error h = unavailable-IsMade _ _ _ _ _ h

nvml_gauge-IsMade :
    (name : String) (value : F64) (unit : String)
    → metric_name_allowed name ≡ true
    → IsMade 0 (gauge name value unit)
unfolding gauge
nvml_gauge-IsMade name value unit h = gauge-IsMade _ _ _ _ _ h

measured_or-IsMade {ℓ} :
    {A : Type ℓ} (name unit : String) (value : A → F64) (answer : Result A NvmlError)
    → metric_name_allowed name ≡ true
    → IsMade 0 (measured_or name unit value answer)
unfolding measured_or
measured_or-IsMade name unit value (ok answer) h = nvml_gauge-IsMade name (value answer) unit h
measured_or-IsMade name unit value (err error) h = nvml_unavailable-IsMade name unit error h

-- A value or an error, with a name of the catalogue.
one {ℓ} :
    {A : Type ℓ} (name unit : String) (value : A → F64) (answer : Result A NvmlError)
    → metric_name_allowed name ≡ true
    → IsMade 1 (measured_or name unit value answer)
one name unit value answer h =
    labelled (measured_or name unit value answer) (measured_or-IsMade name unit value answer h)

rate_points-AllLabelled : (rates : Result (ℕ × ℕ) NvmlError) → AllLabelled (rate_points rates)
unfolding rate_points metric_name_allowed
rate_points-AllLabelled rates = (
  one "nvidia.gpu.utilization" "%" (λ (r : ℕ × ℕ). from_u64 r.0) rates refl,
  (one "nvidia.gpu.memory_controller.utilization" "%" (λ (r : ℕ × ℕ). from_u64 r.1) rates refl, tt),
)

heat_points-AllLabelled : (device : Device) → AllLabelled (heat_points device)
unfolding heat_points metric_name_allowed
heat_points-AllLabelled device = (
  one "nvidia.gpu.temperature" "Cel" from_u64 device.temperature refl,
  (
    one "nvidia.gpu.power.draw" "W" (λ value. div (from_u64 value) (from_u64 1000))
        device.power_usage refl,
    tt,
  ),
)

clock_points-AllLabelled :
    (device : Device) (capabilities : CapabilityRuntime) (label : String)
    → AllLabelled (clock_points device capabilities label).1
unfolding clock_points metric_name_allowed attribute_name_allowed
clock_points-AllLabelled device capabilities label =
    let answer = device.clock_info label in
    let point = measured_or "nvidia.gpu.clock.frequency" "MHz" from_u64 answer in
    either (λ (r : CapabilityRuntime × Points). AllLabelled r.1)
      (should_query capabilities (clock_key label))
      (
        if is_refusal answer
            then observe_definitive_unsupported capabilities (clock_key label)
            else capabilities,
        attributed "clock.domain" label point ∷ [],
      )
      (capabilities, [])
      (
        attributed-IsMade 0 "clock.domain" label point refl
            (measured_or-IsMade "nvidia.gpu.clock.frequency" "MHz" from_u64 answer refl),
        tt,
      )
      tt

missing_memory :
    IsMade 0 (unavailable "nvidia.gpu.process.memory.allocation" "By" "NVML_MEMORY_UNAVAILABLE")
unfolding unavailable metric_name_allowed
missing_memory =
    unavailable-IsMade "nvidia.gpu.process.memory.allocation" "By" Quality.unsupported "nvml"
      "NVML_MEMORY_UNAVAILABLE" refl

process_point-IsMade : (process : Process) → IsMade 1 (process_point process)
unfolding process_point metric_name_allowed attribute_name_allowed
process_point-IsMade process =
    let name : String = "nvidia.gpu.process.memory.allocation" in
    let missing = unavailable name "By" "NVML_MEMORY_UNAVAILABLE" in
    let used : ℕ → Option MetricPoint = λ bytes. gauge name (from_u64 bytes) "By" in
    attributed-IsMade 0 "process.pid" (to_decimal process.pid)
      (map_or process.used_gpu_memory missing used) refl
      (map_or-IsMade 0 process.used_gpu_memory missing used missing_memory
        (λ bytes. nvml_gauge-IsMade name (from_u64 bytes) "By" refl))

process_list-AllLabelled : (processes : List Process) → AllLabelled (map process_point processes)
process_list-AllLabelled [] = tt
process_list-AllLabelled (process ∷ processes) =
    (process_point-IsMade process, process_list-AllLabelled processes)

process_points-AllLabelled :
    (include : Bool) (processes : Result (List Process) NvmlError)
    → AllLabelled (process_points include processes)
unfolding process_points metric_name_allowed
process_points-AllLabelled false processes = tt
process_points-AllLabelled true (ok processes) = process_list-AllLabelled processes
process_points-AllLabelled true (err error) = (
  labelled (nvml_unavailable "nvidia.gpu.process.memory.allocation" "By" error)
      (nvml_unavailable-IsMade "nvidia.gpu.process.memory.allocation" "By" error refl),
  tt,
)

module _ (debug : PerformanceState → String) where
  state_point-IsMade :
      (state : Result PerformanceState NvmlError) → IsMade 1 (state_point debug state)
  unfolding state_point metric_name_allowed attribute_name_allowed
  state_point-IsMade (ok state) =
      let value = performance_state_value state in
      attributed-IsMade 0 "nvidia.performance_state" (debug state)
        (gauge "nvidia.gpu.performance_state" value "1") refl
        (nvml_gauge-IsMade "nvidia.gpu.performance_state" value "1" refl)
  state_point-IsMade (err error) =
      labelled (nvml_unavailable "nvidia.gpu.performance_state" "1" error)
        (nvml_unavailable-IsMade "nvidia.gpu.performance_state" "1" error refl)

  load_points-AllLabelled : (device : Device) → AllLabelled (load_points debug device)
  unfolding load_points metric_name_allowed
  load_points-AllLabelled device = (
    one "nvidia.gpu.throttle" "1" from_u64 device.current_throttle_reasons refl,
    (
      state_point-IsMade device.performance_state,
      (
        one "nvidia.gpu.encoder.utilization" "%" from_u64 device.encoder_utilization refl,
        (one "nvidia.gpu.decoder.utilization" "%" from_u64 device.decoder_utilization refl, tt),
      ),
    ),
  )

  device_points-AllMade :
      (include : Bool) (index : ℕ) (device : Device) (capabilities : CapabilityRuntime)
      → AllMade (device_points debug include index device capabilities).1
  unfolding device_points
  device_points-AllMade include index device capabilities =
      let graphics = clock_points device capabilities "graphics" in
      let memory = clock_points device graphics.0 "memory" in
      let rates = rate_points device.utilization_rates in
      let heat = heat_points device in
      let load = load_points debug device in
      let processes = process_points include device.running_compute_processes in
      let id = unwrap_or device.uuid (concat ("index-" ∷ to_decimal index ∷ [])) in
      decorate_gpu-AllMade id index
        (((((rates ++ heat) ++ graphics.1) ++ memory.1) ++ load) ++ processes)
        (All-append (IsMade 1) ((((rates ++ heat) ++ graphics.1) ++ memory.1) ++ load) processes
          (All-append (IsMade 1) (((rates ++ heat) ++ graphics.1) ++ memory.1) load
            (All-append (IsMade 1) ((rates ++ heat) ++ graphics.1) memory.1
              (All-append (IsMade 1) (rates ++ heat) graphics.1
                (All-append (IsMade 1) rates heat (rate_points-AllLabelled device.utilization_rates)
                  (heat_points-AllLabelled device))
                (clock_points-AllLabelled device capabilities "graphics"))
              (clock_points-AllLabelled device graphics.0 "memory"))
            (load_points-AllLabelled device))
          (process_points-AllLabelled include device.running_compute_processes))

  all_device_points-AllMade :
      (include : Bool) (index : ℕ) (devices : List (Option Device))
      (capabilities : CapabilityRuntime)
      → AllMade (all_device_points debug include index devices capabilities).1
  unfolding all_device_points
  all_device_points-AllMade include index [] capabilities = tt
  all_device_points-AllMade include index (none ∷ devices) capabilities =
      all_device_points-AllMade include (index + 1) devices capabilities
  all_device_points-AllMade include index (some device ∷ devices) capabilities =
      let step = device_points debug include index device capabilities in
      All-append (IsMade 24) step.1 (all_device_points debug include (index + 1) devices step.0).1
        (device_points-AllMade include index device capabilities)
        (all_device_points-AllMade include (index + 1) devices step.0)

  collect_devices-AllMade :
      (devices : Option (List (Option Device))) (messages : List XidMessage)
      (collector : NvidiaCollector)
      → AllMade (collect_devices debug devices messages collector).1
  unfolding collect_devices
  collect_devices-AllMade none messages collector = (no_utilization "NVML_DEVICE_COUNT_FAILED", tt)
  collect_devices-AllMade (some devices) messages collector =
      let include = collector.include_process_allocations in
      let gpus = all_device_points debug include 0 devices collector.capabilities in
      All-append (IsMade 24) gpus.1 (collect_xids collector.xid messages).1
        (all_device_points-AllMade include 0 devices collector.capabilities)
        (collect_xids-AllMade collector.xid messages)

  -- Whatever NVML or nvidia-smi answers and the workers have sent, a collection of the GPUs does not
  -- panic. Its points have catalogue names and at most 24 attributes, so that the batch of them
  -- passes the test of the decoder exactly if no attribute's value has more than 256 bytes.
  pub collect_nvidia-IsAcceptable :
      (nvml : Option Nvml) (smi : SmiOutput) (messages : List XidMessage)
      (collector : NvidiaCollector)
      → IsAcceptable (collect_nvidia debug nvml smi messages collector).1
  unfolding collect_nvidia
  collect_nvidia-IsAcceptable none smi messages collector =
      acceptable (collect_smi_fallback smi) (collect_smi_fallback-AllMade smi)
  collect_nvidia-IsAcceptable (some nvml) smi messages collector =
      let current = record collector {
        capabilities = update_identity collector.capabilities (hardware_identity nvml);
      } in
      acceptable (collect_devices debug nvml.devices messages current).1
        (collect_devices-AllMade nvml.devices messages current)
