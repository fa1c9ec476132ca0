-- ===== src/Nvidia/Xid.antt =====
-- crates/spark-nvidia/src/lib.rs, `XidMonitor`. The messages that the workers have sent since the last
-- collection are given to it in their order. A set is a map to units.
use spark_signals.Prelude.{String, Option, List, [], ◌∷◌, ◌++◌, if◌then◌else◌}
use spark_signals.Order.{text_ord}
use spark_signals.BTreeMap.{BTreeSet, insert, contains}
use spark_signals.Float.{zero_f64, one_f64}
use spark_signals.Schema.{MetricPoint, Quality}
use spark_signals.Schema.Point.{counter_delta, unavailable}
use spark_signals.Points.{Points, attributed}

pub data XidMessage : Type 0 where
  ready : (uuid : String) → XidMessage
  event : (uuid code : String) → XidMessage
  unsupported : (uuid : String) → XidMessage

pub record XidMonitor : Type 0 where
  pub ready_gpus : BTreeSet String
  pub unsupported_gpus : BTreeSet String

-- `XidMonitor::start`, besides the workers
abbrev pub new_monitor : XidMonitor
new_monitor = record { ready_gpus = []; unsupported_gpus = [] }

unfoldable pub event_point : String → String → Option MetricPoint
unfolding counter_delta attributed
event_point uuid code =
    attributed "nvidia.xid.code" code
      (attributed "gpu.id" uuid (counter_delta "nvidia.gpu.xid.count" one_f64 "{event}" "nvml"))

-- the loop over the messages: the monitor, the GPUs of the events, and their points
unfoldable pub receive :
    XidMonitor → BTreeSet String → List XidMessage → XidMonitor × (BTreeSet String × Points)
unfolding insert event_point
receive monitor event_gpus [] = (monitor, (event_gpus, []))
receive monitor event_gpus (ready uuid ∷ messages) =
    receive (record monitor { ready_gpus = insert uuid tt monitor.ready_gpus }) event_gpus messages
receive monitor event_gpus (unsupported uuid ∷ messages) =
    receive (record monitor { unsupported_gpus = insert uuid tt monitor.unsupported_gpus })
      event_gpus messages
receive monitor event_gpus (event uuid code ∷ messages) =
    let (last, (gpus, points)) = receive monitor (insert uuid tt event_gpus) messages in
    (last, (gpus, event_point uuid code ∷ points))

-- the points of the ready GPUs without an event
unfoldable pub quiet_points : BTreeSet String → BTreeSet String → Points
unfolding counter_delta attributed contains
quiet_points event_gpus [] = []
quiet_points event_gpus ((uuid, unit) ∷ gpus) =
    let rest = quiet_points event_gpus gpus in
    if contains uuid event_gpus
    then rest
    else attributed "gpu.id" uuid (counter_delta "nvidia.gpu.xid.count" zero_f64 "{event}" "nvml")
      ∷ rest

unfoldable pub unsupported_points : BTreeSet String → Points
unfolding unavailable attributed
unsupported_points [] = []
unsupported_points ((uuid, unit) ∷ gpus) =
    attributed "gpu.id" uuid (
      unavailable "nvidia.gpu.xid.count" "{event}" Quality.unsupported "nvml"
        "NVML_XID_NOT_SUPPORTED")
    ∷ unsupported_points gpus

-- `XidMonitor::collect`
unfoldable pub collect_xids : XidMonitor → List XidMessage → XidMonitor × Points
unfolding receive quiet_points unsupported_points
collect_xids monitor messages =
    let (last, (event_gpus, events)) = receive monitor [] messages in
    (
      last,
      events ++ quiet_points event_gpus last.ready_gpus ++ unsupported_points last.unsupported_gpus,
    )
