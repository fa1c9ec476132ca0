-- ===== src/Nvidia/Validity/Xid.antt =====
-- That the points of the Xid events are made.
use spark_signals.Prelude.{String, refl, List, [], ◌∷◌, ◌++◌, All-append, arith}
use spark_signals.BTreeMap.{BTreeSet, contains, insert}
use spark_signals.Order.{text_ord}
use spark_signals.Float.{F64, zero_f64, one_f64}
use spark_signals.Schema.{Quality, metric_name_allowed, attribute_name_allowed}
use spark_signals.Schema.Point.{counter_delta, unavailable}
use spark_signals.Points.{attributed}
use spark_signals.Points.Made.{
  IsMade, AllMade, counter_delta-IsMade, unavailable-IsMade, attributed-IsMade, IsMade-mono, either,
}
use spark_signals.Nvidia.Xid.{
  XidMonitor, XidMessage, ready, event, unsupported, event_point, receive, quiet_points,
  unsupported_points, collect_xids,
}

-- A count of events at a GPU.
counted :
    (uuid : String) (value : F64)
    → IsMade 1
        (attributed "gpu.id" uuid (counter_delta "nvidia.gpu.xid.count" value "{event}" "nvml"))
unfolding metric_name_allowed attribute_name_allowed
counted uuid value =
    attributed-IsMade 0 "gpu.id" uuid (counter_delta "nvidia.gpu.xid.count" value "{event}" "nvml")
      refl (counter_delta-IsMade "nvidia.gpu.xid.count" value "{event}" "nvml" refl)

event_point-IsMade : (uuid code : String) → IsMade 24 (event_point uuid code)
unfolding event_point attribute_name_allowed
event_point-IsMade uuid code =
    let point =
      attributed "gpu.id" uuid (counter_delta "nvidia.gpu.xid.count" one_f64 "{event}" "nvml") in
    IsMade-mono 2 24 (attributed "nvidia.xid.code" code point) (omega arith)
      (attributed-IsMade 1 "nvidia.xid.code" code point refl (counted uuid one_f64))

receive-AllMade :
    (messages : List XidMessage) (monitor : XidMonitor) (gpus : BTreeSet String)
    → AllMade (receive monitor gpus messages).1.1
unfolding receive
receive-AllMade [] monitor gpus = tt
receive-AllMade (ready uuid ∷ messages) monitor gpus =
    receive-AllMade messages (record monitor { ready_gpus = insert uuid tt monitor.ready_gpus })
      gpus
receive-AllMade (unsupported uuid ∷ messages) monitor gpus =
    receive-AllMade messages
      (record monitor { unsupported_gpus = insert uuid tt monitor.unsupported_gpus }) gpus
receive-AllMade (event uuid code ∷ messages) monitor gpus =
    (event_point-IsMade uuid code, receive-AllMade messages monitor (insert uuid tt gpus))

quiet_points-AllMade : (event_gpus gpus : BTreeSet String) → AllMade (quiet_points event_gpus gpus)
unfolding quiet_points
quiet_points-AllMade event_gpus [] = tt
quiet_points-AllMade event_gpus ((uuid, unit) ∷ gpus) =
    let rest = quiet_points event_gpus gpus in
    let rest_made = quiet_points-AllMade event_gpus gpus in
    let point =
      attributed "gpu.id" uuid (counter_delta "nvidia.gpu.xid.count" zero_f64 "{event}" "nvml") in
    either AllMade (contains uuid event_gpus) rest (point ∷ rest) rest_made
      (IsMade-mono 1 24 point (omega arith) (counted uuid zero_f64), rest_made)

unsupported_points-AllMade : (gpus : BTreeSet String) → AllMade (unsupported_points gpus)
unfolding unsupported_points metric_name_allowed attribute_name_allowed
unsupported_points-AllMade [] = tt
unsupported_points-AllMade ((uuid, unit) ∷ gpus) =
    let point =
      unavailable "nvidia.gpu.xid.count" "{event}" Quality.unsupported "nvml"
        "NVML_XID_NOT_SUPPORTED" in
    (
      IsMade-mono 1 24 (attributed "gpu.id" uuid point) (omega arith) (
          attributed-IsMade 0 "gpu.id" uuid point refl (
            unavailable-IsMade "nvidia.gpu.xid.count" "{event}" Quality.unsupported "nvml"
              "NVML_XID_NOT_SUPPORTED" refl)),
      unsupported_points-AllMade gpus,
    )

pub collect_xids-AllMade :
    (monitor : XidMonitor) (messages : List XidMessage) → AllMade (collect_xids monitor messages).1
unfolding collect_xids
collect_xids-AllMade monitor messages =
    let received = receive monitor [] messages in
    let quiet = quiet_points received.1.0 received.0.ready_gpus in
    All-append (IsMade 24) (received.1.1 ++ quiet) (unsupported_points received.0.unsupported_gpus)
      (All-append (IsMade 24) received.1.1 quiet (receive-AllMade messages monitor [])
        (quiet_points-AllMade received.1.0 received.0.ready_gpus))
      (unsupported_points-AllMade received.0.unsupported_gpus)
