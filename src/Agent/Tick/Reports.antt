-- ===== src/Agent/Tick/Reports.antt =====
-- The health events of the main loop that are not of the system metrics, and the inventory.
use spark_signals.Prelude.{
  ℕ, String, Bool, true, false, ◌&&◌, not, Option, none, some, List, [], ◌∷◌, Result, ok, ◌>>=◌,
  ltb, is_some_and, if◌then◌else◌,
}
use spark_signals.Order.{◌==◌, text_ord, pair_ord, list_ord}
use spark_signals.BTreeMap.{BTreeMap, get, insert, extend}
use spark_signals.Float.{F64, lt, zero_f64, half}
use spark_signals.Schema.{MetricPoint, Attributes, Signal, inventory, health_event, Severity}
use spark_signals.Agent.Publish.{from_secs}
use spark_signals.Agent.Tick.State.{Setting, Agent, TickError, publish_signal, send_alert, alert_if}

abbrev pub reconnected : Signal
reconnected = health_event Severity.info "NATS_RECONNECTED" "NATS connection was restored" []

abbrev pub events_dropped : Signal
events_dropped =
    health_event Severity.warning "EVENTS_DROPPED"
      "health events were dropped while the publication queue was full" []

abbrev pub is_xid : MetricPoint → Bool
is_xid point = point.name == "nvidia.gpu.xid.count" && is_some_and point.value (lt zero_f64)

abbrev pub xid_event : MetricPoint → Signal
xid_event point =
    health_event Severity.critical "NVIDIA_XID" "NVIDIA reported a critical Xid event"
      point.attributes

abbrev pub degraded_event : Bool → Signal
degraded_event true =
    health_event Severity.warning "COLLECTOR_DEGRADED" "one or more collectors reported errors" []
degraded_event false = health_event Severity.info "COLLECTOR_RECOVERED" "collectors recovered" []

abbrev pub service_event : String → Bool → Signal
service_event unit true =
    health_event Severity.info "SERVICE_STATE_CHANGED" "configured service became active"
      (("systemd.unit", unit) ∷ [])
service_event unit false =
    health_event Severity.error "SERVICE_STATE_CHANGED" "configured service became inactive"
      (("systemd.unit", unit) ∷ [])

-- the unit of a point that tells whether it is active, and whether it is
abbrev pub activity_of : MetricPoint → Option F64 → Option String → Option (String × Bool)
activity_of point (some value) (some unit) =
    if point.name == "spark.service.active" then some (unit, lt half value) else none
activity_of point value unit = none

abbrev pub activity : MetricPoint → Option (String × Bool)
activity point = activity_of point point.value (get "systemd.unit" point.attributes)

-- `a != b` of bools
abbrev pub differs : Bool → Bool → Bool
differs true b = not b
differs false b = b

abbrev pub changed : Option Bool → Bool → Bool
changed none active = false
changed (some old) active = differs old active

abbrev pub follow_activity :
    BTreeMap String Bool → Option (String × Bool) → BTreeMap String Bool × Option Signal
follow_activity states none = (states, none)
follow_activity states (some (unit, active)) = (
  insert unit active states,
  if changed (get unit states) active then some (service_event unit active) else none,
)

-- one round of the loop over the points of the services
unfoldable pub judge_service :
    BTreeMap String Bool → MetricPoint → BTreeMap String Bool × Option Signal
unfolding get insert lt
judge_service states point = follow_activity states (activity point)

module _ (s : Setting) where
  unfoldable pub report_dropped : ℕ → Agent s → Result (Agent s) TickError
  unfolding send_alert
  report_dropped dropped_count agent =
      if ltb agent.reported_dropped_events dropped_count
      then send_alert s events_dropped (record agent { reported_dropped_events = dropped_count })
      else ok agent

  -- `if reconnect_count > reported_reconnects { .. }`
  unfoldable pub report_reconnects : ℕ → Agent s → Result (Agent s) TickError
  unfolding send_alert report_dropped
  report_reconnects reconnect_count agent =
      if ltb agent.reported_reconnects reconnect_count
      then (do
        next ← send_alert s reconnected (record agent { reported_reconnects = reconnect_count })
        report_dropped agent.outbox.dropped next)
      else ok agent

  -- the publication of the inventory
  unfoldable pub publish_inventory : Attributes → Attributes → Agent s → Result (Agent s) TickError
  unfolding publish_signal extend
  publish_inventory host nvidia agent =
      publish_signal s "inventory" (inventory (extend host nvidia)) 0 (from_secs 120) agent

  -- `if current_nvidia_inventory != last_nvidia_inventory { .. }`
  unfoldable pub report_inventory : Attributes → Attributes → Agent s → Result (Agent s) TickError
  unfolding publish_inventory
  report_inventory host current agent =
      if current == agent.last_nvidia_inventory
      then ok agent
      else publish_inventory host current (record agent { last_nvidia_inventory = current })

  -- the loop over the points of Xids
  unfoldable pub report_xids : List MetricPoint → Agent s → Result (Agent s) TickError
  unfolding alert_if lt
  report_xids [] agent = ok agent
  report_xids (point ∷ points) agent = do
    next ← alert_if s (if is_xid point then some (xid_event point) else none) agent
    report_xids points next

  -- `if has_errors != collector_had_errors { .. }`
  unfoldable pub report_degraded : Bool → Agent s → Result (Agent s) TickError
  unfolding send_alert
  report_degraded has_errors agent =
      if differs has_errors agent.collector_had_errors
      then send_alert s (degraded_event has_errors)
          (record agent { collector_had_errors = has_errors })
      else ok agent

  unfoldable pub report_services : List MetricPoint → Agent s → Result (Agent s) TickError
  unfolding alert_if judge_service
  report_services [] agent = ok agent
  report_services (point ∷ points) agent = do
    let (states, event) = judge_service agent.service_states point
    next ← alert_if s event (record agent { service_states = states })
    report_services points next
