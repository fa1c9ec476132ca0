-- ===== src/Bridge/Receive/Loop.antt =====
-- One round of the receive loop. JSON decoding (`serde_json::from_slice`) and encoding
-- (`serde_json::to_string`) are parameters; the tracing library turns an event into a log.
use spark_signals.Prelude.{
  ℕ, String, Bool, Option, none, some, List, [], ◌∷◌, ◌++◌, map, Result, ok, err, if◌then◌else◌,
  unwrap_or,
}
use spark_signals.Schema.{
  Envelope, Attributes, Signal, metric_batch, inventory, agent_status, health_event, Severity,
  DecodeError, decode_v1,
}
use spark_signals.Bridge.Instruments.{Instruments, Export, record_points}
use spark_signals.Text.{starts_with}

pub data Level : Type 0 where
  info warn error : Level

-- the fields of a health event
pub record HealthLog : Type 0 where
  pub level : Level
  pub code : String
  pub domain : String
  pub severity : Option Severity
  pub attributes : String
  pub host_name : String
  pub host_id : String
  pub node_id : String
  pub boot_id : String
  pub sequence : ℕ
  pub observed_at : String
  pub message : String

pub data Effect : Type 0 where
  export : (export : Export) → Effect
  health : (log : HealthLog) → Effect
  inventory_received : (host_name node_id attributes : String) → Effect
  status_received : (host_name node_id : String) → (online : Bool) → (version : String) → Effect
  discarded : (reason : DecodeError) → Effect

unfoldable pub event_domain : String → String
event_domain code =
    if starts_with code "NVIDIA_"
    then "nvidia"
    else if starts_with code "SERVICE_"
    then "service"
    else if starts_with code "NATS_"
    then "nats"
    else "agent"

abbrev pub level_of : Severity → Level
level_of Severity.info = info
level_of Severity.warning = warn
level_of Severity.error = error
level_of Severity.critical = error

-- the field `event.severity`, which the error level alone has
abbrev pub shown_severity : Severity → Option Severity
shown_severity Severity.info = none
shown_severity Severity.warning = none
shown_severity Severity.error = some Severity.error
shown_severity Severity.critical = some Severity.critical

module _ (from_slice : List ℕ → Option Envelope) (to_string : Attributes → Option String) where
  unfoldable pub emit_health : Envelope → Severity → String → String → Attributes → HealthLog
  emit_health envelope severity code message attributes = record {
    level = level_of severity;
    code = code;
    domain = event_domain code;
    severity = shown_severity severity;
    attributes = unwrap_or (to_string attributes) "";
    host_name = envelope.node.host_name;
    host_id = envelope.node.id;
    node_id = envelope.node.id;
    boot_id = envelope.boot_id;
    sequence = envelope.sequence;
    observed_at = envelope.observed_at;
    message = message;
  }

  -- the `match &envelope.signal`
  abbrev pub dispatch : Signal → Instruments → Envelope → Instruments × List Effect
  dispatch (metric_batch points) state envelope =
      let (next, exports) = record_points state envelope points in (next, map export exports)
  dispatch (health_event severity code message attributes) state envelope =
      (state, health (emit_health envelope severity code message attributes) ∷ [])
  dispatch (inventory attributes) state envelope = (
    state,
    inventory_received envelope.node.host_name envelope.node.id
          (unwrap_or (to_string attributes) "")
        ∷ [],
  )
  dispatch (agent_status online version) state envelope =
      (state, status_received envelope.node.host_name envelope.node.id online version ∷ [])

  abbrev pub handle : Result Envelope DecodeError → Instruments → Instruments × List Effect
  handle (ok envelope) state = dispatch envelope.signal state envelope
  handle (err reason) state = (state, discarded reason ∷ [])

  -- one message
  unfoldable pub receive : Instruments → List ℕ → Instruments × List Effect
  receive state payload = handle (decode_v1 from_slice payload) state

  unfoldable pub receive_all : Instruments → List (List ℕ) → Instruments × List Effect
  receive_all state [] = (state, [])
  receive_all state (payload ∷ payloads) =
      let (next, effects) = receive state payload in
      let (last, rest) = receive_all next payloads in (last, effects ++ rest)
