-- ===== src/Agent/Events/Detection.antt =====
-- `detect_system_events`. The parser of decimal numbers (`str::parse::<f64>`), JSON encoding, the
-- clock and the queue are parameters.
use spark_signals.Prelude.{
  ℕ, zero, suc, String, Bool, ◌&&◌, ◌||◌, not, Option, none, some, List, [], ◌∷◌, Result, ok, ◌>>=◌,
  if◌then◌else◌, is_some, is_some_and, unwrap_or, map_or, eqb,
}
use spark_signals.Order.{◌==◌, text_ord, nat_ord, option_ord}
use spark_signals.BTreeMap.{BTreeMap, get, insert}
use spark_signals.Float.{F64, lt, le, half, zero_f64}
use spark_signals.Text.{concat}
use spark_signals.Schema.{
  MetricPoint, Envelope, quality_ord, measured, Signal, health_event, Severity,
}
use spark_signals.Agent.Publish.{
  EnvelopeFactory, Reading, build, from_secs, PublishError, Queue, Outbox, send_event,
}

-- the tuple of a point that is watched: 0 is the good level
pub record Transition : Type 0 where
  pub key : String
  pub level : ℕ
  pub bad_code : String
  pub good_code : String
  pub bad_message : String
  pub good_message : String

abbrev pub attribute : MetricPoint → String → String
attribute point name = unwrap_or (get name point.attributes) ""

abbrev link_transition : MetricPoint → F64 → Transition
link_transition point value = record {
  key = concat ("network:" ∷ attribute point "network.interface.name" ∷ []);
  level = if lt value half then 1 else 0;
  bad_code = "NETWORK_CARRIER_LOST";
  good_code = "NETWORK_CARRIER_RESTORED";
  bad_message = "physical network carrier was lost";
  good_message = "physical network carrier was restored";
}

abbrev mount_transition : MetricPoint → F64 → Transition
mount_transition point value = record {
  key = concat ("filesystem:" ∷ attribute point "mountpoint" ∷ []);
  level = if lt half value then 2 else 0;
  bad_code = "FILESYSTEM_READ_ONLY";
  good_code = "FILESYSTEM_WRITABLE";
  bad_message = "filesystem became read-only";
  good_message = "filesystem is writable again";
}

module _ (parse : String → Option F64) where
  -- the limit that an attribute states, if it can be read
  abbrev pub limit : MetricPoint → String → Option F64
  limit point name = map_or (get name point.attributes) none parse

  abbrev pub thermal_level : MetricPoint → F64 → ℕ
  thermal_level point value =
      if is_some_and (limit point "temperature.limit.critical_celsius") (λ l. le l value)
      then 2
      else if is_some_and (limit point "temperature.limit.max_celsius") (λ l. le l value)
      then 1
      else 0

  abbrev temperature_transition : MetricPoint → F64 → Transition
  temperature_transition point value =
      let level = thermal_level point value in
      record {
        key =
            concat
              ("temperature:" ∷ attribute point "sensor" ∷ ":" ∷ attribute point "channel" ∷ []);
        level = level;
        bad_code = if eqb level 2 then "THERMAL_CRITICAL" else "THERMAL_WARNING";
        good_code = "THERMAL_RECOVERED";
        bad_message =
            if eqb level 2
            then "temperature reached its critical limit"
            else "temperature reached its maximum limit";
        good_message = "temperature returned below its configured limits";
      }

  unfoldable pub transition : MetricPoint → F64 → Option Transition
  transition point value =
      if point.name == "system.network.link.up"
      then some (link_transition point value)
      else if point.name == "system.filesystem.read_only"
      then some (mount_transition point value)
      else if point.name == "system.temperature" && point.quality == measured
      then some (temperature_transition point value)
      else none

  abbrev pub severity_of : ℕ → Severity
  severity_of zero = Severity.info
  severity_of (suc zero) = Severity.warning
  severity_of (suc (suc n)) = Severity.critical

  -- the event of a transition
  abbrev pub alert : MetricPoint → Transition → Signal
  alert point t =
      health_event (severity_of t.level) (if eqb t.level 0 then t.good_code else t.bad_code)
        (if eqb t.level 0 then t.good_message else t.bad_message) point.attributes

  abbrev pub oom_alert : MetricPoint → Signal
  oom_alert point =
      health_event Severity.critical "MEMORY_OOM_KILL" "one or more OOM kills were observed"
        point.attributes

  abbrev pub is_oom_kill : MetricPoint → F64 → Bool
  is_oom_kill point value = point.name == "system.memory.oom_kills" && lt zero_f64 value

  abbrev pub follow :
      BTreeMap String ℕ → MetricPoint → Option Transition → BTreeMap String ℕ × Option Signal
  follow states point none = (states, none)
  follow states point (some t) =
      let previous = get t.key states in
      (
        insert t.key t.level states,
        if previous == some t.level || not (is_some previous) && eqb t.level 0
            then none
            else some (alert point t),
      )

  abbrev pub judge_value :
      BTreeMap String ℕ → MetricPoint → Option F64 → BTreeMap String ℕ × Option Signal
  judge_value states point none = (states, none)
  judge_value states point (some value) =
      if is_oom_kill point value
      then (states, some (oom_alert point))
      else follow states point (transition point value)

  -- one round of the loop: the levels after it, and the event that it sends
  unfoldable pub judge : BTreeMap String ℕ → MetricPoint → BTreeMap String ℕ × Option Signal
  judge states point = judge_value states point point.value

  module _ (to_vec : Envelope → Option (List ℕ)) (queue : Queue) (clock : ℕ → Reading)
      (site node : String) (stdout publish : Bool) where
    -- what the loop changes: the levels, the outbox and the factory
    pub record Detector : Type 0 where
      pub states : BTreeMap String ℕ
      pub outbox : Outbox to_vec queue
      pub factory : EnvelopeFactory

    unfoldable pub raise : Detector → Option Signal → Result Detector PublishError
    raise detector none = ok detector
    raise detector (some signal) = do
      let (factory, envelope) = build clock detector.factory signal 0 (from_secs 60)
      outbox ← send_event to_vec queue detector.outbox site node envelope stdout publish
      ok (record detector { outbox = outbox; factory = factory })

    unfoldable pub detect_system_events : Detector → List MetricPoint → Result Detector PublishError
    detect_system_events detector [] = ok detector
    detect_system_events detector (point ∷ points) = do
      let (states, event) = judge detector.states point
      next ← raise (record detector { states = states }) event
      detect_system_events next points
