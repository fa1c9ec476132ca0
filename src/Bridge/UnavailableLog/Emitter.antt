-- ===== src/Bridge/UnavailableLog/Emitter.antt =====
-- `UnavailableLogEmitter`. What it emits is returned: the OTEL logger receives it and nothing else.
use Prim.Native.Char.{code}
use Prim.Native.String.{len}
use spark_signals.Prelude.{
  ℕ, ◌-◌, ◌^◌, ◌≡◌, String, Bool, not, ◌&&◌, ◌||◌, Option, none, some, List, [], ◌∷◌, ◌++◌, map,
  any, keep, leb, ltb, if◌then◌else◌, map_or,
}
use spark_signals.Order.{Ord, ord_by, ◌==◌, text_ord, nat_ord, pair_ord, list_ord}
use spark_signals.BTreeMap.{BTreeSet, contains, insert, remove}
use spark_signals.Text.{
  is_empty, all_bytes, is_ascii_uppercase, is_ascii_digit, is_ascii_alphanumeric,
}
use spark_signals.Schema.{
  MetricPoint, Envelope, Attributes, Quality, quality_ord, measured, derived, estimated,
  unsupported, stale, metric_name_allowed, attribute_name_allowed, max_attribute_value_bytes,
}

pub record UnavailableCapabilityKey : Type 0 where
  pub metric : String
  pub source : String
  pub attributes : Attributes

abbrev fields : UnavailableCapabilityKey → String × (String × Attributes)
fields k = (k.metric, (k.source, k.attributes))

pub fields-injective : (a b : UnavailableCapabilityKey) → fields a ≡ fields b → a ≡ b
fields-injective a b h =
    λ i. record { metric = (h i).0; source = (h i).1.0; attributes = (h i).1.1 }

instance abbrev pub capability_key_ord : Ord UnavailableCapabilityKey
capability_key_ord = ord_by fields fields-injective

abbrev pub capability_key : MetricPoint → UnavailableCapabilityKey
capability_key point = record {
  metric = point.name;
  source = point.source;
  attributes = point.attributes;
}

-- `OtelSeverity`
pub data LogSeverity : Type 0 where
  info warn error : LogSeverity

-- `AnyValue`
pub data AnyValue : Type 0 where
  text : String → AnyValue
  int : ℕ → AnyValue

pub record UnavailableLog : Type 0 where
  pub severity : LogSeverity
  pub severity_text : String
  pub attributes : List (String × AnyValue)

-- the patterns of the `matches!`
abbrev pub known_sources : List String
known_sources =
    "agent" ∷ "cgroupfs" ∷ "config" ∷ "http" ∷ "nvidia-smi" ∷ "nvml" ∷ "procfs" ∷ "prometheus"
    ∷ "sysfs" ∷ "systemd" ∷ []

unfoldable pub source_allowed : String → Bool
source_allowed source = any (λ known. known == source) known_sources

abbrev is_identifier_byte : ℕ → Bool
is_identifier_byte byte =
    is_ascii_alphanumeric byte || byte == b'.' || byte == b'_' || byte == b'-' || byte == b':'

unfoldable pub safe_identifier : String → Bool
unfolding all_bytes
safe_identifier value =
    not (is_empty value)
    && leb (len value) max_attribute_value_bytes
    && all_bytes is_identifier_byte value

abbrev pub quality_name : Quality → String
quality_name measured = "measured"
quality_name derived = "derived"
quality_name estimated = "estimated"
quality_name unsupported = "unsupported"
quality_name Quality.error = "error"
quality_name stale = "stale"

abbrev is_code_byte : ℕ → Bool
is_code_byte byte = is_ascii_uppercase byte || is_ascii_digit byte || byte == b'_'

-- the filter on the error code
unfoldable pub code_allowed : String → Bool
unfolding all_bytes
code_allowed code =
    not (is_empty code) && leb (len code) max_attribute_value_bytes && all_bytes is_code_byte code

abbrev pub error_code : MetricPoint → Option String
error_code point =
    map_or point.error_code none (λ code. if code_allowed code then some code else none)

abbrev pub severity_of : Quality → LogSeverity × String
severity_of unsupported = (LogSeverity.info, "INFO")
severity_of Quality.error = (LogSeverity.error, "ERROR")
severity_of stale = (LogSeverity.warn, "WARN")
severity_of measured = (LogSeverity.warn, "WARN")
severity_of derived = (LogSeverity.warn, "WARN")
severity_of estimated = (LogSeverity.warn, "WARN")

-- `i64::try_from(value).unwrap_or(i64::MAX)`
abbrev pub as_i64 : ℕ → ℕ
as_i64 value = if ltb value (2 ^ 63) then value else 2 ^ 63 - 1

-- the tests of `convert` that return `None`
unfoldable pub convertible : Envelope → MetricPoint → Bool
convertible envelope point =
    metric_name_allowed point.name
    && source_allowed point.source
    && safe_identifier envelope.node.site
    && safe_identifier envelope.node.id
    && safe_identifier envelope.node.host_name
    && safe_identifier envelope.boot_id

-- the filter on the attributes of the point
abbrev pub attribute_kept : String × String → Bool
attribute_kept e =
    attribute_name_allowed e.0 && not (is_empty e.1) && leb (len e.1) max_attribute_value_bytes

abbrev pub log_attributes : Envelope → MetricPoint → String → List (String × AnyValue)
log_attributes envelope point code =
    (("metric.name", text point.name)
      ∷ ("measurement.quality", text (quality_name point.quality))
      ∷ ("measurement.source", text point.source)
      ∷ ("error.code", text code)
      ∷ ("host.name", text envelope.node.host_name)
      ∷ ("host.id", text envelope.node.id)
      ∷ ("spark.site", text envelope.node.site)
      ∷ ("spark.node.id", text envelope.node.id)
      ∷ ("spark.signal.boot_id", text envelope.boot_id)
      ∷ ("spark.signal.sequence", int (as_i64 envelope.sequence))
      ∷ [])
    ++ map (λ e. (e.0, text e.1)) (keep attribute_kept point.attributes)

abbrev pub with_code : Envelope → MetricPoint → Option String → Option UnavailableLog
with_code envelope point none = none
with_code envelope point (some code) =
    let (severity, severity_text) = severity_of point.quality in
    some (record {
      severity = severity;
      severity_text = severity_text;
      attributes = log_attributes envelope point code;
    })

unfoldable pub convert : Envelope → MetricPoint → Option UnavailableLog
convert envelope point =
    if convertible envelope point then with_code envelope point (error_code point) else none

-- the record that the logger receives
pub record LogRecord : Type 0 where
  pub event_name : String
  pub target : String
  pub severity : LogSeverity
  pub severity_text : String
  pub body : String
  pub attributes : List (String × AnyValue)

abbrev pub record_of : UnavailableLog → LogRecord
record_of log = record {
  event_name = "spark.metric.unavailable";
  target = "spark-otel-bridge";
  severity = log.severity;
  severity_text = log.severity_text;
  body = "metric unavailable";
  attributes = log.attributes;
}

abbrev pub emit_log : Option UnavailableLog → List LogRecord
emit_log none = []
emit_log (some log) = record_of log ∷ []

pub record UnavailableLogEmitter : Type 0 where
  pub unsupported_capabilities : BTreeSet UnavailableCapabilityKey

-- `UnavailableLogEmitter::emit`: the insertion happens for an unsupported point only, and tells
-- whether the capability is new.
unfoldable pub emit :
    UnavailableLogEmitter → Envelope → MetricPoint → UnavailableLogEmitter × List LogRecord
emit emitter envelope point =
    let key = capability_key point in
    if point.quality == unsupported
    then (
      record { unsupported_capabilities = insert key tt emitter.unsupported_capabilities },
      if contains key emitter.unsupported_capabilities
          then []
          else emit_log (convert envelope point),
    )
    else (emitter, emit_log (convert envelope point))

-- `UnavailableLogEmitter::observe_available`
unfoldable pub observe_available : UnavailableLogEmitter → MetricPoint → UnavailableLogEmitter
observe_available emitter point = record {
  unsupported_capabilities = remove (capability_key point) emitter.unsupported_capabilities;
}
