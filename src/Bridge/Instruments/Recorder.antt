-- ===== src/Bridge/Instruments/Recorder.antt =====
-- `Instruments::record`. An instrument is what it was built from, its name and its unit, and the
-- calls of the OTEL library are returned in their order.
use spark_signals.Prelude.{String, Option, none, some, List, [], ◌∷◌, ◌++◌, map, if◌then◌else◌}
use spark_signals.Order.{text_ord}
use spark_signals.BTreeMap.{BTreeMap, get, insert}
use spark_signals.Float.{F64, le, zero_f64}
use spark_signals.Schema.{MetricPoint, Envelope, InstrumentKind}
use spark_signals.Bridge.UnavailableLog.{
  LogRecord, UnavailableLogEmitter, emit, observe_available, quality_name,
}

-- `Gauge`, `Counter`, `Histogram`
pub record Instrument : Type 0 where
  pub name : String
  pub unit : String

abbrev pub Registry : Type 0
Registry = BTreeMap String Instrument

pub record Instruments : Type 0 where
  pub unavailable_logs : UnavailableLogEmitter
  pub gauges : Registry
  pub counters : Registry
  pub histograms : Registry

-- `Instruments::new`
abbrev pub new : Instruments
new = record {
  unavailable_logs = record { unsupported_capabilities = [] };
  gauges = [];
  counters = [];
  histograms = [];
}

-- what is exported: a measurement on an instrument of a kind, or a log record
pub data Export : Type 0 where
  measurement :
      (kind : InstrumentKind)
      → (instrument : Instrument) → (value : F64) → (attributes : List (String × String)) → Export
  log : (entry : LogRecord) → Export

abbrev pub built_from : MetricPoint → Instrument
built_from point = record { name = point.name; unit = point.unit }

abbrev or_insert : Option Instrument → Registry → MetricPoint → Registry × Instrument
or_insert (some instrument) registry point = (registry, instrument)
or_insert none registry point = (insert point.name (built_from point) registry, built_from point)

-- `registry.entry(name).or_insert_with(build)`
unfoldable pub instrument_for : Registry → MetricPoint → Registry × Instrument
instrument_for registry point = or_insert (get point.name registry) registry point

unfoldable pub measurement_attributes : Envelope → MetricPoint → List (String × String)
measurement_attributes envelope point =
    (("host.name", envelope.node.host_name)
      ∷ ("host.id", envelope.node.id)
      ∷ ("spark.site", envelope.node.site)
      ∷ ("spark.node.id", envelope.node.id)
      ∷ ("spark.signal.boot_id", envelope.boot_id)
      ∷ ("measurement.quality", quality_name point.quality)
      ∷ ("measurement.source", point.source)
      ∷ [])
    ++ point.attributes

-- the `match point.instrument`
unfoldable pub measure :
    InstrumentKind → Instruments → Envelope → MetricPoint → F64 → Instruments × List Export
measure InstrumentKind.gauge state envelope point value =
    let (registry, instrument) = instrument_for state.gauges point in
    (
      record state { gauges = registry },
      measurement InstrumentKind.gauge instrument value (measurement_attributes envelope point)
          ∷ [],
    )
measure InstrumentKind.counter_delta state envelope point value =
    let (registry, instrument) = instrument_for state.counters point in
    if le zero_f64 value
    then (
      record state { counters = registry },
      measurement InstrumentKind.counter_delta instrument value
            (measurement_attributes envelope point)
          ∷ [],
    )
    else (state, [])
measure InstrumentKind.histogram_observation state envelope point value =
    let (registry, instrument) = instrument_for state.histograms point in
    (
      record state { histograms = registry },
      measurement InstrumentKind.histogram_observation instrument value
            (measurement_attributes envelope point)
          ∷ [],
    )

abbrev pub record_value :
    Option F64 → Instruments → Envelope → MetricPoint → Instruments × List Export
record_value none state envelope point =
    let (emitter, logs) = emit state.unavailable_logs envelope point in
    (record state { unavailable_logs = emitter }, map log logs)
record_value (some value) state envelope point =
    let available = record state {
      unavailable_logs = observe_available state.unavailable_logs point;
    } in
    measure point.instrument available envelope point value

-- `Instruments::record`
unfoldable pub record_point : Instruments → Envelope → MetricPoint → Instruments × List Export
record_point state envelope point = record_value point.value state envelope point

-- the loop over the points of a batch
unfoldable pub record_points : Instruments → Envelope → List MetricPoint → Instruments × List Export
record_points state envelope [] = (state, [])
record_points state envelope (point ∷ points) =
    let (next, exports) = record_point state envelope point in
    let (last, rest) = record_points next envelope points in (last, exports ++ rest)
