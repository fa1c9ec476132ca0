-- ===== src/Bridge/Instruments/Lasting.antt =====
-- The registries: what an instrument is called, that it lasts, and what is measured on it.
use spark_signals.Prelude.{
  String, ◌≡◌, refl, Bool, true, false, ◌∙◌, Option, none, some, List, [], ◌∷◌, map, Bool-cases,
  inl, inr,
}
use spark_signals.Order.{text_ord}
use spark_signals.BTreeMap.{get}
use spark_signals.Float.{F64, le, zero_f64}
use spark_signals.Schema.{MetricPoint, Envelope, InstrumentKind}
use spark_signals.Bridge.UnavailableLog.{LogRecord, quality_name, emit, observe_available}
use spark_signals.Bridge.Instruments.Recorder.{
  Instrument, Registry, Instruments, Export, measurement, log, measure, instrument_for,
  measurement_attributes, record_value, record_point,
}
use spark_signals.Bridge.Instruments.Named.{IsNamed, Serves-instrument_for}

abbrev pub registry_of : InstrumentKind → Instruments → Registry
registry_of InstrumentKind.gauge state = state.gauges
registry_of InstrumentKind.counter_delta state = state.counters
registry_of InstrumentKind.histogram_observation state = state.histograms

-- The instruments of all kinds are registered under their names.
pub record IsWellNamed (state : Instruments) : Type 0 where
  pub gauges : IsNamed state.gauges
  pub counters : IsNamed state.counters
  pub histograms : IsNamed state.histograms

-- Every instrument of one registry is in the other.
abbrev pub IsWithin : Registry → Registry → Type 0
IsWithin registry next =
    (name : String) (i : Instrument) → get name registry ≡ some i → get name next ≡ some i

-- Every instrument of `state` is still registered in `next`.
pub record Keeps (state next : Instruments) : Type 0 where
  pub gauges : IsWithin state.gauges next.gauges
  pub counters : IsWithin state.counters next.counters
  pub histograms : IsWithin state.histograms next.histograms

-- A counter takes no negative or undefined value.
abbrev pub accepted : InstrumentKind → F64 → Bool
accepted InstrumentKind.counter_delta value = le zero_f64 value
accepted InstrumentKind.gauge value = true
accepted InstrumentKind.histogram_observation value = true

-- The names and values that tell where a point comes from, and those of its own.
abbrev pub attributes_of : Envelope → MetricPoint → List (String × String)
attributes_of envelope point =
    ("host.name", envelope.node.host_name)
    ∷ ("host.id", envelope.node.id)
    ∷ ("spark.site", envelope.node.site)
    ∷ ("spark.node.id", envelope.node.id)
    ∷ ("spark.signal.boot_id", envelope.boot_id)
    ∷ ("measurement.quality", quality_name point.quality)
    ∷ ("measurement.source", point.source)
    ∷ point.attributes

-- The same instruments are registered.
pub record IsSame (state next : Instruments) : Type 0 where
  pub gauges : next.gauges ≡ state.gauges
  pub counters : next.counters ≡ state.counters
  pub histograms : next.histograms ≡ state.histograms

-- What is exported of a value, if it is accepted and if it is not.
abbrev pub IsMeasured :
    InstrumentKind
    → Bool
    → Instruments
    → Envelope
    → MetricPoint
    → F64
    → Instruments × List Export
    → Type 0
IsMeasured kind true state envelope point value (next, exports) =
    (i : Instrument) × (exports ≡ measurement kind i value (attributes_of envelope point) ∷ [])
    × (i.name ≡ point.name)
    × (get point.name (registry_of kind next) ≡ some i)
IsMeasured kind false state envelope point value (next, exports) =
    (exports ≡ []) × IsSame state next

-- What is exported of a point that may have a value.
abbrev pub IsExported :
    Option F64 → Instruments → Envelope → MetricPoint → Instruments × List Export → Type 0
IsExported (some value) state envelope point recorded =
    IsMeasured point.instrument (accepted point.instrument value) state envelope point value
      recorded
IsExported none state envelope point (next, exports) =
    ((logs : List LogRecord) × (exports ≡ map log logs)) × IsSame state next

-- What recording leaves and exports, by what it does with the value.
pub record RecordsBy (P : Instruments × List Export → Type 0) (state : Instruments)
    (recorded : Instruments × List Export) : Type 0 where
  pub named : IsWellNamed recorded.0
  pub kept : Keeps state recorded.0
  pub exported : P recorded

abbrev pub Recorded : Instruments → Envelope → MetricPoint → Instruments × List Export → Type 0
Recorded state envelope point = RecordsBy (IsExported point.value state envelope point) state

Keeps-refl : (state : Instruments) → Keeps state state
Keeps-refl state = record {
  gauges = λ name i e. e;
  counters = λ name i e. e;
  histograms = λ name i e. e;
}

measure-Recorded :
    (kind : InstrumentKind) (state : Instruments) (envelope : Envelope) (point : MetricPoint)
    (value : F64)
    → IsWellNamed state
    → RecordsBy
        (IsMeasured kind (accepted kind value) state envelope point value)
        state
        (measure kind state envelope point value)
unfolding measure measurement_attributes
measure-Recorded InstrumentKind.gauge state envelope point value w =
    let s = Serves-instrument_for state.gauges point w.gauges in
    record {
      named = record { gauges = s.named; counters = w.counters; histograms = w.histograms };
      kept = record { gauges = s.lasting; counters = λ name i e. e; histograms = λ name i e. e };
      exported = ((instrument_for state.gauges point).1, refl, s.name, s.registered);
    }
measure-Recorded InstrumentKind.counter_delta state envelope point value w =
    let s = Serves-instrument_for state.counters point w.counters in
    elim (Bool-cases (le zero_f64 value)) [
      | inl positive ↦ rw positive (record {
        named = record { gauges = w.gauges; counters = s.named; histograms = w.histograms };
        kept = record { gauges = λ name i e. e; counters = s.lasting; histograms = λ name i e. e };
        exported = ((instrument_for state.counters point).1, refl, s.name, s.registered);
      })
      | inr negative ↦ rw negative (record {
        named = w;
        kept = Keeps-refl state;
        exported = (refl, record { gauges = refl; counters = refl; histograms = refl });
      })
    ]
measure-Recorded InstrumentKind.histogram_observation state envelope point value w =
    let s = Serves-instrument_for state.histograms point w.histograms in
    record {
      named = record { gauges = w.gauges; counters = w.counters; histograms = s.named };
      kept = record { gauges = λ name i e. e; counters = λ name i e. e; histograms = s.lasting };
      exported = ((instrument_for state.histograms point).1, refl, s.name, s.registered);
    }

-- The set of logged capabilities is no registry.
IsMeasured-available :
    (kind : InstrumentKind) (b : Bool) (state available : Instruments) (envelope : Envelope)
    (point : MetricPoint) (value : F64) (recorded : Instruments × List Export)
    → IsSame state available
    → IsMeasured kind b available envelope point value recorded
    → IsMeasured kind b state envelope point value recorded
IsMeasured-available kind true state available envelope point value recorded s m = m
IsMeasured-available kind false state available envelope point value recorded s (e, t) = (
  e,
  record {
    gauges = t.gauges ∙ s.gauges;
    counters = t.counters ∙ s.counters;
    histograms = t.histograms ∙ s.histograms;
  },
)

pub record_value-Recorded :
    (state : Instruments) (envelope : Envelope) (point : MetricPoint) (value : Option F64)
    → IsWellNamed state
    → RecordsBy
        (IsExported value state envelope point)
        state
        (record_value value state envelope point)
record_value-Recorded state envelope point none w = record {
  named = record { gauges = w.gauges; counters = w.counters; histograms = w.histograms };
  kept = record { gauges = λ name i e. e; counters = λ name i e. e; histograms = λ name i e. e };
  exported = (
    ((emit state.unavailable_logs envelope point).1, refl),
    record { gauges = refl; counters = refl; histograms = refl },
  );
}
record_value-Recorded state envelope point (some value) w =
    let available = record state {
      unavailable_logs = observe_available state.unavailable_logs point;
    } in
    let named : IsWellNamed available = record {
      gauges = w.gauges;
      counters = w.counters;
      histograms = w.histograms;
    } in
    let m = measure-Recorded point.instrument available envelope point value named in
    record {
      named = m.named;
      kept = record {
        gauges = m.kept.gauges;
        counters = m.kept.counters;
        histograms = m.kept.histograms;
      };
      exported =
          IsMeasured-available point.instrument (accepted point.instrument value) state available
            envelope point value (measure point.instrument available envelope point value)
            (record { gauges = refl; counters = refl; histograms = refl }) m.exported;
    }

-- Recording a point keeps every instrument that is registered, under its name. A point with a value
-- yields exactly one measurement, of that value, on the registered instrument of its kind and name,
-- with its attributes and those of its envelope; but a negative or undefined value of a counter
-- yields nothing, and registers nothing. A point without a value yields logs alone, and registers
-- nothing.
pub record_point-Recorded :
    (state : Instruments) (envelope : Envelope) (point : MetricPoint)
    → IsWellNamed state
    → Recorded state envelope point (record_point state envelope point)
unfolding record_point
record_point-Recorded state envelope point w =
    record_value-Recorded state envelope point point.value w
