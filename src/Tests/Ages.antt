-- ===== src/Tests/Ages.antt =====
-- The ages of collectors at a concrete history.
use spark_signals.Prelude.{ℕ, ◌-◌, ◌≡◌, List, [], ◌∷◌, some, none, refl}
use spark_signals.Float.{F64, from_u64}
use spark_signals.Schema.{MetricPoint, Quality, InstrumentKind}
use spark_signals.Agent.Ages.{observe}
use spark_signals.Agent.Ages.Since.{Observation, since, age_point, after, observe-since}

abbrev as_secs_f64 : ℕ → F64
unfolding from_u64
as_secs_f64 nanoseconds = from_u64 nanoseconds

abbrev reading : MetricPoint
reading = record {
  name = "hw.gpu.utilization";
  instrument = InstrumentKind.gauge;
  value = some (record { to_bits = 0 });
  unit = "1";
  quality = Quality.measured;
  source = "nvml";
  attributes = [];
  error_code = none;
}

-- A reading of the domain nvidia at 100, none of it at 200 and one of another domain at 250.
abbrev history : List Observation
history =
    record { now = 250; domain = "network"; points = reading ∷ [] }
    ∷ record { now = 200; domain = "nvidia"; points = [] }
    ∷ record { now = 100; domain = "nvidia"; points = reading ∷ [] }
    ∷ []

abbrev current : Observation
current = record { now = 300; domain = "nvidia"; points = [] }

observe-since_example :
    (observe as_secs_f64 300 "nvidia" [] (after as_secs_f64 10 history)).1
    ≡ some (age_point "nvidia" (as_secs_f64 (300 - since 10 (current ∷ history) "nvidia")))
observe-since_example = observe-since as_secs_f64 10 history current

since_first_reading : since 10 (current ∷ history) "nvidia" ≡ 100
since_first_reading = refl

since_start : since 10 history "storage" ≡ 10
since_start = refl
