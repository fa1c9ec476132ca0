-- ===== src/Linux/Validity.antt =====
-- That the points of the Linux collector are made.
pub mod Counters
pub mod Gauges
pub mod Batch
use spark_signals.Points.Made as Made
use spark_signals.Points.Made.{IsMade}
use spark_signals.Prelude.{
  ℕ, zero, suc, ◌+◌, ◌≤◌, String, ◌≡◌, refl, true, false, Bool, Option, none, some, List, [], ◌∷◌,
  ◌++◌, length, map, map_or, All, All-append, arith, Bool-cases, inl, inr, if◌then◌else◌,
}
use spark_signals.Prelude.Optional.{map_some, collect_all}
use spark_signals.Order.{text_ord}
use spark_signals.BTreeMap.{insert, length-insert}
use spark_signals.Float.{F64}
use spark_signals.Schema.{
  MetricPoint, Attributes, Quality, metric_name_allowed, attribute_name_allowed,
}
use spark_signals.Schema.Point as Point
use spark_signals.Linux.Points.{gauge, unavailable, counter_delta, since_last}

pub gauge-IsMade :
    (name : String) (value : F64) (unit : String) (quality : Quality)
    → metric_name_allowed name ≡ true
    → IsMade 0 (gauge name value unit quality)
unfolding gauge
gauge-IsMade name value unit quality h = Made.gauge-IsMade name value unit quality _ h

pub unavailable-IsMade :
    (name unit : String) (quality : Quality) (code : String)
    → metric_name_allowed name ≡ true
    → IsMade 0 (unavailable name unit quality code)
unfolding unavailable
unavailable-IsMade name unit quality code h = Made.unavailable-IsMade name unit quality _ code h

pub counter_delta-IsMade :
    (name : String) (value : ℕ) (unit source : String)
    → metric_name_allowed name ≡ true
    → IsMade 0 (counter_delta name value unit source)
unfolding counter_delta
counter_delta-IsMade name value unit source h = Made.counter_delta-IsMade name _ unit source h

pub since_last-IsMade :
    (name unit source : String) (value : ℕ) (previous : Option ℕ)
    → metric_name_allowed name ≡ true
    → IsMade 0 (since_last name unit source value previous)
unfolding since_last
since_last-IsMade name unit source value none h = unavailable-IsMade name unit _ _ h
since_last-IsMade name unit source value (some before) h = counter_delta-IsMade name _ unit source h
