-- ===== src/Linux/Points.antt =====
-- crates/spark-linux/src/lib.rs: how the collectors make points.
use spark_signals.Prelude.{ℕ, ◌-◌, String, ◌||◌, Option, map_or, if◌then◌else◌}
use spark_signals.Float.{F64, from_u64}
use spark_signals.Text.{starts_with}
use spark_signals.Schema.{MetricPoint, Quality}
use spark_signals.Schema.Point as Point

abbrev pub gauge_source : String → String
unfolding starts_with
gauge_source name =
    if starts_with name "system.temperature"
      || starts_with name "system.disk"
      || starts_with name "system.network.link"
    then "sysfs"
    else "procfs"

-- `gauge`
unfoldable pub gauge : String → F64 → String → Quality → Option MetricPoint
gauge name value unit quality = Point.gauge name value unit quality (gauge_source name)

-- `unavailable`
unfoldable pub unavailable : String → String → Quality → String → Option MetricPoint
unavailable name unit quality code = Point.unavailable name unit quality "procfs" code

-- `MetricPoint::counter_delta` of a counter
unfoldable pub counter_delta : String → ℕ → String → String → Option MetricPoint
unfolding from_u64
counter_delta name value unit source = Point.counter_delta name (from_u64 value) unit source

-- A counter since the last collection: its delta, or that there is no earlier value.
unfoldable pub since_last : String → String → String → ℕ → Option ℕ → Option MetricPoint
unfolding unavailable counter_delta
since_last name unit source value previous =
    map_or previous (unavailable name unit Quality.stale "BASELINE_INITIALIZING")
      (λ before. counter_delta name (value - before) unit source)
