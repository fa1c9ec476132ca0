-- ===== src/Agent/Ages/Tracker.antt =====
-- crates/spark-agent/src/main.rs, `CollectorAges`. The time that `Instant::now` yields is an argument,
-- in nanoseconds; `Duration::as_secs_f64` is a parameter.
use spark_signals.Prelude.{
  ℕ, ◌-◌, String, Bool, true, false, ◌&&◌, Option, List, [], any, is_some, map_or, if◌then◌else◌,
}
use spark_signals.Order.{text_ord}
use spark_signals.BTreeMap.{BTreeMap, get, insert}
use spark_signals.Float.{F64}
use spark_signals.Schema.{MetricPoint, Quality}
use spark_signals.Schema.Point.{gauge}
use spark_signals.Points.{attributed}

pub record CollectorAges : Type 0 where
  pub started : ℕ
  pub last_success : BTreeMap String ℕ

-- `CollectorAges::new`
abbrev pub new_ages : ℕ → CollectorAges
new_ages now = record { started = now; last_success = [] }

-- the `matches!` of `observe`
abbrev pub is_reading : Quality → Bool
is_reading Quality.measured = true
is_reading Quality.derived = true
is_reading Quality.estimated = true
is_reading Quality.unsupported = false
is_reading Quality.error = false
is_reading Quality.stale = false

abbrev pub succeeded : List MetricPoint → Bool
succeeded points = any (λ (p : MetricPoint). is_some p.value && is_reading p.quality) points

module _ (as_secs_f64 : ℕ → F64) where
  -- `CollectorAges::observe`: `none` if the constructor of the point panics
  unfoldable pub observe :
      ℕ → String → List MetricPoint → CollectorAges → CollectorAges × Option MetricPoint
  unfolding gauge attributed
  observe now domain points ages =
      let last_success =
        if succeeded points then insert domain now ages.last_success else ages.last_success in
      let age = map_or (get domain last_success) (now - ages.started) (λ last. now - last) in
      (
        record ages { last_success = last_success },
        attributed "collector.domain" domain
            (gauge "spark.agent.collector.age" (as_secs_f64 age) "s" Quality.derived "agent"),
      )
