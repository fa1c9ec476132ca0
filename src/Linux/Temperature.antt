-- ===== src/Linux/Temperature.antt =====
-- crates/spark-linux/src/lib.rs, `collect_temperatures`. The printing of an `f64` is a parameter.
use spark_signals.Prelude.{String, Option, none, some, List, [], ◌∷◌, ◌++◌, map, map_or, unwrap_or}
use spark_signals.Prelude.Optional.{◌>>=◌, map_some, filter_map}
use spark_signals.Float.{F64, from_u64}
use spark_signals.Float.Arithmetic.{div, max_f64}
use spark_signals.Float.Parse.{parse_f64}
use spark_signals.Text.{strip_prefix, concat}
use spark_signals.Text.Split.{strip_suffix}
use spark_signals.Schema.{MetricPoint, Quality}
use spark_signals.Linux.Snapshot.{World, join, read_trimmed}
use spark_signals.Points.{Points, attributed, made}
use spark_signals.Linux.Points.{gauge}

-- a channel of a sensor that was read: the sensor's directory and name, the number and the value
pub record Channel : Type 0 where
  pub path : String
  pub name : String
  pub id : String
  pub value : F64

-- `maximum.map_or(value, |old| old.max(value))`, value after value
unfoldable pub highest : Option F64 → List F64 → Option F64
unfolding max_f64
highest maximum [] = maximum
highest maximum (value ∷ values) =
    highest (some (map_or maximum value (λ old. max_f64 old value))) values

unfoldable pub maximum_point : F64 → Option MetricPoint
unfolding gauge attributed
maximum_point value =
    attributed "aggregation" "maximum" (gauge "system.temperature" value "Cel" Quality.derived)

module _ (to_string : F64 → String) where
  unfoldable pub with_limit : String → Option F64 → Option MetricPoint → Option MetricPoint
  unfolding attributed
  with_limit attribute none point = point
  with_limit attribute (some limit) point = attributed attribute (to_string limit) point

module _ (world : World) where
  -- a file in thousandths of a degree
  unfoldable pub milli_celsius : String → Option F64
  unfolding read_trimmed parse_f64 div from_u64
  milli_celsius path =
      map_some (λ milli. div milli (from_u64 1000)) (read_trimmed world path >>= parse_f64)

  -- the number of a channel's file
  unfoldable pub channel_id : String → Option String
  unfolding strip_prefix strip_suffix
  channel_id filename = strip_prefix filename "temp" >>= λ v. strip_suffix v "_input"

  -- the point of a channel of a sensor, before its limits
  unfoldable pub channel_base : Channel → Option MetricPoint
  unfolding gauge attributed read_trimmed
  channel_base c =
      let label =
        unwrap_or (read_trimmed world (join c.path (concat ("temp" ∷ c.id ∷ "_label" ∷ []))))
          (concat ("temp" ∷ c.id ∷ [])) in
      attributed "channel" label
        (attributed "sensor" c.name (gauge "system.temperature" c.value "Cel" Quality.measured))

  unfoldable pub limit_of : Channel → String → Option F64
  unfolding milli_celsius
  limit_of c suffix = milli_celsius (join c.path (concat ("temp" ∷ c.id ∷ "_" ∷ suffix ∷ [])))

  -- the reading of a channel's file, if it is one
  unfoldable pub channel_reading : String → String → Option (String × F64)
  unfolding channel_id milli_celsius
  channel_reading path filename = do
    id ← channel_id filename
    value ← milli_celsius (join path filename)
    some (id, value)

  -- the readings of a sensor
  unfoldable pub sensor_readings : String → List Channel
  unfolding channel_reading read_trimmed
  sensor_readings entry =
      let path = join "/sys/class/hwmon" entry in
      let name = unwrap_or (read_trimmed world (join path "name")) entry in
      map_or (world.read_dir path) [] (
        filter_map (λ filename.
          map_some
            (λ reading. record { path = path; name = name; id = reading.0; value = reading.1 })
            (channel_reading path filename)))

  -- both loops: the readings of all sensors, in order
  unfoldable pub readings : List String → List Channel
  unfolding sensor_readings
  readings [] = []
  readings (entry ∷ entries) = sensor_readings entry ++ readings entries

module _ (to_string : F64 → String) (world : World) where
  -- the point of a channel of a sensor
  unfoldable pub channel_point : Channel → Option MetricPoint
  unfolding channel_base limit_of with_limit
  channel_point c =
      with_limit to_string "temperature.limit.critical_celsius" (limit_of world c "crit") (
        with_limit to_string "temperature.limit.max_celsius" (limit_of world c "max")
          (channel_base world c))

  unfoldable pub temperatures_of : List String → Points
  unfolding readings channel_point highest maximum_point
  temperatures_of entries =
      let all = readings world entries in
      map channel_point all
      ++ made maximum_point (highest none (map (λ (c : Channel). c.value) all))

  -- `collect_temperatures`
  unfoldable pub collect_temperatures : Points
  unfolding temperatures_of
  collect_temperatures = map_or (world.read_dir "/sys/class/hwmon") [] temperatures_of
