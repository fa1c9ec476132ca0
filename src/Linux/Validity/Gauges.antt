-- ===== src/Linux/Validity/Gauges.antt =====
-- That the points of memory, pressure, file systems and temperatures are made.
use spark_signals.Prelude.{
  ℕ, ◌+◌, ◌≤◌, String, ◌≡◌, refl, true, Option, none, some, List, [], ◌∷◌, map, All, All-append,
  arith, Result, ok, err,
}
use spark_signals.Order.{◌==◌, text_ord}
use spark_signals.BTreeMap.{BTreeMap, get}
use spark_signals.Float.{F64}
use spark_signals.Text.{concat}
use spark_signals.Schema.{MetricPoint, Quality, metric_name_allowed, attribute_name_allowed}
use spark_signals.Linux.Snapshot.{World, Statvfs, ReadError, readable}
use spark_signals.Points.{made}
use spark_signals.Linux.Parse.{parse_meminfo, parse_pressure}
use spark_signals.Linux.Memory.{
  memory_rows, huge_page_rows, bytes_point, memory_point, huge_page_point, memory_points,
  allocatable_with_swap, pressure_names, pressure_point, collect_memory, collect_pressure,
}
use spark_signals.Linux.Filesystem.{
  mount_attributes, usage_point, inodes_point, filesystem_points, collect_one_filesystem,
  collect_filesystem,
}
use spark_signals.Linux.Temperature.{
  Channel, with_limit, channel_base, limit_of, channel_point, maximum_point, highest, readings,
  temperatures_of, collect_temperatures,
}
use spark_signals.Linux.Validity.{gauge-IsMade, unavailable-IsMade}
use spark_signals.Points.Made.{
  IsMade, AllMade, attributed-IsMade, IsMade-mono, either, plain, map_or-IsMade, each-AllMade,
  map-AllMade, map_or-AllMade, made-AllMade,
}

-- A row of a table of keys and metric names.
abbrev IsNamed : String × String → Type 0
IsNamed row = metric_name_allowed row.1 ≡ true

bytes_point-IsMade :
    (name : String) (missing quality : Quality) (found : Option ℕ)
    → metric_name_allowed name ≡ true
    → IsMade 24 (bytes_point name missing quality found)
unfolding bytes_point
bytes_point-IsMade name missing quality none h = plain _ (unavailable-IsMade _ _ _ _ h)
bytes_point-IsMade name missing quality (some value) h = plain _ (gauge-IsMade _ _ _ _ h)

memory_points-AllMade : (values : BTreeMap String ℕ) → AllMade (memory_points values)
unfolding memory_points memory_point huge_page_point metric_name_allowed
memory_points-AllMade values =
    All-append (IsMade 24) (map (memory_point values) memory_rows)
      (bytes_point "spark.uma.allocatable_without_swap" Quality.error Quality.derived
          (get "MemAvailable" values)
        ∷ bytes_point "spark.uma.allocatable_with_swap" Quality.error Quality.derived
            (allocatable_with_swap values)
        ∷ map (huge_page_point values) huge_page_rows)
      (map-AllMade IsNamed (memory_point values) memory_rows
        (
          refl,
          (
            refl,
            (
              refl,
              (refl, (refl, (refl, (refl, (refl, (refl, (refl, (refl, (refl, (refl, tt)))))))))),
            ),
          ),
        )
        (λ row h. bytes_point-IsMade row.1 _ _ _ h))
      (
        bytes_point-IsMade _ _ _ _ refl,
        (
          bytes_point-IsMade _ _ _ _ refl,
          map-AllMade IsNamed (huge_page_point values) huge_page_rows (refl, (refl, (refl, tt)))
              (λ row h. bytes_point-IsMade row.1 _ _ _ h),
        ),
      )

pressure_point-IsMade :
    (text : Result String ReadError) (row : String × String)
    → IsNamed row
    → IsMade 24 (pressure_point text row)
unfolding pressure_point
pressure_point-IsMade (err reason) (class, name) h = plain _ (unavailable-IsMade _ _ _ _ h)
pressure_point-IsMade (ok raw) (class, name) h = plain _ (
    map_or-IsMade 0 (get class (parse_pressure raw)) _ _ (unavailable-IsMade _ _ _ _ h)
      (λ value. gauge-IsMade _ _ _ _ h))

pressure_names-AllNamed : (domain : String) → All IsNamed (pressure_names domain)
unfolding metric_name_allowed
pressure_names-AllNamed domain =
    either (All IsNamed) (domain == "cpu") _ _ (refl, tt)
      (either (All IsNamed) (domain == "memory") _ _ (refl, (refl, tt))
        (either (All IsNamed) (domain == "io") _ _ (refl, (refl, tt)) tt))

mount_attributes-IsMade :
    (n : ℕ) (mountpoint filesystem device : String) (point : Option MetricPoint)
    → IsMade n point
    → n ≤ 21
    → IsMade 24 (mount_attributes mountpoint filesystem device point)
unfolding mount_attributes attribute_name_allowed
mount_attributes-IsMade n mountpoint filesystem device point m le =
    attributed-IsMade 23 _ _ _ refl (
      attributed-IsMade 22 _ _ _ refl
        (attributed-IsMade 21 _ _ _ refl (IsMade-mono n 21 point le m)))

filesystem_points-AllMade :
    (mountpoint filesystem device : String) (stats : Statvfs)
    → AllMade (filesystem_points mountpoint filesystem device stats)
unfolding filesystem_points usage_point inodes_point metric_name_allowed attribute_name_allowed
filesystem_points-AllMade mountpoint filesystem device stats =
    let at = mount_attributes-IsMade 0 mountpoint filesystem device in
    let with_state = λ (state : String) (point : Option MetricPoint) (m : IsMade 0 point).
      mount_attributes-IsMade 1 mountpoint filesystem device _
        (attributed-IsMade 0 "state" state point refl m) (omega arith) in
    (
      at _ (gauge-IsMade _ _ _ _ refl) (omega arith),
      (
        with_state _ _ (gauge-IsMade _ _ _ _ refl),
        (
          with_state _ _ (gauge-IsMade _ _ _ _ refl),
          (
            with_state _ _ (gauge-IsMade _ _ _ _ refl),
            (
              with_state _ _ (gauge-IsMade _ _ _ _ refl),
              (
                with_state _ _ (gauge-IsMade _ _ _ _ refl),
                (at _ (gauge-IsMade _ _ _ _ refl) (omega arith), tt),
              ),
            ),
          ),
        ),
      ),
    )

module _ (world : World) where
  pub collect_memory-AllMade : AllMade (collect_memory world)
  unfolding collect_memory
  collect_memory-AllMade =
      map_or-AllMade (readable (world.read_to_string "/proc/meminfo"))
        (λ raw. memory_points (parse_meminfo raw))
        (λ raw. memory_points-AllMade (parse_meminfo raw))

  pub collect_pressure-AllMade : (domain : String) → AllMade (collect_pressure world domain)
  unfolding collect_pressure
  collect_pressure-AllMade domain =
      let text = world.read_to_string (concat ("/proc/pressure/" ∷ domain ∷ [])) in
      map-AllMade IsNamed (pressure_point text) (pressure_names domain)
        (pressure_names-AllNamed domain) (pressure_point-IsMade text)

  collect_one-AllMade :
      (mount : String × (String × String)) → AllMade (collect_one_filesystem world mount)
  unfolding collect_one_filesystem
  collect_one-AllMade (mountpoint, (filesystem, device)) =
      map_or-AllMade (world.statvfs mountpoint) (filesystem_points mountpoint filesystem device)
        (filesystem_points-AllMade mountpoint filesystem device)

  pub collect_filesystem-AllMade : AllMade (collect_filesystem world)
  unfolding collect_filesystem
  collect_filesystem-AllMade = each-AllMade (collect_one_filesystem world) _ collect_one-AllMade

module _ (to_string : F64 → String) (world : World) where
  with_limit-IsMade :
      (n : ℕ) (attribute : String) (limit : Option F64) (point : Option MetricPoint)
      → attribute_name_allowed attribute ≡ true
      → IsMade n point
      → IsMade (n + 1) (with_limit to_string attribute limit point)
  unfolding with_limit
  with_limit-IsMade n attribute none point h m = IsMade-mono n (n + 1) point (omega arith) m
  with_limit-IsMade n attribute (some limit) point h m =
      IsMade-mono _ (n + 1) _ (omega arith) (attributed-IsMade n attribute _ point h m)

  channel_base-IsMade : (c : Channel) → IsMade 2 (channel_base world c)
  unfolding channel_base metric_name_allowed attribute_name_allowed
  channel_base-IsMade c =
      attributed-IsMade 1 _ _ _ refl (attributed-IsMade 0 _ _ _ refl (gauge-IsMade _ _ _ _ refl))

  channel_point-IsMade : (c : Channel) → IsMade 24 (channel_point to_string world c)
  unfolding channel_point attribute_name_allowed
  channel_point-IsMade c =
      let bounded =
        with_limit to_string "temperature.limit.max_celsius" (limit_of world c "max")
          (channel_base world c) in
      IsMade-mono 4 24 _ (omega arith) (
        with_limit-IsMade 3 "temperature.limit.critical_celsius" (limit_of world c "crit") bounded
          refl
          (with_limit-IsMade 2 "temperature.limit.max_celsius" (limit_of world c "max")
            (channel_base world c) refl (channel_base-IsMade c)))

  maximum_point-IsMade : (value : F64) → IsMade 24 (maximum_point value)
  unfolding maximum_point metric_name_allowed attribute_name_allowed
  maximum_point-IsMade value =
      IsMade-mono 1 24 _ (omega arith) (attributed-IsMade 0 _ _ _ refl (gauge-IsMade _ _ _ _ refl))

  map_channels-AllMade : (cs : List Channel) → AllMade (map (channel_point to_string world) cs)
  map_channels-AllMade [] = tt
  map_channels-AllMade (c ∷ cs) = (channel_point-IsMade c, map_channels-AllMade cs)

  temperatures_of-AllMade :
      (entries : List String) → AllMade (temperatures_of to_string world entries)
  unfolding temperatures_of
  temperatures_of-AllMade entries =
      let all = readings world entries in
      let maximum = highest none (map (λ (c : Channel). c.value) all) in
      All-append (IsMade 24) (map (channel_point to_string world) all) (made maximum_point maximum)
        (map_channels-AllMade all) (made-AllMade maximum_point maximum maximum_point-IsMade)

  pub collect_temperatures-AllMade : AllMade (collect_temperatures to_string world)
  unfolding collect_temperatures
  collect_temperatures-AllMade =
      map_or-AllMade (world.read_dir "/sys/class/hwmon") (temperatures_of to_string world)
        temperatures_of-AllMade
