-- ===== src/Linux/Memory.antt =====
-- crates/spark-linux/src/lib.rs, `collect_memory`, `allocatable_with_swap` and `collect_pressure`.
use spark_signals.Prelude.{
  ℕ, String, Option, some, List, [], ◌∷◌, ◌++◌, map, map_or, unwrap_or, ltb, Result, ok, err,
  if◌then◌else◌,
}
use spark_signals.Prelude.Optional.{◌>>=◌, map_some}
use spark_signals.Order.{◌==◌, text_ord}
use spark_signals.BTreeMap.{BTreeMap, get}
use spark_signals.Float.{from_u64}
use spark_signals.Text.{concat}
use spark_signals.Schema.{MetricPoint, Quality}
use spark_signals.Linux.Snapshot.{World, ReadError, not_found, other, readable}
use spark_signals.Points.{Points}
use spark_signals.Linux.Points.{gauge, unavailable}
use spark_signals.Linux.Parse.{saturating_add, saturating_mul, parse_meminfo, parse_pressure}

abbrev pub memory_rows : List (String × String)
memory_rows =
    ("MemTotal", "system.memory.linux.total")
    ∷ ("MemAvailable", "system.memory.linux.available")
    ∷ ("MemFree", "system.memory.linux.free")
    ∷ ("Cached", "system.memory.cached")
    ∷ ("Buffers", "system.memory.buffers")
    ∷ ("Active", "system.memory.active")
    ∷ ("Inactive", "system.memory.inactive")
    ∷ ("Dirty", "system.memory.dirty")
    ∷ ("Writeback", "system.memory.writeback")
    ∷ ("SReclaimable", "system.memory.slab.reclaimable")
    ∷ ("SUnreclaim", "system.memory.slab.unreclaimable")
    ∷ ("SwapTotal", "system.memory.swap.total")
    ∷ ("SwapFree", "system.memory.swap.free")
    ∷ []

abbrev pub huge_page_rows : List (String × String)
huge_page_rows =
    ("HugePages_Total", "system.memory.hugepages.total")
    ∷ ("HugePages_Free", "system.memory.hugepages.free")
    ∷ ("HugePages_Rsvd", "system.memory.hugepages.reserved")
    ∷ []

-- the point of a number of bytes, or that it is missing
unfoldable pub bytes_point : String → Quality → Quality → Option ℕ → Option MetricPoint
unfolding gauge unavailable from_u64
bytes_point name missing quality found =
    map_or found (unavailable name "By" missing "MEMINFO_FIELD_MISSING")
      (λ value. gauge name (from_u64 value) "By" quality)

module _ (values : BTreeMap String ℕ) where
  -- `allocatable_with_swap`
  unfoldable pub allocatable_with_swap : Option ℕ
  unfolding get
  allocatable_with_swap = do
    memory ← get "MemAvailable" values
    let huge_pages_total = unwrap_or (get "HugePages_Total" values) 0
    let extra =
        if ltb 0 huge_pages_total
        then saturating_mul (unwrap_or (get "HugePages_Free" values) 0)
            (unwrap_or (get "Hugepagesize" values) 0)
        else unwrap_or (get "SwapFree" values) 0
    some (saturating_add memory extra)

  unfoldable pub memory_point : String × String → Option MetricPoint
  unfolding bytes_point get
  memory_point (key, name) = bytes_point name Quality.error Quality.measured (get key values)

  unfoldable pub huge_page_point : String × String → Option MetricPoint
  unfolding bytes_point get
  huge_page_point (key, name) =
      let huge_page_size = unwrap_or (get "Hugepagesize" values) 0 in
      bytes_point name Quality.unsupported Quality.derived
        (map_some (λ count. saturating_mul count huge_page_size) (get key values))

  -- `collect_memory` from the parsed file on
  unfoldable pub memory_points : Points
  unfolding memory_point huge_page_point bytes_point allocatable_with_swap get
  memory_points =
      map memory_point memory_rows
      ++ bytes_point "spark.uma.allocatable_without_swap" Quality.error Quality.derived
          (get "MemAvailable" values)
        ∷ bytes_point "spark.uma.allocatable_with_swap" Quality.error Quality.derived
            allocatable_with_swap
        ∷ map huge_page_point huge_page_rows

-- the table of `collect_pressure`, empty for another domain, which returns at once
abbrev pub pressure_names : String → List (String × String)
pressure_names domain =
    if domain == "cpu"
    then ("some", "spark.pressure.cpu.some") ∷ []
    else if domain == "memory"
    then ("some", "spark.pressure.memory.some") ∷ ("full", "spark.pressure.memory.full") ∷ []
    else if domain == "io"
    then ("some", "spark.pressure.io.some") ∷ ("full", "spark.pressure.io.full") ∷ []
    else []

abbrev pub read_failure : ReadError → Quality
read_failure not_found = Quality.unsupported
read_failure other = Quality.error

unfoldable pub pressure_point : Result String ReadError → String × String → Option MetricPoint
unfolding gauge unavailable parse_pressure get
pressure_point (ok raw) (class, name) =
    map_or (get class (parse_pressure raw)) (unavailable name "%" Quality.error "PSI_FIELD_MISSING")
      (λ value. gauge name value "%" Quality.measured)
pressure_point (err reason) (class, name) =
    unavailable name "%" (read_failure reason) "PSI_READ_FAILED"

module _ (world : World) where
  -- `collect_memory`
  unfoldable pub collect_memory : Points
  unfolding memory_points parse_meminfo
  collect_memory =
      map_or (readable (world.read_to_string "/proc/meminfo")) []
        (λ raw. memory_points (parse_meminfo raw))

  -- `collect_pressure`
  unfoldable pub collect_pressure : String → Points
  unfolding pressure_point
  collect_pressure domain =
      map (pressure_point (world.read_to_string (concat ("/proc/pressure/" ∷ domain ∷ []))))
        (pressure_names domain)
