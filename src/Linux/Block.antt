-- ===== src/Linux/Block.antt =====
-- crates/spark-linux/src/lib.rs, `collect_block`.
use spark_signals.Prelude.{
  ℕ, String, Bool, ◌||◌, Option, none, some, List, [], ◌∷◌, map, if◌then◌else◌,
}
use spark_signals.Prelude.Optional.{◌>>=◌, map_some, filter_map}
use spark_signals.Order.{text_ord}
use spark_signals.BTreeMap.{collect_map, BTreeMap, get}
use spark_signals.Text.{starts_with}
use spark_signals.Schema.{MetricPoint}
use spark_signals.Linux.Snapshot.{World, join, read_trimmed}
use spark_signals.Points.{Points, attributed, each}
use spark_signals.Linux.Points.{since_last}
use spark_signals.Linux.Parse.{BlockCounters, parse_block, saturating_mul}
use spark_signals.Linux.State.{SystemCollector}

-- a row of the table of `collect_block`, its value a function of the counters
pub record BlockRow : Type 0 where
  pub name : String
  pub direction : String
  pub counter : BlockCounters → ℕ
  pub unit : String

abbrev block_row : String → String → (BlockCounters → ℕ) → String → BlockRow
block_row name direction counter unit = record {
  name = name;
  direction = direction;
  counter = counter;
  unit = unit;
}

abbrev pub block_rows : List BlockRow
block_rows =
    block_row "system.disk.io" "read" (λ v. saturating_mul v.sectors_read 512) "By"
    ∷ block_row "system.disk.io" "write" (λ v. saturating_mul v.sectors_written 512) "By"
    ∷ block_row "system.disk.operation.count" "read" (λ v. v.reads) "{operation}"
    ∷ block_row "system.disk.operation.count" "write" (λ v. v.writes) "{operation}"
    ∷ block_row "system.disk.operation_time" "read" (λ v. v.read_ms) "ms"
    ∷ block_row "system.disk.operation_time" "write" (λ v. v.write_ms) "ms"
    ∷ block_row "system.disk.operation_time" "busy" (λ v. v.busy_ms) "ms"
    ∷ block_row "system.disk.queue_time" "weighted" (λ v. v.queue_ms) "ms"
    ∷ []

-- the point of a row for a device
unfoldable pub block_point :
    String → BlockCounters → Option BlockCounters → BlockRow → Option MetricPoint
unfolding since_last attributed
block_point device counters old row = attributed "direction" row.direction (
    attributed "device" device
      (since_last row.name row.unit "sysfs" (row.counter counters) (map_some row.counter old)))

-- whether a device is memory or a file
abbrev pub is_virtual : String → Bool
unfolding starts_with
is_virtual device = starts_with device "loop" || starts_with device "ram"

module _ (world : World) where
  -- the counters of a device that is not passed over
  unfoldable pub block_counters : String → Option BlockCounters
  unfolding is_virtual read_trimmed parse_block
  block_counters device =
      if is_virtual device
      then none
      else read_trimmed world (join (join "/sys/block" device) "stat") >>= parse_block

  -- the devices that are not passed over, with their counters
  unfoldable pub block_readings : List String → List (String × BlockCounters)
  unfolding block_counters
  block_readings devices =
      filter_map (λ device. map_some (λ counters. (device, counters)) (block_counters device))
        devices

  unfoldable pub device_points : BTreeMap String BlockCounters → String × BlockCounters → Points
  unfolding block_point get
  device_points previous (device, counters) =
      map (block_point device counters (get device previous)) block_rows

  unfoldable pub block_after : SystemCollector → Option (List String) → SystemCollector × Points
  unfolding block_readings device_points collect_map
  block_after collector none = (collector, [])
  block_after collector (some devices) =
      let readings = block_readings devices in
      (
        record collector { previous_block = collect_map readings },
        each (device_points collector.previous_block) readings,
      )

  -- `collect_block`
  unfoldable pub collect_block : SystemCollector → SystemCollector × Points
  unfolding block_after
  collect_block collector = block_after collector (world.read_dir "/sys/block")
