-- ===== src/Linux/Cpu.antt =====
-- crates/spark-linux/src/lib.rs, `collect_cpu`, `collect_cpu_sysfs` and `collect_uptime`.
use spark_signals.Prelude.{
  ◌-◌, String, true, not, ◌&&◌, Option, none, some, [], ◌∷◌, ◌++◌, map_or, eqb, if◌then◌else◌,
}
use spark_signals.Prelude.Optional.{◌>>=◌, map_some}
use spark_signals.Order.{◌==◌, text_ord}
use spark_signals.Float.{F64, from_u64, from_bool}
use spark_signals.Float.Arithmetic.{div, mul}
use spark_signals.Float.Parse.{parse_f64}
use spark_signals.Text.{strip_prefix, is_empty, all_bytes, is_ascii_digit}
use spark_signals.Schema.{MetricPoint, Quality}
use spark_signals.Linux.Snapshot.{World, join, readable, read_trimmed, read_first_f64}
use spark_signals.Points.{Points, attributed, each, made}
use spark_signals.Linux.Points.{gauge, unavailable, since_last}
use spark_signals.Linux.Parse.{CpuTimes, parse_cpu_times}
use spark_signals.Linux.State.{SystemCollector}

unfoldable pub stale_utilization : String → Option MetricPoint
unfolding unavailable
stale_utilization code = unavailable "system.cpu.utilization" "1" Quality.stale code

-- the share of the interval that was not idle
unfoldable pub busy_share : CpuTimes → CpuTimes → F64
unfolding div from_u64
busy_share old current =
    let total = current.total - old.total in
    div (from_u64 (total - (current.idle - old.idle))) (from_u64 total)

unfoldable pub utilization : CpuTimes → Option CpuTimes → Option MetricPoint
unfolding gauge busy_share stale_utilization
utilization current none = stale_utilization "BASELINE_INITIALIZING"
utilization current (some old) =
    if eqb (current.total - old.total) 0
    then stale_utilization "ZERO_INTERVAL"
    else gauge "system.cpu.utilization" (busy_share old current) "1" Quality.derived

unfoldable pub cpu_points : Option CpuTimes → Option CpuTimes → Points
unfolding gauge unavailable since_last utilization from_u64
cpu_points previous (some current) =
    utilization current previous
    ∷ gauge "system.cpu.tasks.runnable" (from_u64 current.runnable) "{task}" Quality.measured
    ∷ gauge "system.cpu.tasks.blocked" (from_u64 current.blocked) "{task}" Quality.measured
    ∷ since_last "system.cpu.context_switches" "{context_switch}" "procfs" current.context_switches
        (map_some (λ (old : CpuTimes). old.context_switches) previous)
    ∷ []
cpu_points previous none =
    unavailable "system.cpu.utilization" "1" Quality.error "PROC_STAT_READ_FAILED"
    ∷ unavailable "system.cpu.context_switches" "{context_switch}" Quality.error
        "PROC_STAT_READ_FAILED"
    ∷ []

-- `self.previous_cpu.replace(current)`, if there is a current value
abbrev pub replaced : Option CpuTimes → Option CpuTimes → Option CpuTimes
replaced previous none = previous
replaced previous (some current) = some current

module _ (world : World) where
  unfoldable pub load_average : Option MetricPoint
  unfolding gauge unavailable read_first_f64
  load_average =
      map_or (read_first_f64 world "/proc/loadavg")
        (unavailable "system.cpu.load_average.1m" "1" Quality.error "PROC_LOADAVG_READ_FAILED")
        (λ value. gauge "system.cpu.load_average.1m" value "1" Quality.measured)

  -- the number of a processor's directory
  unfoldable pub logical_number : String → Option String
  unfolding strip_prefix all_bytes
  logical_number name = do
    id ← strip_prefix name "cpu"
    if not (is_empty id) && all_bytes is_ascii_digit id then some id else none

  unfoldable pub frequency : String → String → Points
  unfolding gauge attributed read_trimmed parse_f64 mul from_u64
  frequency path id =
      made
        (λ khz.
          attributed "cpu.logical_number" id
            (gauge "system.cpu.frequency" (mul khz (from_u64 1000)) "Hz" Quality.measured))
        (read_trimmed world (join path "cpufreq/scaling_cur_freq") >>= parse_f64)

  unfoldable pub processor_points : String → String → Points
  unfolding frequency gauge attributed read_trimmed
  processor_points path id =
      let online = map_or (read_trimmed world (join path "online")) true (λ value. value == "1") in
      attributed "cpu.logical_number" id
        (gauge "system.cpu.online" (from_bool online) "1" Quality.measured)
      ∷ (if online then frequency path id else [])

  unfoldable pub cpu_entry : String → Points
  unfolding logical_number processor_points
  cpu_entry name =
      map_or (logical_number name) [] (processor_points (join "/sys/devices/system/cpu" name))

  -- `collect_cpu_sysfs`
  unfoldable pub collect_cpu_sysfs : Points
  unfolding cpu_entry
  collect_cpu_sysfs = map_or (world.read_dir "/sys/devices/system/cpu") [] (each cpu_entry)

  -- `collect_cpu`
  unfoldable pub collect_cpu : SystemCollector → SystemCollector × Points
  unfolding cpu_points load_average collect_cpu_sysfs parse_cpu_times
  collect_cpu collector =
      let current = readable (world.read_to_string "/proc/stat") >>= parse_cpu_times in
      (
        record collector { previous_cpu = replaced collector.previous_cpu current },
        cpu_points collector.previous_cpu current ++ load_average ∷ collect_cpu_sysfs,
      )

  -- `collect_uptime`
  unfoldable pub collect_uptime : Option MetricPoint
  unfolding gauge unavailable read_first_f64
  collect_uptime =
      map_or (read_first_f64 world "/proc/uptime")
        (unavailable "system.uptime" "s" Quality.error "PROC_UPTIME_READ_FAILED")
        (λ value. gauge "system.uptime" value "s" Quality.measured)
