-- ===== src/Linux/Vmstat.antt =====
-- crates/spark-linux/src/lib.rs, `collect_vmstat`.
use spark_signals.Prelude.{ℕ, ◌-◌, String, Option, none, some, List, [], ◌∷◌, map}
use spark_signals.Prelude.Optional.{filter_map}
use spark_signals.Order.{text_ord}
use spark_signals.BTreeMap.{BTreeMap, get, insert}
use spark_signals.Schema.{MetricPoint, Quality}
use spark_signals.Linux.Snapshot.{World, readable, page_size}
use spark_signals.Points.{Points, attributed}
use spark_signals.Linux.Points.{unavailable, counter_delta}
use spark_signals.Linux.Parse.{saturating_mul, wrapping_sum, parse_key_values}
use spark_signals.Linux.State.{SystemCollector}

-- a row of the table of `collect_vmstat`
pub record VmstatRow : Type 0 where
  pub key : String
  pub name : String
  pub unit : String
  pub multiplier : ℕ
  pub direction : Option String

abbrev pub vmstat_rows : ℕ → List VmstatRow
vmstat_rows page =
    record {
      key = "pgmajfault";
      name = "system.memory.page_faults.major";
      unit = "{fault}";
      multiplier = 1;
      direction = none;
    }
    ∷ record {
      key = "pswpin";
      name = "system.memory.paging";
      unit = "By";
      multiplier = page;
      direction = some "in";
    }
    ∷ record {
      key = "pswpout";
      name = "system.memory.paging";
      unit = "By";
      multiplier = page;
      direction = some "out";
    }
    ∷ record {
      key = "oom_kill";
      name = "system.memory.oom_kills";
      unit = "{event}";
      multiplier = 1;
      direction = none;
    }
    ∷ record {
      key = "spark_reclaim_pages";
      name = "system.memory.reclaim";
      unit = "By";
      multiplier = page;
      direction = none;
    }
    ∷ []

-- the parsed file with the pages that were scanned to reclaim them
unfoldable pub with_reclaim : BTreeMap String ℕ → BTreeMap String ℕ
unfolding insert get
with_reclaim values =
    insert "spark_reclaim_pages"
      (wrapping_sum (filter_map (λ key. get key values) ("pgscan_kswapd" ∷ "pgscan_direct" ∷ [])))
      values

unfoldable pub directed : Option String → Option MetricPoint → Option MetricPoint
unfolding attributed
directed none point = point
directed (some direction) point = attributed "direction" direction point

-- the delta of a row's counter, or that there is no earlier value
unfoldable pub vmstat_delta : VmstatRow → ℕ → Option ℕ → Option MetricPoint
unfolding unavailable counter_delta
vmstat_delta row value none = unavailable row.name row.unit Quality.stale "BASELINE_INITIALIZING"
vmstat_delta row value (some old) =
    counter_delta row.name (saturating_mul (value - old) row.multiplier) row.unit "procfs"

unfoldable pub vmstat_value : VmstatRow → Option ℕ → Option ℕ → Option MetricPoint
unfolding unavailable vmstat_delta
vmstat_value row previous none =
    unavailable row.name row.unit Quality.unsupported "VMSTAT_FIELD_MISSING"
vmstat_value row previous (some value) = vmstat_delta row value previous

-- the point of a row
unfoldable pub vmstat_point : BTreeMap String ℕ → BTreeMap String ℕ → VmstatRow → Option MetricPoint
unfolding vmstat_value get directed
vmstat_point previous current row =
    directed row.direction (vmstat_value row (get row.key previous) (get row.key current))

unfoldable pub vmstat_failed : Points
unfolding unavailable
vmstat_failed =
    map (λ (p : String × String). unavailable p.0 p.1 Quality.error "PROC_VMSTAT_READ_FAILED")
      (("system.memory.page_faults.major", "{fault}")
        ∷ ("system.memory.paging", "By")
        ∷ ("system.memory.oom_kills", "{event}")
        ∷ [])

unfoldable pub vmstat_after : ℕ → SystemCollector → Option String → SystemCollector × Points
unfolding vmstat_point with_reclaim parse_key_values vmstat_failed
vmstat_after page collector none = (collector, vmstat_failed)
vmstat_after page collector (some raw) =
    let current = with_reclaim (parse_key_values raw) in
    (
      record collector { previous_vmstat = current },
      map (vmstat_point collector.previous_vmstat current) (vmstat_rows page),
    )

-- `collect_vmstat`
unfoldable pub collect_vmstat : World → SystemCollector → SystemCollector × Points
unfolding vmstat_after
collect_vmstat world collector =
    vmstat_after (page_size world) collector (readable (world.read_to_string "/proc/vmstat"))
