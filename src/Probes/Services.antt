-- ===== src/Probes/Services.antt =====
-- crates/spark-probes/src/lib.rs, `ServiceProbe`. What `systemctl show` prints for a unit, if it
-- succeeds, and what the files of cgroups hold are parameters.
use spark_signals.Prelude.{
  ℕ, ◌-◌, String, Option, none, some, List, [], ◌∷◌, ◌++◌, map_or, unwrap_or, is_some_and,
  if◌then◌else◌,
}
use spark_signals.Prelude.Optional.{◌>>=◌}
use spark_signals.Order.{◌==◌, nat_ord, text_ord, pair_ord}
use spark_signals.BTreeMap.{BTreeMap, get, insert}
use spark_signals.Float.{zero_f64, from_u64, from_bool}
use spark_signals.Float.Parse.{parse_f64}
use spark_signals.Text.{is_empty, starts_with}
use spark_signals.Text.Split.{trim_start}
use spark_signals.Schema.{MetricPoint, Quality}
use spark_signals.Schema.Point.{gauge, counter_delta, unavailable}
use spark_signals.Linux.{join}
use spark_signals.Points.{Points, attributed}
use spark_signals.Probes.Config.{ServiceConfig}
use spark_signals.Probes.Parse.{parse_properties, parse_u64_properties}

-- the field of `ServiceProbe`
abbrev pub CgroupBaselines : Type 0
CgroupBaselines = BTreeMap (String × String) ℕ

unfoldable pub cgroup_point : String → String → ℕ → Option ℕ → Option MetricPoint
unfolding counter_delta unavailable from_u64
cgroup_point metric unit value previous =
    map_or previous (unavailable metric unit Quality.stale "cgroupfs" "BASELINE_INITIALIZING")
      (λ old. counter_delta metric (from_u64 (value - old)) unit "cgroupfs")

-- `cgroup_delta`
unfoldable pub cgroup_delta :
    CgroupBaselines → String → String → ℕ → String → String → CgroupBaselines × Option MetricPoint
unfolding cgroup_point attributed get insert
cgroup_delta baselines unit event value metric metric_unit =
    let key : String × String = (unit, event) in
    (
      insert key value baselines,
      attributed "cgroup.scope" "service" (
          attributed "systemd.unit" unit
            (cgroup_point metric metric_unit value (get key baselines))),
    )

abbrev pub event_metric : String → String
event_metric event =
    if event == "oom_kill" then "system.memory.oom_kills" else "system.memory.cgroup.events"

-- the loop over the events of memory.events
unfoldable pub collect_events :
    String → CgroupBaselines → BTreeMap String ℕ → CgroupBaselines × Points
unfolding cgroup_delta attributed
collect_events unit baselines [] = (baselines, [])
collect_events unit baselines ((event, value) ∷ events) =
    let (next, point) = cgroup_delta baselines unit event value (event_metric event) "{event}" in
    let (last, points) = collect_events unit next events in
    (last, attributed "cgroup.memory.event" event point ∷ points)

-- the pages that were scanned, if memory.stat tells
unfoldable pub collect_scanned : String → CgroupBaselines → Option ℕ → CgroupBaselines × Points
unfolding cgroup_delta attributed
collect_scanned unit baselines none = (baselines, [])
collect_scanned unit baselines (some value) =
    let (next, point) =
      cgroup_delta baselines unit "pgscan" value "system.memory.reclaim" "{page}" in
    (next, attributed "cgroup.memory.event" "pgscan" point ∷ [])

abbrev pub cgroup_root : String → String
unfolding trim_start starts_with
cgroup_root control_group = join "/sys/fs/cgroup" (trim_start (λ c. c == b'/') control_group)

-- a property that is not `0`, as an attribute
unfoldable pub with_property :
    BTreeMap String String → String → String → Option MetricPoint → Option MetricPoint
unfolding attributed get
with_property values property attribute point =
    map_or (get property values) point
      (λ value. if value == "0" then point else attributed attribute value point)

unfoldable pub active_point : String → BTreeMap String String → Option MetricPoint
unfolding gauge attributed get with_property
active_point name values =
    let active = is_some_and (get "ActiveState" values) (λ value. value == "active") in
    let plain =
      attributed "systemd.unit" name
        (gauge "spark.service.active" (from_bool active) "1" Quality.measured "systemd") in
    let stated =
      map_or (get "SubState" values) plain (λ state. attributed "systemd.substate" state plain) in
    with_property values "ActiveEnterTimestampMonotonic"
      "systemd.active_enter_timestamp_monotonic_us"
      (with_property values "MainPID" "process.pid" stated)

unfoldable pub restarts_point : String → BTreeMap String String → Option MetricPoint
unfolding gauge attributed get parse_f64
restarts_point name values = attributed "systemd.unit" name (
    gauge "spark.service.restarts" (unwrap_or (get "NRestarts" values >>= parse_f64) zero_f64)
      "{restart}" Quality.measured "systemd")

module _ (read : String → Option String) where
  -- `collect_cgroup`
  unfoldable pub collect_cgroup : String → CgroupBaselines → String → CgroupBaselines × Points
  unfolding collect_events collect_scanned parse_u64_properties get trim_start starts_with
  collect_cgroup unit baselines control_group =
      let root = cgroup_root control_group in
      let events = map_or (read (join root "memory.events")) [] parse_u64_properties in
      let scanned =
        read (join root "memory.stat") >>= λ raw. get "pgscan" (parse_u64_properties raw) in
      let (counted, points) = collect_events unit baselines events in
      let (last, more) = collect_scanned unit counted scanned in (last, points ++ more)

  unfoldable pub group_points : String → CgroupBaselines → Option String → CgroupBaselines × Points
  unfolding collect_cgroup
  group_points name baselines none = (baselines, [])
  group_points name baselines (some control_group) =
      if is_empty control_group
      then (baselines, [])
      else collect_cgroup name baselines control_group

  -- the body of the loop of `collect`
  unfoldable pub collect_service :
      String → CgroupBaselines → Option String → CgroupBaselines × Points
  unfolding gauge unavailable attributed active_point restarts_point group_points parse_properties
      get
  collect_service name baselines none = (
    baselines,
    attributed "systemd.unit" name
          (unavailable "spark.service.active" "1" Quality.error "systemd" "SYSTEMD_QUERY_FAILED")
        ∷ [],
  )
  collect_service name baselines (some raw) =
      let values = parse_properties raw in
      let (last, points) = group_points name baselines (get "ControlGroup" values) in
      (last, active_point name values ∷ restarts_point name values ∷ points)

  -- `ServiceProbe::collect`
  unfoldable pub collect_services :
      (String → Option String) → List ServiceConfig → CgroupBaselines → CgroupBaselines × Points
  unfolding collect_service
  collect_services show [] baselines = (baselines, [])
  collect_services show (config ∷ configs) baselines =
      let (next, points) = collect_service config.name baselines (show config.name) in
      let (last, more) = collect_services show configs next in (last, points ++ more)
