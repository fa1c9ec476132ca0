-- ===== src/Probes/Validity/Services.antt =====
-- That the points of the services are made.
use spark_signals.Prelude.{
  ℕ, ◌+◌, String, ◌≡◌, refl, true, Option, none, some, List, [], ◌∷◌, map_or, unwrap_or,
  is_some_and, All-append, arith,
}
use spark_signals.Prelude.Optional.{◌>>=◌}
use spark_signals.Order.{◌==◌, text_ord, pair_ord, nat_ord}
use spark_signals.BTreeMap.{BTreeMap, get}
use spark_signals.Text.{is_empty}
use spark_signals.Float.{zero_f64, from_bool}
use spark_signals.Float.Parse.{parse_f64}
use spark_signals.Schema.{MetricPoint, Quality, metric_name_allowed, attribute_name_allowed}
use spark_signals.Schema.Point.{gauge, unavailable}
use spark_signals.Linux.{join}
use spark_signals.Points.{Points, attributed}
use spark_signals.Points.Made.{
  IsMade, AllMade, gauge-IsMade, unavailable-IsMade, counter_delta-IsMade, attributed-IsMade,
  IsMade-mono, map_or-IsMade, either,
}
use spark_signals.Probes.Config.{ServiceConfig}
use spark_signals.Probes.Parse.{parse_properties, parse_u64_properties}
use spark_signals.Probes.Services.{
  CgroupBaselines, cgroup_point, cgroup_delta, event_metric, collect_events, collect_scanned,
  cgroup_root, with_property, active_point, restarts_point, collect_cgroup, group_points,
  collect_service, collect_services,
}

cgroup_point-IsMade :
    (metric unit : String) (value : ℕ) (previous : Option ℕ)
    → metric_name_allowed metric ≡ true
    → IsMade 0 (cgroup_point metric unit value previous)
unfolding cgroup_point
cgroup_point-IsMade metric unit value previous h =
    map_or-IsMade 0 previous _ _ (unavailable-IsMade _ _ _ _ _ h)
      (λ old. counter_delta-IsMade _ _ _ _ h)

cgroup_delta-IsMade :
    (baselines : CgroupBaselines) (unit event : String) (value : ℕ) (metric metric_unit : String)
    → metric_name_allowed metric ≡ true
    → IsMade 2 (cgroup_delta baselines unit event value metric metric_unit).1
unfolding cgroup_delta attribute_name_allowed
cgroup_delta-IsMade baselines unit event value metric metric_unit h =
    attributed-IsMade 1 "cgroup.scope" "service" _ refl (
      attributed-IsMade 0 "systemd.unit" unit _ refl
        (cgroup_point-IsMade metric metric_unit value (get (unit, event) baselines) h))

-- A point of cgroups with the name of its event.
event_point-IsMade :
    (baselines : CgroupBaselines) (unit event : String) (value : ℕ) (metric metric_unit : String)
    → metric_name_allowed metric ≡ true
    → IsMade 24 (
        attributed "cgroup.memory.event" event
          (cgroup_delta baselines unit event value metric metric_unit).1)
unfolding attribute_name_allowed
event_point-IsMade baselines unit event value metric metric_unit h =
    IsMade-mono 3 24 _ (omega arith) (
      attributed-IsMade 2 "cgroup.memory.event" event _ refl
        (cgroup_delta-IsMade baselines unit event value metric metric_unit h))

event_metric_allowed : (event : String) → metric_name_allowed (event_metric event) ≡ true
unfolding metric_name_allowed
event_metric_allowed event =
    either (λ name. metric_name_allowed name ≡ true) (event == "oom_kill") "system.memory.oom_kills"
      "system.memory.cgroup.events" refl refl

collect_events-AllMade :
    (unit : String) (events : BTreeMap String ℕ) (baselines : CgroupBaselines)
    → AllMade (collect_events unit baselines events).1
unfolding collect_events
collect_events-AllMade unit [] baselines = tt
collect_events-AllMade unit ((event, value) ∷ events) baselines = (
  event_point-IsMade baselines unit event value (event_metric event) "{event}"
      (event_metric_allowed event),
  collect_events-AllMade unit events
      (cgroup_delta baselines unit event value (event_metric event) "{event}").0,
)

collect_scanned-AllMade :
    (unit : String) (baselines : CgroupBaselines) (value : Option ℕ)
    → AllMade (collect_scanned unit baselines value).1
unfolding collect_scanned metric_name_allowed
collect_scanned-AllMade unit baselines none = tt
collect_scanned-AllMade unit baselines (some value) =
    (event_point-IsMade baselines unit "pgscan" value "system.memory.reclaim" "{page}" refl, tt)

with_property-IsMade :
    (n : ℕ) (values : BTreeMap String String) (property attribute : String)
    (point : Option MetricPoint)
    → attribute_name_allowed attribute ≡ true
    → IsMade n point
    → IsMade (n + 1) (with_property values property attribute point)
unfolding with_property
with_property-IsMade n values property attribute point h m =
    let fewer = IsMade-mono n (n + 1) point (omega arith) m in
    map_or-IsMade (n + 1) (get property values) _ _ fewer (λ value.
      either (IsMade (n + 1)) (value == "0") point _ fewer
        (attributed-IsMade n attribute value point h m))

active_point-IsMade :
    (name : String) (values : BTreeMap String String) → IsMade 24 (active_point name values)
unfolding active_point metric_name_allowed attribute_name_allowed
active_point-IsMade name values =
    let active = is_some_and (get "ActiveState" values) (λ value. value == "active") in
    let running = gauge "spark.service.active" (from_bool active) "1" Quality.measured "systemd" in
    let start =
      gauge-IsMade "spark.service.active" (from_bool active) "1" Quality.measured "systemd" refl in
    let named = attributed "systemd.unit" name running in
    let plain = attributed-IsMade 0 "systemd.unit" name running refl start in
    let stated =
      map_or-IsMade 2 (get "SubState" values) named
        (λ state. attributed "systemd.substate" state named)
        (IsMade-mono 1 2 named (omega arith) plain)
        (λ state. attributed-IsMade 1 "systemd.substate" state named refl plain) in
    IsMade-mono 4 24 _ (omega arith) (
      with_property-IsMade 3 values "ActiveEnterTimestampMonotonic"
        "systemd.active_enter_timestamp_monotonic_us" _ refl
        (with_property-IsMade 2 values "MainPID" "process.pid" _ refl stated))

restarts_point-IsMade :
    (name : String) (values : BTreeMap String String) → IsMade 24 (restarts_point name values)
unfolding restarts_point metric_name_allowed attribute_name_allowed
restarts_point-IsMade name values =
    let restarts = unwrap_or (get "NRestarts" values >>= parse_f64) zero_f64 in
    let start =
      gauge-IsMade "spark.service.restarts" restarts "{restart}" Quality.measured "systemd" refl in
    let point = gauge "spark.service.restarts" restarts "{restart}" Quality.measured "systemd" in
    IsMade-mono 1 24 (attributed "systemd.unit" name point) (omega arith)
      (attributed-IsMade 0 "systemd.unit" name point refl start)

query_failed-IsMade :
    (name : String)
    → IsMade 24 (
        attributed "systemd.unit" name
          (unavailable "spark.service.active" "1" Quality.error "systemd" "SYSTEMD_QUERY_FAILED"))
unfolding metric_name_allowed attribute_name_allowed
query_failed-IsMade name =
    IsMade-mono 1 24 _ (omega arith)
      (attributed-IsMade 0 "systemd.unit" name _ refl (unavailable-IsMade _ _ _ _ _ refl))

module _ (read : String → Option String) where
  collect_cgroup-AllMade :
      (unit : String) (baselines : CgroupBaselines) (control_group : String)
      → AllMade (collect_cgroup read unit baselines control_group).1
  unfolding collect_cgroup
  collect_cgroup-AllMade unit baselines control_group =
      let root = cgroup_root control_group in
      let events = map_or (read (join root "memory.events")) [] parse_u64_properties in
      let scanned =
        read (join root "memory.stat") >>= λ raw. get "pgscan" (parse_u64_properties raw) in
      let counted = collect_events unit baselines events in
      All-append (IsMade 24) counted.1 (collect_scanned unit counted.0 scanned).1
        (collect_events-AllMade unit events baselines)
        (collect_scanned-AllMade unit counted.0 scanned)

  group_points-AllMade :
      (name : String) (baselines : CgroupBaselines) (group : Option String)
      → AllMade (group_points read name baselines group).1
  unfolding group_points
  group_points-AllMade name baselines none = tt
  group_points-AllMade name baselines (some group) =
      either (λ (s : CgroupBaselines × Points). AllMade s.1) (is_empty group) (baselines, [])
        (collect_cgroup read name baselines group) tt (collect_cgroup-AllMade name baselines group)

  collect_service-AllMade :
      (name : String) (baselines : CgroupBaselines) (output : Option String)
      → AllMade (collect_service read name baselines output).1
  unfolding collect_service
  collect_service-AllMade name baselines none = (query_failed-IsMade name, tt)
  collect_service-AllMade name baselines (some raw) =
      let values = parse_properties raw in
      (
        active_point-IsMade name values,
        (
          restarts_point-IsMade name values,
          group_points-AllMade name baselines (get "ControlGroup" values),
        ),
      )

  pub collect_services-AllMade :
      (show : String → Option String) (configs : List ServiceConfig) (baselines : CgroupBaselines)
      → AllMade (collect_services read show configs baselines).1
  unfolding collect_services
  collect_services-AllMade show [] baselines = tt
  collect_services-AllMade show (config ∷ configs) baselines =
      let step = collect_service read config.name baselines (show config.name) in
      All-append (IsMade 24) step.1 (collect_services read show configs step.0).1
        (collect_service-AllMade config.name baselines (show config.name))
        (collect_services-AllMade show configs step.0)
