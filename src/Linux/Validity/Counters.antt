-- ===== src/Linux/Validity/Counters.antt =====
-- That the points of the counters of processors, memory, networks and disks are made.
use spark_signals.Prelude.{
  ℕ, ◌-◌, String, ◌≡◌, refl, true, Option, none, some, List, [], ◌∷◌, map, All-append, arith, eqb,
}
use spark_signals.Order.{text_ord}
use spark_signals.BTreeMap.{BTreeMap, get}
use spark_signals.Schema.{MetricPoint, metric_name_allowed, attribute_name_allowed}
use spark_signals.Linux.Snapshot.{World, readable, page_size}
use spark_signals.Points.{attributed, each}
use spark_signals.Linux.State.{SystemCollector}
use spark_signals.Linux.Parse.{
  CpuTimes, NetworkCounters, BlockCounters, parse_network, parse_key_values,
}
use spark_signals.Linux.Cpu.{
  utilization, cpu_points, load_average, frequency, logical_number, processor_points, cpu_entry,
  collect_cpu_sysfs, collect_cpu, collect_uptime,
}
use spark_signals.Linux.Vmstat.{
  VmstatRow, vmstat_rows, with_reclaim, directed, vmstat_value, vmstat_point, vmstat_after,
  collect_vmstat,
}
use spark_signals.Linux.Network.{
  NetworkRow, network_rows, network_point, link_up, link_speed, is_skipped, with_carrier,
  physical_points, interface_points, network_after, collect_network,
}
use spark_signals.Linux.Block.{
  BlockRow, block_rows, block_point, block_readings, device_points, block_after, collect_block,
}
use spark_signals.Linux.Validity.{
  gauge-IsMade, unavailable-IsMade, counter_delta-IsMade, since_last-IsMade,
}
use spark_signals.Points.Made.{
  IsMade, AllMade, attributed-IsMade, IsMade-mono, either, plain, map_or-IsMade, each-AllMade,
  map-AllMade, map_or-AllMade, made-AllMade,
}

utilization-IsMade :
    (current : CpuTimes) (previous : Option CpuTimes) → IsMade 0 (utilization current previous)
unfolding utilization metric_name_allowed
utilization-IsMade current none = unavailable-IsMade _ _ _ _ refl
utilization-IsMade current (some old) =
    either (IsMade 0) (eqb (current.total - old.total) 0) _ _ (unavailable-IsMade _ _ _ _ refl)
      (gauge-IsMade _ _ _ _ refl)

cpu_points-AllMade : (previous current : Option CpuTimes) → AllMade (cpu_points previous current)
unfolding cpu_points metric_name_allowed
cpu_points-AllMade previous none =
    (plain _ (unavailable-IsMade _ _ _ _ refl), (plain _ (unavailable-IsMade _ _ _ _ refl), tt))
cpu_points-AllMade previous (some current) = (
  plain _ (utilization-IsMade current previous),
  (
    plain _ (gauge-IsMade _ _ _ _ refl),
    (plain _ (gauge-IsMade _ _ _ _ refl), (plain _ (since_last-IsMade _ _ _ _ _ refl), tt)),
  ),
)

module _ (world : World) where
  load_average-IsMade : IsMade 0 (load_average world)
  unfolding load_average metric_name_allowed
  load_average-IsMade =
      map_or-IsMade 0 _ _ _ (unavailable-IsMade _ _ _ _ refl) (λ v. gauge-IsMade _ _ _ _ refl)

  pub collect_uptime-IsMade : IsMade 0 (collect_uptime world)
  unfolding collect_uptime metric_name_allowed
  collect_uptime-IsMade =
      map_or-IsMade 0 _ _ _ (unavailable-IsMade _ _ _ _ refl) (λ v. gauge-IsMade _ _ _ _ refl)

  numbered :
      (id : String) (point : Option MetricPoint)
      → IsMade 0 point
      → IsMade 24 (attributed "cpu.logical_number" id point)
  unfolding attribute_name_allowed
  numbered id point m = IsMade-mono 1 24 _ (omega arith) (attributed-IsMade 0 _ id point refl m)

  frequency-AllMade : (path id : String) → AllMade (frequency world path id)
  unfolding frequency metric_name_allowed
  frequency-AllMade path id = made-AllMade _ _ (λ khz. numbered id _ (gauge-IsMade _ _ _ _ refl))

  processor_points-AllMade : (path id : String) → AllMade (processor_points world path id)
  unfolding processor_points metric_name_allowed
  processor_points-AllMade path id = (
    numbered id _ (gauge-IsMade _ _ _ _ refl),
    either AllMade _ (frequency world path id) [] (frequency-AllMade path id) tt,
  )

  cpu_entry-AllMade : (name : String) → AllMade (cpu_entry world name)
  unfolding cpu_entry
  cpu_entry-AllMade name =
      map_or-AllMade (logical_number world name) (processor_points world _)
        (processor_points-AllMade _)

  pub collect_cpu-AllMade : (collector : SystemCollector) → AllMade (collect_cpu world collector).1
  unfolding collect_cpu collect_cpu_sysfs
  collect_cpu-AllMade collector =
      All-append (IsMade 24) (cpu_points collector.previous_cpu _) _ (cpu_points-AllMade _ _) (
        plain _ load_average-IsMade,
        map_or-AllMade (world.read_dir "/sys/devices/system/cpu") (each (cpu_entry world))
            (λ entries. each-AllMade _ entries cpu_entry-AllMade),
      )

  -- memory
  directed-IsMade :
      (direction : Option String) (point : Option MetricPoint)
      → IsMade 0 point
      → IsMade 24 (directed direction point)
  unfolding directed attribute_name_allowed
  directed-IsMade none point m = plain point m
  directed-IsMade (some d) point m =
      IsMade-mono 1 24 _ (omega arith) (attributed-IsMade 0 _ d point refl m)

  vmstat_value-IsMade :
      (row : VmstatRow) (previous value : Option ℕ)
      → metric_name_allowed row.name ≡ true
      → IsMade 0 (vmstat_value row previous value)
  unfolding vmstat_value
  vmstat_value-IsMade row previous none h = unavailable-IsMade _ _ _ _ h
  vmstat_value-IsMade row none (some value) h = unavailable-IsMade _ _ _ _ h
  vmstat_value-IsMade row (some old) (some value) h = counter_delta-IsMade _ _ _ _ h

  vmstat_point-IsMade :
      (previous current : BTreeMap String ℕ) (row : VmstatRow)
      → metric_name_allowed row.name ≡ true
      → IsMade 24 (vmstat_point previous current row)
  unfolding vmstat_point
  vmstat_point-IsMade previous current row h =
      directed-IsMade row.direction _ (vmstat_value-IsMade row _ _ h)

  vmstat_after-AllMade :
      (page : ℕ) (collector : SystemCollector) (text : Option String)
      → AllMade (vmstat_after page collector text).1
  unfolding vmstat_after metric_name_allowed
  vmstat_after-AllMade page collector none = (
    plain _ (unavailable-IsMade _ _ _ _ refl),
    (plain _ (unavailable-IsMade _ _ _ _ refl), (plain _ (unavailable-IsMade _ _ _ _ refl), tt)),
  )
  vmstat_after-AllMade page collector (some raw) =
      map-AllMade (λ (row : VmstatRow). metric_name_allowed row.name ≡ true)
        (vmstat_point collector.previous_vmstat (with_reclaim (parse_key_values raw)))
        (vmstat_rows page) (refl, (refl, (refl, (refl, (refl, tt)))))
        (vmstat_point-IsMade collector.previous_vmstat (with_reclaim (parse_key_values raw)))

  pub collect_vmstat-AllMade :
      (collector : SystemCollector) → AllMade (collect_vmstat world collector).1
  unfolding collect_vmstat
  collect_vmstat-AllMade collector =
      vmstat_after-AllMade (page_size world) collector
        (readable (world.read_to_string "/proc/vmstat"))

  -- networks
  network_point-IsMade :
      (interface : String) (counters : NetworkCounters) (old : Option NetworkCounters)
      (row : NetworkRow)
      → metric_name_allowed row.name ≡ true
      → IsMade 24 (network_point interface counters old row)
  unfolding network_point attribute_name_allowed
  network_point-IsMade interface counters old row h = IsMade-mono 2 24 _ (omega arith) (
      attributed-IsMade 1 _ _ _ refl
        (attributed-IsMade 0 _ _ _ refl (since_last-IsMade _ _ _ _ _ h)))

  on_interface :
      (interface : String) (point : Option MetricPoint)
      → IsMade 0 point
      → IsMade 24 (attributed "network.interface.name" interface point)
  unfolding attribute_name_allowed
  on_interface interface point m =
      IsMade-mono 1 24 _ (omega arith) (attributed-IsMade 0 _ interface point refl m)

  physical_points-AllMade :
      (interface : String) (counters : NetworkCounters) (old : Option NetworkCounters)
      → AllMade (physical_points world interface counters old)
  unfolding physical_points link_up link_speed metric_name_allowed
  physical_points-AllMade interface counters old =
      All-append (IsMade 24) (map (network_point interface counters old) network_rows)
        (link_up world interface ∷ link_speed world interface)
        (map-AllMade (λ (row : NetworkRow). metric_name_allowed row.name ≡ true)
          (network_point interface counters old) network_rows
          (refl, (refl, (refl, (refl, (refl, (refl, (refl, (refl, (refl, tt)))))))))
          (network_point-IsMade interface counters old))
        (
          on_interface interface _ (gauge-IsMade _ _ _ _ refl),
          made-AllMade _ _ (λ mbps. on_interface interface _ (gauge-IsMade _ _ _ _ refl)),
        )

  interface_points-AllMade :
      (previous : BTreeMap String NetworkCounters) (entry : String × NetworkCounters)
      → AllMade (interface_points world previous entry)
  unfolding interface_points
  interface_points-AllMade previous (interface, counters) =
      either AllMade (is_skipped world interface) []
        (physical_points world interface counters (get interface previous)) tt
        (physical_points-AllMade interface counters _)

  network_after-AllMade :
      (collector : SystemCollector) (text : Option String)
      → AllMade (network_after world collector text).1
  unfolding network_after
  network_after-AllMade collector none = tt
  network_after-AllMade collector (some raw) =
      each-AllMade (interface_points world collector.previous_network)
        (map (with_carrier world) (parse_network raw))
        (interface_points-AllMade collector.previous_network)

  pub collect_network-AllMade :
      (collector : SystemCollector) → AllMade (collect_network world collector).1
  unfolding collect_network
  collect_network-AllMade collector =
      network_after-AllMade collector (readable (world.read_to_string "/proc/net/dev"))

  -- disks
  block_point-IsMade :
      (device : String) (counters : BlockCounters) (old : Option BlockCounters) (row : BlockRow)
      → metric_name_allowed row.name ≡ true
      → IsMade 24 (block_point device counters old row)
  unfolding block_point attribute_name_allowed
  block_point-IsMade device counters old row h = IsMade-mono 2 24 _ (omega arith) (
      attributed-IsMade 1 _ _ _ refl
        (attributed-IsMade 0 _ _ _ refl (since_last-IsMade _ _ _ _ _ h)))

  device_points-AllMade :
      (previous : BTreeMap String BlockCounters) (entry : String × BlockCounters)
      → AllMade (device_points world previous entry)
  unfolding device_points metric_name_allowed
  device_points-AllMade previous (device, counters) =
      map-AllMade (λ (row : BlockRow). metric_name_allowed row.name ≡ true)
        (block_point device counters (get device previous)) block_rows
        (refl, (refl, (refl, (refl, (refl, (refl, (refl, (refl, tt))))))))
        (block_point-IsMade device counters _)

  block_after-AllMade :
      (collector : SystemCollector) (entries : Option (List String))
      → AllMade (block_after world collector entries).1
  unfolding block_after
  block_after-AllMade collector none = tt
  block_after-AllMade collector (some devices) =
      each-AllMade (device_points world collector.previous_block) (block_readings world devices)
        (device_points-AllMade collector.previous_block)

  pub collect_block-AllMade :
      (collector : SystemCollector) → AllMade (collect_block world collector).1
  unfolding collect_block
  collect_block-AllMade collector = block_after-AllMade collector (world.read_dir "/sys/block")
