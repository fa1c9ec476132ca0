-- ===== src/Linux/Collector.antt =====
-- crates/spark-linux/src/lib.rs: the collections of `SystemCollector`. A collection reads one snapshot
-- of the system; a point that is `none` is a panic.
use spark_signals.Prelude.{String, Option, List, ◌∷◌, ◌++◌}
use spark_signals.Prelude.Optional.{collect_all}
use spark_signals.Float.{F64}
use spark_signals.Schema.{MetricPoint}
use spark_signals.Linux.Snapshot.{World}
use spark_signals.Points.{Points}
use spark_signals.Linux.State.{SystemCollector}
use spark_signals.Linux.Cpu.{collect_cpu, collect_uptime}
use spark_signals.Linux.Vmstat.{collect_vmstat}
use spark_signals.Linux.Network.{collect_network}
use spark_signals.Linux.Block.{collect_block}
use spark_signals.Linux.Memory.{collect_memory, collect_pressure}
use spark_signals.Linux.Filesystem.{collect_filesystem}
use spark_signals.Linux.Temperature.{collect_temperatures}

module _ (to_string : F64 → String) (world : World) where
  -- `collect_core`
  unfoldable pub collect_core : SystemCollector → SystemCollector × Points
  unfolding collect_cpu collect_uptime collect_memory collect_pressure collect_vmstat
      collect_temperatures
  collect_core collector =
      let (counted, cpu) = collect_cpu world collector in
      let (last, vmstat) = collect_vmstat world counted in
      (
        last,
        cpu
            ++ collect_uptime world ∷ collect_memory world
            ++ collect_pressure world "cpu"
            ++ collect_pressure world "memory"
            ++ collect_pressure world "io"
            ++ vmstat
            ++ collect_temperatures to_string world,
      )

  -- `collect_network_points`
  unfoldable pub collect_network_points : SystemCollector → SystemCollector × Points
  unfolding collect_network
  collect_network_points collector = collect_network world collector

  -- `collect_storage`
  unfoldable pub collect_storage : SystemCollector → SystemCollector × Points
  unfolding collect_block collect_filesystem
  collect_storage collector =
      let (last, points) = collect_block world collector in
      (last, points ++ collect_filesystem world)

  -- `collect`
  unfoldable pub collect : SystemCollector → SystemCollector × Option (List MetricPoint)
  unfolding collect_core collect_network_points collect_storage
  collect collector =
      let (after_core, core) = collect_core collector in
      let (after_network, network) = collect_network_points after_core in
      let (last, storage) = collect_storage after_network in
      (last, collect_all (core ++ network ++ storage))
